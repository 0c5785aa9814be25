-- ===== src/Tests/TwoRuns.antt =====
-- Nine turns of the system of two nodes, after which the second has committed wave 1 and holds the leader
-- of wave 2.
use dag_rider.Prelude.{◌≡◌, refl, [], ◌∷◌, Memᴰ, some}
use dag_rider.Containers.Ordered
use dag_rider.Containers.Hashed
use dag_rider.Model.Block
use dag_rider.Model.Vertex.{Vertex}
use dag_rider.Model.Vertex
use dag_rider.Model.Committee.{get_nodes_keys, size}
use dag_rider.Model.Committee.Keys.{sort}
use dag_rider.Consensus.State
use dag_rider.Consensus.Dag.{
  add_roots, insert_vertex, get_vertices, collect_hashes, contains_vertices,
  is_quorum_reached_for_round, is_linked_with_others_in_round,
}
use dag_rider.Consensus.Dag
use dag_rider.Consensus.Protocol.{
  create, local_consensus, new_vertex, is_last_round_in_wave, get_round_for_wave,
}
use dag_rider.Consensus.Protocol.Loop.{turn}
use dag_rider.Consensus.System.{sent, Reaches, start, go}
use dag_rider.Tests.Samples.{reused}
use dag_rider.Tests.TwoNodes.{
  short, two, key, blocks, first_2, second_2, first_3, second_3, first_4, second_4, second_5,
  after_1, system_1, after_2, system_2, after_3, system_3, after_4, system_4, after_5, system_5,
  after_6, system_6, after_7, system_7, after_8, system_8, after_9, system_9,
}

turn_1 : turn short 60 (local_consensus short reused 10 two) [] blocks ≡ some after_1
unfolding turn local_consensus create State.create Dag.create add_roots Ordered.insert Hashed.insert
    new_vertex get_nodes_keys get_vertices collect_hashes Vertex.create Vertex.genesis
    is_quorum_reached_for_round is_last_round_in_wave insert_vertex contains_vertices Vertex.to_json
    Block.to_json Block.transactions_json Dag.is_linked Dag.search Dag.scan Vertex.get_all_parents
    Dag.push_newer Dag.get_vertex
turn_1 = refl

reaches_1 : Reaches short two (λ i. reused) key system_1 1
reaches_1 = go 1 60 [] blocks after_1 start tt turn_1

turn_2 : turn short 60 (local_consensus short reused 20 two) [] blocks ≡ some after_2
unfolding turn local_consensus create State.create Dag.create add_roots Ordered.insert Hashed.insert
    new_vertex get_nodes_keys get_vertices collect_hashes Vertex.create Vertex.genesis
    is_quorum_reached_for_round is_last_round_in_wave insert_vertex contains_vertices Vertex.to_json
    Block.to_json Block.transactions_json Dag.is_linked Dag.search Dag.scan Vertex.get_all_parents
    Dag.push_newer Dag.get_vertex
turn_2 = refl

reaches_2 : Reaches short two (λ i. reused) key system_2 2
reaches_2 = go 2 60 [] blocks after_2 reaches_1 tt turn_2

turn_3 : turn short 60 after_1 (first_2 ∷ second_2 ∷ []) blocks ≡ some after_3
unfolding turn local_consensus create State.create Dag.create add_roots Ordered.insert Hashed.insert
    new_vertex get_nodes_keys get_vertices collect_hashes Vertex.create Vertex.genesis
    is_quorum_reached_for_round is_last_round_in_wave insert_vertex contains_vertices Vertex.to_json
    Block.to_json Block.transactions_json Dag.is_linked Dag.search Dag.scan Vertex.get_all_parents
    Dag.push_newer Dag.get_vertex
turn_3 = refl

reaches_3 : Reaches short two (λ i. reused) key system_3 3
reaches_3 =
    go 1 60 (first_2 ∷ second_2 ∷ []) blocks after_3 reaches_2
      (sent 1 (Memᴰ.head refl), (sent 2 (Memᴰ.head refl), tt)) turn_3

turn_4 : turn short 60 after_2 (first_2 ∷ second_2 ∷ []) blocks ≡ some after_4
unfolding turn local_consensus create State.create Dag.create add_roots Ordered.insert Hashed.insert
    new_vertex get_nodes_keys get_vertices collect_hashes Vertex.create Vertex.genesis
    is_quorum_reached_for_round is_last_round_in_wave insert_vertex contains_vertices Vertex.to_json
    Block.to_json Block.transactions_json Dag.is_linked Dag.search Dag.scan Vertex.get_all_parents
    Dag.push_newer Dag.get_vertex
turn_4 = refl

reaches_4 : Reaches short two (λ i. reused) key system_4 4
reaches_4 =
    go 2 60 (first_2 ∷ second_2 ∷ []) blocks after_4 reaches_3
      (sent 1 (Memᴰ.head refl), (sent 2 (Memᴰ.head refl), tt)) turn_4

turn_5 : turn short 60 after_3 (first_3 ∷ second_3 ∷ []) blocks ≡ some after_5
unfolding turn local_consensus create State.create Dag.create add_roots Ordered.insert Hashed.insert
    new_vertex get_nodes_keys get_vertices collect_hashes Vertex.create Vertex.genesis
    is_quorum_reached_for_round is_last_round_in_wave insert_vertex contains_vertices Vertex.to_json
    Block.to_json Block.transactions_json Dag.is_linked Dag.search Dag.scan Vertex.get_all_parents
    Dag.push_newer Dag.get_vertex
turn_5 = refl

reaches_5 : Reaches short two (λ i. reused) key system_5 5
reaches_5 =
    go 1 60 (first_3 ∷ second_3 ∷ []) blocks after_5 reaches_4
      (sent 1 (Memᴰ.tail (Memᴰ.head refl)), (sent 2 (Memᴰ.tail (Memᴰ.head refl)), tt)) turn_5

turn_6 : turn short 60 after_4 (first_3 ∷ second_3 ∷ []) blocks ≡ some after_6
unfolding turn local_consensus create State.create Dag.create add_roots Ordered.insert Hashed.insert
    new_vertex get_nodes_keys get_vertices collect_hashes Vertex.create Vertex.genesis
    is_quorum_reached_for_round is_last_round_in_wave insert_vertex contains_vertices Vertex.to_json
    Block.to_json Block.transactions_json Dag.is_linked Dag.search Dag.scan Vertex.get_all_parents
    Dag.push_newer Dag.get_vertex
turn_6 = refl

reaches_6 : Reaches short two (λ i. reused) key system_6 6
reaches_6 =
    go 2 60 (first_3 ∷ second_3 ∷ []) blocks after_6 reaches_5
      (sent 1 (Memᴰ.tail (Memᴰ.head refl)), (sent 2 (Memᴰ.tail (Memᴰ.head refl)), tt)) turn_6

turn_7 : turn short 60 after_5 (first_4 ∷ second_4 ∷ []) [] ≡ some after_7
unfolding turn local_consensus create State.create Dag.create add_roots Ordered.insert Hashed.insert
    new_vertex get_nodes_keys get_vertices collect_hashes Vertex.create Vertex.genesis
    is_quorum_reached_for_round is_last_round_in_wave insert_vertex contains_vertices Vertex.to_json
    Block.to_json Block.transactions_json Dag.is_linked Dag.search Dag.scan Vertex.get_all_parents
    Dag.push_newer Dag.get_vertex
turn_7 = refl

reaches_7 : Reaches short two (λ i. reused) key system_7 7
reaches_7 =
    go 1 60 (first_4 ∷ second_4 ∷ []) [] after_7 reaches_6
      (
        sent 1 (Memᴰ.tail (Memᴰ.tail (Memᴰ.head refl))),
        (sent 2 (Memᴰ.tail (Memᴰ.tail (Memᴰ.head refl))), tt),
      )
      turn_7

turn_8 : turn short 60 after_6 (first_4 ∷ second_4 ∷ []) blocks ≡ some after_8
unfolding turn local_consensus create State.create Dag.create add_roots Ordered.insert Hashed.insert
    new_vertex get_nodes_keys get_vertices collect_hashes Vertex.create Vertex.genesis
    is_quorum_reached_for_round is_last_round_in_wave insert_vertex contains_vertices Vertex.to_json
    Block.to_json Block.transactions_json Dag.is_linked Dag.search Dag.scan Vertex.get_all_parents
    Dag.push_newer Dag.get_vertex sort get_round_for_wave size is_linked_with_others_in_round
    Dag.is_strongly_linked
turn_8 = refl

reaches_8 : Reaches short two (λ i. reused) key system_8 8
reaches_8 =
    go 2 60 (first_4 ∷ second_4 ∷ []) blocks after_8 reaches_7
      (
        sent 1 (Memᴰ.tail (Memᴰ.tail (Memᴰ.head refl))),
        (sent 2 (Memᴰ.tail (Memᴰ.tail (Memᴰ.head refl))), tt),
      )
      turn_8

turn_9 : turn short 60 after_8 (second_5 ∷ []) [] ≡ some after_9
unfolding turn local_consensus create State.create Dag.create add_roots Ordered.insert Hashed.insert
    new_vertex get_nodes_keys get_vertices collect_hashes Vertex.create Vertex.genesis
    is_quorum_reached_for_round is_last_round_in_wave insert_vertex contains_vertices Vertex.to_json
    Block.to_json Block.transactions_json Dag.is_linked Dag.search Dag.scan Vertex.get_all_parents
    Dag.push_newer Dag.get_vertex
turn_9 = refl

pub reaches_9 : Reaches short two (λ i. reused) key system_9 9
reaches_9 =
    go 2 60 (second_5 ∷ []) [] after_9 reaches_8
      (sent 2 (Memᴰ.tail (Memᴰ.tail (Memᴰ.tail (Memᴰ.head refl)))), tt) turn_9
