-- ===== src/Tests/Nodes.antt =====
-- The theorems on the protocol and the channels.
use mathlib.Core.List.{Perm, Permᴰ}
use mathlib.Core.List.Perm
use mathlib.Core.List.Permᴰ
use mathlib.Core.List.Memᴰ
use dag_rider.Prelude.{
  ◌⊎◌, suc, ℕ, ◌+◌, ◌<◌, ◌≡◌, ◌≢◌, refl, ◌↔◌, ◌&&◌, List, [], ◌∷◌, ◌++◌, Memᴰ, true, some, arith,
  All, Settles,
}
use dag_rider.Containers.{keys}
use dag_rider.Containers.Ordered
use dag_rider.Containers.Hashed
use dag_rider.Model.Block
use dag_rider.Model.Vertex
use dag_rider.Model.Vertex.{Vertex, get_strong_parents, get_all_parents, add_parent}
use dag_rider.Model.Committee.{Committee, size, get_nodes_keys, quorum_threshold}
use dag_rider.Model.Committee.Keys.{sort}
use dag_rider.Model.Committee.Quorums.{count_if, has}
use dag_rider.Consensus.State.{contains, insert}
use dag_rider.Consensus.Dag.{
  Dag, bucket, create, insert_vertex, is_linked, is_strongly_linked, is_linked_with_others_in_round,
  get_vertex, get_vertices, collect_hashes, contains_vertices, search, scan, push_newer,
  is_quorum_reached_for_round,
}
use dag_rider.Consensus.Dag.Insertion.{IsWellFormed, IsWellFormed-IsLayeredDag}
use dag_rider.Consensus.Dag.Search.{LinkPath}
use dag_rider.Consensus.Dag.Links.{Ancestor}
use dag_rider.Consensus.Quorum.{is_quorum_reached_for_round-overlap}
use dag_rider.Consensus.Channel.{
  Draining, Run, start, step, arrive, take, receive, send, first_loop_never_ends,
}
use dag_rider.Consensus.Protocol.{
  living, Consensus, get_round_for_wave, is_last_round_in_wave, get_wave_vertex_leader,
  get_ordered_vertices, get_leaders_to_commit, order_vertices, set_weak_edges, new_vertex,
}
use dag_rider.Consensus.Protocol.Loop.{turn}
use dag_rider.Consensus.Protocol.Waves.{last_round_of_wave}
use dag_rider.Consensus.Protocol.Commit.{
  Chain, get_leaders_to_commit-Chain, Skips, get_leaders_to_commit-reused,
}
use dag_rider.Consensus.Protocol.Delivery.{hashes, IsDistinct}
use dag_rider.Consensus.Protocol.Delivery.Exact.{
  order_vertices_exact, order_vertices-misses_history,
}
use dag_rider.Consensus.Protocol.Proposal.{new_vertex-covers}
use dag_rider.Consensus.Protocol.Agreement.{SameNode, get_ordered_vertices-agree}
use dag_rider.Consensus.Protocol.Distinct.{IsDistinct-HasUniqueHashes}
use dag_rider.Consensus.Dag.SameGraph.Rounds.{AreSameRounds, AreSameRounds-find, all_vertices}
use dag_rider.Consensus.Protocol.Totality.Turn.{turn-Settles, turn_keeps}
use dag_rider.Tests.Samples.{
  reused, plain, vertex, layer, all_of, one_wave, one_wave-IsWellFormed, grow-IsWellFormed,
  one_round, one_round-IsWellFormed, grow, node, four, validator,
}

-- What a run of the protocol unfolds.
opened : ℕ
unfolding get_ordered_vertices grow insert_vertex create Ordered.insert Hashed.insert sort
    get_nodes_keys size is_linked is_strongly_linked is_linked_with_others_in_round search scan
    push_newer get_vertex contains insert get_all_parents get_strong_parents get_round_for_wave
    order_vertices get_leaders_to_commit set_weak_edges add_parent get_wave_vertex_leader
opened = 0

abbrev root : Vertex
root = vertex 12 20 1 []

-- The leader of wave 2.
abbrev second : Vertex
second = vertex 52 20 5 (all_of 4)

abbrev fresh : Vertex
fresh = vertex 41 10 4 (all_of 3)

abbrev later_rounds : List Vertex
later_rounds = layer 1 ++ (layer 2 ++ layer 3)

node_orders : get_ordered_vertices 40 node 1 ≡ some (record node { decided_wave = 1 }, later_rounds)
unfolding opened
node_orders = refl

root_ordered : order_vertices 40 node (root ∷ []) ≡ some later_rounds
unfolding opened
root_ordered = refl

order_vertices_exact_example : IsDistinct (hashes later_rounds)
order_vertices_exact_example =
    (order_vertices_exact 40 node (root ∷ []) later_rounds root_ordered).0

order_vertices-misses_history_example : (fresh ≢ root) × (¬ Ancestor one_wave 41 4 root)
order_vertices-misses_history_example =
    order_vertices-misses_history 40 node root later_rounds
      (IsWellFormed-IsLayeredDag one_wave one_wave-IsWellFormed) tt root_ordered fresh
      (Memᴰ.append_right (layer 1) (Memᴰ.append_right (layer 2) (Memᴰ.head refl)))

leaders_chosen : get_leaders_to_commit 60 node 1 second ≡ some (second ∷ root ∷ [])
unfolding opened
leaders_chosen = refl

get_leaders_to_commit-Chain_example :
    (ps : List Vertex) × (second ∷ root ∷ [] ≡ second ∷ ps) × Chain node 1 (living second) ps
get_leaders_to_commit-Chain_example =
    get_leaders_to_commit-Chain 60 node 1 second (second ∷ root ∷ []) leaders_chosen

get_leaders_to_commit-reused_example :
    (ps : List Vertex) × (second ∷ root ∷ [] ≡ second ∷ ps)
    × (((ps ≡ []) × Skips node (living second) 0 1)
        ⊎ ((wave : ℕ) × (p : Vertex) × (ps ≡ p ∷ [])
            × (wave < 1)
            × (get_wave_vertex_leader node (suc wave) ≡ some (some p))
            × LinkPath node.state.dag p second
            × Skips node (living second) (suc wave) 1))
get_leaders_to_commit-reused_example =
    get_leaders_to_commit-reused 60 node 1 second (second ∷ root ∷ []) (λ r v w. refl)
      leaders_chosen

weakly_linked :
    set_weak_edges 60 one_wave fresh 4 ≡ some (record fresh { parents = (14, 1) ∷ all_of 3 })
unfolding opened
weakly_linked = refl

turn-Settles_example : Settles (λ fuel. turn plain fuel node (fresh ∷ []) (Block.default ∷ []))
unfolding size
turn-Settles_example =
    turn-Settles plain node (fresh ∷ []) (Block.default ∷ []) one_wave-IsWellFormed (omega arith)
      (omega arith) (λ r v w a b. b) (omega arith)

-- The same committee, with two entries in the other order.
abbrev reordered : Committee
reordered =
    (1, validator 10 1234)
    ∷ (3, validator 30 1236)
    ∷ (4, validator 40 1237)
    ∷ (2, validator 20 1235)
    ∷ []

root_leads : get_wave_vertex_leader node 1 ≡ some (some root)
unfolding opened
root_leads = refl

last_round_of_wave_example :
    (is_last_round_in_wave 8 ≡ true)
    ↔ ((0 < 2) × (get_round_for_wave 2 4 ≡ 8) × (get_round_for_wave 2 1 + 3 ≡ 8))
last_round_of_wave_example = last_round_of_wave 8 (omega arith) (omega arith)

members_listed : All (λ (k : ℕ). Memᴰ k (get_nodes_keys four)) (keys (bucket one_wave 2))
unfolding opened
members_listed = (
  Memᴰ.tail (Memᴰ.head refl),
  (Memᴰ.tail (Memᴰ.tail (Memᴰ.tail (Memᴰ.head refl))), (Memᴰ.head refl, tt)),
)

is_quorum_reached_for_round-overlap_example :
    1 < count_if (λ k. has (bucket one_wave 2) k && has (bucket one_wave 3) k) (get_nodes_keys four)
unfolding opened quorum_threshold is_quorum_reached_for_round
is_quorum_reached_for_round-overlap_example =
    is_quorum_reached_for_round-overlap four one_wave one_wave 2 3 (omega arith) (omega arith) refl
      refl one_wave-IsWellFormed one_wave-IsWellFormed members_listed members_listed refl refl

abbrev waiting : Draining ℕ
waiting = record { queue = 5 ∷ []; buffer = []; in_first_loop = true }

two_steps : Run waiting (record waiting { queue = 6 ∷ []; buffer = 5 ∷ [] }) (6 ∷ [])
unfolding send receive
two_steps = step [] (step (6 ∷ []) start (arrive 6 refl refl)) (take 5 (6 ∷ []) refl refl refl refl)

first_loop_never_ends_example : ◌≡◌ {A = List ℕ} (5 ∷ 6 ∷ []) (5 ∷ 6 ∷ [])
first_loop_never_ends_example = (first_loop_never_ends refl two_steps).1

-- The vertex for round 5 over the graph of one wave: the genesis vertex of the fourth owner gets a
-- weak edge.
abbrev proposed : Vertex
proposed = record (Vertex.create plain 10 5 Block.default (all_of 4)) {
  parents = (14, 1) ∷ all_of 4;
}

proposal_made : new_vertex plain 60 node 5 Block.default ≡ some proposed
unfolding opened new_vertex get_vertices collect_hashes Vertex.create
proposal_made = refl

new_vertex-covers_example : LinkPath one_wave (vertex 14 40 1 []) proposed
unfolding opened
new_vertex-covers_example =
    (new_vertex-covers plain 60 node 5 Block.default proposed one_wave-IsWellFormed (omega arith)
        (omega arith) proposal_made).4
      1 (vertex 14 40 1 []) (omega arith) (omega arith)
      (Memᴰ.tail (Memᴰ.tail (Memᴰ.tail (Memᴰ.head refl))))

-- The node after a turn: it has put out the first wave, gone to round 5 and proposed a vertex.
abbrev advanced : Consensus
advanced = record {
  memory = reused;
  node_id = 10;
  committee = four;
  state = record { current_round = 5; delivered_vertices = []; dag = insert_vertex one_wave fresh };
  decided_wave = 1;
  blocks_to_propose = Block.default ∷ [];
  vertex_output = later_rounds;
  vertex_to_broadcast = proposed ∷ [];
}

node_advances : turn plain 60 node (fresh ∷ []) (Block.default ∷ []) ≡ some advanced
unfolding opened new_vertex get_vertices collect_hashes Vertex.create turn contains_vertices
    is_quorum_reached_for_round is_last_round_in_wave
node_advances = refl

turn_keeps_example : IsWellFormed (insert_vertex one_wave fresh)
turn_keeps_example =
    (turn_keeps plain node (fresh ∷ []) (Block.default ∷ []) one_wave-IsWellFormed (omega arith) 60
      advanced node_advances).0

-- The graph of one wave, its last round received in another order.
abbrev shuffled : Dag
shuffled = grow one_round (
    layer 1
    ++ (layer 2
        ++ (vertex 43 30 4 (all_of 3)
            ∷ vertex 41 10 4 (all_of 3)
            ∷ vertex 42 20 4 (all_of 3)
            ∷ [])))

abbrev other_node : Consensus
other_node = record node {
  committee = reordered;
  state = record { current_round = 4; delivered_vertices = []; dag = shuffled };
}

same_rounds : AreSameRounds one_wave.graph shuffled.graph
unfolding opened
same_rounds = (
  refl,
  Permᴰ.refl _,
  (
    refl,
    Permᴰ.refl _,
    (
      refl,
      Permᴰ.refl _,
      (refl, Permᴰ.trans (Permᴰ.cons refl (Permᴰ.swap refl refl)) (Permᴰ.swap refl refl), tt),
    ),
  ),
)

shuffled-IsWellFormed : IsWellFormed shuffled
shuffled-IsWellFormed =
    grow-IsWellFormed one_round
      (layer 1
        ++ (layer 2
            ++ (vertex 43 30 4 (all_of 3)
                ∷ vertex 41 10 4 (all_of 3)
                ∷ vertex 42 20 4 (all_of 3)
                ∷ [])))
      one_round-IsWellFormed (omega arith)

one_wave-IsDistinct : IsDistinct (hashes (all_vertices one_wave.graph))
unfolding opened
one_wave-IsDistinct = (
  refl,
  (
    refl,
    (refl, (refl, (refl, (refl, (refl, (refl, (refl, (refl, (refl, (refl, (refl, tt))))))))))),
  ),
)

same_node : SameNode node other_node
unfolding opened
same_node = record {
  committee =
      Perm.swap (1, validator 10 1234) (3, validator 30 1236)
        ((4, validator 40 1237) ∷ (2, validator 20 1235) ∷ []);
  graph = record {
    quorum = refl;
    rounds = λ r. AreSameRounds-find r one_wave.graph shuffled.graph same_rounds;
  };
  formed = one_wave-IsWellFormed;
  formed' = shuffled-IsWellFormed;
  unique = IsDistinct-HasUniqueHashes one_wave one_wave-IsDistinct;
  memory = refl;
}

abbrev shuffled_output : List Vertex
shuffled_output =
    layer 1
    ++ (layer 2
        ++ (vertex 43 30 4 (all_of 3) ∷ vertex 41 10 4 (all_of 3) ∷ vertex 42 20 4 (all_of 3) ∷ []))

other_orders :
    get_ordered_vertices 40 other_node 1
    ≡ some (record other_node { decided_wave = 1 }, shuffled_output)
unfolding opened
other_orders = refl

get_ordered_vertices-agree_example : Perm later_rounds shuffled_output
get_ordered_vertices-agree_example =
    (get_ordered_vertices-agree same_node 40 1 (record node { decided_wave = 1 })
      (record other_node { decided_wave = 1 }) later_rounds shuffled_output node_orders
      other_orders).0
