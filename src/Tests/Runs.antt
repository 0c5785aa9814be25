-- ===== src/Tests/Runs.antt =====
-- The theorems on what a graph keeps, over turns of a node and when a vertex is replaced.
use mathlib.Core.List.{Perm}
use dag_rider.Prelude.{
  map, ◌≤◌, ℕ, ◌+◌, ◌*◌, ◌/◌, ◌≡◌, refl, List, [], ◌∷◌, ◌++◌, Memᴰ, some, none, arith, All, All-mem,
  false,
}
use dag_rider.Containers.{values}
use dag_rider.Containers.Ordered
use dag_rider.Containers.Hashed
use dag_rider.Model.Block
use dag_rider.Model.Vertex.{Vertex}
use dag_rider.Model.Vertex
use dag_rider.Consensus.State
use dag_rider.Consensus.Dag.{
  Dag, bucket, add_roots, insert_vertex, get_vertex, get_vertices, collect_hashes,
  contains_vertices, is_quorum_reached_for_round,
}
use dag_rider.Consensus.Dag
use dag_rider.Consensus.Dag.Links.{parent}
use dag_rider.Consensus.Dag.Lookup.{IsHeld}
use dag_rider.Consensus.Dag.Closure.{insert_vertex-orphans}
use dag_rider.Consensus.Protocol.{Consensus, create, new_vertex, is_last_round_in_wave}
use dag_rider.Consensus.Protocol.Loop.{turn, Received, run, admit, set_dag}
use dag_rider.Consensus.Protocol.Honest.{
  AreRising, received_blocks, run-no_equivocation, run-blocks,
}
use dag_rider.Consensus.Protocol.Accepted.{new_vertex-admitted}
use dag_rider.Consensus.Protocol.History.{Runs, begin, go, Runs-holds_history}
use dag_rider.Tests.Samples.{
  reused, plain, vertex, layer, all_of, one_round, one_round-IsWellFormed, one_wave,
  one_wave-IsWellFormed, grow, four, genesis,
}

abbrev at_first : Consensus
at_first = create reused 10 four genesis

-- The vertex that the node proposes for round 2.
abbrev proposal : Vertex
proposal = Vertex.create plain 10 2 Block.default ((11, 1) ∷ (12, 1) ∷ (13, 1) ∷ (14, 1) ∷ [])

abbrev at_second : Consensus
at_second = record {
  memory = reused;
  node_id = 10;
  committee = four;
  state = record {
    current_round = 2;
    delivered_vertices = 11 ∷ 12 ∷ 13 ∷ 14 ∷ [];
    dag = one_round;
  };
  decided_wave = 0;
  blocks_to_propose = [];
  vertex_output = [];
  vertex_to_broadcast = proposal ∷ [];
}

abbrev with_layer : Consensus
with_layer = record at_second {
  state = record {
    current_round = 2;
    delivered_vertices = 11 ∷ 12 ∷ 13 ∷ 14 ∷ [];
    dag = grow one_round (layer 1);
  };
}

goes_on : turn plain 60 at_first [] (Block.default ∷ []) ≡ some at_second
unfolding turn create State.create Dag.create add_roots Ordered.insert Hashed.insert new_vertex
    get_vertices collect_hashes Vertex.create is_quorum_reached_for_round is_last_round_in_wave
goes_on = refl

receives : turn plain 60 at_second (layer 1) [] ≡ some with_layer
unfolding turn Dag.create add_roots Ordered.insert Hashed.insert contains_vertices grow
    insert_vertex
receives = refl

two_turns : Runs plain at_first with_layer ([] ++ [] ++ layer 1)
two_turns = go 60 (layer 1) [] (go 60 [] (Block.default ∷ []) begin goes_on) receives

-- The hashes of the samples are made of the round and the owner.
abbrev IsSample : Vertex → Type 0
IsSample v = v.hash ≡ 10 * v.round + v.owner / 10

Runs-holds_history_example : IsHeld with_layer.state.dag 11 1
unfolding grow insert_vertex Dag.create add_roots Ordered.insert Hashed.insert
Runs-holds_history_example =
    Runs-holds_history IsSample (λ v w a b c d. omega arith) plain reused 10 four genesis
      ([] ++ [] ++ layer 1) with_layer
      ((refl, refl, refl), ((refl, refl, refl), ((refl, refl, refl), ((refl, refl, refl), tt))))
      (omega arith) two_turns 2 (vertex 21 10 2 (all_of 1)) (Memᴰ.head refl) 11 1
      (parent (Memᴰ.head refl))

-- A second vertex of owner 10 in round 2.
abbrev rival : Vertex
rival = vertex 99 10 2 (all_of 1)

alone : All (λ (x : Vertex). x.hash ≡ 21 → x.owner ≡ 10) (values (bucket one_wave 2))
unfolding grow insert_vertex Dag.create add_roots Ordered.insert Hashed.insert
alone = (λ e. refl, (λ e. absurd (omega arith), (λ e. absurd (omega arith), tt)))

insert_vertex-orphans_example :
    (get_vertex (insert_vertex one_wave rival) 21 2 ≡ none)
    × ((ps : List (ℕ × ℕ))
        → Memᴰ (21, 2) ps
        → contains_vertices (insert_vertex one_wave rival) ps ≡ false)
insert_vertex-orphans_example =
    insert_vertex-orphans one_wave rival (vertex 21 10 2 (all_of 1)) one_wave-IsWellFormed
      (omega arith) refl (omega arith)
      (λ q m. All-mem (λ (x : Vertex). x.hash ≡ 21 → x.owner ≡ 10) _ alone m)

abbrev inputs : List Received
inputs =
    record { vertices = []; blocks = Block.default ∷ [] }
    ∷ record { vertices = layer 1; blocks = [] }
    ∷ []

runs : run plain 60 at_first inputs ≡ some with_layer
unfolding run
runs = rw (goes_on, run) (rw receives refl)

run-no_equivocation_example :
    AreRising with_layer.vertex_to_broadcast
    × All
        (λ (v : Vertex).
          (v.owner ≡ 10) × (2 ≤ v.round) × (v.round ≤ with_layer.state.current_round))
        with_layer.vertex_to_broadcast
run-no_equivocation_example =
    run-no_equivocation plain reused 60 10 four genesis inputs with_layer (omega arith) runs

run-blocks_example :
    Perm
      (map (λ (v : Vertex). v.block) with_layer.vertex_to_broadcast ++ with_layer.blocks_to_propose)
      (received_blocks inputs)
run-blocks_example = run-blocks plain reused 60 10 four genesis inputs with_layer runs

proposal_round : proposal.round ≡ 2
unfolding Vertex.create
proposal_round = refl

makes_proposal : new_vertex plain 60 at_second 2 Block.default ≡ some proposal
unfolding new_vertex Dag.create add_roots Ordered.insert Hashed.insert get_vertices collect_hashes
    Vertex.create
makes_proposal = refl

new_vertex-admitted_example :
    admit at_second proposal ≡ set_dag at_second (insert_vertex one_round proposal)
new_vertex-admitted_example =
    new_vertex-admitted plain 60 at_second at_second 2 Block.default proposal one_round-IsWellFormed
      (omega arith) (omega arith) makes_proposal (λ h r held. held) (omega (arith, proposal_round))
