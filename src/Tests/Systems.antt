-- ===== src/Tests/Systems.antt =====
-- The theorems on a system of nodes: the first makes a vertex and receives it.
use mathlib.Core.List.Memᴰ
use dag_rider.Prelude.{ℕ, ◌*◌, ◌≡◌, refl, List, [], ◌∷◌, Memᴰ, Option, none, some, arith}
use dag_rider.Containers.{values}
use dag_rider.Containers.Ordered
use dag_rider.Containers.Hashed
use dag_rider.Model.Block
use dag_rider.Model.Vertex.{Vertex}
use dag_rider.Model.Vertex
use dag_rider.Model.Committee.{get_nodes_keys}
use dag_rider.Consensus.State
use dag_rider.Consensus.Dag.{
  bucket, add_roots, insert_vertex, get_vertices, collect_hashes, contains_vertices,
  is_quorum_reached_for_round,
}
use dag_rider.Consensus.Dag
use dag_rider.Consensus.Dag.Links.{Ancestor, parent}
use dag_rider.Consensus.Dag.Lookup.{IsHeld}
use dag_rider.Consensus.Protocol.{
  Consensus, create, local_consensus, new_vertex, is_last_round_in_wave,
}
use dag_rider.Consensus.Protocol.Loop.{turn}
use dag_rider.Consensus.System.{Nodes, put, IsSent, sent, Reaches, start, go}
use dag_rider.Consensus.System.Consistent.{Reaches-holds_history, Reaches-same_vertex}
use dag_rider.Tests.Samples.{reused, plain, four}

abbrev key : ℕ → ℕ
key i = 10 * i

abbrev result : Consensus → Option Consensus → Consensus
result c none = c
result c (some d) = d

abbrev first : Consensus
first = local_consensus plain reused 10 four

abbrev made : Consensus
made = result first (turn plain 60 first [] (Block.default ∷ []))

-- The vertex that the node has broadcast.
abbrev the_first : List Vertex → Vertex
the_first [] = Vertex.create plain 10 1 Block.default []
the_first (v ∷ vs) = v

abbrev proposal : Vertex
proposal = the_first made.vertex_to_broadcast

abbrev held : Consensus
held = result made (turn plain 60 made (proposal ∷ []) [])

makes : turn plain 60 first [] (Block.default ∷ []) ≡ some made
unfolding turn local_consensus create State.create Dag.create add_roots Ordered.insert Hashed.insert
    new_vertex get_nodes_keys get_vertices collect_hashes Vertex.create Vertex.genesis
    is_quorum_reached_for_round is_last_round_in_wave
makes = refl

holds : turn plain 60 made (proposal ∷ []) [] ≡ some held
unfolding turn local_consensus create State.create Dag.create add_roots Ordered.insert Hashed.insert
    new_vertex get_nodes_keys get_vertices collect_hashes Vertex.create Vertex.genesis
    is_quorum_reached_for_round is_last_round_in_wave insert_vertex contains_vertices Vertex.to_json
    mathlib.Core.List.flatten Block.to_json Block.transactions_json
holds = refl

abbrev second : Consensus
second = local_consensus plain reused 20 four

-- It goes to round 2, with a vertex of its own.
abbrev later : Consensus
later = result second (turn plain 60 second [] (Block.default ∷ []))

goes_on : turn plain 60 second [] (Block.default ∷ []) ≡ some later
unfolding turn local_consensus create State.create Dag.create add_roots Ordered.insert Hashed.insert
    new_vertex get_nodes_keys get_vertices collect_hashes Vertex.create Vertex.genesis
    is_quorum_reached_for_round is_last_round_in_wave insert_vertex contains_vertices Vertex.to_json
    mathlib.Core.List.flatten Block.to_json Block.transactions_json
goes_on = refl

abbrev also_held : Consensus
also_held = result later (turn plain 60 later (proposal ∷ []) [])

also_holds : turn plain 60 later (proposal ∷ []) [] ≡ some also_held
unfolding turn local_consensus create State.create Dag.create add_roots Ordered.insert Hashed.insert
    new_vertex get_nodes_keys get_vertices collect_hashes Vertex.create Vertex.genesis
    is_quorum_reached_for_round is_last_round_in_wave insert_vertex contains_vertices Vertex.to_json
    mathlib.Core.List.flatten Block.to_json Block.transactions_json
also_holds = refl

abbrev nodes_made : Nodes
nodes_made = put 1 made (λ i. local_consensus plain reused (key i) four)

abbrev nodes_held : Nodes
nodes_held = put 1 held nodes_made

abbrev nodes_later : Nodes
nodes_later = put 2 later nodes_held

abbrev nodes : Nodes
nodes = put 2 also_held nodes_later

made-IsSent : IsSent plain four nodes_made proposal
unfolding turn local_consensus create State.create Dag.create add_roots Ordered.insert Hashed.insert
    new_vertex get_nodes_keys get_vertices collect_hashes Vertex.create Vertex.genesis
    is_quorum_reached_for_round is_last_round_in_wave insert_vertex contains_vertices Vertex.to_json
    mathlib.Core.List.flatten Block.to_json Block.transactions_json
made-IsSent = sent 1 (Memᴰ.head refl)

later-IsSent : IsSent plain four nodes_later proposal
unfolding turn local_consensus create State.create Dag.create add_roots Ordered.insert Hashed.insert
    new_vertex get_nodes_keys get_vertices collect_hashes Vertex.create Vertex.genesis
    is_quorum_reached_for_round is_last_round_in_wave insert_vertex contains_vertices Vertex.to_json
    mathlib.Core.List.flatten Block.to_json Block.transactions_json
later-IsSent = sent 1 (Memᴰ.head refl)

two_turns : Reaches plain four (λ i. reused) key nodes_held 2
two_turns =
    go 1 60 (proposal ∷ []) [] held (go 1 60 [] (Block.default ∷ []) made start tt makes)
      (made-IsSent, tt) holds

four_turns : Reaches plain four (λ i. reused) key nodes 4
four_turns =
    go 2 60 (proposal ∷ []) [] also_held
      (go 2 60 [] (Block.default ∷ []) later two_turns tt goes_on) (later-IsSent, tt) also_holds

in_first : Memᴰ proposal (values (bucket (nodes 1).state.dag 2))
unfolding turn local_consensus create State.create Dag.create add_roots Ordered.insert Hashed.insert
    new_vertex get_nodes_keys get_vertices collect_hashes Vertex.create Vertex.genesis
    is_quorum_reached_for_round is_last_round_in_wave insert_vertex contains_vertices Vertex.to_json
    mathlib.Core.List.flatten Block.to_json Block.transactions_json
in_first = Memᴰ.head refl

in_second : Memᴰ proposal (values (bucket (nodes 2).state.dag 2))
unfolding turn local_consensus create State.create Dag.create add_roots Ordered.insert Hashed.insert
    new_vertex get_nodes_keys get_vertices collect_hashes Vertex.create Vertex.genesis
    is_quorum_reached_for_round is_last_round_in_wave insert_vertex contains_vertices Vertex.to_json
    mathlib.Core.List.flatten Block.to_json Block.transactions_json
in_second = Memᴰ.head refl

apart : (i j : ℕ) → key i ≡ key j → i ≡ j
apart i j e = omega (arith, e)

-- The hash of the genesis vertex of key 10.
abbrev root : ℕ
root = (Vertex.create plain 10 1 Block.default []).hash

first_parent : Ancestor (nodes 2).state.dag root 1 proposal
unfolding turn local_consensus create State.create Dag.create add_roots Ordered.insert Hashed.insert
    new_vertex get_nodes_keys get_vertices collect_hashes Vertex.create Vertex.genesis
    is_quorum_reached_for_round is_last_round_in_wave insert_vertex contains_vertices Vertex.to_json
    mathlib.Core.List.flatten Block.to_json Block.transactions_json
first_parent = parent (Memᴰ.head refl)

Reaches-holds_history_example : IsHeld (nodes 2).state.dag root 1
Reaches-holds_history_example =
    Reaches-holds_history plain four key apart nodes 4 2 2 proposal root 1 four_turns (omega arith)
      in_second first_parent

Reaches-same_vertex_example : proposal ≡ proposal
Reaches-same_vertex_example =
    Reaches-same_vertex plain four key apart nodes 4 1 2 2 proposal proposal four_turns
      (omega arith) in_first in_second refl
