-- ===== src/Consensus/Protocol/Loop.antt =====
-- The body of the outer loop of `Consensus::run` (consensus/consensus.cpp, lines 45 to 72), given what the first
-- two loops in it took.
use dag_rider.Prelude.{
  ℕ, ◌+◌, ◌/◌, ◌%◌, List, [], ◌∷◌, ◌++◌, Bool, true, false, ◌&&◌, not, Option, some, leb,
  if◌then◌else◌, ◌>>=◌,
}
use dag_rider.Model.External.{External}
use dag_rider.Model.Block.{Block}
use dag_rider.Model.Vertex.{Vertex}
use dag_rider.Consensus.Dag.{
  Dag, u32_mod, insert_vertex, contains_vertices, is_quorum_reached_for_round,
}
use dag_rider.Consensus.Protocol.{
  Consensus, create_new_vertex, get_ordered_vertices, is_last_round_in_wave, max_wave,
}

abbrev pub set_dag : Consensus → Dag → Consensus
set_dag c dag = record c { state = record (c.state) { dag = dag } }

-- The third loop of `run`: the vertices received enter the graph.
unfoldable pub admit : Consensus → Vertex → Consensus
admit c v =
    if leb v.round c.state.current_round && contains_vertices c.state.dag v.parents
    then set_dag c (insert_vertex c.state.dag v)
    else c

unfoldable pub admit_all : Consensus → List Vertex → Consensus
unfolding admit
admit_all c [] = c
admit_all c (v ∷ buffer) = admit_all (admit c v) buffer

-- `getOrderedVertices` and the sending of what it returns, at the last round of a wave.
unfoldable pub output_wave : ℕ → Consensus → Option Consensus
unfolding get_ordered_vertices
output_wave fuel c = elim (is_last_round_in_wave c.state.current_round) [
  | false ↦ some c
  | true ↦ do
    result ← get_ordered_vertices fuel c (c.state.current_round / max_wave)
    some (record (result.0) { vertex_output = result.0.vertex_output ++ result.1 })
]

-- `state.currentRound++` on uint32_t.
unfoldable pub next_round : Consensus → Consensus
next_round c = record c {
  state = record (c.state) { current_round = (c.state.current_round + 1) % u32_mod };
}

-- May the node leave the round?
unfoldable pub is_ready : Consensus → Bool
is_ready c =
    not (elim c.blocks_to_propose [ [] ↦ true | _ ∷ _ ↦ false ])
    && is_quorum_reached_for_round c.state.dag c.state.current_round

unfoldable pub advance : External → ℕ → Consensus → Option Consensus
unfolding output_wave next_round create_new_vertex is_ready
advance ext fuel c = elim (is_ready c) [
  | false ↦ some c
  | true ↦ do
    out ← output_wave fuel c
    create_new_vertex ext fuel (next_round out) (next_round out).state.current_round
]

-- One turn of the outer loop of `run` on the vertices and the blocks that its first two loops took.
unfoldable pub turn : External → ℕ → Consensus → List Vertex → List Block → Option Consensus
unfolding advance admit_all
turn ext fuel c buffer blocks =
    advance ext fuel
      (admit_all (record c { blocks_to_propose = c.blocks_to_propose ++ blocks }) buffer)

-- What the first two loops of `run` take in a turn. With the blocking `receive` of
-- consensus/communication.hpp those loops do not end (Consensus/Channel): the turns here are what `run`
-- would do on whatever they take, if they did.
pub record Received : Type 0 where
  pub vertices : List Vertex
  pub blocks : List Block

-- The outer loop of `run`, for as many turns as there is something received for.
unfoldable pub run : External → ℕ → Consensus → List Received → Option Consensus
unfolding turn
run ext fuel c [] = some c
run ext fuel c (r ∷ rs) = do d ← turn ext fuel c r.vertices r.blocks; run ext fuel d rs
