-- ===== src/Consensus/Protocol.antt =====
-- consensus/consensus.hpp and consensus/consensus.cpp; Loop has the body of `run`. The vertices sent on the two channels are
-- kept in the order of sending. `fuel` bounds each search of the graph; a result `none` means that
-- a search is still running when it is used up, or that the committee is empty, where the code
-- divides by zero.
pub mod Waves
pub mod Leaders
pub mod Commit
pub mod Delivery
pub mod WeakEdges
pub mod Proposal
pub mod Totality
pub mod Outcomes
pub mod History
pub mod Distinct
pub mod Agreement
pub mod Loop
pub mod Turned
pub mod Honest
pub mod Accepted
pub mod Kept
pub mod BuiltIn
use dag_rider.Prelude.{
  ℕ, zero, suc, ◌+◌, ◌-◌, ◌*◌, ◌/◌, ◌%◌, List, [], ◌∷◌, ◌++◌, Bool, true, false, ◌&&◌, not, Option,
  none, some, ltb, leb, ◌==◌, if◌then◌else◌, ◌>>=◌, get_elem?,
}
use mathlib.Core.List.{reverse}
use dag_rider.Containers.{find, values}
use dag_rider.Model.External.{External}
use dag_rider.Model.Block.{Block}
use dag_rider.Model.Vertex.{Vertex, u64_mod, add_parent}
use dag_rider.Model.Vertex
use dag_rider.Model.Committee.{Committee, size, get_nodes_keys}
use dag_rider.Model.Committee.Keys.{sort}
use dag_rider.Consensus.State.{State, contains, insert}
use dag_rider.Consensus.State
use dag_rider.Consensus.Dag.{
  Dag, Round, u32_mod, bucket, is_linked, is_strongly_linked, is_linked_with_others_in_round,
  insert_vertex, contains_vertices, get_vertices, is_quorum_reached_for_round,
}

abbrev pub max_wave : ℕ
max_wave = 4

-- What a read through a pointer to a freed vertex gives, which C++ leaves open: any vertex, by the round
-- that the node is in, the vertex that was freed and the one that was allocated last.
abbrev pub Memory : Type 0
Memory = ℕ → Vertex → Vertex → Vertex

-- `memory` is no field of the class: it stands for the storage that its calls read.
pub record Consensus : Type 0 where
  pub memory : Memory
  pub node_id : ℕ
  pub committee : Committee
  pub state : State
  pub decided_wave : ℕ
  pub blocks_to_propose : List Block
  pub vertex_output : List Vertex
  pub vertex_to_broadcast : List Vertex

unfoldable pub create : Memory → ℕ → Committee → List Vertex → Consensus
create memory node_id committee genesis = record {
  memory = memory;
  node_id = node_id;
  committee = committee;
  state = State.create genesis;
  decided_wave = 0;
  blocks_to_propose = [];
  vertex_output = [];
  vertex_to_broadcast = [];
}

-- The local variable `consensus` of `spawn`, for as long as it lives. The detached thread that runs it has
-- a reference to it, and may go on when `spawn` has returned and it is gone: that is not modelled.
unfoldable pub local_consensus : External → Memory → ℕ → Committee → Consensus
unfolding create
local_consensus ext memory node_id committee =
    create memory node_id committee (Vertex.genesis ext (get_nodes_keys committee))

-- `wave - 1` on uint32_t
unfoldable pub wave_before : ℕ → ℕ
wave_before wave = (wave + u32_mod - 1) % u32_mod

-- The product is a uint32_t, the sum a uint64_t.
unfoldable pub get_round_for_wave : ℕ → ℕ → ℕ
unfolding wave_before
get_round_for_wave wave round = (max_wave * wave_before wave % u32_mod + round) % u64_mod

unfoldable pub is_last_round_in_wave : ℕ → Bool
is_last_round_in_wave round = round % max_wave == 0

-- The key that the wave elects.
unfoldable pub leader_key : Committee → ℕ → Option ℕ
leader_key c wave = get_elem? (sort (get_nodes_keys c)) (get_round_for_wave wave 1 % size c)

unfoldable pub get_wave_vertex_leader : Consensus → ℕ → Option (Option Vertex)
unfolding leader_key
get_wave_vertex_leader c wave = do
  key ← leader_key c.committee wave
  some (find key (bucket c.state.dag (get_round_for_wave wave 1)))

-- The pointer `leader` of `getLeadersToCommit`: to a vertex that lives, or to one that was freed with the
-- std::shared_ptr `prevLeader` at the end of a turn of the loop.
pub data Pointer : Type 0 where
  living freed : Vertex → Pointer

-- `*leader`, when `allocated` is the vertex that `prevLeader` points to.
unfoldable pub read : Consensus → Pointer → Vertex → Vertex
read c (living v) allocated = v
read c (freed v) allocated = c.memory c.state.current_round v allocated

-- The `for` loop, with the waves that are left.
unfoldable pub leaders_loop : ℕ → Consensus → ℕ → Pointer → List Vertex → Option (List Vertex)
unfolding read
leaders_loop fuel c zero leader to_commit = some to_commit
leaders_loop fuel c (suc wave) leader to_commit = do
  previous ← get_wave_vertex_leader c (suc wave)
  elim previous [
    | none ↦ leaders_loop fuel c wave leader to_commit
    | some p ↦ do
      linked ← is_strongly_linked fuel c.state.dag (read c leader p) p
      elim linked [
        | true ↦ leaders_loop fuel c wave (freed p) (to_commit ++ p ∷ [])
        | false ↦ leaders_loop fuel c wave leader to_commit
      ]
  ]

unfoldable pub get_leaders_to_commit : ℕ → Consensus → ℕ → Vertex → Option (List Vertex)
unfolding leaders_loop
get_leaders_to_commit fuel c from_wave current_leader =
    leaders_loop fuel c from_wave (living current_leader) (current_leader ∷ [])

-- The variables of `orderVertices`.
pub record Ordering : Type 0 where
  pub ordered : List Vertex
  pub delivered : List ℕ

-- The innermost `if`: the search is made only for a vertex that is not delivered.
unfoldable pub deliver : ℕ → Dag → Vertex → Vertex → Ordering → Option Ordering
deliver fuel dag leader v o = elim (contains o.delivered v.hash) [
  | true ↦ some o
  | false ↦ do
    linked ← is_linked fuel dag v leader
    some (
        if linked
        then record { ordered = o.ordered ++ v ∷ []; delivered = insert o.delivered v.hash }
        else o)
]

unfoldable pub deliver_round : ℕ → Dag → Vertex → List Vertex → Ordering → Option Ordering
unfolding deliver
deliver_round fuel dag leader [] o = some o
deliver_round fuel dag leader (v ∷ vs) o = do
  o' ← deliver fuel dag leader v o
  deliver_round fuel dag leader vs o'

unfoldable pub deliver_graph : ℕ → Dag → Vertex → List (ℕ × Round) → Ordering → Option Ordering
unfolding deliver_round
deliver_graph fuel dag leader [] o = some o
deliver_graph fuel dag leader ((round, vertices) ∷ rest) o = do
  o' ← (if ltb 0 round then deliver_round fuel dag leader (values vertices) o else some o)
  deliver_graph fuel dag leader rest o'

-- The `while` loop, over the leaders from the back of the vector.
unfoldable pub order_loop : ℕ → Dag → List Vertex → Ordering → Option Ordering
unfolding deliver_graph
order_loop fuel dag [] o = some o
order_loop fuel dag (leader ∷ leaders) o = do
  o' ← deliver_graph fuel dag leader dag.graph o
  order_loop fuel dag leaders o'

unfoldable pub order_vertices : ℕ → Consensus → List Vertex → Option (List Vertex)
unfolding order_loop
order_vertices fuel c leaders = do
  o ← order_loop fuel c.state.dag (reverse leaders) (record { ordered = []; delivered = [] })
  some o.ordered

unfoldable pub get_ordered_vertices : ℕ → Consensus → ℕ → Option (Consensus × List Vertex)
unfolding order_vertices get_leaders_to_commit get_wave_vertex_leader wave_before
get_ordered_vertices fuel c wave = do
  found ← get_wave_vertex_leader c wave
  elim found [
    | none ↦ some (c, [])
    | some leader ↦ do
      enough ←
          is_linked_with_others_in_round fuel c.state.dag leader (get_round_for_wave wave max_wave)
      elim enough [
        | false ↦ some (c, [])
        | true ↦ do
          leaders ← get_leaders_to_commit fuel c (wave_before wave) leader
          ordered ← order_vertices fuel c leaders
          some (record c { decided_wave = wave }, ordered)
      ]
  ]

-- The inner loop of `setWeakEdges`, over the vertices of round `r`.
unfoldable pub link_round : ℕ → Dag → ℕ → List Vertex → Vertex → Option Vertex
link_round fuel dag r [] vertex = some vertex
link_round fuel dag r (v ∷ vs) vertex = do
  linked ← is_linked fuel dag vertex v
  link_round fuel dag r vs (if linked then vertex else add_parent vertex v.hash r)

-- The outer loop, downwards from `r`.
unfoldable pub weak_edges_loop : ℕ → Dag → ℕ → Vertex → Option Vertex
unfolding link_round
weak_edges_loop fuel dag zero vertex = some vertex
weak_edges_loop fuel dag (suc r) vertex = do
  vertex' ← link_round fuel dag (suc r) (values (bucket dag (suc r))) vertex
  weak_edges_loop fuel dag r vertex'

-- `round - 3` is on uint64_t.
unfoldable pub set_weak_edges : ℕ → Dag → Vertex → ℕ → Option Vertex
unfolding weak_edges_loop
set_weak_edges fuel dag vertex round =
    weak_edges_loop fuel dag ((round + u64_mod - 3) % u64_mod) vertex

-- `back` and `pop_back`.
unfoldable pub pop_back : List Block → Option (List Block × Block)
pop_back [] = none
pop_back (b ∷ bs) = elim (pop_back bs) [ none ↦ some ([], b) | some (rest, x) ↦ some (b ∷ rest, x) ]

-- The vertex that `createNewVertex` sends.
unfoldable pub new_vertex : External → ℕ → Consensus → ℕ → Block → Option Vertex
unfolding set_weak_edges
new_vertex ext fuel c round block =
    let vertex =
      Vertex.create ext c.node_id round block
        (get_vertices c.state.dag ((round + u64_mod - 1) % u64_mod)) in
    let linked = set_weak_edges fuel c.state.dag vertex round in
    if ltb 2 round then linked else some vertex

unfoldable pub create_new_vertex : External → ℕ → Consensus → ℕ → Option Consensus
unfolding new_vertex pop_back
create_new_vertex ext fuel c round = elim (pop_back c.blocks_to_propose) [
  | none ↦ some c
  | some (rest, block) ↦ do
    vertex ← new_vertex ext fuel c round block
    some (record c {
      blocks_to_propose = rest;
      vertex_to_broadcast = c.vertex_to_broadcast ++ vertex ∷ [];
    })
]
