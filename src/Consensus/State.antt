-- ===== src/Consensus/State.antt =====
-- consensus/state.hpp and consensus/state.cpp. An unordered set of hashes is a list of them.
use dag_rider.Prelude.{
  ℕ, ◌+◌, ◌*◌, ◌/◌, ◌%◌, ◌^◌, List, [], ◌∷◌, ◌++◌, Bool, true, false, ◌==◌, if◌then◌else◌, length,
}
use dag_rider.Model.Vertex.{Vertex}
use dag_rider.Consensus.Dag.{Dag, u32_mod}
use dag_rider.Consensus.Dag

pub record State : Type 0 where
  pub current_round : ℕ
  pub delivered_vertices : List ℕ
  pub dag : Dag

-- `contains` of an unordered set.
unfoldable pub contains : List ℕ → ℕ → Bool
contains [] hash = false
contains (h ∷ hs) hash = let rest = contains hs hash in if h == hash then true else rest

-- `insert` of an unordered set: a member is not put in twice.
unfoldable pub insert : List ℕ → ℕ → List ℕ
unfolding contains
insert hs hash = if contains hs hash then hs else hs ++ hash ∷ []

unfoldable pub insert_all : List Vertex → List ℕ → List ℕ
unfolding insert
insert_all [] hs = hs
insert_all (v ∷ vs) hs = insert_all vs (insert hs v.hash)

-- The quorum is computed as a size_t and passed as a uint32_t.
unfoldable pub create : List Vertex → State
unfolding insert_all
create genesis = record {
  current_round = 1;
  delivered_vertices = insert_all genesis [];
  dag = Dag.create genesis ((2 * length genesis % 2 ^ 64 / 3 + 1) % u32_mod);
}

unfoldable pub set_vertex_as_delivered : State → ℕ → State
unfolding insert
set_vertex_as_delivered s hash = record s { delivered_vertices = insert s.delivered_vertices hash }
