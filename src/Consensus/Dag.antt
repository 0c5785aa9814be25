-- ===== src/Consensus/Dag.antt =====
-- consensus/dag.hpp and consensus/dag.cpp. `graph` is a std::map from rounds to the unordered maps
-- from owners to vertices. A copy of a vertex stands for a std::shared_ptr, `none` for nullptr.
pub mod Search
pub mod Turns
pub mod Links
pub mod LinkFaults
pub mod Insertion
pub mod Lookup
pub mod SameGraph
pub mod Closure
use dag_rider.Prelude.{
  ℕ, zero, suc, ◌+◌, ◌*◌, ◌/◌, ◌%◌, ◌^◌, List, [], ◌∷◌, Bool, true, false, Option, none, some, ltb,
  leb, ◌==◌, ◌&&◌, if◌then◌else◌, length, ◌>>=◌,
}
use dag_rider.Containers.{find, values}
use dag_rider.Containers.Ordered
use dag_rider.Containers.Hashed
use dag_rider.Model.Vertex.{Vertex, get_all_parents, get_strong_parents}

abbrev pub u32_mod : ℕ
u32_mod = 2 ^ 32

-- The vertices of one round by owner.
abbrev pub Round : Type 0
Round = List (ℕ × Vertex)

pub record Dag : Type 0 where
  pub graph : List (ℕ × Round)
  pub min_quorum : ℕ

-- The loop of the constructor.
unfoldable pub add_roots : List Vertex → Round → Round
add_roots [] genesis = genesis
add_roots (v ∷ root) genesis = add_roots root (Hashed.insert v.owner v genesis)

unfoldable pub create : List Vertex → ℕ → Dag
unfolding add_roots
create root min_quorum = record {
  graph = Ordered.insert 1 (add_roots root []) [];
  min_quorum = min_quorum;
}

-- What `graph[round]` reads: the empty map where the key is missing.
abbrev pub vertices_of : Option Round → Round
vertices_of none = []
vertices_of (some vs) = vs

abbrev pub bucket : Dag → ℕ → Round
bucket dag round = vertices_of (find round dag.graph)

unfoldable pub insert_vertex : Dag → Vertex → Dag
insert_vertex dag v = record dag {
  graph = Ordered.insert v.round (Hashed.insert v.owner v (bucket dag v.round)) dag.graph;
}

-- `none_of` in `containsVertices`, negated.
unfoldable pub any_hash : ℕ → List Vertex → Bool
any_hash hash [] = false
any_hash hash (v ∷ vs) = let rest = any_hash hash vs in if v.hash == hash then true else rest

unfoldable pub contains_vertices : Dag → List (ℕ × ℕ) → Bool
unfolding any_hash
contains_vertices dag [] = true
contains_vertices dag ((hash, round) ∷ rest) =
    let others = contains_vertices dag rest in
    elim (find round dag.graph) [
      | none ↦ false
      | some vs ↦ if any_hash hash (values vs) then others else false
    ]

unfoldable pub collect_hashes : List Vertex → List (ℕ × ℕ) → List (ℕ × ℕ)
collect_hashes [] result = result
collect_hashes (v ∷ vs) result = collect_hashes vs (Ordered.insert v.hash v.round result)

unfoldable pub get_vertices : Dag → ℕ → List (ℕ × ℕ)
unfolding collect_hashes
get_vertices dag round = elim (find round dag.graph) [
  | none ↦ []
  | some vs ↦ collect_hashes (values vs) []
]

unfoldable pub is_quorum_reached_for_round : Dag → ℕ → Bool
is_quorum_reached_for_round dag round = elim (find round dag.graph) [
  | none ↦ false
  | some vs ↦ leb dag.min_quorum (length vs)
]

unfoldable pub first_with_hash : ℕ → List Vertex → Option Vertex
first_with_hash hash [] = none
first_with_hash hash (v ∷ vs) =
    let rest = first_with_hash hash vs in if v.hash == hash then some v else rest

unfoldable pub get_vertex : Dag → ℕ → ℕ → Option Vertex
unfolding first_with_hash
get_vertex dag hash round = elim (find round dag.graph) [
  | none ↦ none
  | some vs ↦ first_with_hash hash (values vs)
]

-- What one turn of the `while` loop of `isLinkedInternal` comes to: `return true`, or the stack
-- with the parents pushed.
pub data Scan : Type 0 where
  found : Scan
  pushed : List Vertex → Scan

abbrev pub push_some : Option Vertex → List Vertex → List Vertex
push_some none stack = stack
push_some (some v) stack = v ∷ stack

-- The `else if` of that loop's body: a parent newer than `oldest` is pushed, if the graph has it.
unfoldable pub push_newer : Dag → Vertex → ℕ → ℕ → List Vertex → List Vertex
push_newer dag oldest hash round stack =
    if ltb oldest.round round then push_some (get_vertex dag hash round) stack else stack

-- The `for` loop over the parents that are left.
unfoldable pub scan : Dag → Vertex → List (ℕ × ℕ) → List Vertex → Scan
scan dag oldest [] stack = pushed stack
scan dag oldest ((hash, round) ∷ rest) stack =
    let others = scan dag oldest rest (push_newer dag oldest hash round stack) in
    if hash == oldest.hash then found else others

-- The `while` loop. `none`: it has not ended after `fuel` turns.
unfoldable pub search : ℕ → Dag → Vertex → List Vertex → Option Bool
search fuel dag oldest [] = some false
search zero dag oldest (v ∷ stack) = none
search (suc fuel) dag oldest (v ∷ stack) = elim (scan dag oldest (get_all_parents v) stack) [
  | found ↦ some true
  | pushed stack' ↦ search fuel dag oldest stack'
]

-- `getParents` is taken and never called, as in the source.
unfoldable pub is_linked_internal :
    ℕ → Dag → Vertex → Vertex → (Vertex → List (ℕ × ℕ)) → Option Bool
is_linked_internal fuel dag newest oldest get_parents =
    let result = search fuel dag oldest (newest ∷ []) in
    if ltb oldest.round newest.round then result else some false

unfoldable pub is_strongly_linked : ℕ → Dag → Vertex → Vertex → Option Bool
unfolding is_linked_internal
is_strongly_linked fuel dag newest oldest =
    is_linked_internal fuel dag newest oldest get_strong_parents

unfoldable pub is_linked : ℕ → Dag → Vertex → Vertex → Option Bool
unfolding is_linked_internal
is_linked fuel dag newest oldest = is_linked_internal fuel dag newest oldest get_all_parents

-- The loop of `isLinkedWithOthersInRound`, with its uint32_t counter.
unfoldable pub count_linked : ℕ → Dag → Vertex → List Vertex → ℕ → Option ℕ
count_linked fuel dag vertex [] weight = some weight
count_linked fuel dag vertex (v ∷ vs) weight = do
  linked ← is_strongly_linked fuel dag v vertex
  count_linked fuel dag vertex vs (if linked then (weight + 1) % u32_mod else weight)

unfoldable pub is_linked_with_others_in_round : ℕ → Dag → Vertex → ℕ → Option Bool
unfolding count_linked
is_linked_with_others_in_round fuel dag vertex round = do
  weight ← count_linked fuel dag vertex (values (bucket dag round)) 0
  some (leb dag.min_quorum weight)
