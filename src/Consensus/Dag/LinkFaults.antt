-- ===== src/Consensus/Dag/LinkFaults.antt =====
-- Where `isLinkedInternal` (consensus/dag.cpp, lines 77 to 101) departs from what its callers ask:
-- the edges that it follows, and graphs on which it does not return.
use mathlib.Core.List.Memᴰ
use dag_rider.Prelude.{
  ℕ, zero, suc, ◌<◌, ◌≡◌, ◌≢◌, refl, inl, inr, [], ◌∷◌, Memᴰ, true, none, some, ◌==◌, Bool-cases,
  lt→ltb, ==→eq, subst,
}
use dag_rider.Model.Vertex.{Vertex, get_all_parents, get_strong_parents}
use dag_rider.Consensus.Dag.{
  Dag, push_newer, scan, search, get_vertex, is_linked, is_strongly_linked, insert_vertex,
  contains_vertices,
}
use dag_rider.Consensus.Dag.Search.{scan-eq-found}
use dag_rider.Consensus.Dag.Lookup.{contains_vertices_iff}
use dag_rider.Consensus.Dag.Links.{StrongPath, strong_parent, through}

not-StrongPath : (dag : Dag) (h : ℕ) (v : Vertex) → get_strong_parents v ≡ [] → ¬ StrongPath dag h v
not-StrongPath dag h v e (strong_parent r m) = Memᴰ.not-nil (subst (Memᴰ (h, r)) e m)
not-StrongPath dag h v e (through k r m held rest) = Memᴰ.not-nil (subst (Memᴰ (k, r)) e m)

-- A vertex whose edges are all weak has no strong path to any vertex; yet `isStronglyLinked` says
-- true of it and every older vertex that it names, whatever the graph.
pub is_strongly_linked-weak :
    (fuel : ℕ) (dag : Dag) (newest oldest : Vertex) (r : ℕ)
    → oldest.round < newest.round
    → Memᴰ (oldest.hash, r) newest.parents
    → get_strong_parents newest ≡ []
    → (is_strongly_linked (suc fuel) dag newest oldest ≡ some true)
      × (¬ StrongPath dag oldest.hash newest)
unfolding is_strongly_linked search get_all_parents
is_strongly_linked-weak fuel dag newest oldest r lt m weak = (
  rw (lt→ltb _ _ lt, is_strongly_linked)
      (let e = scan-eq-found dag oldest newest.parents [] r m in rw (e, search) refl),
  not-StrongPath dag oldest.hash newest weak,
)

-- On a vertex that is its own and only parent the search pops and pushes it for ever.
search-self_parent :
    (fuel : ℕ) (dag : Dag) (v oldest : Vertex)
    → v.parents ≡ (v.hash, v.round) ∷ []
    → get_vertex dag v.hash v.round ≡ some v
    → oldest.round < v.round
    → v.hash ≢ oldest.hash
    → search fuel dag oldest (v ∷ []) ≡ none
unfolding search scan push_newer get_all_parents
search-self_parent zero dag v oldest own held lt ne = refl
search-self_parent (suc fuel) dag v oldest own held lt ne =
    let again = search-self_parent fuel dag v oldest own held lt ne in
    elim (Bool-cases (v.hash == oldest.hash)) [
      | inl same ↦ absurd (ne (==→eq _ _ same))
      | inr differs ↦
          rw (own, search) (rw (differs, scan) (rw (lt→ltb _ _ lt, held, push_newer) again))
    ]

-- A vertex that names itself as its one parent passes the test by which the consensus loop admits
-- vertices as soon as the graph holds any vertex of its hash in its round; and once the graph
-- returns it under that hash, `isLinked` from it to any older vertex does not return.
pub is_linked-self_parent :
    (dag : Dag) (v seen oldest : Vertex)
    → v.parents ≡ (v.hash, v.round) ∷ []
    → get_vertex dag v.hash v.round ≡ some seen
    → get_vertex (insert_vertex dag v) v.hash v.round ≡ some v
    → oldest.round < v.round
    → v.hash ≢ oldest.hash
    → (contains_vertices dag v.parents ≡ true)
      × ((fuel : ℕ) → is_linked fuel (insert_vertex dag v) v oldest ≡ none)
unfolding is_linked
is_linked-self_parent dag v seen oldest own before held lt ne = (
  rw own ((contains_vertices_iff dag ((v.hash, v.round) ∷ [])).1 ((seen, before), tt)),
  λ fuel.
      rw (lt→ltb _ _ lt, is_linked)
        (search-self_parent fuel (insert_vertex dag v) v oldest own held lt ne),
)
