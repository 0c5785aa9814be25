-- ===== src/Consensus/Dag/Lookup.antt =====
-- `containsVertices`, `getVertices` and `getVertex` (consensus/dag.cpp, lines 15 to 37 and 65 to 75)
-- against one another.
use mathlib.Core.List.Memᴰ
use dag_rider.Prelude.{
  ap, ℕ, ◌≡◌, refl, inl, inr, ◌↔◌, List, [], ◌∷◌, Memᴰ, true, none, some, arith, ◌==◌, Bool-cases,
  Option-cases, All, All-mem, subst,
}
use dag_rider.Containers.{find, values, mem-of_find}
use dag_rider.Containers.Ordered
use dag_rider.Model.Vertex.{Vertex}
use dag_rider.Consensus.Dag.{
  Dag, Round, bucket, vertices_of, any_hash, contains_vertices, collect_hashes, get_vertices,
  first_with_hash, get_vertex,
}

abbrev pub IsHeld : Dag → ℕ → ℕ → Type 0
IsHeld dag hash round = (p : Vertex) × (get_vertex dag hash round ≡ some p)

pub first_with_hash-mem :
    (h : ℕ) (vs : List Vertex) (p : Vertex)
    → first_with_hash h vs ≡ some p
    → Memᴰ p vs × (p.hash ≡ h)
unfolding first_with_hash
first_with_hash-mem h [] p e = cc
first_with_hash-mem h (v ∷ vs) p e = elim (Bool-cases (v.hash == h)) [
  | inl same ↦ (Memᴰ.head (ground arith), ground arith)
  | inr differs ↦
      let (m, hash) = first_with_hash-mem h vs p (rw differs at e) in (Memᴰ.tail m, hash)
]

-- A vertex that the graph returns stands in its round and has the hash asked for.
pub get_vertex-mem :
    (dag : Dag) (h r : ℕ) (p : Vertex)
    → get_vertex dag h r ≡ some p
    → Memᴰ p (values (bucket dag r)) × (p.hash ≡ h)
unfolding get_vertex
get_vertex-mem dag h r p e = elim (Option-cases (find r dag.graph)) [
  | inl none_there ↦ cc (rw (none_there, get_vertex) at e)
  | inr (vs, there) ↦ rw there (first_with_hash-mem h (values vs) p (rw (there, get_vertex) at e))
]

any_hash_iff :
    (h : ℕ) (vs : List Vertex)
    → (any_hash h vs ≡ true) ↔ ((p : Vertex) × (first_with_hash h vs ≡ some p))
unfolding any_hash first_with_hash
any_hash_iff h [] = (λ e. cc, λ (p, e). cc)
any_hash_iff h (v ∷ vs) = elim (Bool-cases (v.hash == h)) [
  | inl same ↦ rw same (λ _. (v, refl), λ _. refl)
  | inr differs ↦ rw differs (any_hash_iff h vs)
]

-- `containsVertices` says true exactly if the graph returns a vertex for every listed parent.
pub contains_vertices_iff :
    (dag : Dag) (ps : List (ℕ × ℕ))
    → (contains_vertices dag ps ≡ true) ↔ All (λ (e : ℕ × ℕ). IsHeld dag e.0 e.1) ps
unfolding contains_vertices get_vertex
contains_vertices_iff dag [] = (λ _. tt, λ _. refl)
contains_vertices_iff dag ((h, r) ∷ ps) = elim (Option-cases (find r dag.graph)) [
  | inl e ↦ ground arith
  | inr (vs, e) ↦ ground (arith, contains_vertices_iff dag ps, any_hash_iff h (values vs))
]

find-collect_hashes :
    (h r : ℕ) (vs : List Vertex) (acc : List (ℕ × ℕ))
    → All (λ (v : Vertex). v.round ≡ r) vs
    → find h (collect_hashes vs acc)
      ≡ (elim (first_with_hash h vs) [ none ↦ find h acc | some _ ↦ some r ])
unfolding collect_hashes first_with_hash
find-collect_hashes h r [] acc a = refl
find-collect_hashes h r (v ∷ vs) acc a = ground (
  arith,
  find-collect_hashes h r vs (Ordered.insert v.hash v.round acc) a.1,
  Ordered.find-insert v.hash h v.round acc,
)

-- `getVertices(round)` maps a hash to the round exactly if `getVertex` returns a vertex for it, in a
-- graph that holds only vertices of that round there.
pub get_vertices-get_vertex :
    (dag : Dag) (h r : ℕ)
    → All (λ (v : Vertex). v.round ≡ r) (values (bucket dag r))
    → find h (get_vertices dag r) ≡ (elim (get_vertex dag h r) [ none ↦ none | some _ ↦ some r ])
unfolding get_vertices get_vertex
get_vertices-get_vertex dag h r a = elim (Option-cases (find r dag.graph)) [
  | inl e ↦ ground arith
  | inr (vs, e) ↦
      rw (e, get_vertices)
        (find-collect_hashes h r (values vs) []
          (subst (λ o. All (λ (v : Vertex). v.round ≡ r) (values (vertices_of o))) e a))
]

-- What holds of every vertex of the graph holds of one that it returns.
pub get_vertex-All :
    (P : Vertex → Type 0) (dag : Dag)
    → All (λ (e : ℕ × Round). All P (values e.1)) dag.graph
    → (h k : ℕ) (p : Vertex) → get_vertex dag h k ≡ some p
    → P p
unfolding get_vertex
get_vertex-All P dag a h k p e = elim (Option-cases (find k dag.graph)) [
  | inl none_there ↦ cc (rw (none_there, get_vertex) at e)
  | inr (vs, there) ↦
      All-mem P (values vs)
        (All-mem (λ (x : ℕ × Round). All P (values x.1)) dag.graph a
          (mem-of_find k dag.graph there))
        (first_with_hash-mem h (values vs) p (rw (there, get_vertex) at e)).0
]

pub first_with_hash-of_mem :
    (w : Vertex) (vs : List Vertex)
    → Memᴰ w vs
    → (p : Vertex) × (first_with_hash w.hash vs ≡ some p)
unfolding first_with_hash
first_with_hash-of_mem w [] m = absurd (Memᴰ.not-nil m)
first_with_hash-of_mem w (v ∷ vs) m = elim (Bool-cases (v.hash == w.hash)) [
  | inl same ↦ rw same (v, refl)
  | inr differs ↦ rw differs (elim (Memᴰ.cases_cons m) [
    | inl e ↦ absurd (ground (arith, ap (λ (x : Vertex). x.hash) e))
    | inr later ↦ first_with_hash-of_mem w vs later
  ])
]

-- The graph returns some vertex for the hash of one that it holds.
pub get_vertex-of_mem :
    (dag : Dag) (w : Vertex) (r : ℕ)
    → Memᴰ w (values (bucket dag r))
    → (p : Vertex) × (get_vertex dag w.hash r ≡ some p)
unfolding get_vertex
get_vertex-of_mem dag w r m = elim (Option-cases (find r dag.graph)) [
  | inl e ↦ absurd (Memᴰ.not-nil (subst (λ o. Memᴰ w (values (vertices_of o))) e m))
  | inr (vs, e) ↦
      rw (e, get_vertex)
        (first_with_hash-of_mem w (values vs) (subst (λ o. Memᴰ w (values (vertices_of o))) e m))
]
