-- ===== src/Consensus/Protocol/Distinct.antt =====
-- Vertices whose hashes differ, as lists, as what was delivered and as what a graph holds
-- (consensus/consensus.cpp, lines 136 to 157).
use mathlib.Core.List.{Nodup, Nodup-nil, Nodup-cons}
use mathlib.Core.List.Memᴰ
use mathlib.Core.Logic.{∥∥₁_elim}
use mathlib.Core.HLevel.{⊥_prop}
use dag_rider.Prelude.{
  ℕ, ◌<◌, ◌≡◌, refl, sym, ap, ◌∙◌, subst, inl, inr, List, [], ◌∷◌, Memᴰ, true, arith, Option-cases,
  Bool-cases, ◌==◌,
}
use dag_rider.Containers.{find, values, mem-of_find, find_of_mem, IsRising-IsKeyed}
use dag_rider.Model.Vertex.{Vertex}
use dag_rider.Consensus.State.{contains}
use dag_rider.Consensus.Dag.{Dag, bucket, vertices_of}
use dag_rider.Consensus.Dag.SameGraph.{HasUniqueHashes}
use dag_rider.Consensus.Dag.SameGraph.Rounds.{all_vertices, mem-all_vertices}
use dag_rider.Consensus.Dag.Insertion.{IsWellFormed}
use dag_rider.Consensus.Protocol.Delivery.{hashes, IsDistinct}
use dag_rider.Consensus.Protocol.Delivery.Loops.{InGraph}

mem-contains : (v : Vertex) (vs : List Vertex) → Memᴰ v vs → contains (hashes vs) v.hash ≡ true
unfolding contains
mem-contains v [] m = absurd (Memᴰ.not-nil m)
mem-contains v (w ∷ vs) (Memᴰ.head e) = ground (arith, ap (λ (x : Vertex). x.hash) e)
mem-contains v (w ∷ vs) (Memᴰ.tail m) = ground (arith, mem-contains v vs m)

pub contains-mem :
    (h : ℕ) (vs : List Vertex)
    → contains (hashes vs) h ≡ true
    → (w : Vertex) × Memᴰ w vs × (w.hash ≡ h)
unfolding contains
contains-mem h [] e = cc
contains-mem h (w ∷ vs) e = elim (Bool-cases (w.hash == h)) [
  | inl same ↦ (w, Memᴰ.head refl, ground arith)
  | inr differs ↦
      let (x, m, hash) = contains-mem h vs (rw (differs, contains) at e) in (x, Memᴰ.tail m, hash)
]

pub IsDistinct-Nodup : (vs : List Vertex) → IsDistinct (hashes vs) → Nodup vs
IsDistinct-Nodup [] d = Nodup-nil
IsDistinct-Nodup (v ∷ vs) d =
    Nodup-cons.1
      (λ m. ∥∥₁_elim m ⊥_prop (λ t. cc (d.0, mem-contains v vs t)), IsDistinct-Nodup vs d.1)

distinct_hashes :
    (vs : List Vertex) (v w : Vertex)
    → IsDistinct (hashes vs)
    → Memᴰ v vs
    → Memᴰ w vs
    → v.hash ≡ w.hash
    → v ≡ w
distinct_hashes [] v w d m n same = absurd (Memᴰ.not-nil m)
distinct_hashes (x ∷ vs) v w d m n same = elim (Memᴰ.cases_cons m) [
  | inl e ↦ elim (Memᴰ.cases_cons n) [
    | inl f ↦ e ∙ sym f
    | inr t ↦ cc (d.0, mem-contains w vs t, e, same)
  ]
  | inr t ↦ elim (Memᴰ.cases_cons n) [
    | inl f ↦ cc (d.0, mem-contains v vs t, f, same)
    | inr u ↦ distinct_hashes vs v w d.1 t u same
  ]
]

-- A graph has unique hashes if no hash stands twice among those of its vertices.
pub IsDistinct-HasUniqueHashes :
    (d : Dag) → IsDistinct (hashes (all_vertices d.graph)) → HasUniqueHashes d
IsDistinct-HasUniqueHashes d distinct r s v w m n same =
    distinct_hashes (all_vertices d.graph) v w distinct (mem-all_vertices r v d.graph m)
      (mem-all_vertices s w d.graph n) same

pub InGraph-bucket :
    (d : Dag) (v : Vertex)
    → IsWellFormed d
    → (g : InGraph d.graph v) → Memᴰ v (values (bucket d g.round))
InGraph-bucket d v w g =
    subst (λ o. Memᴰ v (values (vertices_of o)))
      (sym (find_of_mem g.round d.graph (IsRising-IsKeyed d.graph w.rising) g.listed)) g.inside

pub bucket-InGraph :
    (d : Dag) (v : Vertex) (r : ℕ) → 0 < r → Memᴰ v (values (bucket d r)) → InGraph d.graph v
bucket-InGraph d v r pos m = elim (Option-cases (find r d.graph)) [
  | inl n ↦ absurd (Memᴰ.not-nil (subst (λ o. Memᴰ v (values (vertices_of o))) n m))
  | inr (vs, e) ↦ record {
    round = r;
    vertices = vs;
    positive = pos;
    listed = mem-of_find r d.graph e;
    inside = subst (λ o. Memᴰ v (values (vertices_of o))) e m;
  }
]
