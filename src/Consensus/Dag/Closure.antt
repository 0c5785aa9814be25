-- ===== src/Consensus/Dag/Closure.antt =====
-- Which vertices stay in the graph (consensus/dag.cpp, lines 13 to 26): the parents of those that it
-- holds, as long as no vertex takes the place of another.
use mathlib.Core.List.Memᴰ
use dag_rider.Prelude.{
  ℕ, ◌≡◌, ◌≢◌, sym, ap, ◌∙◌, subst, inl, inr, ◌⊎◌, List, [], ◌∷◌, Memᴰ, true, false, none, some,
  arith, ◌==◌, ◌&&◌, Bool-cases, Option-cases, All, All-mem, All-map, some_eq,
}
use dag_rider.Containers.{find, values, mem-of_find, find_of_mem}
use dag_rider.Model.Vertex.{Vertex}
use dag_rider.Consensus.Dag.{Dag, Round, bucket, insert_vertex, get_vertex, contains_vertices}
use dag_rider.Consensus.Dag.Turns.{IsLayered}
use dag_rider.Consensus.Dag.Lookup.{
  IsHeld, get_vertex-mem, get_vertex-of_mem, contains_vertices_iff,
}
use dag_rider.Consensus.Dag.Insertion.{
  IsWellFormed, IsPlaced, bucket-IsRound, find-insert_vertex, insert_vertex-IsWellFormed,
}

pub mem-values : (k : ℕ) (vs : Round) (v : Vertex) → Memᴰ (k, v) vs → Memᴰ v (values vs)
mem-values k [] v m = absurd (Memᴰ.not-nil m)
mem-values k (e ∷ vs) v (Memᴰ.head same) = Memᴰ.head (ap (λ (x : ℕ × Vertex). x.1) same)
mem-values k (e ∷ vs) v (Memᴰ.tail m) = Memᴰ.tail (mem-values k vs v m)

placed_owner :
    (r : ℕ) (vs : Round) (v : Vertex)
    → All (IsPlaced r) vs
    → Memᴰ v (values vs)
    → Memᴰ (v.owner, v) vs
placed_owner r [] v a m = absurd (Memᴰ.not-nil m)
placed_owner r ((k, w) ∷ vs) v a m = elim (Memᴰ.cases_cons m) [
  | inl e ↦ Memᴰ.head (ground (arith, a.0.1, e))
  | inr t ↦ Memᴰ.tail (placed_owner r vs v a.1 t)
]

-- In a well-formed graph a vertex of a round is the one of its owner.
pub find_owner :
    (d : Dag) (r : ℕ) (v : Vertex)
    → IsWellFormed d
    → Memᴰ v (values (bucket d r))
    → find v.owner (bucket d r) ≡ some v
find_owner d r v w m =
    let (keyed, placed) = bucket-IsRound d r w in
    find_of_mem v.owner (bucket d r) keyed (placed_owner r (bucket d r) v placed m)

-- What a round holds after an insertion: the new vertex, or what it held.
pub insert_vertex-inv :
    (d : Dag) (v p : Vertex) (r : ℕ)
    → IsWellFormed d
    → IsLayered v
    → Memᴰ p (values (bucket (insert_vertex d v) r))
    → (p ≡ v) ⊎ Memᴰ p (values (bucket d r))
insert_vertex-inv d v p r w layered m =
    let found =
      sym (find-insert_vertex d v r p.owner)
      ∙ find_owner (insert_vertex d v) r p (insert_vertex-IsWellFormed d v w layered) m in
    elim (Bool-cases ((v.round == r) && (v.owner == p.owner))) [
      | inl c ↦ inl (sym (some_eq (rw c at found)))
      | inr c ↦ inr (mem-values p.owner _ p (mem-of_find p.owner _ (rw c at found)))
    ]

-- What stood in a round is still there, or the new vertex has taken its place.
insert_vertex-old :
    (d : Dag) (v p : Vertex) (r : ℕ)
    → IsWellFormed d
    → Memᴰ p (values (bucket d r))
    → ((v.round ≡ r) × (v.owner ≡ p.owner)) ⊎ Memᴰ p (values (bucket (insert_vertex d v) r))
insert_vertex-old d v p r w m = elim (Bool-cases ((v.round == r) && (v.owner == p.owner))) [
  | inl c ↦ inl (ground arith)
  | inr c ↦ inr (
      mem-values p.owner _ p
        (mem-of_find p.owner _ (find-insert_vertex d v r p.owner ∙ rw c (find_owner d r p w m))))
]

-- Every vertex of the graph has its parents there.
pub record IsClosed (d : Dag) : Type 0 where
  pub held :
      (r : ℕ) (v : Vertex)
      → Memᴰ v (values (bucket d r))
      → All (λ (e : ℕ × ℕ). IsHeld d e.0 e.1) v.parents

-- A vertex of the owner and the round that is held already has the hash of the one there.
abbrev pub IsNoRival : Dag → Vertex → Type 0
IsNoRival d v =
    (p : Vertex) → Memᴰ p (values (bucket d v.round)) → v.owner ≡ p.owner → p.hash ≡ v.hash

IsHeld-insert_vertex :
    (d : Dag) (v : Vertex) (h r : ℕ)
    → IsWellFormed d
    → IsNoRival d v
    → IsHeld d h r
    → IsHeld (insert_vertex d v) h r
IsHeld-insert_vertex d v h r w calm (p, held) =
    let (m, hash) = get_vertex-mem d h r p held in
    elim (insert_vertex-old d v p r w m) [
      | inl (round, owner) ↦
          let here : find v.owner (bucket (insert_vertex d v) r) ≡ some v =
            find-insert_vertex d v r v.owner ∙ ground arith in
          let same : v.hash ≡ h =
            sym (calm p (subst (λ k. Memᴰ p (values (bucket d k))) (sym round) m) owner) ∙ hash in
          subst (λ k. IsHeld (insert_vertex d v) k r) same
            (get_vertex-of_mem (insert_vertex d v) v r
              (mem-values v.owner _ v (mem-of_find v.owner _ here)))
      | inr stays ↦
          subst (λ k. IsHeld (insert_vertex d v) k r) hash
            (get_vertex-of_mem (insert_vertex d v) p r stays)
    ]

pub insert_vertex-IsClosed :
    (d : Dag) (v : Vertex)
    → IsWellFormed d
    → IsLayered v
    → IsNoRival d v
    → contains_vertices d v.parents ≡ true
    → IsClosed d
    → IsClosed (insert_vertex d v)
insert_vertex-IsClosed d v w layered calm parents closed = record {
  held = λ r p m.
      let old =
        elim (insert_vertex-inv d v p r w layered m)
          as (λ _. All (λ (e : ℕ × ℕ). IsHeld d e.0 e.1) p.parents) [
            | inl same ↦
                subst (λ (x : Vertex). All (λ (e : ℕ × ℕ). IsHeld d e.0 e.1) x.parents) (sym same)
                  ((contains_vertices_iff d v.parents).0 parents)
            | inr before ↦ closed.held r p before
          ] in
      All-map _ (λ (e : ℕ × ℕ). IsHeld (insert_vertex d v) e.0 e.1) p.parents
        (λ e. IsHeld-insert_vertex d v e.0 e.1 w calm) old;
}

replaced_hash :
    (d : Dag) (v p : Vertex)
    → IsWellFormed d
    → IsLayered v
    → v.owner ≡ p.owner
    → v.hash ≢ p.hash
    → ((q : Vertex) → Memᴰ q (values (bucket d v.round)) → q.hash ≡ p.hash → q.owner ≡ p.owner)
    → get_vertex (insert_vertex d v) p.hash v.round ≡ none
replaced_hash d v p w layered owner differs alone =
    elim (Option-cases (get_vertex (insert_vertex d v) p.hash v.round)) [
      | inl n ↦ n
      | inr (q, held) ↦
          let (m, hash) = get_vertex-mem (insert_vertex d v) p.hash v.round q held in
          absurd (
            differs (elim (insert_vertex-inv d v q v.round w layered m) [
              | inl new_one ↦ ap (λ (x : Vertex). x.hash) (sym new_one) ∙ hash
              | inr before ↦
                  let there =
                    find_owner (insert_vertex d v) v.round q
                      (insert_vertex-IsWellFormed d v w layered) m in
                  let taken : find q.owner (bucket (insert_vertex d v) v.round) ≡ some v =
                    find-insert_vertex d v v.round q.owner ∙ ground (arith, alone q before hash) in
                  ap (λ (x : Vertex). x.hash) (some_eq (sym taken ∙ there)) ∙ hash
            ]))
    ]

-- A vertex that takes the place of another of its owner and round, with another hash, which no third
-- vertex of the round has, makes the graph lose the other: its hash is not found any more, and every
-- vertex that names it as a parent is refused.
pub insert_vertex-orphans :
    (d : Dag) (v p : Vertex)
    → IsWellFormed d
    → IsLayered v
    → v.owner ≡ p.owner
    → v.hash ≢ p.hash
    → ((q : Vertex) → Memᴰ q (values (bucket d v.round)) → q.hash ≡ p.hash → q.owner ≡ p.owner)
    → (get_vertex (insert_vertex d v) p.hash v.round ≡ none)
      × ((ps : List (ℕ × ℕ))
          → Memᴰ (p.hash, v.round) ps
          → contains_vertices (insert_vertex d v) ps ≡ false)
insert_vertex-orphans d v p w layered owner differs alone =
    let gone = replaced_hash d v p w layered owner differs alone in
    (
      gone,
      λ ps named. elim (Bool-cases (contains_vertices (insert_vertex d v) ps)) [
        | inl admitted ↦
            let (q, held) =
              All-mem (λ (e : ℕ × ℕ). IsHeld (insert_vertex d v) e.0 e.1) ps
                ((contains_vertices_iff (insert_vertex d v) ps).0 admitted) named in
            cc (gone, held)
        | inr refused ↦ refused
      ],
    )
