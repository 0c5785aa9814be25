-- ===== src/Consensus/Dag/SameGraph.antt =====
-- Two graphs with the same vertices, whose unordered maps list them in different orders
-- (consensus/dag.cpp, lines 44 to 101): what reads them cannot tell them apart.
pub mod Rounds
use mathlib.Core.List.Memᴰ
use mathlib.Core.List.{Permᴰ}
use mathlib.Core.List.Permᴰ
use dag_rider.Prelude.{
  ℕ, zero, suc, ◌+◌, ◌%◌, ◌<◌, ◌≡◌, refl, sym, ap, ◌∙◌, subst, inl, inr, List, [], ◌∷◌, ◌++◌, Memᴰ,
  Bool, true, false, Option, none, some, arith, ltb, ◌==◌, if◌then◌else◌, Bool-cases, Option-cases,
  ◌>>=◌, leb, some_eq,
}
use dag_rider.Containers.{find, values, IsKeyed, mem-of_find, find_of_mem}
use dag_rider.Model.Vertex.{Vertex, get_all_parents}
use dag_rider.Consensus.Dag.{
  Dag, Round, u32_mod, bucket, vertices_of, first_with_hash, get_vertex, push_some, push_newer,
  Scan, found, pushed, scan, search, is_linked_internal, is_linked, is_strongly_linked,
  count_linked, is_linked_with_others_in_round,
}
use dag_rider.Consensus.Dag.Search.{LinkPath, last, next}
use dag_rider.Consensus.Dag.Lookup.{get_vertex-mem, get_vertex-of_mem}
use dag_rider.Consensus.Dag.Insertion.{IsWellFormed, bucket-IsRound}

-- The same quorum, and in each round the same entries, in any order.
pub record SameGraph (d e : Dag) : Type 0 where
  pub quorum : d.min_quorum ≡ e.min_quorum
  pub rounds : (r : ℕ) → Permᴰ (bucket d r) (bucket e r)

pub SameGraph-symm : {d e : Dag} → SameGraph d e → SameGraph e d
SameGraph-symm s = record { quorum = sym s.quorum; rounds = λ r. Permᴰ.symm (s.rounds r) }

-- Vertices of one hash in the graph are one vertex, as a hash without collisions makes them.
abbrev pub HasUniqueHashes : Dag → Type 0
HasUniqueHashes d =
    (r s : ℕ) (v w : Vertex)
    → Memᴰ v (values (bucket d r))
    → Memᴰ w (values (bucket d s))
    → v.hash ≡ w.hash
    → v ≡ w

pub Permᴰ-mem {ℓ} : {A : Type ℓ} {a : A} {xs ys : List A} → Permᴰ xs ys → Memᴰ a xs → Memᴰ a ys
Permᴰ-mem Permᴰ.nil m = m
Permᴰ-mem (Permᴰ.cons e p) m = elim (Memᴰ.cases_cons m) [
  | inl h ↦ Memᴰ.head (h ∙ e)
  | inr t ↦ Memᴰ.tail (Permᴰ-mem p t)
]
Permᴰ-mem (Permᴰ.swap e f) m = elim (Memᴰ.cases_cons m) [
  | inl h ↦ Memᴰ.tail (Memᴰ.head (h ∙ e))
  | inr t ↦ elim (Memᴰ.cases_cons t) [ inl h ↦ Memᴰ.head (h ∙ f) | inr u ↦ Memᴰ.tail (Memᴰ.tail u) ]
]
Permᴰ-mem (Permᴰ.trans p q) m = Permᴰ-mem q (Permᴰ-mem p m)

find-Permᴰ : (k : ℕ) (xs ys : Round) → IsKeyed xs → IsKeyed ys → Permᴰ xs ys → find k xs ≡ find k ys
find-Permᴰ k xs ys kx ky p = elim (Option-cases (find k xs)) [
  | inr (v, e) ↦ e ∙ sym (find_of_mem k ys ky (Permᴰ-mem p (mem-of_find k xs e)))
  | inl n ↦ elim (Option-cases (find k ys)) [
    | inl m ↦ n ∙ sym m
    | inr (v, e) ↦ cc (n, find_of_mem k xs kx (Permᴰ-mem (Permᴰ.symm p) (mem-of_find k ys e)))
  ]
]

module _ {d e : Dag} (s : SameGraph d e) where
  pub bucket-mem :
      (r : ℕ) (v : Vertex) → Memᴰ v (values (bucket d r)) → Memᴰ v (values (bucket e r))
  bucket-mem r v = Permᴰ-mem (Permᴰ.map (λ (x : ℕ × Vertex). x.1) (s.rounds r))

  pub find-bucket :
      (r k : ℕ) → IsWellFormed d → IsWellFormed e → find k (bucket d r) ≡ find k (bucket e r)
  find-bucket r k wd we =
      find-Permᴰ k (bucket d r) (bucket e r) (bucket-IsRound d r wd).0 (bucket-IsRound e r we).0
        (s.rounds r)

  -- What the one graph returns for a hash, the other does, if hashes are unique.
  get_vertex-some :
      HasUniqueHashes d
      → (h r : ℕ) (p : Vertex) → get_vertex d h r ≡ some p
      → get_vertex e h r ≡ some p
  get_vertex-some unique h r p held =
      let (m, hash) = get_vertex-mem d h r p held in
      let (q, there) = get_vertex-of_mem e p r (bucket-mem r p m) in
      let there' : get_vertex e h r ≡ some q = subst (λ k. get_vertex e k r ≡ some q) hash there in
      let (n, hash') = get_vertex-mem e h r q there' in
      let back = Permᴰ-mem (Permᴰ.symm (Permᴰ.map (λ (x : ℕ × Vertex). x.1) (s.rounds r))) n in
      there' ∙ ap some (unique r r q p back m (hash' ∙ sym hash))

module _ {d e : Dag} (s : SameGraph d e) (unique : HasUniqueHashes d) where
  pub HasUniqueHashes-same : HasUniqueHashes e
  HasUniqueHashes-same r t v w m n same =
      unique r t v w (bucket-mem (SameGraph-symm s) r v m) (bucket-mem (SameGraph-symm s) t w n)
        same

  pub get_vertex-same : (h r : ℕ) → get_vertex d h r ≡ get_vertex e h r
  get_vertex-same h r = elim (Option-cases (get_vertex d h r)) [
    | inr (p, held) ↦ held ∙ sym (get_vertex-some s unique h r p held)
    | inl n ↦ elim (Option-cases (get_vertex e h r)) [
      | inl m ↦ n ∙ sym m
      | inr (p, held) ↦ cc (n, get_vertex-some (SameGraph-symm s) HasUniqueHashes-same h r p held)
    ]
  ]

  push_newer-same :
      (oldest : Vertex) (h r : ℕ) (stack : List Vertex)
      → push_newer d oldest h r stack ≡ push_newer e oldest h r stack
  unfolding push_newer
  push_newer-same oldest h r stack = rw (get_vertex-same h r) refl

  scan-same :
      (oldest : Vertex) (ps : List (ℕ × ℕ)) (stack : List Vertex)
      → scan d oldest ps stack ≡ scan e oldest ps stack
  unfolding scan
  scan-same oldest [] stack = refl
  scan-same oldest ((h, r) ∷ ps) stack =
      rw (push_newer-same oldest h r stack, scan-same oldest ps (push_newer e oldest h r stack))
        refl

  search-same :
      (fuel : ℕ) (oldest : Vertex) (stack : List Vertex)
      → search fuel d oldest stack ≡ search fuel e oldest stack
  unfolding search
  search-same fuel oldest [] = refl
  search-same zero oldest (v ∷ stack) = refl
  search-same (suc fuel) oldest (v ∷ stack) =
      rw (scan-same oldest (get_all_parents v) stack, search)
        (elim (scan e oldest (get_all_parents v) stack)
          as (λ x.
            (elim x as (λ _. Option Bool) [
              | found ↦ some true
              | pushed rest ↦ search fuel d oldest rest
            ])
            ≡ (elim x as (λ _. Option Bool) [
              | found ↦ some true
              | pushed rest ↦ search fuel e oldest rest
            ])) [ found ↦ refl | pushed rest ↦ search-same fuel oldest rest ])

  -- The search finds the same, in the same number of turns.
  pub is_linked-same :
      (fuel : ℕ) (newest oldest : Vertex)
      → is_linked fuel d newest oldest ≡ is_linked fuel e newest oldest
  unfolding is_linked is_linked_internal
  is_linked-same fuel newest oldest = rw (search-same fuel oldest (newest ∷ [])) refl

  pub is_strongly_linked-same :
      (fuel : ℕ) (newest oldest : Vertex)
      → is_strongly_linked fuel d newest oldest ≡ is_strongly_linked fuel e newest oldest
  unfolding is_strongly_linked is_linked_internal
  is_strongly_linked-same fuel newest oldest = rw (search-same fuel oldest (newest ∷ [])) refl

  pub LinkPath-same : (oldest : Vertex) {v : Vertex} → LinkPath d oldest v → LinkPath e oldest v
  LinkPath-same oldest (last r m) = last r m
  LinkPath-same oldest (next step path) =
      next
        (record {
          hash = step.hash;
          round = step.round;
          listed = step.listed;
          newer = step.newer;
          held = sym (get_vertex-same step.hash step.round) ∙ step.held;
        })
        (LinkPath-same oldest path)

  count_linked-same :
      (fuel : ℕ) (v : Vertex) (vs : List Vertex) (weight : ℕ)
      → count_linked fuel d v vs weight ≡ count_linked fuel e v vs weight
  unfolding count_linked
  count_linked-same fuel v [] weight = refl
  count_linked-same fuel v (x ∷ vs) weight =
      rw (is_strongly_linked-same fuel x v) (elim (Option-cases (is_strongly_linked fuel e x v)) [
        | inl n ↦ rw n refl
        | inr (b, n) ↦
            rw n (count_linked-same fuel v vs (if b then (weight + 1) % u32_mod else weight))
      ])

abbrev bump : Bool → ℕ → ℕ
bump b weight = if b then (weight + 1) % u32_mod else weight

bump_comm : (x y : Bool) (weight : ℕ) → bump y (bump x weight) ≡ bump x (bump y weight)
bump_comm x y weight = ground arith

-- The order in which the linked vertices are counted does not matter.
count_linked-Permᴰ :
    (fuel : ℕ) (dag : Dag) (v : Vertex) {xs ys : List Vertex} (weight : ℕ)
    → Permᴰ xs ys
    → count_linked fuel dag v xs weight ≡ count_linked fuel dag v ys weight
unfolding count_linked
count_linked-Permᴰ fuel dag v weight Permᴰ.nil = refl
count_linked-Permᴰ fuel dag v weight (Permᴰ.cons {b = b} same p) =
    rw same (elim (Option-cases (is_strongly_linked fuel dag b v)) [
      | inl n ↦ rw n refl
      | inr (x, n) ↦
          rw n (count_linked-Permᴰ fuel dag v (if x then (weight + 1) % u32_mod else weight) p)
    ])
count_linked-Permᴰ fuel dag v weight (Permᴰ.swap {a = a} {b = b} {l = l} e f) =
    rw (← e, ← f)
      (elim (Option-cases (is_strongly_linked fuel dag a v)) [
        | inl n ↦ elim (Option-cases (is_strongly_linked fuel dag b v)) [
          | inl m ↦ rw n (rw m refl)
          | inr (y, m) ↦ rw n (rw m refl)
        ]
        | inr (x, n) ↦ elim (Option-cases (is_strongly_linked fuel dag b v)) [
          | inl m ↦ rw n (rw m refl)
          | inr (y, m) ↦ rw n (rw m (ap (count_linked fuel dag v l) (bump_comm x y weight)))
        ]
      ])
count_linked-Permᴰ fuel dag v weight (Permᴰ.trans p q) =
    count_linked-Permᴰ fuel dag v weight p ∙ count_linked-Permᴰ fuel dag v weight q

pub is_linked_with_others_in_round-same :
    {d e : Dag} (s : SameGraph d e) (unique : HasUniqueHashes d) (fuel : ℕ) (v : Vertex) (r : ℕ)
    → is_linked_with_others_in_round fuel d v r ≡ is_linked_with_others_in_round fuel e v r
unfolding is_linked_with_others_in_round
is_linked_with_others_in_round-same {d} {e} s unique fuel v r =
    rw
      (
        count_linked-same s unique fuel v (values (bucket d r)) 0,
        count_linked-Permᴰ fuel e v 0 (Permᴰ.map (λ (x : ℕ × Vertex). x.1) (s.rounds r)),
        s.quorum,
      )
      refl
