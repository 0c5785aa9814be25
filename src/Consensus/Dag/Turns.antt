-- ===== src/Consensus/Dag/Turns.antt =====
-- The `while` loop of `isLinkedInternal` (consensus/dag.cpp, lines 84 to 98) ends where rounds fall
-- along the edges: `turns` bounds its turns. A vertex is expanded once for each path that leads to
-- it, so the bound counts paths.
use dag_rider.Prelude.{
  ℕ, zero, suc, ◌+◌, ◌≤◌, ◌<◌, ◌≡◌, refl, inl, inr, List, [], ◌∷◌, Bool, true, false, subst, some,
  arith, ltb, ◌==◌, Bool-cases, Option-cases, All,
}
use dag_rider.Model.Vertex.{Vertex, get_all_parents}
use dag_rider.Consensus.Dag.{Dag, pushed, push_some, push_newer, scan, search, get_vertex}
use dag_rider.Consensus.Dag.Search.{Scan-cases}

-- Every parent is of an earlier round.
abbrev pub IsLayered : Vertex → Type 0
IsLayered v = All (λ (e : ℕ × ℕ). e.1 < v.round) v.parents

-- The graph holds layered vertices, each under its own round.
pub record IsLayeredDag (dag : Dag) : Type 0 where
  pub round_of : (h r : ℕ) (p : Vertex) → get_vertex dag h r ≡ some p → p.round ≡ r
  pub layered : (h r : ℕ) (p : Vertex) → get_vertex dag h r ≡ some p → IsLayered p

abbrev sum_of : (Vertex → ℕ) → List Vertex → ℕ
sum_of f [] = 0
sum_of f (v ∷ vs) = f v + sum_of f vs

sum_of_mono :
    (f g : Vertex → ℕ) (vs : List Vertex) → ((v : Vertex) → f v ≤ g v) → sum_of f vs ≤ sum_of g vs
sum_of_mono f g [] h = omega arith
sum_of_mono f g (v ∷ vs) h = omega (arith, h v, sum_of_mono f g vs h)

module _ (dag : Dag) where
  abbrev children : List (ℕ × ℕ) → List Vertex
  children [] = []
  children ((h, r) ∷ ps) = push_some (get_vertex dag h r) (children ps)

  -- The paths of at most `depth` edges that start at the vertex.
  unfoldable pub turns : ℕ → Vertex → ℕ
  turns zero v = 1
  turns (suc depth) v = suc (sum_of (turns depth) (children v.parents))

  turns_mono : (d d' : ℕ) (v : Vertex) → d ≤ d' → turns d v ≤ turns d' v
  unfolding turns
  turns_mono zero zero v h = omega arith
  turns_mono zero (suc d') v h = omega arith
  turns_mono (suc d) zero v h = absurd (omega arith)
  turns_mono (suc d) (suc d') v h = omega (
    arith,
    sum_of_mono (turns d) (turns d') (children v.parents) (λ w. turns_mono d d' w (omega arith)),
  )

  -- What a stack still costs.
  abbrev pub cost : List Vertex → ℕ
  cost = sum_of (λ v. turns v.round v)

  cost-push_newer :
      (oldest : Vertex) (h r : ℕ) (ps : List (ℕ × ℕ)) (stack : List Vertex)
      → cost (push_newer dag oldest h r stack) + cost (children ps)
        ≤ cost (children ((h, r) ∷ ps)) + cost stack
  unfolding push_newer
  cost-push_newer oldest h r ps stack = elim (Option-cases (get_vertex dag h r)) [
    | inl e ↦ ground arith
    | inr (p, e) ↦ ground arith
  ]

  cost-scan :
      (oldest : Vertex) (ps : List (ℕ × ℕ)) (stack stack' : List Vertex)
      → scan dag oldest ps stack ≡ pushed stack'
      → cost stack' ≤ cost (children ps) + cost stack
  unfolding scan
  cost-scan oldest [] stack stack' e = ground arith
  cost-scan oldest ((h, r) ∷ ps) stack stack' e = elim (Bool-cases (h == oldest.hash)) [
    | inl same ↦ cc (rw same at e)
    | inr differs ↦ omega (
      arith,
      cost-push_newer oldest h r ps stack,
      cost-scan oldest ps (push_newer dag oldest h r stack) stack' (rw differs at e),
    )
  ]

module _ (dag : Dag) (ok : IsLayeredDag dag) where
  cost-children :
      (d : ℕ) (ps : List (ℕ × ℕ))
      → All (λ (e : ℕ × ℕ). e.1 < suc d) ps
      → cost dag (children dag ps) ≤ sum_of (turns dag d) (children dag ps)
  cost-children d [] h = omega arith
  cost-children d ((k, r) ∷ ps) h = elim (Option-cases (get_vertex dag k r)) [
    | inl e ↦ ground (arith, cost-children d ps h.1)
    | inr (p, e) ↦
        ground (arith, cost-children d ps h.1, ok.round_of k r p e, turns_mono dag p.round d p)
  ]

  cost-children_zero :
      (ps : List (ℕ × ℕ)) → All (λ (e : ℕ × ℕ). e.1 < 0) ps → cost dag (children dag ps) ≡ 0
  cost-children_zero [] h = refl
  cost-children_zero ((k, r) ∷ ps) h = absurd (omega arith)

  by_round :
      (d : ℕ) (v : Vertex)
      → v.round ≡ d
      → IsLayered v
      → suc (cost dag (children dag v.parents)) ≤ turns dag v.round v
  unfolding turns
  by_round zero v e h =
      let l : All (λ (x : ℕ × ℕ). x.1 < 0) v.parents =
        subst (λ n. All (λ (x : ℕ × ℕ). x.1 < n) v.parents) e h in
      rw e (omega (arith, cost-children_zero v.parents l))
  by_round (suc d) v e h =
      let l : All (λ (x : ℕ × ℕ). x.1 < suc d) v.parents =
        subst (λ n. All (λ (x : ℕ × ℕ). x.1 < n) v.parents) e h in
      rw e (omega (arith, cost-children d v.parents l))

  -- Expanding a vertex takes at least one from what the stack costs.
  cost-parents :
      (v : Vertex) → IsLayered v → suc (cost dag (children dag v.parents)) ≤ turns dag v.round v
  cost-parents v h = by_round v.round v refl h

  push_newer-IsLayered :
      (oldest : Vertex) (h r : ℕ) (stack : List Vertex)
      → All IsLayered stack
      → All IsLayered (push_newer dag oldest h r stack)
  unfolding push_newer
  push_newer-IsLayered oldest h r stack a = elim (Bool-cases (ltb oldest.round r)) [
    | inl newer ↦ elim (Option-cases (get_vertex dag h r)) [
      | inl e ↦ rw (newer, e) a
      | inr (p, e) ↦ rw (newer, e) (ok.layered h r p e, a)
    ]
    | inr older ↦ rw older a
  ]

  scan-IsLayered :
      (oldest : Vertex) (ps : List (ℕ × ℕ)) (stack stack' : List Vertex)
      → scan dag oldest ps stack ≡ pushed stack'
      → All IsLayered stack
      → All IsLayered stack'
  unfolding scan
  scan-IsLayered oldest [] stack stack' e a = ground arith
  scan-IsLayered oldest ((h, r) ∷ ps) stack stack' e a = elim (Bool-cases (h == oldest.hash)) [
    | inl same ↦ cc (rw same at e)
    | inr differs ↦
        scan-IsLayered oldest ps (push_newer dag oldest h r stack) stack' (rw differs at e)
          (push_newer-IsLayered oldest h r stack a)
  ]

  pub search-ends :
      (fuel : ℕ) (oldest : Vertex) (stack : List Vertex)
      → All IsLayered stack
      → cost dag stack ≤ fuel
      → (b : Bool) × (search fuel dag oldest stack ≡ some b)
  unfolding search get_all_parents
  search-ends fuel oldest [] a h = (false, refl)
  search-ends zero oldest (v ∷ stack) a h = absurd (omega (arith, cost-parents v a.0))
  search-ends (suc fuel) oldest (v ∷ stack) a h =
      elim (Scan-cases (scan dag oldest v.parents stack)) [
        | inl e ↦ (true, rw (e, search))
        | inr (st, e) ↦
            rw (e, search)
              (search-ends fuel oldest st (scan-IsLayered oldest v.parents stack st e a.1)
                (omega (arith, cost-parents v a.0, cost-scan dag oldest v.parents stack st e)))
      ]

-- An answer stays with more fuel.
pub search-more :
    (n m : ℕ) (dag : Dag) (oldest : Vertex) (stack : List Vertex) (b : Bool)
    → search n dag oldest stack ≡ some b
    → n ≤ m
    → search m dag oldest stack ≡ some b
unfolding search
search-more n m dag oldest [] b e h = e
search-more zero m dag oldest (v ∷ stack) b e h = cc
search-more (suc n) zero dag oldest (v ∷ stack) b e h = absurd (omega arith)
search-more (suc n) (suc m) dag oldest (v ∷ stack) b e h =
    elim (Scan-cases (scan dag oldest (get_all_parents v) stack)) [
      | inl hit ↦ rw (hit, search) (rw (hit, search) at e)
      | inr (st, grown) ↦
          rw (grown, search)
            (search-more n m dag oldest st b (rw (grown, search) at e) (omega arith))
    ]
