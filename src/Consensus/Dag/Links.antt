-- ===== src/Consensus/Dag/Links.antt =====
-- What `isLinked` and `isStronglyLinked` (consensus/dag.cpp, lines 57 to 101) decide.
use mathlib.Core.List.Memᴰ
use dag_rider.Prelude.{
  ℕ, ◌≤◌, ◌<◌, ◌≡◌, refl, inl, inr, ◌↔◌, ⊎_elim, [], ◌∷◌, Memᴰ, Bool, true, false, some, arith, ltb,
  Bool-cases, lt→ltb, ltb→lt, subst, All-mem, ap, ◌∙◌,
}
use dag_rider.Model.Vertex.{Vertex, get_strong_parents}
use dag_rider.Consensus.Dag.{Dag, get_vertex, is_linked}
use dag_rider.Consensus.Dag.Search.{LinkPath, last, next, search_sound, search_complete}
use dag_rider.Consensus.Dag.Turns.{IsLayered, IsLayeredDag, turns, search-ends}

module _ (dag : Dag) where
  -- A vertex with this hash and round is in the causal history: it is reached along parents, weak
  -- or strong, through vertices that the graph holds.
  pub data Ancestor (hash round : ℕ) : Vertex → Type 0 where
    parent : {v : Vertex} → Memᴰ (hash, round) v.parents → Ancestor hash round v
    older :
        {v p : Vertex} (h r : ℕ)
        → Memᴰ (h, r) v.parents
        → get_vertex dag h r ≡ some p
        → Ancestor hash round p
        → Ancestor hash round v

  -- The same along strong edges alone.
  pub data StrongPath (hash : ℕ) : Vertex → Type 0 where
    strong_parent : {v : Vertex} (r : ℕ) → Memᴰ (hash, r) (get_strong_parents v) → StrongPath hash v
    through :
        {v p : Vertex} (h r : ℕ)
        → Memᴰ (h, r) (get_strong_parents v)
        → get_vertex dag h r ≡ some p
        → StrongPath hash p
        → StrongPath hash v

  -- Whoever names the hash of `oldest` as a parent names it with the round of `oldest`.
  pub record NamesRound (newest oldest : Vertex) : Type 0 where
    pub by_newest : (r : ℕ) → Memᴰ (oldest.hash, r) newest.parents → r ≡ oldest.round
    pub by_held :
        (h k r : ℕ) (p : Vertex)
        → get_vertex dag h k ≡ some p
        → Memᴰ (oldest.hash, r) p.parents
        → r ≡ oldest.round

  pub is_linked_sound :
      (fuel : ℕ) (newest oldest : Vertex)
      → is_linked fuel dag newest oldest ≡ some true
      → (oldest.round < newest.round) × LinkPath dag oldest newest
  unfolding is_linked
  is_linked_sound fuel newest oldest e = elim (Bool-cases (ltb oldest.round newest.round)) [
    | inl lt ↦
        let (v, m, path) = search_sound dag oldest fuel (newest ∷ []) (rw (lt, is_linked) at e) in
        (ltb→lt _ _ lt, subst (LinkPath dag oldest) (Memᴰ.eq_of_singleton m) path)
    | inr ge ↦ cc (rw (ge, is_linked) at e)
  ]

  pub is_linked_complete :
      (fuel : ℕ) (newest oldest : Vertex)
      → is_linked fuel dag newest oldest ≡ some false
      → oldest.round < newest.round
      → ¬ LinkPath dag oldest newest
  unfolding is_linked
  is_linked_complete fuel newest oldest e lt =
      search_complete dag oldest fuel (newest ∷ []) (rw (lt→ltb _ _ lt, is_linked) at e) newest
        (Memᴰ.head refl)

-- In a layered graph the causal history is older.
pub Ancestor-lt :
    (dag : Dag) {h r : ℕ} {v : Vertex}
    → IsLayeredDag dag
    → IsLayered v
    → Ancestor dag h r v
    → r < v.round
Ancestor-lt dag {v} ok l (parent m) = All-mem _ v.parents l m
Ancestor-lt dag {r} {v} ok l (older {p = p} k s m held rest) =
    let below : r < p.round = Ancestor-lt dag ok (ok.layered k s p held) rest in
    let e = ok.round_of k s p held in
    let above : s < v.round = All-mem (λ (x : ℕ × ℕ). x.1 < v.round) v.parents l m in omega arith

module _ (dag : Dag) (ok : IsLayeredDag dag) (fuel : ℕ) (newest oldest : Vertex)
    (layered : IsLayered newest) (enough : turns dag newest.round newest ≤ fuel) where
  pub is_linked-returns : (b : Bool) × (is_linked fuel dag newest oldest ≡ some b)
  unfolding is_linked
  is_linked-returns = elim (Bool-cases (ltb oldest.round newest.round)) [
    | inl lt ↦
        rw (lt, is_linked)
          (search-ends dag ok fuel oldest (newest ∷ []) (layered, tt) (omega arith))
    | inr ge ↦ (false, rw (ge, is_linked))
  ]

  -- Where rounds fall along the edges of the graph and of `newest`, and the fuel is at least the
  -- number of paths that `turns` counts, `isLinked` returns; and it returns true exactly if
  -- `newest` is of a later round and a chain of parents newer than `oldest` ends in a vertex that
  -- names `oldest`.
  pub is_linked_decides :
      (b : Bool) × (is_linked fuel dag newest oldest ≡ some b)
      × ((b ≡ true) ↔ ((oldest.round < newest.round) × LinkPath dag oldest newest))
  is_linked_decides =
      let (b, e) = is_linked-returns in
      (
        b,
        e,
        (
          λ yes_b. is_linked_sound dag fuel newest oldest (e ∙ ap some yes_b),
          λ (lt, path).
              ⊎_elim (λ t. t)
                (λ f. absurd (is_linked_complete dag fuel newest oldest (e ∙ ap some f) lt path))
                (Bool-cases b),
        ),
      )

  Ancestor-LinkPath :
      {v : Vertex}
      → IsLayered v
      → Ancestor dag oldest.hash oldest.round v
      → (oldest.round < v.round) × LinkPath dag oldest v
  Ancestor-LinkPath {v} l (parent m) = (All-mem _ v.parents l m, last oldest.round m)
  Ancestor-LinkPath {v} l (older {p = p} h r m held rest) =
      let (lt, path) = Ancestor-LinkPath (ok.layered h r p held) rest in
      let e = ok.round_of h r p held in
      let r_lt : r < v.round = All-mem (λ (x : ℕ × ℕ). x.1 < v.round) v.parents l m in
      (
        omega arith,
        next (record { hash = h; round = r; listed = m; newer = omega arith; held = held }) path,
      )

  LinkPath-Ancestor :
      {v : Vertex}
      → ((r : ℕ) → Memᴰ (oldest.hash, r) v.parents → r ≡ oldest.round)
      → NamesRound dag newest oldest
      → LinkPath dag oldest v
      → Ancestor dag oldest.hash oldest.round v
  LinkPath-Ancestor {v} at_v names (last r m) =
      parent (subst (λ k. Memᴰ (oldest.hash, k) v.parents) (at_v r m) m)
  LinkPath-Ancestor {v} at_v names (next {p = p} s path) =
      older s.hash s.round s.listed s.held
        (LinkPath-Ancestor (λ r. names.by_held s.hash s.round r p s.held) names path)

  -- Where rounds fall along the edges of the graph and of `newest`, the fuel is at least the number
  -- of paths that `turns` counts, and the hash of `oldest` is named with its round only, `isLinked`
  -- returns true exactly if `oldest` is in the causal history of `newest`.
  pub is_linked_iff_Ancestor :
      NamesRound dag newest oldest
      → (is_linked fuel dag newest oldest ≡ some true)
        ↔ Ancestor dag oldest.hash oldest.round newest
  is_linked_iff_Ancestor names = (
    λ e. LinkPath-Ancestor names.by_newest names (is_linked_sound dag fuel newest oldest e).1,
    λ a.
        let (b, e, decides) = is_linked_decides in
        e ∙ ap some (decides.1 (Ancestor-LinkPath layered a)),
  )
