-- ===== src/Consensus/Dag/Search.antt =====
-- The search of `isLinkedInternal` (consensus/dag.cpp, lines 77 to 101) against the paths of the
-- graph: what an answer means, whatever the graph.
use mathlib.Core.List.Memᴰ
use dag_rider.Prelude.{
  ℕ, zero, suc, ◌<◌, ◌≡◌, refl, ◌⊎◌, inl, inr, ◌↔◌, ⊎_elim, List, [], ◌∷◌, Memᴰ, true, false,
  Option, none, some, arith, ◌==◌, Bool-cases, ==→eq, eq→==, subst,
}
use dag_rider.Model.Vertex.{Vertex, get_all_parents}
use dag_rider.Consensus.Dag.{
  Dag, Scan, found, pushed, push_some, push_newer, scan, search, get_vertex,
}

pub Scan-cases : (s : Scan) → (s ≡ found) ⊎ ((st : List Vertex) × (s ≡ pushed st))
Scan-cases found = inl refl
Scan-cases (pushed st) = inr (st, refl)

mem-push_some :
    (o : Option Vertex) (stack : List Vertex) (w : Vertex)
    → Memᴰ w (push_some o stack) ↔ (Memᴰ w stack ⊎ (o ≡ some w))
mem-push_some none stack w = (inl, ⊎_elim (λ m. m) (λ e. cc))
mem-push_some (some v) stack w = (
  λ m. ⊎_elim (λ e. inr (ground arith)) inl (Memᴰ.cases_cons m),
  ⊎_elim Memᴰ.tail (λ e. Memᴰ.head (ground arith)),
)

module _ (dag : Dag) (oldest : Vertex) where
  -- `p` is one of the parents `ps`, newer than `oldest` and held by the graph.
  pub record Step (ps : List (ℕ × ℕ)) (p : Vertex) : Type 0 where
    pub hash : ℕ
    pub round : ℕ
    pub listed : Memᴰ (hash, round) ps
    pub newer : oldest.round < round
    pub held : get_vertex dag hash round ≡ some p

  -- A chain of parents, each newer than `oldest`, to a vertex that names `oldest` as a parent.
  pub data LinkPath : Vertex → Type 0 where
    last : {v : Vertex} (r : ℕ) → Memᴰ (oldest.hash, r) v.parents → LinkPath v
    next : {v p : Vertex} → Step v.parents p → LinkPath p → LinkPath v

  Step-tail : {ps : List (ℕ × ℕ)} {p : Vertex} (e : ℕ × ℕ) → Step ps p → Step (e ∷ ps) p
  Step-tail e s = record {
    hash = s.hash;
    round = s.round;
    listed = Memᴰ.tail s.listed;
    newer = s.newer;
    held = s.held;
  }

  Step-head :
      (h r : ℕ) (ps : List (ℕ × ℕ)) (p : Vertex)
      → oldest.round < r
      → get_vertex dag h r ≡ some p
      → Step ((h, r) ∷ ps) p
  Step-head h r ps p newer held = record {
    hash = h;
    round = r;
    listed = Memᴰ.head refl;
    newer = newer;
    held = held;
  }

  Step-cons :
      (h r : ℕ) (ps : List (ℕ × ℕ)) (p : Vertex)
      → Step ((h, r) ∷ ps) p
      → Step ps p ⊎ (oldest.round < r) × (get_vertex dag h r ≡ some p)
  Step-cons h r ps p s = elim (Memᴰ.cases_cons s.listed) [
    | inl e ↦ inr (ground (arith, s.newer, s.held))
    | inr m ↦
        inl (record { hash = s.hash; round = s.round; listed = m; newer = s.newer; held = s.held })
  ]

  mem-push_newer :
      (h r : ℕ) (stack : List Vertex) (w : Vertex)
      → Memᴰ w (push_newer dag oldest h r stack)
        ↔ (Memᴰ w stack ⊎ (oldest.round < r) × (get_vertex dag h r ≡ some w))
  unfolding push_newer
  mem-push_newer h r stack w = ground (arith, mem-push_some (get_vertex dag h r) stack w)

  scan-found :
      (ps : List (ℕ × ℕ)) (stack : List Vertex)
      → scan dag oldest ps stack ≡ found
      → (r : ℕ) × Memᴰ (oldest.hash, r) ps
  unfolding scan
  scan-found [] stack h = cc
  scan-found ((hash, round) ∷ ps) stack h = elim (Bool-cases (hash == oldest.hash)) [
    | inl e ↦ (round, Memᴰ.head (ground (arith, ==→eq hash oldest.hash e)))
    | inr e ↦
        let (r, m) = scan-found ps (push_newer dag oldest hash round stack) (rw e at h) in
        (r, Memᴰ.tail m)
  ]

  -- When nothing is found, no parent is `oldest`, and the stack grew by the newer parents held.
  pub record Grown (ps : List (ℕ × ℕ)) (stack stack' : List Vertex) : Type 0 where
    pub missing : (r : ℕ) → ¬ Memᴰ (oldest.hash, r) ps
    pub keeps : (w : Vertex) → Memᴰ w stack → Memᴰ w stack'
    pub adds : (w : Vertex) → Step ps w → Memᴰ w stack'
    pub only : (w : Vertex) → Memᴰ w stack' → Memᴰ w stack ⊎ Step ps w

  pub scan-Grown :
      (ps : List (ℕ × ℕ)) (stack stack' : List Vertex)
      → scan dag oldest ps stack ≡ pushed stack'
      → Grown ps stack stack'
  unfolding scan
  scan-Grown [] stack stack' h = record {
    missing = λ r m. Memᴰ.not-nil m;
    keeps = λ w m. subst (Memᴰ w) (ground arith) m;
    adds = λ w s. absurd (Memᴰ.not-nil s.listed);
    only = λ w m. inl (subst (Memᴰ w) (ground arith) m);
  }
  scan-Grown ((h, r) ∷ ps) stack stack' e = elim (Bool-cases (h == oldest.hash)) [
    | inl same ↦ cc (rw same at e)
    | inr differs ↦
        let g = scan-Grown ps (push_newer dag oldest h r stack) stack' (rw differs at e) in
        let top = mem-push_newer h r stack in
        record {
          missing = λ k m.
              ⊎_elim (λ same. ground (arith, eq→== h oldest.hash)) (g.missing k)
                (Memᴰ.cases_cons m);
          keeps = λ w m. g.keeps w ((top w).1 (inl m));
          adds = λ w s.
              ⊎_elim (g.adds w) (λ held. g.keeps w ((top w).1 (inr held))) (Step-cons h r ps w s);
          only = λ w m. elim (g.only w m) [
            | inl before ↦
                ⊎_elim inl (λ (newer, held). inr (Step-head h r ps w newer held)) ((top w).0 before)
            | inr s ↦ inr (Step-tail (h, r) s)
          ];
        }
  ]

  -- `true`: there is a path from some vertex of the stack.
  pub search_sound :
      (fuel : ℕ) (stack : List Vertex)
      → search fuel dag oldest stack ≡ some true
      → (v : Vertex) × Memᴰ v stack × LinkPath v
  unfolding search get_all_parents
  search_sound fuel [] h = cc
  search_sound zero (v ∷ stack) h = cc
  search_sound (suc fuel) (v ∷ stack) h = elim (Scan-cases (scan dag oldest v.parents stack)) [
    | inl e ↦ let (r, m) = scan-found v.parents stack e in (v, Memᴰ.head refl, last r m)
    | inr (st, e) ↦
        let (w, m, path) = search_sound fuel st (rw (e, search) at h) in
        elim ((scan-Grown v.parents stack st e).only w m) [
          | inl old ↦ (w, Memᴰ.tail old, path)
          | inr s ↦ (v, Memᴰ.head refl, next s path)
        ]
  ]

  -- More parents, more paths.
  pub LinkPath-mono :
      {v w : Vertex}
      → ((h r : ℕ) → Memᴰ (h, r) v.parents → Memᴰ (h, r) w.parents)
      → LinkPath v
      → LinkPath w
  LinkPath-mono {v} {w} more (last r m) = last r (more oldest.hash r m)
  LinkPath-mono {v} {w} more (next s path) =
      next
        (record {
          hash = s.hash;
          round = s.round;
          listed = more s.hash s.round s.listed;
          newer = s.newer;
          held = s.held;
        })
        path

  LinkPath-cases :
      {v : Vertex}
      → LinkPath v
      → ((r : ℕ) × Memᴰ (oldest.hash, r) v.parents) ⊎ ((p : Vertex) × Step v.parents p × LinkPath p)
  LinkPath-cases (last r m) = inl (r, m)
  LinkPath-cases (next {v} {p} s path) = inr (p, s, path)

  -- `false`: there is none from any vertex of the stack.
  pub search_complete :
      (fuel : ℕ) (stack : List Vertex)
      → search fuel dag oldest stack ≡ some false
      → (v : Vertex) → Memᴰ v stack
      → ¬ LinkPath v
  unfolding search get_all_parents
  search_complete fuel [] h v m = absurd (Memᴰ.not-nil m)
  search_complete zero (x ∷ stack) h v m = cc
  search_complete (suc fuel) (x ∷ stack) h v m =
      elim (Scan-cases (scan dag oldest x.parents stack)) [
        | inl e ↦ cc (rw (e, search) at h)
        | inr (st, e) ↦
            let g = scan-Grown x.parents stack st e in
            let none_in = search_complete fuel st (rw (e, search) at h) in
            let at_x : ¬ LinkPath x = λ path.
              ⊎_elim (λ (r, l). g.missing r l) (λ (p, s, rest). none_in p (g.adds p s) rest)
                (LinkPath-cases path) in
            elim (Memᴰ.cases_cons m) [
              | inl e' ↦ λ path. at_x (subst LinkPath e' path)
              | inr old ↦ none_in v (g.keeps v old)
            ]
      ]

  -- A parent with the hash of `oldest` is found, whatever stands before it.
  pub scan-eq-found :
      (ps : List (ℕ × ℕ)) (stack : List Vertex) (r : ℕ)
      → Memᴰ (oldest.hash, r) ps
      → scan dag oldest ps stack ≡ found
  scan-eq-found ps stack r m = elim (Scan-cases (scan dag oldest ps stack)) [
    | inl e ↦ e
    | inr (st, e) ↦ absurd ((scan-Grown ps stack st e).missing r m)
  ]
