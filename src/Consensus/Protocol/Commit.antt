-- ===== src/Consensus/Protocol/Commit.antt =====
-- The leaders that one wave commits (consensus/consensus.cpp, lines 122 to 134).
use dag_rider.Prelude.{
  ℕ, zero, suc, ◌<◌, ◌≡◌, refl, inl, inr, List, [], ◌∷◌, ◌++◌, true, false, some, arith, subst,
  bind-eq-some, ◌⊎◌, Bool-cases, Option-cases, ◌∙◌, sym, ap, ◌≤◌,
}
use native.Mathlib.Decide.{dec_lt}
use mathlib.Core.List.{append_assoc, append-nil}
use dag_rider.Model.Vertex.{Vertex}
use dag_rider.Consensus.Dag.{Dag, is_linked, is_strongly_linked}
use dag_rider.Consensus.Dag.Search.{LinkPath}
use dag_rider.Consensus.Dag.Links.{is_linked_sound, is_linked_complete}
use dag_rider.Consensus.Protocol.{
  Consensus, Memory, Pointer, living, freed, read, get_wave_vertex_leader, leaders_loop,
  get_leaders_to_commit,
}

-- `isStronglyLinked` follows the same edges as `isLinked`.
is_strongly_linked-is_linked :
    (fuel : ℕ) (dag : Dag) (newest oldest : Vertex)
    → is_strongly_linked fuel dag newest oldest ≡ is_linked fuel dag newest oldest
unfolding is_strongly_linked is_linked
is_strongly_linked-is_linked fuel dag newest oldest = refl

pub is_strongly_linked_sound :
    (fuel : ℕ) (dag : Dag) (newest oldest : Vertex)
    → is_strongly_linked fuel dag newest oldest ≡ some true
    → (oldest.round < newest.round) × LinkPath dag oldest newest
is_strongly_linked_sound fuel dag newest oldest e =
    is_linked_sound dag fuel newest oldest
      (sym (is_strongly_linked-is_linked fuel dag newest oldest) ∙ e)

pub is_strongly_linked_complete :
    (fuel : ℕ) (dag : Dag) (newest oldest : Vertex)
    → is_strongly_linked fuel dag newest oldest ≡ some false
    → oldest.round < newest.round
    → ¬ LinkPath dag oldest newest
is_strongly_linked_complete fuel dag newest oldest e =
    is_linked_complete dag fuel newest oldest
      (sym (is_strongly_linked-is_linked fuel dag newest oldest) ∙ e)

-- In no wave above `low` and up to `high` there is a leader that an earlier round and a path of
-- parents join to what the pointer `leader` is read as.
abbrev pub Skips : Consensus → Pointer → ℕ → ℕ → Type 0
Skips c leader low high =
    (wave : ℕ) (q : Vertex)
    → low < wave
    → wave ≤ high
    → get_wave_vertex_leader c wave ≡ some (some q)
    → q.round < (read c leader q).round
    → ¬ LinkPath c.state.dag q (read c leader q)

-- The chain that goes down from `leader` through the waves up to the bound: each time to the
-- latest wave whose leader is of an earlier round and linked from what the pointer is read as, until
-- none is.
pub data Chain (c : Consensus) : ℕ → Pointer → List Vertex → Type 0 where
  done : {bound : ℕ} {leader : Pointer} → Skips c leader 0 bound → Chain c bound leader []
  commit :
      {bound : ℕ} {leader : Pointer} {ps : List Vertex} (wave : ℕ) (p : Vertex)
      → suc wave ≤ bound
      → get_wave_vertex_leader c (suc wave) ≡ some (some p)
      → p.round < (read c leader p).round
      → LinkPath c.state.dag p (read c leader p)
      → Skips c leader (suc wave) bound
      → Chain c wave (freed p) ps
      → Chain c bound leader (p ∷ ps)

Skips-suc :
    (c : Consensus) (leader : Pointer) (low high : ℕ)
    → Skips c leader low high
    → ((q : Vertex)
        → get_wave_vertex_leader c (suc high) ≡ some (some q)
        → q.round < (read c leader q).round
        → ¬ LinkPath c.state.dag q (read c leader q))
    → Skips c leader low (suc high)
Skips-suc c leader low high s top wave q above below found lt = elim (dec_lt high wave) [
  | yes over ↦
      let e : wave ≡ suc high = omega arith in
      top q (subst (λ k. get_wave_vertex_leader c k ≡ some (some q)) e found) lt
  | no under ↦ s wave q above (omega arith) found lt
]

Chain-suc :
    (c : Consensus) (bound : ℕ) (leader : Pointer) (ps : List Vertex)
    → Chain c bound leader ps
    → ((q : Vertex)
        → get_wave_vertex_leader c (suc bound) ≡ some (some q)
        → q.round < (read c leader q).round
        → ¬ LinkPath c.state.dag q (read c leader q))
    → Chain c (suc bound) leader ps
Chain-suc c bound leader ps (done s) top = done (Skips-suc c leader 0 bound s top)
Chain-suc c bound leader ps (commit wave p le found lt path s rest) top =
    commit wave p (omega arith) found lt path (Skips-suc c leader (suc wave) bound s top) rest

Skips-none :
    (c : Consensus) (leader : Pointer) (low high : ℕ) → high ≤ low → Skips c leader low high
Skips-none c leader low high le wave q above below = absurd (omega arith)

Unfolds : Consensus → ℕ → Pointer → List Vertex → List Vertex → Type 0
Unfolds c bound leader to_commit out =
    (ps : List Vertex) × (out ≡ to_commit ++ ps) × Chain c bound leader ps

leaders_loop-Chain :
    (fuel : ℕ) (c : Consensus) (bound : ℕ) (leader : Pointer) (to_commit out : List Vertex)
    → leaders_loop fuel c bound leader to_commit ≡ some out
    → Unfolds c bound leader to_commit out
unfolding leaders_loop Unfolds
leaders_loop-Chain fuel c zero leader to_commit out e =
    ([], ground (arith, append-nil to_commit), done (Skips-none c leader 0 0 (omega arith)))
leaders_loop-Chain fuel c (suc wave) leader to_commit out e =
    let (o, found, rest) = bind-eq-some (get_wave_vertex_leader c (suc wave)) _ e in
    elim (Option-cases o) [
      | inl nobody ↦
          let (ps, same, chain) =
            leaders_loop-Chain fuel c wave leader to_commit out (rw nobody at rest) in
          (ps, same, Chain-suc c wave leader ps chain (λ q there lt path. cc))
      | inr (p, someone) ↦
          let (b, linked, more) =
            bind-eq-some (is_strongly_linked fuel c.state.dag (read c leader p) p) _
              (rw someone at rest) in
          elim (Bool-cases b) [
            | inl joined ↦
                let (lt, path) =
                  is_strongly_linked_sound fuel c.state.dag (read c leader p) p
                    (linked ∙ ap some joined) in
                let (ps, same, chain) =
                  leaders_loop-Chain fuel c wave (freed p) (to_commit ++ p ∷ []) out
                    (rw joined at more) in
                (
                  p ∷ ps,
                  same ∙ append_assoc to_commit (p ∷ []) ps,
                  commit wave p (omega arith) (found ∙ ap some someone) lt path
                      (Skips-none c leader (suc wave) (suc wave) (omega arith)) chain,
                )
            | inr apart ↦
                let (ps, same, chain) =
                  leaders_loop-Chain fuel c wave leader to_commit out (rw apart at more) in
                (
                  ps,
                  same,
                  Chain-suc c wave leader ps chain (λ q there lt path.
                      let e : p ≡ q = ground arith in
                      is_strongly_linked_complete fuel c.state.dag (read c leader p) p
                        (linked ∙ ap some apart) (rw e lt) (rw e path)),
                )
          ]
    ]

-- When `getLeadersToCommit` returns, whatever the freed vertices are read as, its vector begins with the
-- leader of the wave that is being committed and goes on with leaders of earlier waves: each time that of
-- the latest wave, down to wave 1, that is older than the vertex which `*leader` is read as and linked
-- from it by a path of parents. That vertex is the first leader until another is found; after that it is
-- what the memory of the leader found last, which is freed, gives.
pub get_leaders_to_commit-Chain :
    (fuel : ℕ) (c : Consensus) (from_wave : ℕ) (leader : Vertex) (out : List Vertex)
    → get_leaders_to_commit fuel c from_wave leader ≡ some out
    → (ps : List Vertex) × (out ≡ leader ∷ ps) × Chain c from_wave (living leader) ps
unfolding get_leaders_to_commit Unfolds
get_leaders_to_commit-Chain fuel c from_wave leader out e =
    leaders_loop-Chain fuel c from_wave (living leader) (leader ∷ []) out e

-- The memory of a freed vertex is that of the next one allocated.
abbrev pub IsReused : Memory → Type 0
IsReused memory = (round : ℕ) (v w : Vertex) → memory round v w ≡ w

Chain-reused :
    (c : Consensus) (bound : ℕ) (v : Vertex) (ps : List Vertex)
    → IsReused c.memory
    → Chain c bound (freed v) ps
    → ps ≡ []
unfolding read
Chain-reused c bound v ps reused (done skips) = refl
Chain-reused c bound v ps reused (commit w p le found lt path skips rest) =
    let same = reused c.state.current_round v p in
    absurd (omega (arith, lt, ap (λ (x : Vertex). x.round) same))

Chain-living :
    (c : Consensus) (bound : ℕ) (leader : Vertex) (ps : List Vertex)
    → IsReused c.memory
    → Chain c bound (living leader) ps
    → ((ps ≡ []) × Skips c (living leader) 0 bound)
      ⊎ ((wave : ℕ) × (p : Vertex) × (ps ≡ p ∷ [])
          × (wave < bound)
          × (get_wave_vertex_leader c (suc wave) ≡ some (some p))
          × LinkPath c.state.dag p leader
          × Skips c (living leader) (suc wave) bound)
unfolding read
Chain-living c bound leader ps reused (done skips) = inl (refl, skips)
Chain-living c bound leader ps reused (commit {ps = rest} w p le found lt path skips others) = inr (
  w,
  p,
  ap (λ xs. p ∷ xs) (Chain-reused c w p rest reused others),
  omega arith,
  found,
  path,
  skips,
)

-- Where a vertex is allocated in the memory of the one freed before it, `getLeadersToCommit` returns at
-- most two leaders: that of the wave which is being committed, and that of the latest earlier wave which
-- is older and linked from it. No leader before that is committed, linked or not.
pub get_leaders_to_commit-reused :
    (fuel : ℕ) (c : Consensus) (bound : ℕ) (leader : Vertex) (out : List Vertex)
    → IsReused c.memory
    → get_leaders_to_commit fuel c bound leader ≡ some out
    → (ps : List Vertex) × (out ≡ leader ∷ ps)
      × (((ps ≡ []) × Skips c (living leader) 0 bound)
          ⊎ ((wave : ℕ) × (p : Vertex) × (ps ≡ p ∷ [])
              × (wave < bound)
              × (get_wave_vertex_leader c (suc wave) ≡ some (some p))
              × LinkPath c.state.dag p leader
              × Skips c (living leader) (suc wave) bound))
get_leaders_to_commit-reused fuel c bound leader out reused e =
    let (ps, same, chain) = get_leaders_to_commit-Chain fuel c bound leader out e in
    (ps, same, Chain-living c bound leader ps reused chain)
