-- ===== src/Consensus/System/Committed.antt =====
-- What the leaders of later waves have (consensus/consensus.cpp, lines 105 to 134) when one graph has a
-- quorum of vertices that are linked to a leader.
use native.Mathlib.Decide.{dec_lt}
use dag_rider.Prelude.{
  ℕ, zero, suc, ◌+◌, ◌-◌, ◌*◌, ◌^◌, ◌≤◌, ◌<◌, ◌≡◌, refl, ap, ◌∙◌, sym, subst, List, [], ◌∷◌, Memᴰ,
  some, arith, length, All-mem, Option-cases, inl, inr, some_eq,
}
use dag_rider.Containers.{find, values, mem-of_find}
use dag_rider.Model.Vertex.{Vertex}
use dag_rider.Model.Committee.{Committee, size, quorum_threshold}
use dag_rider.Consensus.Dag.{Dag, Round, bucket}
use dag_rider.Consensus.Dag.Search.{LinkPath, next}
use dag_rider.Consensus.Dag.Closure.{mem-values, find_owner}
use dag_rider.Consensus.Protocol.{
  Consensus, living, read, get_round_for_wave, leader_key, get_wave_vertex_leader,
}
use dag_rider.Consensus.Protocol.Waves.{get_round_for_wave_closed}
use dag_rider.Consensus.Protocol.Commit.{Chain, done, commit}
use dag_rider.Consensus.Protocol.History.{HasNoRivals, IsCausal}
use dag_rider.Consensus.System.Votes.{Votes}
use dag_rider.Consensus.System.World.{IsWorld, parent_held, LinkPath-carried, meets}

some_entry : (m : Round) → 1 ≤ length m → (e : ℕ × Vertex) × Memᴰ e m
some_entry [] low = absurd (omega arith)
some_entry (e ∷ m) low = (e, Memᴰ.head refl)

quorum_threshold-pos : (c : Committee) → size c < 2 ^ 62 → 1 ≤ quorum_threshold c
unfolding quorum_threshold size
quorum_threshold-pos c small = omega arith

-- The leader that a node finds is in its graph.
pub get_wave_vertex_leader-mem :
    (c : Consensus) (wave : ℕ) (v : Vertex)
    → get_wave_vertex_leader c wave ≡ some (some v)
    → Memᴰ v (values (bucket c.state.dag (get_round_for_wave wave 1)))
unfolding get_wave_vertex_leader
get_wave_vertex_leader-mem c wave v e = elim (Option-cases (leader_key c.committee wave)) [
  | inl none_there ↦ cc (rw (none_there, get_wave_vertex_leader) at e)
  | inr (k, there) ↦
      let found : find k (bucket c.state.dag (get_round_for_wave wave 1)) ≡ some v = ground arith in
      mem-values k _ v (mem-of_find k _ found)
]

module _ (U : Vertex → Type 0) (calm : HasNoRivals U) (committee : Committee)
    (world : IsWorld U committee) (pos : 0 < size committee) (small : size committee < 2 ^ 62)
    (d : Dag) (p : Vertex) (r weight : ℕ) (causal : IsCausal U calm d) (known : U p)
    (older : p.round < r) (enough : quorum_threshold committee ≤ weight)
    (votes : Votes d p (bucket d r) weight) (e : Dag) (also_causal : IsCausal U calm e) where
  -- A path that goes on from a parent.
  step_to :
      (v b : Vertex) (s : ℕ)
      → Memᴰ v (values (bucket e s))
      → U b
      → p.round < b.round
      → Memᴰ (b.hash, b.round) v.parents
      → Memᴰ b (values (bucket e b.round))
        × ((LinkPath e p b × Memᴰ p (values (bucket e p.round)))
            → LinkPath e p v × Memᴰ p (values (bucket e p.round)))
  step_to v b s m u newer named =
      let (x, found, there, hash, known_x, _) =
        parent_held U calm committee world e b.hash b.round s v also_causal m named in
      let same : x ≡ b = world.hashed x b known_x u hash in
      (
        subst (λ (y : Vertex). Memᴰ y (values (bucket e b.round))) same there,
        λ (path, held). (
          next
              (record {
                hash = b.hash;
                round = b.round;
                listed = named;
                newer = newer;
                held = found ∙ ap some same;
              })
              path,
          held,
        ),
      )

  -- From every vertex above the quorum's round a path leads to `p`.
  pub above-LinkPath :
      (k : ℕ) (v : Vertex)
      → Memᴰ v (values (bucket e (r + 1 + k)))
      → LinkPath e p v × Memᴰ p (values (bucket e p.round))
  above-LinkPath zero v m =
      let (u, at) = also_causal.each (r + 1 + zero) v m in
      let (b, there, path, named) =
        meets U calm committee world d p v r weight pos small causal enough votes u
          (omega (arith, at)) (omega (arith, at)) in
      let (known_b, at_b) = causal.each r b there in
      let (held, go_on) =
        step_to v b (r + 1 + zero) m known_b (omega (arith, at_b))
          (subst (λ n. Memᴰ (b.hash, n) v.parents) (sym at_b) named) in
      go_on (
        LinkPath-carried U calm committee world d e p b r b.round causal also_causal known there
          held path)
  above-LinkPath (suc k) v m =
      let (u, at) = also_causal.each (r + 1 + suc k) v m in
      let back = world.backed v u (omega (arith, at)) in
      let ((_, b), there) =
        some_entry back.round (omega (arith, back.enough, quorum_threshold-pos committee small)) in
      let (_, before, known_b, named) = All-mem _ back.round back.each there in
      let level : b.round ≡ r + 1 + k = omega (arith, at, before) in
      let (held, go_on) = step_to v b (r + 1 + suc k) m known_b (omega (arith, level)) named in
      go_on (above-LinkPath k b (subst (λ n. Memᴰ b (values (bucket e n))) level held))

module _ (U : Vertex → Type 0) (calm : HasNoRivals U) (committee : Committee)
    (world : IsWorld U committee) (pos : 0 < size committee) (small : size committee < 2 ^ 62)
    (d : Dag) (p : Vertex) (wave weight : ℕ) (from_one : 0 < wave) (no_wrap : wave ≤ 2 ^ 30)
    (causal : IsCausal U calm d) (known : U p) (first : p.round ≡ get_round_for_wave wave 1)
    (enough : quorum_threshold committee ≤ weight)
    (votes : Votes d p (bucket d (4 * (wave - 1) + 4)) weight) (c : Consensus)
    (also_causal : IsCausal U calm c.state.dag)
    (elected : leader_key c.committee wave ≡ some p.owner) where
  -- What the node that commits has of `p`, from a leader of a later wave.
  pub from_later :
      (later : ℕ) (q : Vertex)
      → wave < later
      → later ≤ 2 ^ 30
      → get_wave_vertex_leader c later ≡ some (some q)
      → (p.round < q.round)
        × LinkPath c.state.dag p q
        × (get_wave_vertex_leader c wave ≡ some (some p))
  unfolding get_wave_vertex_leader
  from_later later q above fits found =
      let level = get_round_for_wave_closed wave 1 from_one no_wrap (omega arith) in
      let level_q = get_round_for_wave_closed later 1 (omega arith) fits (omega arith) in
      let there = get_wave_vertex_leader-mem c later q found in
      let k = get_round_for_wave later 1 - (4 * (wave - 1) + 4 + 1) in
      let (path, held) =
        above-LinkPath U calm committee world pos small d p (4 * (wave - 1) + 4) weight causal known
          (omega (arith, first, level)) enough votes c.state.dag also_causal k q
          (subst (λ n. Memᴰ q (values (bucket c.state.dag n))) (omega (arith, level, level_q))
            there) in
      let at = (also_causal.each (get_round_for_wave later 1) q there).1 in
      (
        omega (arith, first, level, level_q, at),
        path,
        rw (elected, get_wave_vertex_leader)
            (ap some (
              find_owner c.state.dag (get_round_for_wave wave 1) p also_causal.formed
                (subst (λ n. Memᴰ p (values (bucket c.state.dag n))) first held))),
      )

  -- After the leader of a later wave, the chain goes on with a leader of this wave or of one between.
  pub Chain-next :
      (bound later : ℕ) (q : Vertex) (ps : List Vertex)
      → Chain c bound (living q) ps
      → wave < later
      → later ≤ 2 ^ 30
      → get_wave_vertex_leader c later ≡ some (some q)
      → wave ≤ bound
      → bound < later
      → (between : ℕ) × (x : Vertex) × (rest : List Vertex) × (ps ≡ x ∷ rest)
        × (wave ≤ between)
        × (between < later)
        × (get_wave_vertex_leader c between ≡ some (some x))
        × (between ≡ wave → x ≡ p)
  unfolding read
  Chain-next bound later q ps (done skips) above fits found inside below =
      let (newer, path, mine) = from_later later q above fits found in
      absurd (skips wave p from_one inside mine newer path)
  Chain-next bound later q ps (commit {ps = others} w x le at lt joined skips rest) above fits found
        inside below =
      let (newer, path, mine) = from_later later q above fits found in
      elim (dec_lt (suc w) wave) [
        | yes over ↦ absurd (skips wave p over inside mine newer path)
        | no under ↦ (
          suc w,
          x,
          others,
          refl,
          omega arith,
          omega arith,
          at,
          λ e.
              some_eq (
                some_eq
                  (sym (subst (λ n. get_wave_vertex_leader c n ≡ some (some x)) e at) ∙ mine)),
        )
      ]
