-- ===== src/Consensus/Protocol/Leaders.antt =====
-- The leader of a wave (consensus/consensus.cpp, lines 159 to 175).
use mathlib.Core.List.{Perm}
use dag_rider.Prelude.{
  ℕ, ◌%◌, ◌^◌, ◌≤◌, ◌<◌, ◌≡◌, refl, inl, inr, Memᴰ, some, arith, get_elem?, get_elem?-some, length,
  length-map, ap, ◌∙◌, Option-cases, All-mem,
}
use dag_rider.Containers.{find, mem-of_find}
use dag_rider.Model.Vertex.{Vertex}
use dag_rider.Model.Committee.{Committee, size, get_nodes_keys}
use dag_rider.Model.Committee.Keys.{sort, length-sort, mem-sort, sort-get_nodes_keys-perm}
use dag_rider.Consensus.Dag.{bucket}
use dag_rider.Consensus.Dag.Insertion.{IsWellFormed, IsPlaced, bucket-IsRound}
use dag_rider.Consensus.Protocol.{Consensus, get_round_for_wave, leader_key, get_wave_vertex_leader}

size-sorted : (c : Committee) → length (sort (get_nodes_keys c)) ≡ size c
unfolding size get_nodes_keys
size-sorted c = length-sort _ ∙ (length-map _ (λ v. v.public_key) ∙ length-map c (λ e. e.1))

-- In every wave a committee that is not empty elects the key of one of its validators.
pub leader_key-member :
    (c : Committee) (wave : ℕ)
    → 0 < size c
    → (k : ℕ) × (leader_key c wave ≡ some k) × Memᴰ k (get_nodes_keys c)
unfolding leader_key
leader_key-member c wave pos =
    let (k, e, m) =
      get_elem?-some (sort (get_nodes_keys c)) (get_round_for_wave wave 1 % size c)
        (omega (arith, size-sorted c)) in
    (k, e, mem-sort k _ m)

-- Two nodes whose committees list the same validators in different orders, as unordered maps may,
-- elect the same key in every wave.
pub leader_key-perm :
    (c d : Committee) (wave : ℕ) → Perm c d → leader_key c wave ≡ leader_key d wave
unfolding leader_key
leader_key-perm c d wave p =
    let keys = sort-get_nodes_keys-perm c d p in
    let sizes : size c ≡ size d = omega (arith, size-sorted c, size-sorted d, ap length keys) in
    rw (keys, sizes) refl

-- A committee of four, such as the built-in one, elects the same validator in every wave from 1 to
-- 2 ^ 30: the one whose key is the second in order.
pub leader_key_constant :
    (c : Committee) (wave : ℕ)
    → size c ≡ 4
    → 0 < wave
    → wave ≤ 2 ^ 30
    → leader_key c wave ≡ get_elem? (sort (get_nodes_keys c)) 1
unfolding leader_key get_round_for_wave
leader_key_constant c wave four pos small =
    let e : get_round_for_wave wave 1 % size c ≡ 1 = rw four (omega arith) in
    ap (get_elem? (sort (get_nodes_keys c))) e

-- A leader that is found in a well-formed graph stands in the first round of the wave and was made
-- by the validator whose key the wave elects.
pub get_wave_vertex_leader-owner :
    (c : Consensus) (wave : ℕ) (v : Vertex)
    → IsWellFormed c.state.dag
    → get_wave_vertex_leader c wave ≡ some (some v)
    → (leader_key c.committee wave ≡ some v.owner) × (v.round ≡ get_round_for_wave wave 1)
unfolding get_wave_vertex_leader
get_wave_vertex_leader-owner c wave v w e = elim (Option-cases (leader_key c.committee wave)) [
  | inl none_there ↦ cc (rw (none_there, get_wave_vertex_leader) at e)
  | inr (k, there) ↦
      let r = get_round_for_wave wave 1 in
      let found : find k (bucket c.state.dag r) ≡ some v = ground arith in
      let placed =
        All-mem (IsPlaced r) (bucket c.state.dag r) (bucket-IsRound c.state.dag r w).1
          (mem-of_find k (bucket c.state.dag r) found) in
      (rw placed.1 there, placed.0)
]
