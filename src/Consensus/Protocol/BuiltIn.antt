-- ===== src/Consensus/Protocol/BuiltIn.antt =====
-- The leaders that the committee of model/committee.cpp elects (consensus/consensus.cpp, lines 156 to
-- 175).
use mathlib.Core.List.{Permᴰ}
use dag_rider.Prelude.{
  length-Permᴰ, ℕ, ◌≡◌, refl, ◌∙◌, sym, [], ◌∷◌, map, some, arith, ◌<◌, ◌≤◌, ◌^◌, Memᴰ,
}
use dag_rider.Model.External.{External}
use dag_rider.Model.Committee.{Committee, size, quorum_threshold, get_nodes_keys}
use dag_rider.Model.Validator.{Platform, any_address}
use dag_rider.Model.BuiltIn.{create}
use dag_rider.Model.BuiltIn.Members.{
  secret_1, secret_2, secret_3, secret_4, key_of, IteratesOnce, entries, members, create-some,
}
use dag_rider.Consensus.Protocol.{leader_key}
use dag_rider.Consensus.Protocol.Leaders.{leader_key-member, leader_key-perm, leader_key_constant}

module _ (ext : External) (platform : Platform) where
  open platform use {make_address}

  entries-size : (a : ℕ) → size (entries ext platform a) ≡ 4
  unfolding size
  entries-size a = refl

  entries-keys :
      (a : ℕ)
      → get_nodes_keys (entries ext platform a)
        ≡ map (key_of ext platform) (secret_1 ∷ secret_2 ∷ secret_3 ∷ secret_4 ∷ [])
  unfolding get_nodes_keys
  entries-keys a = refl

  entries-quorum : (a : ℕ) → quorum_threshold (entries ext platform a) ≡ 3
  unfolding quorum_threshold
  entries-quorum a = refl

  size-perm :
      (c d : Committee) → Permᴰ c d → (size c ≡ size d) × (quorum_threshold c ≡ quorum_threshold d)
  unfolding size quorum_threshold
  size-perm c d p = let e = length-Permᴰ p in (e, rw e refl)

  -- Where "0.0.0.0" is read as an address, in whatever order a map iterates over its entries, the constructor of a committee returns one of four validators,
  -- whose quorum is three, and in any two waves from 1 to 2 ^ 30 it elects the same key: that of one of
  -- the four secret keys that the first halves of the key pairs write.
  pub create-leader :
      (a v w : ℕ)
      → make_address any_address ≡ some a
      → IteratesOnce platform
      → 0 < v
      → v ≤ 2 ^ 30
      → 0 < w
      → w ≤ 2 ^ 30
      → (c : Committee) × (create ext platform ≡ some c)
        × (size c ≡ 4)
        × (quorum_threshold c ≡ 3)
        × (k : ℕ) × Memᴰ k
            (map (key_of ext platform) (secret_1 ∷ secret_2 ∷ secret_3 ∷ secret_4 ∷ []))
        × (leader_key c v ≡ some k)
        × (leader_key c w ≡ some k)
  create-leader a v w at_a once v0 v1 w0 w1 =
      let c = entries ext platform a in
      let mixed : Permᴰ (members ext platform a) c = once c in
      let (sizes, quorums) = size-perm (members ext platform a) c mixed in
      let (k, e, m) = leader_key-member c v (rw (entries-size a) (omega arith)) in
      let same = λ (wave : ℕ). leader_key-perm (members ext platform a) c wave ∣ mixed ∣₁ in
      (
        members ext platform a,
        create-some ext platform a at_a,
        sizes ∙ entries-size a,
        quorums ∙ entries-quorum a,
        k,
        rw (entries-keys a) at m,
        same v ∙ e,
        same w
            ∙ leader_key_constant c w (entries-size a) w0 w1
            ∙ sym (leader_key_constant c v (entries-size a) v0 v1)
            ∙ e,
      )
