-- ===== src/Transaction/BuiltIn.antt =====
-- The blocks of a builder with the committee of model/committee.cpp.

use dag_rider.Prelude.{
  ℕ, ◌≡◌, refl, sym, ap, ◌<◌, subst, List, [], ◌∷◌, Memᴰ, some, All, All-intro, All-mem, length,
  length-Permᴰ, arith,
}
use dag_rider.Model.External.{External}
use dag_rider.Model.Block.{Transaction}
use dag_rider.Model.Committee.{Committee, Validator, Endpoint, get_block_receiver_addresses}
use dag_rider.Model.Validator.{Platform, any_address}
use dag_rider.Model.BuiltIn.{create}
use dag_rider.Model.BuiltIn.Members.{IteratesOnce, entries, members, create-some}
use dag_rider.Consensus.Dag.SameGraph.{Permᴰ-mem}
use dag_rider.Network.Broadcaster.{Outcome}
use dag_rider.Network.Broadcaster
use dag_rider.Transaction.{BlockBuilder, handle_transactions}
use dag_rider.Transaction.Peers.{AllTo, handle_transactions-one_peer}

-- A validator with its block receiver at an address.
IsAt : ℕ → ℕ × Validator → Type 0
IsAt a e = e.1.block_address.address ≡ a

receivers-IsAt :
    (a : ℕ) (c : Committee)
    → All (IsAt a) c
    → All (λ (x : Endpoint). x.address ≡ a) (get_block_receiver_addresses c)
unfolding get_block_receiver_addresses IsAt
receivers-IsAt a [] h = tt
receivers-IsAt a (e ∷ c) h = (h.0, receivers-IsAt a c h.1)

-- A builder whose committee has its block receivers at one address.
to_first :
    (ext : External) (dump : ext.Json → List ℕ) (net : Endpoint → Outcome) (a : ℕ) (c : Committee)
    → All (IsAt a) c
    → 0 < length c
    → (b : BlockBuilder) (ts : List Transaction) → b.committee ≡ c
    → b.network ≡ Broadcaster.create
    → (id : ℕ) × (v : Validator) × Memᴰ (id, v) c
      × AllTo v.block_address (handle_transactions ext dump net b ts).network.written
unfolding get_block_receiver_addresses IsAt
to_first ext dump net a [] h some_there b ts same fresh = absurd (omega arith)
to_first ext dump net a ((id, v) ∷ c) h some_there b ts same fresh = (
  id,
  v,
  Memᴰ.head refl,
  handle_transactions-one_peer ext dump net v.block_address (get_block_receiver_addresses c)
      (subst (λ n. All (λ (x : Endpoint). x.address ≡ n) (get_block_receiver_addresses c)) (sym h.0)
        (receivers-IsAt a c h.1))
      b ts (ap get_block_receiver_addresses same) fresh,
)

module _ (ext : External) (platform : Platform) where
  open platform use {make_address}

  entries-IsAt : (a : ℕ) → All (IsAt a) (entries ext platform a)
  unfolding IsAt
  entries-IsAt a = (refl, (refl, (refl, (refl, tt))))

  -- Where "0.0.0.0" is read as an address, and in whatever order a map iterates over its entries, the
  -- constructor of a committee returns one, and for a builder that has this committee and a new
  -- broadcaster, given any transactions on a network that answers in any way, there is one of the four
  -- validators such that nothing is sent but to its block receiver: the other three, whose ports are
  -- others, get no block.
  pub handle_transactions-built_in :
      (dump : ext.Json → List ℕ) (net : Endpoint → Outcome) (a : ℕ)
      → make_address any_address ≡ some a
      → IteratesOnce platform
      → (b : BlockBuilder) (ts : List Transaction) → create ext platform ≡ some b.committee
      → b.network ≡ Broadcaster.create
      → (id : ℕ) × (v : Validator) × Memᴰ (id, v) (entries ext platform a)
        × AllTo v.block_address (handle_transactions ext dump net b ts).network.written
  handle_transactions-built_in dump net a at_a once b ts made fresh =
      let mixed = once (entries ext platform a) in
      let same : b.committee ≡ members ext platform a =
        cc (made, create-some ext platform a at_a) in
      let at : All (IsAt a) (members ext platform a) =
        All-intro (IsAt a) _ (λ e m. All-mem (IsAt a) _ (entries-IsAt a) (Permᴰ-mem mixed m)) in
      let (id, v, here, only) =
        to_first ext dump net a (members ext platform a) at (omega (arith, length-Permᴰ mixed)) b ts
          same fresh in
      (id, v, Permᴰ-mem mixed here, only)
