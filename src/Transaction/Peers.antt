-- ===== src/Transaction/Peers.antt =====
-- Whom a block builder's blocks reach (transaction/block_builder.cpp, lines 50 to 54, over
-- network/broadcaster.cpp).
use dag_rider.Prelude.{
  ℕ, ◌≡◌, refl, ap, subst, sym, List, [], ◌∷◌, ◌++◌, none, some, leb, length, All, All-append,
  Bool-cases, ◌⊎◌, inl, inr,
}
use dag_rider.Containers.{find}
use dag_rider.Model.External.{External}
use dag_rider.Model.Block.{Transaction}
use dag_rider.Model.Committee.{Endpoint, get_block_receiver_addresses}
use dag_rider.Network.Broadcaster.{Broadcaster, Outcome, send_each}
use dag_rider.Network.Broadcaster
use dag_rider.Network.Broadcaster.Peers.{GoesTo, send_each-known, send_each-shared_address}
use dag_rider.Transaction.{
  BlockBuilder, batch_size, send_block, handle_transaction, handle_transactions,
}

-- All that was written went to `e`.
abbrev pub AllTo : Endpoint → List (Endpoint × List ℕ) → Type 0
AllTo e = All (λ (w : Endpoint × List ℕ). w.0 ≡ e)

-- The address of `e` has no socket, one that is not connected, or one that is connected to `e`; and
-- nobody else got anything.
record IsOnly (e : Endpoint) (b : Broadcaster) : Type 0 where
  socket :
      (find e.address b.connections ≡ none)
      ⊎ ((find e.address b.connections ≡ some none)
          ⊎ (find e.address b.connections ≡ some (some e)))
  all : AllTo e b.written

copies :
    (e : Endpoint) (text : List ℕ) (more : List (Endpoint × List ℕ))
    → All (λ (w : Endpoint × List ℕ). w ≡ (e, text)) more
    → AllTo e more
copies e text [] h = tt
copies e text (w ∷ more) h = (ap (λ (x : Endpoint × List ℕ). x.0) h.0, copies e text more h.1)

GoesTo-AllTo :
    (e : Endpoint) (text : List ℕ) (before after : List (Endpoint × List ℕ))
    → GoesTo (some e) text before after
    → AllTo e before
    → AllTo e after
unfolding GoesTo
GoesTo-AllTo e text before after (more, same, all) h =
    subst (AllTo e) (sym same) (All-append _ before more h (copies e text more all))

module _ (ext : External) (dump : ext.Json → List ℕ) (net : Endpoint → Outcome) (e : Endpoint)
    (es : List Endpoint) (same : All (λ (x : Endpoint). x.address ≡ e.address) es) where
  send_each-IsOnly :
      (text : List ℕ) (b : Broadcaster) → IsOnly e b → IsOnly e (send_each net (e ∷ es) text b)
  unfolding GoesTo
  send_each-IsOnly text b ok = elim ok.socket [
    | inl unknown ↦
        let (socket, goes) = send_each-shared_address net e es text b same unknown in
        elim (Bool-cases (net e).connects) [
          | inl c ↦ record {
            socket = inr (inr (rw c at socket));
            all = GoesTo-AllTo e text b.written _ (rw c at goes) ok.all;
          }
          | inr c ↦ record {
            socket = inr (inl (rw c at socket));
            all = subst (AllTo e) (sym (rw c at goes)) ok.all;
          }
        ]
    | inr (inl failed) ↦
        let (socket, goes) =
          send_each-known net (e ∷ es) text b e.address none (refl, same) failed in
        record { socket = inr (inl socket); all = subst (AllTo e) (sym goes) ok.all }
    | inr (inr known) ↦
        let (socket, goes) =
          send_each-known net (e ∷ es) text b e.address (some e) (refl, same) known in
        record { socket = inr (inr socket); all = GoesTo-AllTo e text b.written _ goes ok.all }
  ]

  send_members-IsOnly :
      (members : List Endpoint) (text : List ℕ) (b : Broadcaster)
      → members ≡ e ∷ es
      → IsOnly e b
      → IsOnly e (send_each net members text b)
  send_members-IsOnly members text b are ok =
      subst (λ l. IsOnly e (send_each net l text b)) (sym are) (send_each-IsOnly text b ok)

  handle_transaction-IsOnly :
      (b : BlockBuilder) (t : Transaction)
      → get_block_receiver_addresses b.committee ≡ e ∷ es
      → IsOnly e b.network
      → IsOnly e (handle_transaction ext dump net b t).network
        × (get_block_receiver_addresses (handle_transaction ext dump net b t).committee ≡ e ∷ es)
  unfolding handle_transaction send_block
  handle_transaction-IsOnly b t members ok =
      elim (Bool-cases (leb batch_size (length (b.transaction_queue ++ t ∷ [])))) [
        | inl full ↦
            rw (full, handle_transaction)
              (
                send_members-IsOnly (get_block_receiver_addresses b.committee) _ b.network members
                    ok,
                members,
              )
        | inr waits ↦ rw (waits, handle_transaction) (ok, members)
      ]

  handle_transactions-IsOnly :
      (b : BlockBuilder) (ts : List Transaction)
      → get_block_receiver_addresses b.committee ≡ e ∷ es
      → IsOnly e b.network
      → IsOnly e (handle_transactions ext dump net b ts).network
  unfolding handle_transactions
  handle_transactions-IsOnly b [] members ok = ok
  handle_transactions-IsOnly b (t ∷ ts) members ok =
      let (ok', members') = handle_transaction-IsOnly b t members ok in
      handle_transactions-IsOnly (handle_transaction ext dump net b t) ts members' ok'

  -- For a committee whose block receivers all have one address, with ports of their own, a builder
  -- with a new broadcaster, given any transactions on a network that answers in any way, sends
  -- nothing to any but the first of these receivers.
  pub handle_transactions-one_peer :
      (b : BlockBuilder) (ts : List Transaction)
      → get_block_receiver_addresses b.committee ≡ e ∷ es
      → b.network ≡ Broadcaster.create
      → AllTo e (handle_transactions ext dump net b ts).network.written
  handle_transactions-one_peer b ts members fresh =
      (handle_transactions-IsOnly b ts members
        (subst (IsOnly e) (sym fresh) (record { socket = inl refl; all = tt }))).all
