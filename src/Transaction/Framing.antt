-- ===== src/Transaction/Framing.antt =====
-- What reaches the receivers of a block builder: network/broadcaster.cpp, line 37, sends a text as it
-- is, and network/receiver.hpp, line 73, waits for a newline.
use dag_rider.Prelude.{
  ℕ, suc, ◌≡◌, List, [], ◌∷◌, ◌++◌, ◌&&◌, Option, none, some, arith, ◌==◌, leb, if◌then◌else◌,
  length, All, All-append, Bool-cases, Option-cases, inl, inr,
}
use dag_rider.Containers.{find}
use dag_rider.Model.External.{External}
use dag_rider.Model.Block.{Transaction}
use dag_rider.Model.Committee.{Endpoint}
use dag_rider.Network.Broadcaster.{Broadcaster, Outcome, write, send, send_each}
use dag_rider.Network.Receiver.{handle_connection}
use dag_rider.Network.Receiver.Lines.{IsLine, stream, dispatch_all, handle_connection-stream}
use dag_rider.Transaction.{
  BlockBuilder, batch_size, send_block, handle_transaction, handle_transactions,
}

-- The bytes that a peer gets, on its one connection.
unfoldable pub received_by : Endpoint → List (Endpoint × List ℕ) → List ℕ
received_by peer [] = []
received_by peer ((e, text) ∷ rest) =
    let others = received_by peer rest in
    if (e.address == peer.address) && (e.port == peer.port) then text ++ others else others

-- Every text written is free of newlines.
unfoldable pub AreLines : List (Endpoint × List ℕ) → Type 0
AreLines = All (λ (w : Endpoint × List ℕ). IsLine w.1)

received_by-IsLine :
    (peer : Endpoint) (ws : List (Endpoint × List ℕ)) → AreLines ws → IsLine (received_by peer ws)
unfolding received_by AreLines
received_by-IsLine peer [] h = tt
received_by-IsLine peer ((e, text) ∷ rest) h =
    elim (Bool-cases ((e.address == peer.address) && (e.port == peer.port))) [
      | inl c ↦
          rw (c, received_by)
            (All-append _ text (received_by peer rest) h.0 (received_by-IsLine peer rest h.1))
      | inr c ↦ rw (c, received_by) (received_by-IsLine peer rest h.1)
    ]

write-AreLines :
    (o : Outcome) (socket : Option Endpoint) (text : List ℕ) (b : Broadcaster)
    → IsLine text
    → AreLines b.written
    → AreLines (write o socket text b).written
unfolding write AreLines
write-AreLines o none text b line h = h
write-AreLines o (some peer) text b line h = elim (Bool-cases o.writes) [
  | inl e ↦ rw e (All-append _ b.written _ h (line, tt))
  | inr e ↦ rw e h
]

send-AreLines :
    (o : Outcome) (e : Endpoint) (text : List ℕ) (b : Broadcaster)
    → IsLine text
    → AreLines b.written
    → AreLines (send o e text b).written
unfolding send
send-AreLines o e text b line h = elim (Option-cases (find e.address b.connections)) [
  | inl n ↦
      rw (n, send)
        (elim (Bool-cases o.connects) [
          | inl c ↦ rw c (write-AreLines o (some e) text _ line h)
          | inr c ↦ rw c h
        ])
  | inr (socket, n) ↦ rw (n, send) (write-AreLines o socket text b line h)
]

send_each-AreLines :
    (net : Endpoint → Outcome) (es : List Endpoint) (text : List ℕ) (b : Broadcaster)
    → IsLine text
    → AreLines b.written
    → AreLines (send_each net es text b).written
unfolding send_each
send_each-AreLines net [] text b line h = h
send_each-AreLines net (e ∷ es) text b line h =
    send_each-AreLines net es text (send (net e) e text b) line
      (send-AreLines (net e) e text b line h)

module _ (ext : External) (dump : ext.Json → List ℕ) (no_newline : (j : ext.Json) → IsLine (dump j))
    (net : Endpoint → Outcome) where
  handle_transaction-AreLines :
      (b : BlockBuilder) (t : Transaction)
      → AreLines b.network.written
      → AreLines (handle_transaction ext dump net b t).network.written
  unfolding handle_transaction send_block
  handle_transaction-AreLines b t h =
      elim (Bool-cases (leb batch_size (length (b.transaction_queue ++ t ∷ [])))) [
        | inl e ↦ rw (e, handle_transaction) (send_each-AreLines net _ _ b.network (no_newline _) h)
        | inr e ↦ rw (e, handle_transaction) h
      ]

  handle_transactions-AreLines :
      (b : BlockBuilder) (ts : List Transaction)
      → AreLines b.network.written
      → AreLines (handle_transactions ext dump net b ts).network.written
  unfolding handle_transactions
  handle_transactions-AreLines b [] h = h
  handle_transactions-AreLines b (t ∷ ts) h =
      handle_transactions-AreLines (handle_transaction ext dump net b t) ts
        (handle_transaction-AreLines b t h)

  -- Where the JSON library writes no newline, as `dump()` without an indent does, no block that a
  -- builder sends is ever handled: whatever transactions it is given and whatever the network
  -- answers, the connection of every peer is read to its end without a call of the peer's handler.
  pub handle_transactions-unframed {ℓ} :
      (b : BlockBuilder) (ts : List Transaction)
      → AreLines b.network.written
      → (peer : Endpoint) {S : Type ℓ} (handler : S → List ℕ → Option S) (s : S) (fuel : ℕ)
      → handle_connection
          (suc fuel)
          handler
          s
          (received_by peer (handle_transactions ext dump net b ts).network.written)
        ≡ some s
  unfolding stream dispatch_all
  handle_transactions-unframed b ts h peer handler s fuel =
      handle_connection-stream handler (suc fuel) s []
        (received_by peer (handle_transactions ext dump net b ts).network.written) tt
        (received_by-IsLine peer _ (handle_transactions-AreLines b ts h)) (omega arith)
