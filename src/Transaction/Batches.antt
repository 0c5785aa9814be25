-- ===== src/Transaction/Batches.antt =====
-- What a block builder does with the transactions that it gets (transaction/block_builder.cpp,
-- lines 29 to 60).
use dag_rider.Prelude.{
  ℕ, ◌<◌, ◌≡◌, ap, sym, ◌∙◌, List, [], ◌∷◌, ◌++◌, arith, length, length-append, leb, true, All,
  All-append, Bool-cases, inl, inr,
}
use mathlib.Core.List.{append_assoc, append-nil}
use dag_rider.Model.External.{External}
use dag_rider.Model.Block.{Block, Transaction}
use dag_rider.Model.Block
use dag_rider.Model.Committee.{Endpoint}
use dag_rider.Network.Broadcaster.{Outcome}
use dag_rider.Transaction.{
  BlockBuilder, batch_size, drain, send_block, handle_transaction, handle_transactions,
}

pub drain_lem : (queue ts : List Transaction) → drain queue ts ≡ ts ++ queue
unfolding drain
drain_lem [] ts = sym (append-nil ts)
drain_lem (t ∷ queue) ts = drain_lem queue (ts ++ t ∷ []) ∙ append_assoc ts (t ∷ []) queue

abbrev contents : List Block → List Transaction
contents [] = []
contents (x ∷ blocks) = x.transactions ++ contents blocks

contents-append :
    (blocks : List Block) (x : Block)
    → contents (blocks ++ x ∷ []) ≡ contents blocks ++ x.transactions
contents-append [] x = append-nil x.transactions
contents-append (y ∷ blocks) x =
    ap (λ ts. y.transactions ++ ts) (contents-append blocks x)
    ∙ sym (append_assoc y.transactions (contents blocks) x.transactions)

-- All that a builder was given, in order: the transactions of its blocks and those that wait.
unfoldable pub received : BlockBuilder → List Transaction
received b = contents b.built ++ b.transaction_queue

-- Fewer transactions wait than make a block, and every block has as many as make one.
unfoldable pub IsBatched : BlockBuilder → Type 0
IsBatched b =
    (length b.transaction_queue < batch_size)
    × All (λ (x : Block). length x.transactions ≡ batch_size) b.built

full :
    (b : BlockBuilder) (t : Transaction)
    → length b.transaction_queue < batch_size
    → leb batch_size (length (b.transaction_queue ++ t ∷ [])) ≡ true
    → length (b.transaction_queue ++ t ∷ []) ≡ batch_size
full b t few h = ground (arith, length-append b.transaction_queue (t ∷ []))

module _ (ext : External) (dump : ext.Json → List ℕ) (net : Endpoint → Outcome) where
  pub handle_transaction-received :
      (b : BlockBuilder) (t : Transaction)
      → received (handle_transaction ext dump net b t) ≡ received b ++ t ∷ []
  unfolding received handle_transaction send_block Block.create
  handle_transaction-received b t =
      elim (Bool-cases (leb batch_size (length (b.transaction_queue ++ t ∷ [])))) [
        | inl h ↦
            rw (h, received)
              (append-nil _
                ∙ contents-append b.built
                    (Block.create ext (drain (b.transaction_queue ++ t ∷ []) []))
                ∙ ap (λ ts. contents b.built ++ ts) (drain_lem (b.transaction_queue ++ t ∷ []) [])
                ∙ sym (append_assoc (contents b.built) b.transaction_queue (t ∷ [])))
        | inr h ↦
            rw (h, received) (sym (append_assoc (contents b.built) b.transaction_queue (t ∷ [])))
      ]

  pub handle_transaction-IsBatched :
      (b : BlockBuilder) (t : Transaction)
      → IsBatched b
      → IsBatched (handle_transaction ext dump net b t)
  unfolding IsBatched handle_transaction send_block Block.create
  handle_transaction-IsBatched b t ok =
      elim (Bool-cases (leb batch_size (length (b.transaction_queue ++ t ∷ [])))) [
        | inl h ↦
            rw (h, handle_transaction)
              (
                omega arith,
                All-append _ b.built _ ok.1 (
                  ap length (drain_lem (b.transaction_queue ++ t ∷ []) []) ∙ full b t ok.0 h,
                  tt,
                ),
              )
        | inr h ↦ rw (h, handle_transaction) (ground arith, ok.1)
      ]

  -- A builder in whose queue fewer than four transactions wait, given any transactions, loses none,
  -- repeats none and keeps their order: the transactions of its blocks, followed by those that wait,
  -- are those from before and then the new ones. Every block has exactly four, and fewer than four
  -- wait.
  pub handle_transactions-received :
      (b : BlockBuilder) (ts : List Transaction)
      → IsBatched b
      → (received (handle_transactions ext dump net b ts) ≡ received b ++ ts)
        × IsBatched (handle_transactions ext dump net b ts)
  unfolding handle_transactions
  handle_transactions-received b [] ok = (sym (append-nil (received b)), ok)
  handle_transactions-received b (t ∷ ts) ok =
      let rest =
        handle_transactions-received (handle_transaction ext dump net b t) ts
          (handle_transaction-IsBatched b t ok) in
      (
        rest.0
            ∙ ap (λ x. x ++ ts) (handle_transaction-received b t)
            ∙ append_assoc (received b) (t ∷ []) ts,
        rest.1,
      )
