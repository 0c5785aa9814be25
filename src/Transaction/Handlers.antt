-- ===== src/Transaction/Handlers.antt =====
-- transaction/coordinator.hpp and transaction/coordinator.cpp: what the handlers do with a message.
-- An exception is caught in `dispatch` and printed.
use dag_rider.Prelude.{
  ℕ, ◌≡◌, refl, List, [], ◌∷◌, ◌++◌, Option, none, some, leb, if◌then◌else◌, length, ◌>>=◌, inl,
  inr, Bool-cases, ap, sym,
}
use mathlib.Core.List.{append-nil}
use dag_rider.Model.External.{External}
use dag_rider.Model.Input.{Input}
use dag_rider.Model.Block.{Block, Transaction}
use dag_rider.Model.Block
use dag_rider.Model.Reading.{block_from_json}
use dag_rider.Model.Committee.{Committee, Endpoint, get_block_receiver_addresses}
use dag_rider.Network.Broadcaster.{Broadcaster, Outcome, send_each}
use dag_rider.Network.Broadcaster
use dag_rider.Transaction.{BlockBuilder, batch_size, drain, send_block, handle_transaction}

-- `sent` collects what was written, with the peer that gets it.
pub record TxReceiverHandler : Type 0 where
  pub committee : Committee
  pub transaction_queue : List Transaction
  pub sent : List (Endpoint × List ℕ)

module _ (ext : External) (input : Input ext) where
  open input use {dump, parse, get_transaction}

  unfoldable pub read_transaction : List ℕ → Option Transaction
  read_transaction message = do j ← parse message; get_transaction j

  unfoldable pub queue_transaction :
      (Endpoint → Outcome) → TxReceiverHandler → Transaction → TxReceiverHandler
  unfolding drain Block.create Block.to_json get_block_receiver_addresses
  queue_transaction net handler transaction =
      let queue = handler.transaction_queue ++ transaction ∷ [] in
      let text = dump (Block.to_json ext (Block.create ext (drain queue []))) in
      let broadcaster =
        send_each net (get_block_receiver_addresses handler.committee) text Broadcaster.create in
      if leb batch_size (length queue)
      then record handler { transaction_queue = []; sent = handler.sent ++ broadcaster.written }
      else record handler { transaction_queue = queue }

  unfoldable pub dispatch : (Endpoint → Outcome) → TxReceiverHandler → List ℕ → TxReceiverHandler
  unfolding read_transaction queue_transaction
  dispatch net handler message = elim (read_transaction message) [
    | none ↦ handler
    | some transaction ↦ queue_transaction net handler transaction
  ]

  -- The number of the block's transactions is what BlockReceiverHandler prints; `none`: it prints
  -- an error.
  unfoldable pub dispatch_block : List ℕ → Option ℕ
  unfolding block_from_json
  dispatch_block message = do
    j ← parse message
    block ← block_from_json ext input j
    some (length block.transactions)

  -- The handler as a block builder that opens its connections anew.
  abbrev pub as_builder : TxReceiverHandler → BlockBuilder
  as_builder h = record {
    committee = h.committee;
    transaction_queue = h.transaction_queue;
    network = Broadcaster.create;
    built = [];
  }

  queue_transaction-handle_transaction :
      (net : Endpoint → Outcome) (h : TxReceiverHandler) (t : Transaction)
      → let builder = handle_transaction ext dump net (as_builder h) t in
        queue_transaction net h t ≡ record h {
          transaction_queue = builder.transaction_queue;
          sent = h.sent ++ builder.network.written;
        }
  unfolding queue_transaction handle_transaction send_block
  queue_transaction-handle_transaction net h t =
      elim (Bool-cases (leb batch_size (length (h.transaction_queue ++ t ∷ [])))) [
        | inl e ↦ rw (e, queue_transaction) refl
        | inr e ↦
            rw (e, queue_transaction)
              (ap
                (λ (x : List (Endpoint × List ℕ)). record h {
                  transaction_queue = h.transaction_queue ++ t ∷ [];
                  sent = x;
                })
                (sym (append-nil h.sent)))
      ]

  -- On a message that is no transaction, the handler's queue stays and nothing is sent. On one that
  -- is, its queue is what `handle_transaction` of a block builder leaves, and it sends what that
  -- sends over new connections.
  pub dispatch-handle_transaction :
      (net : Endpoint → Outcome) (h : TxReceiverHandler) (message : List ℕ)
      → (read_transaction message ≡ none → dispatch net h message ≡ h)
        × ((t : Transaction)
            → read_transaction message ≡ some t
            → let builder = handle_transaction ext dump net (as_builder h) t in
              dispatch net h message ≡ record h {
                transaction_queue = builder.transaction_queue;
                sent = h.sent ++ builder.network.written;
              })
  unfolding dispatch handle_transaction send_block
  dispatch-handle_transaction net h message = (
    λ e. rw (e, dispatch) refl,
    λ t e. rw (e, dispatch) (queue_transaction-handle_transaction net h t),
  )
