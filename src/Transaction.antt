-- ===== src/Transaction.antt =====
-- src/transaction: what makes blocks of the transactions received, and hands them to the network.
pub mod Batches
pub mod Handlers
pub mod Framing
pub mod Peers
pub mod BuiltIn
pub mod Interleaved
use dag_rider.Prelude.{ℕ, List, [], ◌∷◌, ◌++◌, leb, if◌then◌else◌, length}
use dag_rider.Model.External.{External}
use dag_rider.Model.Block.{Block, Transaction}
use dag_rider.Model.Block
use dag_rider.Model.Committee.{Committee, Endpoint, get_block_receiver_addresses}
use dag_rider.Network.Broadcaster.{Broadcaster, Outcome, send_each}
use dag_rider.Network.Broadcaster

abbrev pub batch_size : ℕ
batch_size = 4

-- The `while` loop: the queue's front goes to the back of the vector.
unfoldable pub drain : List Transaction → List Transaction → List Transaction
drain [] transactions = transactions
drain (t ∷ queue) transactions = drain queue (transactions ++ t ∷ [])

-- BlockBuilder. `built` collects the blocks that were made.
pub record BlockBuilder : Type 0 where
  pub committee : Committee
  pub transaction_queue : List Transaction
  pub network : Broadcaster
  pub built : List Block

unfoldable pub create : Committee → BlockBuilder
create committee = record {
  committee = committee;
  transaction_queue = [];
  network = Broadcaster.create;
  built = [];
}

module _ (ext : External) (dump : ext.Json → List ℕ) where
  -- The block of a full queue, and its text sent to every member's block receiver.
  unfoldable pub send_block : (Endpoint → Outcome) → BlockBuilder → List Transaction → BlockBuilder
  unfolding drain Block.create Block.to_json get_block_receiver_addresses
  send_block net builder queue =
      let block = Block.create ext (drain queue []) in
      record builder {
        transaction_queue = [];
        network =
            send_each net (get_block_receiver_addresses builder.committee)
              (dump (Block.to_json ext block)) builder.network;
        built = builder.built ++ block ∷ [];
      }

  -- `net`: what the network answers during the call.
  unfoldable pub handle_transaction :
      (Endpoint → Outcome) → BlockBuilder → Transaction → BlockBuilder
  unfolding send_block
  handle_transaction net builder transaction =
      let queue = builder.transaction_queue ++ transaction ∷ [] in
      if leb batch_size (length queue)
      then send_block net builder queue
      else record builder { transaction_queue = queue }

  -- One call after another.
  unfoldable pub handle_transactions :
      (Endpoint → Outcome) → BlockBuilder → List Transaction → BlockBuilder
  unfolding handle_transaction
  handle_transactions net builder [] = builder
  handle_transactions net builder (t ∷ ts) =
      handle_transactions net (handle_transaction net builder t) ts
