-- ===== src/Transaction/Interleaved.antt =====
-- transaction/block_builder.cpp, lines 29 to 60, as coroutines: calls of `handle_transaction` that take
-- turns on one io_context, as transaction/main.cpp spawns them. A call is suspended only within `send`.
pub mod Received
use mathlib.Core.List.{Perm, append_assoc, append-nil}
use mathlib.Core.List.Perm
use dag_rider.Prelude.{
  ℕ, zero, suc, ◌+◌, ◌≡◌, refl, sym, ap, ◌∙◌, subst, List, [], ◌∷◌, ◌++◌, Bool, true, false, leb,
  if◌then◌else◌, length, Bool-cases, inl, inr,
}
use dag_rider.Model.External.{External}
use dag_rider.Model.Block.{Block, Transaction}
use dag_rider.Model.Block
use dag_rider.Model.Committee.{Endpoint, get_block_receiver_addresses}
use dag_rider.Network.Broadcaster.{Broadcaster}
use dag_rider.Network.Coroutines.{Coroutine, begun, connecting, writing, returned, resume}
use dag_rider.Transaction.{BlockBuilder, batch_size, drain}

-- A call that has not begun, with the reference to its transaction, a number; one that waits within `send`,
-- with the addresses that are left and the text; one that has returned.
pub data Call : Type 0 where
  fresh : ℕ → Call
  sending : Coroutine → List Endpoint → List ℕ → Call
  over : Call

-- The `for` loop over the addresses that are left, to the first wait of the next `send`.
unfoldable pub send_next : List Endpoint → List ℕ → BlockBuilder → Call × BlockBuilder
unfolding resume
send_next [] text builder = (over, builder)
send_next (e ∷ endpoints) text builder =
    let (c, network) = resume false (begun e text) builder.network in
    (sending c endpoints text, record builder { network = network })

-- What a call does after a `send` that has waited: it waits again, or goes on with the next address.
unfoldable pub sent_on : Coroutine → List Endpoint → List ℕ → BlockBuilder → Call × BlockBuilder
unfolding send_next
sent_on returned endpoints text builder = send_next endpoints text builder
sent_on (begun e m) endpoints text builder = (sending (begun e m) endpoints text, builder)
sent_on (connecting e m) endpoints text builder = (sending (connecting e m) endpoints text, builder)
sent_on (writing e m) endpoints text builder = (sending (writing e m) endpoints text, builder)

-- `store` is what a reference reads when the call begins: its transaction, if that lives until then, and
-- what stands in its memory if it does not.
module _ (ext : External) (dump : ext.Json → List ℕ) (store : ℕ → Transaction) where
  -- The queue becomes a block before the first wait.
  unfoldable pub begin_block : BlockBuilder → List Transaction → Call × BlockBuilder
  unfolding drain Block.create Block.to_json get_block_receiver_addresses send_next
  begin_block builder queue =
      let block = Block.create ext (drain queue []) in
      send_next (get_block_receiver_addresses builder.committee) (dump (Block.to_json ext block))
        (record builder { transaction_queue = []; built = builder.built ++ block ∷ [] })

  -- What a call does until it waits again; `ok` is how its wait has ended.
  unfoldable pub go_on : Bool → Call → BlockBuilder → Call × BlockBuilder
  unfolding begin_block resume sent_on
  go_on ok (fresh transaction) builder =
      let queue = builder.transaction_queue ++ store transaction ∷ [] in
      if leb batch_size (length queue)
      then begin_block builder queue
      else (over, record builder { transaction_queue = queue })
  go_on ok (sending c endpoints text) builder =
      let (c', network) = resume ok c builder.network in
      sent_on c' endpoints text (record builder { network = network })
  go_on ok over builder = (over, builder)

  -- The call of a number goes on.
  unfoldable pub go_on_at : ℕ → Bool → List Call → BlockBuilder → List Call × BlockBuilder
  unfolding go_on
  go_on_at i ok [] builder = ([], builder)
  go_on_at zero ok (c ∷ cs) builder = let (c', b') = go_on ok c builder in (c' ∷ cs, b')
  go_on_at (suc i) ok (c ∷ cs) builder = let (cs', b') = go_on_at i ok cs builder in (c ∷ cs', b')

  -- Along a schedule.
  unfoldable pub interleave : List (ℕ × Bool) → List Call → BlockBuilder → List Call × BlockBuilder
  unfolding go_on_at
  interleave [] cs builder = (cs, builder)
  interleave ((i, ok) ∷ schedule) cs builder =
      let (cs', b') = go_on_at i ok cs builder in interleave schedule cs' b'

-- The calls that `simulate_transactions` (transaction/main.cpp) spawns, one for each element of its vector,
-- from the element `i` on. It returns before any of them begins, and its vector goes with it: what they
-- read is not what was in the vector.
unfoldable pub spawned_from : ℕ → ℕ → List Call
spawned_from i zero = []
spawned_from i (suc more) = fresh i ∷ spawned_from (i + 1) more

unfoldable pub simulate_transactions : List Call
unfolding spawned_from
simulate_transactions = spawned_from 0 15

-- What the calls that have not begun are to read.
abbrev pub waiting : (ℕ → Transaction) → List Call → List Transaction
waiting store [] = []
waiting store (fresh t ∷ cs) = store t ∷ waiting store cs
waiting store (sending _ _ _ ∷ cs) = waiting store cs
waiting store (over ∷ cs) = waiting store cs
