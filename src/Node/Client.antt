-- ===== src/Node/Client.antt =====
-- node/client.hpp and node/client.cpp: a client that sends transactions over a socket, one write after
-- the other. How the waits for the network end is given, in order.
pub mod Sent
use dag_rider.Prelude.{ℕ, ◌+◌, List, [], ◌∷◌, ◌++◌, Bool, leb, if◌then◌else◌}

-- What the client waits for: nothing yet, async_connect, the async_write of a transaction, nothing more.
pub data Waiting : Type 0 where
  idle connecting stopped : Waiting
  writing : ℕ → Waiting

-- How a wait has ended: well or with an error, and after a write, the bytes that were written by then, all
-- or some of 64. They are read from memory that was the array `tx` of `do_send`, which has returned: what
-- stands there is left open.
pub record Ended : Type 0 where
  pub ok : Bool
  pub bytes : List ℕ

-- `sent` collects what was written, one entry for a write that has ended.
pub record Client : Type 0 where
  pub transaction_count : ℕ
  pub tx_size : ℕ
  pub waiting : Waiting
  pub sent : List (List ℕ)

-- The counts are not initialised before `send`.
abbrev pub create : ℕ → ℕ → Client
create transaction_count tx_size = record {
  transaction_count = transaction_count;
  tx_size = tx_size;
  waiting = idle;
  sent = [];
}

-- The array is made and handed to async_write, which does not copy it.
unfoldable pub do_send : ℕ → Client → Client
do_send count client =
    if leb client.transaction_count count
    then record client { waiting = stopped }
    else record client { waiting = writing count }

unfoldable pub send : Client → Client
send client = record client { transaction_count = 40; tx_size = 64; waiting = connecting }

-- The two handlers of `send` and `do_send`: a wait has ended.
unfoldable pub complete : Ended → Client → Client
unfolding do_send
complete end client = elim client.waiting [
  | idle ↦ client
  | connecting ↦ if end.ok then do_send 0 client else record client { waiting = stopped }
  | stopped ↦ client
  | writing count ↦
      let written = record client { sent = client.sent ++ end.bytes ∷ [] } in
      if end.ok then do_send (count + 1) written else record written { waiting = stopped }
]

unfoldable pub run : List Ended → Client → Client
unfolding complete
run [] client = client
run (end ∷ ends) client = run ends (complete end client)
