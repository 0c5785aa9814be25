-- ===== src/Network/Coroutines.antt =====
-- network/broadcaster.cpp, lines 12 to 43: several calls of `send` on one io_context. A coroutine is
-- suspended where it waits for async_connect or async_write; in what order the waits end, and how, is
-- the schedule.
pub mod Sequential
pub mod Fairness
pub mod Sound
pub mod Sockets
use dag_rider.Prelude.{
  ℕ, zero, suc, List, [], ◌∷◌, ◌++◌, Bool, true, false, Option, none, some, if◌then◌else◌,
}
use dag_rider.Containers.{find}
use dag_rider.Containers.Hashed
use dag_rider.Model.Committee.{Endpoint}
use dag_rider.Network.Broadcaster.{Broadcaster}

-- A call of `send` that has not begun, that waits for async_connect, or for async_write, or has returned.
pub data Coroutine : Type 0 where
  begun connecting writing : Endpoint → List ℕ → Coroutine
  returned : Coroutine

-- A message that async_write has written to the socket's peer, if it is connected.
unfoldable pub deliver : Bool → Option Endpoint → List ℕ → Broadcaster → Broadcaster
deliver ok none message b = b
deliver ok (some peer) message b =
    if ok then record b { written = b.written ++ (peer, message) ∷ [] } else b

-- What a coroutine does until it waits again; `ok` is how its wait has ended. After a wait the source uses
-- the iterator from before it, which an insertion by another call may have made invalid; here the
-- address is looked up again, which gives what a valid iterator gives.
unfoldable pub resume : Bool → Coroutine → Broadcaster → Coroutine × Broadcaster
unfolding deliver
resume ok (begun e message) b = elim (find e.address b.connections) [
  | some socket ↦ (writing e message, b)
  | none ↦
      (connecting e message, record b { connections = Hashed.insert e.address none b.connections })
]
resume ok (connecting e message) b =
    let connected = record b { connections = Hashed.insert e.address (some e) b.connections } in
    if ok then (writing e message, connected) else (returned, b)
resume ok (writing e message) b = elim (find e.address b.connections) [
  | none ↦ (returned, b)
  | some socket ↦ (returned, deliver ok socket message b)
]
resume ok returned b = (returned, b)

-- The coroutine of a number among those that were spawned goes on.
unfoldable pub resume_at : ℕ → Bool → List Coroutine → Broadcaster → List Coroutine × Broadcaster
unfolding resume
resume_at i ok [] b = ([], b)
resume_at zero ok (c ∷ cs) b = let (c', b') = resume ok c b in (c' ∷ cs, b')
resume_at (suc i) ok (c ∷ cs) b = let (cs', b') = resume_at i ok cs b in (c ∷ cs', b')

-- Along a schedule.
unfoldable pub run_all :
    List (ℕ × Bool) → List Coroutine → Broadcaster → List Coroutine × Broadcaster
unfolding resume_at
run_all [] cs b = (cs, b)
run_all ((i, ok) ∷ schedule) cs b = let (cs', b') = resume_at i ok cs b in run_all schedule cs' b'
