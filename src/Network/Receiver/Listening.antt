-- ===== src/Network/Receiver/Listening.antt =====
-- `start` and `run` of a receiver (network/receiver.hpp, lines 50 to 64), on what happens on its
-- io_context.
use dag_rider.Prelude.{
  ℕ, ◌+◌, ◌-◌, ◌≡◌, ◌≢◌, refl, List, [], ◌∷◌, Bool, true, false, ◌||◌, Option, none, some, ltb,
  if◌then◌else◌, All,
}

-- Is `run` in its loop, and how many coroutines of connections are there? An exception ends a coroutine
-- that is detached, and leaves no trace.
pub record Receiver : Type 0 where
  pub accepting : Bool
  pub connections : ℕ

-- A connection comes, async_accept fails, or the coroutine of a connection ends.
pub data Event : Type 0 where
  accepted failed ended : Event

unfoldable pub step : Receiver → Event → Receiver
step r accepted = if r.accepting then record r { connections = r.connections + 1 } else r
step r failed = record r { accepting = false }
step r ended = record r { connections = r.connections - 1 }

-- `io_context_.run()`: it returns when no coroutine is left, with the events to come. `none`: it has not
-- returned after these events.
unfoldable pub run_context : Receiver → List Event → Option (List Event)
unfolding step
run_context r [] = if r.accepting || ltb 0 r.connections then none else some []
run_context r (e ∷ events) =
    let rest = run_context (step r e) events in
    if r.accepting || ltb 0 r.connections then rest else some (e ∷ events)

-- `opens`: the acceptor can be opened at the endpoint.
unfoldable pub start : Bool → List Event → Option (List Event)
unfolding run_context
start opens events = run_context (record { accepting = opens; connections = 0 }) events

run_context-none :
    (connections : ℕ) (events : List Event)
    → All (λ e. e ≢ failed) events
    → run_context (record { accepting = true; connections = connections }) events ≡ none
unfolding run_context step
run_context-none n [] well = refl
run_context-none n (accepted ∷ events) well = run_context-none (n + 1) events well.1
run_context-none n (failed ∷ events) well = absurd (well.0 refl)
run_context-none n (ended ∷ events) well = run_context-none (n - 1) events well.1

-- Where no accept fails, `start` does not return if the acceptor is opened, and at once if it is not.
pub start-returns :
    (opens : Bool) (events : List Event)
    → All (λ e. e ≢ failed) events
    → start opens events ≡ (if opens then none else some events)
unfolding start run_context
start-returns true events well = run_context-none 0 events well
start-returns false [] well = refl
start-returns false (e ∷ events) well = refl
