-- ===== src/Tests/Coroutines.antt =====
-- The theorems on coroutines that send, at two endpoints of one address.
use dag_rider.Prelude.{
  ℕ, ◌≡◌, ◌≤◌, ◌<◌, ◌+◌, refl, List, [], ◌∷◌, Bool, true, false, arith, All, Memᴰ, length,
}
use dag_rider.Containers.Hashed
use dag_rider.Model.Committee.{Endpoint}
use dag_rider.Network.Broadcaster.{Broadcaster, Outcome, send_each}
use dag_rider.Network.Broadcaster
use dag_rider.Network.Coroutines.{Coroutine, returned, run_all}
use dag_rider.Network.Coroutines.Sequential.{spawned}
use dag_rider.Network.Coroutines.Fairness.{turns, pending, run_all-returned}
use dag_rider.Network.Coroutines.Sockets.{run_all-one_peer}

abbrev at_port : ℕ → Endpoint
at_port port = record { address = 0; port = port }

abbrev pair : List Endpoint
pair = at_port 1 ∷ at_port 2 ∷ []

abbrev up : Endpoint → Outcome
up e = record { connects = true; writes = true }

-- The two take turns; the second finds the socket of the first.
abbrev by_turns : List (ℕ × Bool)
by_turns = (0, true) ∷ (1, true) ∷ (0, true) ∷ (1, true) ∷ (0, true) ∷ (1, false) ∷ []

by_turns-fair : (i : ℕ) → i < 2 → 3 ≤ turns i by_turns
unfolding turns
by_turns-fair i small = ground arith

run_all-returned_example :
    All
      (λ (c : Coroutine). c ≡ returned)
      (run_all by_turns (spawned (7 ∷ []) pair) Broadcaster.create).0
    × (length (run_all by_turns (spawned (7 ∷ []) pair) Broadcaster.create).1.written
        ≤ length Broadcaster.create.written + pending (spawned (7 ∷ []) pair))
run_all-returned_example =
    run_all-returned by_turns (spawned (7 ∷ []) pair) Broadcaster.create by_turns-fair

first_gets :
    Memᴰ (at_port 1, 7 ∷ []) (run_all by_turns (spawned (7 ∷ []) pair) Broadcaster.create).1.written
unfolding run_all Hashed.insert
first_gets = Memᴰ.head refl

first_gets_again :
    Memᴰ (at_port 1, 7 ∷ []) (run_all by_turns (spawned (7 ∷ []) pair) Broadcaster.create).1.written
unfolding run_all Hashed.insert
first_gets_again = Memᴰ.tail (Memᴰ.head refl)

run_all-one_peer_example : at_port 1 ≡ at_port 1
run_all-one_peer_example =
    run_all-one_peer by_turns (spawned (7 ∷ []) pair) (at_port 1, 7 ∷ []) (at_port 1, 7 ∷ [])
      ((at_port 1, 7 ∷ [], refl), ((at_port 2, 7 ∷ [], refl), tt)) first_gets first_gets_again refl
