-- ===== src/Tests/Clients.antt =====
-- The theorems on the client, with all its writes and with two of them.
use mathlib.Core.List.{flatten}
use dag_rider.Prelude.{ℕ, ◌≡◌, List, [], ◌∷◌, ◌++◌, true, false, Option, some, arith}
use dag_rider.Network.Receiver.{handle_connection}
use dag_rider.Network.Receiver.Chunks.{read_chunks}
use dag_rider.Network.Receiver.Chunks.Whole.{read_chunks-handle_connection}
use dag_rider.Node.Client.{Ended, stopped, create, send, run}
use dag_rider.Node.Client.Sent.{client, written, waits_after, run-sent}

-- A wait that ended well, with the bytes written; one that ended with an error after two bytes.
abbrev well : List ℕ → Ended
well bytes = record { ok = true; bytes = bytes }

abbrev broken : Ended
broken = record { ok = false; bytes = 0 ∷ 2 ∷ [] }

run-sent_example :
    run (well [] ∷ well (0 ∷ 0 ∷ 0 ∷ []) ∷ well (0 ∷ 7 ∷ 0 ∷ []) ∷ broken ∷ []) (send (create 9 9))
    ≡ client stopped ((0 ∷ 0 ∷ 0 ∷ []) ∷ (0 ∷ 7 ∷ 0 ∷ []) ∷ (0 ∷ 2 ∷ []) ∷ [])
unfolding written waits_after
run-sent_example =
    run-sent (well []) (well (0 ∷ 0 ∷ 0 ∷ []) ∷ well (0 ∷ 7 ∷ 0 ∷ []) ∷ broken ∷ []) 9 9

-- A handler that keeps what it gets.
abbrev keep : List (List ℕ) → List ℕ → Option (List (List ℕ))
keep seen message = some (seen ++ message ∷ [])

-- Two messages in three pieces.
abbrev pieces : List (List ℕ)
pieces = (1 ∷ 2 ∷ []) ∷ (10 ∷ 3 ∷ []) ∷ (10 ∷ 4 ∷ []) ∷ []

read_chunks-handle_connection_example :
    (u : List (List ℕ)) × (read_chunks keep [] [] pieces ≡ some u)
    × (handle_connection 7 keep [] (flatten pieces) ≡ some u)
unfolding flatten
read_chunks-handle_connection_example = read_chunks-handle_connection keep [] pieces 7 (omega arith)
