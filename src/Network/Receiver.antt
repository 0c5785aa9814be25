-- ===== src/Network/Receiver.antt =====
-- network/receiver.hpp: `handle_connection`, on the bytes that a connection carries until it is
-- closed.
pub mod Lines
pub mod Listening
pub mod Chunks
use dag_rider.Prelude.{ℕ, zero, suc, List, [], ◌∷◌, Option, none, some, ◌==◌, if◌then◌else◌, ◌>>=◌}

abbrev pub newline : ℕ
newline = 10

-- `async_read_until`, `substr` and `erase`: the bytes up to the first newline, with it, and those
-- after. `none`: the connection is closed before a newline comes, and the read throws.
unfoldable pub read_until : List ℕ → Option (List ℕ × List ℕ)
read_until [] = none
read_until (x ∷ xs) =
    let rest = read_until xs in
    if x == newline
    then some (x ∷ [], xs)
    else (elim rest [ none ↦ none | some (message, bytes) ↦ some (x ∷ message, bytes) ])

-- The `for` loop. `dispatch` returns `none` where it throws: the loop ends. It returns the state in
-- which the handler is left; `none`: the loop has not ended after `fuel` turns.
unfoldable pub handle_connection {ℓ} :
    {S : Type ℓ} → ℕ → (S → List ℕ → Option S) → S → List ℕ → Option S
unfolding read_until
handle_connection zero dispatch s bytes = none
handle_connection (suc fuel) dispatch s bytes = elim (read_until bytes) [
  | none ↦ some s
  | some (message, rest) ↦ (elim (dispatch s message) [
    | none ↦ some s
    | some s' ↦ handle_connection fuel dispatch s' rest
  ])
]
