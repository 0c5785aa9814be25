-- ===== src/Network/Receiver/Chunks.antt =====
-- A connection whose bytes come in pieces (network/receiver.hpp, lines 66 to 92): `data` keeps what was
-- read and not handed on, and async_read_until waits while it holds no newline.
pub mod Whole
use dag_rider.Prelude.{ℕ, zero, suc, List, [], ◌∷◌, ◌++◌, Option, none, some, length}
use dag_rider.Network.Receiver.{read_until}

-- The turns of the loop that need no more bytes: the handler, and the bytes that are left where the
-- connection goes on. `none`: not ended within `fuel` turns.
unfoldable pub read_messages {ℓ} :
    {S : Type ℓ} → ℕ → (S → List ℕ → Option S) → S → List ℕ → Option (S × Option (List ℕ))
unfolding read_until
read_messages zero dispatch s buffer = none
read_messages (suc fuel) dispatch s buffer = elim (read_until buffer) [
  | none ↦ some (s, some buffer)
  | some (message, rest) ↦ (elim (dispatch s message) [
    | none ↦ some (s, none)
    | some s' ↦ read_messages fuel dispatch s' rest
  ])
]

-- The loop, as the pieces come, until the connection is closed or `dispatch` throws.
unfoldable pub read_chunks {ℓ} :
    {S : Type ℓ} → (S → List ℕ → Option S) → S → List ℕ → List (List ℕ) → Option S
unfolding read_messages
read_chunks dispatch s buffer [] = some s
read_chunks dispatch s buffer (chunk ∷ chunks) =
    elim (read_messages (suc (length (buffer ++ chunk))) dispatch s (buffer ++ chunk)) [
      | none ↦ none
      | some (s', none) ↦ some s'
      | some (s', some rest) ↦ read_chunks dispatch s' rest chunks
    ]
