-- ===== src/Network/Receiver/Lines.antt =====
-- The messages that a connection's bytes are cut into (network/receiver.hpp, lines 65 to 92).
use dag_rider.Prelude.{
  ℕ, zero, suc, ◌<◌, ◌≡◌, ◌≢◌, refl, List, [], ◌∷◌, ◌++◌, Option, none, some, arith, All, length,
  inl, inr, Option-cases,
}
use dag_rider.Network.Receiver.{newline, read_until, handle_connection}

-- A line: bytes that are no newline.
abbrev pub IsLine : List ℕ → Type 0
IsLine = All (λ (x : ℕ). x ≢ newline)

-- The stream of a list of lines, each with its newline.
unfoldable pub stream : List (List ℕ) → List ℕ → List ℕ
stream [] tail = tail
stream (l ∷ ls) tail = l ++ newline ∷ stream ls tail

-- The handler's states along a list of messages, until it throws.
unfoldable pub dispatch_all {ℓ} : {S : Type ℓ} → (S → List ℕ → Option S) → S → List (List ℕ) → S
dispatch_all dispatch s [] = s
dispatch_all dispatch s (m ∷ ms) = elim (dispatch s (m ++ newline ∷ [])) [
  | none ↦ s
  | some s' ↦ dispatch_all dispatch s' ms
]

read_until-line :
    (l rest : List ℕ) → IsLine l → read_until (l ++ newline ∷ rest) ≡ some (l ++ newline ∷ [], rest)
unfolding read_until
read_until-line [] rest h = refl
read_until-line (x ∷ l) rest h = ground (arith, read_until-line l rest h.1)

read_until-tail : (l : List ℕ) → IsLine l → read_until l ≡ none
unfolding read_until
read_until-tail [] h = refl
read_until-tail (x ∷ l) h = ground (arith, read_until-tail l h.1)

-- A connection that carries lines, each ended by a newline, and then bytes without one, hands the
-- lines to the handler in order, each with its newline, until the handler throws; the bytes after
-- the last newline reach it never. The loop ends, within one turn more than there are lines.
pub handle_connection-stream {ℓ} :
    {S : Type ℓ} (dispatch : S → List ℕ → Option S) (fuel : ℕ) (s : S) (ls : List (List ℕ))
    (tail : List ℕ)
    → All IsLine ls
    → IsLine tail
    → length ls < fuel
    → handle_connection fuel dispatch s (stream ls tail) ≡ some (dispatch_all dispatch s ls)
unfolding handle_connection stream dispatch_all
handle_connection-stream dispatch zero s ls tail h t e = absurd (omega arith)
handle_connection-stream dispatch (suc fuel) s [] tail h t e =
    ground (arith, read_until-tail tail t)
handle_connection-stream dispatch (suc fuel) s (l ∷ ls) tail h t e =
    rw (read_until-line l (stream ls tail) h.0, handle_connection)
      (elim (Option-cases (dispatch s (l ++ newline ∷ []))) [
        | inl n ↦ rw (n, dispatch_all) refl
        | inr (s', n) ↦
            rw (n, dispatch_all)
              (handle_connection-stream dispatch fuel s' ls tail h.1 t (omega arith))
      ])
