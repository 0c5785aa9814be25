-- ===== src/Network/Receiver/Chunks/Whole.antt =====
-- The pieces of a connection and its bytes as a whole (network/receiver.hpp, lines 66 to 92).
use mathlib.Core.List.{flatten, append_assoc, append-nil}
use mathlib.Core.Option.{some-injective}
use dag_rider.Prelude.{
  ℕ, zero, suc, ◌<◌, ◌≡◌, refl, ap, ◌∙◌, sym, subst, List, [], ◌∷◌, ◌++◌, true, false, ◌⊎◌, Option,
  none, some, arith, ◌==◌, Bool-cases, Option-cases, inl, inr, length,
}
use dag_rider.Network.Receiver.{newline, read_until, handle_connection}
use dag_rider.Network.Receiver.Chunks.{read_messages, read_chunks}

-- How a message begins: it is the newline, or a byte before a message that is shorter.
read_until-cons :
    (x : ℕ) (xs message rest : List ℕ)
    → read_until (x ∷ xs) ≡ some (message, rest)
    → ((x == newline ≡ true) × (message ≡ x ∷ []) × (rest ≡ xs))
      ⊎ ((m : List ℕ) × (x == newline ≡ false)
          × (read_until xs ≡ some (m, rest))
          × (message ≡ x ∷ m))
unfolding read_until
read_until-cons x xs message rest h = elim (Bool-cases (x == newline)) [
  | inl e ↦
      let h' = rw (e, read_until) at h in
      let same = some-injective {A = List ℕ × List ℕ} (x ∷ [], xs) (message, rest) h' in
      inl (e, sym (ap (λ p. p.0) same), sym (ap (λ p. p.1) same))
  | inr e ↦ elim (Option-cases (read_until xs)) [
    | inl n ↦ let h' = rw (n, read_until) at (rw (e, read_until) at h) in absurd cc
    | inr ((m, r), n) ↦
        let h' = rw (n, read_until) at (rw (e, read_until) at h) in
        let same = some-injective {A = List ℕ × List ℕ} (x ∷ m, r) (message, rest) h' in
        inr (m, e, n ∙ ap (λ k. some (m, k)) (ap (λ p. p.1) same), sym (ap (λ p. p.0) same))
  ]
]

read_until-append :
    (xs more message rest : List ℕ)
    → read_until xs ≡ some (message, rest)
    → read_until (xs ++ more) ≡ some (message, rest ++ more)
unfolding read_until
read_until-append [] more message rest h = absurd cc
read_until-append (x ∷ xs) more message rest h = elim (read_until-cons x xs message rest h) [
  | inl (e, f, g) ↦ rw e (ap some (cc))
  | inr (m, e, n, f) ↦
      rw e (rw (read_until-append xs more m rest n) (ap (λ k. some (k, rest ++ more)) (sym f)))
]

read_until-shorter :
    (xs message rest : List ℕ) → read_until xs ≡ some (message, rest) → length rest < length xs
unfolding read_until
read_until-shorter [] message rest h = absurd cc
read_until-shorter (x ∷ xs) message rest h = elim (read_until-cons x xs message rest h) [
  | inl (e, f, g) ↦ omega (arith, ap length g)
  | inr (m, e, n, f) ↦ omega (arith, read_until-shorter xs m rest n)
]

module _ {ℓ} {S : Type ℓ} (dispatch : S → List ℕ → Option S) where
  -- From which state a connection with these bytes leads to which.
  data Handled : S → List ℕ → S → Type ℓ where
    closed : (s : S) (bytes : List ℕ) → read_until bytes ≡ none → Handled s bytes s
    threw :
        (s : S) (bytes message rest : List ℕ)
        → read_until bytes ≡ some (message, rest)
        → dispatch s message ≡ none
        → Handled s bytes s
    next :
        (s t u : S) (bytes message rest : List ℕ)
        → read_until bytes ≡ some (message, rest)
        → dispatch s message ≡ some t
        → Handled t rest u
        → Handled s bytes u

  handle_connection-Handled :
      (fuel : ℕ) (s u : S) (bytes : List ℕ)
      → Handled s bytes u
      → length bytes < fuel
      → handle_connection fuel dispatch s bytes ≡ some u
  unfolding handle_connection
  handle_connection-Handled zero s u bytes h enough = absurd (omega arith)
  handle_connection-Handled (suc fuel) s u bytes (closed _ _ e) enough =
      rw (e, handle_connection) refl
  handle_connection-Handled (suc fuel) s u bytes (threw _ _ message rest e n) enough =
      rw (e, handle_connection) (rw n refl)
  handle_connection-Handled (suc fuel) s u bytes (next _ t _ _ message rest e n h) enough =
      rw (e, handle_connection)
        (rw n (
          handle_connection-Handled fuel t u rest h
            (omega (arith, read_until-shorter bytes message rest e))))

  -- What comes after `more` bytes have been put behind the buffer.
  abbrev After : S → List ℕ → S → Option (List ℕ) → Type ℓ
  After s buffer t none = (more : List ℕ) → Handled s (buffer ++ more) t
  After s buffer t (some rest) =
      (read_until rest ≡ none)
      × ((more : List ℕ) (u : S) → Handled t (rest ++ more) u → Handled s (buffer ++ more) u)

  After-next :
      (s t u : S) (buffer message rest : List ℕ) (left : Option (List ℕ))
      → read_until buffer ≡ some (message, rest)
      → dispatch s message ≡ some t
      → After t rest u left
      → After s buffer u left
  After-next s t u buffer message rest none e n after = λ more.
      next s t u (buffer ++ more) message (rest ++ more)
        (read_until-append buffer more message rest e) n (after more)
  After-next s t u buffer message rest (some r) e n after = (
    after.0,
    λ more v h.
        next s t v (buffer ++ more) message (rest ++ more)
          (read_until-append buffer more message rest e) n (after.1 more v h),
  )

  read_messages-After :
      (fuel : ℕ) (s : S) (buffer : List ℕ)
      → length buffer < fuel
      → (t : S) × (left : Option (List ℕ)) × (read_messages fuel dispatch s buffer ≡ some (t, left))
        × After s buffer t left
  unfolding read_messages
  read_messages-After zero s buffer enough = absurd (omega arith)
  read_messages-After (suc fuel) s buffer enough = elim (Option-cases (read_until buffer)) [
    | inl e ↦ (s, some buffer, rw (e, read_messages) refl, (e, λ more u h. h))
    | inr ((message, rest), e) ↦ elim (Option-cases (dispatch s message)) [
      | inl n ↦ (
        s,
        none,
        rw (e, read_messages) (rw n refl),
        λ more.
            threw s (buffer ++ more) message (rest ++ more)
              (read_until-append buffer more message rest e) n,
      )
      | inr (t, n) ↦
          let (u, left, r, after) =
            read_messages-After fuel t rest
              (omega (arith, read_until-shorter buffer message rest e)) in
          (
            u,
            left,
            rw (e, read_messages) (rw n r),
            After-next s t u buffer message rest left e n after,
          )
    ]
  ]

  -- The loop returns, with what these bytes lead to.
  abbrev Returns : S → List ℕ → List (List ℕ) → Type ℓ
  Returns s buffer chunks =
      (u : S) × (read_chunks dispatch s buffer chunks ≡ some u)
      × Handled s (buffer ++ flatten chunks) u

  flatten-cons :
      (buffer chunk : List ℕ) (chunks : List (List ℕ))
      → (buffer ++ chunk) ++ flatten chunks ≡ buffer ++ flatten (chunk ∷ chunks)
  unfolding flatten
  flatten-cons buffer chunk chunks = append_assoc buffer chunk (flatten chunks)

  Returns-cons :
      (s t : S) (buffer chunk : List ℕ) (chunks : List (List ℕ)) (left : Option (List ℕ))
      → read_messages (suc (length (buffer ++ chunk))) dispatch s (buffer ++ chunk) ≡ some (t, left)
      → After s (buffer ++ chunk) t left
      → ((rest : List ℕ) → read_until rest ≡ none → Returns t rest chunks)
      → Returns s buffer (chunk ∷ chunks)
  unfolding read_chunks
  Returns-cons s t buffer chunk chunks none r after more = (
    t,
    rw (r, read_chunks) refl,
    subst (λ bytes. Handled s bytes t) (flatten-cons buffer chunk chunks) (after (flatten chunks)),
  )
  Returns-cons s t buffer chunk chunks (some rest) r after more =
      let (u, e, h) = more rest after.0 in
      (
        u,
        rw (r, read_chunks) e,
        subst (λ bytes. Handled s bytes u) (flatten-cons buffer chunk chunks)
            (after.1 (flatten chunks) u h),
      )

  read_chunks-Returns :
      (s : S) (buffer : List ℕ) (chunks : List (List ℕ))
      → read_until buffer ≡ none
      → Returns s buffer chunks
  unfolding read_chunks flatten
  read_chunks-Returns s buffer [] e =
      (s, refl, closed s (buffer ++ []) (ap read_until (append-nil buffer) ∙ e))
  read_chunks-Returns s buffer (chunk ∷ chunks) e =
      let (t, left, r, after) =
        read_messages-After (suc (length (buffer ++ chunk))) s (buffer ++ chunk) (omega arith) in
      Returns-cons s t buffer chunk chunks left r after
        (λ rest f. read_chunks-Returns t rest chunks f)

  -- In whatever pieces the bytes of a connection come, the loop returns, and leaves the handler as if
  -- they had come at once: as `handle_connection` does, within one turn more than there are bytes.
  pub read_chunks-handle_connection :
      (s : S) (chunks : List (List ℕ)) (fuel : ℕ)
      → length (flatten chunks) < fuel
      → (u : S) × (read_chunks dispatch s [] chunks ≡ some u)
        × (handle_connection fuel dispatch s (flatten chunks) ≡ some u)
  unfolding read_until
  read_chunks-handle_connection s chunks fuel enough =
      let (u, e, h) = read_chunks-Returns s [] chunks refl in
      (u, e, handle_connection-Handled fuel s u (flatten chunks) h enough)
