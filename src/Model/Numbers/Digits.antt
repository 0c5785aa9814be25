-- ===== src/Model/Numbers/Digits.antt =====
-- What `stoi` reads of the digits that a number is written with.
use dag_rider.Prelude.{
  ℕ, zero, suc, ◌+◌, ◌-◌, ◌*◌, ◌/◌, ◌%◌, ◌^◌, ◌<◌, ◌≤◌, ◌≡◌, refl, ap, ◌∙◌, sym, List, [], ◌∷◌,
  ◌++◌, some, arith, ltb, if◌then◌else◌, Bool-cases, inl, inr, ◌⊎◌,
}
use mathlib.Core.List.{append_assoc, append-nil}
use dag_rider.Model.Numbers.{
  pos, digit, more_digits, magnitude, after_prefix, in_range, is_space, skip_spaces, signed, stoi,
  to_string,
}

-- The lower-case digit of base 16.
unfoldable pub hex_digit : ℕ → ℕ
hex_digit n = if ltb n 10 then b'0' + n else b'a' + (n - 10)

digit-hex_digit : (n : ℕ) → n < 16 → digit 16 (hex_digit n) ≡ some n
unfolding digit hex_digit
digit-hex_digit n h = ground arith

hex_digit_bounds : (n : ℕ) → n < 16 → (b'0' ≤ hex_digit n) × (hex_digit n ≤ b'f')
unfolding hex_digit
hex_digit_bounds n h = ground arith

-- A text that begins with a character above the signs and the spaces is read as it stands.
stoi-plain :
    (base c : ℕ) (text : List ℕ)
    → b'0' ≤ c
    → stoi base (c ∷ text) ≡ in_range pos (2 ^ 31) (magnitude base (after_prefix base (c ∷ text)))
unfolding stoi skip_spaces is_space signed
stoi-plain base c text h = ground arith

-- Two hexadecimal digits are read as the byte that they write.
pub stoi-hex_digit :
    (hi lo : ℕ)
    → hi < 16
    → lo < 16
    → stoi 16 (hex_digit hi ∷ hex_digit lo ∷ []) ≡ some (pos (hi * 16 + lo))
unfolding after_prefix magnitude more_digits
stoi-hex_digit hi lo h l =
    stoi-plain 16 (hex_digit hi) (hex_digit lo ∷ []) (hex_digit_bounds hi h).0
    ∙ ground (arith, digit-hex_digit hi h, digit-hex_digit lo l)

digit-decimal : (d : ℕ) → d < 10 → digit 10 (b'0' + d) ≡ some d
unfolding digit
digit-decimal d h = ground arith

-- The number is written with as many digits as there are.
abbrev pub Fits : ℕ → ℕ → Type 0
Fits zero n = ⊥
Fits (suc width) n = (n < 10) ⊎ Fits width (n / 10)

more_digits-cons :
    (m d : ℕ) (rest : List ℕ)
    → d < 10
    → more_digits 10 m ((b'0' + d) ∷ rest) ≡ more_digits 10 (m * 10 + d) rest
unfolding more_digits
more_digits-cons m d rest h = rw (digit-decimal d h, more_digits) refl

more_digits-to_string :
    (width n : ℕ) (rest : List ℕ)
    → Fits width n
    → more_digits 10 0 (to_string width n ++ rest) ≡ more_digits 10 n rest
unfolding more_digits to_string
more_digits-to_string zero n rest fits = absurd fits
more_digits-to_string (suc width) n rest fits = elim (Bool-cases (ltb n 10)) [
  | inl small ↦ rw small (ground (arith, digit-decimal n))
  | inr large ↦
      let front : Fits width (n / 10) = elim fits [ inl lt ↦ absurd (ground arith) | inr f ↦ f ] in
      rw large (
        ap (more_digits 10 0) (append_assoc (to_string width (n / 10)) ((b'0' + n % 10) ∷ []) rest)
        ∙ more_digits-to_string width (n / 10) ((b'0' + n % 10) ∷ rest) front
        ∙ more_digits-cons (n / 10) (n % 10) rest (omega arith)
        ∙ ap (λ k. more_digits 10 k rest) (omega arith))
]

nothing_more : (n : ℕ) → more_digits 10 n [] ≡ n
unfolding more_digits
nothing_more n = refl

to_string-cons :
    (width n : ℕ)
    → Fits width n
    → (d : ℕ) × (text : List ℕ) × (d < 10) × (to_string width n ≡ (b'0' + d) ∷ text)
unfolding to_string
to_string-cons zero n fits = absurd fits
to_string-cons (suc width) n fits = elim (Bool-cases (ltb n 10)) [
  | inl small ↦ (n, [], ground arith, rw (small, to_string) refl)
  | inr large ↦
      let (d, text, h, e) =
        to_string-cons width (n / 10) (elim fits [ inl lt ↦ absurd (ground arith) | inr f ↦ f ]) in
      (d, text ++ (b'0' + n % 10) ∷ [], h, rw (large, to_string) (rw e refl))
]

after_prefix-decimal : (text : List ℕ) → after_prefix 10 text ≡ text
unfolding after_prefix
after_prefix-decimal [] = refl
after_prefix-decimal (a ∷ []) = refl
after_prefix-decimal (a ∷ b ∷ []) = refl
after_prefix-decimal (a ∷ b ∷ c ∷ text) = refl

magnitude-more_digits :
    (d : ℕ) (text : List ℕ)
    → d < 10
    → magnitude 10 ((b'0' + d) ∷ text) ≡ some (more_digits 10 0 ((b'0' + d) ∷ text))
unfolding magnitude
magnitude-more_digits d text h =
    rw (digit-decimal d h, magnitude)
      (ap (λ k. some (more_digits 10 k text)) (omega arith)
        ∙ ap some (sym (more_digits-cons 0 d text h)))

-- `stoi` reads the number that `to_string` writes.
pub stoi-to_string :
    (width n : ℕ) → Fits width n → n < 2 ^ 31 → stoi 10 (to_string width n) ≡ some (pos n)
stoi-to_string width n fits small =
    let (d, text, h, e) = to_string-cons width n fits in
    let written : more_digits 10 0 ((b'0' + d) ∷ text) ≡ n =
      ap (more_digits 10 0) (sym e ∙ sym (append-nil (to_string width n)))
      ∙ more_digits-to_string width n [] fits
      ∙ nothing_more n in
    ap (stoi 10) e
    ∙ stoi-plain 10 (b'0' + d) text (omega arith)
    ∙ ap (λ t. in_range pos (2 ^ 31) (magnitude 10 t)) (after_prefix-decimal ((b'0' + d) ∷ text))
    ∙ ap (in_range pos (2 ^ 31)) (magnitude-more_digits d text h ∙ ap some written)
    ∙ ground arith
