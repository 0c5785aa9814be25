-- ===== src/Model/Validator/Keypair.antt =====
-- How a key pair is read (model/validator.cpp, lines 26 to 45).
use dag_rider.Prelude.{
  ℕ, zero, suc, ◌+◌, ◌*◌, ◌/◌, ◌%◌, ◌<◌, ◌≡◌, refl, ap, ◌≢◌, List, [], ◌∷◌, ◌++◌, none, some, arith,
  All, length, length-append, ◌==◌, if◌then◌else◌, Bool-cases, ==→eq, inl, inr,
}
use dag_rider.Model.Numbers.Digits.{hex_digit, stoi-hex_digit}
use dag_rider.Model.Validator.{read_secret, create_keypair}

-- Bytes, written with two hexadecimal digits each.
unfoldable pub hex : List ℕ → List ℕ
hex [] = []
hex (x ∷ bytes) = hex_digit (x / 16) ∷ hex_digit (x % 16) ∷ hex bytes

length-hex : (bytes : List ℕ) → length (hex bytes) ≡ 2 * length bytes
unfolding hex
length-hex [] = refl
length-hex (x ∷ bytes) = omega (arith, length-hex bytes)

read_secret-hex :
    (n : ℕ) (bytes rest : List ℕ)
    → length bytes ≡ n
    → All (λ (x : ℕ). x < 256) bytes
    → read_secret n (hex bytes ++ rest) ≡ some bytes
unfolding read_secret hex
read_secret-hex zero [] rest e h = refl
read_secret-hex zero (x ∷ bytes) rest e h = absurd (omega arith)
read_secret-hex (suc n) [] rest e h = absurd (omega arith)
read_secret-hex (suc n) (x ∷ bytes) rest e h =
    rw (stoi-hex_digit (x / 16) (x % 16) (omega arith) (omega arith), read_secret)
      (rw (read_secret-hex n bytes rest (omega arith) h.1)
        (ap (λ k. some (k ∷ bytes)) (omega arith)))

lengths : (bytes rest : List ℕ) → length bytes ≡ 32 → length (hex bytes ++ rest) ≡ 64 + length rest
lengths bytes rest e = omega (arith, length-append (hex bytes) rest, length-hex bytes)

create_keypair-none : (kps : List ℕ) → length kps ≢ 128 → create_keypair kps ≡ none
unfolding create_keypair
create_keypair-none kps h = elim (Bool-cases (length kps == 128)) [
  | inl same ↦ absurd (h (grind arith))
  | inr other ↦ rw (other, create_keypair) refl
]

-- 32 bytes in hexadecimal, two digits each, followed by any text, give these bytes as the secret key
-- where the text has 64 characters, whatever they are, and an exception where it has not.
pub create_keypair-hex :
    (bytes : List ℕ)
    → length bytes ≡ 32
    → All (λ (x : ℕ). x < 256) bytes
    → (rest : List ℕ)
    → create_keypair (hex bytes ++ rest) ≡ (if length rest == 64 then some bytes else none)
unfolding create_keypair
create_keypair-hex bytes e h rest = elim (Bool-cases (length rest == 64)) [
  | inl full ↦
      rw (lengths bytes rest e, ==→eq (length rest) 64 full, create_keypair)
        (read_secret-hex 32 bytes rest e h)
  | inr other ↦
      rw other
        (create_keypair-none (hex bytes ++ rest) (λ full. grind (arith, lengths bytes rest e)))
]
