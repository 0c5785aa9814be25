-- ===== src/Model/Reading/Bytes.antt =====
-- The bytes of a number, read again.
use native.Mathlib.Nat.{div-div-eq-div-mul, div-eq_of_lt, pow-succ', mul_comm}
use dag_rider.Prelude.{ℕ, zero, suc, ◌*◌, ◌/◌, ◌^◌, ◌<◌, ◌≡◌, ap, ◌∙◌, sym, arith}
use dag_rider.Model.External.{to_bytes}
use dag_rider.Model.Reading.{from_bytes}

pow_cons : (w : ℕ) → 256 ^ suc w ≡ 256 ^ w * 256
pow_cons w = pow-succ' 256 w ∙ mul_comm 256 (256 ^ w)

div-pow_cons : (w n : ℕ) → n / 256 ^ suc w ≡ n / 256 ^ w / 256
div-pow_cons w n = ap (λ k. n / k) (pow_cons w) ∙ sym (div-div-eq-div-mul n (256 ^ w) 256)

from_bytes-rest : (w n : ℕ) → from_bytes (n / 256 ^ w) (to_bytes w n) ≡ n
unfolding from_bytes to_bytes
from_bytes-rest zero n = (omega arith)
from_bytes-rest (suc w) n =
    ap (λ m. from_bytes m (to_bytes w n)) (omega (arith, div-pow_cons w n)) ∙ from_bytes-rest w n

-- Bytes of a number that fits in them write this number.
pub from_bytes-to_bytes : (w n : ℕ) → n < 256 ^ w → from_bytes 0 (to_bytes w n) ≡ n
from_bytes-to_bytes w n h =
    ap (λ m. from_bytes m (to_bytes w n)) (sym (div-eq_of_lt h)) ∙ from_bytes-rest w n
