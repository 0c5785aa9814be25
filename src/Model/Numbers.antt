-- ===== src/Model/Numbers.antt =====
-- `std::stoi` and `std::to_string`, as model/validator.cpp calls them. A text is a list of character
-- codes. `none`: std::invalid_argument or std::out_of_range.
pub mod Digits
use dag_rider.Prelude.{
  ℕ, zero, suc, ◌+◌, ◌-◌, ◌*◌, ◌/◌, ◌%◌, ◌^◌, ◌<◌, ◌≤◌, List, [], ◌∷◌, ◌++◌, Bool, true, false,
  ◌&&◌, ◌||◌, Option, none, some, ltb, leb, ◌==◌, if◌then◌else◌, ◌>>=◌,
}

-- An int: a number from 0 on, or one below 0, with `negsuc n` for -(n + 1).
pub data ℤ : Type 0 where
  pos negsuc : ℕ → ℤ

-- The conversion to an unsigned integer below `bound`.
abbrev pub cast : ℕ → ℤ → ℕ
cast bound (pos n) = n % bound
cast bound (negsuc n) = (bound - (n + 1) % bound) % bound

-- The number below 0 of a size.
unfoldable pub negate : ℕ → ℤ
negate zero = pos 0
negate (suc n) = negsuc n

-- The value of a digit, a letter of either case being ten and more.
unfoldable pub digit : ℕ → ℕ → Option ℕ
digit base c =
    let value =
      if leb b'0' c && leb c b'9'
      then c - b'0'
      else if leb b'a' c && leb c b'z'
      then c - b'a' + 10
      else if leb b'A' c && leb c b'Z'
      then c - b'A' + 10
      else base in
    if ltb value base then some value else none

-- The digits that follow, as far as they go.
unfoldable pub more_digits : ℕ → ℕ → List ℕ → ℕ
unfolding digit
more_digits base n [] = n
more_digits base n (c ∷ text) = elim (digit base c) [
  | none ↦ n
  | some d ↦ more_digits base (n * base + d) text
]

unfoldable pub magnitude : ℕ → List ℕ → Option ℕ
unfolding more_digits
magnitude base [] = none
magnitude base (c ∷ text) = elim (digit base c) [
  | none ↦ none
  | some d ↦ some (more_digits base d text)
]

-- With base 16, a prefix `0x` is passed over where a digit follows it.
unfoldable pub after_prefix : ℕ → List ℕ → List ℕ
after_prefix base (z ∷ x ∷ c ∷ text) =
    if (base == 16) && (z == b'0') && ((x == b'x') || (x == b'X'))
    then (elim (digit base c) [ none ↦ z ∷ x ∷ c ∷ text | some _ ↦ c ∷ text ])
    else z ∷ x ∷ c ∷ text
after_prefix base text = text

unfoldable pub is_space : ℕ → Bool
is_space c = (c == b' ') || (leb 9 c && leb c 13)

unfoldable pub skip_spaces : List ℕ → List ℕ
unfolding is_space
skip_spaces [] = []
skip_spaces (c ∷ text) = let rest = skip_spaces text in if is_space c then rest else c ∷ text

-- An int has 32 bits.
abbrev pub in_range : (ℕ → ℤ) → ℕ → Option ℕ → Option ℤ
in_range sign bound none = none
in_range sign bound (some n) = if ltb n bound then some (sign n) else none

unfoldable pub signed : ℕ → List ℕ → Option ℤ
unfolding magnitude after_prefix negate
signed base [] = none
signed base (c ∷ text) =
    let size = magnitude base (after_prefix base text) in
    let unsigned = magnitude base (after_prefix base (c ∷ text)) in
    if c == b'-'
    then in_range negate (2 ^ 31 + 1) size
    else if c == b'+'
    then in_range pos (2 ^ 31) size
    else in_range pos (2 ^ 31) unsigned

unfoldable pub stoi : ℕ → List ℕ → Option ℤ
unfolding signed skip_spaces
stoi base text = signed base (skip_spaces text)

-- `to_string` of a number of at most `width` digits.
unfoldable pub to_string : ℕ → ℕ → List ℕ
to_string zero n = []
to_string (suc width) n =
    let front = to_string width (n / 10) in
    if ltb n 10 then (b'0' + n) ∷ [] else front ++ (b'0' + n % 10) ∷ []
