-- ===== src/Model/External.antt =====
-- What src/model takes from nlohmann/json and BLAKE3: the operations it calls.
use Prim.Native.String.{String}
use dag_rider.Prelude.{ℕ, zero, suc, ◌^◌, ◌/◌, ◌%◌, List, [], ◌∷◌}

pub record External : Type 1 where
  pub Json : Type 0
  pub of_uint : ℕ → Json
  -- A text is the list of its characters.
  pub of_string : List ℕ → Json
  pub of_array : List Json → Json
  pub of_object : List (String × Json) → Json
  pub to_cbor : Json → List ℕ
  -- The digest of 32 bytes, as the number that it writes.
  pub blake3 : List ℕ → ℕ

-- The bytes of a number, most significant first: an array of `w` bytes and the number that it
-- writes in base 256 stand for one another, and the order of arrays is that of the numbers.
unfoldable pub to_bytes : ℕ → ℕ → List ℕ
to_bytes zero n = []
to_bytes (suc w) n = (n / 256 ^ w % 256) ∷ to_bytes w n
