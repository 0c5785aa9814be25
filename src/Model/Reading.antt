-- ===== src/Model/Reading.antt =====
-- Blocks and vertices read from JSON (model/block.cpp, lines 32 to 35, and model/vertex.cpp, lines
-- 28 to 58). `none`: an exception.
pub mod Bytes
use Prim.Native.String.{String}
use dag_rider.Prelude.{
  ℕ, ◌+◌, ◌*◌, ◌≡◌, refl, List, [], ◌∷◌, Option, none, some, ◌==◌, if◌then◌else◌, length, ◌>>=◌,
}
use dag_rider.Containers.Ordered
use dag_rider.Model.External.{External}
use dag_rider.Model.Input.{Input}
use dag_rider.Model.Block.{Block}
use dag_rider.Model.Vertex.{Vertex, to_json}

-- The number that bytes write, after those that write `n`.
unfoldable pub from_bytes : ℕ → List ℕ → ℕ
from_bytes n [] = n
from_bytes n (x ∷ xs) = from_bytes (n * 256 + x) xs

-- The test of the size, and the copy into an array of 32 bytes.
unfoldable pub copy_32 : List ℕ → Option ℕ
unfolding from_bytes
copy_32 text = if length text == 32 then some (from_bytes 0 text) else none

module _ (ext : External) (input : Input ext) where
  open input use {at, items, get_string, get_hash, get_transactions, get_round}

  unfoldable pub block_from_json : ext.Json → Option Block
  block_from_json j = do
    hash_json ← at "hash" j
    hash ← get_hash hash_json
    transactions_json ← at "transactions" j
    transactions ← get_transactions transactions_json
    some (record { transactions = transactions; hash = hash })

  -- The loop over the parents.
  unfoldable pub read_parents : List (List ℕ × ext.Json) → List (ℕ × ℕ) → Option (List (ℕ × ℕ))
  unfolding copy_32
  read_parents [] parents = some parents
  read_parents ((text, value) ∷ rest) parents = do
    key ← copy_32 text
    round ← get_round value
    read_parents rest (Ordered.insert key round parents)

  unfoldable pub from_json : ext.Json → Option Vertex
  unfolding read_parents block_from_json
  from_json j = do
    hash_json ← at "hash" j
    hash_str ← get_string hash_json
    hash ← copy_32 hash_str
    owner_json ← at "owner" j
    owner_str ← get_string owner_json
    owner ← copy_32 owner_str
    block_json ← at "block" j
    block ← block_from_json block_json
    parents_json ← at "parents" j
    parents ← read_parents (items parents_json) []
    round_json ← at "round" j
    round ← get_round round_json
    some (record { hash = hash; owner = owner; block = block; parents = parents; round = round })

  -- No vertex that `to_json` writes can be read: `from_json` asks for a string where the hash was
  -- written as an array. Taken of the JSON library: the first field of an object is found under its
  -- name, and an array is not a string.
  pub from_json-to_json :
      (v : Vertex)
      → ((x : ext.Json) (fields : List (String × ext.Json))
          → at "hash" (ext.of_object (("hash", x) ∷ fields)) ≡ some x)
      → ((xs : List ext.Json) → get_string (ext.of_array xs) ≡ none)
      → from_json (to_json ext v) ≡ none
  unfolding from_json to_json
  from_json-to_json v at_first array_no_string = rw (at_first _ _) (rw (array_no_string _) refl)
