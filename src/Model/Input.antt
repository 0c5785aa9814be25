-- ===== src/Model/Input.antt =====
-- What src reads of JSON with nlohmann/json: the operations that it calls. `none`: they throw.
use Prim.Native.String.{String}
use text.Mathlib.Text.{◌==◌}
use dag_rider.Prelude.{ℕ, ◌<◌, ◌^◌, ◌≡◌, List, [], ◌∷◌, map, Option, none, some, if◌then◌else◌}
use dag_rider.Model.External.{External, to_bytes}
use dag_rider.Model.Block.{Transaction}

pub record Input (ext : External) : Type 0 where
  pub dump : ext.Json → List ℕ
  pub parse : List ℕ → Option ext.Json
  pub at : String → ext.Json → Option ext.Json
  -- The keys and the values of an object.
  pub items : ext.Json → List (List ℕ × ext.Json)
  pub get_string : ext.Json → Option (List ℕ)
  -- An array of 32 bytes, as the number that it writes.
  pub get_hash : ext.Json → Option ℕ
  pub get_transaction : ext.Json → Option Transaction
  pub get_transactions : ext.Json → Option (List Transaction)
  pub get_round : ext.Json → Option ℕ
  -- An array of arrays of two, which an unordered map with keys that are no texts is read from.
  pub get_pairs : ext.Json → Option (List (ext.Json × ext.Json))
  -- A uint32_t.
  pub get_id : ext.Json → Option ℕ

-- The first field of a name.
abbrev pub lookup_field {ℓ} : {A : Type ℓ} → String → List (String × A) → Option A
lookup_field k [] = none
lookup_field k ((j, x) ∷ fields) = if j == k then some x else lookup_field k fields

-- What the library documents of these operations.
pub record JsonLaws (ext : External) (input : Input ext) : Type 0 where
  pub at-of_object :
      (k : String) (fields : List (String × ext.Json))
      → input.at k (ext.of_object fields) ≡ lookup_field k fields
  pub get_string-of_string : (text : List ℕ) → input.get_string (ext.of_string text) ≡ some text
  pub get_hash-of_array :
      (hash : ℕ)
      → hash < 256 ^ 32
      → input.get_hash (ext.of_array (map ext.of_uint (to_bytes 32 hash))) ≡ some hash
  pub get_pairs-of_array :
      (pairs : List (ext.Json × ext.Json))
      → input.get_pairs (ext.of_array (map (λ p. ext.of_array (p.0 ∷ p.1 ∷ [])) pairs)) ≡ some pairs
  pub get_id-of_uint : (id : ℕ) → id < 2 ^ 32 → input.get_id (ext.of_uint id) ≡ some id
