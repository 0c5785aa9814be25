-- ===== src/Model/CommitteeJson.antt =====
-- The JSON of a committee (model/committee.cpp, lines 110 to 116). nlohmann/json writes an unordered map
-- whose keys are no texts as an array of pairs. `none`: an exception.
use mathlib.Core.List.{append_assoc, append-nil}
use dag_rider.Prelude.{
  ℕ, ◌^◌, ◌<◌, ◌≡◌, ap, ◌∙◌, sym, subst, List, [], ◌∷◌, ◌++◌, map, All, Option, some, ◌>>=◌,
}
use dag_rider.Containers.{IsKeyed}
use dag_rider.Containers.Hashed.{emplace-new, IsKeyed-before}
use dag_rider.Containers.Hashed
use dag_rider.Model.External.{External}
use dag_rider.Model.Input.{Input, JsonLaws}
use dag_rider.Model.Committee.{Committee, Validator}
use dag_rider.Model.Validator.{Platform}
use dag_rider.Model.Validator
use dag_rider.Model.Validator.Json.{IsReadable, from_json-to_json_validator}

module _ (ext : External) (platform : Platform) where
  open ext use {Json, of_uint, of_array, of_object}

  abbrev entry_json : ℕ × Validator → Json × Json
  entry_json entry = (of_uint entry.0, Validator.to_json ext platform entry.1)

  unfoldable pub to_json : Committee → Json
  to_json c =
      of_object
        (("validators", of_array (map (λ p. of_array (p.0 ∷ p.1 ∷ [])) (map entry_json c))) ∷ [])

  module _ (input : Input ext) where
    open input use {at, get_pairs, get_id}

    -- The entries, in order, into an empty map: the first of a key stays.
    unfoldable pub read_entries : List (Json × Json) → Committee → Option Committee
    unfolding Hashed.emplace
    read_entries [] c = some c
    read_entries ((key, value) ∷ entries) c = do
      id ← get_id key
      validator ← Validator.from_json ext platform input value
      read_entries entries (Hashed.emplace id validator c)

    unfoldable pub from_json : Json → Option Committee
    unfolding read_entries
    from_json j = do
      validators ← at "validators" j
      entries ← get_pairs validators
      read_entries entries []

    -- An entry that is read back from what is written.
    pub record IsEntry (entry : ℕ × Validator) : Type 0 where
      pub small : entry.0 < 2 ^ 32
      pub address_ok : IsReadable ext platform entry.1.address
      pub tx_ok : IsReadable ext platform entry.1.tx_address
      pub block_ok : IsReadable ext platform entry.1.block_address
      pub key_ok : entry.1.public_key < 256 ^ 32

    read_entries-json :
        JsonLaws ext input
        → (front c : Committee) → All IsEntry c
        → IsKeyed (front ++ c)
        → read_entries (map entry_json c) front ≡ some (front ++ c)
    unfolding read_entries
    read_entries-json laws front [] ok keyed = ap some (sym (append-nil front))
    read_entries-json laws front ((id, v) ∷ c) ok keyed =
        let e = ok.0 in
        rw (laws.get_id-of_uint id e.small) (
          rw
            (from_json-to_json_validator ext platform input laws v e.address_ok e.tx_ok e.block_ok
              e.key_ok)
            (ap (read_entries (map entry_json c))
                (emplace-new id v front (IsKeyed-before id v front c keyed))
              ∙ read_entries-json laws (front ++ (id, v) ∷ []) c ok.1
                  (subst IsKeyed (sym (append_assoc front ((id, v) ∷ []) c)) keyed)
              ∙ ap some (append_assoc front ((id, v) ∷ []) c)))

    -- A committee is read back from the JSON that it writes. Taken: what the JSON library documents,
    -- and, of every validator, an id of 32 bits, a key of 32 bytes, and ports of 16 bits with addresses
    -- whose text has no colon and is read as the same address.
    pub from_json-to_json_committee :
        JsonLaws ext input
        → (c : Committee) → IsKeyed c
        → All IsEntry c
        → from_json (to_json c) ≡ some c
    unfolding from_json to_json
    from_json-to_json_committee laws c keyed ok =
        rw (laws.at-of_object _ _)
          (rw (laws.get_pairs-of_array (map entry_json c)) (read_entries-json laws [] c ok keyed))
