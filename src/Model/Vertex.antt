-- ===== src/Model/Vertex.antt =====
-- model/vertex.hpp and model/vertex.cpp. A hash or a key, an array of 32 bytes, is the number that
-- the bytes write; `parents` is a std::map from a vertex's hash to its round.
pub mod Parents
use dag_rider.Prelude.{
  ℕ, ◌+◌, ◌-◌, ◌%◌, ◌^◌, List, [], ◌∷◌, map, Bool, false, not, Option, none, some, ◌==◌,
  if◌then◌else◌,
}
use dag_rider.Containers.{find}
use dag_rider.Containers.Ordered
use dag_rider.Model.External.{External, to_bytes}
use dag_rider.Model.Block.{Block}
use dag_rider.Model.Block

-- The values of a Round, a uint64_t, are those below this.
abbrev pub u64_mod : ℕ
u64_mod = 2 ^ 64

pub record Vertex : Type 0 where
  pub hash : ℕ
  pub owner : ℕ
  pub block : Block
  pub parents : List (ℕ × ℕ)
  pub round : ℕ

-- `round_ - previous_round == 1` on uint64_t
unfoldable pub is_previous_round : Vertex → ℕ → Bool
is_previous_round v previous = (v.round + u64_mod - previous) % u64_mod == 1

unfoldable pub add_parent : Vertex → ℕ → ℕ → Vertex
add_parent v hash round = record v { parents = Ordered.insert hash round v.parents }

-- The loop of `get_strong_parents` over the parents that are left.
unfoldable pub collect_strong : Vertex → List (ℕ × ℕ) → List (ℕ × ℕ) → List (ℕ × ℕ)
collect_strong v [] strong = strong
collect_strong v ((hash, round) ∷ rest) strong =
    collect_strong v rest
      (if is_previous_round v round then Ordered.insert hash round strong else strong)

unfoldable pub get_strong_parents : Vertex → List (ℕ × ℕ)
unfolding collect_strong
get_strong_parents v = collect_strong v v.parents []

unfoldable pub get_all_parents : Vertex → List (ℕ × ℕ)
get_all_parents v = v.parents

unfoldable pub is_weak_parent : Vertex → ℕ → Bool
is_weak_parent v hash = elim (find hash v.parents) [
  | none ↦ false
  | some round ↦ not (is_previous_round v round)
]

module _ (ext : External) where
  open ext use {Json, of_uint, of_array, of_object, to_cbor, blake3}

  array_json : ℕ → Json
  unfolding to_bytes
  array_json h = of_array (map of_uint (to_bytes 32 h))

  -- A std::map whose keys are arrays becomes an array of pairs.
  parents_json : List (ℕ × ℕ) → Json
  parents_json ps = of_array (map (λ (h, r). of_array (array_json h ∷ of_uint r ∷ [])) ps)

  unfoldable pub to_json : Vertex → Json
  unfolding array_json parents_json
  to_json v = of_object (
      ("hash", array_json v.hash)
      ∷ ("owner", array_json v.owner)
      ∷ ("block", Block.to_json ext v.block)
      ∷ ("parents", parents_json v.parents)
      ∷ ("round", of_uint v.round)
      ∷ [])

  -- The constructor: the hash is that of the vertex with a hash of zeros.
  unfoldable pub create : ℕ → ℕ → Block → List (ℕ × ℕ) → Vertex
  create owner round block parents =
      let blank : Vertex = record {
        hash = 0;
        owner = owner;
        block = block;
        parents = parents;
        round = round;
      } in
      record blank { hash = blake3 (to_cbor (to_json blank)) }

  unfoldable pub genesis : List ℕ → List Vertex
  genesis = map (λ owner. create owner 1 Block.default [])
