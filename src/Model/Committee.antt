-- ===== src/Model/Committee.antt =====
-- model/committee.hpp and model/committee.cpp, with the fields of model/validator.hpp. `validators`
-- is an unordered map from ids to validators; its order is that of the list.
pub mod Quorums
pub mod Keys
use dag_rider.Prelude.{
  ℕ, ◌+◌, ◌*◌, ◌/◌, ◌%◌, ◌^◌, List, [], ◌∷◌, map, Option, none, some, ◌==◌, if◌then◌else◌, length,
}
use dag_rider.Containers.{find, values}

-- An address stands for the text that its `to_string` gives.
pub record Endpoint : Type 0 where
  pub address : ℕ
  pub port : ℕ

pub record Validator : Type 0 where
  pub address : Endpoint
  pub tx_address : Endpoint
  pub block_address : Endpoint
  pub public_key : ℕ

abbrev pub Committee : Type 0
Committee = List (ℕ × Validator)

-- `endpoint()`, the answer to an unknown id.
abbrev pub no_endpoint : Endpoint
no_endpoint = record { address = 0; port = 0 }

unfoldable pub size : Committee → ℕ
size c = length c

-- `floor` of a size_t is that size_t.
unfoldable pub quorum_threshold : Committee → ℕ
quorum_threshold c = (length c * 2 % 2 ^ 64 / 3 + 1) % 2 ^ 64

abbrev answer : (Validator → Endpoint) → Option Validator → Endpoint
answer f none = no_endpoint
answer f (some v) = f v

unfoldable pub get_node_address : Committee → ℕ → Endpoint
get_node_address c id = answer (λ v. v.address) (find id c)

unfoldable pub get_node_addresses : Committee → List Endpoint
get_node_addresses c = map (λ v. v.address) (values c)

unfoldable pub get_tx_receiver_address : Committee → ℕ → Endpoint
get_tx_receiver_address c id = answer (λ v. v.tx_address) (find id c)

unfoldable pub get_tx_receiver_addresses : Committee → List Endpoint
get_tx_receiver_addresses c = map (λ v. v.tx_address) (values c)

unfoldable pub get_block_receiver_address : Committee → ℕ → Endpoint
get_block_receiver_address c id = answer (λ v. v.block_address) (find id c)

unfoldable pub get_block_receiver_addresses : Committee → List Endpoint
get_block_receiver_addresses c = map (λ v. v.block_address) (values c)

unfoldable pub get_node_addresses_but_me : Committee → ℕ → List Endpoint
get_node_addresses_but_me [] id = []
get_node_addresses_but_me ((j, v) ∷ c) id =
    let rest = get_node_addresses_but_me c id in if j == id then rest else v.address ∷ rest

unfoldable pub get_nodes_keys : Committee → List ℕ
get_nodes_keys c = map (λ v. v.public_key) (values c)

-- `NodePublicKey()`, for an unknown id, is all zeros.
unfoldable pub get_node_key : Committee → ℕ → ℕ
get_node_key c id = elim (find id c) [ none ↦ 0 | some v ↦ v.public_key ]
