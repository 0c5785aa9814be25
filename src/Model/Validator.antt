-- ===== src/Model/Validator.antt =====
-- model/validator.hpp and model/validator.cpp. ed25519 and the addresses of Boost.Asio are not in the
-- repository: `Platform` has the operations that are called. `none`: an exception.
pub mod Keypair
pub mod Json
use Prim.Native.String.{String}
use dag_rider.Prelude.{
  ℕ, zero, suc, ◌+◌, ◌%◌, ◌^◌, List, [], ◌∷◌, ◌++◌, map, Option, none, some, ◌==◌, if◌then◌else◌,
  length, ◌>>=◌,
}
use dag_rider.Model.External.{External, to_bytes}
use dag_rider.Model.Input.{Input}
use dag_rider.Model.Numbers.{cast, stoi, to_string}
use dag_rider.Model.Committee.{Endpoint, Validator}

pub record Platform : Type 0 where
  -- `ed25519_publickey`
  pub public_key : List ℕ → List ℕ
  -- `make_address`, and `to_string` of an address.
  pub make_address : List ℕ → Option ℕ
  pub show_address : ℕ → List ℕ
  -- The order in which a std::unordered_map of validators iterates over its entries.
  pub iterate : List (ℕ × Validator) → List (ℕ × Validator)

-- The loop over the bytes of the secret key: two characters each, from the front.
unfoldable pub read_secret : ℕ → List ℕ → Option (List ℕ)
read_secret zero text = some []
read_secret (suc n) [] = none
read_secret (suc n) (a ∷ []) = do
  value ← stoi 16 (a ∷ [])
  secret ← read_secret n []
  some (cast 256 value ∷ secret)
read_secret (suc n) (a ∷ b ∷ text) = do
  value ← stoi 16 (a ∷ b ∷ [])
  secret ← read_secret n text
  some (cast 256 value ∷ secret)

-- The secret key. The public key that is computed as well is not used.
unfoldable pub create_keypair : List ℕ → Option (List ℕ)
unfolding read_secret
create_keypair kps = let secret = read_secret 32 kps in if length kps == 128 then secret else none

-- "0.0.0.0"
abbrev pub any_address : List ℕ
any_address = b'0' ∷ b'.' ∷ b'0' ∷ b'.' ∷ b'0' ∷ b'.' ∷ b'0' ∷ []

module _ (ext : External) (platform : Platform) where
  open ext use {Json, of_uint, of_string, of_array, of_object, to_cbor, blake3}
  open platform use {public_key, make_address, show_address}

  unfoldable pub create_public_key_from : List ℕ → ℕ
  create_public_key_from secret = blake3 (to_cbor (of_array (map of_uint (public_key secret))))

  unfoldable pub create : List ℕ → ℕ → ℕ → ℕ → Option Validator
  unfolding create_keypair create_public_key_from
  create keypair port tx_port block_port = do
    secret ← create_keypair keypair
    address ← make_address any_address
    some (record {
      address = record { address = address; port = port };
      tx_address = record { address = address; port = tx_port };
      block_address = record { address = address; port = block_port };
      public_key = create_public_key_from secret;
    })

  -- `address().to_string() + ":" + std::to_string(port())`
  unfoldable pub show_endpoint : Endpoint → List ℕ
  show_endpoint e = show_address e.address ++ b':' ∷ to_string 5 e.port

  unfoldable pub to_json : Validator → Json
  unfolding show_endpoint to_bytes
  to_json v = of_object (
      ("address", of_string (show_endpoint v.address))
      ∷ ("tx_address", of_string (show_endpoint v.tx_address))
      ∷ ("block_address", of_string (show_endpoint v.block_address))
      ∷ ("public_key", of_array (map of_uint (to_bytes 32 v.public_key)))
      ∷ [])

  -- `substr` before and after `find(":")`: without a colon, the whole text both times.
  unfoldable pub split : List ℕ → Option (List ℕ × List ℕ)
  split [] = none
  split (c ∷ text) =
      let rest = split text in
      if c == b':'
      then some ([], text)
      else (elim rest [ none ↦ none | some (front, back) ↦ some (c ∷ front, back) ])

  unfoldable pub parts : List ℕ → List ℕ × List ℕ
  unfolding split
  parts text = elim (split text) [ none ↦ (text, text) | some p ↦ p ]

  -- The port is cut to an unsigned short.
  unfoldable pub read_endpoint : List ℕ → Option Endpoint
  unfolding parts
  read_endpoint text = do
    address ← make_address (parts text).0
    port ← stoi 10 (parts text).1
    some (record { address = address; port = cast (2 ^ 16) port })

  module _ (input : Input ext) where
    open input use {at, get_string, get_hash}

    unfoldable pub from_json : Json → Option Validator
    unfolding read_endpoint
    from_json j = do
      address_json ← at "address" j
      address_str ← get_string address_json
      tx_address_json ← at "tx_address" j
      tx_address_str ← get_string tx_address_json
      block_address_json ← at "block_address" j
      block_address_str ← get_string block_address_json
      address ← read_endpoint address_str
      tx_address ← read_endpoint tx_address_str
      block_address ← read_endpoint block_address_str
      public_key_json ← at "public_key" j
      public_key ← get_hash public_key_json
      some (record {
        address = address;
        tx_address = tx_address;
        block_address = block_address;
        public_key = public_key;
      })
