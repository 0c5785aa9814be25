-- ===== src/Model/Block.antt =====
-- model/block.hpp and model/block.cpp: a block keeps its transactions and the hash last computed.
use dag_rider.Prelude.{ℕ, List, [], ◌∷◌, ◌++◌, map}
use dag_rider.Model.External.{External, to_bytes}

-- A transaction is a list of bytes.
abbrev pub Transaction : Type 0
Transaction = List ℕ

pub record Block : Type 0 where
  pub transactions : List Transaction
  pub hash : ℕ

-- `Block()` sets every byte to zero.
abbrev pub default : Block
default = record { transactions = []; hash = 0 }

module _ (ext : External) where
  open ext use {Json, of_uint, of_array, of_object, to_cbor, blake3}

  unfoldable pub transactions_json : List Transaction → Json
  transactions_json ts = of_array (map (λ t. of_array (map of_uint t)) ts)

  -- `to_json`
  unfoldable pub to_json : Block → Json
  unfolding to_bytes
  to_json b = of_object (
      ("hash", of_array (map of_uint (to_bytes 32 b.hash)))
      ∷ ("transactions", transactions_json b.transactions)
      ∷ [])

  -- `Block(transactions)` hashes the transactions alone.
  unfoldable pub create : List Transaction → Block
  create ts = record { transactions = ts; hash = blake3 (to_cbor (transactions_json ts)) }

  -- `addTransaction` hashes the block's JSON, in which the old hash stands.
  unfoldable pub add_transaction : Block → Transaction → Block
  add_transaction b t =
      let grown = record b { transactions = b.transactions ++ t ∷ [] } in
      record grown { hash = blake3 (to_cbor (to_json grown)) }
