-- ===== src/Tests/Validators.antt =====
-- The theorems on validators and on the built-in committee.
use mathlib.Core.List.{Permᴰ}
use mathlib.Core.List.Permᴰ
use dag_rider.Prelude.{
  ℕ, zero, suc, ◌+◌, ◌<◌, ◌≤◌, ◌^◌, ◌≡◌, refl, List, [], ◌∷◌, ◌++◌, map, none, some, true, arith,
  All, Memᴰ, length, ◌==◌, if◌then◌else◌,
}
use dag_rider.Model.Committee.{Committee, Validator, Endpoint, size, quorum_threshold}
use dag_rider.Model.Validator.{Platform, create_keypair, any_address}
use dag_rider.Model.Validator.Keypair.{hex, create_keypair-hex}
use dag_rider.Model.Validator.Json.{IsReadable}
use dag_rider.Model.CommitteeJson.{IsEntry, from_json-to_json_committee}
use dag_rider.Model.CommitteeJson
use dag_rider.Model.BuiltIn.{create}
use dag_rider.Model.BuiltIn.Members.{
  entries, secret_1, secret_2, secret_3, secret_4, key_of, members, create-some,
}
use dag_rider.Consensus.Protocol.{leader_key}
use dag_rider.Consensus.Protocol.BuiltIn.{create-leader}
use dag_rider.Network.Broadcaster.{Outcome}
use dag_rider.Network.Broadcaster
use dag_rider.Transaction.{BlockBuilder, handle_transactions}
use dag_rider.Transaction.Peers.{AllTo}
use dag_rider.Transaction.BuiltIn.{handle_transactions-built_in}
use dag_rider.Tests.Samples.{plain, validator, four}
use dag_rider.Tests.Trees.{trees, tree_reader, tree_laws}

-- The entries in the opposite order.
abbrev backwards : Committee → Committee
backwards [] = []
backwards (e ∷ m) = backwards m ++ e ∷ []

Permᴰ-last : (e : ℕ × Validator) (m : Committee) → Permᴰ (m ++ e ∷ []) (e ∷ m)
Permᴰ-last e [] = Permᴰ.refl (e ∷ [])
Permᴰ-last e (f ∷ m) = Permᴰ.trans (Permᴰ.cons refl (Permᴰ-last e m)) (Permᴰ.swap refl refl)

backwards_lem : (m : Committee) → Permᴰ (backwards m) m
backwards_lem [] = Permᴰ.nil
backwards_lem (e ∷ m) = Permᴰ.trans (Permᴰ-last e (backwards m)) (Permᴰ.cons refl (backwards_lem m))

-- Every text is the address 0.
abbrev platform : Platform
platform = record {
  public_key = λ secret. secret;
  make_address = λ text. some 0;
  show_address = λ address. any_address;
  iterate = backwards;
}

abbrev countdown : ℕ → List ℕ
countdown zero = []
countdown (suc n) = n ∷ countdown n

countdown-All : (n : ℕ) → n ≤ 256 → All (λ (x : ℕ). x < 256) (countdown n)
countdown-All zero h = tt
countdown-All (suc n) h = (h, countdown-All n (omega arith))

create_keypair-hex_example :
    create_keypair (hex (countdown 32) ++ countdown 64)
    ≡ (if length (countdown 64) == 64 then some (countdown 32) else none)
create_keypair-hex_example =
    create_keypair-hex (countdown 32) refl (countdown-All 32 (omega arith)) (countdown 64)

readable :
    (port : ℕ) → port < 2 ^ 16 → IsReadable trees platform (record { address = 0; port = port })
readable port h = record {
  no_colon = (
    omega arith,
    (omega arith, (omega arith, (omega arith, (omega arith, (omega arith, (omega arith, tt)))))),
  );
  read_back = refl;
  port_small = h;
}

entry :
    (id key port : ℕ)
    → id < 2 ^ 32
    → key < 256 ^ 32
    → port + 20 < 2 ^ 16
    → IsEntry trees platform tree_reader (id, validator key port)
entry id key port small key_small port_small = record {
  small = small;
  address_ok = readable port (omega arith);
  tx_ok = readable (port + 10) (omega arith);
  block_ok = readable (port + 20) port_small;
  key_ok = key_small;
}

from_json-to_json_committee_example :
    CommitteeJson.from_json trees platform tree_reader (CommitteeJson.to_json trees platform four)
    ≡ some four
from_json-to_json_committee_example =
    from_json-to_json_committee trees platform tree_reader tree_laws four
      (refl, (refl, (refl, (refl, tt))))
      (
        entry 3 30 1236 (omega arith) (omega arith) (omega arith),
        (
          entry 1 10 1234 (omega arith) (omega arith) (omega arith),
          (
            entry 4 40 1237 (omega arith) (omega arith) (omega arith),
            (entry 2 20 1235 (omega arith) (omega arith) (omega arith), tt),
          ),
        ),
      )

create-leader_example :
    (c : Committee) × (create plain platform ≡ some c)
    × (size c ≡ 4)
    × (quorum_threshold c ≡ 3)
    × (k : ℕ) × Memᴰ k
        (map (key_of plain platform) (secret_1 ∷ secret_2 ∷ secret_3 ∷ secret_4 ∷ []))
    × (leader_key c 1 ≡ some k)
    × (leader_key c 2 ≡ some k)
create-leader_example =
    create-leader plain platform 0 1 2 refl backwards_lem (omega arith) (omega arith) (omega arith)
      (omega arith)

abbrev up : Endpoint → Outcome
up e = record { connects = true; writes = true }

abbrev builder : BlockBuilder
builder = record {
  committee = members plain platform 0;
  transaction_queue = (1 ∷ []) ∷ (2 ∷ []) ∷ (3 ∷ []) ∷ [];
  network = Broadcaster.create;
  built = [];
}

handle_transactions-built_in_example :
    (id : ℕ) × (v : Validator) × Memᴰ (id, v) (entries plain platform 0)
    × AllTo v.block_address
        (handle_transactions plain (λ j. j) up builder ((4 ∷ []) ∷ [])).network.written
handle_transactions-built_in_example =
    handle_transactions-built_in plain platform (λ j. j) up 0 refl backwards_lem builder
      ((4 ∷ []) ∷ []) (create-some plain platform 0 refl) refl
