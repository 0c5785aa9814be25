-- ===== src/Model/BuiltIn/Members.antt =====
-- The committee of model/committee.cpp, lines 6 to 28: its keys, its endpoints and its leader.
use mathlib.Core.List.{Permᴰ}
use dag_rider.Prelude.{ℕ, ◌≡◌, refl, List, [], ◌∷◌, some}
use dag_rider.Model.External.{External}
use dag_rider.Model.Committee.{Committee, Validator}
use dag_rider.Model.Validator.{Platform, any_address, create_keypair, create_public_key_from}
use dag_rider.Model.Validator
use dag_rider.Model.BuiltIn.{keypair_1, keypair_2, keypair_3, keypair_4, codes, create}
use dag_rider.Model.Numbers.{stoi}

abbrev pub secret_1 : List ℕ
secret_1 =
    173 ∷ 127 ∷ 46 ∷ 227 ∷ 149 ∷ 138 ∷ 127 ∷ 63 ∷ 162 ∷ 200 ∷ 73 ∷ 49 ∷ 119 ∷ 15 ∷ 87 ∷ 115 ∷ 239
    ∷ 118 ∷ 148 ∷ 253 ∷ 208 ∷ 187 ∷ 33 ∷ 125 ∷ 144 ∷ 242 ∷ 154 ∷ 148 ∷ 25 ∷ 156 ∷ 157 ∷ 115 ∷ []

keypair_1-secret : create_keypair (codes keypair_1) ≡ some secret_1
unfolding create_keypair codes stoi
keypair_1-secret = refl

abbrev pub secret_2 : List ℕ
secret_2 =
    90 ∷ 53 ∷ 60 ∷ 99 ∷ 13 ∷ 63 ∷ 175 ∷ 142 ∷ 45 ∷ 51 ∷ 58 ∷ 9 ∷ 131 ∷ 193 ∷ 199 ∷ 29 ∷ 94 ∷ 155
    ∷ 106 ∷ 237 ∷ 143 ∷ 73 ∷ 89 ∷ 87 ∷ 143 ∷ 190 ∷ 179 ∷ 211 ∷ 243 ∷ 23 ∷ 40 ∷ 134 ∷ []

keypair_2-secret : create_keypair (codes keypair_2) ≡ some secret_2
unfolding create_keypair codes stoi
keypair_2-secret = refl

abbrev pub secret_3 : List ℕ
secret_3 =
    111 ∷ 75 ∷ 115 ∷ 107 ∷ 154 ∷ 104 ∷ 148 ∷ 133 ∷ 138 ∷ 129 ∷ 105 ∷ 109 ∷ 156 ∷ 150 ∷ 203 ∷ 218
    ∷ 207 ∷ 61 ∷ 73 ∷ 9 ∷ 157 ∷ 33 ∷ 34 ∷ 19 ∷ 245 ∷ 171 ∷ 206 ∷ 51 ∷ 218 ∷ 24 ∷ 113 ∷ 111 ∷ []

keypair_3-secret : create_keypair (codes keypair_3) ≡ some secret_3
unfolding create_keypair codes stoi
keypair_3-secret = refl

abbrev pub secret_4 : List ℕ
secret_4 =
    58 ∷ 227 ∷ 142 ∷ 236 ∷ 150 ∷ 20 ∷ 108 ∷ 36 ∷ 31 ∷ 108 ∷ 173 ∷ 240 ∷ 25 ∷ 149 ∷ 175 ∷ 20 ∷ 240
    ∷ 39 ∷ 178 ∷ 59 ∷ 143 ∷ 236 ∷ 188 ∷ 119 ∷ 219 ∷ 194 ∷ 227 ∷ 237 ∷ 95 ∷ 236 ∷ 111 ∷ 195 ∷ []

keypair_4-secret : create_keypair (codes keypair_4) ≡ some secret_4
unfolding create_keypair codes stoi
keypair_4-secret = refl

-- A validator of this key and these ports, at the address `a`.
abbrev pub member : ℕ → ℕ → ℕ → ℕ → ℕ → Validator
member a key port tx_port block_port = record {
  address = record { address = a; port = port };
  tx_address = record { address = a; port = tx_port };
  block_address = record { address = a; port = block_port };
  public_key = key;
}

-- A map iterates over each of its entries once.
abbrev pub IteratesOnce : Platform → Type 0
IteratesOnce platform = (m : Committee) → Permᴰ (platform.iterate m) m

module _ (ext : External) (platform : Platform) where
  open platform use {make_address}

  abbrev pub key_of : List ℕ → ℕ
  key_of = create_public_key_from ext platform

  create-validator :
      (keypair secret : List ℕ) (a port tx_port block_port : ℕ)
      → make_address any_address ≡ some a
      → create_keypair keypair ≡ some secret
      → Validator.create ext platform keypair port tx_port block_port
        ≡ some (member a (key_of secret) port tx_port block_port)
  unfolding Validator.create
  create-validator keypair secret a port tx_port block_port at_a read = rw read (rw at_a refl)

  abbrev pub entries : ℕ → Committee
  entries a =
      (1, member a (key_of secret_1) 1234 1244 1254)
      ∷ (2, member a (key_of secret_2) 1235 1245 1255)
      ∷ (3, member a (key_of secret_3) 1236 1246 1256)
      ∷ (4, member a (key_of secret_4) 1237 1247 1257)
      ∷ []

  abbrev pub members : ℕ → Committee
  members a = platform.iterate (entries a)

  pub create-some :
      (a : ℕ) → make_address any_address ≡ some a → create ext platform ≡ some (members a)
  unfolding create
  create-some a at_a = rw (create-validator _ secret_1 a 1234 1244 1254 at_a keypair_1-secret) (
      rw (create-validator _ secret_2 a 1235 1245 1255 at_a keypair_2-secret) (
        rw (create-validator _ secret_3 a 1236 1246 1256 at_a keypair_3-secret)
          (rw (create-validator _ secret_4 a 1237 1247 1257 at_a keypair_4-secret) refl)))
