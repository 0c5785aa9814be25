-- ===== src/Model/Validator/Json.antt =====
-- The JSON of a validator written and read (model/validator.cpp, lines 62 to 90).
use dag_rider.Prelude.{
  ℕ, suc, ◌/◌, ◌^◌, ◌<◌, ◌≡◌, ◌≢◌, refl, ap, List, [], ◌∷◌, ◌++◌, some, arith, All, inl, inr,
}
use dag_rider.Model.External.{External}
use dag_rider.Model.Input.{Input, JsonLaws}
use dag_rider.Model.Numbers.{to_string}
use dag_rider.Model.Numbers.Digits.{Fits, stoi-to_string}
use dag_rider.Model.Committee.{Endpoint, Validator}
use dag_rider.Model.Validator.{
  Platform, show_endpoint, to_json, split, parts, read_endpoint, from_json,
}

module _ (ext : External) (platform : Platform) where
  open platform use {make_address, show_address}

  split-colon :
      (front back : List ℕ)
      → All (λ (c : ℕ). c ≢ b':') front
      → split ext platform (front ++ b':' ∷ back) ≡ some (front, back)
  unfolding split
  split-colon [] back h = refl
  split-colon (c ∷ front) back h = ground (arith, split-colon front back h.1)

  -- An address that is read from its own text, which has no colon, and a port of 16 bits.
  pub record IsReadable (e : Endpoint) : Type 0 where
    pub no_colon : All (λ (c : ℕ). c ≢ b':') (show_address e.address)
    pub read_back : make_address (show_address e.address) ≡ some e.address
    pub port_small : e.port < 2 ^ 16

  Fits-more : (width n : ℕ) → Fits width (n / 10) → Fits (suc width) n
  Fits-more width n h = inr h

  port-Fits : (n : ℕ) → n < 2 ^ 16 → Fits 5 n
  port-Fits n h = Fits-more 4 n (
      Fits-more 3 (n / 10)
        (Fits-more 2 (n / 10 / 10) (Fits-more 1 (n / 10 / 10 / 10) (inl (omega arith)))))

  parts-show_endpoint :
      (e : Endpoint)
      → IsReadable e
      → parts ext platform (show_endpoint ext platform e)
        ≡ (show_address e.address, to_string 5 e.port)
  unfolding parts show_endpoint
  parts-show_endpoint e ok =
      rw (split-colon (show_address e.address) (to_string 5 e.port) ok.no_colon, parts) refl

  read_endpoint-show_endpoint :
      (e : Endpoint)
      → IsReadable e
      → read_endpoint ext platform (show_endpoint ext platform e) ≡ some e
  unfolding read_endpoint
  read_endpoint-show_endpoint e ok =
      rw (parts-show_endpoint e ok, read_endpoint)
        (rw ok.read_back (
          rw (stoi-to_string 5 e.port (port-Fits e.port ok.port_small) (omega arith))
            (ap (λ (k : ℕ). some (record { address = e.address; port = k })) (omega arith))))

  module _ (input : Input ext) where
    -- A validator is read back from the JSON that it writes. Taken: what the JSON library documents, a
    -- key of 32 bytes, and three endpoints whose addresses have a text without a colon (as those of IPv6
    -- have not) that is read as the same address.
    pub from_json-to_json_validator :
        JsonLaws ext input
        → (v : Validator) → IsReadable v.address
        → IsReadable v.tx_address
        → IsReadable v.block_address
        → v.public_key < 256 ^ 32
        → from_json ext platform input (to_json ext platform v) ≡ some v
    unfolding from_json to_json
    from_json-to_json_validator laws v a t b k = rw (laws.at-of_object _ _) (
        rw (laws.get_string-of_string _) (
          rw (laws.at-of_object _ _) (
            rw (laws.get_string-of_string _) (
              rw (laws.at-of_object _ _) (
                rw (laws.get_string-of_string _) (
                  rw (read_endpoint-show_endpoint v.address a) (
                    rw (read_endpoint-show_endpoint v.tx_address t) (
                      rw (read_endpoint-show_endpoint v.block_address b) (
                        rw (laws.at-of_object _ _)
                          (rw (laws.get_hash-of_array v.public_key k) refl))))))))))
