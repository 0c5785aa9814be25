-- ===== src/Tests/Trees.antt =====
-- JSON as trees, with what they are read with.
use Prim.Native.String.{String}
use text.Mathlib.Text.{◌==◌ as is_text}
use mathlib.Core.List.{foldr}
use dag_rider.Prelude.{ℕ, ◌≡◌, refl, ap, ◌∙◌, List, [], ◌∷◌, map, Option, none, some, if◌then◌else◌}
use dag_rider.Model.External.{External, to_bytes}
use dag_rider.Model.Input.{Input, JsonLaws, lookup_field}
use dag_rider.Model.Reading.{from_bytes}
use dag_rider.Model.Reading.Bytes.{from_bytes-to_bytes}

-- JSON: `item` and `end` make arrays, `field` and `end` make objects.
pub data Tree : Type 0 where
  number : ℕ → Tree
  chars : List ℕ → Tree
  array : Tree → Tree
  object : Tree → Tree
  end : Tree
  item : Tree → Tree → Tree
  field : String → Tree → Tree → Tree

unfoldable pub lookup : String → Tree → Option Tree
lookup k (field j x rest) = let others = lookup k rest in if is_text j k then some x else others
lookup k (object fields) = lookup k fields
lookup k _ = none

abbrev pub string_of : Tree → Option (List ℕ)
string_of (chars t) = some t
string_of _ = none

abbrev pub number_of : Tree → Option ℕ
number_of (number n) = some n
number_of _ = none

abbrev pub trees : External
trees = record {
  Json = Tree;
  of_uint = number;
  of_string = chars;
  of_array = λ js. array (foldr item end js);
  of_object = λ fields. object (foldr (λ (k, x) rest. field k x rest) end fields);
  to_cbor = λ j. [];
  blake3 = λ bytes. 0;
}

abbrev pub numbers : Tree → List ℕ
numbers (item (number n) rest) = n ∷ numbers rest
numbers _ = []

unfoldable pub hash_of : Tree → Option ℕ
unfolding from_bytes
hash_of (array items) = some (from_bytes 0 (numbers items))
hash_of _ = none

abbrev pub pairs : Tree → List (Tree × Tree)
pairs (item (array (item x (item y end))) rest) = (x, y) ∷ pairs rest
pairs _ = []

abbrev pub pairs_of : Tree → Option (List (Tree × Tree))
pairs_of (array items) = some (pairs items)
pairs_of _ = none

abbrev pub tree_reader : Input trees
tree_reader = record {
  dump = λ j. 123 ∷ 125 ∷ [];
  parse = λ text. none;
  at = lookup;
  items = λ j. [];
  get_string = string_of;
  get_hash = hash_of;
  get_transaction = λ j. none;
  get_transactions = λ j. none;
  get_round = number_of;
  get_pairs = pairs_of;
  get_id = number_of;
}

lookup-fields :
    (k : String) (fields : List (String × Tree))
    → lookup k (foldr (λ ((j, x) : String × Tree) rest. field j x rest) end fields)
      ≡ lookup_field k fields
unfolding lookup
lookup-fields k [] = refl
lookup-fields k ((j, x) ∷ fields) = rw (lookup-fields k fields) refl

numbers-items : (ns : List ℕ) → numbers (foldr item end (map number ns)) ≡ ns
numbers-items [] = refl
numbers-items (n ∷ ns) = ap (λ k. n ∷ k) (numbers-items ns)

pairs-items :
    (ps : List (Tree × Tree))
    → pairs (foldr item end (map (λ (p : Tree × Tree). array (item p.0 (item p.1 end))) ps)) ≡ ps
pairs-items [] = refl
pairs-items (p ∷ ps) = ap (λ k. p ∷ k) (pairs-items ps)

pub tree_laws : JsonLaws trees tree_reader
unfolding lookup hash_of
tree_laws = record {
  at-of_object = lookup-fields;
  get_string-of_string = λ text. refl;
  get_hash-of_array = λ hash small.
      ap some
        (ap (from_bytes 0) (numbers-items (to_bytes 32 hash)) ∙ from_bytes-to_bytes 32 hash small);
  get_pairs-of_array = λ ps. ap some (pairs-items ps);
  get_id-of_uint = λ id small. refl;
}
