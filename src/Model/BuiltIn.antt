-- ===== src/Model/BuiltIn.antt =====
-- The committee that the constructor of model/committee.cpp makes (lines 6 to 28).
pub mod Members
use Prim.Native.Char.{code}
use Prim.Native.String.{String, [] as empty, ◌∷◌ as cons}
use dag_rider.Prelude.{ℕ, List, [], ◌∷◌, Option, none, some, ◌>>=◌}
use dag_rider.Model.External.{External}
use dag_rider.Model.Committee.{Committee}
use dag_rider.Model.Validator.{Platform}
use dag_rider.Model.Validator

-- The key pairs, in hexadecimal.
abbrev pub keypair_1 : String
keypair_1 =
    "ad7f2ee3958a7f3fa2c84931770f5773ef7694fdd0bb217d90f29a94199c9d7307ca3851515c89344639fe6a4077923068d1d7fc6106701213c61d34ef8e9416"

abbrev pub keypair_2 : String
keypair_2 =
    "5a353c630d3faf8e2d333a0983c1c71d5e9b6aed8f4959578fbeb3d3f3172886393b576de0ac1fe86a4dd416cf032543ac1bd066eb82585f779f6ce21237c0cd"

abbrev pub keypair_3 : String
keypair_3 =
    "6f4b736b9a6894858a81696d9c96cbdacf3d49099d212213f5abce33da18716f067f8a2b9aeb602cd4163291ebbf39e0e024634f3be19bde4c490465d9095a6b"

abbrev pub keypair_4 : String
keypair_4 =
    "3ae38eec96146c241f6cadf01995af14f027b23b8fecbc77dbc2e3ed5fec6fc3fb4fe5534f7affc9a8f1d99e290fdb91cc26777edd6fae480cad9f735d1b3680"

unfoldable pub codes : String → List ℕ
codes empty = []
codes (cons c s) = code c ∷ codes s

-- The map that is filled has its entries in an order of its own. `none`: the constructor of a validator throws.
unfoldable pub create : External → Platform → Option Committee
unfolding codes Validator.create
create ext platform = do
  v1 ← Validator.create ext platform (codes keypair_1) 1234 1244 1254
  v2 ← Validator.create ext platform (codes keypair_2) 1235 1245 1255
  v3 ← Validator.create ext platform (codes keypair_3) 1236 1246 1256
  v4 ← Validator.create ext platform (codes keypair_4) 1237 1247 1257
  some (platform.iterate ((1, v1) ∷ (2, v2) ∷ (3, v3) ∷ (4, v4) ∷ []))
