-- ===== src/Tests/Samples.antt =====
-- A committee of four, its genesis vertices, and three more rounds.
use dag_rider.Prelude.{ℕ, ◌+◌, ◌*◌, List, [], ◌∷◌, ◌++◌, All, arith}
use mathlib.Core.List.{foldr, flatten, map}
use dag_rider.Model.External.{External}
use dag_rider.Model.Block.{Block}
use dag_rider.Model.Block
use dag_rider.Model.Vertex.{Vertex}
use dag_rider.Model.Committee.{Committee, Validator, Endpoint}
use dag_rider.Consensus.Dag.{Dag, insert_vertex}
use dag_rider.Consensus.Dag
use dag_rider.Consensus.Dag.Turns.{IsLayered}
use dag_rider.Consensus.Dag.Insertion.{
  IsWellFormed, insert_vertex-IsWellFormed, create-IsWellFormed,
}
use dag_rider.Consensus.Protocol.{Consensus, Memory}

-- Texts are lists of numbers here, and the digest adds them up.
abbrev pub plain : External
plain = record {
  Json = List ℕ;
  of_uint = λ n. n ∷ [];
  of_string = λ t. t;
  of_array = λ js. flatten js;
  of_object = λ fields. flatten (map (λ f. f.1) fields);
  to_cbor = λ j. j;
  blake3 = foldr (λ b h. 3 * h + b) 1;
}

-- A vertex is allocated where the one before it was freed.
abbrev pub reused : Memory
reused round v w = w

abbrev endpoint : ℕ → Endpoint
endpoint port = record { address = 0; port = port }

abbrev pub validator : ℕ → ℕ → Validator
validator key port = record {
  address = endpoint port;
  tx_address = endpoint (port + 10);
  block_address = endpoint (port + 20);
  public_key = key;
}

abbrev pub four : Committee
four =
    (3, validator 30 1236)
    ∷ (1, validator 10 1234)
    ∷ (4, validator 40 1237)
    ∷ (2, validator 20 1235)
    ∷ []

abbrev pub vertex : ℕ → ℕ → ℕ → List (ℕ × ℕ) → Vertex
vertex hash owner round parents = record {
  hash = hash;
  owner = owner;
  block = Block.default;
  parents = parents;
  round = round;
}

abbrev pub genesis : List Vertex
genesis = vertex 11 10 1 [] ∷ vertex 12 20 1 [] ∷ vertex 13 30 1 [] ∷ vertex 14 40 1 [] ∷ []

abbrev pub all_of : ℕ → List (ℕ × ℕ)
all_of r = (10 * r + 1, r) ∷ (10 * r + 2, r) ∷ (10 * r + 3, r) ∷ []

-- The vertices of three owners, each with three strong parents.
abbrev pub layer : ℕ → List Vertex
layer r =
    vertex (10 * (r + 1) + 1) 10 (r + 1) (all_of r)
    ∷ vertex (10 * (r + 1) + 2) 20 (r + 1) (all_of r)
    ∷ vertex (10 * (r + 1) + 3) 30 (r + 1) (all_of r)
    ∷ []

unfoldable pub grow : Dag → List Vertex → Dag
grow dag [] = dag
grow dag (v ∷ vs) = grow (insert_vertex dag v) vs

pub grow-IsWellFormed :
    (dag : Dag) (vs : List Vertex)
    → IsWellFormed dag
    → All IsLayered vs
    → IsWellFormed (grow dag vs)
unfolding grow
grow-IsWellFormed dag [] w h = w
grow-IsWellFormed dag (v ∷ vs) w h =
    grow-IsWellFormed (insert_vertex dag v) vs (insert_vertex-IsWellFormed dag v w h.0) h.1

abbrev pub one_round : Dag
one_round = Dag.create genesis 3

abbrev pub one_wave : Dag
one_wave = grow one_round (layer 1 ++ (layer 2 ++ layer 3))

pub one_round-IsWellFormed : IsWellFormed one_round
one_round-IsWellFormed = create-IsWellFormed genesis 3 (omega arith)

pub one_wave-IsWellFormed : IsWellFormed one_wave
one_wave-IsWellFormed =
    grow-IsWellFormed one_round (layer 1 ++ (layer 2 ++ layer 3)) one_round-IsWellFormed
      (omega arith)

-- A node at the last round of wave 1, with a block to propose.
abbrev pub node : Consensus
node = record {
  memory = reused;
  node_id = 10;
  committee = four;
  state = record { current_round = 4; delivered_vertices = []; dag = one_wave };
  decided_wave = 0;
  blocks_to_propose = Block.default ∷ [];
  vertex_output = [];
  vertex_to_broadcast = [];
}
