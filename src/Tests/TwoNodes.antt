-- ===== src/Tests/TwoNodes.antt =====
-- A system of two nodes, of keys 10 and 20: the states that a run of it goes through.
use mathlib.Core.List.{foldr}
use dag_rider.Prelude.{ℕ, ◌+◌, ◌*◌, List, [], ◌∷◌, ◌++◌}
use dag_rider.Model.External.{External}
use dag_rider.Model.Block.{Block}
use dag_rider.Model.Block
use dag_rider.Model.Vertex.{Vertex}
use dag_rider.Model.Committee.{Committee}
use dag_rider.Consensus.Dag.{Round}
use dag_rider.Consensus.Protocol.{Consensus, local_consensus}
use dag_rider.Consensus.System.{Nodes, put}
use dag_rider.Tests.Samples.{reused, validator, vertex}

-- A digest that tells owners and rounds apart.
abbrev pub short : External
short = record {
  Json = ℕ;
  of_uint = λ n. n;
  of_string = λ t. 0;
  of_array = foldr (λ j h. j + h) 0;
  of_object = foldr (λ f h. f.1 + 1000 * h) 0;
  to_cbor = λ j. j ∷ [];
  blake3 = foldr (λ b h. b + h) 0;
}

abbrev pub two : Committee
two = (1, validator 10 1234) ∷ (2, validator 20 1235) ∷ []

abbrev pub key : ℕ → ℕ
key i = 10 * i

-- The vertices of the rounds, of owners 10 and 20.
abbrev pub first_1 : Vertex
first_1 = vertex 1000000010000 10 1 []

abbrev pub second_1 : Vertex
second_1 = vertex 1000000020000 20 1 []

abbrev pub first_2 : Vertex
first_2 = vertex 3417000010000 10 2 ((1000000010000, 1) ∷ (1000000020000, 1) ∷ [])

abbrev pub second_2 : Vertex
second_2 = vertex 3417000020000 20 2 ((1000000010000, 1) ∷ (1000000020000, 1) ∷ [])

abbrev pub first_3 : Vertex
first_3 = vertex 3679000010000 10 3 ((3417000010000, 2) ∷ (3417000020000, 2) ∷ [])

abbrev pub second_3 : Vertex
second_3 = vertex 3679000020000 20 3 ((3417000010000, 2) ∷ (3417000020000, 2) ∷ [])

abbrev pub first_4 : Vertex
first_4 = vertex 4881000010000 10 4 ((3679000010000, 3) ∷ (3679000020000, 3) ∷ [])

abbrev pub second_4 : Vertex
second_4 = vertex 4881000020000 20 4 ((3679000010000, 3) ∷ (3679000020000, 3) ∷ [])

abbrev pub second_5 : Vertex
second_5 = vertex 5983000020000 20 5 ((4881000010000, 4) ∷ (4881000020000, 4) ∷ [])

abbrev layer : Vertex → Vertex → Round
layer v w = (10, v) ∷ (20, w) ∷ []

-- A node after some turns: what it holds, has put out and has sent.
abbrev node_at : ℕ → ℕ → ℕ → List (ℕ × Round) → List Vertex → List Vertex → Consensus
node_at node_id round wave graph output vertices = record {
  memory = reused;
  node_id = node_id;
  committee = two;
  state = record {
    current_round = round;
    delivered_vertices = 1000000010000 ∷ 1000000020000 ∷ [];
    dag = record { graph = graph; min_quorum = 2 };
  };
  decided_wave = wave;
  blocks_to_propose = [];
  vertex_output = output;
  vertex_to_broadcast = vertices;
}

abbrev pub blocks : List Block
blocks = Block.default ∷ []

abbrev upto_1 : List (ℕ × Round)
upto_1 = (1, layer first_1 second_1) ∷ []

abbrev upto_2 : List (ℕ × Round)
upto_2 = upto_1 ++ (2, layer first_2 second_2) ∷ []

abbrev upto_3 : List (ℕ × Round)
upto_3 = upto_2 ++ (3, layer first_3 second_3) ∷ []

abbrev upto_4 : List (ℕ × Round)
upto_4 = upto_3 ++ (4, layer first_4 second_4) ∷ []

abbrev system_0 : Nodes
system_0 i = local_consensus short reused (key i) two

abbrev pub after_1 : Consensus
after_1 = node_at 10 2 0 upto_1 [] (first_2 ∷ [])

abbrev pub system_1 : Nodes
system_1 = put 1 after_1 system_0

abbrev pub after_2 : Consensus
after_2 = node_at 20 2 0 upto_1 [] (second_2 ∷ [])

abbrev pub system_2 : Nodes
system_2 = put 2 after_2 system_1

abbrev pub after_3 : Consensus
after_3 = node_at 10 3 0 upto_2 [] (first_2 ∷ first_3 ∷ [])

abbrev pub system_3 : Nodes
system_3 = put 1 after_3 system_2

abbrev pub after_4 : Consensus
after_4 = node_at 20 3 0 upto_2 [] (second_2 ∷ second_3 ∷ [])

abbrev pub system_4 : Nodes
system_4 = put 2 after_4 system_3

abbrev pub after_5 : Consensus
after_5 = node_at 10 4 0 upto_3 [] (first_2 ∷ first_3 ∷ first_4 ∷ [])

abbrev pub system_5 : Nodes
system_5 = put 1 after_5 system_4

abbrev pub after_6 : Consensus
after_6 = node_at 20 4 0 upto_3 [] (second_2 ∷ second_3 ∷ second_4 ∷ [])

abbrev pub system_6 : Nodes
system_6 = put 2 after_6 system_5

abbrev pub after_7 : Consensus
after_7 = node_at 10 4 0 upto_4 [] (first_2 ∷ first_3 ∷ first_4 ∷ [])

abbrev pub system_7 : Nodes
system_7 = put 1 after_7 system_6

abbrev pub after_8 : Consensus
after_8 =
    node_at 20 5 1 upto_4 (first_2 ∷ second_2 ∷ first_3 ∷ second_3 ∷ first_4 ∷ second_4 ∷ [])
      (second_2 ∷ second_3 ∷ second_4 ∷ second_5 ∷ [])

abbrev pub system_8 : Nodes
system_8 = put 2 after_8 system_7

abbrev pub after_9 : Consensus
after_9 =
    node_at 20 5 1 (upto_4 ++ (5, (20, second_5) ∷ []) ∷ [])
      (first_2 ∷ second_2 ∷ first_3 ∷ second_3 ∷ first_4 ∷ second_4 ∷ [])
      (second_2 ∷ second_3 ∷ second_4 ∷ second_5 ∷ [])

abbrev pub system_9 : Nodes
system_9 = put 2 after_9 system_8
