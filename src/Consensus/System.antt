-- ===== src/Consensus/System.antt =====
-- Nodes that run consensus/consensus.cpp, each a `Consensus` that `spawn` has made, while they live, over a
-- network that delivers what was broadcast: in any order, late, more than once or never.
pub mod Steady
pub mod Consistent
pub mod Votes
pub mod World
pub mod Committed
pub mod Backed
pub mod Safety
use dag_rider.Prelude.{ℕ, zero, suc, ◌≡◌, List, Memᴰ, some, All, ◌==◌, if◌then◌else◌}
use dag_rider.Model.External.{External}
use dag_rider.Model.Block.{Block}
use dag_rider.Model.Vertex.{Vertex}
use dag_rider.Model.Vertex
use dag_rider.Model.Committee.{Committee, get_nodes_keys}
use dag_rider.Consensus.Protocol.{Consensus, Memory, local_consensus}
use dag_rider.Consensus.Protocol.Loop.{turn}

-- The nodes, by their numbers.
abbrev pub Nodes : Type 0
Nodes = ℕ → Consensus

abbrev pub put : ℕ → Consensus → Nodes → Nodes
put i d nodes j = if i == j then d else nodes j

module _ (ext : External) (committee : Committee) where
  -- A genesis vertex, or one that a node has broadcast.
  pub data IsSent (nodes : Nodes) (v : Vertex) : Type 0 where
    given : Memᴰ v (Vertex.genesis ext (get_nodes_keys committee)) → IsSent nodes v
    sent : (i : ℕ) → Memᴰ v (nodes i).vertex_to_broadcast → IsSent nodes v

  -- What the nodes come to in a number of turns, each of one node on vertices that were sent. A turn is
  -- given what the first two loops of `run` took, though those loops do not end.
  pub data Reaches (memory : ℕ → Memory) (key : ℕ → ℕ) : Nodes → ℕ → Type 0 where
    start : Reaches memory key (λ i. local_consensus ext (memory i) (key i) committee) zero
    go :
        {nodes : Nodes} {n : ℕ} (i fuel : ℕ) (buffer : List Vertex) (blocks : List Block)
        (d : Consensus)
        → Reaches memory key nodes n
        → All (IsSent nodes) buffer
        → turn ext fuel (nodes i) buffer blocks ≡ some d
        → Reaches memory key (put i d nodes) (suc n)
