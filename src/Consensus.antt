-- ===== src/Consensus.antt =====
-- src/consensus: the graph of vertices, the node's state, and the consensus loop.
pub mod Channel
pub mod Dag
pub mod State
pub mod Quorum
pub mod Protocol
pub mod System
