-- ===== src/Node.antt =====
-- src/node: the client that sends sample transactions, and the program of a node.
pub mod Client
pub mod Main
