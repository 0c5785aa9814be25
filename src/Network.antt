-- ===== src/Network.antt =====
-- src/network: sending and receiving, one call after another (Broadcaster, Receiver) and in turns
-- (Coroutines). A message is the list of its bytes.
pub mod Broadcaster
pub mod Coroutines
pub mod Receiver
