-- ===== src/Tests.antt =====
-- Runs of the definitions on small inputs, and each theorem at an input that meets its conditions.
mod Samples
mod Graphs
mod Nodes
mod Messages
mod Runs
mod Trees
mod Validators
mod Coroutines
mod Clients
mod Mains
mod Systems
mod TwoNodes
mod TwoRuns
mod Commits
mod Calls
