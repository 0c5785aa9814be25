-- ===== src/Model.antt =====
-- src/model: blocks, vertices and the committee, over the libraries that hash and serialise them.
pub mod External
pub mod Block
pub mod Vertex
pub mod Committee
pub mod Input
pub mod Reading
pub mod Numbers
pub mod Validator
pub mod BuiltIn
pub mod CommitteeJson
