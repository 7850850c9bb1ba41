-- ===== src/Projects.antt =====
-- The coordinator's project registry (internal/state/projects.go): what an operator wants of a
-- project on a node, generation by generation, and what the node acknowledged. A uint64 generation
-- is a number below 2 ^ 64. Records holds the messages and their validators, Methods the methods.
pub mod Records
pub mod Methods
pub mod History
pub mod Reading
pub mod Changes
pub mod Runs
