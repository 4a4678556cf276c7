-- ===== src/Examples.antt =====
-- Concrete tables, queries and plans, and what the code does on them.
pub mod Data
pub mod Plans
pub mod Runs
pub mod Hashing
pub mod Files
pub mod Queries
pub mod Parsing
pub mod Built
pub mod Planned
