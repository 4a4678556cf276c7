-- ===== src/Execution.antt =====
-- execution/: values, row schemas, expression evaluation, and what a plan means as rows.
pub mod Result
pub mod Values
pub mod RowSchema
pub mod Eval
pub mod Meaning
pub mod Exact
pub mod Streams
pub mod Operators
pub mod HashJoin
pub mod Sort
pub mod Builder
pub mod HashAggregate
pub mod Sides
pub mod Nulls
