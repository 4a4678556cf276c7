-- ===== src/Physical.antt =====
-- physical/physical_plan.hpp and cost.hpp: the physical plan tree, one constructor for each `make_*`
-- and one for the three kinds of joins that `make_join` makes. A node's estimates are one record.
pub mod Formulas
pub mod Paths
pub mod Enumerator
pub mod Planner
use sql_query_optimizer.Prelude.{ℕ, String, Option, List}
use sql_query_optimizer.Ast.{Double, Expression, JoinType, OrderByItem}
use sql_query_optimizer.Plan.{AggregateExpr}

pub record Cost : Type 0 where
  pub cpu : Double
  pub io : Double
  pub memory : Double

pub record Estimates : Type 0 where
  pub estimated_cost : Cost
  pub estimated_rows : ℕ
  pub cardinality_reasoning : String
  pub cardinality_confidence : Double

pub data JoinKind : Type 0 where
  nested_loop_join hash_join index_nested_loop_join : JoinKind

pub data PhysicalPlan : Type 0 where
  seq_scan : String → Option String → List String → Estimates → PhysicalPlan
  index_scan : String → Option String → List String → String → Expression → Estimates → PhysicalPlan
  filter : Expression → PhysicalPlan → Estimates → PhysicalPlan
  join : JoinKind → JoinType → Expression → PhysicalPlan → PhysicalPlan → Estimates → PhysicalPlan
  hash_aggregate : List Expression → List AggregateExpr → PhysicalPlan → Estimates → PhysicalPlan
  project : List (Expression × Option String) → PhysicalPlan → Estimates → PhysicalPlan
  sort : List OrderByItem → PhysicalPlan → Estimates → PhysicalPlan
  limit : ℕ → PhysicalPlan → Estimates → PhysicalPlan
  -- The coordinator adds the grouping and the aggregates that the rows already went through.
  external_rows :
      String → List String → ℕ → List Expression → List AggregateExpr → Estimates → PhysicalPlan
