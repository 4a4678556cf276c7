-- ===== src/Plan.antt =====
-- logical/logical_plan.hpp: the logical plan tree, one constructor for each `make_*`.
pub mod Views
use sql_query_optimizer.Prelude.{ℕ, String, Option, List}
use sql_query_optimizer.Ast.{Expression, JoinType, OrderByItem}

pub record AggregateExpr : Type 0 where
  pub func : String
  pub arg : Expression
  pub alias : Option String

pub data LogicalPlan : Type 0 where
  scan : String → Option String → List String → LogicalPlan
  filter : Expression → LogicalPlan → LogicalPlan
  join : JoinType → Expression → LogicalPlan → LogicalPlan → LogicalPlan
  aggregate : List Expression → List AggregateExpr → LogicalPlan → LogicalPlan
  project : List (Expression × Option String) → LogicalPlan → LogicalPlan
  sort : List OrderByItem → LogicalPlan → LogicalPlan
  limit : ℕ → LogicalPlan → LogicalPlan
