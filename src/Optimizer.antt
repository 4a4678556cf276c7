-- ===== src/Optimizer.antt =====
-- logical/optimizer.cpp: the logical rewrite rules, one child module for each, and `optimize`.
pub mod Expressions
pub mod Predicates
pub mod Projections
pub mod Reorder
pub mod Pipeline
use sql_query_optimizer.Prelude.{Option, []}
use sql_query_optimizer.Plan.{LogicalPlan}
use sql_query_optimizer.Schema.{Catalog}
use Predicates.{push_predicates}
use Projections.{push_projections}
use Reorder.{reorder_joins}

unfoldable pub optimize : LogicalPlan → Catalog → Option LogicalPlan
unfolding push_predicates push_projections reorder_joins
optimize p cat = reorder_joins (push_projections (push_predicates p) []) cat
