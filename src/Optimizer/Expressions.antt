-- ===== src/Optimizer/Expressions.antt =====
-- logical/optimizer.cpp, "Shared expression helpers": conjuncts, referenced tables and columns, and
-- the aliases of a plan. An `unordered_set` filled through an out parameter is passed and returned.
pub mod Names
use sql_query_optimizer.Prelude.{String, none, some, List, [], ◌∷◌, ◌++◌, value_or, insert_name}
use sql_query_optimizer.Ast.{
  BinaryOperator, Expression, Expressions, column, literal, binary_op, unary_op, function, wildcard,
  nil, cons,
}
use sql_query_optimizer.Plan.{LogicalPlan, scan, filter, join, aggregate, project, sort, limit}

unfoldable pub split_and : Expression → List Expression
split_and (binary_op l BinaryOperator.and r) = split_and l ++ split_and r
split_and e = e ∷ []

unfoldable mutual
  pub visit_tables : Expression → List String → List String
  visit_tables (column none c) out = out
  visit_tables (column (some t) c) out = insert_name t out
  visit_tables (binary_op l op r) out = visit_tables r (visit_tables l out)
  visit_tables (unary_op op e) out = visit_tables e out
  visit_tables (function f args) out = visit_args args out
  visit_tables (literal v) out = out
  visit_tables wildcard out = out

  pub visit_args : Expressions → List String → List String
  visit_args nil out = out
  visit_args (cons e es) out = visit_args es (visit_tables e out)

unfoldable pub referenced_tables : Expression → List String
unfolding visit_tables
referenced_tables e = visit_tables e []

unfoldable mutual
  pub add_columns_from_expr : Expression → List String → List String
  add_columns_from_expr (column t c) out = insert_name c out
  add_columns_from_expr (binary_op l op r) out =
      add_columns_from_expr r (add_columns_from_expr l out)
  add_columns_from_expr (unary_op op e) out = add_columns_from_expr e out
  add_columns_from_expr (function f args) out = add_columns_from_args args out
  add_columns_from_expr (literal v) out = out
  add_columns_from_expr wildcard out = out

  pub add_columns_from_args : Expressions → List String → List String
  add_columns_from_args nil out = out
  add_columns_from_args (cons e es) out = add_columns_from_args es (add_columns_from_expr e out)

unfoldable pub collect_aliases : LogicalPlan → List String → List String
collect_aliases (scan table alias cols) out = insert_name (value_or alias table) out
collect_aliases (join t c l r) out = collect_aliases r (collect_aliases l out)
collect_aliases (filter p i) out = collect_aliases i out
collect_aliases (aggregate g a i) out = collect_aliases i out
collect_aliases (project es i) out = collect_aliases i out
collect_aliases (sort o i) out = collect_aliases i out
collect_aliases (limit n i) out = collect_aliases i out

unfoldable pub scan_aliases : LogicalPlan → List String
unfolding collect_aliases
scan_aliases p = collect_aliases p []
