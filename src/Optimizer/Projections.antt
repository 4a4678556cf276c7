-- ===== src/Optimizer/Projections.antt =====
-- logical/optimizer.cpp, rule 2: projection pushdown. The order in which `unordered_set` lists the
-- needed names is not specified; here it is that of their insertion.
pub mod Columns
use sql_query_optimizer.Prelude.{String, Option, List, [], ◌∷◌, insert_name}
use sql_query_optimizer.Ast.{Expression, OrderByItem}
use sql_query_optimizer.Plan.{
  LogicalPlan, scan, filter, join, aggregate, project, sort, limit, AggregateExpr,
}
use sql_query_optimizer.Optimizer.Expressions.{add_columns_from_expr}

-- One call of `add_columns_from_expr` for each expression of a list.
unfoldable pub add_columns_from_list : List Expression → List String → List String
unfolding add_columns_from_expr
add_columns_from_list [] out = out
add_columns_from_list (e ∷ es) out = add_columns_from_list es (add_columns_from_expr e out)

abbrev pub projected_exprs : List (Expression × Option String) → List Expression
projected_exprs [] = []
projected_exprs ((e, alias) ∷ es) = e ∷ projected_exprs es

abbrev pub aggregate_args : List AggregateExpr → List Expression
aggregate_args [] = []
aggregate_args (a ∷ aggs) = a.arg ∷ aggregate_args aggs

abbrev pub sort_keys : List OrderByItem → List Expression
sort_keys [] = []
sort_keys (item ∷ items) = item.sort_key ∷ sort_keys items

unfoldable pub columns_in_project_exprs : List (Expression × Option String) → List String
unfolding add_columns_from_list
columns_in_project_exprs es = add_columns_from_list (projected_exprs es) []

-- `new_needed.insert(needed.begin(), needed.end())`
unfoldable pub insert_names : List String → List String → List String
insert_names [] out = out
insert_names (t ∷ ts) out = insert_names ts (insert_name t out)

unfoldable pub push_projections : LogicalPlan → List String → LogicalPlan
unfolding columns_in_project_exprs insert_names
push_projections (scan table alias cols) needed = scan table alias needed
push_projections (project es i) needed =
    project es (push_projections i (insert_names needed (columns_in_project_exprs es)))
push_projections (filter p i) needed =
    filter p (push_projections i (add_columns_from_expr p needed))
push_projections (join t c l r) needed =
    join t c (push_projections l (add_columns_from_expr c needed))
      (push_projections r (add_columns_from_expr c needed))
push_projections (aggregate g a i) needed =
    aggregate g a (
      push_projections i
        (add_columns_from_list (aggregate_args a) (add_columns_from_list g needed)))
push_projections (sort o i) needed =
    sort o (push_projections i (add_columns_from_list (sort_keys o) needed))
push_projections (limit n i) needed = limit n (push_projections i needed)
