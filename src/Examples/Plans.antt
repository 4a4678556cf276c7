-- ===== src/Examples/Plans.antt =====
-- Plans and rewrites of the example queries.
use sql_query_optimizer.Prelude.{ℕ, ◌≡◌, refl, none, some, List, [], ◌∷◌, arith}
use sql_query_optimizer.Prelude.Totals.{total}
use sql_query_optimizer.Ast.{str, Expression, literal, JoinType, SelectItem, SelectStatement}
use sql_query_optimizer.Plan.{LogicalPlan, scan, filter, join, project}
use sql_query_optimizer.Plan.Views.{scans, join_conditions}
use sql_query_optimizer.Planner.{plan}
use sql_query_optimizer.Planner.Shape.{scans-plan}
use sql_query_optimizer.Optimizer.Expressions.{split_and, referenced_tables, scan_aliases}
use sql_query_optimizer.Optimizer.Predicates.{push_predicates, refers_to}
use sql_query_optimizer.Optimizer.Projections.{push_projections}
use sql_query_optimizer.Optimizer.Projections.Columns.{IsSupplied, push_projections-IsSupplied}
use sql_query_optimizer.Optimizer.Reorder.{
  Node, all_inner, extract_join_tree, true_literal, best_pair, reorder_join, reorder_joins,
}
use sql_query_optimizer.Optimizer.Reorder.Balance.{cond_weight}
use sql_query_optimizer.Optimizer.Reorder.Bounds.{InRange, best_pair-InRange}
use sql_query_optimizer.Optimizer.Reorder.Sources.{Reordered, reorder_joins-Reordered}
use sql_query_optimizer.Optimizer.Reorder.Unlinked.{flattened, reorder_join-unlinked}
use sql_query_optimizer.Optimizer.{optimize}
use sql_query_optimizer.Optimizer.Pipeline.{PlanFor, optimize-PlanFor}
use sql_query_optimizer.JoinGraph.{build_join_graph}
use sql_query_optimizer.JoinGraph.Placed.{Extracted, build_join_graph-Extracted}
use sql_query_optimizer.Examples.Data.{
  number, of_table, equals_expr, where_both, filtered_join, three_tables,
}

pushed_down :
    push_predicates filtered_join
    ≡ join JoinType.inner
        (equals_expr (of_table "u" "id") (of_table "o" "user_id"))
        (filter
          (equals_expr (of_table "u" "name") (literal (str "ann")))
          (scan "users" (some "u") []))
        (filter
          (equals_expr (of_table "o" "oid") (literal (number 7)))
          (scan "orders" (some "o") []))
unfolding push_predicates split_and refers_to scan_aliases
pushed_down = refl

reorder_joins-Reordered_example :
    Reordered
      (three_tables (some "users") (some "items"))
      (reorder_joins (three_tables (some "users") (some "items")) [])
reorder_joins-Reordered_example =
    reorder_joins-Reordered (three_tables (some "users") (some "items")) []

reorder_join-unlinked_example :
    (q : LogicalPlan) × (reorder_join (three_tables none none) [] ≡ some q)
    × ((v : Expression → ℕ)
        → v true_literal ≡ 0
        → total v (join_conditions q)
          ≡ total (cond_weight v) (flattened (three_tables none none)).leaves)
unfolding referenced_tables all_inner extract_join_tree
reorder_join-unlinked_example =
    reorder_join-unlinked (three_tables none none) [] refl (omega arith) (refl, (refl, tt))

build_join_graph-Extracted_example : Extracted filtered_join (build_join_graph filtered_join)
build_join_graph-Extracted_example = build_join_graph-Extracted filtered_join (tt, tt)

abbrev named_users : LogicalPlan
named_users = project ((of_table "u" "name", none) ∷ []) filtered_join

listed_columns :
    scans (push_projections named_users [])
    ≡ ("users", some "u", "name" ∷ "oid" ∷ "id" ∷ "user_id" ∷ [])
      ∷ ("orders", some "o", "name" ∷ "oid" ∷ "id" ∷ "user_id" ∷ [])
      ∷ []
unfolding scans push_projections
listed_columns = refl

push_projections-IsSupplied_example : IsSupplied (push_projections named_users [])
push_projections-IsSupplied_example = push_projections-IsSupplied named_users []

abbrev three_nodes : List Node
three_nodes =
    (scan "users" none [], 3) ∷ (scan "orders" none [], 2) ∷ (scan "items" none [], 9) ∷ []

best_pair-InRange_example :
    InRange 3 1
      (best_pair three_nodes (equals_expr (of_table "users" "id") (of_table "items" "x") ∷ []))
best_pair-InRange_example =
    best_pair-InRange three_nodes (equals_expr (of_table "users" "id") (of_table "items" "x") ∷ [])
      (omega arith)

-- SELECT u.name FROM users u JOIN orders o ON u.id = o.user_id WHERE ...
abbrev query : SelectStatement
query = record {
  columns = SelectItem.expression (of_table "u" "name") none ∷ [];
  from = record { table_name = "users"; alias = some "u" };
  joins =
      record {
        join_type = JoinType.inner;
        table = record { table_name = "orders"; alias = some "o" };
        condition = equals_expr (of_table "u" "id") (of_table "o" "user_id");
      }
      ∷ [];
  where_clause = some where_both;
  group_by = [];
  having = none;
  order_by = [];
  limit = none;
}

planned : plan query ≡ named_users
unfolding plan
planned = refl

scans-plan_example : scans (plan query) ≡ ("users", some "u", []) ∷ ("orders", some "o", []) ∷ []
scans-plan_example = scans-plan query

optimize-PlanFor_example : PlanFor query (optimize (plan query) [])
optimize-PlanFor_example = optimize-PlanFor query []
