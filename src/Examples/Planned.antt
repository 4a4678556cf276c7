-- ===== src/Examples/Planned.antt =====
-- Join searches and physical plans.
use sql_query_optimizer.Prelude.{
  ℕ, ◌+◌, ◌*◌, ◌-◌, ◌≡◌, ◌↔◌, arith, refl, String, ltb, leb, none, some, ◌⊎◌, inl, inr, [], ◌∷◌,
  length, All,
}
use sql_query_optimizer.Prelude.Totals.{SameItems}
use sql_query_optimizer.Ast.{str, Expression, literal, JoinType}
use sql_query_optimizer.Plan.{LogicalPlan, scan, filter, join, limit}
use sql_query_optimizer.Schema.{with_test_tables}
use sql_query_optimizer.JoinGraph.{JoinGraph, Relation}
use sql_query_optimizer.Physical.{PhysicalPlan, seq_scan}
use sql_query_optimizer.Physical.Formulas.{CostMath}
use sql_query_optimizer.Physical.Paths.{Estimate, Estimator}
use sql_query_optimizer.Physical.Enumerator.{PlanError, find_best_plan}
use sql_query_optimizer.Physical.Enumerator.Scans.{
  plan_scans, join_conditions, IsEdgeCondition, find_best_plan-conditions,
}
use sql_query_optimizer.Physical.Enumerator.Connected.{IsConnected}
use sql_query_optimizer.Physical.Enumerator.Found.{find_best_plan-IsConnected}
use sql_query_optimizer.Physical.Planner.{generate_physical_plan}
use sql_query_optimizer.Physical.Planner.Scans.{table_names, generate_physical_plan-scans}
use sql_query_optimizer.Examples.Data.{of_table, equals_expr}
use sql_query_optimizer.Examples.Built.{no_estimates}

-- Whole numbers in the place of doubles.
abbrev whole : CostMath
whole = record {
  add = λ a b. a + b;
  sub = λ a b. a - b;
  mul = λ a b. a * b;
  div = λ a b. a;
  less = ltb;
  less_equal = leb;
  of_size = λ n. n;
  to_size = λ d. d;
  ceil = λ d. d;
  round = λ d. d;
  log2 = λ d. d;
}

abbrev ten_rows : Estimate
ten_rows = record { rows = 10; confidence = 0; reasoning = "" }

abbrev always_ten : Estimator
always_ten = record {
  estimate_scan = λ t. ten_rows;
  estimate_filter = λ r e s. ten_rows;
  estimate_join = λ l r e s s'. ten_rows;
  estimate_aggregate = λ r g s. ten_rows;
  page_count = λ t. none;
}

abbrev relation : ℕ → String → String → Relation
relation n table alias = record {
  id = n;
  table_name = table;
  alias = some alias;
  local_filters = [];
}

abbrev customer_of_order : Expression
customer_of_order = equals_expr (of_table "c" "id") (of_table "o" "customer_id")

abbrev product_of_order : Expression
product_of_order = equals_expr (of_table "o" "product_id") (of_table "p" "id")

-- FROM customers c, orders o, products p WHERE c.id = o.customer_id AND o.product_id = p.id
abbrev chain : JoinGraph
chain = record {
  relations = relation 0 "customers" "c" ∷ relation 1 "orders" "o" ∷ relation 2 "products" "p" ∷ [];
  edges =
      record { left = 0; right = 1; predicate = customer_of_order }
      ∷ record { left = 1; right = 2; predicate = product_of_order }
      ∷ [];
}

-- The plan of a search, or else one scan.
abbrev plan_in : PlanError ⊎ PhysicalPlan → PhysicalPlan
plan_in (inl e) = seq_scan "none" none [] no_estimates
plan_in (inr p) = p

abbrev chain_plan : PhysicalPlan
unfolding find_best_plan with_test_tables
chain_plan = plan_in (find_best_plan whole always_ten with_test_tables chain)

find_best_plan-conditions_example :
    All (IsEdgeCondition whole always_ten with_test_tables chain) (join_conditions chain_plan)
    × (length (join_conditions chain_plan) + 1 ≡ 3)
unfolding find_best_plan with_test_tables
find_best_plan-conditions_example =
    find_best_plan-conditions whole always_ten with_test_tables chain chain_plan refl

find_best_plan-IsConnected_example :
    ((p : PhysicalPlan) × (find_best_plan whole always_ten with_test_tables chain ≡ inr p))
    ↔ IsConnected chain 7
find_best_plan-IsConnected_example =
    find_best_plan-IsConnected whole always_ten with_test_tables chain (omega arith)

-- SELECT * FROM customers c JOIN orders o ON c.id = o.customer_id WHERE c.name = 'ann' LIMIT 5
abbrev first_orders : LogicalPlan
first_orders = limit 5 (
    filter (equals_expr (of_table "c" "name") (literal (str "ann"))) (
      join JoinType.inner customer_of_order (scan "customers" (some "c") [])
        (scan "orders" (some "o") [])))

abbrev first_orders_plan : PhysicalPlan
unfolding generate_physical_plan with_test_tables
first_orders_plan = plan_in (generate_physical_plan whole always_ten with_test_tables first_orders)

generate_physical_plan-scans_example :
    SameItems (plan_scans first_orders_plan) (table_names first_orders)
unfolding generate_physical_plan with_test_tables
generate_physical_plan-scans_example =
    generate_physical_plan-scans whole always_ten with_test_tables first_orders first_orders_plan
      refl
