-- ===== src/Examples/Built.antt =====
-- Physical plans, built and run.
use sql_query_optimizer.Prelude.{◌≡◌, ◌≢◌, ◌↔◌, inl, refl, true, false, none, some, [], ◌∷◌, arith}
use sql_query_optimizer.Ast.{
  str, Literal, Expression, BinaryOperator, binary_op, literal, JoinType, column, wildcard,
}
use sql_query_optimizer.Plan.{LogicalPlan, scan}
use sql_query_optimizer.Physical.{
  Estimates, PhysicalPlan, seq_scan, filter, join, hash_aggregate, project, sort, external_rows,
  nested_loop_join, hash_join,
}
use sql_query_optimizer.Execution.Result.{ok, err, ◌>>=◌, map_ok, no_table, not_comparable}
use sql_query_optimizer.Execution.Exact.{exact}
use sql_query_optimizer.Optimizer.Expressions.{split_and, scan_aliases}
use sql_query_optimizer.Optimizer.Predicates.{push_predicates, refers_to}
use sql_query_optimizer.Optimizer.Predicates.Runs.{push_predicates-runs}
use sql_query_optimizer.Optimizer.Predicates.Mixed.{
  mixed_query, pushed_query, mixed_conjunct-throws,
}
use sql_query_optimizer.Storage.{Database, get_table}
use sql_query_optimizer.Execution.Operators.{project_row, test}
use sql_query_optimizer.Execution.Streams.{finished}
use sql_query_optimizer.Execution.Builder.{build_executor, run_to_completion}
use sql_query_optimizer.Execution.Builder.Answers.{answer, total_rows}
use sql_query_optimizer.Execution.Builder.Whole.{run_to_completion-answer}
use sql_query_optimizer.Execution.Builder.Logical.{
  CarriesOut, scans, filters, joins, run_to_completion-exact,
}
use sql_query_optimizer.Examples.Data.{
  doubles, users, orders, number, user_rows, shop, of_table, equals_expr,
}

abbrev pub no_estimates : Estimates
no_estimates = record {
  estimated_cost = record { cpu = 0; io = 0; memory = 0 };
  estimated_rows = 0;
  cardinality_reasoning = "";
  cardinality_confidence = 0;
}

abbrev scan_of_users : PhysicalPlan
scan_of_users = seq_scan "users" (some "u") [] no_estimates

abbrev scan_of_orders : PhysicalPlan
scan_of_orders = seq_scan "orders" (some "o") [] no_estimates

-- SELECT u.name FROM users u JOIN orders o ON u.id = o.user_id, by a hash join, sorted.
abbrev hashed_names : PhysicalPlan
hashed_names =
    sort (record { sort_key = column none "name"; ascending = false } ∷ [])
      (project ((of_table "u" "name", none) ∷ [])
        (join hash_join JoinType.inner (equals_expr (of_table "u" "id") (of_table "o" "user_id"))
          scan_of_users scan_of_orders no_estimates)
        no_estimates)
      no_estimates

hashed_names_rows :
    (build_executor doubles 9 shop [] hashed_names >>= run_to_completion doubles 9)
    ≡ ok ((str "eve" ∷ []) ∷ (str "ann" ∷ []) ∷ [])
unfolding build_executor run_to_completion
hashed_names_rows = refl

run_to_completion-answer_example :
    (build_executor doubles 20 shop [] hashed_names >>= run_to_completion doubles 20)
    ≡ (answer doubles shop [] hashed_names >>= λ a. a.rows >>= λ o. finished o.0 o.1)
unfolding total_rows project_row
run_to_completion-answer_example =
    run_to_completion-answer doubles 19 shop [] hashed_names (omega arith)

-- WHERE u.name = 'ann' over the nested loop join.
abbrev ann_orders : PhysicalPlan
ann_orders =
    filter (equals_expr (of_table "u" "name") (literal (str "ann")))
      (join nested_loop_join JoinType.inner
        (equals_expr (of_table "u" "id") (of_table "o" "user_id")) scan_of_users scan_of_orders
        no_estimates)
      no_estimates

abbrev ann_orders_logical : LogicalPlan
ann_orders_logical = LogicalPlan.filter (equals_expr (of_table "u" "name") (literal (str "ann"))) (
    LogicalPlan.join JoinType.inner (equals_expr (of_table "u" "id") (of_table "o" "user_id"))
      (scan "users" (some "u") []) (scan "orders" (some "o") []))

abbrev ann_orders_carried : CarriesOut ann_orders ann_orders_logical
ann_orders_carried = filters (joins scans scans)

run_to_completion-exact_example :
    ((build_executor doubles 20 shop [] ann_orders >>= run_to_completion doubles 20)
      ≡ ok ((number 1 ∷ str "ann" ∷ number 7 ∷ number 1 ∷ []) ∷ []))
    ↔ (map_ok (λ rel. rel.rows) (exact doubles shop ann_orders_logical)
        ≡ ok ((number 1 ∷ str "ann" ∷ number 7 ∷ number 1 ∷ []) ∷ []))
unfolding total_rows test
run_to_completion-exact_example =
    run_to_completion-exact doubles shop [] 19
      ((number 1 ∷ str "ann" ∷ number 7 ∷ number 1 ∷ []) ∷ []) ann_orders_carried (omega arith)

-- The plan that pushdown makes of it.
abbrev pushed_ann_orders : PhysicalPlan
pushed_ann_orders =
    join nested_loop_join JoinType.inner (equals_expr (of_table "u" "id") (of_table "o" "user_id"))
      (filter (equals_expr (of_table "u" "name") (literal (str "ann"))) scan_of_users no_estimates)
      scan_of_orders no_estimates

abbrev pushed_carried : CarriesOut pushed_ann_orders (push_predicates ann_orders_logical)
unfolding push_predicates split_and refers_to scan_aliases
pushed_carried = joins (filters scans) scans

push_predicates-runs_example :
    ((number 1 ∷ str "ann" ∷ number 7 ∷ number 1 ∷ []) ∷ [])
    ≡ ((number 1 ∷ str "ann" ∷ number 7 ∷ number 1 ∷ []) ∷ [])
unfolding total_rows build_executor run_to_completion split_and
push_predicates-runs_example =
    push_predicates-runs doubles shop [] ann_orders_logical ann_orders pushed_ann_orders 19 19
      ((number 1 ∷ str "ann" ∷ number 7 ∷ number 1 ∷ []) ∷ [])
      ((number 1 ∷ str "ann" ∷ number 7 ∷ number 1 ∷ []) ∷ [])
      ((refl, (refl, (refl, tt))), ((refl, (refl, tt)), tt)) (tt, tt) ((inl (tt, tt), tt), (tt, tt))
      ann_orders_carried pushed_carried (omega arith) (omega arith) refl refl

-- The same join, filtered by u.name > 5 over an empty orders table: no pair is tested before pushdown,
-- and every user after it.
abbrev name_above : Expression
name_above = binary_op (of_table "u" "name") BinaryOperator.gt (literal (number 5))

abbrev no_orders : Database
no_orders = ("users", users) ∷ ("orders", record orders { rows = [] }) ∷ []

late_filter :
    (build_executor doubles 20 no_orders [] (
        filter name_above
          (join nested_loop_join JoinType.inner
            (equals_expr (of_table "u" "id") (of_table "o" "user_id"))
            scan_of_users
            scan_of_orders
            no_estimates)
          no_estimates)
      >>= run_to_completion doubles 20)
    ≡ ok []
unfolding build_executor run_to_completion
late_filter = refl

early_filter :
    (build_executor doubles 20 no_orders [] (
        join nested_loop_join JoinType.inner
          (equals_expr (of_table "u" "id") (of_table "o" "user_id"))
          (filter name_above scan_of_users no_estimates)
          scan_of_orders
          no_estimates)
      >>= run_to_completion doubles 20)
    ≡ err not_comparable
unfolding build_executor run_to_completion
early_filter = refl

-- WHERE u.name = oid, with no qualifier for the column of orders
abbrev mixed_condition : Expression
mixed_condition = binary_op (of_table "u" "name") BinaryOperator.eq (column none "oid")

abbrev mixed_plan : PhysicalPlan
mixed_plan =
    join nested_loop_join JoinType.inner (literal (Literal.boolean true))
      (filter mixed_condition scan_of_users no_estimates) scan_of_orders no_estimates

abbrev mixed_logical : LogicalPlan
mixed_logical =
    mixed_query doubles shop [] "users" "orders" "u" "o" "name" "oid" BinaryOperator.eq
      (literal (Literal.boolean true)) users

abbrev mixed_carried : CarriesOut mixed_plan (push_predicates mixed_logical)
unfolding push_predicates split_and refers_to scan_aliases
mixed_carried = joins (filters scans) scans

mixed_conjunct-throws_example :
    (push_predicates mixed_logical
      ≡ pushed_query doubles shop [] "users" "orders" "u" "o" "name" "oid" BinaryOperator.eq
          (literal (Literal.boolean true))
          users)
    × ((build_executor doubles 20 shop [] mixed_plan >>= run_to_completion doubles 20) ≢ ok [])
unfolding total_rows split_and get_table test
mixed_conjunct-throws_example =
    mixed_conjunct-throws doubles shop [] "users" "orders" "u" "o" "name" "oid" BinaryOperator.eq
      (literal (Literal.boolean true)) users mixed_plan 19 _ _ [] refl refl refl refl refl
      mixed_carried (omega arith)

-- A table with no data is an error of the builder, and COUNT(*) over rows from elsewhere.
missing : build_executor doubles 9 shop [] (seq_scan "nobody" none [] no_estimates) ≡ err no_table
unfolding build_executor
missing = refl

abbrev count_external : PhysicalPlan
count_external =
    hash_aggregate [] (record { func = "COUNT"; arg = wildcard; alias = none } ∷ [])
      (external_rows "broadcast:users" ("u.id" ∷ "name" ∷ []) 4 [] [] no_estimates) no_estimates

count_external_rows :
    (build_executor doubles 9 [] ((4, user_rows) ∷ []) count_external
      >>= run_to_completion doubles 9)
    ≡ ok ((number 3 ∷ []) ∷ [])
unfolding build_executor run_to_completion
count_external_rows = refl
