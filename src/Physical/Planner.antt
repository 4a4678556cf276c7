-- ===== src/Physical/Planner.antt =====
-- physical/physical_planner.cpp: the physical plan of a logical one, and the estimates of
-- optimizer/cardinality_estimator.cpp that read no statistics. What the planner throws is a
-- `PlanError`; of it, `unexpected_node` is what the join graph throws.
pub mod Scans
use Prim.Native.String.{◌++◌}
use sql_query_optimizer.Prelude.{
  ℕ, zero, suc, ◌+◌, ◌/◌, String, Bool, true, false, ◌&&◌, not, Option, none, some, List, [], ◌∷◌,
  value_or, ◌==◌, ltb, ◌⊎◌, inl, inr, if◌then◌else◌,
}
use sql_query_optimizer.Prelude.Int.{ℤ, pos}
use sql_query_optimizer.Prelude.Text.{int_to_string}
use sql_query_optimizer.Ast.{
  Double, BinaryOperator, Literal, Expression, literal, JoinType, OrderByItem,
}
use sql_query_optimizer.Plan.{LogicalPlan, AggregateExpr}
use sql_query_optimizer.Schema.{Catalog, TableSchema, get, has_index_on}
use sql_query_optimizer.JoinGraph.{JoinGraphExtraction, is_join_search_candidate, build_join_graph}
use sql_query_optimizer.Physical.{
  Cost, PhysicalPlan, seq_scan, index_scan, filter, join, hash_aggregate, project, sort, limit,
  JoinKind, nested_loop_join, hash_join,
}
use sql_query_optimizer.Physical.Formulas.{
  CostMath, one, total, add_cost, rows_to_size, seq_scan_cost, index_scan_cost, filter_cost,
  hash_join_cost, nested_loop_join_cost, hash_aggregate_cost, sort_cost, project_cost, limit_cost,
}
use sql_query_optimizer.Physical.Paths.{
  Estimate, Estimator, cost_of, rows_of, annotate, column_equality, page_count_for,
}
use sql_query_optimizer.Physical.Enumerator.{PlanError, is_equi, find_best_plan}

-- What is planned from one input, and from two.
abbrev pub with_plan :
    (PhysicalPlan → PhysicalPlan) → PlanError ⊎ PhysicalPlan → PlanError ⊎ PhysicalPlan
with_plan f (inl e) = inl e
with_plan f (inr p) = inr (f p)

abbrev pub with_plans :
    (PhysicalPlan → PhysicalPlan → PhysicalPlan)
    → PlanError ⊎ PhysicalPlan
    → PlanError ⊎ PhysicalPlan
    → PlanError ⊎ PhysicalPlan
with_plans f (inl e) k = inl e
with_plans f (inr p) (inl e) = inl e
with_plans f (inr p) (inr q) = inr (f p q)

-- A filter directly over a scan.
abbrev pub filtered_scan : LogicalPlan → Option (String × Option String × List String)
filtered_scan (LogicalPlan.scan table alias cols) = some (table, alias, cols)
filtered_scan _ = none

-- The column is of the scan: it has no qualifier or the scan's name.
abbrev pub is_of_scan : String → Option String → Bool
is_of_scan scan_ident none = true
is_of_scan scan_ident (some t) = t == scan_ident

-- The index scan, if there is one, or the filter over its input.
abbrev pub or_filter : Option PhysicalPlan → PlanError ⊎ PhysicalPlan → PlanError ⊎ PhysicalPlan
or_filter none filtered = filtered
or_filter (some p) filtered = inr p

abbrev pub residual_reasoning : String
residual_reasoning =
    "residual predicate spanning more than two relations or an unresolvable column -- default 10% heuristic"

-- 0.2
abbrev pub residual_confidence : Double
residual_confidence = 4_596_373_779_694_328_218

abbrev pub residual_rows : ℕ → ℕ
residual_rows rows = if ltb (rows / 10) 1 then 1 else rows / 10

module _ (m : CostMath) (est : Estimator) (catalog : Catalog) where
  unfoldable pub plan_scan : String → Option String → List String → PhysicalPlan
  unfolding rows_to_size seq_scan_cost page_count_for
  plan_scan table alias cols =
      let e = est.estimate_scan table in
      let row_count = rows_to_size m e.rows in
      seq_scan table alias cols (
        annotate (seq_scan_cost m row_count (page_count_for m est catalog table row_count))
          row_count e)

  -- The index scan for the equality, if it costs less than reading all and filtering.
  unfoldable pub index_scan_of :
      Expression → String → Option String → List String → String → Literal → Option PhysicalPlan
  unfolding rows_to_size seq_scan_cost index_scan_cost filter_cost add_cost total page_count_for
  index_scan_of pred table alias cols c v =
      let scan_est = est.estimate_scan table in
      let row_count = rows_to_size m scan_est.rows in
      let filter_est = est.estimate_filter scan_est.rows pred (LogicalPlan.scan table alias cols) in
      let matched_rows = rows_to_size m filter_est.rows in
      let page_count = page_count_for m est catalog table row_count in
      let index_cost = index_scan_cost m matched_rows in
      let seq_plus_filter_cost =
        add_cost m (seq_scan_cost m row_count page_count) (filter_cost m row_count) in
      if m.less_equal (total m seq_plus_filter_cost) (total m index_cost)
      then none
      else some
          (index_scan table alias cols c (literal v) (annotate index_cost matched_rows filter_est))

  abbrev index_serves : String → String → Bool
  unfolding get has_index_on
  index_serves table c = elim (get catalog table) [
    | none ↦ false
    | some schema ↦ has_index_on schema c
  ]

  unfoldable pub try_index_scan : Expression → LogicalPlan → Option PhysicalPlan
  unfolding get has_index_on index_scan_of
  try_index_scan pred node = elim (filtered_scan node) [
    | none ↦ none
    | some (table, alias, cols) ↦ elim (column_equality pred) [
      | none ↦ none
      | some (t, c, v) ↦
          if is_of_scan (value_or alias table) t && index_serves table c
          then index_scan_of pred table alias cols c v
          else none
    ]
  ]

  unfoldable pub choose_join_strategy :
      JoinType → Expression → LogicalPlan → LogicalPlan → PhysicalPlan → PhysicalPlan → PhysicalPlan
  unfolding rows_to_size total add_cost nested_loop_join_cost hash_join_cost
  choose_join_strategy join_type cond left_scope right_scope left right =
      let e =
        est.estimate_join (m.of_size (rows_of left)) (m.of_size (rows_of right)) cond left_scope
          right_scope in
      let out_rows = rows_to_size m e.rows in
      let c = cost_of left in
      let scanned = record c {
        cpu = m.add c.cpu (m.mul (m.of_size (rows_of left)) (total m (cost_of right)));
      } in
      let nl_cost = add_cost m scanned (nested_loop_join_cost m (rows_of left) (rows_of right)) in
      let hj_cost =
        add_cost m (add_cost m (cost_of left) (cost_of right))
          (hash_join_cost m (rows_of left) (rows_of right)) in
      if is_equi cond && m.less (total m hj_cost) (total m nl_cost)
      then join hash_join join_type cond left right (annotate hj_cost out_rows e)
      else join nested_loop_join join_type cond left right (annotate nl_cost out_rows e)

  -- The residual filters, the first innermost.
  unfoldable pub residual_filters : List Expression → PhysicalPlan → PhysicalPlan
  unfolding add_cost filter_cost
  residual_filters [] best = best
  residual_filters (pred ∷ preds) best = residual_filters preds (
      filter pred best (record {
        estimated_cost = add_cost m (cost_of best) (filter_cost m (rows_of best));
        estimated_rows = residual_rows (rows_of best);
        cardinality_reasoning = residual_reasoning;
        cardinality_confidence = residual_confidence;
      }))

  unfoldable pub plan_join_search : LogicalPlan → PlanError ⊎ PhysicalPlan
  unfolding build_join_graph find_best_plan residual_filters
  plan_join_search node = elim (build_join_graph node) [
    | none ↦ inl PlanError.unexpected_node
    | some extraction ↦
        with_plan (residual_filters extraction.residual_filters)
          (find_best_plan m est catalog extraction.graph)
  ]

  unfoldable pub plan_filter : Expression → LogicalPlan → PhysicalPlan → PhysicalPlan
  unfolding rows_to_size add_cost filter_cost
  plan_filter pred node input =
      let e = est.estimate_filter (m.of_size (rows_of input)) pred node in
      filter pred input (
        annotate (add_cost m (cost_of input) (filter_cost m (rows_of input)))
          (rows_to_size m e.rows) e)

  unfoldable pub plan_aggregate :
      List Expression → List AggregateExpr → LogicalPlan → PhysicalPlan → PhysicalPlan
  unfolding rows_to_size add_cost hash_aggregate_cost
  plan_aggregate group_by aggregates node input =
      let e = est.estimate_aggregate (m.of_size (rows_of input)) group_by node in
      let rows = rows_to_size m e.rows in
      hash_aggregate group_by aggregates input
        (annotate (add_cost m (cost_of input) (hash_aggregate_cost m (rows_of input) rows)) rows e)

  abbrev pub estimate_project : Double → Estimate
  estimate_project input_rows = record {
    rows = input_rows;
    confidence = one;
    reasoning = "projection does not change row count";
  }

  abbrev pub estimate_sort : Double → Estimate
  estimate_sort input_rows = record {
    rows = input_rows;
    confidence = one;
    reasoning = "sort does not change row count";
  }

  unfoldable pub estimate_limit : Double → ℕ → Estimate
  unfolding int_to_string
  estimate_limit input_rows count =
      let limit_rows = m.of_size count in
      record {
        rows = if m.less limit_rows input_rows then limit_rows else input_rows;
        confidence = one;
        reasoning = "min(input rows, LIMIT " ++ int_to_string (pos count) ++ ")";
      }

  unfoldable pub plan_project : List (Expression × Option String) → PhysicalPlan → PhysicalPlan
  unfolding rows_to_size add_cost project_cost
  plan_project expressions input =
      let e = estimate_project (m.of_size (rows_of input)) in
      project expressions input (
        annotate (add_cost m (cost_of input) (project_cost m (rows_of input)))
          (rows_to_size m e.rows) e)

  unfoldable pub plan_sort : List OrderByItem → PhysicalPlan → PhysicalPlan
  unfolding rows_to_size add_cost sort_cost
  plan_sort order_by input =
      let e = estimate_sort (m.of_size (rows_of input)) in
      sort order_by input (
        annotate (add_cost m (cost_of input) (sort_cost m (rows_of input))) (rows_to_size m e.rows)
          e)

  unfoldable pub plan_limit : ℕ → PhysicalPlan → PhysicalPlan
  unfolding rows_to_size add_cost limit_cost estimate_limit
  plan_limit count input =
      let e = estimate_limit (m.of_size (rows_of input)) count in
      limit count input (
        annotate (add_cost m (cost_of input) (limit_cost m (rows_of input))) (rows_to_size m e.rows)
          e)

  -- The join search, for a tree of inner joins.
  abbrev pub search_or : LogicalPlan → PlanError ⊎ PhysicalPlan → PlanError ⊎ PhysicalPlan
  unfolding is_join_search_candidate plan_join_search
  search_or node other = if is_join_search_candidate node then plan_join_search node else other

  unfoldable pub plan_node : LogicalPlan → PlanError ⊎ PhysicalPlan
  unfolding is_join_search_candidate plan_join_search plan_scan try_index_scan plan_filter
      choose_join_strategy plan_aggregate plan_project plan_sort plan_limit
  plan_node (LogicalPlan.scan table alias cols) =
      search_or (LogicalPlan.scan table alias cols) (inr (plan_scan table alias cols))
  plan_node (LogicalPlan.filter pred input) =
      search_or (LogicalPlan.filter pred input) (
        or_filter (try_index_scan pred input)
          (with_plan (plan_filter pred input) (plan_node input)))
  plan_node (LogicalPlan.join t cond left right) =
      search_or (LogicalPlan.join t cond left right)
        (with_plans (choose_join_strategy t cond left right) (plan_node left) (plan_node right))
  plan_node (LogicalPlan.aggregate group_by aggregates input) =
      search_or (LogicalPlan.aggregate group_by aggregates input)
        (with_plan (plan_aggregate group_by aggregates input) (plan_node input))
  plan_node (LogicalPlan.project expressions input) =
      search_or (LogicalPlan.project expressions input)
        (with_plan (plan_project expressions) (plan_node input))
  plan_node (LogicalPlan.sort order_by input) =
      search_or (LogicalPlan.sort order_by input) (with_plan (plan_sort order_by) (plan_node input))
  plan_node (LogicalPlan.limit count input) =
      search_or (LogicalPlan.limit count input) (with_plan (plan_limit count) (plan_node input))

  unfoldable pub generate_physical_plan : LogicalPlan → PlanError ⊎ PhysicalPlan
  unfolding plan_node
  generate_physical_plan logical = plan_node logical
