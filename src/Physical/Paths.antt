-- ===== src/Physical/Paths.antt =====
-- optimizer/access_path_generator.cpp: the access path of one relation with its local filters, and the
-- operations of optimizer/cardinality_estimator.hpp and of the statistics that planning asks for, which
-- are the parameter `Estimator`.
use sql_query_optimizer.Prelude.{
  ℕ, ◌+◌, String, Bool, Option, none, some, List, [], ◌∷◌, get_elem?, eqb, if◌then◌else◌,
}
use sql_query_optimizer.Ast.{
  Double, BinaryOperator, Literal, Expression, column, literal, binary_op,
}
use sql_query_optimizer.Plan.{LogicalPlan, scan}
use sql_query_optimizer.Schema.{Catalog, TableSchema, get, has_index_on}
use sql_query_optimizer.JoinGraph.{Relation}
use sql_query_optimizer.Physical.{
  Cost, Estimates, PhysicalPlan, seq_scan, index_scan, filter, join, hash_aggregate, project, sort,
  limit, external_rows,
}
use sql_query_optimizer.Physical.Formulas.{
  CostMath, total, add_cost, rows_to_size, pages_for, seq_scan_cost, index_scan_cost, filter_cost,
}

pub record Estimate : Type 0 where
  pub rows : Double
  pub confidence : Double
  pub reasoning : String

-- `estimate_*` of CardinalityEstimator, and `page_count` of a table's statistics, if there are any.
pub record Estimator : Type 0 where
  pub estimate_scan : String → Estimate
  pub estimate_filter : Double → Expression → LogicalPlan → Estimate
  pub estimate_join : Double → Double → Expression → LogicalPlan → LogicalPlan → Estimate
  pub estimate_aggregate : Double → List Expression → LogicalPlan → Estimate
  pub page_count : String → Option Double

abbrev pub estimates_of : PhysicalPlan → Estimates
estimates_of (seq_scan t a c est) = est
estimates_of (index_scan t a c col v est) = est
estimates_of (filter e i est) = est
estimates_of (join k t e l r est) = est
estimates_of (hash_aggregate g a i est) = est
estimates_of (project es i est) = est
estimates_of (sort o i est) = est
estimates_of (limit n i est) = est
estimates_of (external_rows t c s g a est) = est

abbrev pub cost_of : PhysicalPlan → Cost
cost_of p = (estimates_of p).estimated_cost

abbrev pub rows_of : PhysicalPlan → ℕ
rows_of p = (estimates_of p).estimated_rows

-- The estimates of a node, from its cost, its rows and what the estimator said.
abbrev pub annotate : Cost → ℕ → Estimate → Estimates
annotate c rows est = record {
  estimated_cost = c;
  estimated_rows = rows;
  cardinality_reasoning = est.reasoning;
  cardinality_confidence = est.confidence;
}

-- An equality of a column and a literal, in either order.
abbrev pub column_equality : Expression → Option (Option String × String × Literal)
column_equality (binary_op (column t c) BinaryOperator.eq (literal v)) = some (t, c, v)
column_equality (binary_op (literal v) BinaryOperator.eq (column t c)) = some (t, c, v)
column_equality _ = none

-- The position, column and value of the first local filter that an index serves.
unfoldable pub find_indexed_equality :
    List Expression → TableSchema → ℕ → Option (ℕ × String × Literal)
unfolding has_index_on
find_indexed_equality [] schema i = none
find_indexed_equality (pred ∷ preds) schema i =
    let rest = find_indexed_equality preds schema (i + 1) in
    elim (column_equality pred) [
      | none ↦ rest
      | some (t, c, v) ↦ if has_index_on schema c then some (i, c, v) else rest
    ]

module _ (m : CostMath) (est : Estimator) (catalog : Catalog) where
  -- `page_count` from the statistics, or the fallback.
  unfoldable pub page_count_for : String → ℕ → Double
  unfolding pages_for
  page_count_for table rows = elim (est.page_count table) [
    | none ↦ pages_for m rows 64
    | some pages ↦ if m.less 0 pages then pages else pages_for m rows 64
  ]

  -- The local filters, stacked; the one at position `skip` is left out.
  unfoldable pub stack_filters :
      LogicalPlan → Option ℕ → ℕ → List Expression → PhysicalPlan → Double → PhysicalPlan
  unfolding rows_to_size add_cost filter_cost
  stack_filters scope skip i [] p running_rows = p
  stack_filters scope skip i (pred ∷ preds) p running_rows =
      let e = est.estimate_filter running_rows pred scope in
      let c = add_cost m (cost_of p) (filter_cost m (rows_to_size m running_rows)) in
      let stacked =
        stack_filters scope skip (i + 1) preds
          (filter pred p (annotate c (rows_to_size m e.rows) e)) e.rows in
      let skipped = stack_filters scope skip (i + 1) preds p running_rows in
      elim skip [ none ↦ stacked | some k ↦ if eqb i k then skipped else stacked ]

  -- Both candidates, by whether an index serves a local filter.
  unfoldable pub seq_candidate : Relation → PhysicalPlan
  unfolding rows_to_size seq_scan_cost page_count_for stack_filters
  seq_candidate rel =
      let e = est.estimate_scan rel.table_name in
      let base_rows = rows_to_size m e.rows in
      let scanned = seq_scan rel.table_name rel.alias [] (
        annotate (seq_scan_cost m base_rows (page_count_for rel.table_name base_rows)) base_rows
          e) in
      stack_filters (scan rel.table_name rel.alias []) none 0 rel.local_filters scanned e.rows

  unfoldable pub index_candidate : Relation → ℕ → String → Literal → Option PhysicalPlan
  unfolding rows_to_size index_scan_cost stack_filters
  index_candidate rel pos c v = elim (get_elem? rel.local_filters pos) [
    | none ↦ none
    | some index_pred ↦
        let scope = scan rel.table_name rel.alias [] in
        let e = est.estimate_filter (est.estimate_scan rel.table_name).rows index_pred scope in
        let matched_rows = rows_to_size m e.rows in
        let probed =
          index_scan rel.table_name rel.alias [] c (literal v)
            (annotate (index_scan_cost m matched_rows) matched_rows e) in
        some (stack_filters scope (some pos) 0 rel.local_filters probed e.rows)
  ]

  abbrev pub cheaper : PhysicalPlan → PhysicalPlan → Bool
  unfolding total
  cheaper p q = m.less (total m (cost_of p)) (total m (cost_of q))

  unfoldable pub or_index : PhysicalPlan → Option PhysicalPlan → PhysicalPlan
  unfolding total
  or_index seq none = seq
  or_index seq (some idx) = if cheaper idx seq then idx else seq

  unfoldable pub best_access_path : Relation → PhysicalPlan
  unfolding get seq_candidate index_candidate find_indexed_equality total or_index
  best_access_path rel = elim (get catalog rel.table_name) [
    | none ↦ seq_candidate rel
    | some schema ↦ elim (find_indexed_equality rel.local_filters schema 0) [
      | none ↦ seq_candidate rel
      | some (pos, c, v) ↦ or_index (seq_candidate rel) (index_candidate rel pos c v)
    ]
  ]
