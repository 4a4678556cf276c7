-- ===== src/Execution/Exact.antt =====
-- The relation that a logical plan of scans, filters and inner joins stands for, as an error if the
-- evaluation of any predicate on any row that it is asked of throws. Every other plan is an error here.
use sql_query_optimizer.Prelude.{◌≡◌, sym, ap, ◌∙◌, none, some, List, keep_if, value_or}
use sql_query_optimizer.Ast.{Expression, JoinType}
use sql_query_optimizer.Plan.{LogicalPlan, scan, filter, join, aggregate, project, sort, limit}
use sql_query_optimizer.Storage.{Database, get_table}
use sql_query_optimizer.Execution.Result.{Result, ok, err, ◌>>=◌, undefined, bind-ok, ok-injective}
use sql_query_optimizer.Execution.Values.{Platform}
use sql_query_optimizer.Execution.RowSchema.{RowSchema, extend}
use sql_query_optimizer.Execution.Eval.{Row}
use sql_query_optimizer.Execution.Meaning.{
  Relation, UpperNodes, holds, restrict, combine, scan_table, meaning,
}
use sql_query_optimizer.Execution.Streams.{finished}
use sql_query_optimizer.Execution.Operators.Filters.{Outcome, filtered, filtered-holds}
use sql_query_optimizer.Execution.Operators.Joins.{product}
use sql_query_optimizer.Execution.Operators.Agree.{keep_if-product}

-- The rows of an outcome without an error.
abbrev pub all_of : Outcome → Result (List Row)
all_of o = finished o.0 o.1

pub all_of-ok : (o : Outcome) (rows : List Row) → all_of o ≡ ok rows → o ≡ (rows, none)
all_of-ok (xs, none) rows h = ap (λ ys. (ys, none)) (ok-injective h)
all_of-ok (xs, some e) rows h = cc

module _ (d : Platform) (db : Database) where
  -- The rows on which the predicate is TRUE.
  unfoldable pub selected : Expression → RowSchema → List Row → Result Relation
  unfolding filtered
  selected e schema rows = all_of (filtered d e schema rows none) >>= λ kept.
      ok (record { schema = schema; rows = kept })

  unfoldable pub exact : LogicalPlan → Result Relation
  unfolding selected scan_table extend get_table
  exact (scan table alias cols) = scan_table d (value_or alias table) (get_table db table)
  exact (filter e i) = exact i >>= λ x. selected e x.schema x.rows
  exact (join JoinType.inner e l r) = exact l >>= λ x.
      exact r >>= λ y. selected e (extend x.schema y.schema) (product x.rows y.rows)
  exact (join _ e l r) = err undefined
  exact (aggregate g a i) = err undefined
  exact (project es i) = err undefined
  exact (sort o i) = err undefined
  exact (limit n i) = err undefined

  -- What is selected is a filter of the rows.
  selected-keep_if :
      (e : Expression) (schema : RowSchema) (rows : List Row) (rel : Relation)
      → selected e schema rows ≡ ok rel
      → rel ≡ record { schema = schema; rows = keep_if (holds d e schema) rows }
  unfolding selected
  selected-keep_if e schema rows rel h =
      let (kept, p, q) = bind-ok (all_of (filtered d e schema rows none)) _ h in
      let o = all_of-ok (filtered d e schema rows none) kept p in
      let same = sym (ap (λ x. x.0) o) ∙ filtered-holds d e schema rows (ap (λ x. x.1) o) in
      sym (ok-injective q) ∙ ap (λ xs. record { schema = schema; rows = xs }) same

  -- Where no evaluation throws, the reading that drops the rows with errors is the same.
  pub exact-meaning :
      (u : UpperNodes) (l : LogicalPlan) (rel : Relation)
      → exact l ≡ ok rel
      → meaning d u db l ≡ ok rel
  unfolding exact meaning restrict combine
  exact-meaning u (scan table alias cols) rel h = h
  exact-meaning u (filter e i) rel h =
      let (x, p, q) = bind-ok (exact i) _ h in
      rw (exact-meaning u i x p) (ap ok (sym (selected-keep_if e x.schema x.rows rel q)))
  exact-meaning u (join JoinType.inner e l r) rel h =
      let (x, p, q) = bind-ok (exact l) _ h in
      let (y, v, w) = bind-ok (exact r) _ q in
      let schema = extend x.schema y.schema in
      rw (exact-meaning u l x p, exact-meaning u r y v)
        (ap (λ xs. ok (record { schema = schema; rows = xs }))
            (sym (keep_if-product (holds d e schema) x.rows y.rows))
          ∙ ap ok (sym (selected-keep_if e schema (product x.rows y.rows) rel w)))
  exact-meaning u p rel h = cc
