-- ===== src/Optimizer/Predicates/Mixed.antt =====
-- Pushdown of a conjunct that mixes qualified and unqualified columns.
use sql_query_optimizer.Prelude.{
  ℕ, suc, ◌+◌, ◌<◌, ◌≢◌, inl, inr, String, false, ◌==◌, ◌≡◌, refl, Option, none, some, List, [],
  ◌∷◌, contains, arith,
}
use text.Mathlib.TextPositions.{eq_refl}
use sql_query_optimizer.Ast.{BinaryOperator, Expression, column, binary_op, JoinType}
use sql_query_optimizer.Plan.{LogicalPlan, scan, filter, join}
use sql_query_optimizer.Storage.{Table, Database, get_table}
use sql_query_optimizer.Execution.Result.{Error, ok, err, ◌>>=◌, unresolved_column, Result-cases}
use sql_query_optimizer.Execution.Values.{Platform}
use sql_query_optimizer.Execution.RowSchema.{empty_schema, resolve, find_unqualified}
use sql_query_optimizer.Execution.Eval.{Row, evaluate}
use sql_query_optimizer.Execution.Meaning.{scan_schema}
use sql_query_optimizer.Execution.Exact.{exact, selected}
use sql_query_optimizer.Execution.Operators.{test}
use sql_query_optimizer.Execution.Operators.Filters.{filtered}
use sql_query_optimizer.Execution.Builder.{ExternalRowSets, build_executor, run_to_completion}
use sql_query_optimizer.Execution.Builder.Answers.{answer, row_count, total_rows}
use sql_query_optimizer.Execution.Builder.Logical.{CarriesOut, run_to_completion-exact}
use sql_query_optimizer.Physical.{PhysicalPlan}
use sql_query_optimizer.Optimizer.Expressions.{split_and, scan_aliases}
use sql_query_optimizer.Optimizer.Predicates.{
  distribute, refers_to, push_into_join, push_predicates,
}
use sql_query_optimizer.Optimizer.Predicates.Blocks.{named, add_columns-named}

find_unqualified-named :
    (q k : String) (cs : List String) (i : ℕ)
    → contains cs k ≡ false
    → find_unqualified k (named q cs) i none ≡ none
unfolding find_unqualified
find_unqualified-named q k [] i h = refl
find_unqualified-named q k (c ∷ cs) i h = ground (arith, find_unqualified-named q k cs (i + 1))

-- An unqualified column that the table lacks cannot be resolved on its scan.
resolve-scan_schema :
    (q k : String) (cs : List String)
    → contains cs k ≡ false
    → resolve (scan_schema q cs) none k ≡ none
unfolding resolve scan_schema
resolve-scan_schema q k cs h =
    rw (add_columns-named q cs empty_schema) (find_unqualified-named q k cs 0 h)

-- `x op y` throws if `y` cannot be resolved.
mixed_test :
    (d : Platform) (a : Option String) (c k q : String) (op : BinaryOperator) (cs : List String)
    (row : Row)
    → contains cs k ≡ false
    → (e : Error) × (test d (binary_op (column a c) op (column none k)) (scan_schema q cs) row
        ≡ err e)
unfolding test evaluate
mixed_test d a c k q op cs row h =
    elim (Result-cases (evaluate d (column a c) row (scan_schema q cs))) [
      | inl (v, e) ↦ (unresolved_column, rw (evaluate, e, resolve-scan_schema q k cs h) refl)
      | inr (x, e) ↦ (x, rw (evaluate, e) refl)
    ]

module _ (d : Platform) (db : Database) (external : ExternalRowSets) (ta tb a b c k : String)
    (op : BinaryOperator) (cond : Expression) (A : Table) where
  abbrev mixed : Expression
  mixed = binary_op (column (some a) c) op (column none k)

  abbrev pub mixed_query : LogicalPlan
  mixed_query = filter mixed (join JoinType.inner cond (scan ta (some a) []) (scan tb (some b) []))

  abbrev pub pushed_query : LogicalPlan
  pushed_query = join JoinType.inner cond (filter mixed (scan ta (some a) [])) (scan tb (some b) [])

  push_mixed :
      split_and mixed ≡ mixed ∷ [] → (b == a) ≡ false → push_predicates mixed_query ≡ pushed_query
  unfolding push_predicates refers_to scan_aliases
  push_mixed single differ = rw (push_into_join, single, distribute, eq_refl a, differ)

  -- A table with a row makes the pushed filter an error.
  filter-err :
      (row : Row) (rest : List Row)
      → get_table db ta ≡ some A
      → contains A.column_names k ≡ false
      → A.rows ≡ row ∷ rest
      → (e : Error) × (exact d db (filter mixed (scan ta (some a) [])) ≡ err e)
  unfolding exact selected filtered
  filter-err row rest at lacks starts =
      let (e, p) = mixed_test d (some a) c k a op A.column_names row lacks in
      (e, rw (at, starts, p) refl)

  pushed-err :
      (row : Row) (rest : List Row)
      → get_table db ta ≡ some A
      → contains A.column_names k ≡ false
      → A.rows ≡ row ∷ rest
      → (e : Error) × (exact d db pushed_query ≡ err e)
  unfolding exact
  pushed-err row rest at lacks starts =
      let (e, p) = filter-err row rest at lacks starts in (e, rw (exact, p) refl)

  -- Take the filter `a.c op k` over an inner join of two different tables `a` and `b`, where `k` is
  -- unqualified, no column of `a`, and `op` no AND, and let the table of `a` have a row. Pushdown makes
  -- it a filter on the scan of `a`, and no run of the rewritten plan, carried out by sequential scans,
  -- filters and nested loop joins with enough fuel, returns rows.
  pub mixed_conjunct-throws :
      (p : PhysicalPlan) (f : ℕ) (row : Row) (rest rows : List Row)
      → split_and mixed ≡ mixed ∷ []
      → (b == a) ≡ false
      → get_table db ta ≡ some A
      → contains A.column_names k ≡ false
      → A.rows ≡ row ∷ rest
      → CarriesOut p (push_predicates mixed_query)
      → total_rows d db external p + row_count (answer d db external p) < suc f
      → (push_predicates mixed_query ≡ pushed_query)
        × ((build_executor d (suc f) db external p >>= run_to_completion d (suc f)) ≢ ok rows)
  mixed_conjunct-throws p f row rest rows single differ at lacks starts c n =
      let moved = push_mixed single differ in
      let (e, failed) = pushed-err row rest at lacks starts in
      let (to, from) = run_to_completion-exact d db external f rows c n in
      (moved, λ h. let got = rw (moved, failed) at (to h) in cc)
