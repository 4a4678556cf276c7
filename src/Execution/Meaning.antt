-- ===== src/Execution/Meaning.antt =====
-- The rows that a logical plan stands for where no test throws: a Filter keeps the rows on which its
-- predicate evaluates to TRUE, and a Join, of any type as in the executors, keeps the pairs on which
-- its condition does. A row on which an evaluation throws is not kept; Exact is the reading with errors.
use sql_query_optimizer.Prelude.{
  ℕ, String, Bool, true, false, ◌&&◌, Option, none, some, List, [], ◌∷◌, ◌++◌, value_or, keep_if,
  if◌then◌else◌,
}
use sql_query_optimizer.Ast.{Literal, boolean, Expression, OrderByItem}
use sql_query_optimizer.Plan.{
  LogicalPlan, scan, filter, join, aggregate, project, sort, limit, AggregateExpr,
}
use sql_query_optimizer.Storage.{Table, Database, get_table}
use sql_query_optimizer.Execution.Result.{Result, ok, err, no_table, ◌>>=◌, map_ok}
use sql_query_optimizer.Execution.Values.{Platform}
use sql_query_optimizer.Execution.RowSchema.{RowSchema, empty_schema, add, extend}
use sql_query_optimizer.Execution.Eval.{Row, evaluate}

pub record Relation : Type 0 where
  pub schema : RowSchema
  pub rows : List Row

-- The nodes above the joins, whatever they compute from their input.
pub record UpperNodes : Type 0 where
  pub aggregated : List Expression → List AggregateExpr → Relation → Result Relation
  pub projected : List (Expression × Option String) → Relation → Result Relation
  pub sorted : List OrderByItem → Relation → Result Relation
  pub limited : ℕ → Relation → Result Relation

abbrev pub is_true : Result Literal → Bool
is_true (ok (boolean b)) = b
is_true _ = false

-- The loop of the scan executors' constructors.
unfoldable pub add_columns : String → List String → RowSchema → RowSchema
unfolding add
add_columns qualifier [] s = s
add_columns qualifier (c ∷ cs) s = add_columns qualifier cs (add (some qualifier) c s)

unfoldable pub scan_schema : String → List String → RowSchema
unfolding add_columns
scan_schema qualifier columns = add_columns qualifier columns empty_schema

-- One left row against the right rows, in their order.
unfoldable pub pair_rows : (Row → Bool) → Row → List Row → List Row
pair_rows keep l [] = []
pair_rows keep l (r ∷ rs) =
    let rest = pair_rows keep l rs in if keep (l ++ r) then (l ++ r) ∷ rest else rest

unfoldable pub join_rows : (Row → Bool) → List Row → List Row → List Row
unfolding pair_rows
join_rows keep [] rs = []
join_rows keep (l ∷ ls) rs = pair_rows keep l rs ++ join_rows keep ls rs

module _ (d : Platform) where
  unfoldable pub holds : Expression → RowSchema → Row → Bool
  unfolding evaluate
  holds e s row = is_true (evaluate d e row s)

  unfoldable pub holds_all : List Expression → RowSchema → Row → Bool
  holds_all [] s row = true
  holds_all (e ∷ es) s row = holds e s row && holds_all es s row

  unfoldable pub restrict : Expression → Relation → Relation
  unfolding holds
  restrict e rel = record rel { rows = keep_if (holds e rel.schema) rel.rows }

  unfoldable pub combine : Expression → Relation → Relation → Relation
  unfolding holds join_rows extend
  combine c l r =
      let schema = extend l.schema r.schema in
      record { schema = schema; rows = join_rows (holds c schema) l.rows r.rows }

  abbrev pub scan_table : String → Option Table → Result Relation
  scan_table qualifier none = err no_table
  scan_table qualifier (some t) =
      ok (record { schema = scan_schema qualifier t.column_names; rows = t.rows })

  unfoldable pub meaning : UpperNodes → Database → LogicalPlan → Result Relation
  unfolding restrict combine scan_schema get_table
  meaning u db (scan table alias cols) = scan_table (value_or alias table) (get_table db table)
  meaning u db (filter e i) = map_ok (restrict e) (meaning u db i)
  meaning u db (join t c l r) = do x ← meaning u db l; y ← meaning u db r; ok (combine c x y)
  meaning u db (aggregate g a i) = meaning u db i >>= u.aggregated g a
  meaning u db (project es i) = meaning u db i >>= u.projected es
  meaning u db (sort o i) = meaning u db i >>= u.sorted o
  meaning u db (limit n i) = meaning u db i >>= u.limited n
