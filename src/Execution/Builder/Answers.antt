-- ===== src/Execution/Builder/Answers.antt =====
-- execution/executor_builder.cpp, as an independent reading over whole lists of rows: what a physical
-- plan answers, node by node, with the point where a node throws.
use sql_query_optimizer.Prelude.{
  ℕ, ◌+◌, String, Option, none, some, List, [], ◌∷◌, ◌++◌, length, map, value_or, get_elem?,
  if◌then◌else◌,
}
use sql_query_optimizer.Ast.{Literal, Expression, OrderByItem}
use sql_query_optimizer.Plan.{AggregateExpr}
use sql_query_optimizer.Physical.{
  PhysicalPlan, seq_scan, index_scan, filter, join, hash_aggregate, project, sort, limit,
  external_rows, JoinKind, hash_join,
}
use sql_query_optimizer.Storage.{Table, Database, get_table}
use sql_query_optimizer.Execution.Result.{
  Result, Error, ok, err, ◌>>=◌, no_index_column, no_external_rows, undefined,
}
use sql_query_optimizer.Execution.Values.{Platform, literal_equal}
use sql_query_optimizer.Execution.RowSchema.{RowSchema, empty_schema, extend, resolve}
use sql_query_optimizer.Execution.Eval.{Row, evaluate}
use sql_query_optimizer.Execution.Meaning.{scan_schema}
use sql_query_optimizer.Execution.Streams.{finished}
use sql_query_optimizer.Execution.Operators.Filters.{Outcome, after, filtered, projected, limited}
use sql_query_optimizer.Execution.Operators.Joins.{product}
use sql_query_optimizer.Execution.HashJoin.{Keys, Build, hash_keys, key_of}
use sql_query_optimizer.Execution.HashJoin.Yields.{hashed}
use sql_query_optimizer.Execution.HashAggregate.{aggregate_schema, aggregate_results}
use sql_query_optimizer.Execution.HashAggregate.Groups.{group_rows}
use sql_query_optimizer.Execution.Sort.{comes_before}
use sql_query_optimizer.Execution.Builder.{
  ExternalRowSets, find_rows, external_schema, project_schema, expression_of, on_table,
}

-- What a built executor answers: its columns, and what `open` throws or the rows then come to.
pub record Answer : Type 0 where
  pub schema : RowSchema
  pub rows : Result Outcome

abbrev pub whole : List Row → Result Outcome
whole rows = ok (rows, none)

abbrev pub outcome_count : Result Outcome → ℕ
outcome_count (err e) = 0
outcome_count (ok o) = length o.0

abbrev pub row_count : Result Answer → ℕ
row_count (err e) = 0
row_count (ok a) = outcome_count a.rows

module _ (d : Platform) where
  abbrev indexed_at : Option Literal → Literal → Row → Outcome → Outcome
  indexed_at none probe row rest = ([], some undefined)
  indexed_at (some v) probe row rest = if literal_equal d v probe then after row rest else rest

  -- The rows whose value in a column equals the probe.
  unfoldable pub indexed : List Row → ℕ → Literal → Outcome
  unfolding literal_equal
  indexed [] col probe = ([], none)
  indexed (row ∷ rows) col probe = indexed_at (get_elem? row col) probe row (indexed rows col probe)

  unfoldable pub index_rows : RowSchema → List Row → String → Expression → Result Outcome
  unfolding evaluate resolve indexed
  index_rows schema rows column probe_value = evaluate d probe_value [] empty_schema >>= λ probe.
      elim (resolve schema none column) [
        | none ↦ err no_index_column
        | some col ↦ ok (indexed rows col probe)
      ]

  -- The table of a hash join over all the right rows.
  unfoldable pub build_of : Expression → RowSchema → List Row → Option Error → Build → Result Build
  unfolding key_of
  build_of e schema [] none build = ok build
  build_of e schema [] (some x) build = err x
  build_of e schema (row ∷ rows) end build =
      key_of d e schema row >>= λ k. build_of e schema rows end (build ++ (k, row) ∷ [])

  abbrev pub seq_scan_answer : String → Table → Answer
  seq_scan_answer qualifier t = record {
    schema = scan_schema qualifier t.column_names;
    rows = whole t.rows;
  }

  abbrev pub index_scan_answer : String → Table → String → Expression → Answer
  index_scan_answer qualifier t column probe =
      let schema = scan_schema qualifier t.column_names in
      record { schema = schema; rows = index_rows schema t.rows column probe }

  abbrev pub filter_answer : Expression → Answer → Answer
  filter_answer e a = record {
    schema = a.schema;
    rows = a.rows >>= λ o. ok (filtered d e a.schema o.0 o.1);
  }

  abbrev pub nested_loop_answer : Expression → Answer → Answer → Answer
  nested_loop_answer e l r =
      let schema = extend l.schema r.schema in
      record {
        schema = schema;
        rows = l.rows >>= λ o. r.rows >>= λ p.
            finished p.0 p.1 >>= λ rows. ok (filtered d e schema (product o.0 rows) o.1);
      }

  abbrev pub hash_answer : Keys → Answer → Answer → Answer
  hash_answer keys l r = record {
    schema = extend l.schema r.schema;
    rows = l.rows >>= λ o. r.rows >>= λ p. build_of keys.right_key r.schema p.0 p.1 [] >>= λ build.
        ok (hashed d keys.left_key l.schema build o.0 o.1);
  }

  abbrev pub join_answer : JoinKind → Expression → Answer → Answer → Result Answer
  join_answer hash_join e l r = hash_keys l.schema r.schema e >>= λ keys. ok (hash_answer keys l r)
  join_answer _ e l r = ok (nested_loop_answer e l r)

  abbrev pub aggregate_answer : List Expression → List AggregateExpr → Answer → Answer
  aggregate_answer group_by aggs a = record {
    schema = aggregate_schema group_by aggs;
    rows = a.rows >>= λ o. group_rows d group_by aggs a.schema o.0 o.1 [] >>= λ gs.
        whole (aggregate_results d group_by aggs gs);
  }

  abbrev pub project_answer : List (Expression × Option String) → Answer → Answer
  project_answer es a = record {
    schema = project_schema es;
    rows = a.rows >>= λ o. ok (projected d (map expression_of es) a.schema o.0 o.1);
  }

  abbrev pub sort_answer : List OrderByItem → Answer → Answer
  sort_answer order_by a = record {
    schema = a.schema;
    rows = a.rows >>= λ o.
        finished o.0 o.1 >>= λ rows. d.sort (comes_before d order_by a.schema) rows >>= whole;
  }

  abbrev pub limit_answer : ℕ → Answer → Answer
  limit_answer n a = record { schema = a.schema; rows = a.rows >>= λ o. ok (limited n o.0 o.1) }

  abbrev pub external_answer : Option (List Row) → RowSchema → Result Answer
  external_answer none schema = err no_external_rows
  external_answer (some rows) schema = ok (record { schema = schema; rows = whole rows })

  module _ (db : Database) (external : ExternalRowSets) where
    unfoldable pub answer : PhysicalPlan → Result Answer
    unfolding get_table filtered projected limited product hashed build_of hash_keys group_rows
        aggregate_results aggregate_schema comes_before project_schema external_schema index_rows
        extend scan_schema find_rows
    answer (seq_scan table alias cols est) =
        on_table (get_table db table) (seq_scan_answer (value_or alias table))
    answer (index_scan table alias cols column probe est) =
        on_table (get_table db table) (λ t. index_scan_answer (value_or alias table) t column probe)
    answer (filter e i est) = answer i >>= λ a. ok (filter_answer e a)
    answer (join kind type e l r est) = answer l >>= λ a. answer r >>= λ b. join_answer kind e a b
    answer (hash_aggregate g aggs i est) = answer i >>= λ a. ok (aggregate_answer g aggs a)
    answer (project es i est) = answer i >>= λ a. ok (project_answer es a)
    answer (sort o i est) = answer i >>= λ a. ok (sort_answer o a)
    answer (limit n i est) = answer i >>= λ a. ok (limit_answer n a)
    answer (external_rows table cols slot g aggs est) =
        external_answer (find_rows external slot) (external_schema cols g aggs)

    -- The rows of all the nodes below the root, together.
    unfoldable pub total_rows : PhysicalPlan → ℕ
    unfolding answer
    total_rows (seq_scan table alias cols est) = 0
    total_rows (index_scan table alias cols column probe est) = 0
    total_rows (filter e i est) = total_rows i + row_count (answer i)
    total_rows (join kind type e l r est) =
        total_rows l + total_rows r + row_count (answer l) + row_count (answer r)
    total_rows (hash_aggregate g aggs i est) = total_rows i + row_count (answer i)
    total_rows (project es i est) = total_rows i + row_count (answer i)
    total_rows (sort o i est) = total_rows i + row_count (answer i)
    total_rows (limit n i est) = total_rows i + row_count (answer i)
    total_rows (external_rows table cols slot g aggs est) = 0
