-- ===== src/Execution/Builder.antt =====
-- execution/executor_builder.cpp: the executor tree of a physical plan, and query_runner.cpp:
-- run_to_completion. An executor is its schema and what `open` makes of it: a state and the `next`
-- function, with what the state never changes closed over. Where C++ leaves open which of the two inputs
-- of a join is built first, the left one is.
pub mod Answers
pub mod Agree
pub mod Whole
pub mod Logical
use Prim.Native.Char.{code}
use sql_query_optimizer.Prelude.{
  ℕ, zero, suc, ◌+◌, String, Bool, true, false, Option, none, some, List, [], ◌∷◌, length, map,
  value_or, eqb, if◌then◌else◌,
}
use sql_query_optimizer.Ast.{Literal, Expression, OrderByItem}
use sql_query_optimizer.Plan.{AggregateExpr}
use sql_query_optimizer.Physical.{
  PhysicalPlan, seq_scan, index_scan, filter, join, hash_aggregate, project, sort, limit,
  external_rows, JoinKind, nested_loop_join, hash_join, index_nested_loop_join,
}
use sql_query_optimizer.Storage.{Table, Database, get_table}
use sql_query_optimizer.Execution.Result.{
  Result, ok, err, ◌>>=◌, no_table, no_index_column, no_external_rows,
}
use sql_query_optimizer.Execution.Values.{Platform}
use sql_query_optimizer.Execution.RowSchema.{
  RowSchema, empty_schema, add, extend, register_aggregate, resolve,
}
use sql_query_optimizer.Execution.Eval.{Row, evaluate}
use sql_query_optimizer.Execution.Meaning.{scan_schema}
use sql_query_optimizer.Execution.Streams.{Next, collect_rows}
use sql_query_optimizer.Execution.Operators.{
  scan_next, index_next, filter_next, project_next, limit_next, JoinState, join_next,
}
use sql_query_optimizer.Execution.HashJoin.{Keys, HashState, hash_keys, hash_build, hash_next}
use sql_query_optimizer.Execution.HashAggregate.{
  expr_display_name, aggregate_schema, group_loop, aggregate_results,
}
use sql_query_optimizer.Execution.Sort.{comes_before}

pub record Stream : Type 1 where
  pub State : Type 0
  pub next : Next State
  pub start : State

pub record Executor : Type 1 where
  pub schema : RowSchema
  pub opened : Result Stream

-- ExternalRowSets.
abbrev pub ExternalRowSets : Type 0
ExternalRowSets = List (ℕ × List Row)

unfoldable pub find_rows : ExternalRowSets → ℕ → Option (List Row)
find_rows [] slot = none
find_rows ((k, rows) ∷ sets) slot = if eqb k slot then some rows else find_rows sets slot

-- The text before the last dot, and after it.
unfoldable pub split_last_dot : String → Option (String × String)
split_last_dot String.[] = none
split_last_dot (String.◌∷◌ c s) =
    let here = if eqb (code c) b'.' then some (String.[], s) else none in
    elim (split_last_dot s) [
      | some (before, after) ↦ some (String.◌∷◌ c before, after)
      | none ↦ here
    ]

abbrev pub add_external_column : String → RowSchema → RowSchema
unfolding add split_last_dot
add_external_column col s = elim (split_last_dot col) [
  | none ↦ add none col s
  | some (table, name) ↦ add (some table) name s
]

unfoldable pub add_external_columns : List String → RowSchema → RowSchema
unfolding add split_last_dot
add_external_columns [] s = s
add_external_columns (c ∷ cs) s = add_external_columns cs (add_external_column c s)

unfoldable pub register_aggregates : List AggregateExpr → ℕ → RowSchema → RowSchema
unfolding register_aggregate
register_aggregates [] idx s = s
register_aggregates (a ∷ aggs) idx s =
    register_aggregates aggs (idx + 1) (register_aggregate a.func a.arg idx s)

unfoldable pub external_schema : List String → List Expression → List AggregateExpr → RowSchema
unfolding add_external_columns register_aggregates add split_last_dot register_aggregate
external_schema columns group_by aggs =
    register_aggregates aggs (length group_by) (add_external_columns columns empty_schema)

-- The constructor of ProjectExec, from index `i` on.
unfoldable pub project_columns : List (Expression × Option String) → ℕ → RowSchema → RowSchema
unfolding add expr_display_name
project_columns [] i s = s
project_columns ((e, alias) ∷ es) i s =
    project_columns es (i + 1) (add none (value_or alias (expr_display_name e i "expr")) s)

unfoldable pub project_schema : List (Expression × Option String) → RowSchema
unfolding project_columns add expr_display_name
project_schema es = project_columns es 0 empty_schema

-- The rows that an open executor holds.
abbrev pub stored : List Row → Stream
unfolding scan_next
stored rows = record { State = ℕ; next = scan_next rows; start = 0 }

abbrev pub expression_of : Expression × Option String → Expression
expression_of (e, alias) = e

abbrev pub on_table {ℓ} : {A : Type ℓ} → Option Table → (Table → A) → Result A
on_table none f = err no_table
on_table (some t) f = ok (f t)

module _ (d : Platform) (fuel : ℕ) where
  unfoldable pub seq_scan_exec : String → Table → Executor
  unfolding scan_schema scan_next
  seq_scan_exec qualifier t = record {
    schema = scan_schema qualifier t.column_names;
    opened = ok (stored t.rows);
  }

  unfoldable pub open_index : RowSchema → List Row → String → Expression → Result Stream
  unfolding evaluate resolve index_next
  open_index schema rows column probe_value = evaluate d probe_value [] empty_schema >>= λ probe.
      elim (resolve schema none column) [
        | none ↦ err no_index_column
        | some col ↦ ok (record { State = ℕ; next = index_next d rows col probe; start = 0 })
      ]

  unfoldable pub index_scan_exec : String → Table → String → Expression → Executor
  unfolding scan_schema open_index
  index_scan_exec qualifier t column probe_value =
      let schema = scan_schema qualifier t.column_names in
      record { schema = schema; opened = open_index schema t.rows column probe_value }

  unfoldable pub filter_exec : Expression → Executor → Executor
  unfolding filter_next
  filter_exec e input = record {
    schema = input.schema;
    opened = input.opened >>= λ s. ok (record {
      State = s.State;
      next = filter_next d e input.schema s.next fuel;
      start = s.start;
    });
  }

  unfoldable pub nested_loop_join_exec : Expression → Executor → Executor → Executor
  unfolding extend collect_rows join_next
  nested_loop_join_exec e left right =
      let schema = extend left.schema right.schema in
      record {
        schema = schema;
        opened = left.opened >>= λ l. right.opened >>= λ r.
            collect_rows r.next fuel r.start [] >>= λ rows. ok (record {
              State = JoinState l.State;
              next = join_next d e schema rows l.next fuel;
              start = record {
                left = l.start;
                current_left = none;
                right_pos = 0;
                left_exhausted = false;
              };
            });
      }

  unfoldable pub hash_join_of : Keys → Executor → Executor → Executor
  unfolding extend hash_build hash_next
  hash_join_of keys left right = record {
    schema = extend left.schema right.schema;
    opened = left.opened >>= λ l. right.opened >>= λ r.
        hash_build d keys.right_key right.schema r.next fuel r.start [] >>= λ build. ok (record {
          State = HashState l.State;
          next = hash_next d keys.left_key left.schema build l.next fuel;
          start = record { left = l.start; current_left = none; probe = []; probing = false };
        });
  }

  unfoldable pub hash_join_exec : Expression → Executor → Executor → Result Executor
  unfolding hash_keys hash_join_of extend hash_build hash_next
  hash_join_exec e left right =
      hash_keys left.schema right.schema e >>= λ keys. ok (hash_join_of keys left right)

  unfoldable pub hash_aggregate_exec : List Expression → List AggregateExpr → Executor → Executor
  unfolding aggregate_schema group_loop aggregate_results scan_next
  hash_aggregate_exec group_by aggs input = record {
    schema = aggregate_schema group_by aggs;
    opened = input.opened >>= λ s.
        group_loop d group_by aggs input.schema s.next fuel s.start [] >>= λ gs.
        ok (stored (aggregate_results d group_by aggs gs));
  }

  unfoldable pub project_exec : List (Expression × Option String) → Executor → Executor
  unfolding project_schema project_next
  project_exec es input = record {
    schema = project_schema es;
    opened = input.opened >>= λ s. ok (record {
      State = s.State;
      next = project_next d (map expression_of es) input.schema s.next;
      start = s.start;
    });
  }

  unfoldable pub sort_exec : List OrderByItem → Executor → Executor
  unfolding collect_rows comes_before scan_next
  sort_exec order_by input = record {
    schema = input.schema;
    opened = input.opened >>= λ s. collect_rows s.next fuel s.start [] >>= λ rows.
        d.sort (comes_before d order_by input.schema) rows >>= λ sorted. ok (stored sorted);
  }

  unfoldable pub limit_exec : ℕ → Executor → Executor
  unfolding limit_next
  limit_exec count input = record {
    schema = input.schema;
    opened = input.opened >>= λ s.
        ok (record { State = s.State × ℕ; next = limit_next count s.next; start = (s.start, 0) });
  }

  unfoldable pub join_exec : JoinKind → Expression → Executor → Executor → Result Executor
  unfolding nested_loop_join_exec hash_join_exec
  join_exec nested_loop_join e l r = ok (nested_loop_join_exec e l r)
  join_exec index_nested_loop_join e l r = ok (nested_loop_join_exec e l r)
  join_exec hash_join e l r = hash_join_exec e l r

  unfoldable pub external_exec : Option (List Row) → RowSchema → Result Executor
  unfolding scan_next
  external_exec none schema = err no_external_rows
  external_exec (some rows) schema = ok (record { schema = schema; opened = ok (stored rows) })

  unfoldable pub build_executor : Database → ExternalRowSets → PhysicalPlan → Result Executor
  unfolding get_table seq_scan_exec index_scan_exec filter_exec join_exec hash_aggregate_exec
      project_exec sort_exec limit_exec external_exec find_rows external_schema
  build_executor db external (seq_scan table alias cols est) =
      on_table (get_table db table) (seq_scan_exec (value_or alias table))
  build_executor db external (index_scan table alias cols column probe est) =
      on_table (get_table db table) (λ t. index_scan_exec (value_or alias table) t column probe)
  build_executor db external (filter e i est) =
      build_executor db external i >>= λ x. ok (filter_exec e x)
  build_executor db external (join kind type e l r est) = build_executor db external l >>= λ x.
      build_executor db external r >>= λ y. join_exec kind e x y
  build_executor db external (hash_aggregate g a i est) =
      build_executor db external i >>= λ x. ok (hash_aggregate_exec g a x)
  build_executor db external (project es i est) =
      build_executor db external i >>= λ x. ok (project_exec es x)
  build_executor db external (sort o i est) =
      build_executor db external i >>= λ x. ok (sort_exec o x)
  build_executor db external (limit n i est) =
      build_executor db external i >>= λ x. ok (limit_exec n x)
  build_executor db external (external_rows table cols slot g a est) =
      external_exec (find_rows external slot) (external_schema cols g a)

  unfoldable pub run_to_completion : Executor → Result (List Row)
  unfolding collect_rows
  run_to_completion x = x.opened >>= λ s. collect_rows s.next fuel s.start []
