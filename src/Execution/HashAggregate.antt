-- ===== src/Execution/HashAggregate.antt =====
-- execution/operators.cpp, HashAggregateExec: grouping and aggregate functions. The map of groups is
-- the list of its entries in the order in which the keys are first seen, which is `group_order`. The
-- four vectors of `AccState` are one list with a record for each aggregate.
pub mod Groups
pub mod Results
use sql_query_optimizer.Prelude.{
  ℕ, zero, suc, ◌+◌, String, Bool, true, false, ◌||◌, ◌==◌, Option, none, some, List, [], ◌∷◌, ◌++◌,
  length, ltb, value_or, if◌then◌else◌,
}
use Prim.Native.String.{◌++◌ as ◌+++◌}
use sql_query_optimizer.Prelude.Int.{pos}
use sql_query_optimizer.Prelude.Text.{int_to_string}
use sql_query_optimizer.Ast.{Double, Literal, integer, floating, null, Expression, column, wildcard}
use sql_query_optimizer.Plan.{AggregateExpr}
use sql_query_optimizer.Execution.Result.{Result, ok, err, ◌>>=◌, unknown_aggregate, out_of_fuel}
use sql_query_optimizer.Execution.Values.{
  Platform, literal_is_null, literal_as_double, literal_less, literal_to_string,
}
use sql_query_optimizer.Execution.RowSchema.{RowSchema, empty_schema, add, register_aggregate, size}
use sql_query_optimizer.Execution.Eval.{Row, evaluate}
use sql_query_optimizer.Execution.Streams.{Next}
use sql_query_optimizer.Execution.Operators.{project_row}

pub record Acc : Type 0 where
  pub sum : Double
  pub count : ℕ
  pub min : Option Literal
  pub max : Option Literal

pub record AccState : Type 0 where
  pub group_key : Row
  pub accs : List Acc

abbrev pub Groups : Type 0
Groups = List (String × AccState)

abbrev pub fresh_acc : Acc
fresh_acc = record { sum = 0; count = 0; min = none; max = none }

abbrev pub fresh_accs : List AggregateExpr → List Acc
fresh_accs [] = []
fresh_accs (agg ∷ aggs) = fresh_acc ∷ fresh_accs aggs

abbrev pub fresh_state : List AggregateExpr → Row → AccState
fresh_state aggs key = record { group_key = key; accs = fresh_accs aggs }

abbrev is_wildcard : Expression → Bool
is_wildcard wildcard = true
is_wildcard _ = false

unfoldable pub expr_display_name : Expression → ℕ → String → String
unfolding int_to_string
expr_display_name (column table name) i fallback_prefix = name
expr_display_name _ i fallback_prefix = fallback_prefix +++ int_to_string (pos i)

unfoldable pub expr_display_table : Expression → Option String
expr_display_table (column table name) = table
expr_display_table _ = none

-- The constructor: the columns of the groups, then those of the aggregates.
abbrev group_columns : List Expression → ℕ → RowSchema → RowSchema
unfolding expr_display_name expr_display_table add
group_columns [] i s = s
group_columns (g ∷ gs) i s =
    group_columns gs (i + 1) (add (expr_display_table g) (expr_display_name g i "g") s)

abbrev aggregate_columns : List AggregateExpr → ℕ → RowSchema → RowSchema
unfolding int_to_string add register_aggregate size
aggregate_columns [] i s = s
aggregate_columns (agg ∷ aggs) i s =
    let name = value_or agg.alias (agg.func +++ ("_" +++ int_to_string (pos i))) in
    aggregate_columns aggs (i + 1) (register_aggregate agg.func agg.arg (size s) (add none name s))

unfoldable pub aggregate_schema : List Expression → List AggregateExpr → RowSchema
unfolding expr_display_name expr_display_table add int_to_string register_aggregate size
aggregate_schema group_by aggs = aggregate_columns aggs 0 (group_columns group_by 0 empty_schema)

module _ (d : Platform) where
  abbrev keep_min : Literal → Acc → Option Literal → Result Acc
  keep_min v acc none = ok (record acc { min = some v })
  keep_min v acc (some m) =
      literal_less d v m >>= λ b. ok (if b then record acc { min = some v } else acc)

  abbrev keep_max : Literal → Acc → Option Literal → Result Acc
  keep_max v acc none = ok (record acc { max = some v })
  keep_max v acc (some m) =
      literal_less d m v >>= λ b. ok (if b then record acc { max = some v } else acc)

  -- One aggregate at a value that is not NULL; COUNT has been seen to.
  abbrev add_value : String → Literal → Acc → Result Acc
  add_value func v acc =
      if func == "SUM" || func == "AVG"
      then (literal_as_double d v >>= λ x.
          ok (record acc { sum = d.add acc.sum x; count = acc.count + 1 }))
      else if func == "MIN"
      then keep_min v acc acc.min
      else if func == "MAX"
      then keep_max v acc acc.max
      else err unknown_aggregate

  unfoldable pub accumulate : AggregateExpr → RowSchema → Row → Acc → Result Acc
  unfolding evaluate literal_is_null literal_as_double literal_less
  accumulate agg schema row acc =
      if agg.func == "COUNT"
      then (if is_wildcard agg.arg
          then ok (record acc { count = acc.count + 1 })
          else (evaluate d agg.arg row schema >>= λ v.
              ok (if literal_is_null v then acc else record acc { count = acc.count + 1 })))
      else (evaluate d agg.arg row schema >>= λ v.
          if literal_is_null v then ok acc else add_value agg.func v acc)

  unfoldable pub accumulate_all :
      List AggregateExpr → RowSchema → Row → List Acc → Result (List Acc)
  unfolding accumulate
  accumulate_all (agg ∷ aggs) schema row (acc ∷ accs) = accumulate agg schema row acc >>= λ acc'.
      accumulate_all aggs schema row accs >>= λ accs'. ok (acc' ∷ accs')
  accumulate_all _ schema row accs = ok accs

  unfoldable pub add_row : List AggregateExpr → RowSchema → Row → AccState → Result AccState
  unfolding accumulate_all
  add_row aggs schema row st =
      accumulate_all aggs schema row st.accs >>= λ accs. ok (record st { accs = accs })

  -- The text of a group key.
  unfoldable pub key_text : Row → String
  unfolding literal_to_string
  key_text [] = ""
  key_text (v ∷ vs) = literal_to_string d v +++ ("\u{1f}" +++ key_text vs)

  -- `groups[key_str]`, made if it is missing, takes the row.
  unfoldable pub update_group :
      List AggregateExpr → RowSchema → Row → String → Row → Groups → Result Groups
  unfolding add_row
  update_group aggs schema row k key [] =
      add_row aggs schema row (fresh_state aggs key) >>= λ st. ok ((k, st) ∷ [])
  update_group aggs schema row k key ((k', st) ∷ gs) =
      let rest = update_group aggs schema row k key gs in
      if k' == k
      then (add_row aggs schema row st >>= λ st'. ok ((k', st') ∷ gs))
      else (rest >>= λ gs'. ok ((k', st) ∷ gs'))

  unfoldable pub group_row :
      List Expression → List AggregateExpr → RowSchema → Row → Groups → Result Groups
  unfolding project_row key_text update_group
  group_row group_by aggs schema row gs = project_row d group_by schema row >>= λ key.
      update_group aggs schema row (key_text key) key gs

  -- The loop of `open_impl`; `fuel` bounds its rounds.
  unfoldable pub group_loop :
      {S : Type 0}
      → List Expression
      → List AggregateExpr
      → RowSchema
      → Next S
      → ℕ
      → S
      → Groups
      → Result Groups
  unfolding group_row
  group_loop group_by aggs schema next zero s gs = err out_of_fuel
  group_loop group_by aggs schema next (suc fuel) s gs = next s >>= λ r. elim r.0 [
    | none ↦ ok gs
    | some row ↦ group_row group_by aggs schema row gs >>= λ gs'.
        group_loop group_by aggs schema next fuel r.1 gs'
  ]

  -- The values of one aggregate in the output row; an unknown function has none.
  unfoldable pub aggregate_value : String → Acc → Row
  aggregate_value func acc =
      if func == "COUNT"
      then integer (pos acc.count) ∷ []
      else if func == "SUM"
      then floating acc.sum ∷ []
      else if func == "AVG"
      then floating (if ltb 0 acc.count then d.div acc.sum (d.of_int (pos acc.count)) else 0) ∷ []
      else if func == "MIN"
      then value_or acc.min null ∷ []
      else if func == "MAX"
      then value_or acc.max null ∷ []
      else []

  unfoldable pub aggregate_values : List AggregateExpr → List Acc → Row
  unfolding aggregate_value
  aggregate_values (agg ∷ aggs) (acc ∷ accs) =
      aggregate_value agg.func acc ++ aggregate_values aggs accs
  aggregate_values _ _ = []

  unfoldable pub group_results : List AggregateExpr → Groups → List Row
  unfolding aggregate_values
  group_results aggs [] = []
  group_results aggs ((k, st) ∷ gs) =
      (st.group_key ++ aggregate_values aggs st.accs) ∷ group_results aggs gs

  -- The value of an aggregate over no rows at all.
  abbrev empty_value : String → Literal
  empty_value func =
      if func == "COUNT" then integer (pos 0) else if func == "SUM" then floating 0 else null

  abbrev pub empty_row : List AggregateExpr → Row
  empty_row [] = []
  empty_row (agg ∷ aggs) = empty_value agg.func ∷ empty_row aggs

  abbrev add_empty_row : List Expression → List AggregateExpr → List Row → List Row
  add_empty_row [] aggs [] = empty_row aggs ∷ []
  add_empty_row group_by aggs results = results

  -- `results_`, from which `next_impl` reads like a scan.
  unfoldable pub aggregate_results : List Expression → List AggregateExpr → Groups → List Row
  unfolding group_results
  aggregate_results group_by aggs gs = add_empty_row group_by aggs (group_results aggs gs)
