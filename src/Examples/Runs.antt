-- ===== src/Examples/Runs.antt =====
-- Runs of the executors and of the partitioning over the example tables.
use sql_query_optimizer.Prelude.{◌<◌, true, false, ◌≡◌, refl, none, some, [], ◌∷◌, keep_if, arith}
use sql_query_optimizer.Prelude.Int.{negsuc}
use sql_query_optimizer.Prelude.Totals.{SameItems}
use sql_query_optimizer.Ast.{BinaryOperator, Literal, str, boolean, Expression, literal}
use sql_query_optimizer.Execution.Result.{ok}
use sql_query_optimizer.Execution.RowSchema.{RowSchema, extend}
use sql_query_optimizer.Execution.Eval.{evaluate, apply_binary}
use sql_query_optimizer.Execution.Meaning.{holds, join_rows}
use sql_query_optimizer.Execution.Nulls.{apply_binary-null}
use sql_query_optimizer.Execution.Streams.{Yields, collect_rows, collect_rows-finished}
use sql_query_optimizer.Execution.Operators.{scan_next, index_next, test, filter_next, join_next}
use sql_query_optimizer.Execution.Operators.Filters.{scan_next-Yields, filtered, filter_next-Yields}
use sql_query_optimizer.Execution.Operators.Index.{equal_at, index_next-Yields}
use sql_query_optimizer.Execution.Operators.Joins.{product, join_next-Yields}
use sql_query_optimizer.Execution.Operators.Agree.{join-runs}
use sql_query_optimizer.Partition.{
  partition_of, find_id, matches, partition_key_is_safe_for_group_by,
}
use sql_query_optimizer.Partition.Cover.{partitions, has_id, partition_of-lt, partitions-SameItems}
use sql_query_optimizer.Partition.{owns}
use sql_query_optimizer.Partition.Groups.{safe_key-same_group}
use sql_query_optimizer.Examples.Data.{
  doubles, number, users, user_rows, order_rows, of_table, equals_expr, user_schema,
}

abbrev is_ann : Expression
is_ann = equals_expr (of_table "u" "name") (literal (str "ann"))

abbrev scanned : Yields (scan_next user_rows) 0 user_rows none
scanned = scan_next-Yields user_rows 0

filter_next-Yields_example :
    Yields
      (filter_next doubles is_ann user_schema (scan_next user_rows) 4)
      0
      (filtered doubles is_ann user_schema user_rows none).0
      (filtered doubles is_ann user_schema user_rows none).1
filter_next-Yields_example =
    filter_next-Yields doubles is_ann user_schema (scan_next user_rows) 4 scanned (omega arith)

index_next-Yields_example :
    Yields
      (index_next doubles user_rows 0 (number 2))
      0
      (keep_if (equal_at doubles 0 (number 2)) user_rows)
      none
index_next-Yields_example =
    index_next-Yields doubles user_rows 0 (number 2)
      ((number 1, refl), ((number 2, refl), ((number 3, refl), tt)))

collect_rows-finished_example : collect_rows (scan_next user_rows) 4 0 [] ≡ ok user_rows
collect_rows-finished_example =
    collect_rows-finished (scan_next user_rows) 4 0 user_rows none scanned (omega arith)

abbrev both_schema : RowSchema
both_schema = extend user_schema (record {
  entries =
      record { table = some "o"; column = "oid" }
      ∷ record { table = some "o"; column = "user_id" }
      ∷ [];
  agg_entries = [];
})

abbrev same_user : Expression
same_user = equals_expr (of_table "u" "id") (of_table "o" "user_id")

join_next-Yields_example :
    Yields
      (join_next doubles same_user both_schema order_rows (scan_next user_rows) 4)
      (record { left = 0; current_left = none; right_pos = 0; left_exhausted = false })
      (filtered doubles same_user both_schema (product user_rows order_rows) none).0
      (filtered doubles same_user both_schema (product user_rows order_rows) none).1
join_next-Yields_example =
    join_next-Yields doubles same_user both_schema order_rows (scan_next user_rows) 3 scanned
      (omega arith)

join-runs_example :
    collect_rows
      (join_next doubles same_user both_schema order_rows (scan_next user_rows) 4)
      7
      (record { left = 0; current_left = none; right_pos = 0; left_exhausted = false })
      []
    ≡ ok (join_rows (holds doubles same_user both_schema) user_rows order_rows)
unfolding filtered test evaluate extend
join-runs_example =
    join-runs doubles same_user both_schema (scan_next user_rows) 0 user_rows order_rows 3 7 scanned
      refl (omega arith) (omega arith)

apply_binary-null_example :
    apply_binary doubles BinaryOperator.neq (number 3) Literal.null ≡ ok (boolean true)
apply_binary-null_example = apply_binary-null doubles BinaryOperator.neq (number 3) tt

negative_id : partition_of (negsuc 6) 3 ≡ 2
unfolding partition_of
negative_id = refl

partition_of-lt_example : partition_of (negsuc 6) 3 < 3
partition_of-lt_example = partition_of-lt (negsuc 6) 3 (omega arith)

partitions-SameItems_example : SameItems (partitions users 2 2) (keep_if (has_id 0) user_rows)
unfolding find_id
partitions-SameItems_example = partitions-SameItems users 0 2 refl (omega arith)

safe_key-same_group_example :
    owns 0 1 2 (number 5 ∷ str "ann" ∷ []) ≡ owns 0 1 2 (number 5 ∷ str "bob" ∷ [])
unfolding partition_key_is_safe_for_group_by matches evaluate
safe_key-same_group_example =
    safe_key-same_group doubles (record { table = some "u"; column_name = "id" })
      (of_table "u" "id" ∷ []) user_schema (number 5 ∷ str "ann" ∷ []) (number 5 ∷ str "bob" ∷ []) 0
      1 2 refl refl (refl, tt)
