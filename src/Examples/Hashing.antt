-- ===== src/Examples/Hashing.antt =====
-- Runs of the hash join, the hash aggregate and the sort over the example tables.
use sql_query_optimizer.Prelude.{
  ℕ, String, true, false, ◌≡◌, refl, none, some, List, [], ◌∷◌, ◌++◌, length, arith,
}
use sql_query_optimizer.Prelude.Int.{pos}
use sql_query_optimizer.Prelude.Totals.{SameItems}
use sql_query_optimizer.Prelude.Totals.{SameItems}
use sql_query_optimizer.Ast.{integer, str, null, Expression, OrderByItem}
use sql_query_optimizer.Plan.{AggregateExpr}
use sql_query_optimizer.Execution.Result.{ok, ◌>>=◌}
use sql_query_optimizer.Execution.RowSchema.{RowSchema, extend}
use sql_query_optimizer.Execution.Eval.{Row, evaluate}
use sql_query_optimizer.Execution.Meaning.{holds, join_rows}
use sql_query_optimizer.Execution.Sides.{Fits}
use sql_query_optimizer.Execution.Streams.{Yields, collect_rows}
use sql_query_optimizer.Execution.Operators.{scan_next}
use sql_query_optimizer.Execution.Operators.Filters.{scan_next-Yields}
use sql_query_optimizer.Execution.HashJoin.{hash_build, hash_next}
use sql_query_optimizer.Execution.HashJoin.Yields.{hashed, hash_next-Yields}
use sql_query_optimizer.Execution.HashJoin.Agree.{hash_join-runs}
use sql_query_optimizer.Execution.HashJoin.Nulls.{hash_join-null}
use sql_query_optimizer.Execution.HashAggregate.{
  AccState, Groups, fresh_acc, group_loop, group_row, aggregate_results,
}
use sql_query_optimizer.Execution.HashAggregate.Groups.{
  lookup, group_rows, group_loop-group_rows, one_group, group_rows-one_group,
}
use sql_query_optimizer.Execution.HashAggregate.Results.{count_star, count_star-length}
use sql_query_optimizer.Execution.Sort.{comes_before}
use sql_query_optimizer.Execution.Sort.Order.{comes_before-null}
use sql_query_optimizer.Examples.Data.{
  doubles, number, user_rows, of_table, equals_expr, user_schema,
}

abbrev visit_rows : List Row
visit_rows =
    (str "eve" ∷ str "home" ∷ [])
    ∷ (str "ann" ∷ str "cart" ∷ [])
    ∷ (str "eve" ∷ str "cart" ∷ [])
    ∷ []

abbrev visit_schema : RowSchema
visit_schema = record {
  entries =
      record { table = some "v"; column = "who" }
      ∷ record { table = some "v"; column = "page" }
      ∷ [];
  agg_entries = [];
}

abbrev scan_users : Yields (scan_next user_rows) 0 user_rows none
scan_users = scan_next-Yields user_rows 0

abbrev scan_visits : Yields (scan_next visit_rows) 0 visit_rows none
scan_visits = scan_next-Yields visit_rows 0

abbrev plain :
    {s : RowSchema} {row : Row} → length row ≡ length s.entries → s.agg_entries ≡ [] → Fits s row
plain h k = record { width = h; plain = k }

hash_next-Yields_example :
    Yields
      (hash_next doubles
        (of_table "u" "name")
        user_schema
        (("ann", []) ∷ [])
        (scan_next user_rows)
        4)
      (record { left = 0; current_left = none; probe = []; probing = false })
      (hashed doubles (of_table "u" "name") user_schema (("ann", []) ∷ []) user_rows none).0
      (hashed doubles (of_table "u" "name") user_schema (("ann", []) ∷ []) user_rows none).1
hash_next-Yields_example =
    hash_next-Yields doubles (of_table "u" "name") user_schema (("ann", []) ∷ [])
      (scan_next user_rows) 3 scan_users (omega arith)

abbrev name_is_who : Expression
name_is_who = equals_expr (of_table "u" "name") (of_table "v" "who")

hash_join-runs_example :
    (out : List Row) × ((hash_build doubles
          (of_table "v" "who")
          visit_schema
          (scan_next visit_rows)
          4
          0
          []
        >>= λ build.
            collect_rows
              (hash_next doubles (of_table "u" "name") user_schema build (scan_next user_rows) 4)
              9
              (record { left = 0; current_left = none; probe = []; probing = false })
              [])
      ≡ ok out)
    × SameItems out (
        join_rows
          (holds doubles name_is_who (extend user_schema visit_schema))
          user_rows
          visit_rows)
unfolding evaluate extend holds join_rows
hash_join-runs_example =
    hash_join-runs doubles (of_table "u" "name") (of_table "v" "who") user_schema visit_schema
      (refl, (refl, tt)) (refl, (refl, tt)) (λ build key w. refl) (scan_next user_rows)
      (scan_next visit_rows) 0 0 user_rows visit_rows 3 4 9
      (plain refl refl, (plain refl refl, (plain refl refl, tt)))
      (("ann", refl), (("bob", refl), (("eve", refl), tt)))
      (plain refl refl, (plain refl refl, (plain refl refl, tt)))
      (("eve", refl), (("ann", refl), (("eve", refl), tt))) scan_users scan_visits (omega arith)
      (omega arith) (omega arith)

abbrev nameless : Row
nameless = number 4 ∷ null ∷ []

abbrev anonymous : Row
anonymous = null ∷ str "home" ∷ []

hash_join-null_example :
    (hash_build doubles (of_table "v" "who") visit_schema (scan_next (anonymous ∷ [])) 2 0 []
      ≡ ok (("<null>", anonymous) ∷ []))
    × (hashed doubles
          (of_table "u" "name")
          user_schema
          (("<null>", anonymous) ∷ [])
          (nameless ∷ [])
          none
        ≡ ((nameless ++ anonymous) ∷ [], none))
    × (holds doubles name_is_who (extend user_schema visit_schema) (nameless ++ anonymous) ≡ false)
unfolding evaluate
hash_join-null_example =
    hash_join-null doubles (of_table "u" "name") (of_table "v" "who") user_schema visit_schema
      (refl, (refl, tt)) (refl, (refl, tt)) nameless anonymous (plain refl refl) (plain refl refl)
      (scan_next (anonymous ∷ [])) 0 refl refl refl (scan_next-Yields (anonymous ∷ []) 0)

abbrev by_who : List Expression
by_who = of_table "v" "who" ∷ []

abbrev counts : List AggregateExpr
counts = record { func = "COUNT"; arg = Expression.wildcard; alias = none } ∷ []

group_loop-group_rows_example :
    group_loop doubles by_who counts visit_schema (scan_next visit_rows) 4 0 []
    ≡ group_rows doubles by_who counts visit_schema visit_rows none []
group_loop-group_rows_example =
    group_loop-group_rows doubles by_who counts visit_schema (scan_next visit_rows) 4 [] scan_visits
      (omega arith)

grouped :
    (group_rows doubles by_who counts visit_schema visit_rows none [] >>= λ gs.
    ok (aggregate_results doubles by_who counts gs))
    ≡ ok ((str "eve" ∷ number 2 ∷ []) ∷ (str "ann" ∷ number 1 ∷ []) ∷ [])
unfolding group_rows group_row aggregate_results evaluate
grouped = refl

abbrev counted : String → ℕ → AccState
counted who n = record { group_key = str who ∷ []; accs = record fresh_acc { count = n } ∷ [] }

abbrev groups : Groups
groups = ("eve\u{1f}", counted "eve" 2) ∷ ("ann\u{1f}", counted "ann" 1) ∷ []

group_rows-one_group_example :
    one_group doubles by_who counts visit_schema "eve\u{1f}" visit_rows none
    ≡ ok (some (counted "eve" 2))
unfolding group_rows group_row evaluate lookup
group_rows-one_group_example =
    group_rows-one_group doubles by_who counts visit_schema "eve\u{1f}" visit_rows [] groups refl

abbrev total_groups : Groups
total_groups = ("", record { group_key = []; accs = record fresh_acc { count = 3 } ∷ [] }) ∷ []

count_star-length_example :
    (group_rows doubles [] (count_star ∷ []) visit_schema visit_rows none [] >>= λ gs.
    ok (aggregate_results doubles [] (count_star ∷ []) gs))
    ≡ ok ((integer (pos 3) ∷ []) ∷ [])
count_star-length_example = count_star-length doubles visit_schema visit_rows

abbrev by_id : List OrderByItem
by_id = record { sort_key = of_table "u" "id"; ascending = false } ∷ []

comes_before-null_example :
    (comes_before doubles
        (record { sort_key = of_table "u" "name"; ascending = false } ∷ [])
        user_schema
        nameless
        nameless
      ≡ ok true)
    × (comes_before doubles
          (record { sort_key = of_table "u" "name"; ascending = false } ∷ [])
          user_schema
          nameless
          nameless
        ≡ ok true)
unfolding evaluate
comes_before-null_example =
    comes_before-null doubles (of_table "u" "name") [] user_schema nameless nameless refl refl
