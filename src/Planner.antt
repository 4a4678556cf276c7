-- ===== src/Planner.antt =====
-- logical/planner.cpp: from a SELECT statement to a logical plan.
-- `alias_map_` is written by `register_alias` and read by nothing, so `plan` leaves it out.
pub mod Shape
use sql_query_optimizer.Prelude.{
  ℕ, String, Bool, true, false, not, ◌&&◌, ◌||◌, Option, none, some, List, [], ◌∷◌, ◌==◌, any,
  if◌then◌else◌,
}
use sql_query_optimizer.Prelude.Text.{to_upper}
use sql_query_optimizer.Ast.{
  Expression, Expressions, nil, cons, function, wildcard, SelectItem, Join, SelectStatement,
  OrderByItem,
}
use sql_query_optimizer.Plan.{
  AggregateExpr, LogicalPlan, scan, filter, join, aggregate, project, sort, limit,
}

unfoldable pub is_aggregate_function : String → Bool
is_aggregate_function name = any (λ f. f == name) ("SUM" ∷ "COUNT" ∷ "AVG" ∷ "MIN" ∷ "MAX" ∷ [])

-- `args.empty() ? Wildcard : args.front()`
abbrev pub first_arg : Expressions → Expression
first_arg nil = wildcard
first_arg (cons e _) = e

pub record SplitList : Type 0 where
  pub plain : List (Expression × Option String)
  pub aggs : List AggregateExpr

abbrev add_plain : Expression → Option String → SplitList → SplitList
add_plain e alias r = record r { plain = (e, alias) ∷ r.plain }

abbrev add_aggregate : String → Expressions → Option String → SplitList → SplitList
add_aggregate upper args alias r = record r {
  aggs = record { func = upper; arg = first_arg args; alias = alias } ∷ r.aggs;
}

unfoldable pub split_item : SelectItem → SplitList → SplitList
unfolding to_upper is_aggregate_function
split_item SelectItem.any_column r = r
split_item (SelectItem.qualified_wildcard _) r = r
split_item (SelectItem.expression (function name args) alias) r =
    if is_aggregate_function (to_upper name)
    then add_aggregate (to_upper name) args alias r
    else add_plain (function name args) alias r
split_item (SelectItem.expression e alias) r = add_plain e alias r

unfoldable pub split_select_list : List SelectItem → SplitList
unfolding split_item
split_select_list [] = record { plain = []; aggs = [] }
split_select_list (item ∷ items) = split_item item (split_select_list items)

-- Step 3: the left-deep tree of joins.
unfoldable pub fold_joins : LogicalPlan → List Join → LogicalPlan
fold_joins p [] = p
fold_joins p (j ∷ js) =
    fold_joins (join j.join_type j.condition p (scan j.table.table_name j.table.alias [])) js

abbrev is_empty {ℓ} : {A : Type ℓ} → List A → Bool
is_empty [] = true
is_empty (_ ∷ _) = false

abbrev pub is_wildcard : SelectItem → Bool
is_wildcard (SelectItem.expression _ _) = false
is_wildcard _ = true

abbrev pub add_filter : Option Expression → LogicalPlan → LogicalPlan
add_filter none p = p
add_filter (some e) p = filter e p

abbrev pub add_sort : List OrderByItem → LogicalPlan → LogicalPlan
add_sort [] p = p
add_sort (o ∷ os) p = sort (o ∷ os) p

abbrev pub add_limit : Option ℕ → LogicalPlan → LogicalPlan
add_limit none p = p
add_limit (some n) p = limit n p

-- Steps 2 to 4: the scans, the joins and the WHERE filter.
unfoldable pub source_plan : SelectStatement → LogicalPlan
unfolding fold_joins
source_plan s =
    add_filter s.where_clause (fold_joins (scan s.from.table_name s.from.alias []) s.joins)

unfoldable pub plan : SelectStatement → LogicalPlan
unfolding source_plan split_select_list
plan s =
    let lists = split_select_list s.columns in
    let has_aggregates : Bool = not (is_empty lists.aggs) in
    let has_group_by : Bool = not (is_empty s.group_by) in
    let grouped : LogicalPlan =
      if has_aggregates || has_group_by
      then aggregate s.group_by lists.aggs (source_plan s)
      else source_plan s in
    let finished : LogicalPlan =
      add_limit s.limit (add_sort s.order_by (add_filter s.having grouped)) in
    let is_wildcard_only : Bool = not (any (λ c. not (is_wildcard c)) s.columns) in
    if not is_wildcard_only && not has_aggregates then project lists.plain finished else finished
