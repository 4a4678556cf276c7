-- ===== src/Planner/Shape.antt =====
-- The shape of the plans that the planner makes.
use sql_query_optimizer.Prelude.{
  ℕ, String, Bool, true, false, ◌≡◌, sym, ◌∙◌, Option, none, some, List, [], ◌∷◌, ◌++◌,
  if◌then◌else◌, append_assoc', append_nil,
}
use sql_query_optimizer.Ast.{Expression, Join, SelectStatement, OrderByItem}
use sql_query_optimizer.Plan.{
  LogicalPlan, scan, filter, join, aggregate, project, sort, limit, AggregateExpr,
}
use sql_query_optimizer.Plan.Views.{scans}
use sql_query_optimizer.Planner.{fold_joins, source_plan, plan, add_filter, add_sort, add_limit}
use sql_query_optimizer.Optimizer.Predicates.Scopes.{
  IsJoinBlock, JoinsOverBlocks, IsJoinBlock-JoinsOverBlocks,
}

fold_joins-IsJoinBlock :
    (p : LogicalPlan) (js : List Join) → IsJoinBlock p → IsJoinBlock (fold_joins p js)
unfolding fold_joins
fold_joins-IsJoinBlock p [] h = h
fold_joins-IsJoinBlock p (j ∷ js) h =
    fold_joins-IsJoinBlock
      (join j.join_type j.condition p (scan j.table.table_name j.table.alias [])) js (h, tt)

pub source_plan-IsJoinBlock : (s : SelectStatement) → IsJoinBlock (source_plan s)
unfolding source_plan
source_plan-IsJoinBlock s =
    filtered s.where_clause _
      (fold_joins-IsJoinBlock (scan s.from.table_name s.from.alias []) s.joins tt)
  where
    filtered :
        (o : Option Expression) (p : LogicalPlan) → IsJoinBlock p → IsJoinBlock (add_filter o p)
    filtered none p h = h
    filtered (some e) p h = h

module _ (P : LogicalPlan → Type 0) where
  add_filter-keeps :
      (o : Option Expression) (p : LogicalPlan)
      → ((e : Expression) (i : LogicalPlan) → P i → P (filter e i))
      → P p
      → P (add_filter o p)
  add_filter-keeps none p f h = h
  add_filter-keeps (some e) p f h = f e p h

  add_sort-keeps :
      (os : List OrderByItem) (p : LogicalPlan)
      → ((o : List OrderByItem) (i : LogicalPlan) → P i → P (sort o i))
      → P p
      → P (add_sort os p)
  add_sort-keeps [] p f h = h
  add_sort-keeps (o ∷ os) p f h = f (o ∷ os) p h

  add_limit-keeps :
      (o : Option ℕ) (p : LogicalPlan)
      → ((n : ℕ) (i : LogicalPlan) → P i → P (limit n i))
      → P p
      → P (add_limit o p)
  add_limit-keeps none p f h = h
  add_limit-keeps (some n) p f h = f n p h

  if-keeps : (b : Bool) (p q : LogicalPlan) → P p → P q → P (if b then p else q)
  if-keeps true p q h k = h
  if-keeps false p q h k = k

-- A property of plans that the source of a statement has and that the nodes above keep.
pub plan-keeps :
    (P : LogicalPlan → Type 0) (s : SelectStatement)
    → P (source_plan s)
    → ((e : Expression) (i : LogicalPlan) → P i → P (filter e i))
    → ((g : List Expression) (a : List AggregateExpr) (i : LogicalPlan) → P i → P (aggregate g a i))
    → ((o : List OrderByItem) (i : LogicalPlan) → P i → P (sort o i))
    → ((n : ℕ) (i : LogicalPlan) → P i → P (limit n i))
    → ((es : List (Expression × Option String)) (i : LogicalPlan) → P i → P (project es i))
    → P (plan s)
unfolding plan
plan-keeps P s source on_filter on_aggregate on_sort on_limit on_project =
    let grouped =
      if-keeps P _ (aggregate s.group_by _ (source_plan s)) (source_plan s)
        (on_aggregate _ _ _ source) source in
    let finished =
      add_limit-keeps P s.limit _ on_limit
        (add_sort-keeps P s.order_by _ on_sort (add_filter-keeps P s.having _ on_filter grouped)) in
    if-keeps P _ (project _ _) _ (on_project _ _ finished) finished

-- Every plan of the planner has its joins over scans, filters and joins.
pub plan-JoinsOverBlocks : (s : SelectStatement) → JoinsOverBlocks (plan s)
plan-JoinsOverBlocks s =
    plan-keeps JoinsOverBlocks s
      (IsJoinBlock-JoinsOverBlocks (source_plan s) (source_plan-IsJoinBlock s)) (λ e i h. h)
      (λ g a i h. h) (λ o i h. h) (λ n i h. h) (λ es i h. h)

abbrev pub joined_scans : List Join → List (String × Option String × List String)
joined_scans [] = []
joined_scans (j ∷ js) = (j.table.table_name, j.table.alias, []) ∷ joined_scans js

scans-fold_joins :
    (p : LogicalPlan) (js : List Join) → scans (fold_joins p js) ≡ scans p ++ joined_scans js
unfolding scans fold_joins
scans-fold_joins p [] = sym (append_nil (scans p))
scans-fold_joins p (j ∷ js) =
    scans-fold_joins (join j.join_type j.condition p (scan j.table.table_name j.table.alias [])) js
    ∙ append_assoc' (scans p) _ (joined_scans js)

scans-source_plan :
    (s : SelectStatement)
    → scans (source_plan s) ≡ (s.from.table_name, s.from.alias, []) ∷ joined_scans s.joins
unfolding source_plan scans
scans-source_plan s =
    add_filter-keeps (λ p. scans p ≡ (s.from.table_name, s.from.alias, []) ∷ joined_scans s.joins)
      s.where_clause _ (λ e i h. h)
      (scans-fold_joins (scan s.from.table_name s.from.alias []) s.joins)

-- A plan reads the FROM table and then each joined table, in the order of the query, each once and
-- all its columns.
pub scans-plan :
    (s : SelectStatement)
    → scans (plan s) ≡ (s.from.table_name, s.from.alias, []) ∷ joined_scans s.joins
unfolding scans
scans-plan s =
    plan-keeps (λ p. scans p ≡ (s.from.table_name, s.from.alias, []) ∷ joined_scans s.joins) s
      (scans-source_plan s) (λ e i h. h) (λ g a i h. h) (λ o i h. h) (λ n i h. h) (λ es i h. h)
