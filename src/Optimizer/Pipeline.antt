-- ===== src/Optimizer/Pipeline.antt =====
-- `optimize` on the plans that the planner makes: all the rules, one after the other.
pub mod Views
use sql_query_optimizer.Prelude.{
  ℕ, ◌+◌, ◌*◌, String, ◌≡◌, refl, sym, ap, ◌∙◌, Option, none, some, List, [], ◌∷◌, ◌++◌, map,
  length, arith,
}
use mathlib.Core.Path.{ap₂}
use sql_query_optimizer.Prelude.Totals.{total, total-append, SameItems}
use sql_query_optimizer.Ast.{Expression, JoinType, Join, SelectStatement}
use sql_query_optimizer.Plan.{LogicalPlan, scan, filter, join, aggregate, project, sort, limit}
use sql_query_optimizer.Plan.Views.{scans, join_conditions, table_of}
use sql_query_optimizer.Schema.{Catalog}
use sql_query_optimizer.Storage.{Database, AreRectangular}
use sql_query_optimizer.Planner.{plan, fold_joins, source_plan, add_filter}
use sql_query_optimizer.Planner.Shape.{plan-keeps, plan-JoinsOverBlocks, scans-plan, joined_scans}
use sql_query_optimizer.Execution.Values.{Platform}
use sql_query_optimizer.Execution.Meaning.{UpperNodes, meaning}
use sql_query_optimizer.Optimizer.{optimize}
use sql_query_optimizer.Optimizer.Expressions.{split_and, scan_aliases}
use sql_query_optimizer.Optimizer.Predicates.{
  wrap_filters, distribute, push_into_join, push_filter, push_predicates,
}
use sql_query_optimizer.Optimizer.Predicates.Sound.{HasUniformFilters, push_predicates-meaning}
use sql_query_optimizer.Optimizer.Projections.{push_projections}
use sql_query_optimizer.Optimizer.Reorder.{true_literal}
use sql_query_optimizer.Optimizer.Reorder.Sources.{Reordered, reorder_joins-Reordered}
use Views.{
  scans-push_predicates, join_conditions-push_predicates, join_conditions-push_projections,
  table_weight, table_weight-push_projections,
}

total-map :
    {A B : Type 0} (w : B → ℕ) (f : A → B) (xs : List A)
    → total w (map f xs) ≡ total (λ x. w (f x)) xs
total-map w f [] = refl
total-map w f (x ∷ xs) = ap (λ n. w (f x) + n) (total-map w f xs)

-- What a statement reads and joins on.
abbrev pub statement_tables : SelectStatement → List (String × Option String)
statement_tables s =
    (s.from.table_name, s.from.alias) ∷ map (λ j. (j.table.table_name, j.table.alias)) s.joins

abbrev pub on_conditions : SelectStatement → List Expression
on_conditions s = map (λ j. j.condition) s.joins

joined_scans-weight :
    (w : String × Option String → ℕ) (js : List Join)
    → total (λ x. w (table_of x)) (joined_scans js)
      ≡ total w (map (λ j. (j.table.table_name, j.table.alias)) js)
joined_scans-weight w [] = refl
joined_scans-weight w (j ∷ js) =
    ap (λ n. w (j.table.table_name, j.table.alias) + n) (joined_scans-weight w js)

fold_joins-weight :
    (v : Expression → ℕ) (p : LogicalPlan) (js : List Join)
    → total v (join_conditions (fold_joins p js))
      ≡ total v (join_conditions p) + total v (map (λ j. j.condition) js)
unfolding fold_joins join_conditions
fold_joins-weight v p [] = omega arith
fold_joins-weight v p (j ∷ js) = omega (
  arith,
  fold_joins-weight v (join j.join_type j.condition p (scan j.table.table_name j.table.alias []))
      js,
  total-append v (join_conditions p) [],
)

add_filter-weight :
    (v : Expression → ℕ) (o : Option Expression) (p : LogicalPlan)
    → total v (join_conditions (add_filter o p)) ≡ total v (join_conditions p)
unfolding join_conditions
add_filter-weight v none p = refl
add_filter-weight v (some e) p = refl

source_plan-weight :
    (v : Expression → ℕ) (s : SelectStatement)
    → total v (join_conditions (source_plan s)) ≡ total v (on_conditions s)
unfolding source_plan join_conditions
source_plan-weight v s = omega (
  arith,
  add_filter-weight v s.where_clause (fold_joins (scan s.from.table_name s.from.alias []) s.joins),
  fold_joins-weight v (scan s.from.table_name s.from.alias []) s.joins,
)

plan-weight :
    (v : Expression → ℕ) (s : SelectStatement)
    → total v (join_conditions (plan s)) ≡ total v (on_conditions s)
unfolding join_conditions
plan-weight v s =
    plan-keeps (λ p. total v (join_conditions p) ≡ total v (on_conditions s)) s
      (source_plan-weight v s) (λ e i h. h) (λ g a i h. h) (λ o i h. h) (λ n i h. h) (λ es i h. h)

-- A plan for the statement: it reads the statement's tables, and joins on its ON conditions, where
-- each of the dropped ones is replaced by TRUE.
pub record PlanFor (s : SelectStatement) (r : Option LogicalPlan) : Type 0 where
  pub result : LogicalPlan
  pub returned : r ≡ some result
  pub same_tables : SameItems (map table_of (scans result)) (statement_tables s)
  pub dropped : List Expression
  pub same_conditions :
      (v : Expression → ℕ)
      → total v (join_conditions result) + total v dropped
        ≡ total v (on_conditions s) + length dropped * v true_literal

-- Planning and optimizing a statement never fails. The plan reads each table of the FROM clause as
-- often as the statement does, under the same aliases, and its join conditions are the statement's ON
-- conditions, but for some that are dropped: each of these gives way to the condition TRUE.
pub optimize-PlanFor : (s : SelectStatement) (cat : Catalog) → PlanFor s (optimize (plan s) cat)
unfolding optimize
optimize-PlanFor s cat =
    let pushed = push_predicates (plan s) in
    let o = reorder_joins-Reordered (push_projections pushed []) cat in
    record {
      result = o.result;
      returned = o.returned;
      same_tables = λ w.
          total-map w table_of (scans o.result)
          ∙ o.same_scans (λ x. w (table_of x))
          ∙ table_weight-push_projections w pushed []
          ∙ ap (total (λ x. w (table_of x))) (scans-push_predicates (plan s) ∙ scans-plan s)
          ∙ ap (λ n. w (s.from.table_name, s.from.alias) + n) (joined_scans-weight w s.joins);
      dropped = o.dropped;
      same_conditions = λ v.
          o.same_conditions v
          ∙ ap (λ n. n + length o.dropped * v true_literal)
              (ap (total v) (
                  join_conditions-push_projections pushed []
                  ∙ join_conditions-push_predicates (plan s))
                ∙ plan-weight v s);
    }
