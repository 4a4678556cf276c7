-- ===== src/Optimizer/Pipeline/Views.antt =====
-- The scans and the join conditions of a plan after the two pushdown rules.
use sql_query_optimizer.Prelude.{
  ℕ, ◌+◌, String, ◌≡◌, refl, sym, ap, ◌∙◌, Option, List, [], ◌∷◌, ◌++◌,
}
use mathlib.Core.Path.{ap₂}
use sql_query_optimizer.Prelude.Totals.{total, total-append}
use sql_query_optimizer.Ast.{Expression, JoinType}
use sql_query_optimizer.Plan.{LogicalPlan, scan, filter, join, aggregate, project, sort, limit}
use sql_query_optimizer.Plan.Views.{scans, join_conditions, table_of}
use sql_query_optimizer.Optimizer.Expressions.{split_and, scan_aliases}
use sql_query_optimizer.Optimizer.Predicates.{
  wrap_filters, distribute, push_into_join, push_filter, push_predicates,
}
use sql_query_optimizer.Optimizer.Projections.{push_projections}

-- A reading of plans by lists that looks through filters and depends on the sides of a join alone.
module _ {A : Type 0} (view : LogicalPlan → List A)
    (through : (e : Expression) (p : LogicalPlan) → view (filter e p) ≡ view p)
    (beside : (t : JoinType) (c : Expression) (l r l' r' : LogicalPlan)
      → view l ≡ view l'
      → view r ≡ view r'
      → view (join t c l r) ≡ view (join t c l' r')) where
  view-wrap_filters : (fs : List Expression) (p : LogicalPlan) → view (wrap_filters p fs) ≡ view p
  unfolding wrap_filters
  view-wrap_filters [] p = refl
  view-wrap_filters (f ∷ fs) p = view-wrap_filters fs (filter f p) ∙ through f p

  view-push_filter : (e : Expression) (p : LogicalPlan) → view (push_filter e p) ≡ view p
  unfolding push_filter push_into_join
  view-push_filter e (join t c l r) =
      let parts = distribute (scan_aliases l) (scan_aliases r) (split_and e) in
      view-wrap_filters parts.remaining _
      ∙ beside t c _ _ l r (view-wrap_filters parts.left_filters l)
          (view-wrap_filters parts.right_filters r)
  view-push_filter e (scan _ _ _) = through e _
  view-push_filter e (filter _ _) = through e _
  view-push_filter e (aggregate _ _ _) = through e _
  view-push_filter e (project _ _) = through e _
  view-push_filter e (sort _ _) = through e _
  view-push_filter e (limit _ _) = through e _

pub scans-push_predicates : (p : LogicalPlan) → scans (push_predicates p) ≡ scans p
unfolding push_predicates scans
scans-push_predicates (scan table alias cols) = refl
scans-push_predicates (filter e i) =
    view-push_filter scans (λ f p. refl) (λ t c l r l' r' h k. ap₂ ◌++◌ h k) e (push_predicates i)
    ∙ scans-push_predicates i
scans-push_predicates (join t c l r) = ap₂ ◌++◌ (scans-push_predicates l) (scans-push_predicates r)
scans-push_predicates (aggregate g a i) = scans-push_predicates i
scans-push_predicates (project es i) = scans-push_predicates i
scans-push_predicates (sort o i) = scans-push_predicates i
scans-push_predicates (limit n i) = scans-push_predicates i

pub join_conditions-push_predicates :
    (p : LogicalPlan) → join_conditions (push_predicates p) ≡ join_conditions p
unfolding push_predicates join_conditions
join_conditions-push_predicates (scan table alias cols) = refl
join_conditions-push_predicates (filter e i) =
    view-push_filter join_conditions (λ f p. refl)
      (λ t c l r l' r' h k. ap (λ cs. c ∷ cs) (ap₂ ◌++◌ h k)) e (push_predicates i)
    ∙ join_conditions-push_predicates i
join_conditions-push_predicates (join t c l r) =
    ap (λ cs. c ∷ cs)
      (ap₂ ◌++◌ (join_conditions-push_predicates l) (join_conditions-push_predicates r))
join_conditions-push_predicates (aggregate g a i) = join_conditions-push_predicates i
join_conditions-push_predicates (project es i) = join_conditions-push_predicates i
join_conditions-push_predicates (sort o i) = join_conditions-push_predicates i
join_conditions-push_predicates (limit n i) = join_conditions-push_predicates i

pub join_conditions-push_projections :
    (p : LogicalPlan) (needed : List String)
    → join_conditions (push_projections p needed) ≡ join_conditions p
unfolding push_projections join_conditions
join_conditions-push_projections (scan table alias cols) needed = refl
join_conditions-push_projections (filter e i) needed = join_conditions-push_projections i _
join_conditions-push_projections (join t c l r) needed =
    ap (λ cs. c ∷ cs)
      (ap₂ ◌++◌ (join_conditions-push_projections l _) (join_conditions-push_projections r _))
join_conditions-push_projections (aggregate g a i) needed = join_conditions-push_projections i _
join_conditions-push_projections (project es i) needed = join_conditions-push_projections i _
join_conditions-push_projections (sort o i) needed = join_conditions-push_projections i _
join_conditions-push_projections (limit n i) needed = join_conditions-push_projections i _

-- A weight of a table and its alias, over the scans of a plan.
abbrev pub table_weight : (String × Option String → ℕ) → LogicalPlan → ℕ
table_weight w p = total (λ s. w (table_of s)) (scans p)

pub table_weight-push_projections :
    (w : String × Option String → ℕ) (p : LogicalPlan) (needed : List String)
    → table_weight w (push_projections p needed) ≡ table_weight w p
unfolding push_projections scans
table_weight-push_projections w (scan table alias cols) needed = refl
table_weight-push_projections w (filter e i) needed = table_weight-push_projections w i _
table_weight-push_projections w (join t c l r) needed =
    total-append _ (scans (push_projections l _)) (scans (push_projections r _))
    ∙ ap₂ ◌+◌ (table_weight-push_projections w l _) (table_weight-push_projections w r _)
    ∙ sym (total-append _ (scans l) (scans r))
table_weight-push_projections w (aggregate g a i) needed = table_weight-push_projections w i _
table_weight-push_projections w (project es i) needed = table_weight-push_projections w i _
table_weight-push_projections w (sort o i) needed = table_weight-push_projections w i _
table_weight-push_projections w (limit n i) needed = table_weight-push_projections w i _
