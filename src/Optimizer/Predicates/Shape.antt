-- ===== src/Optimizer/Predicates/Shape.antt =====
-- The shape of a plan after predicate pushdown.
use sql_query_optimizer.Prelude.{List, [], ◌∷◌}
use sql_query_optimizer.Ast.{Expression, JoinType}
use sql_query_optimizer.Plan.{LogicalPlan, scan, filter, join, aggregate, project, sort, limit}
use sql_query_optimizer.Optimizer.Expressions.{split_and, scan_aliases}
use sql_query_optimizer.Optimizer.Predicates.{
  distribute, wrap_filters, push_into_join, push_filter, push_predicates,
}
use sql_query_optimizer.Optimizer.Predicates.Scopes.{
  IsJoinBlock, JoinsOverBlocks, IsJoinBlock-JoinsOverBlocks,
}

wrap_filters-IsJoinBlock :
    (fs : List Expression) (p : LogicalPlan) → IsJoinBlock p → IsJoinBlock (wrap_filters p fs)
unfolding wrap_filters
wrap_filters-IsJoinBlock [] p h = h
wrap_filters-IsJoinBlock (f ∷ fs) p h = wrap_filters-IsJoinBlock fs (filter f p) h

push_into_join-IsJoinBlock :
    (e : Expression) (t : JoinType) (c : Expression) (l r : LogicalPlan)
    → IsJoinBlock l
    → IsJoinBlock r
    → IsJoinBlock (push_into_join e t c l r)
unfolding push_into_join
push_into_join-IsJoinBlock e t c l r hl hr =
    let parts = distribute (scan_aliases l) (scan_aliases r) (split_and e) in
    wrap_filters-IsJoinBlock parts.remaining
      (join t c (wrap_filters l parts.left_filters) (wrap_filters r parts.right_filters))
      (
        wrap_filters-IsJoinBlock parts.left_filters l hl,
        wrap_filters-IsJoinBlock parts.right_filters r hr,
      )

push_filter-IsJoinBlock :
    (e : Expression) (p : LogicalPlan) → IsJoinBlock p → IsJoinBlock (push_filter e p)
unfolding push_filter
push_filter-IsJoinBlock e (join t c l r) h = push_into_join-IsJoinBlock e t c l r h.0 h.1
push_filter-IsJoinBlock e (scan _ _ _) h = h
push_filter-IsJoinBlock e (filter _ i) h = h
push_filter-IsJoinBlock e _ h = absurd h

pub push_predicates-IsJoinBlock :
    (p : LogicalPlan) → IsJoinBlock p → IsJoinBlock (push_predicates p)
unfolding push_predicates
push_predicates-IsJoinBlock (scan _ _ _) h = h
push_predicates-IsJoinBlock (filter e i) h =
    push_filter-IsJoinBlock e (push_predicates i) (push_predicates-IsJoinBlock i h)
push_predicates-IsJoinBlock (join t c l r) h =
    (push_predicates-IsJoinBlock l h.0, push_predicates-IsJoinBlock r h.1)
push_predicates-IsJoinBlock _ h = absurd h

push_filter-JoinsOverBlocks :
    (e : Expression) (p : LogicalPlan) → JoinsOverBlocks p → JoinsOverBlocks (push_filter e p)
unfolding push_filter
push_filter-JoinsOverBlocks e (join t c l r) h =
    IsJoinBlock-JoinsOverBlocks (push_into_join e t c l r)
      (push_into_join-IsJoinBlock e t c l r h.0 h.1)
push_filter-JoinsOverBlocks e _ h = h

pub push_predicates-JoinsOverBlocks :
    (p : LogicalPlan) → JoinsOverBlocks p → JoinsOverBlocks (push_predicates p)
unfolding push_predicates
push_predicates-JoinsOverBlocks (scan _ _ _) h = h
push_predicates-JoinsOverBlocks (filter e i) h =
    push_filter-JoinsOverBlocks e (push_predicates i) (push_predicates-JoinsOverBlocks i h)
push_predicates-JoinsOverBlocks (join t c l r) h =
    (push_predicates-IsJoinBlock l h.0, push_predicates-IsJoinBlock r h.1)
push_predicates-JoinsOverBlocks (aggregate _ _ i) h = push_predicates-JoinsOverBlocks i h
push_predicates-JoinsOverBlocks (project _ i) h = push_predicates-JoinsOverBlocks i h
push_predicates-JoinsOverBlocks (sort _ i) h = push_predicates-JoinsOverBlocks i h
push_predicates-JoinsOverBlocks (limit _ i) h = push_predicates-JoinsOverBlocks i h
