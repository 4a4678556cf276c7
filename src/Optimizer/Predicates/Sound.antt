-- ===== src/Optimizer/Predicates/Sound.antt =====
-- Predicate pushdown and the rows of a plan.
use sql_query_optimizer.Prelude.{
  String, true, false, ◌&&◌, ◌≡◌, refl, sym, ap, ◌∙◌, List, [], ◌∷◌, ◌++◌, length, All, arith,
}
use sql_query_optimizer.Ast.{Expression, JoinType}
use sql_query_optimizer.Plan.{LogicalPlan, scan, filter, join, aggregate, project, sort, limit}
use sql_query_optimizer.Storage.{Database, AreRectangular}
use sql_query_optimizer.Execution.Result.{Result, ok, err, ◌>>=◌, map_ok}
use sql_query_optimizer.Execution.Values.{Platform}
use sql_query_optimizer.Execution.RowSchema.{RowSchema, extend}
use sql_query_optimizer.Execution.Eval.{Row}
use sql_query_optimizer.Execution.Meaning.{
  Relation, UpperNodes, is_true, holds, holds_all, restrict, combine, meaning,
}
use sql_query_optimizer.Execution.Sides.{Fits, evaluate-left, evaluate-right}
use sql_query_optimizer.Optimizer.Expressions.{split_and, scan_aliases}
use sql_query_optimizer.Optimizer.Predicates.{
  distribute, refers_to, wrap_filters, push_into_join, push_filter, push_predicates,
}
use sql_query_optimizer.Optimizer.Predicates.Split.{
  holds_all-split_and, restrict_all, meaning-wrap_filters,
}
use sql_query_optimizer.Optimizer.Predicates.Scopes.{
  IsJoinBlock, JoinsOverBlocks, IsJoinBlock-JoinsOverBlocks, IsUniform, Under, refers_to-ApartFrom,
  refers_to-IsQualified,
}
use sql_query_optimizer.Optimizer.Predicates.Shape.{push_predicates-JoinsOverBlocks}
use sql_query_optimizer.Optimizer.Predicates.Blocks.{InBlock, Succeeds, meaning-InBlock}
use sql_query_optimizer.Optimizer.Predicates.Joins.{keep_if-join_rows}

-- The condition on a predicate that stands above a join: no conjunct mixes qualified and
-- unqualified columns.
abbrev pub HasUniformFilters : LogicalPlan → Type 0
HasUniformFilters (scan _ _ _) = Unit
HasUniformFilters (filter e i) = All IsUniform (split_and e) × HasUniformFilters i
HasUniformFilters (join _ _ l r) = HasUniformFilters l × HasUniformFilters r
HasUniformFilters (aggregate _ _ i) = HasUniformFilters i
HasUniformFilters (project _ i) = HasUniformFilters i
HasUniformFilters (sort _ i) = HasUniformFilters i
HasUniformFilters (limit _ i) = HasUniformFilters i

module _ (d : Platform) (la ra : List String) (L R : RowSchema) (hl : Under la L.entries)
    (hr : Under ra R.entries) (l r : Row) (fl : Fits L l) (fr : Fits R r) where
  holds-left :
      (e : Expression)
      → IsUniform e
      → refers_to la e ≡ true
      → refers_to ra e ≡ false
      → holds d e (extend L R) (l ++ r) ≡ holds d e L l
  unfolding holds
  holds-left e u on off = ap is_true (
      evaluate-left d L R l r fl fr e
        (refers_to-ApartFrom ra R.entries e hr (refers_to-IsQualified la e u on) off))

  holds-right :
      (e : Expression)
      → IsUniform e
      → refers_to ra e ≡ true
      → refers_to la e ≡ false
      → holds d e (extend L R) (l ++ r) ≡ holds d e R r
  unfolding holds
  holds-right e u on off = ap is_true (
      evaluate-right d L R l r fl fr e
        (refers_to-ApartFrom la L.entries e hl (refers_to-IsQualified ra e u on) off))

  -- The three lists together hold exactly when all conjuncts do.
  holds_all-distribute :
      (cs : List Expression)
      → All IsUniform cs
      → holds_all d cs (extend L R) (l ++ r) ≡ (
          holds_all d (distribute la ra cs).left_filters L l
          && (holds_all d (distribute la ra cs).right_filters R r
              && holds_all d (distribute la ra cs).remaining (extend L R) (l ++ r)))
  unfolding distribute holds_all
  holds_all-distribute [] h = refl
  holds_all-distribute (c ∷ cs) h =
      ground (arith, holds_all-distribute cs h.1, holds-left c h.0, holds-right c h.0)

module _ (d : Platform) (u : UpperNodes) (db : Database) (rect : AreRectangular db) where
  -- The rows of the two sides, of the join and of the filter above it.
  restrict-combine :
      (la ra : List String) (e c : Expression) (a b : Relation)
      → All IsUniform (split_and e)
      → InBlock la a
      → InBlock ra b
      → restrict_all d (distribute la ra (split_and e)).remaining (
          combine d c
            (restrict_all d (distribute la ra (split_and e)).left_filters a)
            (restrict_all d (distribute la ra (split_and e)).right_filters b))
        ≡ restrict d e (combine d c a b)
  unfolding restrict_all restrict combine
  restrict-combine la ra e c a b uniform ha hb =
      let S = extend a.schema b.schema in
      let parts = distribute la ra (split_and e) in
      ap (λ rows. record { schema = S; rows = rows })
        (sym (
          keep_if-join_rows (λ l. length l ≡ length a.schema.entries)
            (λ r. length r ≡ length b.schema.entries) (holds d c S) (holds d e S)
            (holds_all d parts.left_filters a.schema) (holds_all d parts.right_filters b.schema)
            (holds_all d parts.remaining S)
            (λ l r wl wr.
              sym (holds_all-split_and d e S (l ++ r))
              ∙ holds_all-distribute d la ra a.schema b.schema ha.under hb.under l r
                  (record { width = wl; plain = ha.plain })
                  (record { width = wr; plain = hb.plain }) (split_and e) uniform)
            a.rows b.rows ha.wide hb.wide))

  push_into_join-meaning :
      (e : Expression) (t : JoinType) (c : Expression) (l r : LogicalPlan)
      → All IsUniform (split_and e)
      → IsJoinBlock l
      → IsJoinBlock r
      → meaning d u db (push_into_join e t c l r)
        ≡ map_ok (restrict d e) (meaning d u db (join t c l r))
  unfolding push_into_join
  push_into_join-meaning e t c l r uniform hl hr =
      let parts = distribute (scan_aliases l) (scan_aliases r) (split_and e) in
      meaning-wrap_filters d u db
        (join t c (wrap_filters l parts.left_filters) (wrap_filters r parts.right_filters))
        parts.remaining
      ∙ unfold meaning in
        rw
          (
            meaning-wrap_filters d u db l parts.left_filters,
            meaning-wrap_filters d u db r parts.right_filters,
          )
          (sides (meaning d u db l) (meaning d u db r) (meaning-InBlock d u db rect l hl)
            (meaning-InBlock d u db rect r hr))
    where
      sides :
          (x y : Result Relation)
          → Succeeds (InBlock (scan_aliases l)) x
          → Succeeds (InBlock (scan_aliases r)) y
          → map_ok
              (restrict_all d
                (distribute (scan_aliases l) (scan_aliases r) (split_and e)).remaining)
              (map_ok
                  (restrict_all d
                    (distribute (scan_aliases l) (scan_aliases r) (split_and e)).left_filters)
                  x
                >>= λ a.
                    map_ok
                      (restrict_all d
                        (distribute (scan_aliases l) (scan_aliases r) (split_and e)).right_filters)
                      y
                    >>= λ b. ok (combine d c a b))
            ≡ map_ok (restrict d e) (x >>= λ a. y >>= λ b. ok (combine d c a b))
      sides (ok a) (ok b) ha hb =
          ap ok (restrict-combine (scan_aliases l) (scan_aliases r) e c a b uniform ha hb)
      sides (ok a) (err f) ha hb = refl
      sides (err f) y ha hb = refl

  push_filter-meaning :
      (e : Expression) (p : LogicalPlan)
      → All IsUniform (split_and e)
      → JoinsOverBlocks p
      → meaning d u db (push_filter e p) ≡ map_ok (restrict d e) (meaning d u db p)
  unfolding push_filter meaning
  push_filter-meaning e (join t c l r) uniform h = push_into_join-meaning e t c l r uniform h.0 h.1
  push_filter-meaning e _ uniform h = refl

  -- Over a database of rectangular tables, and for a plan whose joins stand over scans, filters and
  -- joins and none of whose filter conjuncts mixes qualified with unqualified columns, pushdown
  -- changes neither the schema nor the rows nor their order, whatever the nodes above compute.
  pub push_predicates-meaning :
      (p : LogicalPlan)
      → JoinsOverBlocks p
      → HasUniformFilters p
      → meaning d u db (push_predicates p) ≡ meaning d u db p
  unfolding push_predicates meaning
  push_predicates-meaning (scan table alias cols) h k = refl
  push_predicates-meaning (filter e i) h k =
      push_filter-meaning e (push_predicates i) k.0 (push_predicates-JoinsOverBlocks i h)
      ∙ ap (map_ok (restrict d e)) (push_predicates-meaning i h k.1)
  push_predicates-meaning (join t c l r) h k = rw (
    push_predicates-meaning l (IsJoinBlock-JoinsOverBlocks l h.0) k.0,
    push_predicates-meaning r (IsJoinBlock-JoinsOverBlocks r h.1) k.1,
  )
  push_predicates-meaning (aggregate g a i) h k = rw (push_predicates-meaning i h k)
  push_predicates-meaning (project es i) h k = rw (push_predicates-meaning i h k)
  push_predicates-meaning (sort o i) h k = rw (push_predicates-meaning i h k)
  push_predicates-meaning (limit n i) h k = rw (push_predicates-meaning i h k)
