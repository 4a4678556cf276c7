-- ===== src/Optimizer/Predicates/Split.antt =====
-- The conjuncts of a predicate, and a stack of filters.
use sql_query_optimizer.Prelude.{
  true, ◌&&◌, ◌≡◌, refl, sym, ap, ◌∙◌, List, [], ◌∷◌, ◌++◌, keep_if, keep_if-keep_if, arith,
}
use sql_query_optimizer.Ast.{BinaryOperator, Expression, binary_op, Literal}
use sql_query_optimizer.Plan.{LogicalPlan, filter}
use sql_query_optimizer.Storage.{Database}
use sql_query_optimizer.Execution.Result.{Result, ok, err, map_ok, ◌>>=◌}
use sql_query_optimizer.Execution.Values.{Platform, literal_truthy}
use sql_query_optimizer.Execution.RowSchema.{RowSchema}
use sql_query_optimizer.Execution.Eval.{Row, evaluate, both_true, apply_binary}
use sql_query_optimizer.Execution.Meaning.{
  Relation, UpperNodes, is_true, holds, holds_all, restrict, meaning,
}
use sql_query_optimizer.Optimizer.Expressions.{split_and}
use sql_query_optimizer.Optimizer.Predicates.{wrap_filters}

module _ (d : Platform) where
  holds_all-append :
      (es fs : List Expression) (s : RowSchema) (row : Row)
      → holds_all d (es ++ fs) s row ≡ (holds_all d es s row && holds_all d fs s row)
  unfolding holds_all
  holds_all-append [] fs s row = refl
  holds_all-append (e ∷ es) fs s row = ground (arith, holds_all-append es fs s row)

  both_true_lem :
      (x y : Result Literal)
      → is_true (x >>= λ v. y >>= λ w. both_true d v w) ≡ (is_true x && is_true y)
  unfolding both_true literal_truthy
  both_true_lem x y = ground arith

  holds-and :
      (l r : Expression) (s : RowSchema) (row : Row)
      → holds d (binary_op l BinaryOperator.and r) s row ≡ (holds d l s row && holds d r s row)
  unfolding holds evaluate apply_binary
  holds-and l r s row = both_true_lem (evaluate d l row s) (evaluate d r row s)

  -- A predicate is TRUE on a row exactly when each of the conjuncts that the optimizer splits it into
  -- is.
  pub holds_all-split_and :
      (e : Expression) (s : RowSchema) (row : Row)
      → holds_all d (split_and e) s row ≡ holds d e s row
  unfolding split_and holds_all
  holds_all-split_and (binary_op l BinaryOperator.and r) s row =
      holds_all-append (split_and l) (split_and r) s row
      ∙ ground
          (arith, holds_all-split_and l s row, holds_all-split_and r s row, holds-and l r s row)
  holds_all-split_and e s row = ground arith

  -- The relation of a plan with `fs` stacked on top.
  unfoldable pub restrict_all : List Expression → Relation → Relation
  restrict_all fs rel = record rel { rows = keep_if (holds_all d fs rel.schema) rel.rows }

  restrict_all-cons :
      (f : Expression) (fs : List Expression) (rel : Relation)
      → restrict_all fs (restrict d f rel) ≡ restrict_all (f ∷ fs) rel
  unfolding restrict_all restrict holds_all
  restrict_all-cons f fs rel =
      ap (λ rows. record rel { rows = rows })
        (keep_if-keep_if (holds d f rel.schema) (holds_all d fs rel.schema) rel.rows)

  keep_if-all_true : (rows : List Row) → keep_if (λ _. true) rows ≡ rows
  keep_if-all_true [] = refl
  keep_if-all_true (r ∷ rows) = ap (λ rest. r ∷ rest) (keep_if-all_true rows)

  restrict_all-nil : (rel : Relation) → restrict_all [] rel ≡ rel
  unfolding restrict_all holds_all
  restrict_all-nil rel = ap (λ rows. record rel { rows = rows }) (keep_if-all_true rel.rows)

  map_ok-restrict_all :
      (f : Expression) (fs : List Expression) (x : Result Relation)
      → map_ok (restrict_all fs) (map_ok (restrict d f) x) ≡ map_ok (restrict_all (f ∷ fs)) x
  map_ok-restrict_all f fs (ok rel) = ap ok (restrict_all-cons f fs rel)
  map_ok-restrict_all f fs (err e) = refl

  map_ok-nil : (x : Result Relation) → map_ok (restrict_all []) x ≡ x
  map_ok-nil (ok rel) = ap ok (restrict_all-nil rel)
  map_ok-nil (err e) = refl

  pub meaning-wrap_filters :
      (u : UpperNodes) (db : Database) (q : LogicalPlan) (fs : List Expression)
      → meaning d u db (wrap_filters q fs) ≡ map_ok (restrict_all fs) (meaning d u db q)
  unfolding wrap_filters meaning
  meaning-wrap_filters u db q [] = sym (map_ok-nil (meaning d u db q))
  meaning-wrap_filters u db q (f ∷ fs) =
      meaning-wrap_filters u db (filter f q) fs ∙ map_ok-restrict_all f fs (meaning d u db q)
