-- ===== src/Execution/Sort/Order.antt =====
-- The comparison by ORDER BY items.
use sql_query_optimizer.Prelude.{true, false, ◌≡◌, refl, List, ◌∷◌}
use sql_query_optimizer.Ast.{null, Expression, OrderByItem}
use sql_query_optimizer.Execution.Result.{ok}
use sql_query_optimizer.Execution.Values.{Platform, literal_equal, literal_less}
use sql_query_optimizer.Execution.RowSchema.{RowSchema}
use sql_query_optimizer.Execution.Eval.{Row, evaluate}
use sql_query_optimizer.Execution.Sort.{item_before, comes_before}

-- On two rows whose descending sort key is NULL, each comes before the other, a row also before
-- itself: the comparison is no strict weak order, as `std::sort` demands.
pub comes_before-null :
    (d : Platform) (key : Expression) (items : List OrderByItem) (schema : RowSchema) (a b : Row)
    → evaluate d key a schema ≡ ok null
    → evaluate d key b schema ≡ ok null
    → (comes_before d (record { sort_key = key; ascending = false } ∷ items) schema a b ≡ ok true)
      × (comes_before d (record { sort_key = key; ascending = false } ∷ items) schema b a ≡ ok true)
unfolding comes_before item_before literal_equal literal_less
comes_before-null d key items schema a b p q = (rw (p, q) refl, rw (q, p) refl)
