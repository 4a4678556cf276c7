-- ===== src/Execution/Operators/Agree.antt =====
-- The rows that the executors return, against the reference meaning.
use sql_query_optimizer.Prelude.{
  ℕ, suc, ◌<◌, ◌≡◌, refl, ap, ◌∙◌, Bool, none, List, [], ◌∷◌, length, keep_if, keep_if-append,
  arith,
}
use sql_query_optimizer.Ast.{Expression}
use sql_query_optimizer.Execution.Result.{ok}
use sql_query_optimizer.Execution.Values.{Platform}
use sql_query_optimizer.Execution.RowSchema.{RowSchema}
use sql_query_optimizer.Execution.Eval.{Row}
use sql_query_optimizer.Execution.Meaning.{holds, pair_rows, join_rows}
use sql_query_optimizer.Execution.Streams.{Next, Yields, collect_rows, collect_rows-finished}
use sql_query_optimizer.Execution.Operators.{join_next}
use sql_query_optimizer.Execution.Operators.Filters.{filtered, filtered-holds}
use sql_query_optimizer.Execution.Operators.Joins.{cross, product, join_next-Yields}

keep_if-cross :
    (p : Row → Bool) (l : Row) (rs : List Row) → keep_if p (cross l rs) ≡ pair_rows p l rs
unfolding pair_rows
keep_if-cross p l [] = refl
keep_if-cross p l (r ∷ rs) = ground (arith, keep_if-cross p l rs)

pub keep_if-product :
    (p : Row → Bool) (ls rs : List Row) → keep_if p (product ls rs) ≡ join_rows p ls rs
unfolding join_rows
keep_if-product p [] rs = refl
keep_if-product p (l ∷ ls) rs =
    keep_if-append p (cross l rs) (product ls rs)
    ∙ rw (keep_if-cross p l rs, keep_if-product p ls rs)

-- A nested loop join whose left input gives `ls` and ends, and on no pair of whose rows the
-- condition throws, runs to completion and returns the rows of the join: for each left row in order
-- the pairs with the right rows, in order, on which the condition is TRUE.
pub join-runs :
    (d : Platform) (e : Expression) (schema : RowSchema) {S : Type 0} (next : Next S) (s : S)
    (ls rs : List Row) (fuel rounds : ℕ)
    → Yields next s ls none
    → (filtered d e schema (product ls rs) none).1 ≡ none
    → length ls < suc fuel
    → length (filtered d e schema (product ls rs) none).0 < rounds
    → collect_rows
        (join_next d e schema rs next (suc fuel))
        rounds
        (record { left = s; current_left = none; right_pos = 0; left_exhausted = Bool.false })
        []
      ≡ ok (join_rows (holds d e schema) ls rs)
join-runs d e schema next s ls rs fuel rounds y quiet h k =
    collect_rows-finished (join_next d e schema rs next (suc fuel)) rounds _
      (filtered d e schema (product ls rs) none).0 (filtered d e schema (product ls rs) none).1
      (join_next-Yields d e schema rs next fuel y h) k
    ∙ rw quiet (
        ap ok (
          filtered-holds d e schema (product ls rs) quiet
          ∙ keep_if-product (holds d e schema) ls rs))
