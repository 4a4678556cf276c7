-- ===== src/Optimizer/Predicates/Joins.antt =====
-- Filters over the rows of a join.
use sql_query_optimizer.Prelude.{
  Bool, true, false, ◌&&◌, ◌≡◌, refl, sym, ◌∙◌, List, [], ◌∷◌, ◌++◌, All, keep_if, keep_if-append,
  arith, Bool-cases, inl, inr,
}
use sql_query_optimizer.Execution.Eval.{Row}
use sql_query_optimizer.Execution.Meaning.{pair_rows, join_rows}

module _ (P Q : Row → Type 0) (keep q a b m : Row → Bool)
    (splits : (l r : Row) → P l → Q r → q (l ++ r) ≡ (a l && (b r && m (l ++ r)))) where
  pair_rows-pass :
      (l : Row) (rs : List Row)
      → a l ≡ true
      → P l
      → All Q rs
      → keep_if q (pair_rows keep l rs) ≡ keep_if m (pair_rows keep l (keep_if b rs))
  unfolding pair_rows
  pair_rows-pass l [] t p h = refl
  pair_rows-pass l (r ∷ rs) t p h = ground (arith, pair_rows-pass l rs t p h.1, splits l r p h.0)

  pair_rows-drop :
      (l : Row) (rs : List Row)
      → a l ≡ false
      → P l
      → All Q rs
      → keep_if q (pair_rows keep l rs) ≡ []
  unfolding pair_rows
  pair_rows-drop l [] t p h = refl
  pair_rows-drop l (r ∷ rs) t p h = ground (arith, pair_rows-drop l rs t p h.1, splits l r p h.0)

  pub keep_if-join_rows :
      (ls rs : List Row)
      → All P ls
      → All Q rs
      → keep_if q (join_rows keep ls rs) ≡ keep_if m (join_rows keep (keep_if a ls) (keep_if b rs))
  unfolding join_rows
  keep_if-join_rows [] rs h k = refl
  keep_if-join_rows (l ∷ ls) rs h k =
      keep_if-append q (pair_rows keep l rs) (join_rows keep ls rs) ∙ elim (Bool-cases (a l)) [
        | inl e ↦
            rw (pair_rows-pass l rs e h.0 k, keep_if-join_rows ls rs h.1 k, e)
              (sym (
                keep_if-append m (pair_rows keep l (keep_if b rs))
                  (join_rows keep (keep_if a ls) (keep_if b rs))))
        | inr e ↦ rw (pair_rows-drop l rs e h.0 k, keep_if-join_rows ls rs h.1 k, e)
      ]
