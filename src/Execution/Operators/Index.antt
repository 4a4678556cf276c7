-- ===== src/Execution/Operators/Index.antt =====
-- What the index scan executor yields.
use sql_query_optimizer.Prelude.{
  ℕ, ◌+◌, ◌≡◌, refl, sym, ap, ◌∙◌, Bool, true, false, Option, none, some, List, [], ◌∷◌, get_elem?,
  drop, drop-cons, keep_if, All, arith, Bool-cases, inl, inr,
}
use native.Mathlib.Numerals.{add-one}
use sql_query_optimizer.Ast.{Literal}
use sql_query_optimizer.Execution.Result.{ok}
use sql_query_optimizer.Execution.Values.{Platform, literal_equal}
use sql_query_optimizer.Execution.Eval.{Row}
use sql_query_optimizer.Execution.Streams.{Yields, ends, gives, Yields-same_step}
use sql_query_optimizer.Execution.Operators.{index_next, index_next_from}

-- The row has a value at the column, and that value equals the probe.
abbrev pub HasColumn : ℕ → Row → Type 0
HasColumn col row = (v : Literal) × (get_elem? row col ≡ some v)

abbrev pub equals : Platform → Literal → Option Literal → Bool
equals d probe none = false
equals d probe (some v) = literal_equal d v probe

abbrev pub equal_at : Platform → ℕ → Literal → Row → Bool
equal_at d col probe row = equals d probe (get_elem? row col)

module _ (d : Platform) where
  index-hit :
      (x : Row) (xs : List Row) (col : ℕ) (probe v : Literal) (pos : ℕ)
      → get_elem? x col ≡ some v
      → literal_equal d v probe ≡ true
      → index_next_from d (x ∷ xs) col probe pos ≡ ok (some x, pos + 1)
  unfolding index_next_from
  index-hit x xs col probe v pos found same = ground arith

  index-miss :
      (x : Row) (xs : List Row) (col : ℕ) (probe v : Literal) (pos : ℕ)
      → get_elem? x col ≡ some v
      → literal_equal d v probe ≡ false
      → index_next_from d (x ∷ xs) col probe pos ≡ index_next_from d xs col probe (pos + 1)
  unfolding index_next_from
  index-miss x xs col probe v pos found differ = ground arith

  index_from :
      (rows : List Row) (col : ℕ) (probe : Literal) (xs : List Row) (pos : ℕ)
      → All (HasColumn col) xs
      → drop pos rows ≡ xs
      → Yields (index_next d rows col probe) pos (keep_if (equal_at d col probe) xs) none
  unfolding index_next
  index_from rows col probe [] pos w h = ends {s' = pos} (rw (h, index_next))
  index_from rows col probe (x ∷ xs) pos (hx, w) h =
      let (v, found) = hx in
      let (_, next_rows) = drop-cons pos rows x xs h in
      let tail_rows : drop (pos + 1) rows ≡ xs = rw add-one next_rows in
      let rest = index_from rows col probe xs (pos + 1) w tail_rows in
      elim (Bool-cases (literal_equal d v probe)) [
        | inl same ↦
            rw (found, same)
              (gives {s' = pos + 1}
                (ap (λ r. index_next_from d r col probe pos) h
                  ∙ index-hit x xs col probe v pos found same)
                rest)
        | inr differ ↦
            rw (found, differ)
              (Yields-same_step (index_next d rows col probe)
                (ap (λ r. index_next_from d r col probe pos) h
                  ∙ index-miss x xs col probe v pos found differ
                  ∙ ap (λ r. index_next_from d r col probe (pos + 1)) (sym tail_rows))
                rest)
      ]

  -- An index scan over rows that all have the indexed column yields what a scan with an equality
  -- test would: the rows whose column equals the probe, in order.
  pub index_next-Yields :
      (rows : List Row) (col : ℕ) (probe : Literal)
      → All (HasColumn col) rows
      → Yields (index_next d rows col probe) 0 (keep_if (equal_at d col probe) rows) none
  index_next-Yields rows col probe w = index_from rows col probe rows 0 w refl
