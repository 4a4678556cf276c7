-- ===== src/Execution/Operators/Filters.antt =====
-- What the scan, filter, project and limit executors yield.
use sql_query_optimizer.Prelude.{
  ℕ, zero, suc, ◌+◌, ◌<◌, ◌≡◌, refl, ◌∙◌, Bool, true, false, Option, none, some, List, [], ◌∷◌,
  length, drop, drop-nil, drop-cons, keep_if, arith, leb, if◌then◌else◌, inl, inr,
}
use native.Mathlib.Numerals.{add-one}
use sql_query_optimizer.Ast.{Literal, Expression}
use sql_query_optimizer.Execution.Result.{Result, Error, ok, err, ◌>>=◌, Result-cases}
use sql_query_optimizer.Execution.Values.{Platform, literal_truthy}
use sql_query_optimizer.Execution.RowSchema.{RowSchema}
use sql_query_optimizer.Execution.Eval.{Row, evaluate}
use sql_query_optimizer.Execution.Meaning.{holds, is_true}
use sql_query_optimizer.Execution.Streams.{Next, Yields, ends, fails, gives, Yields-same_step}
use sql_query_optimizer.Execution.Operators.{
  scan_next, test, filter_next, project_row, project_next, limit_next,
}

-- Rows, and how the stream ends after them.
abbrev pub Outcome : Type 0
Outcome = List Row × Option Error

abbrev pub after : Row → Outcome → Outcome
after row o = (row ∷ o.0, o.1)

scan_from :
    (rows : List Row) (xs : List Row) (pos : ℕ)
    → drop pos rows ≡ xs
    → Yields (scan_next rows) pos xs none
unfolding scan_next
scan_from rows [] pos h = ends {s' = pos} (rw (drop-nil pos rows h, scan_next))
scan_from rows (x ∷ xs) pos h =
    let (found, rest) = drop-cons pos rows x xs h in
    gives {s' = pos + 1} (rw (found, scan_next)) (scan_from rows xs (pos + 1) (rw add-one rest))

-- A scan yields the rows from its position on, and ends.
pub scan_next-Yields :
    (rows : List Row) (pos : ℕ) → Yields (scan_next rows) pos (drop pos rows) none
scan_next-Yields rows pos = scan_from rows (drop pos rows) pos refl

module _ (d : Platform) (e : Expression) (schema : RowSchema) where
  -- One row through a filter, before what is made of the rest.
  abbrev filtered_at : Result Bool → Row → Outcome → Outcome
  filtered_at (err x) row rest = ([], some x)
  filtered_at (ok true) row rest = after row rest
  filtered_at (ok false) row rest = rest

  -- The rows of a filter over rows that end so.
  unfoldable pub filtered : List Row → Option Error → Outcome
  filtered [] end = ([], end)
  filtered (row ∷ rows) end = filtered_at (test d e schema row) row (filtered rows end)

  module _ {S : Type 0} (next : Next S) where
    -- The fuel does not matter while it exceeds the rows that are left.
    filter_next-fuel :
        (f g : ℕ) {s : S} {rows : List Row} {end : Option Error}
        → Yields next s rows end
        → length rows < f
        → length rows < g
        → filter_next d e schema next f s ≡ filter_next d e schema next g s
    unfolding filter_next
    filter_next-fuel zero g y h k = absurd (omega arith)
    filter_next-fuel (suc f) zero y h k = absurd (omega arith)
    filter_next-fuel (suc f) (suc g) (ends p) h k = rw p
    filter_next-fuel (suc f) (suc g) (fails p) h k = rw p
    filter_next-fuel (suc f) (suc g) (gives {row = row} p y) h k =
        rw p (elim (Result-cases (test d e schema row)) [
          | inl (true, q) ↦ rw q
          | inl (false, q) ↦ rw q (filter_next-fuel f g y (omega arith) (omega arith))
          | inr (x, q) ↦ rw q
        ])

    -- A filter with more fuel than its input has rows yields the rows on which its predicate is
    -- TRUE, in order, up to the first row on which the evaluation throws, where it throws the same;
    -- else it ends as its input does.
    pub filter_next-Yields :
        (fuel : ℕ) {s : S} {rows : List Row} {end : Option Error}
        → Yields next s rows end
        → length rows < fuel
        → Yields (filter_next d e schema next fuel) s (filtered rows end).0 (filtered rows end).1
    unfolding filter_next filtered
    filter_next-Yields zero y h = absurd (omega arith)
    filter_next-Yields (suc f) (ends {s' = s'} p) h = ends {s' = s'} (rw p)
    filter_next-Yields (suc f) (fails p) h = fails (rw p)
    filter_next-Yields (suc f) (gives {s' = s'} {row = row} p y) h =
        elim (Result-cases (test d e schema row)) [
          | inl (true, q) ↦
              rw q (gives {s' = s'} (rw (p, q)) (filter_next-Yields (suc f) y (omega arith)))
          | inl (false, q) ↦ rw q (
              Yields-same_step (filter_next d e schema next (suc f))
                (rw (p, q) (filter_next-fuel f (suc f) y (omega arith) (omega arith)))
                (filter_next-Yields (suc f) y (omega arith)))
          | inr (x, q) ↦ rw q (fails (rw (p, q)))
        ]

  filtered_at-cases :
      (x : Result Literal) (row : Row) (rest : Outcome)
      → (filtered_at (x >>= literal_truthy) row rest).1 ≡ none
      → ((filtered_at (x >>= literal_truthy) row rest).0
          ≡ (if is_true x then row ∷ rest.0 else rest.0))
        × (rest.1 ≡ none)
  unfolding literal_truthy
  filtered_at-cases x row rest h = ground arith

  -- Where no evaluation throws, the rows that a filter yields are those that its meaning keeps.
  pub filtered-holds :
      (rows : List Row)
      → (filtered rows none).1 ≡ none
      → (filtered rows none).0 ≡ keep_if (holds d e schema) rows
  unfolding filtered holds test
  filtered-holds [] h = refl
  filtered-holds (row ∷ rows) h =
      let (here, rest) = filtered_at-cases (evaluate d e row schema) row (filtered rows none) h in
      here ∙ rw (filtered-holds rows rest)

module _ (d : Platform) where
  abbrev projected_at : Result Row → Outcome → Outcome
  projected_at (err x) rest = ([], some x)
  projected_at (ok row) rest = after row rest

  unfoldable pub projected : List Expression → RowSchema → List Row → Option Error → Outcome
  projected es schema [] end = ([], end)
  projected es schema (row ∷ rows) end =
      projected_at (project_row d es schema row) (projected es schema rows end)

  -- A project executor yields the projected rows, up to the first row on which an evaluation
  -- throws, where it throws the same; else it ends as its input does.
  pub project_next-Yields :
      {S : Type 0} (next : Next S) (es : List Expression) (schema : RowSchema) {s : S}
      {rows : List Row} {end : Option Error}
      → Yields next s rows end
      → Yields
          (project_next d es schema next)
          s
          (projected es schema rows end).0
          (projected es schema rows end).1
  unfolding project_next projected
  project_next-Yields next es schema (ends {s' = s'} p) = ends {s' = s'} (rw p)
  project_next-Yields next es schema (fails p) = fails (rw p)
  project_next-Yields next es schema (gives {s' = s'} {row = row} p y) =
      elim (Result-cases (project_row d es schema row)) [
        | inl (out, q) ↦ rw q (gives {s' = s'} (rw (p, q)) (project_next-Yields next es schema y))
        | inr (x, q) ↦ rw q (fails (rw (p, q)))
      ]

-- The first `n` rows; the stream then ends, or as it does before them.
unfoldable pub limited : ℕ → List Row → Option Error → Outcome
limited zero rows end = ([], none)
limited (suc n) [] end = ([], end)
limited (suc n) (row ∷ rows) end = after row (limited n rows end)

limit_from :
    {S : Type 0} (next : Next S) (count left emitted : ℕ) {s : S} {rows : List Row}
    {end : Option Error}
    → Yields next s rows end
    → emitted + left ≡ count
    → Yields
        (limit_next count next)
        (s, emitted)
        (limited left rows end).0
        (limited left rows end).1
unfolding limit_next limited
limit_from next count zero emitted {s} y h =
    let full : leb count emitted ≡ true = ground arith in ends {s' = (s, emitted)} (rw full)
limit_from next count (suc n) emitted (ends {s' = s'} p) h =
    let more : leb count emitted ≡ false = ground arith in ends {s' = (s', emitted)} (rw (more, p))
limit_from next count (suc n) emitted (fails p) h =
    let more : leb count emitted ≡ false = ground arith in fails (rw (more, p))
limit_from next count (suc n) emitted (gives {s' = s'} p y) h =
    let more : leb count emitted ≡ false = ground arith in
    gives {s' = (s', emitted + 1)} (rw (more, p))
      (limit_from next count n (emitted + 1) y (omega arith))

-- A limit executor yields the first `count` rows and then ends without asking its input for more; an
-- input that ends or throws before that ends it so.
pub limit_next-Yields :
    {S : Type 0} (next : Next S) (count : ℕ) {s : S} {rows : List Row} {end : Option Error}
    → Yields next s rows end
    → Yields (limit_next count next) (s, 0) (limited count rows end).0 (limited count rows end).1
limit_next-Yields next count y = limit_from next count count 0 y (omega arith)
