-- ===== src/Execution/Streams.antt =====
-- execution/executor.hpp and query_runner.cpp: pull iterators. The state of an opened executor is a
-- value; `next` returns a row or the end with the state after it, or throws. The timers and the row
-- counter of `Executor` are left out.
use sql_query_optimizer.Prelude.{
  ℕ, zero, suc, ◌<◌, ◌≡◌, ap, Option, none, some, List, [], ◌∷◌, ◌++◌, length, arith, append_nil,
  append_assoc', ◌∙◌,
}
use sql_query_optimizer.Execution.Result.{Result, Error, ok, err, ◌>>=◌, out_of_fuel}
use sql_query_optimizer.Execution.Eval.{Row}

abbrev pub Next : Type 0 → Type 0
Next S = S → Result (Option Row × S)

-- From the state on, `next` gives the rows, and then the end (`none`) or an error.
pub data Yields {S : Type 0} (next : Next S) : S → List Row → Option Error → Type 0 where
  ends : {s s' : S} → next s ≡ ok (none, s') → Yields next s [] none
  fails : {s : S} {e : Error} → next s ≡ err e → Yields next s [] (some e)
  gives :
      {s s' : S} {row : Row} {rows : List Row} {end : Option Error}
      → next s ≡ ok (some row, s')
      → Yields next s' rows end
      → Yields next s (row ∷ rows) end

-- The loop that collects every row; `fuel` bounds its rounds.
unfoldable pub collect_rows : {S : Type 0} → Next S → ℕ → S → List Row → Result (List Row)
collect_rows next zero s rows = err out_of_fuel
collect_rows next (suc fuel) s rows = next s >>= λ r. elim r.0 [
  | none ↦ ok rows
  | some row ↦ collect_rows next fuel r.1 (rows ++ row ∷ [])
]

abbrev pub finished : List Row → Option Error → Result (List Row)
finished rows none = ok rows
finished rows (some e) = err e

module _ {S : Type 0} (next : Next S) where
  -- Two states with the same next step yield the same.
  pub Yields-same_step :
      {s t : S} {rows : List Row} {end : Option Error}
      → next s ≡ next t
      → Yields next t rows end
      → Yields next s rows end
  Yields-same_step h (ends e) = ends (h ∙ e)
  Yields-same_step h (fails e) = fails (h ∙ e)
  Yields-same_step h (gives e y) = gives (h ∙ e) y

  collect_rows-Yields :
      (fuel : ℕ) (before : List Row) {s : S} {rows : List Row} {end : Option Error}
      → Yields next s rows end
      → length rows < fuel
      → collect_rows next fuel s before ≡ finished (before ++ rows) end
  unfolding collect_rows
  collect_rows-Yields zero before y h = absurd (omega arith)
  collect_rows-Yields (suc fuel) before (ends e) h = rw (e, append_nil)
  collect_rows-Yields (suc fuel) before (fails e) h = rw e
  collect_rows-Yields (suc fuel) before (gives {s' = s'} {row = row} {rows = rows} {end = end} e y)
        h =
      rw e (
        collect_rows-Yields fuel (before ++ row ∷ []) y (omega arith)
        ∙ ap (λ all. finished all end) (append_assoc' before (row ∷ []) rows))

  -- The collecting loop ends, within one round more than there are rows: it returns the rows in
  -- order if the executor ends, and throws what the executor throws.
  pub collect_rows-finished :
      (fuel : ℕ) (s : S) (rows : List Row) (end : Option Error)
      → Yields next s rows end
      → length rows < fuel
      → collect_rows next fuel s [] ≡ finished rows end
  collect_rows-finished fuel s rows end y h = collect_rows-Yields fuel [] y h
