-- ===== src/Execution/Builder/Logical.antt =====
-- execution/executor_builder.cpp: what a run returns, against the relation that the logical plan stands
-- for.
use mathlib.Core.Path.{subst}
use sql_query_optimizer.Prelude.{
  ℕ, suc, ◌+◌, ◌<◌, ◌≡◌, refl, ap, sym, ◌∙◌, ◌↔◌, String, true, false, inl, inr, Option, none, some,
  List, [], ◌∷◌, value_or,
}
use sql_query_optimizer.Ast.{Expression, JoinType}
use sql_query_optimizer.Plan.{LogicalPlan, scan}
use sql_query_optimizer.Physical.{
  Estimates, PhysicalPlan, seq_scan, filter, join, nested_loop_join, index_nested_loop_join,
}
use sql_query_optimizer.Storage.{Table, Database, get_table}
use sql_query_optimizer.Execution.Result.{
  Result, Error, err, ok, ◌>>=◌, map_ok, bind-ok, ok-injective, Result-cases,
}
use sql_query_optimizer.Execution.Values.{Platform}
use sql_query_optimizer.Execution.RowSchema.{RowSchema, extend}
use sql_query_optimizer.Execution.Eval.{Row}
use sql_query_optimizer.Execution.Meaning.{Relation, scan_table}
use sql_query_optimizer.Execution.Exact.{exact, selected, all_of, all_of-ok}
use sql_query_optimizer.Execution.Streams.{finished}
use sql_query_optimizer.Execution.Operators.{test}
use sql_query_optimizer.Execution.Operators.Filters.{filtered}
use sql_query_optimizer.Execution.Operators.Joins.{product}
use sql_query_optimizer.Execution.Builder.{
  ExternalRowSets, on_table, build_executor, run_to_completion,
}
use sql_query_optimizer.Execution.Builder.Answers.{
  Answer, seq_scan_answer, filter_answer, nested_loop_answer, answer, row_count, total_rows,
}
use sql_query_optimizer.Execution.Builder.Whole.{run_to_completion-answer}

-- The physical plan carries out the logical one by sequential scans, filters and inner nested loop joins.
pub data CarriesOut : PhysicalPlan → LogicalPlan → Type 0 where
  scans :
      {table : String} {alias : Option String} {cols : List String} {est : Estimates}
      → CarriesOut (seq_scan table alias cols est) (scan table alias cols)
  filters :
      {e : Expression} {i : PhysicalPlan} {l : LogicalPlan} {est : Estimates}
      → CarriesOut i l
      → CarriesOut (filter e i est) (LogicalPlan.filter e l)
  joins :
      {e : Expression} {i j : PhysicalPlan} {l m : LogicalPlan} {est : Estimates}
      → CarriesOut i l
      → CarriesOut j m
      → CarriesOut
          (join nested_loop_join JoinType.inner e i j est)
          (LogicalPlan.join JoinType.inner e l m)
  index_joins :
      {e : Expression} {i j : PhysicalPlan} {l m : LogicalPlan} {est : Estimates}
      → CarriesOut i l
      → CarriesOut j m
      → CarriesOut
          (join index_nested_loop_join JoinType.inner e i j est)
          (LogicalPlan.join JoinType.inner e l m)

module _ (d : Platform) (e : Expression) (schema : RowSchema) where
  -- A filter that ends has read all of an input that ends.
  filtered-ends :
      (rows : List Row) (end : Option Error) → (filtered d e schema rows end).1 ≡ none → end ≡ none
  unfolding filtered
  filtered-ends [] end h = h
  filtered-ends (row ∷ rows) end h = elim (Result-cases (test d e schema row)) [
    | inl (true, q) ↦ filtered-ends rows end (rw q at h)
    | inl (false, q) ↦ filtered-ends rows end (rw q at h)
    | inr (x, q) ↦ let k = rw q at h in cc
  ]

filtered-whole :
    (d : Platform) (e : Expression) (schema : RowSchema) (xs : List Row) (end : Option Error)
    (rows : List Row)
    → filtered d e schema xs end ≡ (rows, none)
    → (end ≡ none) × (filtered d e schema xs none ≡ (rows, none))
filtered-whole d e schema xs end rows h =
    let stop = filtered-ends d e schema xs end (ap (λ o. o.1) h) in
    (stop, ap (λ x. filtered d e schema xs x) (sym stop) ∙ h)

finished-ok :
    (xs : List Row) (end : Option Error) (rows : List Row)
    → finished xs end ≡ ok rows
    → (end ≡ none) × (xs ≡ rows)
finished-ok xs none rows h = (refl, ok-injective h)
finished-ok xs (some e) rows h = cc

module _ (d : Platform) (db : Database) (external : ExternalRowSets) where
  -- An answer that has these columns and rows, without an error.
  abbrev answer_of : Relation → Answer
  answer_of rel = record { schema = rel.schema; rows = ok (rel.rows, none) }

  scan-answer :
      (qualifier : String) (t : Option Table) (rel : Relation)
      → scan_table d qualifier t ≡ ok rel
      → on_table t (seq_scan_answer d qualifier) ≡ ok (answer_of rel)
  scan-answer qualifier none rel h = cc
  scan-answer qualifier (some t) rel h = rw (← ok-injective h) refl

  selected-answer :
      (e : Expression) (schema : RowSchema) (rows : List Row) (rel : Relation)
      → selected d db e schema rows ≡ ok rel
      → record { schema = schema; rows = ok (filtered d e schema rows none) } ≡ answer_of rel
  unfolding selected
  selected-answer e schema rows rel h =
      let (kept, p, q) = bind-ok (all_of (filtered d e schema rows none)) _ h in
      let o = all_of-ok (filtered d e schema rows none) kept p in rw (← ok-injective q, o) refl

  -- The relation of the plan is its answer.
  exact-answer :
      {p : PhysicalPlan} {l : LogicalPlan} (rel : Relation)
      → CarriesOut p l
      → exact d db l ≡ ok rel
      → answer d db external p ≡ ok (answer_of rel)
  unfolding exact answer
  exact-answer rel (scans {table = table} {alias = alias}) h =
      scan-answer (value_or alias table) (get_table db table) rel h
  exact-answer rel (filters {e = e} {i = i} {l = l} c) h =
      let (x, p, q) = bind-ok (exact d db l) _ h in
      rw (exact-answer x c p) (ap ok (selected-answer e x.schema x.rows rel q))
  exact-answer rel (joins {e = e} {l = l} {m = m} c c') h =
      let (x, p, q) = bind-ok (exact d db l) _ h in
      let (y, v, w) = bind-ok (exact d db m) _ q in
      rw (exact-answer x c p, exact-answer y c' v)
        (ap ok (selected-answer e (extend x.schema y.schema) (product x.rows y.rows) rel w))
  exact-answer rel (index_joins {e = e} {l = l} {m = m} c c') h =
      let (x, p, q) = bind-ok (exact d db l) _ h in
      let (y, v, w) = bind-ok (exact d db m) _ q in
      rw (exact-answer x c p, exact-answer y c' v)
        (ap ok (selected-answer e (extend x.schema y.schema) (product x.rows y.rows) rel w))

  scan-exact :
      (qualifier : String) (t : Option Table) (a : Answer) (rows : List Row)
      → on_table t (seq_scan_answer d qualifier) ≡ ok a
      → a.rows ≡ ok (rows, none)
      → scan_table d qualifier t ≡ ok (record { schema = a.schema; rows = rows })
  scan-exact qualifier none a rows h k = cc
  scan-exact qualifier (some t) a rows h k =
      let e = ok-injective h in
      let r = ap (λ x. x.rows) e ∙ k in
      let s = ap (λ x. x.schema) e in let same = ap (λ o. o.0) (ok-injective r) in rw (same, s) refl

  filtered-selected :
      (e : Expression) (schema : RowSchema) (xs rows : List Row)
      → filtered d e schema xs none ≡ (rows, none)
      → selected d db e schema xs ≡ ok (record { schema = schema; rows = rows })
  unfolding selected
  filtered-selected e schema xs rows h = rw h refl

  abbrev Means : LogicalPlan → Answer → Type 0
  Means l a =
      (rows : List Row)
      → a.rows ≡ ok (rows, none)
      → exact d db l ≡ ok (record { schema = a.schema; rows = rows })

  filter-Means :
      (e : Expression) (l : LogicalPlan) (a : Answer)
      → Means l a
      → Means (LogicalPlan.filter e l) (filter_answer d e a)
  unfolding exact
  filter-Means e l a h rows k =
      let (o, p, q) = bind-ok a.rows _ k in
      let (stop, kept) = filtered-whole d e a.schema o.0 o.1 rows (ok-injective q) in
      rw (h (o.0) (p ∙ ap (λ x. ok (o.0, x)) stop)) (filtered-selected e a.schema (o.0) rows kept)

  join-Means :
      (e : Expression) (l r : LogicalPlan) (a b : Answer)
      → Means l a
      → Means r b
      → Means (LogicalPlan.join JoinType.inner e l r) (nested_loop_answer d e a b)
  unfolding exact
  join-Means e l r a b h k rows m =
      let (o, p, q) = bind-ok a.rows _ m in
      let (o', p', q') = bind-ok b.rows _ q in
      let (all, f, g) = bind-ok (finished o'.0 o'.1) _ q' in
      let (stop', same) = finished-ok o'.0 o'.1 all f in
      let schema = extend a.schema b.schema in
      let (stop, kept) = filtered-whole d e schema (product o.0 all) o.1 rows (ok-injective g) in
      let x = h (o.0) (p ∙ ap (λ z. ok (o.0, z)) stop) in
      let y = k all (p' ∙ ap (λ z. ok (o'.0, z)) stop' ∙ ap (λ z. ok (z, none)) same) in
      rw (x, y) (filtered-selected e schema (product o.0 all) rows kept)

  answer-Means :
      {p : PhysicalPlan} {l : LogicalPlan}
      → CarriesOut p l
      → (a : Answer) → answer d db external p ≡ ok a
      → Means l a
  unfolding answer exact
  answer-Means (scans {table = table} {alias = alias}) a h =
      λ rows k. scan-exact (value_or alias table) (get_table db table) a rows h k
  answer-Means (filters {e = e} {l = l} c) a h =
      let (b, p, q) = bind-ok _ _ h in
      subst (Means (LogicalPlan.filter e l)) (ok-injective q)
        (filter-Means e l b (answer-Means c b p))
  answer-Means (joins {e = e} {l = l} {m = m} c c') a h =
      let (x, p, q) = bind-ok _ _ h in
      let (y, r, s) = bind-ok _ _ q in
      subst (Means (LogicalPlan.join JoinType.inner e l m)) (ok-injective s)
        (join-Means e l m x y (answer-Means c x p) (answer-Means c' y r))
  answer-Means (index_joins {e = e} {l = l} {m = m} c c') a h =
      let (x, p, q) = bind-ok _ _ h in
      let (y, r, s) = bind-ok _ _ q in
      subst (Means (LogicalPlan.join JoinType.inner e l m)) (ok-injective s)
        (join-Means e l m x y (answer-Means c x p) (answer-Means c' y r))

  -- Let a plan of sequential scans, filters and inner nested loop joins, by an index or not, be run
  -- with more fuel than the rows of all its nodes. It is built and returns these rows, in this order,
  -- exactly if its logical plan stands for them, where a scan has the rows of its table, and a filter or
  -- a join tests each row or pair and is an error if one of the tests is.
  pub run_to_completion-exact :
      {p : PhysicalPlan} {l : LogicalPlan} (f : ℕ) (rows : List Row)
      → CarriesOut p l
      → total_rows d db external p + row_count (answer d db external p) < suc f
      → ((build_executor d (suc f) db external p >>= run_to_completion d (suc f)) ≡ ok rows)
        ↔ (map_ok (λ rel. rel.rows) (exact d db l) ≡ ok rows)
  run_to_completion-exact {p} {l} f rows c n =
      let run = run_to_completion-answer d f db external p n in
      (
        λ h.
            let (a, q, r) = bind-ok _ _ (sym run ∙ h) in
            let (o, s, e) = bind-ok _ _ r in
            let (stop, same) = finished-ok (o.0) (o.1) rows e in
            let ended = s ∙ ap (λ z. ok (o.0, z)) stop ∙ ap (λ z. ok (z, none)) same in
            ap (map_ok (λ rel. rel.rows)) (answer-Means c a q rows ended),
        λ h. run ∙ rows_of (exact d db l) refl h,
      )
    where
      rows_of :
          (r : Result Relation)
          → exact d db l ≡ r
          → map_ok (λ rel. rel.rows) r ≡ ok rows
          → (answer d db external p >>= λ a. a.rows >>= λ o. finished o.0 o.1) ≡ ok rows
      rows_of (ok rel) e h = rw (exact-answer rel c e) h
      rows_of (err x) e h = cc
