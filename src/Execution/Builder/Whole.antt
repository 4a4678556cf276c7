-- ===== src/Execution/Builder/Whole.antt =====
-- execution/executor_builder.cpp and query_runner.cpp: a whole plan, built, opened and run.
use sql_query_optimizer.Prelude.{
  ℕ, suc, ◌+◌, ◌<◌, ◌≡◌, refl, ap, String, Option, none, some, inl, inr, List, [], value_or,
  Option-cases, arith,
}
use sql_query_optimizer.Ast.{Expression}
use sql_query_optimizer.Physical.{
  PhysicalPlan, seq_scan, index_scan, filter, join, hash_aggregate, project, sort, limit,
  external_rows, JoinKind, nested_loop_join, hash_join, index_nested_loop_join,
}
use sql_query_optimizer.Storage.{Table, Database, get_table}
use sql_query_optimizer.Execution.Result.{Result, ok, err, ◌>>=◌, Result-cases}
use sql_query_optimizer.Execution.Values.{Platform}
use sql_query_optimizer.Execution.RowSchema.{RowSchema, empty_schema, resolve}
use sql_query_optimizer.Execution.Eval.{Row, evaluate}
use sql_query_optimizer.Execution.Meaning.{scan_schema}
use sql_query_optimizer.Execution.Streams.{collect_rows, collect_rows-finished, finished}
use sql_query_optimizer.Execution.Operators.Filters.{Outcome}
use sql_query_optimizer.Execution.HashJoin.{hash_keys}
use sql_query_optimizer.Execution.Builder.{
  Stream, Executor, ExternalRowSets, find_rows, external_schema, on_table, open_index,
  seq_scan_exec, index_scan_exec, hash_join_exec, join_exec, external_exec, build_executor,
  run_to_completion,
}
use sql_query_optimizer.Execution.Builder.Answers.{
  Answer, index_rows, join_answer, external_answer, answer, outcome_count, row_count, total_rows,
}
use sql_query_optimizer.Execution.Builder.Agree.{
  Opens, Builds, Builds-bind, stored-Yields, indexed_from, filter_exec-Builds, project_exec-Builds,
  limit_exec-Builds, sort_exec-Builds, hash_aggregate_exec-Builds, nested_loop-Builds,
  hash_join_of-Builds,
}

on_table-Builds :
    (t : Option Table) (f : Table → Executor) (g : Table → Answer)
    → ((t : Table) → Builds (ok (f t)) (ok (g t)))
    → Builds (on_table t f) (on_table t g)
on_table-Builds none f g k = refl
on_table-Builds (some t) f g k = k t

module _ {ℓ} {A : Type ℓ} where
  Builds-alike :
      (r q : Result A) (f : A → Result Executor) (g : A → Result Answer)
      → r ≡ q
      → ((a : A) → Builds (f a) (g a))
      → Builds (r >>= f) (q >>= g)
  Builds-alike r q f g e k =
      rw e (elim (Result-cases q) [ inl (a, p) ↦ rw p (k a) | inr (x, p) ↦ rw p refl ])

module _ (d : Platform) (f : ℕ) where
  open_index-index_rows :
      (schema : RowSchema) (rows : List Row) (column : String) (probe : Expression)
      → Opens
          (open_index d (suc f) schema rows column probe)
          (index_rows d schema rows column probe)
  unfolding open_index index_rows
  open_index-index_rows schema rows column probe =
      elim (Result-cases (evaluate d probe [] empty_schema)) [
        | inr (e, p) ↦ rw p refl
        | inl (v, p) ↦ rw p (elim (Option-cases (resolve schema none column)) [
          | inl q ↦ rw q refl
          | inr (col, q) ↦ rw q (indexed_from d rows col v rows 0 refl)
        ])
      ]

  join_exec-Builds :
      (kind : JoinKind) (e : Expression) (x y : Executor) (a b : Answer)
      → x.schema ≡ a.schema
      → y.schema ≡ b.schema
      → Opens x.opened a.rows
      → Opens y.opened b.rows
      → outcome_count a.rows < suc f
      → outcome_count b.rows < suc f
      → Builds (join_exec d (suc f) kind e x y) (join_answer d kind e a b)
  unfolding join_exec hash_join_exec
  join_exec-Builds nested_loop_join e x y a b p q h k l m =
      nested_loop-Builds d f e x y a b p q h k l m
  join_exec-Builds index_nested_loop_join e x y a b p q h k l m =
      nested_loop-Builds d f e x y a b p q h k l m
  join_exec-Builds hash_join e x y a b p q h k l m =
      Builds-alike (hash_keys x.schema y.schema e) (hash_keys a.schema b.schema e) _ _
        (rw (p, q) refl) (λ keys. hash_join_of-Builds d f keys x y a b p q h k l m)

  external_exec-Builds :
      (rows : Option (List Row)) (schema : RowSchema)
      → Builds (external_exec d (suc f) rows schema) (external_answer d rows schema)
  unfolding external_exec
  external_exec-Builds none schema = refl
  external_exec-Builds (some rows) schema = (refl, stored-Yields rows)

  module _ (db : Database) (external : ExternalRowSets) where
    abbrev built : PhysicalPlan → Result Executor
    built = build_executor d (suc f) db external

    abbrev answered : PhysicalPlan → Result Answer
    answered = answer d db external

    -- The executor of a plan has the answer's columns and yields its rows, or throws as it does, if its
    -- fuel exceeds the rows of all the nodes below the root.
    build_executor-Builds :
        (p : PhysicalPlan)
        → total_rows d db external p < suc f
        → Builds (build_executor d (suc f) db external p) (answer d db external p)
    unfolding build_executor answer total_rows seq_scan_exec index_scan_exec
    build_executor-Builds (seq_scan table alias cols est) l =
        on_table-Builds (get_table db table) _ _ (λ t. (refl, stored-Yields t.rows))
    build_executor-Builds (index_scan table alias cols column probe est) l =
        on_table-Builds (get_table db table) _ _ (λ t. (
          refl,
          open_index-index_rows (scan_schema (value_or alias table) t.column_names) t.rows column
              probe,
        ))
    build_executor-Builds (filter e i est) l =
        Builds-bind (built i) (answered i) _ _ (build_executor-Builds i omega arith)
          (λ x a q p h. let n = ap row_count q in filter_exec-Builds d f e x a p h omega arith)
    build_executor-Builds (join kind type e l r est) m =
        Builds-bind (built l) (answered l) _ _ (build_executor-Builds l omega arith) (λ x a q p h.
          Builds-bind (built r) (answered r) _ _ (build_executor-Builds r omega arith) (λ y b s t k.
            let n = ap row_count q in
            let o = ap row_count s in
            join_exec-Builds kind e x y a b p t h k omega arith omega arith))
    build_executor-Builds (hash_aggregate g aggs i est) l =
        Builds-bind (built i) (answered i) _ _ (build_executor-Builds i omega arith) (λ x a q p h.
          let n = ap row_count q in hash_aggregate_exec-Builds d f g aggs x a p h omega arith)
    build_executor-Builds (project es i est) l =
        Builds-bind (built i) (answered i) _ _ (build_executor-Builds i omega arith)
          (λ x a q p h. let n = ap row_count q in project_exec-Builds d f es x a p h omega arith)
    build_executor-Builds (sort o i est) l =
        Builds-bind (built i) (answered i) _ _ (build_executor-Builds i omega arith)
          (λ x a q p h. let n = ap row_count q in sort_exec-Builds d f o x a p h omega arith)
    build_executor-Builds (limit n i est) l =
        Builds-bind (built i) (answered i) _ _ (build_executor-Builds i omega arith)
          (λ x a q p h. let c = ap row_count q in limit_exec-Builds d f n x a p h omega arith)
    build_executor-Builds (external_rows table cols slot g aggs est) l =
        external_exec-Builds (find_rows external slot) (external_schema cols g aggs)

    -- Building the executors of a plan of any of the eleven kinds, opening them and collecting every
    -- row returns exactly the rows of the plan's answer, in its order, and throws exactly where the answer
    -- does, when the fuel exceeds the rows of all the nodes together.
    pub run_to_completion-answer :
        (p : PhysicalPlan)
        → total_rows d db external p + row_count (answer d db external p) < suc f
        → (build_executor d (suc f) db external p >>= run_to_completion d (suc f))
          ≡ (answer d db external p >>= λ a. a.rows >>= λ o. finished o.0 o.1)
    unfolding run_to_completion
    run_to_completion-answer p l =
        both (built p) (answered p) (build_executor-Builds p omega arith) omega arith
      where
        collected :
            (r : Result Stream) (q : Result Outcome)
            → Opens r q
            → outcome_count q < suc f
            → (r >>= λ s. collect_rows s.next (suc f) s.start []) ≡ (q >>= λ o. finished o.0 o.1)
        collected (ok s) (ok o) y n = collect_rows-finished s.next (suc f) s.start o.0 o.1 y n
        collected (err e) (err x) h n = rw h refl
        collected (ok s) (err x) h n = absurd h
        collected (err e) (ok o) h n = absurd h

        both :
            (r : Result Executor) (q : Result Answer)
            → Builds r q
            → row_count q < suc f
            → (r >>= λ x. x.opened >>= λ s. collect_rows s.next (suc f) s.start [])
              ≡ (q >>= λ a. a.rows >>= λ o. finished o.0 o.1)
        both (ok x) (ok a) (p, h) n = collected x.opened a.rows h n
        both (err e) (err y) h n = rw h refl
        both (ok x) (err y) h n = absurd h
        both (err e) (ok a) h n = absurd h
