-- ===== src/Execution/Builder/Agree.antt =====
-- execution/executor_builder.cpp and query_runner.cpp: the built executors, against the answers.
use sql_query_optimizer.Prelude.{
  ℕ, zero, suc, ◌+◌, ◌<◌, ◌≡◌, refl, sym, String, Option, inl, inr, List, [], ◌∷◌, ◌++◌, length,
  map, get_elem?, drop, drop-cons, Bool-cases, Option-cases, arith,
}
use mathlib.Core.Path.{subst}
use native.Mathlib.Numerals.{add-one}
use sql_query_optimizer.Ast.{Literal, Expression, OrderByItem}
use sql_query_optimizer.Plan.{AggregateExpr}
use sql_query_optimizer.Execution.Result.{Result, Error, ok, err, ◌>>=◌, Result-cases}
use sql_query_optimizer.Execution.Values.{Platform, literal_equal}
use sql_query_optimizer.Execution.RowSchema.{RowSchema, extend}
use sql_query_optimizer.Execution.Eval.{Row}
use sql_query_optimizer.Execution.Streams.{
  Next, Yields, ends, fails, gives, Yields-same_step, collect_rows, collect_rows-finished, finished,
}
use sql_query_optimizer.Execution.Operators.{index_next, index_next_from}
use sql_query_optimizer.Execution.Operators.Filters.{
  Outcome, scan_next-Yields, filter_next-Yields, project_next-Yields, limit_next-Yields,
}
use sql_query_optimizer.Execution.Operators.Joins.{join_next-Yields}
use sql_query_optimizer.Execution.HashJoin.{Keys, Build, key_of, hash_build}
use sql_query_optimizer.Execution.HashJoin.Yields.{hash_next-Yields}
use sql_query_optimizer.Execution.HashAggregate.{aggregate_results}
use sql_query_optimizer.Execution.HashAggregate.Groups.{group_rows, group_loop-group_rows}
use sql_query_optimizer.Execution.Sort.{comes_before}
use sql_query_optimizer.Execution.Builder.{
  Stream, Executor, stored, expression_of, filter_exec, nested_loop_join_exec, hash_join_of,
  hash_aggregate_exec, project_exec, sort_exec, limit_exec,
}
use sql_query_optimizer.Execution.Builder.Answers.{
  Answer, whole, indexed, build_of, filter_answer, nested_loop_answer, hash_answer,
  aggregate_answer, project_answer, sort_answer, limit_answer, outcome_count,
}

-- An open stream yields the rows, or `open` throws the same.
abbrev pub Opens : Result Stream → Result Outcome → Type 0
Opens (ok s) (ok o) = Yields s.next s.start o.0 o.1
Opens (err e) (err x) = e ≡ x
Opens _ _ = ⊥

-- An executor has the columns and the rows of the answer, or building it throws the same.
abbrev pub Builds : Result Executor → Result Answer → Type 0
Builds (ok x) (ok a) = (x.schema ≡ a.schema) × Opens x.opened a.rows
Builds (err e) (err y) = e ≡ y
Builds _ _ = ⊥

pub stored-Yields : (rows : List Row) → Opens (ok (stored rows)) (whole rows)
unfolding stored
stored-Yields rows = scan_next-Yields rows 0

-- A step on an open input, whose rows are fewer than the fuel.
pub Opens-bind :
    (fuel : ℕ) (r : Result Stream) (q : Result Outcome) (f : Stream → Result Stream)
    (g : Outcome → Result Outcome)
    → Opens r q
    → outcome_count q < fuel
    → ((s : Stream) (o : Outcome)
        → length o.0 < fuel
        → Yields s.next s.start o.0 o.1
        → Opens (f s) (g o))
    → Opens (r >>= f) (q >>= g)
Opens-bind fuel (ok s) (ok o) f g h l k = k s o l h
Opens-bind fuel (err e) (err x) f g h l k = h
Opens-bind fuel (ok s) (err x) f g h l k = absurd h
Opens-bind fuel (err e) (ok o) f g h l k = absurd h

-- A step that both sides take alike.
module _ {ℓ} {A : Type ℓ} (f : A → Result Stream) (g : A → Result Outcome) where
  Opens-alike : (q : Result A) → ((a : A) → Opens (f a) (g a)) → Opens (q >>= f) (q >>= g)
  Opens-alike (ok a) k = k a
  Opens-alike (err x) k = refl

  Opens-same : (r q : Result A) → r ≡ q → ((a : A) → Opens (f a) (g a)) → Opens (r >>= f) (q >>= g)
  Opens-same r q e k = rw e (Opens-alike q k)

pub Builds-bind :
    (r : Result Executor) (q : Result Answer) (f : Executor → Result Executor)
    (g : Answer → Result Answer)
    → Builds r q
    → ((x : Executor) (a : Answer)
        → q ≡ ok a
        → x.schema ≡ a.schema
        → Opens x.opened a.rows
        → Builds (f x) (g a))
    → Builds (r >>= f) (q >>= g)
Builds-bind (ok x) (ok a) f g (p, h) k = k x a refl p h
Builds-bind (err e) (err y) f g h k = h
Builds-bind (ok x) (err y) f g h k = absurd h
Builds-bind (err e) (ok a) f g h k = absurd h

module _ (d : Platform) where
  pub indexed_from :
      (rows : List Row) (col : ℕ) (probe : Literal) (xs : List Row) (pos : ℕ)
      → drop pos rows ≡ xs
      → Yields
          (index_next d rows col probe)
          pos
          (indexed d xs col probe).0
          (indexed d xs col probe).1
  unfolding index_next indexed
  indexed_from rows col probe [] pos h = ends {s' = pos} (rw (h, index_next_from))
  indexed_from rows col probe (x ∷ xs) pos h =
      let (_, next_rows) = drop-cons pos rows x xs h in
      let tail_rows : drop (pos + 1) rows ≡ xs = rw add-one next_rows in
      let rest = indexed_from rows col probe xs (pos + 1) tail_rows in
      elim (Option-cases (get_elem? x col)) [
        | inl none_there ↦ rw none_there (fails (rw (h, index_next_from, none_there)))
        | inr (v, found) ↦ elim (Bool-cases (literal_equal d v probe)) [
          | inl same ↦
              rw (found, same) (gives {s' = pos + 1} (rw (h, index_next_from, found, same)) rest)
          | inr differ ↦
              rw (found, differ)
                (Yields-same_step (index_next d rows col probe)
                  (rw (h, index_next_from, found, differ, tail_rows)) rest)
        ]
      ]

  hash_build-build_of :
      {S : Type 0} (e : Expression) (schema : RowSchema) (next : Next S) (fuel : ℕ) (build : Build)
      {s : S} {rows : List Row} {end : Option Error}
      → Yields next s rows end
      → length rows < fuel
      → hash_build d e schema next fuel s build ≡ build_of d e schema rows end build
  unfolding hash_build build_of
  hash_build-build_of e schema next zero build y h = absurd (omega arith)
  hash_build-build_of e schema next (suc fuel) build (ends p) h = rw p
  hash_build-build_of e schema next (suc fuel) build (fails p) h = rw p
  hash_build-build_of e schema next (suc fuel) build (gives {row = row} p y) h =
      rw p (elim (Result-cases (key_of d e schema row)) [
        | inl (k, q) ↦
            rw q (hash_build-build_of e schema next fuel (build ++ (k, row) ∷ []) y (omega arith))
        | inr (x, q) ↦ rw q
      ])

  module _ (f : ℕ) where
    pub filter_exec-Builds :
        (e : Expression) (x : Executor) (a : Answer)
        → x.schema ≡ a.schema
        → Opens x.opened a.rows
        → outcome_count a.rows < suc f
        → Builds (ok (filter_exec d (suc f) e x)) (ok (filter_answer d e a))
    unfolding filter_exec
    filter_exec-Builds e x a p h l = (
      p,
      rw p (
          Opens-bind (suc f) x.opened a.rows _ _ h l
            (λ s o m y. filter_next-Yields d e a.schema s.next (suc f) y m)),
    )

    pub project_exec-Builds :
        (es : List (Expression × Option String)) (x : Executor) (a : Answer)
        → x.schema ≡ a.schema
        → Opens x.opened a.rows
        → outcome_count a.rows < suc f
        → Builds (ok (project_exec d (suc f) es x)) (ok (project_answer d es a))
    unfolding project_exec
    project_exec-Builds es x a p h l = (
      refl,
      rw p (
          Opens-bind (suc f) x.opened a.rows _ _ h l
            (λ s o m y. project_next-Yields d s.next (map expression_of es) a.schema y)),
    )

    pub limit_exec-Builds :
        (n : ℕ) (x : Executor) (a : Answer)
        → x.schema ≡ a.schema
        → Opens x.opened a.rows
        → outcome_count a.rows < suc f
        → Builds (ok (limit_exec d (suc f) n x)) (ok (limit_answer d n a))
    unfolding limit_exec
    limit_exec-Builds n x a p h l =
        (p, Opens-bind (suc f) x.opened a.rows _ _ h l (λ s o m y. limit_next-Yields s.next n y))

    pub sort_exec-Builds :
        (order_by : List OrderByItem) (x : Executor) (a : Answer)
        → x.schema ≡ a.schema
        → Opens x.opened a.rows
        → outcome_count a.rows < suc f
        → Builds (ok (sort_exec d (suc f) order_by x)) (ok (sort_answer d order_by a))
    unfolding sort_exec
    sort_exec-Builds order_by x a p h l = (
      p,
      rw p (
          Opens-bind (suc f) x.opened a.rows _ _ h l (λ s o m y.
            Opens-same _ _ (collect_rows s.next (suc f) s.start []) (finished o.0 o.1)
              (collect_rows-finished s.next (suc f) s.start o.0 o.1 y m)
              (λ rows.
                Opens-alike _ _ (d.sort (comes_before d order_by a.schema) rows) stored-Yields))),
    )

    pub hash_aggregate_exec-Builds :
        (group_by : List Expression) (aggs : List AggregateExpr) (x : Executor) (a : Answer)
        → x.schema ≡ a.schema
        → Opens x.opened a.rows
        → outcome_count a.rows < suc f
        → Builds
            (ok (hash_aggregate_exec d (suc f) group_by aggs x))
            (ok (aggregate_answer d group_by aggs a))
    unfolding hash_aggregate_exec
    hash_aggregate_exec-Builds group_by aggs x a p h l = (
      refl,
      subst
          (λ s.
            Opens
              (hash_aggregate_exec d (suc f) group_by aggs
                (record { schema = s; opened = x.opened })).opened
              (aggregate_answer d group_by aggs a).rows)
          (sym p)
          (Opens-bind (suc f) x.opened a.rows _ _ h l (λ s o m y.
            Opens-same _ _ _ (group_rows d group_by aggs a.schema o.0 o.1 [])
              (group_loop-group_rows d group_by aggs a.schema s.next (suc f) [] y m)
              (λ gs. stored-Yields (aggregate_results d group_by aggs gs)))),
    )

    pub nested_loop-Builds :
        (e : Expression) (x y : Executor) (a b : Answer)
        → x.schema ≡ a.schema
        → y.schema ≡ b.schema
        → Opens x.opened a.rows
        → Opens y.opened b.rows
        → outcome_count a.rows < suc f
        → outcome_count b.rows < suc f
        → Builds (ok (nested_loop_join_exec d (suc f) e x y)) (ok (nested_loop_answer d e a b))
    unfolding nested_loop_join_exec
    nested_loop-Builds e x y a b p q h k l m =
        let schema = extend a.schema b.schema in
        (
          rw (p, q) refl,
          rw (p, q)
              (Opens-bind (suc f) x.opened a.rows _ _ h l (λ s o n yields.
                Opens-bind (suc f) y.opened b.rows _ _ k m (λ t r i yields'.
                  Opens-same _ _ (collect_rows t.next (suc f) t.start []) (finished r.0 r.1)
                    (collect_rows-finished t.next (suc f) t.start r.0 r.1 yields' i)
                    (λ rows. join_next-Yields d e schema rows s.next f yields n)))),
        )

    pub hash_join_of-Builds :
        (keys : Keys) (x y : Executor) (a b : Answer)
        → x.schema ≡ a.schema
        → y.schema ≡ b.schema
        → Opens x.opened a.rows
        → Opens y.opened b.rows
        → outcome_count a.rows < suc f
        → outcome_count b.rows < suc f
        → Builds (ok (hash_join_of d (suc f) keys x y)) (ok (hash_answer d keys a b))
    unfolding hash_join_of
    hash_join_of-Builds keys x y a b p q h k l m = (
      rw (p, q) refl,
      subst
          (λ s.
            Opens (hash_join_of d (suc f) keys (record { schema = s; opened = x.opened }) y).opened
              (hash_answer d keys a b).rows)
          (sym p)
          (subst
            (λ s.
              Opens
                (hash_join_of d (suc f) keys (record { schema = a.schema; opened = x.opened })
                  (record { schema = s; opened = y.opened })).opened
                (hash_answer d keys a b).rows)
            (sym q)
            (Opens-bind (suc f) x.opened a.rows _ _ h l (λ s o n yields.
              Opens-bind (suc f) y.opened b.rows _ _ k m (λ t r i yields'.
                Opens-same _ _ _ (build_of d keys.right_key b.schema r.0 r.1 [])
                  (hash_build-build_of keys.right_key b.schema t.next (suc f) [] yields' i)
                  (λ build. hash_next-Yields d keys.left_key a.schema build s.next f yields n))))),
    )
