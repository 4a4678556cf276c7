-- ===== src/Optimizer/Predicates/Runs.antt =====
-- Pushdown of predicates, as runs of the executors see it.
use sql_query_optimizer.Prelude.{ℕ, suc, ◌+◌, ◌<◌, ◌≡◌, refl, sym, ap, ◌∙◌, List}
use sql_query_optimizer.Plan.{LogicalPlan}
use sql_query_optimizer.Physical.{PhysicalPlan}
use sql_query_optimizer.Storage.{Database, AreRectangular}
use sql_query_optimizer.Execution.Result.{Result, ok, err, ◌>>=◌, map_ok, ok-injective}
use sql_query_optimizer.Execution.Values.{Platform}
use sql_query_optimizer.Execution.Eval.{Row}
use sql_query_optimizer.Execution.Meaning.{Relation, UpperNodes, meaning}
use sql_query_optimizer.Execution.Exact.{exact, exact-meaning}
use sql_query_optimizer.Execution.Builder.{ExternalRowSets, build_executor, run_to_completion}
use sql_query_optimizer.Execution.Builder.Answers.{answer, row_count, total_rows}
use sql_query_optimizer.Execution.Builder.Logical.{CarriesOut, run_to_completion-exact}
use sql_query_optimizer.Optimizer.Predicates.{push_predicates}
use sql_query_optimizer.Optimizer.Predicates.Scopes.{JoinsOverBlocks}
use sql_query_optimizer.Optimizer.Predicates.Sound.{HasUniformFilters, push_predicates-meaning}

module _ (d : Platform) (db : Database) (external : ExternalRowSets) where
  -- No node stands above the joins.
  abbrev no_nodes : UpperNodes
  no_nodes = record {
    aggregated = λ g a rel. ok rel;
    projected = λ es rel. ok rel;
    sorted = λ o rel. ok rel;
    limited = λ n rel. ok rel;
  }

  exact-rows :
      (l : LogicalPlan) (r : Result Relation) (rows : List Row)
      → exact d db l ≡ r
      → map_ok (λ rel. rel.rows) r ≡ ok rows
      → map_ok (λ rel. rel.rows) (meaning d no_nodes db l) ≡ ok rows
  exact-rows l (ok rel) rows e h = rw (exact-meaning d db no_nodes l rel e) h
  exact-rows l (err x) rows e h = cc

  ran-rows :
      {p : PhysicalPlan} {l : LogicalPlan} (f : ℕ) (rows : List Row)
      → CarriesOut p l
      → total_rows d db external p + row_count (answer d db external p) < suc f
      → (build_executor d (suc f) db external p >>= run_to_completion d (suc f)) ≡ ok rows
      → map_ok (λ rel. rel.rows) (meaning d no_nodes db l) ≡ ok rows
  ran-rows {p} {l} f rows c n h =
      exact-rows l (exact d db l) rows refl ((run_to_completion-exact d db external f rows c n).0 h)

  -- Take rectangular tables, and a plan whose joins stand over scans, filters and joins and none of
  -- whose filter conjuncts mixes qualified with unqualified columns. Let the plan, and the plan that
  -- pushdown makes of it, be carried out by sequential scans, filters and inner nested loop joins, and
  -- be run with more fuel than the rows of all their nodes. If both runs return rows, these are the
  -- same rows in the same order.
  pub push_predicates-runs :
      (l : LogicalPlan) (p q : PhysicalPlan) (f g : ℕ) (rows pushed_rows : List Row)
      → AreRectangular db
      → JoinsOverBlocks l
      → HasUniformFilters l
      → CarriesOut p l
      → CarriesOut q (push_predicates l)
      → total_rows d db external p + row_count (answer d db external p) < suc f
      → total_rows d db external q + row_count (answer d db external q) < suc g
      → (build_executor d (suc f) db external p >>= run_to_completion d (suc f)) ≡ ok rows
      → (build_executor d (suc g) db external q >>= run_to_completion d (suc g)) ≡ ok pushed_rows
      → pushed_rows ≡ rows
  push_predicates-runs l p q f g rows pushed_rows rect blocks uniform c c' n n' h h' =
      ok-injective (
        sym (ran-rows g pushed_rows c' n' h')
        ∙ ap (map_ok (λ rel. rel.rows))
            (push_predicates-meaning d no_nodes db rect l blocks uniform)
        ∙ ran-rows f rows c n h)
