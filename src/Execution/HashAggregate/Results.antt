-- ===== src/Execution/HashAggregate/Results.antt =====
-- The output of an aggregation without GROUP BY.
use sql_query_optimizer.Prelude.{
  ℕ, ◌+◌, ◌≡◌, refl, ap, ◌∙◌, none, List, [], ◌∷◌, length, arith, ◌⊎◌, inl, inr,
}
use sql_query_optimizer.Prelude.Int.{pos}
use sql_query_optimizer.Ast.{integer, wildcard}
use sql_query_optimizer.Plan.{AggregateExpr}
use sql_query_optimizer.Execution.Result.{ok, ◌>>=◌, bind-ok, ok-injective}
use sql_query_optimizer.Execution.Values.{Platform}
use sql_query_optimizer.Execution.RowSchema.{RowSchema}
use sql_query_optimizer.Execution.Eval.{Row}
use sql_query_optimizer.Execution.Operators.{project_row}
use sql_query_optimizer.Execution.HashAggregate.{
  AccState, Groups, fresh_state, fresh_acc, accumulate, accumulate_all, add_row, key_text,
  update_group, group_row, group_results, aggregate_values, aggregate_value, aggregate_results,
}
use sql_query_optimizer.Execution.HashAggregate.Groups.{group_rows}

-- COUNT(*)
abbrev pub count_star : AggregateExpr
count_star = record { func = "COUNT"; arg = wildcard; alias = none }

module _ (d : Platform) (schema : RowSchema) where
  -- No group yet, or the one of the empty key.
  abbrev AtMostOne : Groups → Type 0
  AtMostOne gs = (gs ≡ []) ⊎ ((st : AccState) × (gs ≡ ("", st) ∷ []))

  update-AtMostOne :
      (aggs : List AggregateExpr) (row : Row) (gs gs' : Groups)
      → AtMostOne gs
      → update_group d aggs schema row "" [] gs ≡ ok gs'
      → AtMostOne gs'
  unfolding update_group
  update-AtMostOne aggs row gs gs' (inl none_yet) h =
      let (st, p, q) =
        bind-ok (add_row d aggs schema row (fresh_state aggs [])) _ (rw none_yet at h) in
      inr (st, rw (← ok-injective q) refl)
  update-AtMostOne aggs row gs gs' (inr (st₀, one)) h =
      let (st, p, q) = bind-ok (add_row d aggs schema row st₀) _ (rw one at h) in
      inr (st, rw (← ok-injective q) refl)

  group_rows-AtMostOne :
      (aggs : List AggregateExpr) (rows : List Row) (gs gs' : Groups)
      → AtMostOne gs
      → group_rows d [] aggs schema rows none gs ≡ ok gs'
      → AtMostOne gs'
  unfolding group_rows group_row project_row key_text
  group_rows-AtMostOne aggs [] gs gs' one h = rw (← ok-injective h) one
  group_rows-AtMostOne aggs (row ∷ rows) gs gs' one h =
      let (gs₁, p, q) = bind-ok (group_row d [] aggs schema row gs) _ h in
      group_rows-AtMostOne aggs rows gs₁ gs' (update-AtMostOne aggs row gs gs₁ one p) q

  one_result :
      (aggs : List AggregateExpr) (gs : Groups)
      → AtMostOne gs
      → length (aggregate_results d [] aggs gs) ≡ 1
  unfolding aggregate_results group_results
  one_result aggs gs (inl empty) = rw empty refl
  one_result aggs gs (inr (st, one)) = rw one refl

  -- Without GROUP BY, an aggregation that succeeds has one output row, whatever the number of its
  -- input rows, also over none.
  pub aggregate_results-one_row :
      (aggs : List AggregateExpr) (rows : List Row) (gs : Groups)
      → group_rows d [] aggs schema rows none [] ≡ ok gs
      → length (aggregate_results d [] aggs gs) ≡ 1
  aggregate_results-one_row aggs rows gs h =
      one_result aggs gs (group_rows-AtMostOne aggs rows [] gs (inl refl) h)

  abbrev counted : ℕ → Groups
  counted n = ("", record { group_key = []; accs = record fresh_acc { count = n } ∷ [] }) ∷ []

  counted-rows :
      (rows : List Row) (n : ℕ)
      → group_rows d [] (count_star ∷ []) schema rows none (counted n)
        ≡ ok (counted (n + length rows))
  unfolding group_rows group_row project_row key_text update_group add_row accumulate_all accumulate
  counted-rows [] n = ap (λ m. ok (counted m)) (omega arith)
  counted-rows (row ∷ rows) n = counted-rows rows (n + 1) ∙ ap (λ m. ok (counted m)) (omega arith)

  -- `SELECT COUNT(*)` without GROUP BY never fails and has the number of the input rows as its one
  -- value.
  pub count_star-length :
      (rows : List Row)
      → (group_rows d [] (count_star ∷ []) schema rows none [] >>= λ gs.
          ok (aggregate_results d [] (count_star ∷ []) gs))
        ≡ ok ((integer (pos (length rows)) ∷ []) ∷ [])
  unfolding group_rows group_row project_row key_text update_group add_row accumulate_all accumulate
      aggregate_results group_results aggregate_values aggregate_value
  count_star-length [] = refl
  count_star-length (row ∷ rows) =
      rw (counted-rows rows 1) (ap (λ n. ok ((integer (pos n) ∷ []) ∷ [])) (omega arith))
