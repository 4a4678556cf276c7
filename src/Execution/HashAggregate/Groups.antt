-- ===== src/Execution/HashAggregate/Groups.antt =====
-- What the groups hold after the rows were read.
use sql_query_optimizer.Prelude.{
  ℕ, zero, suc, ◌<◌, String, true, false, ◌==◌, ◌≡◌, refl, sym, ◌∙◌, Option, none, some, List, [],
  ◌∷◌, length, value_or, arith, eq_iff, Bool-cases, inl, inr, ◌⊎◌, if◌then◌else◌,
}
use sql_query_optimizer.Ast.{Expression}
use sql_query_optimizer.Plan.{AggregateExpr}
use sql_query_optimizer.Execution.Result.{
  Result, Error, ok, err, ◌>>=◌, Result-cases, bind-ok, ok-injective,
}
use sql_query_optimizer.Execution.Values.{Platform}
use sql_query_optimizer.Execution.RowSchema.{RowSchema}
use sql_query_optimizer.Execution.Eval.{Row}
use sql_query_optimizer.Execution.Streams.{Next, Yields, ends, fails, gives}
use sql_query_optimizer.Execution.Operators.{project_row}
use sql_query_optimizer.Execution.HashAggregate.{
  AccState, Groups, fresh_state, add_row, key_text, update_group, group_row, group_loop,
}

unfoldable pub lookup : Groups → String → Option AccState
lookup [] k = none
lookup ((k', st) ∷ gs) k = if k' == k then some st else lookup gs k

module _ (d : Platform) (group_by : List Expression) (aggs : List AggregateExpr)
    (schema : RowSchema) where
  -- The loop over the rows of an input that ends so.
  unfoldable pub group_rows : List Row → Option Error → Groups → Result Groups
  group_rows [] none gs = ok gs
  group_rows [] (some x) gs = err x
  group_rows (row ∷ rows) end gs =
      group_row d group_by aggs schema row gs >>= λ gs'. group_rows rows end gs'

  -- The loop of the hash aggregate, with more rounds than its input has rows, groups the rows one by
  -- one in order; it throws where the input does or an evaluation does.
  pub group_loop-group_rows :
      {S : Type 0} (next : Next S) (fuel : ℕ) {s : S} {rows : List Row} {end : Option Error}
      (gs : Groups)
      → Yields next s rows end
      → length rows < fuel
      → group_loop d group_by aggs schema next fuel s gs ≡ group_rows rows end gs
  unfolding group_loop group_rows
  group_loop-group_rows next zero gs y h = absurd (omega arith)
  group_loop-group_rows next (suc fuel) gs (ends p) h = rw p
  group_loop-group_rows next (suc fuel) gs (fails p) h = rw p
  group_loop-group_rows next (suc fuel) gs (gives {row = row} p y) h =
      rw p (elim (Result-cases (group_row d group_by aggs schema row gs)) [
        | inl (gs', q) ↦ rw q (group_loop-group_rows next fuel gs' y (omega arith))
        | inr (x, q) ↦ rw q
      ])

  -- The state of one group alone: only the rows with its key count, the first of which makes it.
  abbrev one_group_at : String → Row → Option AccState → Row → Result (Option AccState)
  one_group_at k row st key =
      if key_text d key == k
      then (add_row d aggs schema row (value_or st (fresh_state aggs key)) >>= λ st'. ok (some st'))
      else ok st

  unfoldable pub one_group : String → List Row → Option AccState → Result (Option AccState)
  one_group k [] st = ok st
  one_group k (row ∷ rows) st = project_row d group_by schema row >>= λ key.
      one_group_at k row st key >>= λ st'. one_group k rows st'

  -- What an update does to the group of each key.
  update-lookup :
      (row key : Row) (k : String) (gs gs' : Groups)
      → update_group d aggs schema row (key_text d key) key gs ≡ ok gs'
      → one_group_at k row (lookup gs k) key ≡ ok (lookup gs' k)
  unfolding update_group lookup
  update-lookup row key k [] gs' h =
      let (st, p, q) = bind-ok (add_row d aggs schema row (fresh_state aggs key)) _ h in
      rw (p, ← ok-injective q) (by_key (Bool-cases (key_text d key == k)) st)
    where
      by_key :
          ((key_text d key == k) ≡ true) ⊎ ((key_text d key == k) ≡ false)
          → (st : AccState)
          → (if key_text d key == k then ok (some st) else ok none)
            ≡ ok (if key_text d key == k then some st else none)
      by_key (inl e) st = rw e refl
      by_key (inr e) st = rw e refl
  update-lookup row key k ((k₀, st₀) ∷ gs) gs' h = elim (Bool-cases (k₀ == key_text d key)) [
    | inl e ↦
        let (st', p, q) = bind-ok (add_row d aggs schema row st₀) _ (rw e at h) in
        let same : k₀ ≡ key_text d key = (eq_iff k₀ (key_text d key)).0 e in
        rw (← ok-injective q, ← same)
          (elim (Bool-cases (k₀ == k)) [ inl f ↦ rw (f, p) refl | inr f ↦ rw f refl ])
    | inr e ↦
        let (gs₁, p, q) =
          bind-ok (update_group d aggs schema row (key_text d key) key gs) _ (rw e at h) in
        let more = update-lookup row key k gs gs₁ p in
        rw (← ok-injective q) (elim (Bool-cases (k₀ == k)) [
          | inr f ↦ rw f more
          | inl f ↦ elim (Bool-cases (key_text d key == k)) [
            | inr g ↦ rw (f, g) refl
            | inl g ↦
                let k₀_k = (eq_iff k₀ k).0 f in
                let t_k = (eq_iff (key_text d key) k).0 g in
                let k₀_t = (eq_iff k₀ (key_text d key)).1 (k₀_k ∙ sym t_k) in cc
          ]
        ])
  ]

  -- If the grouping of the rows succeeds, each key's group is what its own rows alone, those with the
  -- same key text, make of it one by one: no row counts in another group, and none is left out.
  pub group_rows-one_group :
      (k : String) (rows : List Row) (gs gs' : Groups)
      → group_rows rows none gs ≡ ok gs'
      → one_group k rows (lookup gs k) ≡ ok (lookup gs' k)
  unfolding group_rows one_group group_row
  group_rows-one_group k [] gs gs' h = rw (ok-injective h) refl
  group_rows-one_group k (row ∷ rows) gs gs' h =
      let (gs₁, p, q) = bind-ok (group_row d group_by aggs schema row gs) _ h in
      let (key, r, u) = bind-ok (project_row d group_by schema row) _ p in
      rw (r, update-lookup row key k gs gs₁ u) (group_rows-one_group k rows gs₁ gs' q)
