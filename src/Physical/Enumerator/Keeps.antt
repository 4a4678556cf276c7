-- ===== src/Physical/Enumerator/Keeps.antt =====
-- optimizer/join_enumerator.cpp: what is in the memo stays in it.
use sql_query_optimizer.Prelude.{
  ℕ, zero, suc, ◌+◌, ◌-◌, ◌^◌, ◌<◌, ◌≡◌, refl, Bool, true, false, Bool-cases, Option, none, some,
  inl, inr, List, [], ◌∷◌, length, eqb, arith, if◌then◌else◌,
}
use sql_query_optimizer.Schema.{Catalog}
use sql_query_optimizer.JoinGraph.{Relation, JoinGraph}
use sql_query_optimizer.Physical.{PhysicalPlan}
use sql_query_optimizer.Physical.Formulas.{CostMath}
use sql_query_optimizer.Physical.Paths.{Estimator, best_access_path}
use sql_query_optimizer.Physical.Enumerator.{
  popcount, Memo, find_plan, consider_from, store, solve_subset, solve_size, solve_sizes, base_memo,
}
use sql_query_optimizer.Physical.Enumerator.Connected.{IsFound, eq→eqb}

module _ (m : CostMath) (est : Estimator) (catalog : Catalog) (graph : JoinGraph) where
  abbrev pub HasPlan : Memo → ℕ → Type 0
  HasPlan memo mask = IsFound (find_plan memo mask)

  pub more-HasPlan :
      (memo : Memo) (mask k : ℕ) (p : PhysicalPlan)
      → HasPlan memo mask
      → HasPlan ((k, p) ∷ memo) mask
  unfolding find_plan
  more-HasPlan memo mask k p h = elim (Bool-cases (eqb k mask)) [ inl e ↦ rw e tt | inr e ↦ rw e h ]

  pub store-HasPlan :
      (memo : Memo) (mask subset : ℕ) (o : Option PhysicalPlan)
      → HasPlan memo mask
      → HasPlan (store m est catalog graph subset o memo) mask
  store-HasPlan memo mask subset none h = h
  store-HasPlan memo mask subset (some p) h = more-HasPlan memo mask subset p h

  pub if-HasPlan :
      (b : Bool) (xs ys : Memo) (mask : ℕ)
      → HasPlan xs mask
      → HasPlan ys mask
      → HasPlan (if b then xs else ys) mask
  if-HasPlan true xs ys mask h k = h
  if-HasPlan false xs ys mask h k = k

  pub solve_subset-keeps :
      (memo : Memo) (mask subset : ℕ)
      → HasPlan memo mask
      → HasPlan (solve_subset m est catalog graph subset memo) mask
  unfolding solve_subset
  solve_subset-keeps memo mask subset h =
      store-HasPlan memo mask subset
        (consider_from m est catalog graph memo subset (length graph.relations) 0 none) h

  pub solve_size-keeps :
      (memo : Memo) (mask size k subset : ℕ)
      → HasPlan memo mask
      → HasPlan (solve_size m est catalog graph size k subset memo) mask
  unfolding solve_size
  solve_size-keeps memo mask size zero subset h = h
  solve_size-keeps memo mask size (suc k) subset h =
      let solved = solve_subset m est catalog graph subset memo in
      let due = eqb (popcount 64 subset) size in
      solve_size-keeps (if due then solved else memo) mask size k (suc subset)
        (if-HasPlan due solved memo mask (solve_subset-keeps memo mask subset h) h)

  pub solve_sizes-keeps :
      (memo : Memo) (mask k size : ℕ)
      → HasPlan memo mask
      → HasPlan (solve_sizes m est catalog graph k size memo) mask
  unfolding solve_sizes
  solve_sizes-keeps memo mask zero size h = h
  solve_sizes-keeps memo mask (suc k) size h =
      let masks = 2 ^ length graph.relations - 1 in
      solve_sizes-keeps (solve_size m est catalog graph size masks 1 memo) mask k (suc size)
        (solve_size-keeps memo mask size masks 1 h)

  pub base_memo-keeps :
      (rels : List Relation) (i : ℕ) (memo : Memo) (mask : ℕ)
      → HasPlan memo mask
      → HasPlan (base_memo m est catalog graph rels i memo) mask
  unfolding base_memo
  base_memo-keeps [] i memo mask h = h
  base_memo-keeps (rel ∷ rels) i memo mask h =
      let p = best_access_path m est catalog rel in
      base_memo-keeps rels (suc i) ((2 ^ i, p) ∷ memo) mask (more-HasPlan memo mask (2 ^ i) p h)

  pub newest-HasPlan : (memo : Memo) (mask : ℕ) (p : PhysicalPlan) → HasPlan ((mask, p) ∷ memo) mask
  unfolding find_plan
  newest-HasPlan memo mask p = rw (eq→eqb mask mask refl) tt

  -- Each relation has its access path.
  pub base_memo-HasPlan :
      (rels : List Relation) (i : ℕ) (memo : Memo) (k : ℕ)
      → k < length rels
      → HasPlan (base_memo m est catalog graph rels i memo) (2 ^ (k + i))
  unfolding base_memo
  base_memo-HasPlan [] i memo k h = let absurd : ⊥ = omega arith in elim absurd [ ]
  base_memo-HasPlan (rel ∷ rels) i memo zero h =
      let p = best_access_path m est catalog rel in
      let here : 0 + i ≡ i = omega arith in
      rw here
        (base_memo-keeps rels (suc i) ((2 ^ i, p) ∷ memo) (2 ^ i) (newest-HasPlan memo (2 ^ i) p))
  base_memo-HasPlan (rel ∷ rels) i memo (suc k) h =
      let p = best_access_path m est catalog rel in
      let there : suc k + i ≡ k + suc i = omega arith in
      rw there (base_memo-HasPlan rels (suc i) ((2 ^ i, p) ∷ memo) k (omega arith))
