-- ===== src/Physical/Enumerator/Rounds.antt =====
-- optimizer/join_enumerator.cpp: the rounds over the relations that may be joined last.
use mathlib.Core.Path.{subst}
use sql_query_optimizer.Prelude.{
  ℕ, zero, suc, ◌+◌, ◌-◌, ◌^◌, ◌<◌, ◌≡◌, Bool, true, false, Option, none, some, arith,
  if◌then◌else◌,
}
use sql_query_optimizer.Schema.{Catalog}
use sql_query_optimizer.JoinGraph.{JoinEdge, JoinGraph}
use sql_query_optimizer.Physical.{PhysicalPlan}
use sql_query_optimizer.Physical.Formulas.{CostMath}
use sql_query_optimizer.Physical.Paths.{Estimator}
use sql_query_optimizer.Physical.Enumerator.{
  find_connecting_edge, Memo, find_plan, try_join, has_relation, consider, consider_from,
}
use sql_query_optimizer.Physical.Enumerator.Connected.{IsFound}
use sql_query_optimizer.Physical.Enumerator.Keeps.{HasPlan}

module _ (m : CostMath) (est : Estimator) (catalog : Catalog) (graph : JoinGraph) where
  pub try_join-keeps :
      (lm rm : ℕ) (best l r : Option PhysicalPlan) (edge : Option JoinEdge)
      → IsFound best
      → IsFound (try_join m est catalog graph lm rm best l r edge)
  unfolding try_join
  try_join-keeps lm rm best none r edge h = h
  try_join-keeps lm rm best (some p) none edge h = h
  try_join-keeps lm rm best (some p) (some q) none h = h
  try_join-keeps lm rm best (some p) (some q) (some edge) h = tt

  pub try_join-IsFound :
      (lm rm : ℕ) (best l r : Option PhysicalPlan) (edge : Option JoinEdge)
      → IsFound l
      → IsFound r
      → IsFound edge
      → IsFound (try_join m est catalog graph lm rm best l r edge)
  unfolding try_join
  try_join-IsFound lm rm best none r edge h j k = elim h [ ]
  try_join-IsFound lm rm best (some p) none edge h j k = elim j [ ]
  try_join-IsFound lm rm best (some p) (some q) none h j k = elim k [ ]
  try_join-IsFound lm rm best (some p) (some q) (some edge) h j k = tt

  pub if-IsFound :
      (b : Bool) (x y : Option PhysicalPlan) → IsFound x → IsFound y → IsFound (if b then x else y)
  if-IsFound true x y h k = h
  if-IsFound false x y h k = k

  pub consider-keeps :
      (memo : Memo) (subset r : ℕ) (best : Option PhysicalPlan)
      → IsFound best
      → IsFound (consider m est catalog graph memo subset r best)
  unfolding consider
  consider-keeps memo subset r best h =
      let lm = subset - 2 ^ r in
      let l = find_plan memo lm in
      let k = find_plan memo (2 ^ r) in
      let e = find_connecting_edge lm (2 ^ r) graph.edges in
      if-IsFound (has_relation subset r) (try_join m est catalog graph lm (2 ^ r) best l k e) best
        (try_join-keeps lm (2 ^ r) best l k e h) h

  pub consider_from-keeps :
      (memo : Memo) (subset k r : ℕ) (best : Option PhysicalPlan)
      → IsFound best
      → IsFound (consider_from m est catalog graph memo subset k r best)
  unfolding consider_from
  consider_from-keeps memo subset zero r best h = h
  consider_from-keeps memo subset (suc k) r best h =
      consider_from-keeps memo subset k (suc r) (consider m est catalog graph memo subset r best)
        (consider-keeps memo subset r best h)

  -- Relation `r` can be joined last.
  pub record CanJoin (memo : Memo) (subset r : ℕ) : Type 0 where
    pub present : has_relation subset r ≡ true
    pub others : HasPlan m est catalog graph memo (subset - 2 ^ r)
    pub itself : HasPlan m est catalog graph memo (2 ^ r)
    pub edge : IsFound (find_connecting_edge (subset - 2 ^ r) (2 ^ r) graph.edges)

  pub consider-IsFound :
      (memo : Memo) (subset r : ℕ) (best : Option PhysicalPlan)
      → CanJoin memo subset r
      → IsFound (consider m est catalog graph memo subset r best)
  unfolding consider
  consider-IsFound memo subset r best c = rw c.present (
      try_join-IsFound (subset - 2 ^ r) (2 ^ r) best (find_plan memo (subset - 2 ^ r))
        (find_plan memo (2 ^ r)) (find_connecting_edge (subset - 2 ^ r) (2 ^ r) graph.edges)
        c.others c.itself c.edge)

  pub consider_from-IsFound :
      (memo : Memo) (subset k r i : ℕ) (best : Option PhysicalPlan)
      → i < k
      → CanJoin memo subset (i + r)
      → IsFound (consider_from m est catalog graph memo subset k r best)
  unfolding consider_from
  consider_from-IsFound memo subset zero r i best h c =
      let absurd : ⊥ = omega arith in elim absurd [ ]
  consider_from-IsFound memo subset (suc k) r zero best h c =
      let here : 0 + r ≡ r = omega arith in
      consider_from-keeps memo subset k (suc r) (consider m est catalog graph memo subset r best)
        (consider-IsFound memo subset r best (subst (CanJoin memo subset) here c))
  consider_from-IsFound memo subset (suc k) r (suc i) best h c =
      let there : suc i + r ≡ i + suc r = omega arith in
      consider_from-IsFound memo subset k (suc r) i
        (consider m est catalog graph memo subset r best) (omega arith)
        (subst (CanJoin memo subset) there c)
