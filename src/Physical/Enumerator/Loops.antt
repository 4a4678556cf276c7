-- ===== src/Physical/Enumerator/Loops.antt =====
-- optimizer/join_enumerator.cpp: what the plans in the memo are made of.
use mathlib.Core.Path.{subst}
use mathlib.Core.Sum.{inr-injective}
use sql_query_optimizer.Prelude.{
  ℕ, zero, suc, ◌+◌, ◌-◌, ◌^◌, ◌≡◌, refl, sym, ap, ◌∙◌, Bool, true, false, not, ◌&&◌, Bool-cases,
  Option, none, some, inl, inr, List, [], ◌∷◌, length, get_elem?, eqb, arith, if◌then◌else◌,
}
use sql_query_optimizer.Schema.{Catalog}
use sql_query_optimizer.JoinGraph.{Relation, JoinEdge, JoinGraph}
use sql_query_optimizer.Physical.{PhysicalPlan}
use sql_query_optimizer.Physical.Formulas.{CostMath}
use sql_query_optimizer.Physical.Paths.{Estimator, cheaper, best_access_path}
use sql_query_optimizer.Physical.Enumerator.{
  test_bit, find_connecting_edge, Memo, find_plan, generate_best_candidate, popcount, better,
  try_join, has_relation, consider, consider_from, store, solve_subset, solve_size, solve_sizes,
  base_memo, found, find_best_plan,
}
use sql_query_optimizer.Physical.Enumerator.Covers.{
  bit-taken, single, Covers, AllCover, SomeCover, find_plan-Covers, find_connecting_edge-IsEdgeOf,
  candidate-Joins, Joins-Covers,
}

module _ (m : CostMath) (est : Estimator) (catalog : Catalog) (graph : JoinGraph) where
  if-Covers :
      (mask : ℕ) (w : Bool) (p q : PhysicalPlan)
      → Covers m est catalog graph mask p
      → Covers m est catalog graph mask q
      → Covers m est catalog graph mask (if w then p else q)
  if-Covers mask true p q h k = h
  if-Covers mask false p q h k = k

  better-Covers :
      (mask : ℕ) (best : Option PhysicalPlan) (c : PhysicalPlan)
      → SomeCover m est catalog graph mask best
      → Covers m est catalog graph mask c
      → Covers m est catalog graph mask (better m est catalog graph best c)
  unfolding better
  better-Covers mask none c h k = k
  better-Covers mask (some b) c h k = if-Covers mask (cheaper m est catalog c b) c b k h

  has_relation-bit : (b c : Bool) → (b && c) ≡ true → b ≡ true
  has_relation-bit true c h = refl
  has_relation-bit false c h = h

  -- The round of a set bit, when each of the three things it looks for is there.
  joined-Covers :
      (subset r : ℕ) (left right : PhysicalPlan) (edge : JoinEdge)
      → test_bit subset r ≡ true
      → Covers m est catalog graph (subset - 2 ^ r) left
      → Covers m est catalog graph (2 ^ r) right
      → find_connecting_edge (subset - 2 ^ r) (2 ^ r) graph.edges ≡ some edge
      → Covers m est catalog graph subset
          (generate_best_candidate m est catalog graph (subset - 2 ^ r) (2 ^ r) left right edge)
  joined-Covers subset r left right edge bit cl cr found_edge =
      let lm = subset - 2 ^ r in
      let (back, off) = bit-taken r subset bit in
      let c = generate_best_candidate m est catalog graph lm (2 ^ r) left right edge in
      subst (λ x. Covers m est catalog graph x c) back
        (Joins-Covers m est catalog graph left right edge lm r c
          (candidate-Joins m est catalog graph left right edge lm (2 ^ r)) cl cr off
          (find_connecting_edge-IsEdgeOf m est catalog graph lm (2 ^ r) graph.edges edge
            found_edge))

  try_join-Covers :
      (subset r : ℕ) (best l k : Option PhysicalPlan) (edge : Option JoinEdge)
      → SomeCover m est catalog graph subset best
      → test_bit subset r ≡ true
      → SomeCover m est catalog graph (subset - 2 ^ r) l
      → SomeCover m est catalog graph (2 ^ r) k
      → find_connecting_edge (subset - 2 ^ r) (2 ^ r) graph.edges ≡ edge
      → SomeCover m est catalog graph subset
          (try_join m est catalog graph (subset - 2 ^ r) (2 ^ r) best l k edge)
  unfolding try_join
  try_join-Covers subset r best none k edge b bit cl cr f = b
  try_join-Covers subset r best (some left) none edge b bit cl cr f = b
  try_join-Covers subset r best (some left) (some right) none b bit cl cr f = b
  try_join-Covers subset r best (some left) (some right) (some edge) b bit cl cr f =
      better-Covers subset best
        (generate_best_candidate m est catalog graph (subset - 2 ^ r) (2 ^ r) left right edge) b
        (joined-Covers subset r left right edge bit cl cr f)

  -- Each round keeps a plan of the subset.
  consider-Covers :
      (memo : Memo) (subset r : ℕ) (best : Option PhysicalPlan)
      → AllCover m est catalog graph memo
      → SomeCover m est catalog graph subset best
      → SomeCover m est catalog graph subset (consider m est catalog graph memo subset r best)
  unfolding consider
  consider-Covers memo subset r best h b = elim (Bool-cases (has_relation subset r)) [
    | inr e ↦ rw e b
    | inl e ↦
        let cl = find_plan-Covers m est catalog graph memo (subset - 2 ^ r) h in
        let cr = find_plan-Covers m est catalog graph memo (2 ^ r) h in
        let bit = has_relation-bit (test_bit subset r) (not (eqb (subset - 2 ^ r) 0)) e in
        rw e (
          try_join-Covers subset r best (find_plan memo (subset - 2 ^ r)) (find_plan memo (2 ^ r))
            (find_connecting_edge (subset - 2 ^ r) (2 ^ r) graph.edges) b bit cl cr refl)
  ]

  consider_from-Covers :
      (memo : Memo) (subset k r : ℕ) (best : Option PhysicalPlan)
      → AllCover m est catalog graph memo
      → SomeCover m est catalog graph subset best
      → SomeCover m est catalog graph subset
          (consider_from m est catalog graph memo subset k r best)
  unfolding consider_from
  consider_from-Covers memo subset zero r best h b = b
  consider_from-Covers memo subset (suc k) r best h b =
      consider_from-Covers memo subset k (suc r) (consider m est catalog graph memo subset r best) h
        (consider-Covers memo subset r best h b)

  store-Covers :
      (subset : ℕ) (o : Option PhysicalPlan) (memo : Memo)
      → SomeCover m est catalog graph subset o
      → AllCover m est catalog graph memo
      → AllCover m est catalog graph (store m est catalog graph subset o memo)
  store-Covers subset none memo c h = h
  store-Covers subset (some p) memo c h = (c, h)

  solve_subset-Covers :
      (subset : ℕ) (memo : Memo)
      → AllCover m est catalog graph memo
      → AllCover m est catalog graph (solve_subset m est catalog graph subset memo)
  unfolding solve_subset
  solve_subset-Covers subset memo h =
      store-Covers subset
        (consider_from m est catalog graph memo subset (length graph.relations) 0 none) memo
        (consider_from-Covers memo subset (length graph.relations) 0 none h tt) h

  if-AllCover :
      (b : Bool) (xs ys : Memo)
      → AllCover m est catalog graph xs
      → AllCover m est catalog graph ys
      → AllCover m est catalog graph (if b then xs else ys)
  if-AllCover true xs ys h k = h
  if-AllCover false xs ys h k = k

  solve_size-Covers :
      (size k subset : ℕ) (memo : Memo)
      → AllCover m est catalog graph memo
      → AllCover m est catalog graph (solve_size m est catalog graph size k subset memo)
  unfolding solve_size
  solve_size-Covers size zero subset memo h = h
  solve_size-Covers size (suc k) subset memo h =
      let solved = solve_subset m est catalog graph subset memo in
      let due = eqb (popcount 64 subset) size in
      solve_size-Covers size k (suc subset) (if due then solved else memo)
        (if-AllCover due solved memo (solve_subset-Covers subset memo h) h)

  solve_sizes-Covers :
      (k size : ℕ) (memo : Memo)
      → AllCover m est catalog graph memo
      → AllCover m est catalog graph (solve_sizes m est catalog graph k size memo)
  unfolding solve_sizes
  solve_sizes-Covers zero size memo h = h
  solve_sizes-Covers (suc k) size memo h =
      let masks = 2 ^ length graph.relations - 1 in
      solve_sizes-Covers k (suc size) (solve_size m est catalog graph size masks 1 memo)
        (solve_size-Covers size masks 1 memo h)

  -- The positions of a rest of the relations are those of the relations from `i` on.
  base_memo-Covers :
      (rels : List Relation) (i : ℕ) (memo : Memo)
      → ((k : ℕ) → get_elem? rels k ≡ get_elem? graph.relations (k + i))
      → AllCover m est catalog graph memo
      → AllCover m est catalog graph (base_memo m est catalog graph rels i memo)
  unfolding base_memo
  base_memo-Covers [] i memo at h = h
  base_memo-Covers (rel ∷ rels) i memo at h =
      base_memo-Covers rels (suc i) ((2 ^ i, best_access_path m est catalog rel) ∷ memo)
        (λ k. at (suc k) ∙ ap (get_elem? graph.relations) (omega arith))
        (single i rel (ap (get_elem? graph.relations) (omega arith) ∙ sym (at 0)), h)

  found-Covers :
      (mask : ℕ) (o : Option PhysicalPlan) (p : PhysicalPlan)
      → SomeCover m est catalog graph mask o
      → found m est catalog graph o ≡ inr p
      → Covers m est catalog graph mask p
  found-Covers mask none p h e = cc
  found-Covers mask (some q) p h e = subst (Covers m est catalog graph mask) (inr-injective q p e) h

  -- A plan that the search finds reads all the relations of the graph, and each of its joins is an
  -- inner join, under an edge that connects the two sides, with one relation more.
  pub find_best_plan-Covers :
      (p : PhysicalPlan)
      → find_best_plan m est catalog graph ≡ inr p
      → Covers m est catalog graph (2 ^ length graph.relations - 1) p
  unfolding find_best_plan
  find_best_plan-Covers p h = elim (Bool-cases (eqb (length graph.relations) 0)) [
    | inl e ↦ let none_there = rw e at h in cc
    | inr e ↦
        let n = length graph.relations in
        let base = base_memo m est catalog graph graph.relations 0 [] in
        let memo = solve_sizes m est catalog graph (n - 1) 2 base in
        found-Covers (2 ^ n - 1) (find_plan memo (2 ^ n - 1)) p
          (find_plan-Covers m est catalog graph memo (2 ^ n - 1) (
            solve_sizes-Covers (n - 1) 2 base (
              base_memo-Covers graph.relations 0 []
                (λ k. ap (get_elem? graph.relations) (omega arith)) tt)))
          (rw e at h)
  ]
