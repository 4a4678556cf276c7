-- ===== src/Physical/Enumerator/Covers.antt =====
-- optimizer/join_enumerator.cpp: what a join of two plans covers.
use mathlib.Core.Path.{subst}
use mathlib.Core.Option.{some-injective}
use sql_query_optimizer.Prelude.{
  ℕ, zero, suc, ◌+◌, ◌-◌, ◌*◌, ◌/◌, ◌%◌, ◌^◌, ◌≡◌, refl, Bool, true, false, Bool-cases, Option,
  none, some, inl, inr, List, [], ◌∷◌, get_elem?, eqb, eqb→eq, All, arith, if◌then◌else◌,
}
use sql_query_optimizer.Ast.{JoinType}
use sql_query_optimizer.Schema.{Catalog}
use sql_query_optimizer.JoinGraph.{Relation, JoinEdge, JoinGraph}
use sql_query_optimizer.Physical.{Estimates, PhysicalPlan, join, JoinKind}
use sql_query_optimizer.Physical.Formulas.{CostMath, rows_to_size}
use sql_query_optimizer.Physical.Paths.{Estimate, Estimator, cheaper, rows_of, best_access_path}
use sql_query_optimizer.Physical.Enumerator.{
  test_bit, connects, is_equi, find_connecting_edge, only_relation, probes,
  synthetic_scope_for_mask, Memo, find_plan, nested_candidate, hash_candidate, index_candidate_of,
  try_index_nested_loop, more_candidates, pick_cheapest, generate_best_candidate,
}

-- Taking a set bit from a mask, and putting it back.
pub bit-taken :
    (r mask : ℕ)
    → test_bit mask r ≡ true
    → (mask - 2 ^ r + 2 ^ r ≡ mask) × (test_bit (mask - 2 ^ r) r ≡ false)
unfolding test_bit
bit-taken zero mask h =
    let odd = eqb→eq (mask % 2) 1 h in
    let even : (mask - 1) % 2 ≡ 0 = omega arith in (omega arith, rw even refl)
bit-taken (suc r) mask h =
    let (back, off) = bit-taken r (mask / 2) h in
    let double : 2 ^ suc r ≡ 2 * 2 ^ r = omega arith in
    let half : (mask - 2 ^ suc r) / 2 ≡ mask / 2 - 2 ^ r = omega arith in (omega arith, rw half off)

module _ (m : CostMath) (est : Estimator) (catalog : Catalog) (graph : JoinGraph) where
  -- A plan that reads the relations of a mask: the access path of one, or an inner join, under an edge
  -- that connects them, of a plan of a mask and a plan of a relation outside it, in either order.
  pub data Covers : ℕ → PhysicalPlan → Type 0 where
    single :
        (i : ℕ) (rel : Relation)
        → get_elem? graph.relations i ≡ some rel
        → Covers (2 ^ i) (best_access_path m est catalog rel)
    extended :
        (mask r k : ℕ) {p q : PhysicalPlan} (edge : JoinEdge) {kind : JoinKind} {e : Estimates}
        → Covers mask p
        → Covers (2 ^ r) q
        → test_bit mask r ≡ false
        → get_elem? graph.edges k ≡ some edge
        → connects mask (2 ^ r) edge ≡ true
        → Covers (mask + 2 ^ r) (join kind JoinType.inner edge.predicate p q e)
    extending :
        (mask r k : ℕ) {p q : PhysicalPlan} (edge : JoinEdge) {kind : JoinKind} {e : Estimates}
        → Covers mask p
        → Covers (2 ^ r) q
        → test_bit mask r ≡ false
        → get_elem? graph.edges k ≡ some edge
        → connects mask (2 ^ r) edge ≡ true
        → Covers (mask + 2 ^ r) (join kind JoinType.inner edge.predicate q p e)

  abbrev pub AllCover : Memo → Type 0
  AllCover memo = All (λ e. Covers e.0 e.1) memo

  abbrev pub SomeCover : ℕ → Option PhysicalPlan → Type 0
  SomeCover mask none = Unit
  SomeCover mask (some p) = Covers mask p

  pub find_plan-Covers :
      (memo : Memo) (mask : ℕ) → AllCover memo → SomeCover mask (find_plan memo mask)
  unfolding find_plan
  find_plan-Covers [] mask h = tt
  find_plan-Covers ((k, p) ∷ memo) mask (here, h) = elim (Bool-cases (eqb k mask)) [
    | inl e ↦ rw e (subst (λ x. Covers x p) (eqb→eq k mask e) here)
    | inr e ↦ rw e (find_plan-Covers memo mask h)
  ]

  -- A connecting edge is one of the graph's.
  abbrev pub IsEdgeOf : ℕ → ℕ → List JoinEdge → JoinEdge → Type 0
  IsEdgeOf left right edges edge =
      ((k : ℕ) × (get_elem? edges k ≡ some edge)) × (connects left right edge ≡ true)

  pub find_connecting_edge-IsEdgeOf :
      (left right : ℕ) (edges : List JoinEdge) (edge : JoinEdge)
      → find_connecting_edge left right edges ≡ some edge
      → IsEdgeOf left right edges edge
  unfolding find_connecting_edge
  find_connecting_edge-IsEdgeOf left right [] edge h = cc
  find_connecting_edge-IsEdgeOf left right (x ∷ edges) edge h =
      elim (Bool-cases (connects left right x)) [
        | inl e ↦ let same = some-injective x edge (rw e at h) in ((0, rw same refl), rw (← same) e)
        | inr e ↦
            let ((k, p), c) = find_connecting_edge-IsEdgeOf left right edges edge (rw e at h) in
            ((suc k, p), c)
      ]

  -- A join of the two plans, in either order, under the edge.
  module _ (left right : PhysicalPlan) (edge : JoinEdge) where
    pub data Joins : PhysicalPlan → Type 0 where
      forward :
          {kind : JoinKind} {e : Estimates}
          → Joins (join kind JoinType.inner edge.predicate left right e)
      backward :
          {kind : JoinKind} {e : Estimates}
          → Joins (join kind JoinType.inner edge.predicate right left e)

    if-Joins : (b : Bool) (x y : PhysicalPlan) → Joins x → Joins y → Joins (if b then x else y)
    if-Joins true x y h k = h
    if-Joins false x y h k = k

    if-All :
        (b : Bool) (xs ys : List PhysicalPlan)
        → All Joins xs
        → All Joins ys
        → All Joins (if b then xs else ys)
    if-All true xs ys h k = h
    if-All false xs ys h k = k

    pick_cheapest-Joins :
        (best : PhysicalPlan) (cs : List PhysicalPlan)
        → Joins best
        → All Joins cs
        → Joins (pick_cheapest m est catalog graph best cs)
    unfolding pick_cheapest
    pick_cheapest-Joins best [] h k = h
    pick_cheapest-Joins best (c ∷ cs) h (k, ks) =
        pick_cheapest-Joins (if cheaper m est catalog c best then c else best) cs
          (if-Joins (cheaper m est catalog c best) c best k h) ks

    try_index-Joins :
        (lm rm rows : ℕ) (e : Estimate)
        → All Joins
            (try_index_nested_loop m est catalog graph lm rm left right edge.predicate rows e)
    unfolding try_index_nested_loop
    try_index-Joins lm rm rows e =
        let by_right =
          index_candidate_of m est catalog graph edge.predicate rows e left right ∷ [] in
        let by_left =
          index_candidate_of m est catalog graph edge.predicate rows e right left ∷ [] in
        let on_right = probes catalog (only_relation graph rm) edge.predicate in
        let on_left = probes catalog (only_relation graph lm) edge.predicate in
        if-All on_right by_right (if on_left then by_left else []) (forward, tt)
          (if-All on_left by_left [] (backward, tt) tt)

    more_candidates-Joins :
        (lm rm rows : ℕ) (e : Estimate)
        → All Joins (more_candidates m est catalog graph lm rm left right edge.predicate rows e)
    unfolding more_candidates
    more_candidates-Joins lm rm rows e =
        let equi =
          hash_candidate m est catalog graph edge.predicate rows e left right
          ∷ try_index_nested_loop m est catalog graph lm rm left right edge.predicate rows e in
        (
          backward,
          if-All (is_equi edge.predicate) equi [] (forward, try_index-Joins lm rm rows e) tt,
        )

    pub candidate-Joins :
        (lm rm : ℕ) → Joins (generate_best_candidate m est catalog graph lm rm left right edge)
    unfolding generate_best_candidate
    candidate-Joins lm rm =
        let e =
          est.estimate_join (m.of_size (rows_of left)) (m.of_size (rows_of right)) edge.predicate
            (synthetic_scope_for_mask graph lm) (synthetic_scope_for_mask graph rm) in
        let rows = rows_to_size m e.rows in
        pick_cheapest-Joins (nested_candidate m est catalog graph edge.predicate rows e left right)
          (more_candidates m est catalog graph lm rm left right edge.predicate rows e) forward
          (more_candidates-Joins lm rm rows e)

    -- Either way, it covers the mask with the new relation.
    pub Joins-Covers :
        (mask r : ℕ) (p : PhysicalPlan)
        → Joins p
        → Covers mask left
        → Covers (2 ^ r) right
        → test_bit mask r ≡ false
        → IsEdgeOf mask (2 ^ r) graph.edges edge
        → Covers (mask + 2 ^ r) p
    Joins-Covers mask r p forward cl cr off ((k, at), c) = extended mask r k edge cl cr off at c
    Joins-Covers mask r p backward cl cr off ((k, at), c) = extending mask r k edge cl cr off at c
