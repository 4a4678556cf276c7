-- ===== src/Physical/Enumerator/Found.antt =====
-- optimizer/join_enumerator.cpp: when the search finds a plan.
use mathlib.Core.Path.{subst}
use sql_query_optimizer.Prelude.{
  ℕ, zero, suc, ◌+◌, ◌-◌, ◌^◌, ◌≤◌, ◌<◌, ◌≡◌, ◌↔◌, refl, sym, ap, ◌∙◌, Bool, true, false,
  Bool-cases, Option, none, some, inl, inr, [], length, get_elem?, eqb, eqb→eq, arith,
  if◌then◌else◌,
}
use sql_query_optimizer.Schema.{Catalog}
use sql_query_optimizer.JoinGraph.{JoinEdge, JoinGraph}
use sql_query_optimizer.Physical.{PhysicalPlan}
use sql_query_optimizer.Physical.Formulas.{CostMath}
use sql_query_optimizer.Physical.Paths.{Estimator}
use sql_query_optimizer.Physical.Enumerator.{
  test_bit, popcount, connects, find_connecting_edge, Memo, find_plan, consider_from, store,
  solve_subset, solve_size, solve_sizes, base_memo, found, find_best_plan,
}
use sql_query_optimizer.Physical.Enumerator.Connected.{
  IsConnected, one_relation, one_more, IsFound, IsSubset, connecting-IsFound, eq→eqb,
  IsConnected-IsSubset, put-has_relation, get_elem?-lt,
}
use sql_query_optimizer.Physical.Enumerator.Loops.{find_best_plan-Covers}
use sql_query_optimizer.Physical.Enumerator.Covers.{Covers, single, extended, extending}
use sql_query_optimizer.Physical.Enumerator.Masks.{
  lt-of_pow, pow_positive, put-lt, popcount-put, popcount-le,
}
use sql_query_optimizer.Physical.Enumerator.Keeps.{
  HasPlan, solve_subset-keeps, solve_size-keeps, solve_sizes-keeps, newest-HasPlan,
  base_memo-HasPlan,
}
use sql_query_optimizer.Physical.Enumerator.Rounds.{CanJoin, consider_from-IsFound}

module _ (m : CostMath) (est : Estimator) (catalog : Catalog) (graph : JoinGraph) where
  stored-HasPlan :
      (memo : Memo) (subset : ℕ) (o : Option PhysicalPlan)
      → IsFound o
      → HasPlan m est catalog graph (store m est catalog graph subset o memo) subset
  stored-HasPlan memo subset none h = elim h [ ]
  stored-HasPlan memo subset (some p) h = newest-HasPlan m est catalog graph memo subset p

  solve_subset-HasPlan :
      (memo : Memo) (subset r : ℕ)
      → r < length graph.relations
      → CanJoin m est catalog graph memo subset r
      → HasPlan m est catalog graph (solve_subset m est catalog graph subset memo) subset
  unfolding solve_subset
  solve_subset-HasPlan memo subset r h c =
      let here : r ≡ r + 0 = omega arith in
      stored-HasPlan memo subset
        (consider_from m est catalog graph memo subset (length graph.relations) 0 none)
        (consider_from-IsFound m est catalog graph memo subset (length graph.relations) 0 r none h
          (subst (CanJoin m est catalog graph memo subset) here c))

  if-CanJoin :
      (b : Bool) (xs ys : Memo) (subset r : ℕ)
      → CanJoin m est catalog graph xs subset r
      → CanJoin m est catalog graph ys subset r
      → CanJoin m est catalog graph (if b then xs else ys) subset r
  if-CanJoin true xs ys subset r h k = h
  if-CanJoin false xs ys subset r h k = k

  solve_subset-CanJoin :
      (memo : Memo) (other subset r : ℕ)
      → CanJoin m est catalog graph memo subset r
      → CanJoin m est catalog graph (solve_subset m est catalog graph other memo) subset r
  solve_subset-CanJoin memo other subset r c = record {
    present = c.present;
    others = solve_subset-keeps m est catalog graph memo (subset - 2 ^ r) other c.others;
    itself = solve_subset-keeps m est catalog graph memo (2 ^ r) other c.itself;
    edge = c.edge;
  }

  -- The subset is `i` masks further on.
  solve_size-HasPlan :
      (memo : Memo) (size k from i r : ℕ)
      → i < k
      → popcount 64 (i + from) ≡ size
      → r < length graph.relations
      → CanJoin m est catalog graph memo (i + from) r
      → HasPlan m est catalog graph (solve_size m est catalog graph size k from memo) (i + from)
  unfolding solve_size
  solve_size-HasPlan memo size zero from i r h e n c =
      let absurd : ⊥ = omega arith in elim absurd [ ]
  solve_size-HasPlan memo size (suc k) from zero r h e n c =
      let here : 0 + from ≡ from = omega arith in
      let due : eqb (popcount 64 from) size ≡ true =
        eq→eqb (popcount 64 from) size (ap (popcount 64) (sym here) ∙ e) in
      rw (here, due)
        (solve_size-keeps m est catalog graph (solve_subset m est catalog graph from memo) from size
          k (suc from)
          (solve_subset-HasPlan memo from r n
            (subst (λ x. CanJoin m est catalog graph memo x r) here c)))
  solve_size-HasPlan memo size (suc k) from (suc i) r h e n c =
      let there : suc i + from ≡ i + suc from = omega arith in
      let solved = solve_subset m est catalog graph from memo in
      let due = eqb (popcount 64 from) size in
      let c' = subst (λ x. CanJoin m est catalog graph memo x r) there c in
      rw there (
        solve_size-HasPlan (if due then solved else memo) size k (suc from) i r (omega arith)
          (ap (popcount 64) (sym there) ∙ e) n
          (if-CanJoin due solved memo (i + suc from) r
            (solve_subset-CanJoin memo from (i + suc from) r c') c'))

  -- The sizes up to one of them, that one, and those after it.
  solve_sizes-split :
      (a b size : ℕ) (memo : Memo)
      → solve_sizes m est catalog graph (a + suc b) size memo
        ≡ solve_sizes m est catalog graph b (suc (a + size)) (
            solve_size m est catalog graph
              (a + size)
              (2 ^ length graph.relations - 1)
              1
              (solve_sizes m est catalog graph a size memo))
  unfolding solve_sizes
  solve_sizes-split zero b size memo =
      let more : 0 + suc b ≡ suc b = omega arith in
      let here : 0 + size ≡ size = omega arith in rw (more, here) refl
  solve_sizes-split (suc a) b size memo =
      let more : suc a + suc b ≡ suc (a + suc b) = omega arith in
      let there : suc a + size ≡ a + suc size = omega arith in
      let masks = 2 ^ length graph.relations - 1 in
      rw (more, there)
        (solve_sizes-split a b (suc size) (solve_size m est catalog graph size masks 1 memo))

  abbrev base : Memo
  base = base_memo m est catalog graph graph.relations 0 []

  -- A mask with one relation more is solved among those of its size, from a memo with the rest.
  extended-HasPlan :
      (memo : Memo) (mask r k size : ℕ) (edge : JoinEdge)
      → IsSubset graph mask
      → length graph.relations ≤ 64
      → r < length graph.relations
      → test_bit mask r ≡ false
      → get_elem? graph.edges k ≡ some edge
      → connects mask (2 ^ r) edge ≡ true
      → popcount 64 mask + 1 ≡ size
      → HasPlan m est catalog graph memo mask
      → HasPlan m est catalog graph memo (2 ^ r)
      → HasPlan m est catalog graph
          (solve_size m est catalog graph size (2 ^ length graph.relations - 1) 1 memo)
          (mask + 2 ^ r)
  extended-HasPlan memo mask r k size edge s n h off at e bits p q =
      let subset = mask + 2 ^ r in
      let back : mask ≡ subset - 2 ^ r = omega arith in
      let within = put-lt (length graph.relations) r mask h s.within off in
      let place : subset - 1 + 1 ≡ subset = omega (arith, pow_positive r) in
      let joinable : CanJoin m est catalog graph memo subset r = record {
        present = put-has_relation mask r off s.positive;
        others = subst (HasPlan m est catalog graph memo) back p;
        itself = q;
        edge =
            subst (λ x. IsFound (find_connecting_edge x (2 ^ r) graph.edges)) back
              (connecting-IsFound mask (2 ^ r) graph.edges k edge at e);
      } in
      subst
        (HasPlan m est catalog graph
          (solve_size m est catalog graph size (2 ^ length graph.relations - 1) 1 memo))
        place
        (solve_size-HasPlan memo size (2 ^ length graph.relations - 1) 1 (subset - 1) r
          (omega (arith, pow_positive r))
          (ap (popcount 64) place ∙ popcount-put 64 r mask (omega arith) off ∙ bits) h
          (subst (λ x. CanJoin m est catalog graph memo x r) (sym place) joinable))

  connected-HasPlan :
      (mask k : ℕ)
      → length graph.relations ≤ 64
      → IsConnected graph mask
      → popcount 64 mask ≤ k + 1
      → HasPlan m est catalog graph (solve_sizes m est catalog graph k 2 base) mask
  connected-HasPlan _ k n (one_relation i h) le =
      let here : i + 0 ≡ i = omega arith in
      solve_sizes-keeps m est catalog graph base (2 ^ i) k 2 (
        subst (λ x. HasPlan m est catalog graph base (2 ^ x)) here
          (base_memo-HasPlan m est catalog graph graph.relations 0 [] i h))
  connected-HasPlan _ k n (one_more mask r j edge c h off at e) le =
      let s = IsConnected-IsSubset graph mask n c in
      let bits = popcount-put 64 r mask (omega arith) off in
      let a = popcount 64 mask - 1 in
      let b = k - popcount 64 mask in
      let sizes : a + suc b ≡ k = omega (arith, s.some_bit, bits, le) in
      let here : r + 0 ≡ r = omega arith in
      let memo = solve_sizes m est catalog graph a 2 base in
      let rest = connected-HasPlan mask a n c (omega (arith, s.some_bit)) in
      let itself = solve_sizes-keeps m est catalog graph base (2 ^ r) a 2 (
        subst (λ x. HasPlan m est catalog graph base (2 ^ x)) here
          (base_memo-HasPlan m est catalog graph graph.relations 0 [] r h)) in
      let solved =
        extended-HasPlan memo mask r j (a + 2) edge s n h off at e (omega (arith, s.some_bit)) rest
          itself in
      let masks = 2 ^ length graph.relations - 1 in
      let after =
        solve_sizes-keeps m est catalog graph (solve_size m est catalog graph (a + 2) masks 1 memo)
          (mask + 2 ^ r) b (suc (a + 2)) solved in
      subst
        (λ x. HasPlan m est catalog graph (solve_sizes m est catalog graph x 2 base) (mask + 2 ^ r))
        sizes (rw (solve_sizes-split a b 2 base) after)

  found-plan :
      (o : Option PhysicalPlan)
      → IsFound o
      → (p : PhysicalPlan) × (found m est catalog graph o ≡ inr p)
  found-plan none h = elim h [ ]
  found-plan (some p) h = (p, refl)

  find_best_plan-finds :
      length graph.relations ≤ 64
      → IsConnected graph (2 ^ length graph.relations - 1)
      → (p : PhysicalPlan) × (find_best_plan m est catalog graph ≡ inr p)
  unfolding find_best_plan
  find_best_plan-finds n c =
      let s = IsConnected-IsSubset graph (2 ^ length graph.relations - 1) n c in
      let bits =
        popcount-le 64 (length graph.relations) (2 ^ length graph.relations - 1) s.within in
      elim (Bool-cases (eqb (length graph.relations) 0)) [
        | inl e ↦
            let none_there : length graph.relations ≡ 0 = eqb→eq (length graph.relations) 0 e in
            let only : 2 ^ length graph.relations ≡ 1 = rw none_there refl in
            let absurd : ⊥ = omega (arith, s.positive, only) in elim absurd [ ]
        | inr e ↦
            let positive : 1 ≤ length graph.relations = ground arith in
            let k = length graph.relations - 1 in
            rw e (
              found-plan
                (find_plan (solve_sizes m est catalog graph k 2 base)
                  (2 ^ length graph.relations - 1))
                (connected-HasPlan (2 ^ length graph.relations - 1) k n c
                  (omega (arith, positive, bits))))
      ]

  Covers-IsConnected :
      (mask : ℕ) (p : PhysicalPlan)
      → length graph.relations ≤ 64
      → Covers m est catalog graph mask p
      → IsConnected graph mask
  Covers-IsConnected _ _ n (single i rel at) =
      one_relation i (get_elem?-lt graph.relations i rel at)
  Covers-IsConnected _ _ n (extended mask r k {p} {q} edge c d off at e) =
      let s = IsConnected-IsSubset graph (2 ^ r) n (Covers-IsConnected (2 ^ r) q n d) in
      one_more mask r k edge (Covers-IsConnected mask p n c)
        (lt-of_pow r (length graph.relations) s.within) off at e
  Covers-IsConnected _ _ n (extending mask r k {p} {q} edge c d off at e) =
      let s = IsConnected-IsSubset graph (2 ^ r) n (Covers-IsConnected (2 ^ r) q n d) in
      one_more mask r k edge (Covers-IsConnected mask p n c)
        (lt-of_pow r (length graph.relations) s.within) off at e

  -- The search on a graph of fewer than 64 relations finds a plan exactly if the relations can be joined
  -- one by one, each by an edge to those before.
  pub find_best_plan-IsConnected :
      length graph.relations < 64
      → ((p : PhysicalPlan) × (find_best_plan m est catalog graph ≡ inr p))
        ↔ IsConnected graph (2 ^ length graph.relations - 1)
  find_best_plan-IsConnected h =
      let n : length graph.relations ≤ 64 = omega arith in
      (
        λ (p, e).
            Covers-IsConnected (2 ^ length graph.relations - 1) p n
              (find_best_plan-Covers m est catalog graph p e),
        find_best_plan-finds n,
      )
