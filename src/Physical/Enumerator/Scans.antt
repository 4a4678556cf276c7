-- ===== src/Physical/Enumerator/Scans.antt =====
-- optimizer/join_enumerator.cpp: what a plan that the search finds reads, and how many conditions it
-- tests.
use mathlib.Core.Option.{some-injective}
use sql_query_optimizer.Prelude.{
  ℕ, zero, suc, ◌+◌, ◌-◌, ◌*◌, ◌/◌, ◌%◌, ◌^◌, ◌≡◌, refl, ◌∙◌, String, Bool, true, false, Option,
  none, some, Option-cases, inl, inr, List, [], ◌∷◌, ◌++◌, length, length-append, get_elem?, eqb,
  All, All-append, arith, if◌then◌else◌,
}
use sql_query_optimizer.Prelude.Totals.{total, SameItems, total-append, total-length}
use sql_query_optimizer.Ast.{Expression, Literal}
use sql_query_optimizer.Plan.{LogicalPlan}
use sql_query_optimizer.Schema.{Catalog, get}
use sql_query_optimizer.JoinGraph.{Relation, JoinEdge, JoinGraph}
use sql_query_optimizer.JoinGraph.Accounts.{relation_names}
use sql_query_optimizer.Physical.{
  PhysicalPlan, seq_scan, index_scan, filter, join, hash_aggregate, project, sort, limit,
  external_rows,
}
use sql_query_optimizer.Physical.Formulas.{CostMath}
use sql_query_optimizer.Physical.Paths.{
  Estimator, cheaper, or_index, stack_filters, seq_candidate, index_candidate,
  find_indexed_equality, best_access_path,
}
use sql_query_optimizer.Physical.Enumerator.{test_bit, find_best_plan}
use sql_query_optimizer.Physical.Enumerator.Masks.{pow_positive, even_of}
use sql_query_optimizer.Physical.Enumerator.Loops.{find_best_plan-Covers}
use sql_query_optimizer.Physical.Enumerator.Covers.{Covers, single, extended, extending}

-- The tables and aliases that a plan reads, and the conditions of its joins.
unfoldable pub plan_scans : PhysicalPlan → List (String × Option String)
plan_scans (seq_scan t a c e) = (t, a) ∷ []
plan_scans (index_scan t a c col v e) = (t, a) ∷ []
plan_scans (filter x i e) = plan_scans i
plan_scans (join k t x l r e) = plan_scans l ++ plan_scans r
plan_scans (hash_aggregate g x i e) = plan_scans i
plan_scans (project x i e) = plan_scans i
plan_scans (sort o i e) = plan_scans i
plan_scans (limit n i e) = plan_scans i
plan_scans (external_rows t c s g x e) = []

unfoldable pub join_conditions : PhysicalPlan → List Expression
join_conditions (seq_scan t a c e) = []
join_conditions (index_scan t a c col v e) = []
join_conditions (filter x i e) = join_conditions i
join_conditions (join k t x l r e) = x ∷ (join_conditions l ++ join_conditions r)
join_conditions (hash_aggregate g x i e) = join_conditions i
join_conditions (project x i e) = join_conditions i
join_conditions (sort o i e) = join_conditions i
join_conditions (limit n i e) = join_conditions i
join_conditions (external_rows t c s g x e) = []

-- A plan that reads this one table, without a join.
abbrev Reads : String × Option String → PhysicalPlan → Type 0
unfolding plan_scans join_conditions
Reads name p = (plan_scans p ≡ name ∷ []) × (join_conditions p ≡ [])

if-Reads :
    (name : String × Option String) (b : Bool) (p q : PhysicalPlan)
    → Reads name p
    → Reads name q
    → Reads name (if b then p else q)
if-Reads name true p q h k = h
if-Reads name false p q h k = k

module _ (m : CostMath) (est : Estimator) (catalog : Catalog) where
  stack_filters-Reads :
      (name : String × Option String) (scope : LogicalPlan) (skip : Option ℕ) (i : ℕ)
      (preds : List Expression) (p : PhysicalPlan) (w : _)
      → Reads name p
      → Reads name (stack_filters m est catalog scope skip i preds p w)
  unfolding stack_filters plan_scans join_conditions
  stack_filters-Reads name scope skip i [] p w h = h
  stack_filters-Reads name scope none i (x ∷ preds) p w h =
      stack_filters-Reads name scope none (i + 1) preds _ _ h
  stack_filters-Reads name scope (some k) i (x ∷ preds) p w h =
      if-Reads name (eqb i k) (stack_filters m est catalog scope (some k) (i + 1) preds p w) _
        (stack_filters-Reads name scope (some k) (i + 1) preds p w h)
        (stack_filters-Reads name scope (some k) (i + 1) preds _ _ h)

  or_index-Reads :
      (name : String × Option String) (p : PhysicalPlan) (o : Option PhysicalPlan)
      → Reads name p
      → ((q : PhysicalPlan) → o ≡ some q → Reads name q)
      → Reads name (or_index m est catalog p o)
  unfolding or_index
  or_index-Reads name p none h k = h
  or_index-Reads name p (some q) h k = if-Reads name (cheaper m est catalog q p) q p (k q refl) h

  seq_candidate-Reads :
      (rel : Relation) → Reads (rel.table_name, rel.alias) (seq_candidate m est catalog rel)
  unfolding seq_candidate plan_scans join_conditions
  seq_candidate-Reads rel =
      stack_filters-Reads (rel.table_name, rel.alias) _ none 0 rel.local_filters _ _ (refl, refl)

  index_candidate-Reads :
      (rel : Relation) (pos : ℕ) (c : String) (v : Literal) (q : PhysicalPlan)
      → index_candidate m est catalog rel pos c v ≡ some q
      → Reads (rel.table_name, rel.alias) q
  unfolding index_candidate plan_scans join_conditions
  index_candidate-Reads rel pos c v q h = elim (Option-cases (get_elem? rel.local_filters pos)) [
    | inl e ↦ let missing = rw (index_candidate, e) at h in cc
    | inr (x, e) ↦
        let same = some-injective _ q (rw (index_candidate, e) at h) in
        rw (← same) (
          stack_filters-Reads (rel.table_name, rel.alias) _ (some pos) 0 rel.local_filters _ _
            (refl, refl))
  ]

  best_access_path-Reads :
      (rel : Relation) → Reads (rel.table_name, rel.alias) (best_access_path m est catalog rel)
  unfolding best_access_path
  best_access_path-Reads rel = elim (Option-cases (get catalog rel.table_name)) [
    | inl e ↦ rw (best_access_path, e) (seq_candidate-Reads rel)
    | inr (schema, e) ↦ elim (Option-cases (find_indexed_equality rel.local_filters schema 0)) [
      | inl f ↦ rw (best_access_path, e, f) (seq_candidate-Reads rel)
      | inr ((pos, c, v), f) ↦
          rw (best_access_path, e, f)
            (or_index-Reads (rel.table_name, rel.alias) (seq_candidate m est catalog rel)
              (index_candidate m est catalog rel pos c v) (seq_candidate-Reads rel)
              (index_candidate-Reads rel pos c v))
    ]
  ]

-- The weight of the items of a mask.
abbrev masked {ℓ} : {A : Type ℓ} → (A → ℕ) → List A → ℕ → ℕ
masked w [] mask = 0
masked w (x ∷ xs) mask = (mask % 2) * w x + masked w xs (mask / 2)

masked-zero {ℓ} : {A : Type ℓ} (w : A → ℕ) (xs : List A) → masked w xs 0 ≡ 0
masked-zero w [] = refl
masked-zero w (x ∷ xs) = omega (arith, masked-zero w xs)

masked-single {ℓ} :
    {A : Type ℓ} (w : A → ℕ) (xs : List A) (i : ℕ) (x : A)
    → get_elem? xs i ≡ some x
    → masked w xs (2 ^ i) ≡ w x
masked-single w [] i x h = cc
masked-single w (y ∷ xs) zero x h = rw (← some-injective y x h) omega (arith, masked-zero w xs)
masked-single w (y ∷ xs) (suc i) x h =
    let half : (2 ^ suc i) / 2 ≡ 2 ^ i = omega arith in
    let even : (2 ^ suc i) % 2 ≡ 0 = omega arith in
    rw (half, even) omega (arith, masked-single w xs i x h)

masked-add {ℓ} :
    {A : Type ℓ} (w : A → ℕ) (xs : List A) (mask r : ℕ)
    → test_bit mask r ≡ false
    → masked w xs (mask + 2 ^ r) ≡ masked w xs mask + masked w xs (2 ^ r)
unfolding test_bit
masked-add w [] mask r h = refl
masked-add w (x ∷ xs) mask zero h =
    let even : mask % 2 ≡ 0 = even_of mask h in
    let odd : (mask + 1) % 2 ≡ 1 = omega (arith, even) in
    let half : (mask + 1) / 2 ≡ mask / 2 = omega (arith, even) in
    rw (odd, half, even) omega (arith, masked-zero w xs)
masked-add w (x ∷ xs) mask (suc r) h =
    let half : (mask + 2 ^ suc r) / 2 ≡ mask / 2 + 2 ^ r = omega arith in
    let odd : (mask + 2 ^ suc r) % 2 ≡ mask % 2 = omega arith in
    let half' : (2 ^ suc r) / 2 ≡ 2 ^ r = omega arith in
    let even : (2 ^ suc r) % 2 ≡ 0 = omega arith in
    rw (half, odd, half', even) omega (arith, masked-add w xs (mask / 2) r h)

masked-all {ℓ} :
    {A : Type ℓ} (w : A → ℕ) (xs : List A) → masked w xs (2 ^ length xs - 1) ≡ total w xs
masked-all w [] = refl
masked-all w (x ∷ xs) =
    let half : (2 ^ suc (length xs) - 1) / 2 ≡ 2 ^ length xs - 1 =
      omega (arith, pow_positive (length xs)) in
    let odd : (2 ^ suc (length xs) - 1) % 2 ≡ 1 = omega (arith, pow_positive (length xs)) in
    rw (half, odd) omega (arith, masked-all w xs)

module _ (m : CostMath) (est : Estimator) (catalog : Catalog) (graph : JoinGraph) where
  -- The names that a plan of a mask reads weigh as much as the mask's.
  Covers-masked :
      (w : String × Option String → ℕ) (mask : ℕ) (p : PhysicalPlan)
      → Covers m est catalog graph mask p
      → total w (plan_scans p)
        ≡ masked (λ (r : Relation). w (r.table_name, r.alias)) graph.relations mask
  unfolding plan_scans Reads
  Covers-masked w _ _ (single i rel at) =
      rw (best_access_path-Reads m est catalog rel).0 omega (
        arith,
        masked-single (λ (r : Relation). w (r.table_name, r.alias)) graph.relations i rel at,
      )
  Covers-masked w _ _ (extended mask r k {p} {q} edge c d off at e) = omega (
    arith,
    total-append w (plan_scans p) (plan_scans q),
    Covers-masked w mask p c,
    Covers-masked w (2 ^ r) q d,
    masked-add (λ (x : Relation). w (x.table_name, x.alias)) graph.relations mask r off,
  )
  Covers-masked w _ _ (extending mask r k {p} {q} edge c d off at e) = omega (
    arith,
    total-append w (plan_scans q) (plan_scans p),
    Covers-masked w mask p c,
    Covers-masked w (2 ^ r) q d,
    masked-add (λ (x : Relation). w (x.table_name, x.alias)) graph.relations mask r off,
  )

  names-total :
      (w : String × Option String → ℕ) (rs : List Relation)
      → total (λ (r : Relation). w (r.table_name, r.alias)) rs ≡ total w (relation_names rs)
  names-total w [] = refl
  names-total w (r ∷ rs) = omega (arith, names-total w rs)

  -- A plan that the search finds reads each relation of the graph once, and nothing else.
  pub find_best_plan-scans :
      (p : PhysicalPlan)
      → find_best_plan m est catalog graph ≡ inr p
      → SameItems (plan_scans p) (relation_names graph.relations)
  find_best_plan-scans p h w =
      let masked_w =
        Covers-masked w (2 ^ length graph.relations - 1) p
          (find_best_plan-Covers m est catalog graph p h) in
      masked_w
      ∙ masked-all (λ (r : Relation). w (r.table_name, r.alias)) graph.relations
      ∙ names-total w graph.relations

  -- The condition of an edge of the graph.
  abbrev pub IsEdgeCondition : Expression → Type 0
  IsEdgeCondition x =
      (k : ℕ) × (edge : JoinEdge) × (get_elem? graph.edges k ≡ some edge) × (edge.predicate ≡ x)

  -- Conditions of edges, one less than there are scans.
  record JoinsScans (conditions : List Expression) (scans : List (String × Option String))
      : Type 0 where
    edges : All IsEdgeCondition conditions
    number : length conditions + 1 ≡ length scans

  both-JoinsScans :
      (xs ys : List Expression) (ss ts : List (String × Option String)) (k : ℕ) (edge : JoinEdge)
      → JoinsScans xs ss
      → JoinsScans ys ts
      → get_elem? graph.edges k ≡ some edge
      → JoinsScans (edge.predicate ∷ (xs ++ ys)) (ss ++ ts)
  both-JoinsScans xs ys ss ts k edge h j at = record {
    edges = ((k, edge, at, refl), All-append IsEdgeCondition xs ys h.edges j.edges);
    number = omega (arith, length-append xs ys, length-append ss ts, h.number, j.number);
  }

  Covers-JoinsScans :
      (mask : ℕ) (p : PhysicalPlan)
      → Covers m est catalog graph mask p
      → JoinsScans (join_conditions p) (plan_scans p)
  unfolding plan_scans join_conditions Reads
  Covers-JoinsScans _ _ (single i rel at) =
      let (reads, tests) = best_access_path-Reads m est catalog rel in
      rw (reads, tests) record { edges = tt; number = refl }
  Covers-JoinsScans _ _ (extended mask r k {p} {q} edge c d off at e) =
      both-JoinsScans (join_conditions p) (join_conditions q) (plan_scans p) (plan_scans q) k edge
        (Covers-JoinsScans mask p c) (Covers-JoinsScans (2 ^ r) q d) at
  Covers-JoinsScans _ _ (extending mask r k {p} {q} edge c d off at e) =
      both-JoinsScans (join_conditions q) (join_conditions p) (plan_scans q) (plan_scans p) k edge
        (Covers-JoinsScans (2 ^ r) q d) (Covers-JoinsScans mask p c) at

  names-length : (rs : List Relation) → length (relation_names rs) ≡ length rs
  names-length [] = refl
  names-length (r ∷ rs) = omega (arith, names-length rs)

  -- Each join of a plan that the search finds tests the condition of one edge of the graph, and there is
  -- one join less than there are relations.
  pub find_best_plan-conditions :
      (p : PhysicalPlan)
      → find_best_plan m est catalog graph ≡ inr p
      → All IsEdgeCondition (join_conditions p)
        × (length (join_conditions p) + 1 ≡ length graph.relations)
  find_best_plan-conditions p h =
      let made =
        Covers-JoinsScans (2 ^ length graph.relations - 1) p
          (find_best_plan-Covers m est catalog graph p h) in
      (
        made.edges,
        omega (
          arith,
          made.number,
          find_best_plan-scans p h (λ x. 1),
          total-length (plan_scans p),
          total-length (relation_names graph.relations),
          names-length graph.relations,
        ),
      )
