-- ===== src/Physical/Planner/Scans.antt =====
-- physical/physical_planner.cpp: what a physical plan reads.
use mathlib.Core.Option.{some-injective}
use mathlib.Core.Sum.{inr-injective}
use sql_query_optimizer.Prelude.{
  ◌≡◌, refl, sym, ap, ◌∙◌, String, Bool, true, false, ◌&&◌, Bool-cases, Option, none, some,
  Option-cases, ◌⊎◌, inl, inr, List, [], ◌∷◌, ◌++◌, arith, if◌then◌else◌,
}
use sql_query_optimizer.Prelude.Totals.{total, SameItems, total-append}
use sql_query_optimizer.Ast.{Literal, Expression, JoinType}
use sql_query_optimizer.Plan.{LogicalPlan, scan, filter, join, aggregate, project, sort, limit}
use sql_query_optimizer.Schema.{Catalog}
use sql_query_optimizer.Optimizer.Predicates.Scopes.{IsJoinBlock}
use sql_query_optimizer.JoinGraph.{
  JoinGraphExtraction, RawExtraction, collect, split_and_copy, build_join_graph,
  is_join_search_candidate,
}
use sql_query_optimizer.JoinGraph.Accounts.{scan_names, relation_names}
use sql_query_optimizer.JoinGraph.Placed.{build_join_graph-Extracted}
use sql_query_optimizer.Physical.{PhysicalPlan}
use sql_query_optimizer.Physical.Formulas.{CostMath}
use sql_query_optimizer.Physical.Paths.{Estimator, column_equality}
use sql_query_optimizer.Physical.Enumerator.{PlanError, is_equi, find_best_plan}
use sql_query_optimizer.Physical.Enumerator.Scans.{plan_scans, find_best_plan-scans}
use sql_query_optimizer.Physical.Planner.{
  with_plan, with_plans, try_index_scan, index_scan_of, choose_join_strategy, residual_filters,
  plan_join_search, search_or, or_filter, plan_node, plan_scan, plan_filter, plan_aggregate,
  plan_project, plan_sort, plan_limit, generate_physical_plan,
}

-- The tables and aliases that a logical plan reads.
unfoldable pub table_names : LogicalPlan → List (String × Option String)
table_names (scan t a c) = (t, a) ∷ []
table_names (filter e i) = table_names i
table_names (join t e l r) = table_names l ++ table_names r
table_names (aggregate g x i) = table_names i
table_names (project es i) = table_names i
table_names (sort o i) = table_names i
table_names (limit n i) = table_names i

-- What the join graph accepts is a join block.
collect-IsJoinBlock :
    (p : LogicalPlan) (out x : RawExtraction) → collect p out ≡ some x → IsJoinBlock p
unfolding collect
collect-IsJoinBlock (scan t a c) out x h = tt
collect-IsJoinBlock (filter e i) out x h =
    collect-IsJoinBlock i (record out { predicates = out.predicates ++ split_and_copy e }) x h
collect-IsJoinBlock (join t e l r) out x h =
    let out' : RawExtraction = record out { predicates = out.predicates ++ split_and_copy e } in
    elim (Option-cases (collect l out')) [
      | inl missing ↦ let gone = rw (collect, missing) at h in cc
      | inr (y, there) ↦
          (collect-IsJoinBlock l out' y there, collect-IsJoinBlock r y x (rw (collect, there) at h))
    ]
collect-IsJoinBlock p out x h = cc

if-none-some {ℓ} : {A : Type ℓ} (b : Bool) (x y : A) → (if b then none else some x) ≡ some y → x ≡ y
if-none-some true x y h = cc
if-none-some false x y h = some-injective x y h

if-some-none {ℓ} :
    {A : Type ℓ} (b : Bool) (o : Option A) (y : A) → (if b then o else none) ≡ some y → o ≡ some y
if-some-none true o y h = h
if-some-none false o y h = cc

IsJoinBlock-names : (p : LogicalPlan) → IsJoinBlock p → scan_names p ≡ table_names p
unfolding scan_names table_names
IsJoinBlock-names (scan t a c) h = refl
IsJoinBlock-names (filter e i) h = IsJoinBlock-names i h
IsJoinBlock-names (join t e l r) h = rw (IsJoinBlock-names l h.0, IsJoinBlock-names r h.1) refl
IsJoinBlock-names (aggregate g x i) h = elim h [ ]
IsJoinBlock-names (project es i) h = elim h [ ]
IsJoinBlock-names (sort o i) h = elim h [ ]
IsJoinBlock-names (limit n i) h = elim h [ ]

build_join_graph-IsJoinBlock :
    (p : LogicalPlan) (x : JoinGraphExtraction) → build_join_graph p ≡ some x → IsJoinBlock p
unfolding build_join_graph
build_join_graph-IsJoinBlock p x h =
    elim (Option-cases (collect p (record { relations = []; predicates = [] }))) [
      | inl missing ↦ let gone = rw (build_join_graph, missing) at h in cc
      | inr (y, there) ↦ collect-IsJoinBlock p (record { relations = []; predicates = [] }) y there
    ]

module _ (m : CostMath) (est : Estimator) (catalog : Catalog) where
  residual_filters-scans :
      (preds : List Expression) (p : PhysicalPlan)
      → plan_scans (residual_filters m est catalog preds p) ≡ plan_scans p
  unfolding residual_filters plan_scans
  residual_filters-scans [] p = refl
  residual_filters-scans (x ∷ preds) p = residual_filters-scans preds _

  -- What a planning step returns, if it returns, reads these tables.
  abbrev ReadsAll : List (String × Option String) → PlanError ⊎ PhysicalPlan → Type 0
  ReadsAll names o = (p : PhysicalPlan) → o ≡ inr p → SameItems (plan_scans p) names

  with_plan-ReadsAll :
      (names : List (String × Option String)) (f : PhysicalPlan → PhysicalPlan)
      (o : PlanError ⊎ PhysicalPlan)
      → ((p : PhysicalPlan) → plan_scans (f p) ≡ plan_scans p)
      → ReadsAll names o
      → ReadsAll names (with_plan f o)
  with_plan-ReadsAll names f (inl e) keeps h p k = cc
  with_plan-ReadsAll names f (inr q) keeps h p k = λ w.
      ap (λ x. total w (plan_scans x)) (sym (inr-injective (f q) p k))
      ∙ ap (total w) (keeps q)
      ∙ h q refl w

  with_plans-ReadsAll :
      (ns ns' : List (String × Option String)) (f : PhysicalPlan → PhysicalPlan → PhysicalPlan)
      (o o' : PlanError ⊎ PhysicalPlan)
      → ((p q : PhysicalPlan) → plan_scans (f p q) ≡ plan_scans p ++ plan_scans q)
      → ReadsAll ns o
      → ReadsAll ns' o'
      → ReadsAll (ns ++ ns') (with_plans f o o')
  with_plans-ReadsAll ns ns' f (inl e) o' keeps h j p k = cc
  with_plans-ReadsAll ns ns' f (inr q) (inl e) keeps h j p k = cc
  with_plans-ReadsAll ns ns' f (inr q) (inr r) keeps h j p k = λ w. omega (
    arith,
    ap (λ x. total w (plan_scans x)) (inr-injective (f q r) p k),
    ap (total w) (keeps q r),
    total-append w (plan_scans q) (plan_scans r),
    h q refl w,
    j r refl w,
    total-append w ns ns',
  )

  if-scans :
      (b : Bool) (p q : PhysicalPlan) (ns : List (String × Option String))
      → plan_scans p ≡ ns
      → plan_scans q ≡ ns
      → plan_scans (if b then p else q) ≡ ns
  if-scans true p q ns h k = h
  if-scans false p q ns h k = k

  choose_join_strategy-scans :
      (t : JoinType) (x : Expression) (l r : LogicalPlan) (p q : PhysicalPlan)
      → plan_scans (choose_join_strategy m est catalog t x l r p q) ≡ plan_scans p ++ plan_scans q
  unfolding choose_join_strategy plan_scans
  choose_join_strategy-scans t x l r p q =
      if-scans (is_equi x && _) _ _ (plan_scans p ++ plan_scans q) refl refl

  plan_join_search-ReadsAll :
      (node : LogicalPlan) → ReadsAll (table_names node) (plan_join_search m est catalog node)
  unfolding plan_join_search
  plan_join_search-ReadsAll node p h = elim (Option-cases (build_join_graph node)) [
    | inl missing ↦ let gone = rw (plan_join_search, missing) at h in cc
    | inr (x, there) ↦
        let block = build_join_graph-IsJoinBlock node x there in
        let made = build_join_graph-Extracted node block in
        let same = some-injective made.extraction x (sym made.returned ∙ there) in
        let names : relation_names x.graph.relations ≡ table_names node =
          ap (λ y. relation_names y.graph.relations) (sym same)
          ∙ made.is_graph.names_kept
          ∙ IsJoinBlock-names node block in
        with_plan-ReadsAll (table_names node) (residual_filters m est catalog x.residual_filters)
          (find_best_plan m est catalog x.graph) (residual_filters-scans x.residual_filters)
          (λ q e w. find_best_plan-scans m est catalog x.graph q e w ∙ ap (total w) names) p
          (rw (plan_join_search, there) at h)
  ]

  index_scan_of-scans :
      (x : Expression) (t : String) (a : Option String) (cols : List String) (c : String)
      (v : Literal) (q : PhysicalPlan)
      → index_scan_of m est catalog x t a cols c v ≡ some q
      → plan_scans q ≡ (t, a) ∷ []
  unfolding index_scan_of plan_scans
  index_scan_of-scans x t a cols c v q h = ap plan_scans (sym (if-none-some _ _ q h))

  try_index_scan-scans :
      (x : Expression) (i : LogicalPlan) (q : PhysicalPlan)
      → try_index_scan m est catalog x i ≡ some q
      → plan_scans q ≡ table_names i
  unfolding try_index_scan table_names
  try_index_scan-scans x (scan t a cols) q h = elim (Option-cases (column_equality x)) [
    | inl missing ↦ let gone = rw (try_index_scan, missing) at h in cc
    | inr ((s, c, v), there) ↦
        index_scan_of-scans x t a cols c v q (if-some-none _ _ q (rw (try_index_scan, there) at h))
  ]
  try_index_scan-scans x i q h = cc

  or_filter-ReadsAll :
      (names : List (String × Option String)) (o : Option PhysicalPlan)
      (other : PlanError ⊎ PhysicalPlan)
      → ((q : PhysicalPlan) → o ≡ some q → plan_scans q ≡ names)
      → ReadsAll names other
      → ReadsAll names (or_filter o other)
  or_filter-ReadsAll names none other found h p k = h p k
  or_filter-ReadsAll names (some q) other found h p k = λ w.
      ap (λ x. total w (plan_scans x)) (sym (inr-injective q p k)) ∙ ap (total w) (found q refl)

  search_or-ReadsAll :
      (node : LogicalPlan) (other : PlanError ⊎ PhysicalPlan)
      → ReadsAll (table_names node) other
      → ReadsAll (table_names node) (search_or m est catalog node other)
  unfolding search_or
  search_or-ReadsAll node other h = elim (Bool-cases (is_join_search_candidate node)) [
    | inl on ↦ rw on (plan_join_search-ReadsAll node)
    | inr off ↦ rw off h
  ]

  plan_scan-ReadsAll :
      (t : String) (a : Option String) (cols : List String)
      → ReadsAll ((t, a) ∷ []) (inr (plan_scan m est catalog t a cols))
  unfolding plan_scan plan_scans
  plan_scan-ReadsAll t a cols p k w = ap (λ x. total w (plan_scans x)) (sym (inr-injective _ p k))

  plan_node-ReadsAll :
      (node : LogicalPlan) → ReadsAll (table_names node) (plan_node m est catalog node)
  unfolding plan_node table_names plan_filter plan_aggregate plan_project plan_sort plan_limit
      plan_scans
  plan_node-ReadsAll (scan t a cols) =
      search_or-ReadsAll (scan t a cols) _ (plan_scan-ReadsAll t a cols)
  plan_node-ReadsAll (filter x i) = search_or-ReadsAll (filter x i) _ (
      or_filter-ReadsAll (table_names i) (try_index_scan m est catalog x i) _
        (try_index_scan-scans x i)
        (with_plan-ReadsAll (table_names i) (plan_filter m est catalog x i) _ (λ p. refl)
          (plan_node-ReadsAll i)))
  plan_node-ReadsAll (join t x l r) = search_or-ReadsAll (join t x l r) _ (
      with_plans-ReadsAll (table_names l) (table_names r)
        (choose_join_strategy m est catalog t x l r) _ _ (choose_join_strategy-scans t x l r)
        (plan_node-ReadsAll l) (plan_node-ReadsAll r))
  plan_node-ReadsAll (aggregate g x i) = search_or-ReadsAll (aggregate g x i) _ (
      with_plan-ReadsAll (table_names i) (plan_aggregate m est catalog g x i) _ (λ p. refl)
        (plan_node-ReadsAll i))
  plan_node-ReadsAll (project es i) = search_or-ReadsAll (project es i) _ (
      with_plan-ReadsAll (table_names i) (plan_project m est catalog es) _ (λ p. refl)
        (plan_node-ReadsAll i))
  plan_node-ReadsAll (sort o i) = search_or-ReadsAll (sort o i) _ (
      with_plan-ReadsAll (table_names i) (plan_sort m est catalog o) _ (λ p. refl)
        (plan_node-ReadsAll i))
  plan_node-ReadsAll (limit n i) = search_or-ReadsAll (limit n i) _ (
      with_plan-ReadsAll (table_names i) (plan_limit m est catalog n) _ (λ p. refl)
        (plan_node-ReadsAll i))

  -- The physical plan of a logical plan, if there is one, reads the tables of the logical plan, under
  -- their aliases and each as often.
  pub generate_physical_plan-scans :
      (logical : LogicalPlan) (p : PhysicalPlan)
      → generate_physical_plan m est catalog logical ≡ inr p
      → SameItems (plan_scans p) (table_names logical)
  unfolding generate_physical_plan
  generate_physical_plan-scans logical p h = plan_node-ReadsAll logical p h
