-- ===== src/Physical/Enumerator.antt =====
-- optimizer/join_enumerator.cpp: the dynamic programming over sets of relations. A mask is a number, of
-- which bit i stands for relation i; there are fewer than 64 relations. The memo is a list of its
-- entries, the newest first.
pub mod Covers
pub mod Loops
pub mod Scans
pub mod Masks
pub mod Connected
pub mod Keeps
pub mod Rounds
pub mod Found
use sql_query_optimizer.Prelude.{
  ℕ, zero, suc, ◌+◌, ◌-◌, ◌/◌, ◌%◌, ◌^◌, String, Bool, true, false, not, ◌&&◌, ◌||◌, Option, none,
  some, List, [], ◌∷◌, ◌++◌, length, get_elem?, value_or, ◌==◌, eqb, ◌⊎◌, inl, inr, if◌then◌else◌,
}
use sql_query_optimizer.Ast.{
  Double, BinaryOperator, Literal, Expression, column, literal, binary_op, JoinType,
}
use sql_query_optimizer.Plan.{LogicalPlan, scan}
use sql_query_optimizer.Schema.{Catalog, TableSchema, get, has_index_on}
use sql_query_optimizer.JoinGraph.{Relation, JoinEdge, JoinGraph}
use sql_query_optimizer.Physical.{
  Cost, Estimates, PhysicalPlan, join, JoinKind, nested_loop_join, hash_join,
  index_nested_loop_join,
}
use sql_query_optimizer.Physical.Formulas.{
  CostMath, total, add_cost, rows_to_size, nested_loop_join_cost, hash_join_cost,
  index_nested_loop_join_cost,
}
use sql_query_optimizer.Physical.Paths.{
  Estimate, Estimator, cost_of, rows_of, annotate, cheaper, best_access_path,
}

-- `(mask >> i) & 1`
unfoldable pub test_bit : ℕ → ℕ → Bool
test_bit mask zero = eqb (mask % 2) 1
test_bit mask (suc i) = test_bit (mask / 2) i

-- The number of set bits among the first `width`.
unfoldable pub popcount : ℕ → ℕ → ℕ
popcount zero mask = 0
popcount (suc width) mask = mask % 2 + popcount width (mask / 2)

-- The place of the lowest set bit.
unfoldable pub index_of_only_set_bit : ℕ → ℕ → ℕ
index_of_only_set_bit zero mask = 0
index_of_only_set_bit (suc width) mask =
    let more = index_of_only_set_bit width (mask / 2) in if eqb (mask % 2) 1 then 0 else suc more

-- The relation of a mask of one bit.
unfoldable pub only_relation : JoinGraph → ℕ → Option Relation
unfolding popcount index_of_only_set_bit
only_relation graph mask =
    if eqb (popcount 64 mask) 1
    then get_elem? graph.relations (index_of_only_set_bit 64 mask)
    else none

abbrev pub connects : ℕ → ℕ → JoinEdge → Bool
unfolding test_bit
connects left_mask right_mask edge =
    (test_bit left_mask edge.left && test_bit right_mask edge.right)
    || (test_bit left_mask edge.right && test_bit right_mask edge.left)

unfoldable pub find_connecting_edge : ℕ → ℕ → List JoinEdge → Option JoinEdge
unfolding test_bit
find_connecting_edge left_mask right_mask [] = none
find_connecting_edge left_mask right_mask (edge ∷ edges) =
    let rest = find_connecting_edge left_mask right_mask edges in
    if connects left_mask right_mask edge then some edge else rest

abbrev pub Memo : Type 0
Memo = List (ℕ × PhysicalPlan)

unfoldable pub find_plan : Memo → ℕ → Option PhysicalPlan
find_plan [] mask = none
find_plan ((k, p) ∷ memo) mask = if eqb k mask then some p else find_plan memo mask

abbrev pub scope_of : Option Relation → LogicalPlan
scope_of (some rel) = scan rel.table_name rel.alias []
scope_of none =
    LogicalPlan.join JoinType.inner (literal (Literal.boolean true))
      (scan "<multi-relation>" none []) (scan "<multi-relation>" none [])

unfoldable pub synthetic_scope_for_mask : JoinGraph → ℕ → LogicalPlan
unfolding only_relation
synthetic_scope_for_mask graph mask = scope_of (only_relation graph mask)

-- The column of an equality that the table of this name qualifies.
abbrev column_of : String → Expression → Option String
column_of alias (column (some t) c) = if t == alias then some c else none
column_of alias _ = none

abbrev first_of {ℓ} : {A : Type ℓ} → Option A → Option A → Option A
first_of none o = o
first_of (some a) o = some a

abbrev is_indexed : Catalog → String → String → Bool
unfolding get has_index_on
is_indexed catalog table c = elim (get catalog table) [
  | none ↦ false
  | some schema ↦ has_index_on schema c
]

-- A single relation with an index on its column of the equality of two columns.
unfoldable pub probes : Catalog → Option Relation → Expression → Bool
unfolding get has_index_on
probes catalog (some rel) (binary_op (column t c) BinaryOperator.eq (column t' c')) =
    let alias = value_or rel.alias rel.table_name in
    elim (first_of (column_of alias (column t c)) (column_of alias (column t' c'))) [
      | none ↦ false
      | some name ↦ is_indexed catalog rel.table_name name
    ]
probes catalog _ _ = false

abbrev pub is_equi : Expression → Bool
is_equi (binary_op a BinaryOperator.eq b) = true
is_equi _ = false

pub data PlanError : Type 0 where
  empty_graph not_connected unexpected_node : PlanError

-- Relation `r` of the subset, with the others there.
abbrev pub has_relation : ℕ → ℕ → Bool
unfolding test_bit
has_relation subset r = test_bit subset r && not (eqb (subset - 2 ^ r) 0)

module _ (m : CostMath) (est : Estimator) (catalog : Catalog) (graph : JoinGraph) where
  abbrev pub nested_candidate :
      Expression → ℕ → Estimate → PhysicalPlan → PhysicalPlan → PhysicalPlan
  unfolding total add_cost nested_loop_join_cost
  nested_candidate cond out_rows e outer inner =
      let c = cost_of outer in
      let scanned = record c {
        cpu = m.add c.cpu (m.mul (m.of_size (rows_of outer)) (total m (cost_of inner)));
      } in
      join nested_loop_join JoinType.inner cond outer inner (
        annotate (add_cost m scanned (nested_loop_join_cost m (rows_of outer) (rows_of inner)))
          out_rows e)

  abbrev pub hash_candidate : Expression → ℕ → Estimate → PhysicalPlan → PhysicalPlan → PhysicalPlan
  unfolding add_cost hash_join_cost
  hash_candidate cond out_rows e left right =
      let c =
        add_cost m (add_cost m (cost_of left) (cost_of right))
          (hash_join_cost m (rows_of left) (rows_of right)) in
      join hash_join JoinType.inner cond left right (annotate c out_rows e)

  abbrev pub index_candidate_of :
      Expression → ℕ → Estimate → PhysicalPlan → PhysicalPlan → PhysicalPlan
  unfolding add_cost index_nested_loop_join_cost
  index_candidate_of cond out_rows e outer inner =
      let c = add_cost m (cost_of outer) (index_nested_loop_join_cost m (rows_of outer) out_rows) in
      join index_nested_loop_join JoinType.inner cond outer inner (annotate c out_rows e)

  unfoldable pub try_index_nested_loop :
      ℕ → ℕ → PhysicalPlan → PhysicalPlan → Expression → ℕ → Estimate → List PhysicalPlan
  unfolding only_relation probes add_cost index_nested_loop_join_cost
  try_index_nested_loop left_mask right_mask left right cond out_rows e =
      if probes catalog (only_relation graph right_mask) cond
      then index_candidate_of cond out_rows e left right ∷ []
      else if probes catalog (only_relation graph left_mask) cond
      then index_candidate_of cond out_rows e right left ∷ []
      else []

  -- The cheapest of the candidates, the first of equals.
  unfoldable pub pick_cheapest : PhysicalPlan → List PhysicalPlan → PhysicalPlan
  unfolding total
  pick_cheapest best [] = best
  pick_cheapest best (c ∷ cs) = pick_cheapest (if cheaper m est catalog c best then c else best) cs

  -- The candidates after the first.
  unfoldable pub more_candidates :
      ℕ → ℕ → PhysicalPlan → PhysicalPlan → Expression → ℕ → Estimate → List PhysicalPlan
  unfolding total add_cost nested_loop_join_cost hash_join_cost try_index_nested_loop
  more_candidates left_mask right_mask left right cond out_rows e =
      let equi =
        hash_candidate cond out_rows e left right
        ∷ try_index_nested_loop left_mask right_mask left right cond out_rows e in
      nested_candidate cond out_rows e right left ∷ (if is_equi cond then equi else [])

  unfoldable pub generate_best_candidate :
      ℕ → ℕ → PhysicalPlan → PhysicalPlan → JoinEdge → PhysicalPlan
  unfolding synthetic_scope_for_mask rows_to_size total add_cost nested_loop_join_cost
      more_candidates pick_cheapest
  generate_best_candidate left_mask right_mask left right edge =
      let e =
        est.estimate_join (m.of_size (rows_of left)) (m.of_size (rows_of right)) edge.predicate
          (synthetic_scope_for_mask graph left_mask) (synthetic_scope_for_mask graph right_mask) in
      let out_rows = rows_to_size m e.rows in
      pick_cheapest (nested_candidate edge.predicate out_rows e left right)
        (more_candidates left_mask right_mask left right edge.predicate out_rows e)

  abbrev pub better : Option PhysicalPlan → PhysicalPlan → PhysicalPlan
  unfolding total
  better none c = c
  better (some b) c = if cheaper m est catalog c b then c else b

  -- The two plans and the edge, if each is there.
  abbrev pub try_join :
      ℕ
      → ℕ
      → Option PhysicalPlan
      → Option PhysicalPlan
      → Option PhysicalPlan
      → Option JoinEdge
      → Option PhysicalPlan
  unfolding generate_best_candidate total
  try_join left_mask right_mask best none right edge = best
  try_join left_mask right_mask best (some left) none edge = best
  try_join left_mask right_mask best (some left) (some right) none = best
  try_join left_mask right_mask best (some left) (some right) (some edge) =
      some (better best (generate_best_candidate left_mask right_mask left right edge))

  -- One round of the loop of `solve_subset`: relation `r` joined last.
  unfoldable pub consider : Memo → ℕ → ℕ → Option PhysicalPlan → Option PhysicalPlan
  unfolding test_bit find_plan find_connecting_edge generate_best_candidate total
  consider memo subset r best =
      let left_mask = subset - 2 ^ r in
      let joined =
        try_join left_mask (2 ^ r) best (find_plan memo left_mask) (find_plan memo (2 ^ r))
          (find_connecting_edge left_mask (2 ^ r) graph.edges) in
      if has_relation subset r then joined else best

  -- The loop, over `k` relations from `r` on.
  unfoldable pub consider_from : Memo → ℕ → ℕ → ℕ → Option PhysicalPlan → Option PhysicalPlan
  unfolding consider
  consider_from memo subset zero r best = best
  consider_from memo subset (suc k) r best =
      consider_from memo subset k (suc r) (consider memo subset r best)

  abbrev pub store : ℕ → Option PhysicalPlan → Memo → Memo
  store subset none memo = memo
  store subset (some p) memo = (subset, p) ∷ memo

  unfoldable pub solve_subset : ℕ → Memo → Memo
  unfolding consider_from
  solve_subset subset memo =
      store subset (consider_from memo subset (length graph.relations) 0 none) memo

  -- The `k` masks from `subset` on, those of the size.
  unfoldable pub solve_size : ℕ → ℕ → ℕ → Memo → Memo
  unfolding popcount solve_subset
  solve_size size zero subset memo = memo
  solve_size size (suc k) subset memo =
      let solved = solve_subset subset memo in
      solve_size size k (suc subset) (if eqb (popcount 64 subset) size then solved else memo)

  -- `k` sizes from `size` on.
  unfoldable pub solve_sizes : ℕ → ℕ → Memo → Memo
  unfolding solve_size
  solve_sizes zero size memo = memo
  solve_sizes (suc k) size memo =
      solve_sizes k (suc size) (solve_size size (2 ^ length graph.relations - 1) 1 memo)

  unfoldable pub base_memo : List Relation → ℕ → Memo → Memo
  unfolding best_access_path
  base_memo [] i memo = memo
  base_memo (rel ∷ rels) i memo =
      base_memo rels (suc i) ((2 ^ i, best_access_path m est catalog rel) ∷ memo)

  abbrev pub found : Option PhysicalPlan → PlanError ⊎ PhysicalPlan
  found none = inl PlanError.not_connected
  found (some p) = inr p

  -- With one relation there is no size to solve.
  unfoldable pub find_best_plan : PlanError ⊎ PhysicalPlan
  unfolding base_memo solve_sizes find_plan
  find_best_plan =
      let n = length graph.relations in
      if eqb n 0
      then inl PlanError.empty_graph
      else found (find_plan (solve_sizes (n - 1) 2 (base_memo graph.relations 0 [])) (2 ^ n - 1))
