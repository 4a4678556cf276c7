-- ===== src/Optimizer/Reorder.antt =====
-- logical/optimizer.cpp, rule 3: join reordering. `none` stands for an access out of range
-- (`front()` of an empty vector, an index past the end), which C++ leaves undefined.
-- `size_t` products wrap at 2 ^ 64.
pub mod Bounds
pub mod Balance
pub mod Greedy
pub mod Trees
pub mod Sources
pub mod Unlinked
use Prim.Native.Nat.{max}
use sql_query_optimizer.Prelude.{
  ℕ, zero, suc, ◌+◌, ◌-◌, ◌*◌, ◌/◌, ◌%◌, ◌^◌, String, Bool, true, ◌&&◌, Option, none, some, List,
  [], ◌∷◌, ◌++◌, length, ltb, leb, if◌then◌else◌,
}
use sql_query_optimizer.Ast.{Expression, literal, Literal, JoinType}
use sql_query_optimizer.Plan.{LogicalPlan, scan, filter, join, aggregate, project, sort, limit}
use sql_query_optimizer.Schema.{Catalog, TableSchema, get}
use sql_query_optimizer.Optimizer.Expressions.{scan_aliases}
use sql_query_optimizer.Optimizer.Predicates.{refers_to}

infixl 5 ◌>>=◌
abbrev pub ◌>>=◌ {ℓ κ} : {A : Type ℓ} {B : Type κ} → Option A → (A → Option B) → Option B
none >>= f = none
some a >>= f = f a

abbrev pub is_inner : JoinType → Bool
is_inner JoinType.inner = true
is_inner _ = Bool.false

unfoldable pub all_inner : LogicalPlan → Bool
all_inner (join t c l r) = is_inner t && all_inner l && all_inner r
all_inner _ = true

-- The two vectors that `extract_join_tree` appends to.
pub record JoinTree : Type 0 where
  pub leaves : List LogicalPlan
  pub conds : List Expression

unfoldable pub extract_join_tree : LogicalPlan → JoinTree → JoinTree
extract_join_tree (join t c l r) out =
    extract_join_tree r (extract_join_tree l (record out { conds = out.conds ++ c ∷ [] }))
extract_join_tree p out = record out { leaves = out.leaves ++ p ∷ [] }

abbrev pub true_literal : Expression
true_literal = literal (Literal.boolean true)

-- The next condition, or TRUE if none is left.
abbrev pub next_cond : List Expression → Expression × List Expression
next_cond [] = (true_literal, [])
next_cond (c ∷ cs) = (c, cs)

unfoldable pub rebuild_from : LogicalPlan → List LogicalPlan → List Expression → LogicalPlan
rebuild_from tree [] conds = tree
rebuild_from tree (leaf ∷ leaves) conds =
    let (cond, rest) = next_cond conds in
    rebuild_from (join JoinType.inner cond tree leaf) leaves rest

unfoldable pub rebuild_join_tree : List LogicalPlan → List Expression → Option LogicalPlan
unfolding rebuild_from
rebuild_join_tree [] conds = none
rebuild_join_tree (leaf ∷ leaves) conds = some (rebuild_from leaf leaves conds)

unfoldable pub estimate_join_rows : ℕ → ℕ → ℕ
estimate_join_rows l r = max (((l * r) % 2 ^ 64) / 10) 1

abbrev table_rows : Option TableSchema → ℕ
table_rows none = 1000
table_rows (some s) = s.stats.row_count

unfoldable pub estimate_rows : LogicalPlan → Catalog → ℕ
unfolding estimate_join_rows
estimate_rows (scan table alias cols) cat = table_rows (get cat table)
estimate_rows (filter p i) cat = max (estimate_rows i cat / 10) 1
estimate_rows (join t c l r) cat = estimate_join_rows (estimate_rows l cat) (estimate_rows r cat)
estimate_rows _ cat = 1000

-- A relation with its estimated rows.
abbrev pub Node : Type 0
Node = LogicalPlan × ℕ

pub record Best : Type 0 where
  pub cost : ℕ
  pub left_index : ℕ
  pub right_index : ℕ
  pub cond_index : Option ℕ

-- The first condition, counted from `k`, that refers to both sides.
unfoldable pub linking_cond : List String → List String → List Expression → ℕ → Option ℕ
unfolding refers_to
linking_cond la ra [] k = none
linking_cond la ra (c ∷ cs) k =
    if refers_to la c && refers_to ra c then some k else linking_cond la ra cs (k + 1)

abbrev pub consider : Option ℕ → ℕ → ℕ → ℕ → Best → Best
consider none cost i j best = best
consider (some k) cost i j best =
    if ltb cost best.cost
    then record { cost = cost; left_index = i; right_index = j; cond_index = some k }
    else best

-- The inner loop: `node` at index `i` against the nodes from index `j` on.
unfoldable pub pairs_with : List Expression → Node → ℕ → List Node → ℕ → Best → Best
unfolding linking_cond estimate_join_rows
pairs_with conds (p, rows) i [] j best = best
pairs_with conds (p, rows) i ((q, rows') ∷ nodes) j best =
    pairs_with conds (p, rows) i nodes (j + 1)
      (consider (linking_cond (scan_aliases p) (scan_aliases q) conds 0)
        (estimate_join_rows rows rows') i j best)

-- The outer loop.
unfoldable pub all_pairs : List Expression → List Node → ℕ → Best → Best
unfolding pairs_with
all_pairs conds [] i best = best
all_pairs conds (node ∷ nodes) i best =
    all_pairs conds nodes (i + 1) (pairs_with conds node i nodes (i + 1) best)

unfoldable pub best_pair : List Node → List Expression → Best
unfolding all_pairs
best_pair nodes conds =
    all_pairs conds nodes 0
      (record { cost = 2 ^ 64 - 1; left_index = 0; right_index = 1; cond_index = none })

-- `v[i]` and `v.erase(v.begin() + i)`.
unfoldable pub take_at {ℓ} : {A : Type ℓ} → List A → ℕ → Option (A × List A)
take_at [] i = none
take_at (x ∷ xs) zero = some (x, xs)
take_at (x ∷ xs) (suc i) = do (y, ys) ← take_at xs i; some (y, x ∷ ys)

-- The condition of the next join and the conditions that are left.
unfoldable pub take_cond : Option ℕ → List Expression → Option (Expression × List Expression)
unfolding take_at
take_cond none conds = some (true_literal, conds)
take_cond (some k) conds = take_at conds k

-- The `while` loop, with the conditions that are left when it ends; each round joins two nodes.
unfoldable pub greedy_loop :
    ℕ → List Node → List Expression → Catalog → Option (LogicalPlan × List Expression)
unfolding best_pair take_cond take_at
greedy_loop fuel [] conds cat = none
greedy_loop fuel (node ∷ []) conds cat = some (node.0, conds)
greedy_loop zero (a ∷ b ∷ nodes) conds cat = none
greedy_loop (suc fuel) (a ∷ b ∷ nodes) conds cat = do
  let best = best_pair (a ∷ b ∷ nodes) conds
  (cond, conds') ← take_cond best.cond_index conds
  (r, without_right) ← take_at (a ∷ b ∷ nodes) best.right_index
  (l, rest) ← take_at without_right best.left_index
  let rows = estimate_join_rows (estimate_rows l.0 cat) (estimate_rows r.0 cat)
  greedy_loop fuel (rest ++ (join JoinType.inner cond l.0 r.0, rows) ∷ []) conds' cat

abbrev pub with_rows : Catalog → List LogicalPlan → List Node
with_rows cat [] = []
with_rows cat (p ∷ ps) = (p, estimate_rows p cat) ∷ with_rows cat ps

unfoldable pub greedy_join_order : List LogicalPlan → List Expression → Catalog → Option LogicalPlan
unfolding greedy_loop
greedy_join_order leaves conds cat = do
  (p, left_over) ← greedy_loop (length leaves) (with_rows cat leaves) conds cat
  some p

-- The end of the Join case, once the children are rewritten.
unfoldable pub reorder_join : LogicalPlan → Catalog → Option LogicalPlan
unfolding all_inner extract_join_tree greedy_join_order rebuild_join_tree
reorder_join joined cat =
    if all_inner joined
    then (let tree = extract_join_tree joined (record { leaves = []; conds = [] }) in
        if leb 3 (length tree.leaves)
        then greedy_join_order tree.leaves tree.conds cat
        else rebuild_join_tree tree.leaves tree.conds)
    else some joined

unfoldable pub reorder_joins : LogicalPlan → Catalog → Option LogicalPlan
unfolding reorder_join
reorder_joins (scan table alias cols) cat = some (scan table alias cols)
reorder_joins (join t c l r) cat = do
  l' ← reorder_joins l cat
  r' ← reorder_joins r cat
  reorder_join (join t c l' r') cat
reorder_joins (filter p i) cat = do i' ← reorder_joins i cat; some (filter p i')
reorder_joins (aggregate g a i) cat = do i' ← reorder_joins i cat; some (aggregate g a i')
reorder_joins (project es i) cat = do i' ← reorder_joins i cat; some (project es i')
reorder_joins (sort o i) cat = do i' ← reorder_joins i cat; some (sort o i')
reorder_joins (limit n i) cat = do i' ← reorder_joins i cat; some (limit n i')
