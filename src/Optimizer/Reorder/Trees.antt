-- ===== src/Optimizer/Reorder/Trees.antt =====
-- Flattening a join tree and rebuilding it, counted by weights.
use sql_query_optimizer.Prelude.{
  ℕ, ◌+◌, ◌≡◌, refl, List, [], ◌∷◌, ◌++◌, length, arith, length-append,
}
use sql_query_optimizer.Prelude.Totals.{total, total-append}
use sql_query_optimizer.Ast.{Expression, JoinType}
use sql_query_optimizer.Plan.{LogicalPlan, scan, filter, join, aggregate, project, sort, limit}
use sql_query_optimizer.Schema.{Catalog}
use sql_query_optimizer.Optimizer.Reorder.{JoinTree, extract_join_tree, rebuild_from, with_rows}
use sql_query_optimizer.Optimizer.Reorder.Balance.{nodes_weight}

pub length-leaves :
    (p : LogicalPlan) (out : JoinTree)
    → length (extract_join_tree p out).leaves + length out.conds
      ≡ length (extract_join_tree p out).conds + length out.leaves + 1
unfolding extract_join_tree
length-leaves (join t c l r) out =
    let out' : JoinTree = record out { conds = out.conds ++ c ∷ [] } in
    omega (
      arith,
      length-leaves l out',
      length-leaves r (extract_join_tree l out'),
      length-append out.conds (c ∷ []),
    )
length-leaves (scan a b c) out = omega (arith, length-append out.leaves (scan a b c ∷ []))
length-leaves (filter e i) out = omega (arith, length-append out.leaves (filter e i ∷ []))
length-leaves (aggregate g a i) out = omega (arith, length-append out.leaves (aggregate g a i ∷ []))
length-leaves (project es i) out = omega (arith, length-append out.leaves (project es i ∷ []))
length-leaves (sort o i) out = omega (arith, length-append out.leaves (sort o i ∷ []))
length-leaves (limit n i) out = omega (arith, length-append out.leaves (limit n i ∷ []))

-- A weight of plans that a join adds up from its condition and its sides.
module _ (w : LogicalPlan → ℕ) (v : Expression → ℕ)
    (adds : (t : JoinType) (c : Expression) (l r : LogicalPlan)
      → w (join t c l r) ≡ v c + w l + w r) where
  abbrev tree_weight : JoinTree → ℕ
  tree_weight out = total w out.leaves + total v out.conds

  -- Flattening moves every leaf and every condition over.
  pub extract_join_tree-weight :
      (p : LogicalPlan) (out : JoinTree)
      → tree_weight (extract_join_tree p out) ≡ tree_weight out + w p
  unfolding extract_join_tree
  extract_join_tree-weight (join t c l r) out =
      let out' : JoinTree = record out { conds = out.conds ++ c ∷ [] } in
      omega (
        arith,
        extract_join_tree-weight l out',
        extract_join_tree-weight r (extract_join_tree l out'),
        total-append v out.conds (c ∷ []),
        adds t c l r,
      )
  extract_join_tree-weight (scan a b c) out =
      omega (arith, total-append w out.leaves (scan a b c ∷ []))
  extract_join_tree-weight (filter e i) out =
      omega (arith, total-append w out.leaves (filter e i ∷ []))
  extract_join_tree-weight (aggregate g a i) out =
      omega (arith, total-append w out.leaves (aggregate g a i ∷ []))
  extract_join_tree-weight (project es i) out =
      omega (arith, total-append w out.leaves (project es i ∷ []))
  extract_join_tree-weight (sort o i) out = omega (arith, total-append w out.leaves (sort o i ∷ []))
  extract_join_tree-weight (limit n i) out =
      omega (arith, total-append w out.leaves (limit n i ∷ []))

  -- With a condition for each join, rebuilding uses every leaf and every condition.
  pub rebuild_from-weight :
      (tree : LogicalPlan) (leaves : List LogicalPlan) (conds : List Expression)
      → length conds ≡ length leaves
      → w (rebuild_from tree leaves conds) ≡ w tree + total w leaves + total v conds
  unfolding rebuild_from
  rebuild_from-weight tree [] [] h = omega arith
  rebuild_from-weight tree [] (c ∷ conds) h = absurd (omega arith)
  rebuild_from-weight tree (leaf ∷ leaves) [] h = absurd (omega arith)
  rebuild_from-weight tree (leaf ∷ leaves) (c ∷ conds) h = omega (
    arith,
    rebuild_from-weight (join JoinType.inner c tree leaf) leaves conds (omega arith),
    adds JoinType.inner c tree leaf,
  )

pub with_rows-weight :
    (w : LogicalPlan → ℕ) (cat : Catalog) (ps : List LogicalPlan)
    → nodes_weight w (with_rows cat ps) ≡ total w ps
with_rows-weight w cat [] = refl
with_rows-weight w cat (p ∷ ps) = omega (arith, with_rows-weight w cat ps)

pub length-with_rows :
    (cat : Catalog) (ps : List LogicalPlan) → length (with_rows cat ps) ≡ length ps
length-with_rows cat [] = refl
length-with_rows cat (p ∷ ps) = omega (arith, length-with_rows cat ps)
