-- ===== src/Optimizer/Reorder/Unlinked.antt =====
-- Join conditions whose columns carry no table.
use sql_query_optimizer.Prelude.{
  ℕ, zero, suc, ◌+◌, ◌*◌, ◌≤◌, String, true, ◌≡◌, refl, sym, ap, ◌∙◌, Option, none, some, List, [],
  ◌∷◌, ◌++◌, length, All, leb, arith, length-append,
}
use sql_query_optimizer.Prelude.Totals.{total}
use sql_query_optimizer.Ast.{Expression}
use sql_query_optimizer.Plan.{LogicalPlan}
use sql_query_optimizer.Plan.Views.{join_conditions}
use sql_query_optimizer.Schema.{Catalog}
use sql_query_optimizer.Optimizer.Expressions.{referenced_tables, scan_aliases}
use sql_query_optimizer.Optimizer.Predicates.{refers_to}
use sql_query_optimizer.Optimizer.Reorder.{
  Node, Best, JoinTree, true_literal, all_inner, linking_cond, pairs_with, all_pairs, best_pair,
  take_cond, greedy_loop, greedy_join_order, with_rows, extract_join_tree, reorder_join,
}
use sql_query_optimizer.Optimizer.Reorder.Bounds.{best_pair-InRange, take_at-Taken}
use sql_query_optimizer.Optimizer.Reorder.Greedy.{greedy_loop-Outcome}
use sql_query_optimizer.Optimizer.Reorder.Balance.{cond_weight}
use sql_query_optimizer.Optimizer.Reorder.Trees.{with_rows-weight, length-with_rows}

-- No column of the condition is qualified.
abbrev pub IsUnlinked : Expression → Type 0
IsUnlinked c = referenced_tables c ≡ []

linking_cond-none :
    (la ra : List String) (conds : List Expression) (k : ℕ)
    → All IsUnlinked conds
    → linking_cond la ra conds k ≡ none
unfolding linking_cond refers_to
linking_cond-none la ra [] k h = refl
linking_cond-none la ra (c ∷ cs) k h = rw h.0 (linking_cond-none la ra cs (k + 1) h.1)

pairs_with-same :
    (conds : List Expression) (node : Node) (i : ℕ) (nodes : List Node) (j : ℕ) (b : Best)
    → All IsUnlinked conds
    → pairs_with conds node i nodes j b ≡ b
unfolding pairs_with
pairs_with-same conds (p, rows) i [] j b h = refl
pairs_with-same conds (p, rows) i ((q, rows') ∷ nodes) j b h =
    rw (linking_cond-none (scan_aliases p) (scan_aliases q) conds 0 h)
      (pairs_with-same conds (p, rows) i nodes (j + 1) b h)

all_pairs-same :
    (conds : List Expression) (nodes : List Node) (i : ℕ) (b : Best)
    → All IsUnlinked conds
    → all_pairs conds nodes i b ≡ b
unfolding all_pairs
all_pairs-same conds [] i b h = refl
all_pairs-same conds (node ∷ nodes) i b h =
    rw (pairs_with-same conds node i nodes (i + 1) b h) (all_pairs-same conds nodes (i + 1) b h)

best_pair-unlinked :
    (nodes : List Node) (conds : List Expression)
    → All IsUnlinked conds
    → (best_pair nodes conds).cond_index ≡ none
unfolding best_pair
best_pair-unlinked nodes conds h =
    ap (λ (b : Best). b.cond_index) (all_pairs-same conds nodes 0 _ h)

take_cond-unlinked :
    (nodes : List Node) (conds : List Expression)
    → All IsUnlinked conds
    → take_cond (best_pair nodes conds).cond_index conds ≡ some (true_literal, conds)
unfolding take_cond
take_cond-unlinked nodes conds h = rw (best_pair-unlinked nodes conds h)

-- The loop ends with the conditions as they were.
greedy_loop-unlinked :
    (fuel : ℕ) (nodes : List Node) (conds : List Expression) (cat : Catalog)
    → 1 ≤ length nodes
    → length nodes ≤ suc fuel
    → All IsUnlinked conds
    → (p : LogicalPlan) × (greedy_loop fuel nodes conds cat ≡ some (p, conds))
unfolding greedy_loop
greedy_loop-unlinked fuel [] conds cat h k u = elim h [ ]
greedy_loop-unlinked fuel (node ∷ []) conds cat h k u = (node.0, refl)
greedy_loop-unlinked zero (a ∷ b ∷ nodes) conds cat h k u = absurd (omega arith)
greedy_loop-unlinked (suc fuel) (a ∷ b ∷ nodes) conds cat h k u =
    let all : List Node = a ∷ b ∷ nodes in
    let best = best_pair all conds in
    let v = best_pair-InRange all conds (omega arith) in
    let r = take_at-Taken all best.right_index v.right_below in
    let l =
      take_at-Taken r.rest best.left_index (omega (arith, r.shorter, v.apart, v.right_below)) in
    rw (take_cond-unlinked all conds u, r.taken, l.taken)
      (greedy_loop-unlinked fuel (l.rest ++ _ ∷ []) conds cat
        (omega (arith, length-append l.rest (_ ∷ [])))
        (omega (arith, length-append l.rest (_ ∷ []), l.shorter, r.shorter)) u)

abbrev pub flattened : LogicalPlan → JoinTree
flattened p = extract_join_tree p (record { leaves = []; conds = [] })

-- For an inner join of three or more inputs none of whose conditions qualifies a column, reordering
-- returns a plan in which no condition of the join is left: besides TRUE, its join conditions are
-- those inside the inputs.
pub reorder_join-unlinked :
    (p : LogicalPlan) (cat : Catalog)
    → all_inner p ≡ true
    → 3 ≤ length (flattened p).leaves
    → All IsUnlinked (flattened p).conds
    → (q : LogicalPlan) × (reorder_join p cat ≡ some q)
      × ((v : Expression → ℕ)
          → v true_literal ≡ 0
          → total v (join_conditions q) ≡ total (cond_weight v) (flattened p).leaves)
unfolding reorder_join greedy_join_order
reorder_join-unlinked p cat inner many u =
    let tree = flattened p in
    let nodes = with_rows cat tree.leaves in
    let size = length-with_rows cat tree.leaves in
    let o =
      greedy_loop-Outcome (length tree.leaves) nodes tree.conds cat (omega (arith, size))
        (omega (arith, size)) in
    let g =
      greedy_loop-unlinked (length tree.leaves) nodes tree.conds cat (omega (arith, size))
        (omega (arith, size)) u in
    let e : ◌≡◌ {A = Option (LogicalPlan × List Expression)} (some (o.result, o.left_over))
        (some (g.0, tree.conds)) =
      sym o.returned ∙ g.1 in
    let left : o.left_over ≡ tree.conds = ground arith in
    let enough : leb 3 (length tree.leaves) ≡ true = ground arith in
    (
      o.result,
      rw (inner, enough, o.returned),
      λ v none_for_true.
          balance v o.result o.left_over tree.conds tree.leaves o.padding none_for_true left
            (o.same_conditions v) (with_rows-weight (cond_weight v) cat tree.leaves),
    )
  where
    balance :
        (v : Expression → ℕ) (q : LogicalPlan) (left conds : List Expression)
        (leaves : List LogicalPlan) (k : ℕ)
        → v true_literal ≡ 0
        → left ≡ conds
        → cond_weight v q + total v left
          ≡ total (λ (n : Node). cond_weight v n.0) (with_rows cat leaves)
            + total v conds
            + k * v true_literal
        → total (λ (n : Node). cond_weight v n.0) (with_rows cat leaves)
          ≡ total (cond_weight v) leaves
        → total v (join_conditions q) ≡ total (cond_weight v) leaves
    balance v q left conds leaves k z e h w = grind (arith, ap (total v) e, ap (λ (t : ℕ). k * t) z)
