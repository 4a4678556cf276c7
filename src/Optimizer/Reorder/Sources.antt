-- ===== src/Optimizer/Reorder/Sources.antt =====
-- The scans and the conditions of a reordered plan.
use sql_query_optimizer.Prelude.{
  ℕ, ◌+◌, ◌*◌, ◌≡◌, refl, Option, some, List, [], ◌∷◌, ◌++◌, length, leb, arith, length-append,
  Bool-cases, inl, inr,
}
use sql_query_optimizer.Prelude.Totals.{total, total-append, SameItems}
use sql_query_optimizer.Ast.{Expression, JoinType}
use sql_query_optimizer.Plan.{LogicalPlan, scan, filter, join, aggregate, project, sort, limit}
use sql_query_optimizer.Plan.Views.{scans, join_conditions}
use sql_query_optimizer.Schema.{Catalog}
use sql_query_optimizer.Optimizer.Reorder.{
  JoinTree, true_literal, all_inner, extract_join_tree, rebuild_from, rebuild_join_tree,
  greedy_join_order, with_rows, reorder_join, reorder_joins, ◌>>=◌,
}
use sql_query_optimizer.Optimizer.Reorder.Balance.{
  scan_weight, cond_weight, scan_weight-join, cond_weight-join,
}
use sql_query_optimizer.Optimizer.Reorder.Greedy.{greedy_loop-Outcome}
use sql_query_optimizer.Optimizer.Reorder.Trees.{
  length-leaves, extract_join_tree-weight, rebuild_from-weight, with_rows-weight, length-with_rows,
}

-- The rewrite of `p` returns a plan with the scans of `p`, each as often. Its join conditions are
-- those of `p`, where each of the dropped ones is replaced by TRUE.
pub record Reordered (p : LogicalPlan) (r : Option LogicalPlan) : Type 0 where
  pub result : LogicalPlan
  pub returned : r ≡ some result
  pub same_scans : SameItems (scans result) (scans p)
  pub dropped : List Expression
  pub same_conditions :
      (v : Expression → ℕ)
      → total v (join_conditions result) + total v dropped
        ≡ total v (join_conditions p) + length dropped * v true_literal

abbrev start : JoinTree
start = record { leaves = []; conds = [] }

zero_total : (es : List Expression) → total (λ _. 0) es ≡ 0
zero_total [] = refl
zero_total (e ∷ es) = omega (arith, zero_total es)

greedy_join_order-Reordered :
    (p : LogicalPlan) (cat : Catalog)
    → Reordered p
        (greedy_join_order (extract_join_tree p start).leaves (extract_join_tree p start).conds cat)
unfolding greedy_join_order
greedy_join_order-Reordered p cat =
    let tree = extract_join_tree p start in
    let nodes = with_rows cat tree.leaves in
    let size = length-with_rows cat tree.leaves in
    let leaves = length-leaves p start in
    let o =
      greedy_loop-Outcome (length tree.leaves) nodes tree.conds cat (omega (arith, size, leaves))
        (omega (arith, size)) in
    let gap : length o.left_over ≡ o.padding = omega (arith, o.rounds, size, leaves) in
    record {
      result = o.result;
      returned = rw o.returned;
      same_scans = λ w. omega (
        arith,
        o.same_scans w,
        with_rows-weight (scan_weight w) cat tree.leaves,
        extract_join_tree-weight (scan_weight w) (λ _. 0) (scan_weight-join w) p start,
        zero_total tree.conds,
      );
      dropped = o.left_over;
      same_conditions = λ v. rw gap (
          omega (
            arith,
            o.same_conditions v,
            with_rows-weight (cond_weight v) cat tree.leaves,
            extract_join_tree-weight (cond_weight v) v (cond_weight-join v) p start,
          ));
    }

-- A tree of two leaves, or of one, is rebuilt from the conditions that it had.
rebuild_join_tree-Reordered :
    (p : LogicalPlan) (leaves : List LogicalPlan) (conds : List Expression)
    → length leaves ≡ length conds + 1
    → ((w : LogicalPlan → ℕ) (v : Expression → ℕ)
        → ((t : JoinType) (c : Expression) (l r : LogicalPlan) → w (join t c l r) ≡ v c + w l + w r)
        → total w leaves + total v conds ≡ w p)
    → Reordered p (rebuild_join_tree leaves conds)
unfolding rebuild_join_tree
rebuild_join_tree-Reordered p [] conds h same = absurd (omega arith)
rebuild_join_tree-Reordered p (leaf ∷ leaves) conds h same = record {
  result = rebuild_from leaf leaves conds;
  returned = refl;
  same_scans = λ w. omega (
    arith,
    rebuild_from-weight (scan_weight w) (λ _. 0) (scan_weight-join w) leaf leaves conds
        (omega arith),
    same (scan_weight w) (λ _. 0) (scan_weight-join w),
  );
  dropped = [];
  same_conditions = λ v. omega (
    arith,
    rebuild_from-weight (cond_weight v) v (cond_weight-join v) leaf leaves conds (omega arith),
    same (cond_weight v) v (cond_weight-join v),
  );
}

unchanged : (p : LogicalPlan) → Reordered p (some p)
unchanged p = record {
  result = p;
  returned = refl;
  same_scans = λ w. refl;
  dropped = [];
  same_conditions = λ v. omega arith;
}

reorder_join-Reordered : (p : LogicalPlan) (cat : Catalog) → Reordered p (reorder_join p cat)
unfolding reorder_join
reorder_join-Reordered p cat = elim (Bool-cases (all_inner p)) [
  | inr outer ↦ rw outer (unchanged p)
  | inl inner ↦ rw inner (elim (Bool-cases (leb 3 (length (extract_join_tree p start).leaves))) [
    | inl many ↦ rw many (greedy_join_order-Reordered p cat)
    | inr few ↦ rw few (
        rebuild_join_tree-Reordered p (extract_join_tree p start).leaves
          (extract_join_tree p start).conds (omega (arith, length-leaves p start))
          (λ w v adds. omega (arith, extract_join_tree-weight w v adds p start)))
  ])
]

-- A node with one input keeps what its input keeps.
module _ (node : LogicalPlan → LogicalPlan) (reads : (p : LogicalPlan) → scans (node p) ≡ scans p)
    (joins : (p : LogicalPlan) → join_conditions (node p) ≡ join_conditions p) where
  above :
      (i : LogicalPlan) (r : Option LogicalPlan)
      → Reordered i r
      → Reordered (node i) (r >>= λ i'. some (node i'))
  above i r o = record {
    result = node o.result;
    returned = rw o.returned;
    same_scans = λ w. rw (reads o.result, reads i) (o.same_scans w);
    dropped = o.dropped;
    same_conditions = λ v. rw (joins o.result, joins i) (o.same_conditions v);
  }

-- Join reordering returns a plan over the same scans. Its join conditions are those of the given
-- plan, but for some that are dropped: each of these gives way to the condition TRUE.
pub reorder_joins-Reordered : (p : LogicalPlan) (cat : Catalog) → Reordered p (reorder_joins p cat)
unfolding reorder_joins scans join_conditions
reorder_joins-Reordered (scan a b c) cat = unchanged (scan a b c)
reorder_joins-Reordered (filter e i) cat =
    above (filter e) (λ p. refl) (λ p. refl) i _ (reorder_joins-Reordered i cat)
reorder_joins-Reordered (aggregate g a i) cat =
    above (aggregate g a) (λ p. refl) (λ p. refl) i _ (reorder_joins-Reordered i cat)
reorder_joins-Reordered (project es i) cat =
    above (project es) (λ p. refl) (λ p. refl) i _ (reorder_joins-Reordered i cat)
reorder_joins-Reordered (sort o i) cat =
    above (sort o) (λ p. refl) (λ p. refl) i _ (reorder_joins-Reordered i cat)
reorder_joins-Reordered (limit n i) cat =
    above (limit n) (λ p. refl) (λ p. refl) i _ (reorder_joins-Reordered i cat)
reorder_joins-Reordered (join t c l r) cat =
    let a = reorder_joins-Reordered l cat in
    let b = reorder_joins-Reordered r cat in
    let o = reorder_join-Reordered (join t c a.result b.result) cat in
    record {
      result = o.result;
      returned = rw (a.returned, b.returned) o.returned;
      same_scans = λ w. omega (
        arith,
        o.same_scans w,
        a.same_scans w,
        b.same_scans w,
        scan_weight-join w t c l r,
        scan_weight-join w t c a.result b.result,
      );
      dropped = o.dropped ++ (a.dropped ++ b.dropped);
      same_conditions = λ v.
          rw (length-append, length-append)
            (omega (
              arith,
              o.same_conditions v,
              a.same_conditions v,
              b.same_conditions v,
              cond_weight-join v t c l r,
              cond_weight-join v t c a.result b.result,
              total-append v o.dropped (a.dropped ++ b.dropped),
              total-append v a.dropped b.dropped,
            ));
    }
