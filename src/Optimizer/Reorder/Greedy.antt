-- ===== src/Optimizer/Reorder/Greedy.antt =====
-- The greedy loop, with its fuel.
use sql_query_optimizer.Prelude.{
  ℕ, zero, suc, ◌+◌, ◌*◌, ◌≤◌, ◌≡◌, refl, Option, some, List, [], ◌∷◌, ◌++◌, length, arith,
  length-append,
}
use sql_query_optimizer.Prelude.Totals.{total, total-append}
use sql_query_optimizer.Ast.{Expression, JoinType}
use sql_query_optimizer.Plan.{LogicalPlan, join}
use sql_query_optimizer.Schema.{Catalog}
use sql_query_optimizer.Optimizer.Reorder.{
  Node, true_literal, best_pair, estimate_join_rows, estimate_rows, take_at, greedy_loop,
}
use sql_query_optimizer.Optimizer.Reorder.Bounds.{best_pair-InRange, take_at-Taken, take_cond-total}
use sql_query_optimizer.Optimizer.Reorder.Balance.{
  Source, scan_weight, cond_weight, scan_weight-join, cond_weight-join, take_at-total, unlinked,
  take_cond-balance, nodes_weight,
}

-- The loop returns a plan over the scans of the nodes. Its join conditions and those left over are
-- the nodes' and the given ones, with one TRUE for each round that found no condition.
pub record Outcome (nodes : List Node) (conds : List Expression)
    (r : Option (LogicalPlan × List Expression)) : Type 0 where
  pub result : LogicalPlan
  pub left_over : List Expression
  pub returned : r ≡ some (result, left_over)
  pub same_scans : (w : Source → ℕ) → scan_weight w result ≡ nodes_weight (scan_weight w) nodes
  pub padding : ℕ
  pub same_conditions :
      (v : Expression → ℕ)
      → cond_weight v result + total v left_over
        ≡ nodes_weight (cond_weight v) nodes + total v conds + padding * v true_literal
  pub rounds : length left_over + length nodes ≡ length conds + 1 + padding

-- The number of a round's conditions, as a total.
length-total {ℓ} : {A : Type ℓ} (xs : List A) → total (λ _. 1) xs ≡ length xs
length-total [] = refl
length-total (x ∷ xs) = omega (arith, length-total xs)

-- One round: `l` and `r` are taken out and their join is appended.
round-weight :
    (w : LogicalPlan → ℕ) (nodes without rest : List Node) (l r : Node) (rows extra i j : ℕ)
    (p : LogicalPlan)
    → take_at nodes j ≡ some (r, without)
    → take_at without i ≡ some (l, rest)
    → w p ≡ extra + w l.0 + w r.0
    → nodes_weight w (rest ++ (p, rows) ∷ []) ≡ nodes_weight w nodes + extra
round-weight w nodes without rest l r rows extra i j p hr hl h = omega (
  arith,
  take_at-total (λ (n : Node). w n.0) nodes j r without hr,
  take_at-total (λ (n : Node). w n.0) without i l rest hl,
  total-append (λ (n : Node). w n.0) rest ((p, rows) ∷ []),
)

pub greedy_loop-Outcome :
    (fuel : ℕ) (nodes : List Node) (conds : List Expression) (cat : Catalog)
    → 1 ≤ length nodes
    → length nodes ≤ suc fuel
    → Outcome nodes conds (greedy_loop fuel nodes conds cat)
unfolding greedy_loop
greedy_loop-Outcome fuel [] conds cat h k = elim h [ ]
greedy_loop-Outcome fuel (node ∷ []) conds cat h k = record {
  result = node.0;
  left_over = conds;
  returned = refl;
  same_scans = λ w. omega arith;
  padding = 0;
  same_conditions = λ v. omega arith;
  rounds = omega arith;
}
greedy_loop-Outcome zero (a ∷ b ∷ nodes) conds cat h k = absurd (omega arith)
greedy_loop-Outcome (suc fuel) (a ∷ b ∷ nodes) conds cat h k =
    let all : List Node = a ∷ b ∷ nodes in
    let best = best_pair all conds in
    let v = best_pair-InRange all conds (omega arith) in
    let (c, cs, ec) = take_cond-total best.cond_index conds v.cond_below in
    let r = take_at-Taken all best.right_index v.right_below in
    let l =
      take_at-Taken r.rest best.left_index (omega (arith, r.shorter, v.apart, v.right_below)) in
    let joined = join JoinType.inner c l.first.0 r.first.0 in
    let rows = estimate_join_rows (estimate_rows l.first.0 cat) (estimate_rows r.first.0 cat) in
    let next : List Node = l.rest ++ (joined, rows) ∷ [] in
    let o =
      greedy_loop-Outcome fuel (l.rest ++ (joined, rows) ∷ []) cs cat
        (omega (arith, length-append l.rest ((joined, rows) ∷ [])))
        (omega (arith, length-append l.rest ((joined, rows) ∷ []), l.shorter, r.shorter)) in
    record {
      result = o.result;
      left_over = o.left_over;
      returned = rw (ec, r.taken, l.taken) o.returned;
      same_scans = λ w. omega (
        arith,
        o.same_scans w,
        round-weight (scan_weight w) all r.rest l.rest l.first r.first rows 0 best.left_index
            best.right_index joined r.taken l.taken
            (omega (arith, scan_weight-join w JoinType.inner c l.first.0 r.first.0)),
      );
      padding = unlinked best.cond_index + o.padding;
      same_conditions = λ v. omega (
        arith,
        o.same_conditions v,
        take_cond-balance v best.cond_index conds c cs ec,
        round-weight (cond_weight v) all r.rest l.rest l.first r.first rows (v c) best.left_index
            best.right_index joined r.taken l.taken
            (cond_weight-join v JoinType.inner c l.first.0 r.first.0),
      );
      rounds = omega (
        arith,
        o.rounds,
        length-append l.rest ((joined, rows) ∷ []),
        l.shorter,
        r.shorter,
        take_cond-balance (λ _. 1) best.cond_index conds c cs ec,
        length-total {0} conds,
        length-total {0} cs,
      );
    }
