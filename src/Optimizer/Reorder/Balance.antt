-- ===== src/Optimizer/Reorder/Balance.antt =====
-- What a round of the greedy loop moves: scans and conditions are counted by weights.
use sql_query_optimizer.Prelude.{
  ℕ, zero, suc, ◌+◌, ◌*◌, String, ◌≡◌, refl, Option, none, some, List, [], ◌∷◌, arith,
}
use sql_query_optimizer.Prelude.Totals.{total, total-append}
use sql_query_optimizer.Ast.{Expression, JoinType}
use sql_query_optimizer.Plan.{LogicalPlan, join}
use sql_query_optimizer.Plan.Views.{scans, join_conditions}
use sql_query_optimizer.Optimizer.Reorder.{Node, true_literal, take_at, take_cond, ◌>>=◌}

abbrev pub Source : Type 0
Source = String × Option String × List String

-- The weight of a plan's scans, and of its join conditions.
abbrev pub scan_weight : (Source → ℕ) → LogicalPlan → ℕ
scan_weight w p = total w (scans p)

abbrev pub cond_weight : (Expression → ℕ) → LogicalPlan → ℕ
cond_weight v p = total v (join_conditions p)

pub scan_weight-join :
    (w : Source → ℕ) (t : JoinType) (c : Expression) (l r : LogicalPlan)
    → scan_weight w (join t c l r) ≡ 0 + scan_weight w l + scan_weight w r
unfolding scans
scan_weight-join w t c l r = omega (arith, total-append w (scans l) (scans r))

pub cond_weight-join :
    (v : Expression → ℕ) (t : JoinType) (c : Expression) (l r : LogicalPlan)
    → cond_weight v (join t c l r) ≡ v c + cond_weight v l + cond_weight v r
unfolding join_conditions
cond_weight-join v t c l r = omega (arith, total-append v (join_conditions l) (join_conditions r))

pub take_at-total {ℓ} :
    {A : Type ℓ} (w : A → ℕ) (xs : List A) (i : ℕ) (y : A) (ys : List A)
    → take_at xs i ≡ some (y, ys)
    → total w xs ≡ w y + total w ys
unfolding take_at
take_at-total w [] i y ys h = ground arith
take_at-total w (x ∷ xs) zero y ys h = ground arith
take_at-total {A = A} w (x ∷ xs) (suc i) y ys h = step (take_at xs i) (take_at-total w xs i) h
  where
    step :
        (o : Option (A × List A))
        → ((z : A) (zs : List A) → o ≡ some (z, zs) → total w xs ≡ w z + total w zs)
        → ◌>>=◌ {B = A × List A} o (λ p. some (p.0, x ∷ p.1)) ≡ some (y, ys)
        → w x + total w xs ≡ w y + total w ys
    step none e k = ground arith
    step (some (z, zs)) e k =
        let e₀ : z ≡ y = ground arith in
        let e₁ : x ∷ zs ≡ ys = ground arith in rw (← e₀, ← e₁) (omega (arith, e z zs refl))

-- One round more in which no condition was found.
abbrev pub unlinked : Option ℕ → ℕ
unlinked none = 1
unlinked (some _) = 0

pub take_cond-balance :
    (v : Expression → ℕ) (o : Option ℕ) (conds : List Expression) (c : Expression)
    (cs : List Expression)
    → take_cond o conds ≡ some (c, cs)
    → total v conds + unlinked o * v true_literal ≡ v c + total v cs
unfolding take_cond
take_cond-balance v none conds c cs h =
    let e₀ : true_literal ≡ c = ground arith in
    let e₁ : conds ≡ cs = ground arith in rw (← e₀, ← e₁) (omega arith)
take_cond-balance v (some k) conds c cs h = omega (arith, take_at-total v conds k c cs h)

abbrev pub nodes_weight : (LogicalPlan → ℕ) → List Node → ℕ
nodes_weight w nodes = total (λ n. w n.0) nodes
