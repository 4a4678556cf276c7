-- ===== src/Optimizer/Reorder/Bounds.antt =====
-- The indices of the chosen pair of nodes and condition.
use native.Mathlib.Nat.{zero-add}
use sql_query_optimizer.Prelude.{
  ℕ, zero, suc, ◌+◌, ◌≤◌, ◌<◌, String, ◌&&◌, ◌≡◌, refl, ap, Option, none, some, List, [], ◌∷◌,
  length, ltb, arith, Bool-cases, inl, inr,
}
use sql_query_optimizer.Ast.{Expression}
use sql_query_optimizer.Optimizer.Expressions.{scan_aliases}
use sql_query_optimizer.Optimizer.Predicates.{refers_to}
use sql_query_optimizer.Optimizer.Reorder.{
  Node, Best, linking_cond, consider, pairs_with, all_pairs, best_pair, estimate_join_rows, take_at,
  take_cond,
}

-- An index into the conditions, if there is one.
abbrev pub IndexBelow : ℕ → Option ℕ → Type 0
IndexBelow m none = Unit
IndexBelow m (some k) = k < m

-- A pair of two of `n` nodes and an index into `m` conditions.
pub record InRange (n m : ℕ) (b : Best) : Type 0 where
  pub apart : b.left_index < b.right_index
  pub right_below : b.right_index < n
  pub cond_below : IndexBelow m b.cond_index

linking_cond-below :
    (la ra : List String) (conds : List Expression) (k : ℕ)
    → IndexBelow (k + length conds) (linking_cond la ra conds k)
unfolding linking_cond
linking_cond-below la ra [] k = tt
linking_cond-below la ra (c ∷ cs) k = elim (Bool-cases (refers_to la c && refers_to ra c)) [
  | inl e ↦ rw e (omega arith)
  | inr e ↦
      let shift : (k + 1) + length cs ≡ k + suc (length cs) = omega arith in
      rw e (rw shift at (linking_cond-below la ra cs (k + 1)))
]

consider-InRange :
    (n m : ℕ) (o : Option ℕ) (cost i j : ℕ) (b : Best)
    → IndexBelow m o
    → i < j
    → j < n
    → InRange n m b
    → InRange n m (consider o cost i j b)
consider-InRange n m none cost i j b h p q v = v
consider-InRange n m (some k) cost i j b h p q v = elim (Bool-cases (ltb cost b.cost)) [
  | inl e ↦ rw e (record { apart = p; right_below = q; cond_below = h })
  | inr e ↦ rw e v
]

pairs_with-InRange :
    (n : ℕ) (conds : List Expression) (node : Node) (i : ℕ) (nodes : List Node) (j : ℕ) (b : Best)
    → i < j
    → j + length nodes ≤ n
    → InRange n (length conds) b
    → InRange n (length conds) (pairs_with conds node i nodes j b)
unfolding pairs_with
pairs_with-InRange n conds (p, rows) i [] j b h k v = v
pairs_with-InRange n conds (p, rows) i ((q, rows') ∷ nodes) j b h k v =
    pairs_with-InRange n conds (p, rows) i nodes (j + 1) _ (omega arith) (omega arith)
      (consider-InRange n (length conds) (linking_cond (scan_aliases p) (scan_aliases q) conds 0)
        (estimate_join_rows rows rows') i j b
        (rw zero-add at (linking_cond-below (scan_aliases p) (scan_aliases q) conds 0)) h
        (omega arith) v)

all_pairs-InRange :
    (n : ℕ) (conds : List Expression) (nodes : List Node) (i : ℕ) (b : Best)
    → i + length nodes ≤ n
    → InRange n (length conds) b
    → InRange n (length conds) (all_pairs conds nodes i b)
unfolding all_pairs
all_pairs-InRange n conds [] i b h v = v
all_pairs-InRange n conds (node ∷ nodes) i b h v =
    all_pairs-InRange n conds nodes (i + 1) _ (omega arith)
      (pairs_with-InRange n conds node i nodes (i + 1) b (omega arith) (omega arith) v)

-- With two nodes or more, the chosen pair is two different nodes of the list, the left one before
-- the right one, and the chosen condition, if any, is one of the conditions.
pub best_pair-InRange :
    (nodes : List Node) (conds : List Expression)
    → 2 ≤ length nodes
    → InRange (length nodes) (length conds) (best_pair nodes conds)
unfolding best_pair
best_pair-InRange nodes conds h =
    all_pairs-InRange (length nodes) conds nodes 0 _ (omega arith)
      (record { apart = omega arith; right_below = h; cond_below = tt })

-- An element is taken, and the rest is one shorter.
pub record Taken {ℓ} {A : Type ℓ} (xs : List A) (r : Option (A × List A)) : Type ℓ where
  pub first : A
  pub rest : List A
  pub taken : r ≡ some (first, rest)
  pub shorter : length xs ≡ suc (length rest)

pub take_at-Taken {ℓ} : {A : Type ℓ} (xs : List A) (i : ℕ) → i < length xs → Taken xs (take_at xs i)
unfolding take_at
take_at-Taken [] i h = elim h [ ]
take_at-Taken (x ∷ xs) zero h = record { first = x; rest = xs; taken = refl; shorter = refl }
take_at-Taken (x ∷ xs) (suc i) h =
    let t = take_at-Taken xs i (omega arith) in
    record { first = t.first; rest = x ∷ t.rest; taken = rw t.taken; shorter = ap suc t.shorter }

pub take_cond-total :
    (o : Option ℕ) (conds : List Expression)
    → IndexBelow (length conds) o
    → (c : Expression) × (cs : List Expression) × (take_cond o conds ≡ some (c, cs))
unfolding take_cond
take_cond-total none conds h = (_, conds, refl)
take_cond-total (some k) conds h = let t = take_at-Taken conds k h in (t.first, t.rest, t.taken)
