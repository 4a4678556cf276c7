-- ===== src/Prelude/Totals.antt =====
-- Multisets of list elements through weights: two lists hold the same items, each as often, when
-- every weight has the same total over both. Totals are sums, which `omega` regroups.
use sql_query_optimizer.Prelude.Lists.{length}
use Prim.Native.Nat.{ℕ, ◌+◌}
use mathlib.Core.Path.{◌≡◌, refl}
use mathlib.Core.List.{List, [], ◌∷◌, ◌++◌}
use native.Mathlib.Omega.{arith}

module _ {ℓ} {A : Type ℓ} where
  abbrev pub total : (A → ℕ) → List A → ℕ
  total w [] = 0
  total w (x ∷ xs) = w x + total w xs

  abbrev pub SameItems : List A → List A → Type ℓ
  SameItems xs ys = (w : A → ℕ) → total w xs ≡ total w ys

  pub total-append : (w : A → ℕ) (xs ys : List A) → total w (xs ++ ys) ≡ total w xs + total w ys
  total-append w [] ys = omega arith
  total-append w (x ∷ xs) ys = omega (arith, total-append w xs ys)

pub total-length {ℓ} : {A : Type ℓ} (xs : List A) → total (λ x. 1) xs ≡ length xs
total-length [] = refl
total-length (x ∷ xs) = omega (arith, total-length xs)
