-- ===== src/Execution/Sides.antt =====
-- Expressions over the columns of one side of a join.
use sql_query_optimizer.Prelude.{
  ℕ, suc, ◌+◌, String, false, ◌==◌, ◌≡◌, refl, ap, ◌∙◌, none, some, List, [], ◌∷◌, ◌++◌, value_or,
  length, get_elem?, All, get_elem?-append_left, get_elem?-append_right, arith,
}
use sql_query_optimizer.Ast.{Expression, column, literal, binary_op, unary_op, function, wildcard}
use sql_query_optimizer.Execution.Result.{unresolved_column}
use sql_query_optimizer.Execution.Values.{Platform}
use sql_query_optimizer.Execution.RowSchema.{
  Entry, RowSchema, extend, find_qualified, resolve, resolve_aggregate,
}
use sql_query_optimizer.Execution.Eval.{Row, read, evaluate}

-- No entry stands under the qualifier `t`.
abbrev pub Lacks : List Entry → String → Type 0
Lacks es t = All (λ e. (value_or e.table "" == t) ≡ false) es

find_qualified-Lacks :
    (t c : String) (es : List Entry) (i : ℕ) → Lacks es t → find_qualified t c es i ≡ none
unfolding find_qualified
find_qualified-Lacks t c [] i h = refl
find_qualified-Lacks t c (e ∷ es) i h = ground (arith, find_qualified-Lacks t c es (i + 1))

find_qualified-skip :
    (t c : String) (xs ys : List Entry) (i : ℕ)
    → Lacks xs t
    → find_qualified t c (xs ++ ys) i ≡ find_qualified t c ys (length xs + i)
unfolding find_qualified
find_qualified-skip t c [] ys i h = ap (find_qualified t c ys) (omega arith)
find_qualified-skip t c (x ∷ xs) ys i h =
    let e : length xs + (i + 1) ≡ suc (length xs) + i = omega arith in
    ground (arith, find_qualified-skip t c xs ys (i + 1), ap (find_qualified t c ys) e)

-- A read through a reference of the right side.
read-right :
    (t c : String) (l r : Row) (ys : List Entry) (n k : ℕ)
    → n ≡ length l + k
    → read unresolved_column (l ++ r) (find_qualified t c ys n)
      ≡ read unresolved_column r (find_qualified t c ys k)
unfolding find_qualified
read-right t c l r [] n k h = refl
read-right t c l r (y ∷ ys) n k h = ground (
  arith,
  read-right t c l r ys (n + 1) (k + 1),
  get_elem?-append_right l r k,
  ap (get_elem? (l ++ r)) h,
)

-- A read through a reference of the left side.
read-left :
    (t c : String) (l r : Row) (xs ys : List Entry) (i : ℕ)
    → length l ≡ length xs + i
    → Lacks ys t
    → read unresolved_column (l ++ r) (find_qualified t c (xs ++ ys) i)
      ≡ read unresolved_column l (find_qualified t c xs i)
unfolding find_qualified
read-left t c l r [] ys i h k = ground (arith, find_qualified-Lacks t c ys i k)
read-left t c l r (x ∷ xs) ys i h k = ground (
  arith,
  read-left t c l r xs ys (i + 1) (omega arith) k,
  get_elem?-append_left l r i (omega arith),
)

-- Every column of the expression is qualified, by a table that the entries lack.
abbrev pub ApartFrom : List Entry → Expression → Type 0
ApartFrom es (column none c) = ⊥
ApartFrom es (column (some t) c) = Lacks es t
ApartFrom es (binary_op l op r) = ApartFrom es l × ApartFrom es r
ApartFrom es (unary_op op e) = ApartFrom es e
ApartFrom es (function f args) = Unit
ApartFrom es (literal v) = Unit
ApartFrom es wildcard = Unit

-- A schema of scans and joins: it has no aggregates, and the row has a value for each entry.
pub record Fits (s : RowSchema) (row : Row) : Type 0 where
  pub width : length row ≡ length s.entries
  pub plain : s.agg_entries ≡ []

module _ (d : Platform) (L R : RowSchema) (l r : Row) (fl : Fits L l) (fr : Fits R r) where
  pub evaluate-left :
      (e : Expression)
      → ApartFrom R.entries e
      → evaluate d e (l ++ r) (extend L R) ≡ evaluate d e l L
  unfolding evaluate extend resolve
  evaluate-left (column none c) h = absurd h
  evaluate-left (column (some t) c) h =
      read-left t c l r L.entries R.entries 0 (omega (arith, fl.width)) h
  evaluate-left (binary_op a op b) h = rw (evaluate-left a h.0, evaluate-left b h.1)
  evaluate-left (unary_op op a) h = rw (evaluate-left a h)
  evaluate-left (function f args) h = rw (fl.plain, fr.plain, resolve_aggregate)
  evaluate-left (literal v) h = refl
  evaluate-left wildcard h = refl

  pub evaluate-right :
      (e : Expression)
      → ApartFrom L.entries e
      → evaluate d e (l ++ r) (extend L R) ≡ evaluate d e r R
  unfolding evaluate extend resolve
  evaluate-right (column none c) h = absurd h
  evaluate-right (column (some t) c) h =
      ap (read unresolved_column (l ++ r)) (find_qualified-skip t c L.entries R.entries 0 h)
      ∙ read-right t c l r R.entries (length L.entries + 0) 0 (omega (arith, fl.width))
  evaluate-right (binary_op a op b) h = rw (evaluate-right a h.0, evaluate-right b h.1)
  evaluate-right (unary_op op a) h = rw (evaluate-right a h)
  evaluate-right (function f args) h = rw (fl.plain, fr.plain, resolve_aggregate)
  evaluate-right (literal v) h = refl
  evaluate-right wildcard h = refl
