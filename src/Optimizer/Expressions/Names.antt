-- ===== src/Optimizer/Expressions/Names.antt =====
-- The sets of names that the helpers collect, read through membership.
use sql_query_optimizer.Prelude.{
  String, Bool, true, false, ◌||◌, ◌==◌, ◌≡◌, refl, none, some, List, [], ◌∷◌, ◌++◌, any, contains,
  insert_name, value_or, arith, eq_iff, Bool-cases, inl, inr,
}
use sql_query_optimizer.Ast.{
  Expression, Expressions, column, literal, binary_op, unary_op, function, wildcard, nil, cons,
}
use sql_query_optimizer.Plan.{LogicalPlan, scan, filter, join, aggregate, project, sort, limit}
use sql_query_optimizer.Optimizer.Expressions.{
  visit_tables, visit_args, referenced_tables, collect_aliases, scan_aliases,
}

pub any-append {ℓ} :
    {A : Type ℓ} (p : A → Bool) (xs ys : List A) → any p (xs ++ ys) ≡ (any p xs || any p ys)
any-append p [] ys = refl
any-append p (x ∷ xs) ys = ground (arith, any-append p xs ys)

any_of_contains :
    (p : String → Bool) (t : String) (s : List String)
    → contains s t ≡ true
    → p t ≡ true
    → any p s ≡ true
any_of_contains p t [] h k = ground arith
any_of_contains p t (u ∷ s) h k = elim (Bool-cases (u == t)) [
  | inl e ↦ rw ((eq_iff u t).0 e, k)
  | inr e ↦ ground (arith, any_of_contains p t s)
]

pub any-insert_name :
    (p : String → Bool) (t : String) (s : List String) → any p (insert_name t s) ≡ (any p s || p t)
any-insert_name p t s = ground (arith, any_of_contains p t s, any-append p s (t ∷ []))

unfoldable mutual
  -- Some qualifier of a column of the expression passes the test.
  pub mentions : (String → Bool) → Expression → Bool
  mentions p (column none c) = false
  mentions p (column (some t) c) = p t
  mentions p (binary_op l op r) = mentions p l || mentions p r
  mentions p (unary_op op e) = mentions p e
  mentions p (function f args) = mentions_args p args
  mentions p (literal v) = false
  mentions p wildcard = false

  pub mentions_args : (String → Bool) → Expressions → Bool
  mentions_args p nil = false
  mentions_args p (cons e es) = mentions p e || mentions_args p es

mutual
  unfolding mentions visit_tables

  any-visit_tables :
      (p : String → Bool) (e : Expression) (out : List String)
      → any p (visit_tables e out) ≡ (any p out || mentions p e)
  any-visit_tables p (column none c) out = ground arith
  any-visit_tables p (column (some t) c) out = any-insert_name p t out
  any-visit_tables p (binary_op l op r) out =
      ground (arith, any-visit_tables p l out, any-visit_tables p r (visit_tables l out))
  any-visit_tables p (unary_op op e) out = any-visit_tables p e out
  any-visit_tables p (function f args) out = any-visit_args p args out
  any-visit_tables p (literal v) out = ground arith
  any-visit_tables p wildcard out = ground arith

  any-visit_args :
      (p : String → Bool) (es : Expressions) (out : List String)
      → any p (visit_args es out) ≡ (any p out || mentions_args p es)
  any-visit_args p nil out = ground arith
  any-visit_args p (cons e es) out =
      ground (arith, any-visit_tables p e out, any-visit_args p es (visit_tables e out))

-- A test on the referenced tables is one on the qualifiers in the expression.
pub any-referenced_tables :
    (p : String → Bool) (e : Expression) → any p (referenced_tables e) ≡ mentions p e
unfolding referenced_tables
any-referenced_tables p e = ground (arith, any-visit_tables p e [])

pub any-collect_aliases :
    (p : String → Bool) (q : LogicalPlan) (out : List String)
    → any p (collect_aliases q out) ≡ (any p out || any p (scan_aliases q))
unfolding scan_aliases
any-collect_aliases p (scan table alias cols) out =
    ground (arith, any-insert_name p (value_or alias table) out)
any-collect_aliases p (join t c l r) out = ground (
  arith,
  any-collect_aliases p l out,
  any-collect_aliases p r (collect_aliases l out),
  any-collect_aliases p r (collect_aliases l []),
)
any-collect_aliases p (filter e i) out = any-collect_aliases p i out
any-collect_aliases p (aggregate g a i) out = any-collect_aliases p i out
any-collect_aliases p (project es i) out = any-collect_aliases p i out
any-collect_aliases p (sort o i) out = any-collect_aliases p i out
any-collect_aliases p (limit n i) out = any-collect_aliases p i out
