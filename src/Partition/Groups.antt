-- ===== src/Partition/Groups.antt =====
-- When a partition key may stand for the grouping.
use sql_query_optimizer.Prelude.{
  ℕ, sym, ◌∙◌, get_elem?, String, true, ◌==◌, ◌≡◌, refl, ap, Option, none, some, List, [], ◌∷◌, All,
  arith, eq_iff, Bool-cases, inl, inr,
}
use sql_query_optimizer.Execution.Result.{
  Result, ok, err, undefined, unresolved_column, ok-injective,
}
use sql_query_optimizer.Ast.{
  Literal, Expression, column, literal, binary_op, unary_op, function, wildcard,
}
use sql_query_optimizer.Execution.Values.{Platform}
use sql_query_optimizer.Execution.RowSchema.{RowSchema, same_option, resolve}
use sql_query_optimizer.Execution.Eval.{Row, evaluate, read}
use sql_query_optimizer.Partition.{
  PartitionKey, matches, owns, id_owned, partition_key_is_safe_for_group_by,
}

same_option-eq : (a b : Option String) → same_option a b ≡ true → a ≡ b
same_option-eq none none h = refl
same_option-eq none (some t) h = ground arith
same_option-eq (some s) none h = ground arith
same_option-eq (some s) (some t) h = ap some ((eq_iff s t).0 h)

-- A matching expression is the key's column.
matches-column :
    (key : PartitionKey) (e : Expression)
    → matches key e ≡ true
    → e ≡ column key.table key.column_name
unfolding matches
matches-column key (column t c) h =
    let p : same_option t key.table ≡ true = ground arith in
    let q : (c == key.column_name) ≡ true = ground arith in
    let e₀ = same_option-eq t key.table p in let e₁ = (eq_iff c key.column_name).0 q in cc
matches-column key (literal v) h = cc
matches-column key (binary_op l op r) h = cc
matches-column key (unary_op op e) h = cc
matches-column key (function f args) h = cc
matches-column key wildcard h = cc

-- A key that is safe for the grouping has the same value on two rows of one group.
safe_key-same_value :
    (d : Platform) (key : PartitionKey) (group_by : List Expression) (schema : RowSchema)
    (r r' : Row)
    → partition_key_is_safe_for_group_by key group_by ≡ true
    → All (λ g. evaluate d g r schema ≡ evaluate d g r' schema) group_by
    → evaluate d (column key.table key.column_name) r schema
      ≡ evaluate d (column key.table key.column_name) r' schema
unfolding partition_key_is_safe_for_group_by
safe_key-same_value d key [] schema r r' h same = cc
safe_key-same_value d key (g ∷ gs) schema r r' h same = elim (Bool-cases (matches key g)) [
  | inl e ↦ rw (← matches-column key g e) same.0
  | inr e ↦ safe_key-same_value d key gs schema r r' (ground arith) same.1
]

-- What is read from a column tells the value there, if any.
abbrev value_of : Option Literal → Result Literal
value_of none = err undefined
value_of (some v) = ok v

value_of-injective : (o o' : Option Literal) → value_of o ≡ value_of o' → o ≡ o'
value_of-injective none none h = refl
value_of-injective none (some v) h = cc
value_of-injective (some v) none h = cc
value_of-injective (some v) (some v') h = ap some (ok-injective h)

read-value_of :
    (row : Row) (i : ℕ) → read unresolved_column row (some i) ≡ value_of (get_elem? row i)
read-value_of row i = same (get_elem? row i)
  where
    same : (o : Option Literal) → (elim o [ none ↦ err undefined | some v ↦ ok v ]) ≡ value_of o
    same none = refl
    same (some v) = refl

-- If the key is safe for the grouping and is column `i` of the schema, then two rows of one group,
-- those on which all GROUP BY expressions have the same value, stand in one partition by that column:
-- each worker owns both or neither.
pub safe_key-same_group :
    (d : Platform) (key : PartitionKey) (group_by : List Expression) (schema : RowSchema)
    (r r' : Row) (i worker workers : ℕ)
    → partition_key_is_safe_for_group_by key group_by ≡ true
    → resolve schema key.table key.column_name ≡ some i
    → All (λ g. evaluate d g r schema ≡ evaluate d g r' schema) group_by
    → owns i worker workers r ≡ owns i worker workers r'
unfolding owns evaluate
safe_key-same_group d key group_by schema r r' i worker workers h at same =
    let agree = rw at at (safe_key-same_value d key group_by schema r r' h same) in
    let values = sym (read-value_of r i) ∙ agree ∙ read-value_of r' i in
    ap (λ v. id_owned v worker workers) (value_of-injective (get_elem? r i) (get_elem? r' i) values)
