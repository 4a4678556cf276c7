-- ===== src/Execution/Eval.antt =====
-- execution/expr_eval.cpp: the value of an expression on a row.
use sql_query_optimizer.Prelude.{
  ℕ, true, false, not, Option, none, some, List, get_elem?, if◌then◌else◌,
}
use sql_query_optimizer.Prelude.Int.{pos, ◌-ℤ◌, in_int64}
use sql_query_optimizer.Ast.{
  BinaryOperator, UnaryOperator, Literal, integer, floating, boolean, Expression, column, literal,
  binary_op, unary_op, function, wildcard,
}
use sql_query_optimizer.Planner.{first_arg}
use sql_query_optimizer.Execution.Result.{
  Result, Error, ok, err, ◌>>=◌, unresolved_column, unresolved_aggregate, bare_wildcard, undefined,
}
use sql_query_optimizer.Execution.Values.{
  Platform, literal_truthy, literal_as_double, literal_equal, literal_less, literal_add,
  literal_sub, literal_mul, literal_div,
}
use sql_query_optimizer.Execution.RowSchema.{RowSchema, resolve, resolve_aggregate}

abbrev pub Row : Type 0
Row = List Literal

-- `row[*idx]` for a resolved index, or the error of a failed resolution.
abbrev pub read : Error → Row → Option ℕ → Result Literal
read e row none = err e
read e row (some i) = elim (get_elem? row i) [ none ↦ err undefined | some v ↦ ok v ]

module _ (d : Platform) where
  unfoldable pub negate_value : Literal → Result Literal
  unfolding literal_as_double
  negate_value (integer n) =
      let m = pos 0 -ℤ n in if in_int64 m then ok (integer m) else err undefined
  negate_value v = do x ← literal_as_double d v; ok (floating (d.negate x))

  unfoldable pub apply_unary : UnaryOperator → Literal → Result Literal
  unfolding negate_value literal_truthy
  apply_unary UnaryOperator.negation v = do b ← literal_truthy v; ok (boolean (not b))
  apply_unary UnaryOperator.neg v = negate_value v

  -- `&&` and `||` of C++ do not test the right operand where the left one decides.
  unfoldable pub both_true : Literal → Literal → Result Literal
  unfolding literal_truthy
  both_true l r = do
    a ← literal_truthy l
    if a then (do b ← literal_truthy r; ok (boolean b)) else ok (boolean false)

  unfoldable pub one_true : Literal → Literal → Result Literal
  unfolding literal_truthy
  one_true l r = do
    a ← literal_truthy l
    if a then ok (boolean true) else (do b ← literal_truthy r; ok (boolean b))

  unfoldable pub apply_binary : BinaryOperator → Literal → Literal → Result Literal
  unfolding literal_equal literal_less literal_add literal_sub literal_mul literal_div both_true
      one_true
  apply_binary BinaryOperator.eq l r = ok (boolean (literal_equal d l r))
  apply_binary BinaryOperator.neq l r = ok (boolean (not (literal_equal d l r)))
  apply_binary BinaryOperator.lt l r = do b ← literal_less d l r; ok (boolean b)
  apply_binary BinaryOperator.gt l r = do b ← literal_less d r l; ok (boolean b)
  apply_binary BinaryOperator.lte l r = do b ← literal_less d r l; ok (boolean (not b))
  apply_binary BinaryOperator.gte l r = do b ← literal_less d l r; ok (boolean (not b))
  apply_binary BinaryOperator.and l r = both_true l r
  apply_binary BinaryOperator.or l r = one_true l r
  apply_binary BinaryOperator.add l r = literal_add d l r
  apply_binary BinaryOperator.sub l r = literal_sub d l r
  apply_binary BinaryOperator.mul l r = literal_mul d l r
  apply_binary BinaryOperator.div l r = literal_div d l r

  unfoldable pub evaluate : Expression → Row → RowSchema → Result Literal
  unfolding apply_unary apply_binary resolve resolve_aggregate
  evaluate (literal v) row s = ok v
  evaluate (column table name) row s = read unresolved_column row (resolve s table name)
  evaluate (unary_op op e) row s = do v ← evaluate e row s; apply_unary op v
  evaluate (binary_op l op r) row s = do
    v ← evaluate l row s
    w ← evaluate r row s
    apply_binary op v w
  evaluate (function name args) row s =
      read unresolved_aggregate row (resolve_aggregate d.equal s name (first_arg args))
  evaluate wildcard row s = err bare_wildcard
