-- ===== src/Execution/Nulls.antt =====
-- Comparisons with NULL.
use sql_query_optimizer.Prelude.{Bool, true, false, ◌≡◌, refl}
use sql_query_optimizer.Ast.{BinaryOperator, Literal, null, boolean}
use sql_query_optimizer.Execution.Result.{ok}
use sql_query_optimizer.Execution.Values.{Platform, literal_equal, literal_less}
use sql_query_optimizer.Execution.Eval.{apply_binary}

equal-null : (d : Platform) (v : Literal) → literal_equal d v null ≡ false
unfolding literal_equal
equal-null d null = refl
equal-null d (Literal.integer n) = refl
equal-null d (Literal.floating n) = refl
equal-null d (Literal.str n) = refl
equal-null d (Literal.boolean n) = refl

less-null : (d : Platform) (v : Literal) → literal_less d v null ≡ ok false
unfolding literal_less
less-null d null = refl
less-null d (Literal.integer n) = refl
less-null d (Literal.floating n) = refl
less-null d (Literal.str n) = refl
less-null d (Literal.boolean n) = refl

abbrev pub is_negated : BinaryOperator → Bool
is_negated BinaryOperator.neq = true
is_negated BinaryOperator.lte = true
is_negated BinaryOperator.gte = true
is_negated _ = false

abbrev pub IsComparison : BinaryOperator → Type 0
IsComparison BinaryOperator.eq = Unit
IsComparison BinaryOperator.neq = Unit
IsComparison BinaryOperator.lt = Unit
IsComparison BinaryOperator.gt = Unit
IsComparison BinaryOperator.lte = Unit
IsComparison BinaryOperator.gte = Unit
IsComparison _ = ⊥

-- A comparison with NULL on the right never throws: `=`, `<` and `>` give FALSE, and `<>`, `<=` and
-- `>=`, which negate another comparison, give TRUE.
pub apply_binary-null :
    (d : Platform) (op : BinaryOperator) (v : Literal)
    → IsComparison op
    → apply_binary d op v null ≡ ok (boolean (is_negated op))
unfolding apply_binary
apply_binary-null d BinaryOperator.eq v h = rw (equal-null d v)
apply_binary-null d BinaryOperator.neq v h = rw (equal-null d v)
apply_binary-null d BinaryOperator.lt v h = rw (less-null d v)
apply_binary-null d BinaryOperator.gt v h = refl
apply_binary-null d BinaryOperator.lte v h = refl
apply_binary-null d BinaryOperator.gte v h = rw (less-null d v)
apply_binary-null d _ v h = absurd h
