-- ===== src/Parser/Expressions.antt =====
-- parser/parser.cpp: expressions, by recursive descent. Each level takes the parser of primary
-- expressions as an argument; that one runs on fuel, which a parenthesis or an argument list costs,
-- and so do the loops.
pub mod Ends
use sql_query_optimizer.Prelude.{
  ℕ, zero, suc, String, Bool, true, false, Option, none, some, List, [], ◌∷◌, if◌then◌else◌,
}
use sql_query_optimizer.Ast.{
  BinaryOperator, UnaryOperator, Literal, Expression, Expressions, column, literal, binary_op,
  unary_op, function, wildcard, nil, cons,
}
use sql_query_optimizer.Parser.{Token}
use sql_query_optimizer.Parser.Outcome.{
  Tokens, Parsed, parsed, syntax_error, out_of_fuel, Parser, ◌>>=◌, peek, advance, expect,
}

abbrev pub is_rparen : Token → Bool
is_rparen Token.rparen = true
is_rparen _ = false

abbrev pub is_comma : Token → Bool
is_comma Token.comma = true
is_comma _ = false

-- The operators of each level.
abbrev pub or_op : Token → Option BinaryOperator
or_op Token.or = some BinaryOperator.or
or_op _ = none

abbrev pub and_op : Token → Option BinaryOperator
and_op Token.and = some BinaryOperator.and
and_op _ = none

abbrev pub comparison_op : Token → Option BinaryOperator
comparison_op Token.eq = some BinaryOperator.eq
comparison_op Token.neq = some BinaryOperator.neq
comparison_op Token.lt = some BinaryOperator.lt
comparison_op Token.gt = some BinaryOperator.gt
comparison_op Token.lte = some BinaryOperator.lte
comparison_op Token.gte = some BinaryOperator.gte
comparison_op _ = none

abbrev pub additive_op : Token → Option BinaryOperator
additive_op Token.plus = some BinaryOperator.add
additive_op Token.minus = some BinaryOperator.sub
additive_op _ = none

abbrev pub multiplicative_op : Token → Option BinaryOperator
multiplicative_op Token.star = some BinaryOperator.mul
multiplicative_op Token.slash = some BinaryOperator.div
multiplicative_op _ = none

-- The loop of a left-associative level.
unfoldable pub binary_loop :
    (Token → Option BinaryOperator) → Parser Expression → ℕ → Expression → Parser Expression
binary_loop op next zero left ts = out_of_fuel
binary_loop op next (suc k) left ts = elim (op (peek ts)) [
  | none ↦ parsed left ts
  | some o ↦ next (advance ts) >>= λ r. binary_loop op next k (binary_op left o r.0) r.1
]

module _ (primary : Parser Expression) (fuel : ℕ) where
  -- `-` is right-associative.
  unfoldable pub parse_unary : Parser Expression
  parse_unary (Token.minus ∷ ts) = do
    (e, rest) ← parse_unary ts
    parsed (unary_op UnaryOperator.neg e) rest
  parse_unary ts = primary ts

  unfoldable pub parse_multiplicative : Parser Expression
  unfolding parse_unary binary_loop
  parse_multiplicative ts =
      parse_unary ts >>= λ r. binary_loop multiplicative_op parse_unary fuel r.0 r.1

  unfoldable pub parse_additive : Parser Expression
  unfolding parse_multiplicative binary_loop
  parse_additive ts =
      parse_multiplicative ts >>= λ r. binary_loop additive_op parse_multiplicative fuel r.0 r.1

  -- At most one comparison.
  unfoldable pub parse_comparison : Parser Expression
  unfolding parse_additive
  parse_comparison ts = parse_additive ts >>= λ l. elim (comparison_op (peek l.1)) [
    | none ↦ parsed l.0 l.1
    | some o ↦ parse_additive (advance l.1) >>= λ r. parsed (binary_op l.0 o r.0) r.1
  ]

  -- NOT is right-associative.
  unfoldable pub parse_not : Parser Expression
  unfolding parse_comparison
  parse_not (Token.not ∷ ts) = do
    (e, rest) ← parse_not ts
    parsed (unary_op UnaryOperator.negation e) rest
  parse_not ts = parse_comparison ts

  unfoldable pub parse_and : Parser Expression
  unfolding parse_not binary_loop
  parse_and ts = parse_not ts >>= λ r. binary_loop and_op parse_not fuel r.0 r.1

  unfoldable pub parse_or : Parser Expression
  unfolding parse_and binary_loop
  parse_or ts = parse_and ts >>= λ r. binary_loop or_op parse_and fuel r.0 r.1

-- A list separated by commas, of at least one item.
unfoldable pub parse_args : Parser Expression → ℕ → Parser Expressions
parse_args item zero ts = out_of_fuel
parse_args item (suc k) ts = item ts >>= λ r.
    let more = parse_args item k (advance r.1) >>= λ rs. parsed (cons r.0 rs.0) rs.1 in
    if is_comma (peek r.1) then more else parsed (cons r.0 nil) r.1

-- The arguments of a call, after `(` and up to `)`.
abbrev pub parse_call : Parser Expression → ℕ → Parser Expressions
unfolding parse_args
parse_call item k (Token.rparen ∷ ts) = parsed nil (Token.rparen ∷ ts)
parse_call item k (Token.star ∷ ts) = parsed (cons wildcard nil) ts
parse_call item k ts = parse_args item k ts

-- A name followed by `.` and a column or `*`.
abbrev pub parse_qualified : String → Parser Expression
parse_qualified name (Token.identifier c ∷ ts) = parsed (column (some name) c) ts
parse_qualified name (Token.star ∷ ts) = parsed (column (some name) "*") ts
parse_qualified name _ = syntax_error

-- A primary expression that starts with a name, given the parser of expressions.
abbrev pub parse_name : Parser Expression → ℕ → String → Parser Expression
unfolding parse_args parse_call
parse_name item k name (Token.lparen ∷ ts) = do
  (args, rest) ← parse_call item k ts
  (_, rest') ← expect is_rparen rest
  parsed (function name args) rest'
parse_name item k name (Token.dot ∷ ts) = parse_qualified name ts
parse_name item k name ts = parsed (column none name) ts

abbrev pub parse_parenthesis : Parser Expression → Parser Expression
parse_parenthesis item ts = do
  (e, rest) ← item ts
  (_, rest') ← expect is_rparen rest
  parsed e rest'

unfoldable pub parse_primary : ℕ → Parser Expression
unfolding parse_or parse_name parse_args parse_call
parse_primary zero ts = out_of_fuel
parse_primary (suc f) (Token.lparen ∷ ts) = parse_parenthesis (parse_or (parse_primary f) f) ts
parse_primary (suc f) (Token.integer n ∷ ts) = parsed (literal (Literal.integer n)) ts
parse_primary (suc f) (Token.floating x ∷ ts) = parsed (literal (Literal.floating x)) ts
parse_primary (suc f) (Token.string_lit s ∷ ts) = parsed (literal (Literal.str s)) ts
parse_primary (suc f) (Token.true_ ∷ ts) = parsed (literal (Literal.boolean true)) ts
parse_primary (suc f) (Token.false_ ∷ ts) = parsed (literal (Literal.boolean false)) ts
parse_primary (suc f) (Token.null ∷ ts) = parsed (literal Literal.null) ts
parse_primary (suc f) (Token.identifier name ∷ ts) =
    parse_name (parse_or (parse_primary f) f) f name ts
parse_primary (suc f) _ = syntax_error

unfoldable pub parse_expr : ℕ → Parser Expression
unfolding parse_or parse_primary
parse_expr f = parse_or (parse_primary f) f
