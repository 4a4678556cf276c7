-- ===== src/Parser/Printer/Tokens.antt =====
-- parser/sql_printer.cpp: the tokens that stand in a printed expression, and the expressions whose
-- print the parser of parser/parser.cpp reads back.
use sql_query_optimizer.Prelude.{
  suc, String, Bool, true, false, none, some, [], ◌∷◌, ◌++◌, ◌==◌, if◌then◌else◌,
}
use sql_query_optimizer.Prelude.Int.{ℤ, pos, negsuc}
use sql_query_optimizer.Ast.{
  BinaryOperator, UnaryOperator, Literal, Expression, Expressions, column, literal, binary_op,
  unary_op, function, wildcard, nil, cons,
}
use sql_query_optimizer.Parser.{Token}
use sql_query_optimizer.Parser.Outcome.{Tokens}

abbrev pub op_token : BinaryOperator → Token
op_token BinaryOperator.eq = Token.eq
op_token BinaryOperator.neq = Token.neq
op_token BinaryOperator.lt = Token.lt
op_token BinaryOperator.gt = Token.gt
op_token BinaryOperator.lte = Token.lte
op_token BinaryOperator.gte = Token.gte
op_token BinaryOperator.and = Token.and
op_token BinaryOperator.or = Token.or
op_token BinaryOperator.add = Token.plus
op_token BinaryOperator.sub = Token.minus
op_token BinaryOperator.mul = Token.star
op_token BinaryOperator.div = Token.slash

abbrev pub unary_token : UnaryOperator → Token
unary_token UnaryOperator.negation = Token.not
unary_token UnaryOperator.neg = Token.minus

abbrev pub integer_tokens : ℤ → Tokens
integer_tokens (pos n) = Token.integer (pos n) ∷ []
integer_tokens (negsuc n) = Token.minus ∷ Token.integer (pos (suc n)) ∷ []

abbrev pub literal_tokens : Literal → Tokens
literal_tokens (Literal.integer n) = integer_tokens n
literal_tokens (Literal.floating x) = Token.floating x ∷ []
literal_tokens (Literal.str s) = Token.string_lit s ∷ []
literal_tokens (Literal.boolean true) = Token.true_ ∷ []
literal_tokens (Literal.boolean false) = Token.false_ ∷ []
literal_tokens Literal.null = Token.null ∷ []

abbrev pub column_token : String → Token
column_token c = if c == "*" then Token.star else Token.identifier c

unfoldable mutual
  pub expr_tokens : Expression → Tokens
  expr_tokens (column none c) = Token.identifier c ∷ []
  expr_tokens (column (some t) c) = Token.identifier t ∷ Token.dot ∷ column_token c ∷ []
  expr_tokens (literal l) = literal_tokens l
  expr_tokens (binary_op a o b) =
      Token.lparen ∷ (expr_tokens a ++ (op_token o ∷ (expr_tokens b ++ Token.rparen ∷ [])))
  expr_tokens (unary_op o a) = unary_token o ∷ expr_tokens a
  expr_tokens (function name args) =
      Token.identifier name ∷ Token.lparen ∷ (args_tokens args ++ Token.rparen ∷ [])
  expr_tokens wildcard = Token.star ∷ []

  pub args_tokens : Expressions → Tokens
  args_tokens nil = []
  args_tokens (cons e nil) = expr_tokens e
  args_tokens (cons e (cons e' es)) = expr_tokens e ++ Token.comma ∷ args_tokens (cons e' es)

abbrev pub is_logical : BinaryOperator → Bool
is_logical BinaryOperator.and = true
is_logical BinaryOperator.or = true
is_logical _ = false

abbrev pub IsParsedLiteral : Literal → Type 0
IsParsedLiteral (Literal.integer (pos n)) = Unit
IsParsedLiteral (Literal.integer (negsuc n)) = ⊥
IsParsedLiteral _ = Unit

-- `ReadsBack loose e`: the print of `e` is read back where an operand of AND, OR or NOT may stand
-- (`loose`), or where an operand of any operator may. A NOT is read back in the first places only. A
-- literal below zero and a `*` outside `f(*)` are never read back.
unfoldable mutual
  pub ReadsBack : Bool → Expression → Type 0
  ReadsBack loose (column t c) = Unit
  ReadsBack loose (literal l) = IsParsedLiteral l
  ReadsBack loose (binary_op a o b) = ReadsBack (is_logical o) a × ReadsBack (is_logical o) b
  ReadsBack true (unary_op UnaryOperator.negation a) = ReadsBack true a
  ReadsBack false (unary_op UnaryOperator.negation a) = ⊥
  ReadsBack loose (unary_op UnaryOperator.neg a) = ReadsBack false a
  ReadsBack loose (function name (cons wildcard nil)) = Unit
  ReadsBack loose (function name args) = ReadBack args
  ReadsBack loose wildcard = ⊥

  pub ReadBack : Expressions → Type 0
  ReadBack nil = Unit
  ReadBack (cons e es) = ReadsBack true e × ReadBack es
