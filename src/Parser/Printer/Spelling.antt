-- ===== src/Parser/Printer/Spelling.antt =====
-- parser/sql_printer.cpp: how the text of a print is made of the texts of its tokens.
use Prim.Native.String.{◌++◌ as joined}
use text.Mathlib.TextLemmas.{append-nil, nil-append, append_assoc}
use text.Mathlib.TextEquality.{eq_iff}
use mathlib.Core.Path.{subst}
use sql_query_optimizer.Prelude.{
  suc, sym, String, true, false, Bool-cases, inl, inr, none, some, [], ◌∷◌, ◌++◌, ◌==◌, arith,
}
use sql_query_optimizer.Prelude.Int.{ℤ, pos, negsuc}
use sql_query_optimizer.Prelude.Text.{int_to_string}
use sql_query_optimizer.Ast.{
  BinaryOperator, UnaryOperator, Double, Literal, Expression, Expressions, column, literal,
  binary_op, unary_op, function, wildcard, nil, cons,
}
use sql_query_optimizer.Parser.{Token}
use sql_query_optimizer.Parser.Outcome.{Tokens}
use sql_query_optimizer.Parser.Printer.{binary_op_name, print_literal, print_expr, print_args}
use sql_query_optimizer.Parser.Printer.Tokens.{
  op_token, integer_tokens, literal_tokens, column_token, expr_tokens, args_tokens,
}

module _ (write_double : Double → String) where
  -- The text of a token.
  unfoldable pub spelling : Token → String
  unfolding int_to_string
  spelling Token.select = "SELECT"
  spelling Token.from = "FROM"
  spelling Token.where_ = "WHERE"
  spelling Token.join = "JOIN"
  spelling Token.inner = "INNER"
  spelling Token.left = "LEFT"
  spelling Token.right = "RIGHT"
  spelling Token.cross = "CROSS"
  spelling Token.on = "ON"
  spelling Token.and = "AND"
  spelling Token.or = "OR"
  spelling Token.not = "NOT"
  spelling Token.as_ = "AS"
  spelling Token.order = "ORDER"
  spelling Token.by = "BY"
  spelling Token.group = "GROUP"
  spelling Token.limit = "LIMIT"
  spelling Token.asc = "ASC"
  spelling Token.desc = "DESC"
  spelling Token.having = "HAVING"
  spelling Token.null = "NULL"
  spelling Token.true_ = "TRUE"
  spelling Token.false_ = "FALSE"
  spelling (Token.identifier name) = name
  spelling (Token.integer n) = int_to_string n
  spelling (Token.floating x) = write_double x
  spelling (Token.string_lit s) = joined "'" (joined s "'")
  spelling Token.eq = "="
  spelling Token.neq = "<>"
  spelling Token.lt = "<"
  spelling Token.gt = ">"
  spelling Token.lte = "<="
  spelling Token.gte = ">="
  spelling Token.plus = "+"
  spelling Token.minus = "-"
  spelling Token.star = "*"
  spelling Token.slash = "/"
  spelling Token.comma = ","
  spelling Token.dot = "."
  spelling Token.lparen = "("
  spelling Token.rparen = ")"
  spelling Token.eof = ""

  -- The text consists of the texts of the tokens, with spaces between them or none.
  pub data IsSpelled : Tokens → String → Type 0 where
    finished : IsSpelled [] ""
    spaced : {ts : Tokens} {s : String} → IsSpelled ts s → IsSpelled ts (joined " " s)
    written :
        (t : Token) {ts : Tokens} {s : String}
        → IsSpelled ts s
        → IsSpelled (t ∷ ts) (joined (spelling t) s)

  -- The text of one token.
  pub alone : (t : Token) → IsSpelled (t ∷ []) (spelling t)
  alone t = subst (IsSpelled (t ∷ [])) (append-nil (spelling t)) (written t finished)

  pub both-IsSpelled :
      {ts us : Tokens} {s u : String}
      → IsSpelled ts s
      → IsSpelled us u
      → IsSpelled (ts ++ us) (joined s u)
  both-IsSpelled {us = us} {u = u} finished k = subst (IsSpelled us) (sym (nil-append u)) k
  both-IsSpelled {us = us} {u = u} (spaced {ts = ts} {s = s} h) k =
      subst (IsSpelled (ts ++ us)) (sym (append_assoc " " s u)) (spaced (both-IsSpelled h k))
  both-IsSpelled {us = us} {u = u} (written t {ts = ts} {s = s} h) k =
      subst (IsSpelled (t ∷ (ts ++ us))) (sym (append_assoc (spelling t) s u))
        (written t (both-IsSpelled h k))

  integer-IsSpelled : (n : ℤ) → IsSpelled (integer_tokens n) (int_to_string n)
  unfolding spelling int_to_string
  integer-IsSpelled (pos n) = alone (Token.integer (pos n))
  integer-IsSpelled (negsuc n) =
      subst
        (λ k.
          IsSpelled (Token.minus ∷ Token.integer (pos (suc n)) ∷ [])
            (joined "-" (int_to_string (pos k))))
        (omega arith) (written Token.minus (alone (Token.integer (pos (suc n)))))

  literal-IsSpelled : (l : Literal) → IsSpelled (literal_tokens l) (print_literal write_double l)
  unfolding spelling print_literal
  literal-IsSpelled (Literal.integer n) = integer-IsSpelled n
  literal-IsSpelled (Literal.floating x) = alone (Token.floating x)
  literal-IsSpelled (Literal.str s) = alone (Token.string_lit s)
  literal-IsSpelled (Literal.boolean true) = alone Token.true_
  literal-IsSpelled (Literal.boolean false) = alone Token.false_
  literal-IsSpelled Literal.null = alone Token.null

  column-IsSpelled : (c : String) → IsSpelled (column_token c ∷ []) c
  unfolding spelling
  column-IsSpelled c = elim (Bool-cases (c == "*")) [
    | inl e ↦ rw (e, (eq_iff c "*").0 e) (alone Token.star)
    | inr e ↦ rw e (alone (Token.identifier c))
  ]

  operator-IsSpelled :
      (o : BinaryOperator) {ts : Tokens} {s : String}
      → IsSpelled ts s
      → IsSpelled (op_token o ∷ ts) (joined (binary_op_name o) s)
  unfolding spelling
  operator-IsSpelled BinaryOperator.eq h = written Token.eq h
  operator-IsSpelled BinaryOperator.neq h = written Token.neq h
  operator-IsSpelled BinaryOperator.lt h = written Token.lt h
  operator-IsSpelled BinaryOperator.gt h = written Token.gt h
  operator-IsSpelled BinaryOperator.lte h = written Token.lte h
  operator-IsSpelled BinaryOperator.gte h = written Token.gte h
  operator-IsSpelled BinaryOperator.and h = written Token.and h
  operator-IsSpelled BinaryOperator.or h = written Token.or h
  operator-IsSpelled BinaryOperator.add h = written Token.plus h
  operator-IsSpelled BinaryOperator.sub h = written Token.minus h
  operator-IsSpelled BinaryOperator.mul h = written Token.star h
  operator-IsSpelled BinaryOperator.div h = written Token.slash h

  mutual
    unfolding spelling print_expr print_args expr_tokens args_tokens

    -- A printed expression consists of the texts of its tokens.
    pub print_expr-IsSpelled :
        (e : Expression) → IsSpelled (expr_tokens e) (print_expr write_double e)
    print_expr-IsSpelled (column none c) = alone (Token.identifier c)
    print_expr-IsSpelled (column (some t) c) =
        written (Token.identifier t) (written Token.dot (column-IsSpelled c))
    print_expr-IsSpelled (literal l) = literal-IsSpelled l
    print_expr-IsSpelled (binary_op a o b) = written Token.lparen (
        both-IsSpelled (print_expr-IsSpelled a) (
          spaced (
            operator-IsSpelled o
              (spaced (both-IsSpelled (print_expr-IsSpelled b) (alone Token.rparen))))))
    print_expr-IsSpelled (unary_op UnaryOperator.negation a) =
        both-IsSpelled (written Token.not (spaced finished)) (print_expr-IsSpelled a)
    print_expr-IsSpelled (unary_op UnaryOperator.neg a) =
        written Token.minus (print_expr-IsSpelled a)
    print_expr-IsSpelled (function name args) =
        written (Token.identifier name)
          (written Token.lparen (both-IsSpelled (print_args-IsSpelled args) (alone Token.rparen)))
    print_expr-IsSpelled wildcard = alone Token.star

    print_args-IsSpelled :
        (es : Expressions) → IsSpelled (args_tokens es) (print_args write_double es)
    print_args-IsSpelled nil = finished
    print_args-IsSpelled (cons e nil) = print_expr-IsSpelled e
    print_args-IsSpelled (cons e (cons e' es)) =
        both-IsSpelled (print_expr-IsSpelled e) (
          both-IsSpelled (written Token.comma (spaced finished))
            (print_args-IsSpelled (cons e' es)))
