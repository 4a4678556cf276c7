-- ===== src/Parser/Printer/Whole.antt =====
-- parser/parser.cpp and parser/sql_printer.cpp: every printed expression is read back.
use sql_query_optimizer.Prelude.{
  ℕ, zero, suc, ◌+◌, ◌<◌, ◌≡◌, refl, ap, ◌∙◌, String, true, false, [], ◌∷◌, ◌++◌, length,
  length-append, append_assoc', arith,
}
use sql_query_optimizer.Ast.{
  BinaryOperator, UnaryOperator, Expression, Expressions, column, literal, binary_op, unary_op,
  function, wildcard, nil, cons,
}
use sql_query_optimizer.Parser.{Token}
use sql_query_optimizer.Parser.Outcome.{Tokens, parsed, Parser, peek}
use sql_query_optimizer.Parser.Expressions.{
  parse_unary, parse_not, parse_or, parse_args, parse_call, parse_primary, parse_expr,
}
use sql_query_optimizer.Parser.Printer.Tokens.{
  op_token, expr_tokens, args_tokens, is_logical, ReadsBack, ReadBack,
}
use sql_query_optimizer.Parser.Printer.Levels.{EndsExpression, not-or}
use sql_query_optimizer.Parser.Printer.RoundTrip.{
  EndsName, Tight, Loose, Reads, ReadsArgs, length-expr_tokens, spend, both, column-Tight,
  literal-Tight, neg-Tight, negation-Loose, operation-inside, inside, rparen_ends, parse_call-args,
}

-- The tokens of an operation, before a rest.
operation-append :
    (a b : Expression) (o : BinaryOperator) (rest : Tokens)
    → expr_tokens (binary_op a o b) ++ rest
      ≡ Token.lparen ∷ (expr_tokens a ++ (op_token o ∷ (expr_tokens b ++ Token.rparen ∷ rest)))
unfolding expr_tokens
operation-append a b o rest =
    ap (λ r. Token.lparen ∷ r)
      (append_assoc' (expr_tokens a) (op_token o ∷ (expr_tokens b ++ Token.rparen ∷ [])) rest
        ∙ ap (λ r. expr_tokens a ++ (op_token o ∷ r))
            (append_assoc' (expr_tokens b) (Token.rparen ∷ []) rest))

length-operation :
    (a b : Expression) (o : BinaryOperator)
    → length (expr_tokens (binary_op a o b)) ≡ length (expr_tokens a) + length (expr_tokens b) + 3
unfolding expr_tokens
length-operation a b o =
    let h = length-append (expr_tokens a) (op_token o ∷ (expr_tokens b ++ Token.rparen ∷ [])) in
    let k = length-append (expr_tokens b) (Token.rparen ∷ []) in omega arith

parenthesis-reads :
    (f : ℕ) (us rest : Tokens) (e : Expression)
    → parse_or (parse_primary f) f us ≡ parsed e (Token.rparen ∷ rest)
    → parse_unary (parse_primary (suc f)) (suc f) (Token.lparen ∷ us) ≡ parsed e rest
unfolding parse_unary parse_primary
parenthesis-reads f us rest e h = rw h refl

operation-Tight :
    (a b : Expression) (o : BinaryOperator)
    → Reads a
    → Reads b
    → ReadsBack (is_logical o) a
    → ReadsBack (is_logical o) b
    → Tight (binary_op a o b)
operation-Tight a b o ha hb ra rb f rest l n = rw (operation-append a b o rest) (
    spend
      (λ f.
        parse_unary (parse_primary f) f (Token.lparen ∷ inside a b rest (op_token o))
        ≡ parsed (binary_op a o b) rest)
      (length (expr_tokens a) + length (expr_tokens b) + 3) omega arith
      (λ g k. parenthesis-reads (suc g) (inside a b rest (op_token o)) rest (binary_op a o b) (
        spend
          (λ f.
            parse_or (parse_primary f) f (inside a b rest (op_token o))
            ≡ parsed (binary_op a o b) (Token.rparen ∷ rest))
          (length (expr_tokens a) + length (expr_tokens b)) (sums a b)
          (λ g' k'. operation-inside a b g' rest omega arith omega arith o ha hb ra rb) (suc g)
          omega arith))
      f (rw (length-operation a b o) at l))
  where
    sums : (a b : Expression) → 0 < length (expr_tokens a) + length (expr_tokens b)
    sums a b = let p = length-expr_tokens a in omega arith

-- An argument list, of which the parser reads at least one item.
item-reads :
    (e : Expression) (t : Token) (f : ℕ) (rest : Tokens)
    → Loose e
    → length (expr_tokens e) < f
    → EndsName t
    → EndsExpression t
    → parse_expr f (expr_tokens e ++ t ∷ rest) ≡ parsed e (t ∷ rest)
unfolding parse_expr
item-reads e t f rest h l n ends =
    let (o, _, _) = ends in
    let first = h f (t ∷ rest) l n o in
    elim f
        as (λ f.
          parse_not (parse_primary f) f (expr_tokens e ++ t ∷ rest) ≡ parsed e (t ∷ rest)
          → length (expr_tokens e) < f
          → parse_or (parse_primary f) f (expr_tokens e ++ t ∷ rest) ≡ parsed e (t ∷ rest)) [
            | zero ↦ λ h l. absurd omega arith
            | suc g ↦ λ h l.
                not-or (parse_primary (suc g)) g (expr_tokens e ++ t ∷ rest) (t ∷ rest) e h ends
          ]
      first l

cons-ReadsArgs :
    (e : Expression) (es : Expressions) → Reads e → ReadsArgs es → ReadsArgs (cons e es)
unfolding args_tokens parse_args ReadBack
cons-ReadsArgs e es h hs r f zero rest l k = absurd omega arith
cons-ReadsArgs e nil (_, loose) hs (r, _) f (suc k) rest l m =
    rw (item-reads e Token.rparen f rest (loose r) l tt rparen_ends) refl
cons-ReadsArgs e (cons e' es) (_, loose) hs (r, rs) f (suc k) rest l m =
    let more = args_tokens (cons e' es) in
    let total = length-append (expr_tokens e) (Token.comma ∷ more) in
    let after = more ++ Token.rparen ∷ rest in
    let first =
      item-reads e Token.comma f after (loose r) omega arith tt ((refl, refl, refl), refl, refl) in
    rw (append_assoc' (expr_tokens e) (Token.comma ∷ more) (Token.rparen ∷ rest), first)
      (rw (hs rs f k rest omega arith omega arith) refl)

args-called :
    (item : Parser Expression) (k : ℕ) (e : Expression) (es : Expressions) (us : Tokens)
    → ReadsBack true e
    → parse_call item k (args_tokens (cons e es) ++ us)
      ≡ parse_args item k (args_tokens (cons e es) ++ us)
unfolding args_tokens
args-called item k e nil us r = parse_call-args item k e us r
args-called item k e (cons e' es) us r =
    rw (append_assoc' (expr_tokens e) (Token.comma ∷ args_tokens (cons e' es)) us)
      (parse_call-args item k e (Token.comma ∷ (args_tokens (cons e' es) ++ us)) r)

-- A call with arguments, after its `(`.
call-reads :
    (name : String) (e : Expression) (es : Expressions)
    → ReadBack (cons e es)
    → ReadsArgs (cons e es)
    → Tight (function name (cons e es))
unfolding expr_tokens parse_unary parse_primary parse_args ReadBack parse_expr
call-reads name e es r h zero rest l n = absurd omega arith
call-reads name e es r h (suc f) rest l n =
    let args = args_tokens (cons e es) in
    let total = length-append args (Token.rparen ∷ []) in
    let (re, _) = r in
    rw
      (
        append_assoc' args (Token.rparen ∷ []) rest,
        args-called (parse_expr f) f e es (Token.rparen ∷ rest) re,
      )
      (rw (h r f f rest omega arith omega arith) refl)

function-Tight :
    (name : String) (args : Expressions)
    → ReadsArgs args
    → ReadsBack false (function name args)
    → Tight (function name args)
unfolding expr_tokens parse_unary parse_primary parse_args ReadBack
function-Tight name nil h r zero rest l n = absurd omega arith
function-Tight name nil h r (suc f) rest l n = refl
function-Tight name (cons wildcard nil) h r zero rest l n = absurd omega arith
function-Tight name (cons wildcard nil) h r (suc f) rest l n = refl
function-Tight name (cons e es) h r f rest l n = call-reads name e es r h f rest l n

unary-Reads : (o : UnaryOperator) (a : Expression) → Reads a → Reads (unary_op o a)
unfolding ReadsBack
unary-Reads UnaryOperator.neg a (ta, la) =
    both (unary_op UnaryOperator.neg a) (λ r. r) (λ r. neg-Tight a (ta r))
unary-Reads UnaryOperator.negation a (ta, la) = (λ r. absurd r, λ r. negation-Loose a (la r))

function_reads-down :
    (name : String) (args : Expressions)
    → ReadsBack true (function name args)
    → ReadsBack false (function name args)
unfolding ReadsBack
function_reads-down name (cons wildcard nil) r = r
function_reads-down name (cons wildcard (cons e es)) r = r
function_reads-down name _ r = r

function-Reads : (name : String) (args : Expressions) → ReadsArgs args → Reads (function name args)
unfolding ReadsBack
function-Reads name args h =
    both (function name args) (function_reads-down name args) (λ r. function-Tight name args h r)

expression-Reads : (e : Expression) → Reads e
unfolding ReadsBack
expression-Reads e = elim e as Reads ReadsArgs [
  | column t c ↦ both (column t c) (λ r. r) (λ r. column-Tight t c)
  | literal l ↦ both (literal l) (λ r. r) (λ r. literal-Tight l r)
  | binary_op (a → ha) o (b → hb) ↦
      both (binary_op a o b) (λ r. r) (λ r. let (ra, rb) = r in operation-Tight a b o ha hb ra rb)
  | unary_op o (a → ha) ↦ unary-Reads o a ha
  | function name (args → h) ↦ function-Reads name args h
  | wildcard ↦ (λ r. absurd r, λ r. absurd r)
  | nil ↦ tt
  | cons (e → h) (es → hs) ↦ cons-ReadsArgs e es h hs
]

-- The parser reads an expression off its tokens and leaves what follows, if that goes on
-- neither with a call, a column or an operator, and the fuel is above the number of tokens: for every
-- expression whose NOTs stand under AND, OR, NOT, as an argument or alone, whose literals are not
-- below zero and whose only `*` are `f(*)`.
pub parse_expr-expr_tokens :
    (e : Expression) (f : ℕ) (rest : Tokens)
    → ReadsBack true e
    → length (expr_tokens e) < f
    → EndsName (peek rest)
    → EndsExpression (peek rest)
    → parse_expr f (expr_tokens e ++ rest) ≡ parsed e rest
unfolding parse_expr
parse_expr-expr_tokens e f rest r l n ends =
    let (_, loose) = expression-Reads e in
    spend (λ f. parse_or (parse_primary f) f (expr_tokens e ++ rest) ≡ parsed e rest)
      (length (expr_tokens e)) (length-expr_tokens e)
      (λ g k.
        not-or (parse_primary (suc (suc g))) (suc g) (expr_tokens e ++ rest) rest e
          (loose r (suc (suc g)) rest k n (let (o, _, _) = ends in o)) ends)
      f l
