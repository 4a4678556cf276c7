-- ===== src/Parser/Expressions/Ends.antt =====
-- parser/parser.cpp: the descent ends, for every text of tokens.
use sql_query_optimizer.Prelude.{ℕ, zero, suc, ◌<◌, String, Bool, Option, [], ◌∷◌, length, arith}
use sql_query_optimizer.Ast.{BinaryOperator, Expression, binary_op}
use sql_query_optimizer.Parser.{Token}
use sql_query_optimizer.Parser.Outcome.{
  Tokens, parsed, syntax_error, Parser, ◌>>=◌, peek, advance, expect, Leaves, Leaves-bind,
  Leaves-more, Leaves-if, Leaves-elim,
}
use sql_query_optimizer.Parser.Expressions.{
  is_rparen, is_comma, or_op, and_op, comparison_op, additive_op, multiplicative_op, binary_loop,
  parse_unary, parse_multiplicative, parse_additive, parse_comparison, parse_not, parse_and,
  parse_or, parse_args, parse_call, parse_qualified, parse_name, parse_parenthesis, parse_primary,
  parse_expr,
}

-- On fewer than `f` tokens, `p` ends and takes at least one of them.
abbrev pub Ends {ℓ} : {A : Type ℓ} → ℕ → Parser A → Type 0
Ends f p = (ts : Tokens) → length ts < f → Leaves (length ts) (p ts)

pub length-advance : (ts : Tokens) → length (advance ts) < suc (length ts)
length-advance [] = omega arith
length-advance (t ∷ ts) = omega arith

pub binary_loop-Ends :
    (op : Token → Option BinaryOperator) (next : Parser Expression) (f : ℕ)
    → Ends f next
    → (n k : ℕ) (e : Expression) (ts : Tokens) → length ts < k
    → length ts < n
    → length ts < f
    → Leaves n (binary_loop op next k e ts)
unfolding binary_loop
binary_loop-Ends op next f h n zero e ts p q r = absurd omega arith
binary_loop-Ends op next f h n (suc k) e ts p q r =
    let s = length-advance ts in
    Leaves-elim n (op (peek ts)) (parsed e ts) _ q (λ o.
      Leaves-bind (length (advance ts)) n (next (advance ts)) _ (h (advance ts) omega arith)
        (λ a ts' d.
          binary_loop-Ends op next f h n k (binary_op e o a) ts' omega arith omega arith omega
            arith))

-- A level whose operands end ends.
loop-Ends :
    (op : Token → Option BinaryOperator) (next : Parser Expression) (f : ℕ)
    → Ends f next
    → Ends f (λ ts. next ts >>= λ r. binary_loop op next f r.0 r.1)
loop-Ends op next f h ts l =
    Leaves-bind (length ts) (length ts) (next ts) _ (h ts l)
      (λ a rest d. binary_loop-Ends op next f h (length ts) f a rest omega arith d omega arith)

module _ (p : Parser Expression) (f : ℕ) (h : Ends f p) where
  pub parse_unary-Ends : Ends f (parse_unary p f)
  unfolding parse_unary
  parse_unary-Ends (Token.minus ∷ ts) l =
      Leaves-bind (length ts) (suc (length ts)) (parse_unary p f ts) _
        (parse_unary-Ends ts omega arith) (λ a rest d. omega arith)
  parse_unary-Ends ts l = h ts l

  pub parse_additive-Ends : Ends f (parse_additive p f)
  unfolding parse_additive parse_multiplicative
  parse_additive-Ends =
      loop-Ends additive_op (parse_multiplicative p f) f
        (loop-Ends multiplicative_op (parse_unary p f) f parse_unary-Ends)

  pub parse_comparison-Ends : Ends f (parse_comparison p f)
  unfolding parse_comparison
  parse_comparison-Ends ts l =
      Leaves-bind (length ts) (length ts) (parse_additive p f ts) _ (parse_additive-Ends ts l)
        (λ a rest d.
          let s = length-advance rest in
          Leaves-elim (length ts) (comparison_op (peek rest)) (parsed a rest) _ d (λ o.
            Leaves-bind (length (advance rest)) (length ts) (parse_additive p f (advance rest)) _
              (parse_additive-Ends (advance rest) omega arith) (λ b rest' e. omega arith)))

  pub parse_not-Ends : Ends f (parse_not p f)
  unfolding parse_not
  parse_not-Ends (Token.not ∷ ts) l =
      Leaves-bind (length ts) (suc (length ts)) (parse_not p f ts) _ (parse_not-Ends ts omega arith)
        (λ a rest d. omega arith)
  parse_not-Ends ts l = parse_comparison-Ends ts l

  pub parse_or-Ends : Ends f (parse_or p f)
  unfolding parse_or parse_and
  parse_or-Ends =
      loop-Ends or_op (parse_and p f) f (loop-Ends and_op (parse_not p f) f parse_not-Ends)

pub expect-Leaves :
    (is_expected : Token → Bool) (ts : Tokens) → Leaves (suc (length ts)) (expect is_expected ts)
expect-Leaves is_expected ts =
    Leaves-if (suc (length ts)) (is_expected (peek ts)) (parsed tt (advance ts)) syntax_error
      (λ e. length-advance ts) tt

pub parse_args-Ends :
    (item : Parser Expression) (f : ℕ)
    → Ends f item
    → (k : ℕ) (ts : Tokens) → length ts < k
    → length ts < f
    → Leaves (length ts) (parse_args item k ts)
unfolding parse_args
parse_args-Ends item f h zero ts p q = absurd omega arith
parse_args-Ends item f h (suc k) ts p q =
    Leaves-bind (length ts) (length ts) (item ts) _ (h ts q) (λ a rest d.
      let s = length-advance rest in
      Leaves-if (length ts) (is_comma (peek rest)) _ _
        (λ e.
          Leaves-bind (length (advance rest)) (length ts) (parse_args item k (advance rest)) _
            (parse_args-Ends item f h k (advance rest) omega arith omega arith)
            (λ b rest' c. omega arith))
        d)

-- The list of arguments may be empty, so its end takes no token of its own.
parse_call-Ends :
    (item : Parser Expression) (f : ℕ)
    → Ends f item
    → (ts : Tokens) → length ts < f
    → Leaves (suc (length ts)) (parse_call item f ts)
unfolding parse_args
parse_call-Ends item f h (Token.rparen ∷ ts) q = omega arith
parse_call-Ends item f h (Token.star ∷ ts) q = omega arith
parse_call-Ends item f h ts q =
    Leaves-more (length ts) (suc (length ts)) (parse_args item f ts) omega arith
      (parse_args-Ends item f h f ts q q)

parse_qualified-Leaves :
    (name : String) (ts : Tokens) → Leaves (suc (length ts)) (parse_qualified name ts)
parse_qualified-Leaves name (Token.identifier c ∷ ts) = omega arith
parse_qualified-Leaves name (Token.star ∷ ts) = omega arith
parse_qualified-Leaves name ts = tt

parse_name-Leaves :
    (item : Parser Expression) (f : ℕ)
    → Ends f item
    → (name : String) (ts : Tokens) → length ts < f
    → Leaves (suc (length ts)) (parse_name item f name ts)
unfolding parse_args
parse_name-Leaves item f h name (Token.lparen ∷ ts) q =
    Leaves-bind (suc (length ts)) (suc (suc (length ts))) (parse_call item f ts) _
      (parse_call-Ends item f h ts omega arith)
      (λ args rest d.
        Leaves-bind (suc (length rest)) (suc (suc (length ts))) (expect is_rparen rest) _
          (expect-Leaves is_rparen rest) (λ u rest' e. omega arith))
parse_name-Leaves item f h name (Token.dot ∷ ts) q =
    Leaves-more (suc (length ts)) (suc (suc (length ts))) (parse_qualified name ts) omega arith
      (parse_qualified-Leaves name ts)
parse_name-Leaves item f h name ts q = omega arith

parse_parenthesis-Leaves :
    (item : Parser Expression) (f : ℕ)
    → Ends f item
    → (ts : Tokens) → length ts < f
    → Leaves (suc (length ts)) (parse_parenthesis item ts)
parse_parenthesis-Leaves item f h ts q =
    Leaves-bind (length ts) (suc (length ts)) (item ts) _ (h ts q) (λ e rest d.
      Leaves-bind (suc (length rest)) (suc (length ts)) (expect is_rparen rest) _
        (expect-Leaves is_rparen rest) (λ u rest' c. omega arith))

parse_primary-Ends : (f : ℕ) → Ends f (parse_primary f)
unfolding parse_primary
parse_primary-Ends zero ts l = absurd omega arith
parse_primary-Ends (suc f) (Token.lparen ∷ ts) l =
    parse_parenthesis-Leaves (parse_or (parse_primary f) f) f
      (parse_or-Ends (parse_primary f) f (parse_primary-Ends f)) ts omega arith
parse_primary-Ends (suc f) (Token.integer n ∷ ts) l = omega arith
parse_primary-Ends (suc f) (Token.floating x ∷ ts) l = omega arith
parse_primary-Ends (suc f) (Token.string_lit s ∷ ts) l = omega arith
parse_primary-Ends (suc f) (Token.true_ ∷ ts) l = omega arith
parse_primary-Ends (suc f) (Token.false_ ∷ ts) l = omega arith
parse_primary-Ends (suc f) (Token.null ∷ ts) l = omega arith
parse_primary-Ends (suc f) (Token.identifier name ∷ ts) l =
    parse_name-Leaves (parse_or (parse_primary f) f) f
      (parse_or-Ends (parse_primary f) f (parse_primary-Ends f)) name ts omega arith
parse_primary-Ends (suc f) ts l = tt

pub parse_expr-Ends : (f : ℕ) → Ends f (parse_expr f)
unfolding parse_expr
parse_expr-Ends f = parse_or-Ends (parse_primary f) f (parse_primary-Ends f)
