-- ===== src/Parser/Printer/RoundTrip.antt =====
-- parser/parser.cpp and parser/sql_printer.cpp: the parser on the tokens of a printed expression.
use sql_query_optimizer.Prelude.{
  ℕ, zero, suc, ◌<◌, ◌≡◌, refl, sym, ap, ◌∙◌, String, true, false, Bool-cases, Option, none, some,
  inl, inr, ◌∷◌, ◌++◌, length, eq_iff, ◌==◌, arith,
}
use sql_query_optimizer.Prelude.Int.{pos, negsuc}
use sql_query_optimizer.Ast.{
  BinaryOperator, UnaryOperator, Literal, Expression, Expressions, column, literal, binary_op,
  unary_op, wildcard, nil, cons,
}
use sql_query_optimizer.Parser.{Token}
use sql_query_optimizer.Parser.Outcome.{Tokens, parsed, Parser, peek}
use sql_query_optimizer.Parser.Expressions.{
  comparison_op, additive_op, multiplicative_op, parse_unary, parse_comparison, parse_not, parse_or,
  parse_args, parse_call, parse_qualified, parse_name, parse_primary, parse_expr,
}
use sql_query_optimizer.Parser.Printer.Tokens.{
  op_token, column_token, expr_tokens, args_tokens, is_logical, ReadsBack, ReadBack,
}
use sql_query_optimizer.Parser.Printer.Levels.{
  EndsOperand, EndsExpression, unary-comparison, or-reads, and-reads, comparison-reads,
  additive-reads, multiplicative-reads,
}

-- A token that does not go on with a name before it.
abbrev pub EndsName : Token → Type 0
EndsName Token.lparen = ⊥
EndsName Token.dot = ⊥
EndsName _ = Unit

abbrev pub Tight : Expression → Type 0
Tight e =
    (f : ℕ) (rest : Tokens)
    → length (expr_tokens e) < f
    → EndsName (peek rest)
    → parse_unary (parse_primary f) f (expr_tokens e ++ rest) ≡ parsed e rest

abbrev pub Loose : Expression → Type 0
Loose e =
    (f : ℕ) (rest : Tokens)
    → length (expr_tokens e) < f
    → EndsName (peek rest)
    → EndsOperand (peek rest)
    → parse_not (parse_primary f) f (expr_tokens e ++ rest) ≡ parsed e rest

abbrev pub Reads : Expression → Type 0
Reads e = (ReadsBack false e → Tight e) × (ReadsBack true e → Loose e)

abbrev pub ReadsArgs : Expressions → Type 0
ReadsArgs nil = Unit
ReadsArgs (cons e es) =
    ReadBack (cons e es)
    → (f k : ℕ) (rest : Tokens) → length (args_tokens (cons e es)) < f
    → length (args_tokens (cons e es)) < k
    → parse_args (parse_expr f) k (args_tokens (cons e es) ++ Token.rparen ∷ rest)
      ≡ parsed (cons e es) (Token.rparen ∷ rest)

pub length-expr_tokens : (e : Expression) → 0 < length (expr_tokens e)
unfolding expr_tokens
length-expr_tokens (column none c) = omega arith
length-expr_tokens (literal (Literal.integer (pos n))) = omega arith
length-expr_tokens (literal (Literal.integer (negsuc n))) = omega arith
length-expr_tokens (literal (Literal.boolean true)) = omega arith
length-expr_tokens (literal (Literal.boolean false)) = omega arith
length-expr_tokens _ = omega arith

-- What may stand under any operator does not start with NOT.
skips_not :
    (p : Parser Expression) (f : ℕ) (e : Expression) (us : Tokens)
    → ReadsBack false e
    → parse_not p f (expr_tokens e ++ us) ≡ parse_comparison p f (expr_tokens e ++ us)
unfolding expr_tokens ReadsBack parse_not
skips_not p f (column none c) us r = refl
skips_not p f (literal (Literal.integer (negsuc n))) us r = absurd r
skips_not p f (literal (Literal.boolean true)) us r = refl
skips_not p f (literal (Literal.boolean false)) us r = refl
skips_not p f (unary_op UnaryOperator.negation a) us r = absurd r
skips_not p f wildcard us r = absurd r
skips_not p f _ us r = refl

-- A printed argument starts with neither `)` nor `*`.
pub parse_call-args :
    (item : Parser Expression) (k : ℕ) (e : Expression) (us : Tokens)
    → ReadsBack true e
    → parse_call item k (expr_tokens e ++ us) ≡ parse_args item k (expr_tokens e ++ us)
unfolding expr_tokens ReadsBack parse_args
parse_call-args item k (column none c) us r = refl
parse_call-args item k (literal (Literal.integer (negsuc n))) us r = absurd r
parse_call-args item k (literal (Literal.boolean true)) us r = refl
parse_call-args item k (literal (Literal.boolean false)) us r = refl
parse_call-args item k (unary_op UnaryOperator.negation a) us r = refl
parse_call-args item k (unary_op UnaryOperator.neg a) us r = refl
parse_call-args item k wildcard us r = absurd r
parse_call-args item k _ us r = refl

-- One more than the tokens is fuel for the two steps to a primary expression.
pub spend {ℓ} :
    (P : ℕ → Type ℓ) (n : ℕ)
    → 0 < n
    → ((g : ℕ) → n < suc (suc g) → P (suc (suc g)))
    → (f : ℕ) → n < f
    → P f
spend P n z k zero h = absurd omega arith
spend P n z k (suc zero) h = absurd omega arith
spend P n z k (suc (suc g)) h = k g h

-- What may stand under any operator may stand under NOT too.
pub both :
    (e : Expression)
    → (ReadsBack true e → ReadsBack false e)
    → (ReadsBack false e → Tight e)
    → Reads e
both e down tight = (
  tight,
  λ r f rest l n o.
      spend (λ f. parse_not (parse_primary f) f (expr_tokens e ++ rest) ≡ parsed e rest)
        (length (expr_tokens e)) (length-expr_tokens e)
        (λ g l.
          skips_not (parse_primary (suc (suc g))) (suc (suc g)) e rest (down r)
          ∙ unary-comparison (parse_primary (suc (suc g))) (suc g) (expr_tokens e ++ rest) rest e
              (tight (down r) (suc (suc g)) rest l n) o)
        f l,
)

parse_name-column :
    (item : Parser Expression) (k : ℕ) (c : String) (rest : Tokens)
    → EndsName (peek rest)
    → parse_name item k c rest ≡ parsed (column none c) rest
unfolding parse_args
parse_name-column item k c (Token.lparen ∷ rest) n = absurd n
parse_name-column item k c (Token.dot ∷ rest) n = absurd n
parse_name-column item k c _ n = refl

parse_qualified-column :
    (t c : String) (rest : Tokens)
    → parse_qualified t (column_token c ∷ rest) ≡ parsed (column (some t) c) rest
parse_qualified-column t c rest = elim (Bool-cases (c == "*")) [
  | inl e ↦ rw e (ap (λ d. parsed (column (some t) d) rest) (sym ((eq_iff c "*").0 e)))
  | inr e ↦ rw e refl
]

pub column-Tight : (t : Option String) (c : String) → Tight (column t c)
unfolding expr_tokens parse_unary parse_primary parse_expr
column-Tight none c (suc f) rest l n = parse_name-column (parse_expr f) f c rest n
column-Tight (some t) c (suc f) rest l n = parse_qualified-column t c rest
column-Tight t c zero rest l n = absurd omega arith

pub literal-Tight : (l : Literal) → ReadsBack false (literal l) → Tight (literal l)
unfolding expr_tokens parse_unary parse_primary ReadsBack
literal-Tight (Literal.integer (negsuc i)) r f rest l n = absurd r
literal-Tight (Literal.integer (pos i)) r (suc f) rest l n = refl
literal-Tight (Literal.floating x) r (suc f) rest l n = refl
literal-Tight (Literal.str s) r (suc f) rest l n = refl
literal-Tight (Literal.boolean true) r (suc f) rest l n = refl
literal-Tight (Literal.boolean false) r (suc f) rest l n = refl
literal-Tight Literal.null r (suc f) rest l n = refl
literal-Tight v r zero rest l n = absurd omega arith

pub neg-Tight : (a : Expression) → Tight a → Tight (unary_op UnaryOperator.neg a)
unfolding expr_tokens parse_unary
neg-Tight a h f rest l n = rw (h f rest omega arith n) refl

pub negation-Loose : (a : Expression) → Loose a → Loose (unary_op UnaryOperator.negation a)
unfolding expr_tokens parse_not
negation-Loose a h f rest l n o = rw (h f rest omega arith n o) refl

abbrev pub rparen_ends : EndsExpression Token.rparen
rparen_ends = ((refl, refl, refl), refl, refl)

-- The inside of a printed operation, up to its `)` and the rest.
abbrev pub inside : Expression → Expression → Tokens → Token → Tokens
inside a b rest t = expr_tokens a ++ (t ∷ (expr_tokens b ++ Token.rparen ∷ rest))

module _ (a b : Expression) (g : ℕ) (rest : Tokens) (na : length (expr_tokens a) < suc (suc g))
    (nb : length (expr_tokens b) < suc (suc g)) where
  abbrev pub IsRead : Token → BinaryOperator → Type 0
  IsRead t o =
      parse_or (parse_primary (suc (suc g))) (suc (suc g)) (inside a b rest t)
      ≡ parsed (binary_op a o b) (Token.rparen ∷ rest)

  module _ (t : Token) (o : BinaryOperator) (n : EndsName t) where
    module _ (ta : Tight a) (tb : Tight b) (r : ReadsBack false a) where
      comparison-inside :
          multiplicative_op t ≡ none → additive_op t ≡ none → comparison_op t ≡ some o → IsRead t o
      comparison-inside m d c =
          let f = suc (suc g) in
          let us = expr_tokens b ++ Token.rparen ∷ rest in
          comparison-reads (parse_primary f) g (inside a b rest t) us (Token.rparen ∷ rest) t a b o
            rparen_ends (skips_not (parse_primary f) f a (t ∷ us) r) (ta f (t ∷ us) na n)
            (tb f (Token.rparen ∷ rest) nb tt) m d c

      additive-inside : multiplicative_op t ≡ none → additive_op t ≡ some o → IsRead t o
      additive-inside m d =
          let f = suc (suc g) in
          let us = expr_tokens b ++ Token.rparen ∷ rest in
          additive-reads (parse_primary f) g (inside a b rest t) us (Token.rparen ∷ rest) t a b o
            rparen_ends (skips_not (parse_primary f) f a (t ∷ us) r) (ta f (t ∷ us) na n)
            (tb f (Token.rparen ∷ rest) nb tt) m d

      multiplicative-inside : multiplicative_op t ≡ some o → IsRead t o
      multiplicative-inside m =
          let f = suc (suc g) in
          let us = expr_tokens b ++ Token.rparen ∷ rest in
          multiplicative-reads (parse_primary f) g (inside a b rest t) us (Token.rparen ∷ rest) t a
            b o rparen_ends (skips_not (parse_primary f) f a (t ∷ us) r) (ta f (t ∷ us) na n)
            (tb f (Token.rparen ∷ rest) nb tt) m

  pub operation-inside :
      (o : BinaryOperator)
      → Reads a
      → Reads b
      → ReadsBack (is_logical o) a
      → ReadsBack (is_logical o) b
      → IsRead (op_token o) o
  operation-inside BinaryOperator.eq (ta, _) (tb, _) r s =
      comparison-inside Token.eq BinaryOperator.eq tt (ta r) (tb s) r refl refl refl
  operation-inside BinaryOperator.neq (ta, _) (tb, _) r s =
      comparison-inside Token.neq BinaryOperator.neq tt (ta r) (tb s) r refl refl refl
  operation-inside BinaryOperator.lt (ta, _) (tb, _) r s =
      comparison-inside Token.lt BinaryOperator.lt tt (ta r) (tb s) r refl refl refl
  operation-inside BinaryOperator.gt (ta, _) (tb, _) r s =
      comparison-inside Token.gt BinaryOperator.gt tt (ta r) (tb s) r refl refl refl
  operation-inside BinaryOperator.lte (ta, _) (tb, _) r s =
      comparison-inside Token.lte BinaryOperator.lte tt (ta r) (tb s) r refl refl refl
  operation-inside BinaryOperator.gte (ta, _) (tb, _) r s =
      comparison-inside Token.gte BinaryOperator.gte tt (ta r) (tb s) r refl refl refl
  operation-inside BinaryOperator.add (ta, _) (tb, _) r s =
      additive-inside Token.plus BinaryOperator.add tt (ta r) (tb s) r refl refl
  operation-inside BinaryOperator.sub (ta, _) (tb, _) r s =
      additive-inside Token.minus BinaryOperator.sub tt (ta r) (tb s) r refl refl
  operation-inside BinaryOperator.mul (ta, _) (tb, _) r s =
      multiplicative-inside Token.star BinaryOperator.mul tt (ta r) (tb s) r refl
  operation-inside BinaryOperator.div (ta, _) (tb, _) r s =
      multiplicative-inside Token.slash BinaryOperator.div tt (ta r) (tb s) r refl
  operation-inside BinaryOperator.and (_, la) (_, lb) r s =
      let f = suc (suc g) in
      let us = expr_tokens b ++ Token.rparen ∷ rest in
      and-reads (parse_primary f) g (inside a b rest Token.and) us (Token.rparen ∷ rest) Token.and a
        b BinaryOperator.and rparen_ends (la r f (Token.and ∷ us) na tt (refl, refl, refl)) refl
        (lb s f (Token.rparen ∷ rest) nb tt (refl, refl, refl))
  operation-inside BinaryOperator.or (_, la) (_, lb) r s =
      let f = suc (suc g) in
      let us = expr_tokens b ++ Token.rparen ∷ rest in
      or-reads (parse_primary f) g (inside a b rest Token.or) us (Token.rparen ∷ rest) Token.or a b
        BinaryOperator.or rparen_ends (la r f (Token.or ∷ us) na tt (refl, refl, refl)) refl refl
        (lb s f (Token.rparen ∷ rest) nb tt (refl, refl, refl))
