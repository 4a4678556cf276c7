-- ===== src/Parser/Printer/Levels.antt =====
-- parser/parser.cpp: what each level of the descent returns when the level below it has stopped at
-- a token.
use sql_query_optimizer.Prelude.{ℕ, suc, ◌≡◌, refl, ◌∙◌, Option, none, some, ◌∷◌}
use sql_query_optimizer.Ast.{BinaryOperator, Expression, binary_op}
use sql_query_optimizer.Parser.{Token}
use sql_query_optimizer.Parser.Outcome.{Tokens, parsed, Parser, ◌>>=◌, peek}
use sql_query_optimizer.Parser.Expressions.{
  or_op, and_op, comparison_op, additive_op, multiplicative_op, binary_loop, parse_unary,
  parse_multiplicative, parse_additive, parse_comparison, parse_not, parse_and, parse_or,
}

-- The choice that a level makes on its operator.
module _ {ℓ κ} {A : Type ℓ} {B : Type κ} (x : B) (f : A → B) where
  choice-none : (o : Option A) → o ≡ none → (elim o [ none ↦ x | some a ↦ f a ]) ≡ x
  choice-none o h = rw h refl

  choice-some : (o : Option A) (a : A) → o ≡ some a → (elim o [ none ↦ x | some b ↦ f b ]) ≡ f a
  choice-some o a h = rw h refl

-- A level without an operator, and with one.
module _ (op : Token → Option BinaryOperator) (next : Parser Expression) where
  loop-stops :
      (g : ℕ) (ts rest : Tokens) (e : Expression)
      → next ts ≡ parsed e rest
      → op (peek rest) ≡ none
      → (next ts >>= λ r. binary_loop op next (suc g) r.0 r.1) ≡ parsed e rest
  unfolding binary_loop
  loop-stops g ts rest e p q = rw (p, q, binary_loop) refl

  loop-once :
      (g : ℕ) (ts us rest : Tokens) (t : Token) (a b : Expression) (o : BinaryOperator)
      → next ts ≡ parsed a (t ∷ us)
      → op t ≡ some o
      → next us ≡ parsed b rest
      → op (peek rest) ≡ none
      → (next ts >>= λ r. binary_loop op next (suc (suc g)) r.0 r.1) ≡ parsed (binary_op a o b) rest
  unfolding binary_loop
  loop-once g ts us rest t a b o p q r s = rw (p, q, binary_loop, r, s) refl

-- No operator below NOT goes on at this token.
abbrev pub EndsOperand : Token → Type 0
EndsOperand t = (multiplicative_op t ≡ none) × (additive_op t ≡ none) × (comparison_op t ≡ none)

abbrev pub EndsExpression : Token → Type 0
EndsExpression t = EndsOperand t × (and_op t ≡ none) × (or_op t ≡ none)

module _ (p : Parser Expression) (g : ℕ) (ts rest : Tokens) (e : Expression) where
  pub unary-multiplicative :
      parse_unary p (suc g) ts ≡ parsed e rest
      → multiplicative_op (peek rest) ≡ none
      → parse_multiplicative p (suc g) ts ≡ parsed e rest
  unfolding parse_multiplicative
  unary-multiplicative = loop-stops multiplicative_op (parse_unary p (suc g)) g ts rest e

  pub multiplicative-additive :
      parse_multiplicative p (suc g) ts ≡ parsed e rest
      → additive_op (peek rest) ≡ none
      → parse_additive p (suc g) ts ≡ parsed e rest
  unfolding parse_additive
  multiplicative-additive = loop-stops additive_op (parse_multiplicative p (suc g)) g ts rest e

  pub additive-comparison :
      parse_additive p (suc g) ts ≡ parsed e rest
      → comparison_op (peek rest) ≡ none
      → parse_comparison p (suc g) ts ≡ parsed e rest
  unfolding parse_comparison
  additive-comparison h k = rw h (choice-none _ _ (comparison_op (peek rest)) k)

  pub unary-comparison :
      parse_unary p (suc g) ts ≡ parsed e rest
      → EndsOperand (peek rest)
      → parse_comparison p (suc g) ts ≡ parsed e rest
  unary-comparison h (m, a, c) =
      additive-comparison (multiplicative-additive (unary-multiplicative h m) a) c

  pub not-or :
      parse_not p (suc g) ts ≡ parsed e rest
      → EndsExpression (peek rest)
      → parse_or p (suc g) ts ≡ parsed e rest
  unfolding parse_or parse_and
  not-or h (_, a, o) =
      loop-stops or_op (parse_and p (suc g)) g ts rest e
        (loop-stops and_op (parse_not p (suc g)) g ts rest e h a) o

-- One operator, between two operands that the level of the operator's operands reads. A text that
-- does not start with NOT goes to the level of comparisons (`skips`).
module _ (p : Parser Expression) (g : ℕ) (ts us rest : Tokens) (t : Token) (a b : Expression)
    (o : BinaryOperator) (ends : EndsExpression (peek rest)) where
  pub or-reads :
      parse_not p (suc (suc g)) ts ≡ parsed a (t ∷ us)
      → and_op t ≡ none
      → or_op t ≡ some o
      → parse_not p (suc (suc g)) us ≡ parsed b rest
      → parse_or p (suc (suc g)) ts ≡ parsed (binary_op a o b) rest
  unfolding parse_or parse_and
  or-reads h n s k =
      let (_, m, r) = ends in
      loop-once or_op (parse_and p (suc (suc g))) g ts us rest t a b o
        (loop-stops and_op (parse_not p (suc (suc g))) (suc g) ts (t ∷ us) a h n) s
        (loop-stops and_op (parse_not p (suc (suc g))) (suc g) us rest b k m) r

  pub and-reads :
      parse_not p (suc (suc g)) ts ≡ parsed a (t ∷ us)
      → and_op t ≡ some o
      → parse_not p (suc (suc g)) us ≡ parsed b rest
      → parse_or p (suc (suc g)) ts ≡ parsed (binary_op a o b) rest
  unfolding parse_or parse_and
  and-reads h s k =
      let (_, m, r) = ends in
      loop-stops or_op (parse_and p (suc (suc g))) (suc g) ts rest (binary_op a o b)
        (loop-once and_op (parse_not p (suc (suc g))) g ts us rest t a b o h s k m) r

  module _ (skips : parse_not p (suc (suc g)) ts ≡ parse_comparison p (suc (suc g)) ts)
      (left : parse_unary p (suc (suc g)) ts ≡ parsed a (t ∷ us))
      (right : parse_unary p (suc (suc g)) us ≡ parsed b rest) where
    comparison-or :
        parse_comparison p (suc (suc g)) ts ≡ parsed (binary_op a o b) rest
        → parse_or p (suc (suc g)) ts ≡ parsed (binary_op a o b) rest
    comparison-or h = not-or p (suc g) ts rest (binary_op a o b) (skips ∙ h) ends

    additive-or :
        parse_additive p (suc (suc g)) ts ≡ parsed (binary_op a o b) rest
        → parse_or p (suc (suc g)) ts ≡ parsed (binary_op a o b) rest
    additive-or h =
        let ((_, _, c), _, _) = ends in
        comparison-or (additive-comparison p (suc g) ts rest (binary_op a o b) h c)

    pub comparison-reads :
        multiplicative_op t ≡ none
        → additive_op t ≡ none
        → comparison_op t ≡ some o
        → parse_or p (suc (suc g)) ts ≡ parsed (binary_op a o b) rest
    unfolding parse_comparison
    comparison-reads m n s =
        let ((m', n', _), _, _) = ends in
        let l =
          multiplicative-additive p (suc g) ts (t ∷ us) a
            (unary-multiplicative p (suc g) ts (t ∷ us) a left m) n in
        let r =
          multiplicative-additive p (suc g) us rest b
            (unary-multiplicative p (suc g) us rest b right m') n' in
        comparison-or (rw l (choice-some _ _ (comparison_op t) o s ∙ rw r refl))

    pub additive-reads :
        multiplicative_op t ≡ none
        → additive_op t ≡ some o
        → parse_or p (suc (suc g)) ts ≡ parsed (binary_op a o b) rest
    unfolding parse_additive
    additive-reads m s =
        let ((m', n', _), _, _) = ends in
        additive-or (
          loop-once additive_op (parse_multiplicative p (suc (suc g))) g ts us rest t a b o
            (unary-multiplicative p (suc g) ts (t ∷ us) a left m) s
            (unary-multiplicative p (suc g) us rest b right m') n')

    pub multiplicative-reads :
        multiplicative_op t ≡ some o → parse_or p (suc (suc g)) ts ≡ parsed (binary_op a o b) rest
    unfolding parse_multiplicative
    multiplicative-reads s =
        let ((m', n', _), _, _) = ends in
        additive-or (
          multiplicative-additive p (suc g) ts rest (binary_op a o b)
            (loop-once multiplicative_op (parse_unary p (suc (suc g))) g ts us rest t a b o left s
              right m')
            n')
