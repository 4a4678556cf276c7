-- ===== src/Parser/Statements/Ends.antt =====
-- parser/parser.cpp: the SELECT parser ends.
use sql_query_optimizer.Prelude.{ℕ, zero, suc, ◌<◌, Bool, none, some, [], ◌∷◌, length, ◌==◌, arith}
use sql_query_optimizer.Ast.{
  Expression, column, literal, binary_op, unary_op, function, wildcard, expression,
  qualified_wildcard, JoinType,
}
use sql_query_optimizer.Parser.{Token}
use sql_query_optimizer.Parser.Outcome.{
  Tokens, parsed, Parser, ◌>>=◌, peek, advance, expect, Leaves, Leaves-bind, Leaves-more, Leaves-if,
}
use sql_query_optimizer.Parser.Expressions.{is_comma, parse_expr}
use sql_query_optimizer.Parser.Expressions.Ends.{
  Ends, length-advance, expect-Leaves, parse_expr-Ends,
}
use sql_query_optimizer.Parser.Statements.{
  is_from, is_join, is_on, is_by, is_where, is_group, is_having, is_order, is_limit, starts_join,
  parse_identifier, parse_alias, comma_list, select_item, parse_select_item, parse_select_list,
  parse_table_ref, parse_join_type, parse_join, parse_joins, parse_direction, parse_order_by_item,
  parse_clause, parse_some, after_by, parse_limit, parse_select, parse_statement, parse,
}

-- On fewer than `f` tokens, `p` ends; it may take none of them.
abbrev MayEnd {ℓ} : {A : Type ℓ} → ℕ → Parser A → Type 0
MayEnd f p = (ts : Tokens) → length ts < f → Leaves (suc (length ts)) (p ts)

parse_identifier-Leaves : (ts : Tokens) → Leaves (length ts) (parse_identifier ts)
parse_identifier-Leaves (Token.identifier s ∷ ts) = omega arith
parse_identifier-Leaves ts = tt

parse_alias-Leaves : (ts : Tokens) → Leaves (suc (length ts)) (parse_alias ts)
unfolding parse_alias
parse_alias-Leaves (Token.as_ ∷ ts) =
    Leaves-bind (length ts) (suc (suc (length ts))) (parse_identifier ts) _
      (parse_identifier-Leaves ts) (λ s rest d. omega arith)
parse_alias-Leaves (Token.identifier s ∷ ts) = omega arith
parse_alias-Leaves ts = omega arith

module _ {ℓ} {A : Type ℓ} where
  comma_list-Ends :
      (item : Parser A) (f : ℕ)
      → Ends f item
      → (k : ℕ) (ts : Tokens) → length ts < k
      → length ts < f
      → Leaves (length ts) (comma_list item k ts)
  unfolding comma_list
  comma_list-Ends item f h zero ts p q = absurd omega arith
  comma_list-Ends item f h (suc k) ts p q =
      Leaves-bind (length ts) (length ts) (item ts) _ (h ts q) (λ a rest d.
        let s = length-advance rest in
        Leaves-if (length ts) (is_comma (peek rest)) _ _
          (λ e.
            Leaves-bind (length (advance rest)) (length ts) (comma_list item k (advance rest)) _
              (comma_list-Ends item f h k (advance rest) omega arith omega arith)
              (λ b rest' c. omega arith))
          d)

  parse_clause-MayEnd :
      (is_keyword : Token → Bool) (p : Parser A) (default : A) (f : ℕ)
      → MayEnd f p
      → MayEnd f (parse_clause is_keyword p default)
  parse_clause-MayEnd is_keyword p default f h ts l =
      let s = length-advance ts in
      Leaves-if (suc (length ts)) (is_keyword (peek ts)) (p (advance ts)) (parsed default ts)
        (λ e.
          Leaves-more (suc (length (advance ts))) (suc (length ts)) (p (advance ts)) s
            (h (advance ts) omega arith))
        omega arith

  parse_some-MayEnd : (p : Parser A) (f : ℕ) → Ends f p → MayEnd f (parse_some p)
  parse_some-MayEnd p f h ts l =
      Leaves-bind (length ts) (suc (length ts)) (p ts) _ (h ts l) (λ a rest d. omega arith)

  after_by-MayEnd : (p : Parser A) (f : ℕ) → Ends f p → MayEnd f (after_by p)
  after_by-MayEnd p f h ts l =
      Leaves-bind (suc (length ts)) (suc (length ts)) (expect is_by ts) _ (expect-Leaves is_by ts)
        (λ u rest d.
          Leaves-more (length rest) (suc (length ts)) (p rest) omega arith (h rest omega arith))

-- An item of the select list after its expression.
aliased-Leaves :
    (e : Expression) (ts : Tokens)
    → Leaves (suc (length ts)) (parse_alias ts >>= λ r. parsed (expression e r.0) r.1)
aliased-Leaves e ts =
    Leaves-bind (suc (length ts)) (suc (length ts)) (parse_alias ts) _ (parse_alias-Leaves ts)
      (λ a rest d. d)

select_item-Leaves : (e : Expression) (ts : Tokens) → Leaves (suc (length ts)) (select_item e ts)
unfolding select_item
select_item-Leaves (column (some t) c) ts =
    Leaves-if (suc (length ts)) (c == "*") (parsed (qualified_wildcard t) ts) _ (λ e. omega arith)
      (aliased-Leaves (column (some t) c) ts)
select_item-Leaves (column none c) ts = aliased-Leaves (column none c) ts
select_item-Leaves (literal l) ts = aliased-Leaves (literal l) ts
select_item-Leaves (binary_op a o b) ts = aliased-Leaves (binary_op a o b) ts
select_item-Leaves (unary_op o a) ts = aliased-Leaves (unary_op o a) ts
select_item-Leaves (function n args) ts = aliased-Leaves (function n args) ts
select_item-Leaves wildcard ts = aliased-Leaves wildcard ts

item-Ends : (f : ℕ) → Ends f (λ ts. parse_expr f ts >>= λ r. select_item r.0 r.1)
item-Ends f ts l =
    Leaves-bind (length ts) (length ts) (parse_expr f ts) _ (parse_expr-Ends f ts l) (λ e rest d.
      Leaves-more (suc (length rest)) (length ts) (select_item e rest) d
        (select_item-Leaves e rest))

parse_select_item-Ends : (f : ℕ) → Ends f (parse_select_item f)
unfolding parse_select_item
parse_select_item-Ends f (Token.star ∷ ts) l = omega arith
parse_select_item-Ends f ts l = item-Ends f ts l

parse_select_list-Ends : (f : ℕ) → Ends f (parse_select_list f)
unfolding parse_select_list
parse_select_list-Ends f ts l =
    comma_list-Ends (parse_select_item f) f (parse_select_item-Ends f) f ts l l

parse_table_ref-Leaves : (ts : Tokens) → Leaves (length ts) (parse_table_ref ts)
unfolding parse_table_ref
parse_table_ref-Leaves ts =
    Leaves-bind (length ts) (length ts) (parse_identifier ts) _ (parse_identifier-Leaves ts)
      (λ s rest d.
        Leaves-bind (suc (length rest)) (length ts) (parse_alias rest) _ (parse_alias-Leaves rest)
          (λ a rest' e. omega arith))

join_word-Leaves :
    (t : Token) (a : JoinType) (ts : Tokens)
    → Leaves (length (t ∷ ts)) (expect is_join ts >>= λ r. parsed a r.1)
join_word-Leaves t a ts =
    Leaves-bind (suc (length ts)) (suc (length ts)) (expect is_join ts) _ (expect-Leaves is_join ts)
      (λ u rest d. d)

parse_join_type-Leaves : (ts : Tokens) → Leaves (length ts) (parse_join_type ts)
unfolding parse_join_type
parse_join_type-Leaves (Token.join ∷ ts) = omega arith
parse_join_type-Leaves (Token.inner ∷ ts) = join_word-Leaves Token.inner JoinType.inner ts
parse_join_type-Leaves (Token.left ∷ ts) = join_word-Leaves Token.left JoinType.left ts
parse_join_type-Leaves (Token.right ∷ ts) = join_word-Leaves Token.right JoinType.right ts
parse_join_type-Leaves (Token.cross ∷ ts) = join_word-Leaves Token.cross JoinType.cross ts
parse_join_type-Leaves ts = tt

parse_join-Ends : (f : ℕ) → Ends f (parse_join f)
unfolding parse_join
parse_join-Ends f ts l =
    let n = length ts in
    Leaves-bind n n (parse_join_type ts) _ (parse_join_type-Leaves ts) (λ type a p.
      Leaves-bind (length a) n (parse_table_ref a) _ (parse_table_ref-Leaves a) (λ table b q.
        Leaves-bind (suc (length b)) n (expect is_on b) _ (expect-Leaves is_on b) (λ u c r.
          Leaves-bind (length c) n (parse_expr f c) _ (parse_expr-Ends f c omega arith)
            (λ condition d s. omega arith))))

parse_joins-Leaves :
    (f k : ℕ) (ts : Tokens)
    → length ts < k
    → length ts < f
    → Leaves (suc (length ts)) (parse_joins f k ts)
unfolding parse_joins
parse_joins-Leaves f zero ts p q = absurd omega arith
parse_joins-Leaves f (suc k) ts p q =
    Leaves-if (suc (length ts)) (starts_join (peek ts)) _ (parsed [] ts)
      (λ e.
        Leaves-bind (length ts) (suc (length ts)) (parse_join f ts) _ (parse_join-Ends f ts q)
          (λ j a d.
            Leaves-bind (suc (length a)) (suc (length ts)) (parse_joins f k a) _
              (parse_joins-Leaves f k a omega arith omega arith) (λ js b c. omega arith)))
      omega arith

parse_direction-Leaves : (ts : Tokens) → Leaves (suc (length ts)) (parse_direction ts)
parse_direction-Leaves (Token.asc ∷ ts) = omega arith
parse_direction-Leaves (Token.desc ∷ ts) = omega arith
parse_direction-Leaves ts = omega arith

parse_order_by_item-Ends : (f : ℕ) → Ends f (parse_order_by_item f)
unfolding parse_order_by_item
parse_order_by_item-Ends f ts l =
    Leaves-bind (length ts) (length ts) (parse_expr f ts) _ (parse_expr-Ends f ts l) (λ e rest d.
      Leaves-bind (suc (length rest)) (length ts) (parse_direction rest) _
        (parse_direction-Leaves rest) (λ up rest' c. omega arith))

parse_limit-MayEnd : (f : ℕ) → MayEnd f parse_limit
parse_limit-MayEnd f (Token.integer n ∷ ts) l = omega arith
parse_limit-MayEnd f ts l = tt

where-MayEnd : (f : ℕ) → MayEnd f (parse_clause is_where (parse_some (parse_expr f)) none)
where-MayEnd f =
    parse_clause-MayEnd is_where (parse_some (parse_expr f)) none f
      (parse_some-MayEnd (parse_expr f) f (parse_expr-Ends f))

group_by-MayEnd :
    (f : ℕ) → MayEnd f (parse_clause is_group (after_by (comma_list (parse_expr f) f)) [])
group_by-MayEnd f = parse_clause-MayEnd is_group (after_by (comma_list (parse_expr f) f)) [] f (
    after_by-MayEnd (comma_list (parse_expr f) f) f
      (λ ts l. comma_list-Ends (parse_expr f) f (parse_expr-Ends f) f ts l l))

having-MayEnd : (f : ℕ) → MayEnd f (parse_clause is_having (parse_some (parse_expr f)) none)
having-MayEnd f =
    parse_clause-MayEnd is_having (parse_some (parse_expr f)) none f
      (parse_some-MayEnd (parse_expr f) f (parse_expr-Ends f))

order_by-MayEnd :
    (f : ℕ) → MayEnd f (parse_clause is_order (after_by (comma_list (parse_order_by_item f) f)) [])
order_by-MayEnd f =
    parse_clause-MayEnd is_order (after_by (comma_list (parse_order_by_item f) f)) [] f (
      after_by-MayEnd (comma_list (parse_order_by_item f) f) f
        (λ ts l. comma_list-Ends (parse_order_by_item f) f (parse_order_by_item-Ends f) f ts l l))

limit-MayEnd : (f : ℕ) → MayEnd f (parse_clause is_limit parse_limit none)
limit-MayEnd f = parse_clause-MayEnd is_limit parse_limit none f (parse_limit-MayEnd f)

parse_select-Ends : (f : ℕ) → Ends f (parse_select f)
unfolding parse_select
parse_select-Ends f ts l =
    let n = length ts in
    Leaves-bind n n (parse_select_list f ts) _ (parse_select_list-Ends f ts l) (λ cs a p.
      Leaves-bind (suc (length a)) n (expect is_from a) _ (expect-Leaves is_from a) (λ u b q.
        Leaves-bind (length b) n (parse_table_ref b) _ (parse_table_ref-Leaves b) (λ t c r.
          Leaves-bind (suc (length c)) n (parse_joins f f c) _
            (parse_joins-Leaves f f c omega arith omega arith)
            (λ js d s. Leaves-bind (suc (length d)) n _ _ (where-MayEnd f d omega arith) (λ w e x.
              Leaves-bind (suc (length e)) n _ _ (group_by-MayEnd f e omega arith) (λ g i y.
                Leaves-bind (suc (length i)) n _ _ (having-MayEnd f i omega arith) (λ v j z.
                  Leaves-bind (suc (length j)) n _ _ (order_by-MayEnd f j omega arith) (λ o k aa.
                    Leaves-bind (suc (length k)) n _ _ (limit-MayEnd f k omega arith)
                      (λ m rest bb. omega arith)))))))))

-- `parse` ends for every list of tokens: its fuel, one more than the tokens, is enough. When it
-- returns a statement it has read at least one token.
pub parse-Ends : (ts : Tokens) → Leaves (length ts) (parse ts)
unfolding parse parse_statement
parse-Ends (Token.select ∷ ts) =
    Leaves-more (length ts) (suc (length ts)) (parse_select (suc (suc (length ts))) ts) omega arith
      (parse_select-Ends (suc (suc (length ts))) ts omega arith)
parse-Ends ts = tt
