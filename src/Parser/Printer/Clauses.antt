-- ===== src/Parser/Printer/Clauses.antt =====
-- parser/parser.cpp and parser/sql_printer.cpp: each clause of a printed SELECT is read back.
use sql_query_optimizer.Prelude.{
  ℕ, zero, suc, ◌≤◌, ◌<◌, ◌≡◌, refl, String, Bool, true, false, Option, none, some, List, [], ◌∷◌,
  ◌++◌, length, length-append, arith,
}
use sql_query_optimizer.Prelude.Int.{negsuc}
use sql_query_optimizer.Ast.{
  UnaryOperator, Literal, Expression, column, literal, unary_op, wildcard, SelectItem, expression,
  any_column, qualified_wildcard, TableRef, JoinType, Join, OrderByItem,
}
use sql_query_optimizer.Parser.{Token}
use sql_query_optimizer.Parser.Outcome.{Tokens, parsed, Parser, ◌>>=◌, peek}
use sql_query_optimizer.Parser.Expressions.{is_comma, parse_expr}
use sql_query_optimizer.Parser.Statements.{
  parse_alias, comma_list, select_item, parse_select_item, parse_table_ref, parse_join_type,
  parse_join, parse_joins, parse_direction, parse_order_by_item, parse_clause, parse_some, after_by,
  starts_join,
}
use sql_query_optimizer.Parser.Printer.Tokens.{expr_tokens, ReadsBack}
use sql_query_optimizer.Parser.Printer.Levels.{EndsExpression}
use sql_query_optimizer.Parser.Printer.RoundTrip.{EndsName, length-expr_tokens}
use sql_query_optimizer.Parser.Printer.Whole.{parse_expr-expr_tokens}
use sql_query_optimizer.Parser.Printer.Statement.{
  alias_tokens, item_tokens, list_tokens, name_tokens, table_tokens, join_token, join_tokens,
  condition_tokens, order_tokens, direction_token, clause_tokens, by_tokens, IsItem, Every, Given,
  IsNonEmpty,
}
use sql_query_optimizer.Parser.Printer.Follow.{
  rank, NoAlias, EndsItem, rank-EndsItem, rank-starts_join,
}

-- An expression before a token that ends it, with fuel for all the tokens.
pub condition-reads :
    (e : Expression) (f : ℕ) (rest : Tokens)
    → ReadsBack true e
    → length (expr_tokens e ++ rest) < f
    → EndsName (peek rest)
    → EndsExpression (peek rest)
    → parse_expr f (expr_tokens e ++ rest) ≡ parsed e rest
condition-reads e f rest r l n ends =
    let total = length-append (expr_tokens e) rest in
    parse_expr-expr_tokens e f rest r omega arith n ends

module _ {ℓ} {A : Type ℓ} where
  -- A list of items of which each is read before a comma, and before what follows the list.
  module _ (item : Parser A) (tokens : A → Tokens → Tokens) (f : ℕ) (Follows : Token → Type 0)
      (IsValid : A → Type 0) (follows_comma : Follows Token.comma)
      (grows : (x : A) (rest : Tokens) → length rest < length (tokens x rest))
      (reads : (x : A) (rest : Tokens)
        → IsValid x
        → Follows (peek rest)
        → length (tokens x rest) < f
        → item (tokens x rest) ≡ parsed x rest) where
    pub comma_list-list_tokens :
        (xs : List A) (k : ℕ) (rest : Tokens)
        → IsNonEmpty xs
        → Every IsValid xs
        → Follows (peek rest)
        → is_comma (peek rest) ≡ false
        → length (list_tokens tokens xs rest) < k
        → length (list_tokens tokens xs rest) < f
        → comma_list item k (list_tokens tokens xs rest) ≡ parsed xs rest
    unfolding comma_list
    comma_list-list_tokens [] k rest h v n c l m = absurd h
    comma_list-list_tokens xs zero rest h v n c l m = absurd omega arith
    comma_list-list_tokens (x ∷ []) (suc k) rest h (v, _) n c l m = rw (reads x rest v n m, c) refl
    comma_list-list_tokens (x ∷ y ∷ xs) (suc k) rest h (v, vs) n c l m =
        let more = list_tokens tokens (y ∷ xs) rest in
        let longer = grows x (Token.comma ∷ more) in
        rw (reads x (Token.comma ∷ more) v follows_comma m)
          (rw (comma_list-list_tokens (y ∷ xs) k rest tt vs n c omega arith omega arith) refl)

    -- The clause of a list, with its two keywords.
    pub parse_clause-by_tokens :
        (is_keyword : Token → Bool) (t : Token) (xs : List A) (rest : Tokens)
        → is_keyword t ≡ true
        → is_keyword (peek rest) ≡ false
        → Every IsValid xs
        → Follows (peek rest)
        → is_comma (peek rest) ≡ false
        → length (by_tokens t tokens xs rest) < f
        → parse_clause is_keyword (after_by (comma_list item f)) [] (by_tokens t tokens xs rest)
          ≡ parsed xs rest
    parse_clause-by_tokens is_keyword t [] rest p q v n c l = rw q refl
    parse_clause-by_tokens is_keyword t (x ∷ xs) rest p q v n c l =
        rw p (comma_list-list_tokens (x ∷ xs) f rest tt v n c omega arith omega arith)

module _ (f : ℕ) where
  -- WHERE and HAVING.
  pub parse_clause-condition :
      (is_keyword : Token → Bool) (t : Token) (w : Option Expression) (rest : Tokens)
      → is_keyword t ≡ true
      → is_keyword (peek rest) ≡ false
      → Given (ReadsBack true) w
      → EndsItem (peek rest)
      → length (clause_tokens t condition_tokens w rest) < f
      → parse_clause is_keyword
          (parse_some (parse_expr f))
          none
          (clause_tokens t condition_tokens w rest)
        ≡ parsed w rest
  parse_clause-condition is_keyword t none rest p q r n l = rw q refl
  parse_clause-condition is_keyword t (some e) rest p q r (n, ends, _) l =
      rw p (rw (condition-reads e f rest r omega arith n ends) refl)

parse_alias-alias_tokens :
    (alias : Option String) (rest : Tokens)
    → NoAlias (peek rest)
    → parse_alias (alias_tokens alias rest) ≡ parsed alias rest
unfolding parse_alias
parse_alias-alias_tokens (some a) rest n = refl
parse_alias-alias_tokens none (Token.as_ ∷ rest) n = absurd n
parse_alias-alias_tokens none (Token.identifier s ∷ rest) n = absurd n
parse_alias-alias_tokens none _ n = refl

alias_tokens-ends :
    (alias : Option String) (rest : Tokens)
    → EndsItem (peek rest)
    → EndsName (peek (alias_tokens alias rest)) × EndsExpression (peek (alias_tokens alias rest))
alias_tokens-ends none rest (n, ends, _) = (n, ends)
alias_tokens-ends (some a) rest h = (tt, ((refl, refl, refl), refl, refl))

item-ReadsBack :
    (e : Expression) (alias : Option String) → IsItem (expression e alias) → ReadsBack true e
unfolding ReadsBack
item-ReadsBack (column t c) alias h = tt
item-ReadsBack _ alias h = h

select_item-expression :
    (e : Expression) (alias : Option String) (rest : Tokens)
    → IsItem (expression e alias)
    → NoAlias (peek rest)
    → select_item e (alias_tokens alias rest) ≡ parsed (expression e alias) rest
unfolding select_item
select_item-expression (column (some t) c) alias rest h n =
    rw (h, parse_alias-alias_tokens alias rest n) refl
select_item-expression (column none c) alias rest h n =
    rw (parse_alias-alias_tokens alias rest n) refl
select_item-expression _ alias rest h n = rw (parse_alias-alias_tokens alias rest n) refl

-- An expression that is read back does not look like a `*`.
parse_select_item-expr_tokens :
    (f : ℕ) (e : Expression) (us : Tokens)
    → ReadsBack true e
    → parse_select_item f (expr_tokens e ++ us)
      ≡ (parse_expr f (expr_tokens e ++ us) >>= λ r. select_item r.0 r.1)
unfolding parse_select_item expr_tokens ReadsBack
parse_select_item-expr_tokens f (column none c) us r = refl
parse_select_item-expr_tokens f (literal (Literal.integer (negsuc n))) us r = absurd r
parse_select_item-expr_tokens f (literal (Literal.boolean true)) us r = refl
parse_select_item-expr_tokens f (literal (Literal.boolean false)) us r = refl
parse_select_item-expr_tokens f (unary_op UnaryOperator.negation a) us r = refl
parse_select_item-expr_tokens f (unary_op UnaryOperator.neg a) us r = refl
parse_select_item-expr_tokens f wildcard us r = absurd r
parse_select_item-expr_tokens f _ us r = refl

wildcard-reads :
    (f : ℕ) (t : String) (rest : Tokens)
    → EndsName (peek rest)
    → EndsExpression (peek rest)
    → length (item_tokens (qualified_wildcard t) rest) < f
    → parse_select_item f (item_tokens (qualified_wildcard t) rest)
      ≡ parsed (qualified_wildcard t) rest
unfolding parse_select_item item_tokens select_item expr_tokens ReadsBack
wildcard-reads f t rest n ends l =
    rw (condition-reads (column (some t) "*") f rest tt l n ends) refl

pub parse_select_item-item_tokens :
    (f : ℕ) (i : SelectItem) (rest : Tokens)
    → IsItem i
    → EndsItem (peek rest)
    → length (item_tokens i rest) < f
    → parse_select_item f (item_tokens i rest) ≡ parsed i rest
unfolding parse_select_item item_tokens
parse_select_item-item_tokens f any_column rest h n l = refl
parse_select_item-item_tokens f (qualified_wildcard t) rest h (n, ends, _) l =
    wildcard-reads f t rest n ends l
parse_select_item-item_tokens f (expression e alias) rest h n l =
    let r = item-ReadsBack e alias h in
    let (m, ends) = alias_tokens-ends alias rest n in
    let (_, _, named) = n in
    rw
      (
        parse_select_item-expr_tokens f e (alias_tokens alias rest) r,
        condition-reads e f (alias_tokens alias rest) r l m ends,
      )
      (select_item-expression e alias rest h named)

-- Every item takes a token.
pub item_tokens-grows : (i : SelectItem) (rest : Tokens) → length rest < length (item_tokens i rest)
unfolding item_tokens
item_tokens-grows any_column rest = omega arith
item_tokens-grows (qualified_wildcard t) rest = omega arith
item_tokens-grows (expression e none) rest =
    let total = length-append (expr_tokens e) rest in let p = length-expr_tokens e in omega arith
item_tokens-grows (expression e (some a)) rest =
    let total = length-append (expr_tokens e) (alias_tokens (some a) rest) in omega arith

pub condition_tokens-grows :
    (e : Expression) (rest : Tokens) → length rest < length (condition_tokens e rest)
condition_tokens-grows e rest =
    let total = length-append (expr_tokens e) rest in let p = length-expr_tokens e in omega arith

pub order_tokens-grows :
    (i : OrderByItem) (rest : Tokens) → length rest < length (order_tokens i rest)
order_tokens-grows i rest =
    let total = length-append (expr_tokens i.sort_key) (direction_token i.ascending ∷ rest) in
    omega arith

direction-ends : (up : Bool) → EndsName (direction_token up) × EndsExpression (direction_token up)
direction-ends true = (tt, ((refl, refl, refl), refl, refl))
direction-ends false = (tt, ((refl, refl, refl), refl, refl))

parse_direction-direction_token :
    (up : Bool) (rest : Tokens) → parse_direction (direction_token up ∷ rest) ≡ parsed up rest
parse_direction-direction_token true rest = refl
parse_direction-direction_token false rest = refl

pub parse_order_by_item-order_tokens :
    (f : ℕ) (i : OrderByItem) (rest : Tokens)
    → ReadsBack true i.sort_key
    → length (order_tokens i rest) < f
    → parse_order_by_item f (order_tokens i rest) ≡ parsed i rest
unfolding parse_order_by_item
parse_order_by_item-order_tokens f i rest r l =
    let (name, ends) = direction-ends i.ascending in
    rw (condition-reads i.sort_key f (direction_token i.ascending ∷ rest) r l name ends)
      (rw (parse_direction-direction_token i.ascending rest) refl)

parse_alias-name_tokens :
    (a : Option String) (rest : Tokens)
    → NoAlias (peek rest)
    → parse_alias (name_tokens a rest) ≡ parsed a rest
unfolding parse_alias
parse_alias-name_tokens (some a) rest h = refl
parse_alias-name_tokens none rest h = parse_alias-alias_tokens none rest h

pub parse_table_ref-table_tokens :
    (t : TableRef) (rest : Tokens)
    → NoAlias (peek rest)
    → parse_table_ref (table_tokens t rest) ≡ parsed t rest
unfolding parse_table_ref
parse_table_ref-table_tokens t rest h = rw (parse_alias-name_tokens t.alias rest h) refl

length-name_tokens : (a : Option String) (rest : Tokens) → length rest ≤ length (name_tokens a rest)
length-name_tokens none rest = omega arith
length-name_tokens (some a) rest = omega arith

pub length-table_tokens :
    (t : TableRef) (rest : Tokens) → length rest < length (table_tokens t rest)
length-table_tokens t rest = let h = length-name_tokens t.alias rest in omega arith

parse_join_type-join_token :
    (a : JoinType) (rest : Tokens)
    → parse_join_type (join_token a ∷ Token.join ∷ rest) ≡ parsed a rest
unfolding parse_join_type
parse_join_type-join_token JoinType.inner rest = refl
parse_join_type-join_token JoinType.left rest = refl
parse_join_type-join_token JoinType.right rest = refl
parse_join_type-join_token JoinType.cross rest = refl

starts_join-join_token : (a : JoinType) → starts_join (join_token a) ≡ true
starts_join-join_token JoinType.inner = refl
starts_join-join_token JoinType.left = refl
starts_join-join_token JoinType.right = refl
starts_join-join_token JoinType.cross = refl

-- What follows a join starts a clause.
pub rank-join_tokens :
    (js : List Join) (rest : Tokens) → 1 < rank (peek rest) → 0 < rank (peek (join_tokens js rest))
unfolding join_tokens
rank-join_tokens [] rest h = omega arith
rank-join_tokens (j ∷ js) rest h = rank-join_token j.join_type
  where
    rank-join_token : (a : JoinType) → 0 < rank (join_token a)
    rank-join_token JoinType.inner = omega arith
    rank-join_token JoinType.left = omega arith
    rank-join_token JoinType.right = omega arith
    rank-join_token JoinType.cross = omega arith

pub parse_joins-join_tokens :
    (f k : ℕ) (js : List Join) (rest : Tokens)
    → Every (λ j. ReadsBack true j.condition) js
    → 1 < rank (peek rest)
    → length (join_tokens js rest) < k
    → length (join_tokens js rest) < f
    → parse_joins f k (join_tokens js rest) ≡ parsed js rest
unfolding parse_joins join_tokens parse_join
parse_joins-join_tokens f zero js rest r n k l = absurd omega arith
parse_joins-join_tokens f (suc k) [] rest r n m l = rw (rank-starts_join (peek rest) n) refl
parse_joins-join_tokens f (suc k) (j ∷ js) rest (r, rs) n m l =
    let more = join_tokens js rest in
    let condition = expr_tokens j.condition ++ more in
    let (name, ends, _) = rank-EndsItem (peek more) (rank-join_tokens js rest n) in
    let p = length-table_tokens j.table (Token.on ∷ condition) in
    let q = condition_tokens-grows j.condition more in
    rw
      (
        starts_join-join_token j.join_type,
        parse_join_type-join_token j.join_type (table_tokens j.table (Token.on ∷ condition)),
        parse_table_ref-table_tokens j.table (Token.on ∷ condition) tt,
      )
      (rw (condition-reads j.condition f more r omega arith name ends)
        (rw (parse_joins-join_tokens f k js rest rs n omega arith omega arith) refl))

pub length-join_tokens :
    (js : List Join) (rest : Tokens) → length rest ≤ length (join_tokens js rest)
unfolding join_tokens
length-join_tokens [] rest = omega arith
length-join_tokens (j ∷ js) rest =
    let more = join_tokens js rest in
    let h = length-join_tokens js rest in
    let p = length-table_tokens j.table (Token.on ∷ (expr_tokens j.condition ++ more)) in
    let q = condition_tokens-grows j.condition more in omega arith
