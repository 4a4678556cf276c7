-- ===== src/Parser/Printer/Canonical.antt =====
-- parser/parser.cpp and parser/sql_printer.cpp: a whole printed SELECT is read back.
use sql_query_optimizer.Prelude.{
  ℕ, suc, ◌≤◌, ◌<◌, ◌≡◌, refl, true, false, Option, none, some, List, [], ◌∷◌, length, arith,
}
use sql_query_optimizer.Ast.{SelectStatement}
use sql_query_optimizer.Parser.{Token}
use sql_query_optimizer.Parser.Outcome.{Tokens, parsed, peek}
use sql_query_optimizer.Parser.Expressions.{parse_expr}
use sql_query_optimizer.Parser.Statements.{
  is_where, is_group, is_having, is_order, is_limit, parse_table_ref, comma_list, parse_select_item,
  parse_select_list, parse_order_by_item, parse_clause, parse_some, after_by, parse_limit,
  parse_select, parse_statement, parse,
}
use sql_query_optimizer.Parser.Printer.Tokens.{ReadsBack}
use sql_query_optimizer.Parser.Printer.Statement.{
  item_tokens, list_tokens, table_tokens, join_tokens, condition_tokens, order_tokens, limit_tokens,
  clause_tokens, by_tokens, tail_tokens, statement_tokens, IsItem, StatementReadsBack,
}
use sql_query_optimizer.Parser.Printer.Follow.{
  rank, EndsItem, rank-EndsItem, rank-is_comma, rank-is_where, rank-is_group, rank-is_having,
  rank-is_order, rank-is_limit,
}
use sql_query_optimizer.Parser.Printer.Clauses.{
  comma_list-list_tokens, parse_clause-by_tokens, parse_clause-condition,
  parse_select_item-item_tokens, item_tokens-grows, condition-reads, length-join_tokens,
  condition_tokens-grows, order_tokens-grows, parse_order_by_item-order_tokens,
  parse_table_ref-table_tokens, length-table_tokens, rank-join_tokens, parse_joins-join_tokens,
}

-- A clause that may be left out starts with its keyword or with what follows.
module _ {ℓ} {A : Type ℓ} (keyword : Token) (tokens : A → Tokens → Tokens) (rest : Tokens) where
  clause_tokens-rank :
      (n : ℕ) (a : Option A)
      → n < rank keyword
      → n < rank (peek rest)
      → n < rank (peek (clause_tokens keyword tokens a rest))
  clause_tokens-rank n none h k = k
  clause_tokens-rank n (some a) h k = h

  by_tokens-rank :
      (n : ℕ) (xs : List A)
      → n < rank keyword
      → n < rank (peek rest)
      → n < rank (peek (by_tokens keyword tokens xs rest))
  by_tokens-rank n [] h k = k
  by_tokens-rank n (x ∷ xs) h k = h

  module _ (grows : (x : A) (rest : Tokens) → length rest < length (tokens x rest)) where
    length-list_tokens : (xs : List A) → length rest ≤ length (list_tokens tokens xs rest)
    length-list_tokens [] = omega arith
    length-list_tokens (x ∷ []) = let g = grows x rest in omega arith
    length-list_tokens (x ∷ y ∷ xs) =
        let g = grows x (Token.comma ∷ list_tokens tokens (y ∷ xs) rest) in
        let h = length-list_tokens (y ∷ xs) in omega arith

    length-clause_tokens :
        (a : Option A) → length rest ≤ length (clause_tokens keyword tokens a rest)
    length-clause_tokens none = omega arith
    length-clause_tokens (some a) = let g = grows a rest in omega arith

    length-by_tokens : (xs : List A) → length rest ≤ length (by_tokens keyword tokens xs rest)
    length-by_tokens [] = omega arith
    length-by_tokens (x ∷ xs) = let h = length-list_tokens (x ∷ xs) in omega arith

limit_tokens-grows : (n : ℕ) (rest : Tokens) → length rest < length (limit_tokens n rest)
limit_tokens-grows n rest = omega arith

parse_clause-limit_tokens :
    (n : Option ℕ) (rest : Tokens)
    → is_limit (peek rest) ≡ false
    → parse_clause is_limit parse_limit none (clause_tokens Token.limit limit_tokens n rest)
      ≡ parsed n rest
parse_clause-limit_tokens none rest h = rw h refl
parse_clause-limit_tokens (some n) rest h = refl

abbrev comma_ends : EndsItem Token.comma
comma_ends = (tt, ((refl, refl, refl), refl, refl), tt)

module _ (s : SelectStatement) (r : StatementReadsBack s) (rest : Tokens)
    (end : peek rest ≡ Token.eof) (f : ℕ) where
  abbrev after_order : Tokens
  after_order = clause_tokens Token.limit limit_tokens s.limit rest

  abbrev after_having : Tokens
  after_having = by_tokens Token.order order_tokens s.order_by after_order

  abbrev after_group : Tokens
  after_group = clause_tokens Token.having condition_tokens s.having after_having

  abbrev after_where : Tokens
  after_where = by_tokens Token.group condition_tokens s.group_by after_group

  rank-rest : 6 < rank (peek rest)
  rank-rest = rw end omega arith

  rank-limit : 5 < rank (peek after_order)
  rank-limit =
      let h = rank-rest in
      clause_tokens-rank Token.limit limit_tokens rest 5 s.limit omega arith omega arith

  rank-order : 4 < rank (peek after_having)
  rank-order =
      let h = rank-limit in
      by_tokens-rank Token.order order_tokens after_order 4 s.order_by omega arith omega arith

  rank-having : 3 < rank (peek after_group)
  rank-having =
      let h = rank-order in
      clause_tokens-rank Token.having condition_tokens after_having 3 s.having omega arith omega
        arith

  rank-group : 2 < rank (peek after_where)
  rank-group =
      let h = rank-having in
      by_tokens-rank Token.group condition_tokens after_group 2 s.group_by omega arith omega arith

  rank-where : 1 < rank (peek (tail_tokens s rest))
  rank-where =
      let h = rank-group in
      clause_tokens-rank Token.where_ condition_tokens after_where 1 s.where_clause omega arith
        omega arith

  -- The clauses after the joins, one after another, with fuel for their tokens.
  module _ (l : length (tail_tokens s rest) < f) where
    length-after_where : length after_where < f
    length-after_where =
        let h =
          length-clause_tokens Token.where_ condition_tokens after_where condition_tokens-grows
            s.where_clause in
        omega arith

    length-after_group : length after_group < f
    length-after_group =
        let h =
          length-by_tokens Token.group condition_tokens after_group condition_tokens-grows
            s.group_by in
        let k = length-after_where in omega arith

    length-after_having : length after_having < f
    length-after_having =
        let h =
          length-clause_tokens Token.having condition_tokens after_having condition_tokens-grows
            s.having in
        let k = length-after_group in omega arith

    where-reads :
        parse_clause is_where (parse_some (parse_expr f)) none (tail_tokens s rest)
        ≡ parsed s.where_clause after_where
    where-reads =
        let h = rank-group in
        parse_clause-condition f is_where Token.where_ s.where_clause after_where refl
          (rank-is_where (peek after_where) h) (r.where_reads)
          (rank-EndsItem (peek after_where) omega arith) l

    group_by-reads :
        parse_clause is_group (after_by (comma_list (parse_expr f) f)) [] after_where
        ≡ parsed s.group_by after_group
    group_by-reads =
        let h = rank-having in
        parse_clause-by_tokens (parse_expr f) condition_tokens f EndsItem (ReadsBack true)
          comma_ends condition_tokens-grows
          (λ e us v (n, ends, _) m. condition-reads e f us v m n ends) is_group Token.group
          s.group_by after_group refl (rank-is_group (peek after_group) h) (r.groups)
          (rank-EndsItem (peek after_group) omega arith)
          (rank-is_comma (peek after_group) omega arith) length-after_where

    having-reads :
        parse_clause is_having (parse_some (parse_expr f)) none after_group
        ≡ parsed s.having after_having
    having-reads =
        let h = rank-order in
        parse_clause-condition f is_having Token.having s.having after_having refl
          (rank-is_having (peek after_having) h) (r.having_reads)
          (rank-EndsItem (peek after_having) omega arith) length-after_group

    order_by-reads :
        parse_clause is_order (after_by (comma_list (parse_order_by_item f) f)) [] after_having
        ≡ parsed s.order_by after_order
    order_by-reads =
        let h = rank-limit in
        parse_clause-by_tokens (parse_order_by_item f) order_tokens f EndsItem
          (λ i. ReadsBack true i.sort_key) comma_ends order_tokens-grows
          (λ i us v n m. parse_order_by_item-order_tokens f i us v m) is_order Token.order
          s.order_by after_order refl (rank-is_order (peek after_order) h) (r.keys)
          (rank-EndsItem (peek after_order) omega arith)
          (rank-is_comma (peek after_order) omega arith) length-after_having

    limit-reads : parse_clause is_limit parse_limit none after_order ≡ parsed s.limit rest
    limit-reads =
        let h = rank-rest in parse_clause-limit_tokens s.limit rest (rank-is_limit (peek rest) h)

  -- What follows the select list, and what follows the table.
  abbrev after_table : Tokens
  after_table = join_tokens s.joins (tail_tokens s rest)

  abbrev after_list : Tokens
  after_list = Token.from ∷ table_tokens s.from after_table

  table-reads : parse_table_ref (table_tokens s.from after_table) ≡ parsed s.from after_table
  table-reads =
      let h = rank-where in
      let (_, _, n) =
        rank-EndsItem (peek after_table) (rank-join_tokens s.joins (tail_tokens s rest) h) in
      parse_table_ref-table_tokens s.from after_table n

  parse_select-reads :
      length (list_tokens item_tokens s.columns after_list) < f
      → parse_select f (list_tokens item_tokens s.columns after_list) ≡ parsed s rest
  unfolding parse_select parse_select_list
  parse_select-reads l =
      let a = length-list_tokens Token.select item_tokens after_list item_tokens-grows s.columns in
      let b = length-table_tokens s.from after_table in
      let c = length-join_tokens s.joins (tail_tokens s rest) in
      rw
        (
          comma_list-list_tokens (parse_select_item f) item_tokens f EndsItem IsItem comma_ends
              item_tokens-grows (λ i us v n m. parse_select_item-item_tokens f i us v n m) s.columns
              f after_list (r.some_columns) (r.items) (tt, ((refl, refl, refl), refl, refl), tt)
              refl l l,
          table-reads,
          parse_joins-join_tokens f f s.joins (tail_tokens s rest) (r.conditions) rank-where omega
              arith omega arith,
        )
        (rw (where-reads omega arith, group_by-reads omega arith, having-reads omega arith)
          (rw (order_by-reads omega arith, limit-reads omega arith) refl))

-- `parse` reads a SELECT back from its tokens, all of it, up to the end of the text. The
-- statement has a select list; the NOTs of its expressions stand under AND, OR or NOT, in an argument
-- or alone, its literals are not below zero, and its only `*` are items of the select list and `f(*)`.
pub parse-statement_tokens :
    (s : SelectStatement) (rest : Tokens)
    → StatementReadsBack s
    → peek rest ≡ Token.eof
    → parse (statement_tokens s rest) ≡ parsed s rest
unfolding parse parse_statement statement_tokens
parse-statement_tokens s rest r end =
    parse_select-reads s r rest end (suc (length (statement_tokens s rest))) omega arith
