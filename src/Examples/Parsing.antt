-- ===== src/Examples/Parsing.antt =====
-- The parser and the printer on a query.
use sql_query_optimizer.Prelude.{String, ◌≡◌, refl, false, none, some, [], ◌∷◌, length, inl}
use sql_query_optimizer.Prelude.Int.{pos}
use sql_query_optimizer.Ast.{
  Double, BinaryOperator, UnaryOperator, Literal, Expression, column, literal, binary_op, unary_op,
  function, wildcard, nil, cons, expression, any_column, qualified_wildcard, JoinType,
  SelectStatement,
}
use sql_query_optimizer.Parser.{Token}
use sql_query_optimizer.Parser.Lexer.{tokenize}
use sql_query_optimizer.Parser.Outcome.{Tokens, parsed, syntax_error, Leaves}
use sql_query_optimizer.Parser.Expressions.{parse_expr}
use sql_query_optimizer.Parser.Statements.{parse}
use sql_query_optimizer.Parser.Statements.Ends.{parse-Ends}
use sql_query_optimizer.Parser.Printer.{print_expr, print_statement}
use sql_query_optimizer.Parser.Printer.Tokens.{expr_tokens}
use sql_query_optimizer.Parser.Printer.Statement.{statement_tokens, item_tokens, join_tokens}

abbrev of_users : String → Expression
of_users c = column (some "u") c

-- (NOT (u.age > 18) AND (u.name = 'ann'))
abbrev young_ann : Expression
young_ann =
    binary_op
      (unary_op UnaryOperator.negation
        (binary_op (of_users "age") BinaryOperator.gt (literal (Literal.integer (pos 18)))))
      BinaryOperator.and
      (binary_op (of_users "name") BinaryOperator.eq (literal (Literal.str "ann")))

abbrev count_orders : SelectStatement
count_orders = record {
  columns =
      expression (of_users "id") none
      ∷ expression (function "COUNT" (cons wildcard nil)) (some "n")
      ∷ qualified_wildcard "o"
      ∷ [];
  from = record { table_name = "users"; alias = some "u" };
  joins =
      record {
        join_type = JoinType.left;
        table = record { table_name = "orders"; alias = some "o" };
        condition = binary_op (of_users "id") BinaryOperator.eq (column (some "o") "user_id");
      }
      ∷ [];
  where_clause = some young_ann;
  group_by = of_users "id" ∷ [];
  having = none;
  order_by =
      record { sort_key = unary_op UnaryOperator.neg (of_users "id"); ascending = false } ∷ [];
  limit = some 5;
}

abbrev count_orders_text : String
count_orders_text =
    "SELECT u.id, COUNT(*) AS n, o.* FROM users u LEFT JOIN orders o ON (u.id = o.user_id) WHERE (NOT (u.age > 18) AND (u.name = 'ann')) GROUP BY u.id ORDER BY -u.id DESC LIMIT 5"

printed : print_statement (λ _. "") count_orders ≡ count_orders_text
unfolding print_statement
printed = refl

lexed :
    tokenize (λ _. none) 200 count_orders_text
    ≡ inl (statement_tokens count_orders (Token.eof ∷ []))
unfolding tokenize statement_tokens item_tokens expr_tokens join_tokens
lexed = refl

abbrev write_zero : Double → String
write_zero x = "0.0"

abbrev cut_short : Tokens
cut_short = Token.select ∷ Token.identifier "a" ∷ Token.plus ∷ Token.lparen ∷ []

parse-Ends_example : Leaves (length cut_short) (parse cut_short)
parse-Ends_example = parse-Ends cut_short

cut_short_error : parse cut_short ≡ syntax_error
unfolding parse
cut_short_error = refl

-- What is left after a statement is not looked at.
trailing :
    parse (
      Token.select
      ∷ Token.star
      ∷ Token.from
      ∷ Token.identifier "a"
      ∷ Token.comma
      ∷ Token.identifier "b"
      ∷ [])
    ≡ parsed
        (record {
          columns = any_column ∷ [];
          from = record { table_name = "a"; alias = none };
          joins = [];
          where_clause = none;
          group_by = [];
          having = none;
          order_by = [];
          limit = none;
        })
        (Token.comma ∷ Token.identifier "b" ∷ [])
unfolding parse
trailing = refl

-- A NOT under a comparison is printed without its parentheses and read back over the comparison.
abbrev not_a : Expression
not_a = unary_op UnaryOperator.negation (column none "a")

not_printed :
    print_expr (λ _. "") (binary_op not_a BinaryOperator.eq (column none "b")) ≡ "(NOT a = b)"
unfolding print_expr
not_printed = refl

not_read :
    parse_expr 9 (expr_tokens (binary_op not_a BinaryOperator.eq (column none "b")))
    ≡ parsed
        (unary_op UnaryOperator.negation
          (binary_op (column none "a") BinaryOperator.eq (column none "b")))
        []
unfolding parse_expr expr_tokens
not_read = refl
