-- ===== src/Parser/Printer.antt =====
-- parser/sql_printer.cpp: an expression and a SELECT statement as text. Writing a `double` to a stream,
-- which keeps six significant digits, is the parameter `write_double`.
pub mod Tokens
pub mod Levels
pub mod RoundTrip
pub mod Spelling
pub mod Whole
pub mod Statement
pub mod Follow
pub mod Clauses
pub mod Texts
pub mod Canonical
pub mod Reads
use Prim.Native.String.{◌++◌}
use sql_query_optimizer.Prelude.{ℕ, String, Bool, true, false, Option, none, some, List, [], ◌∷◌}
use sql_query_optimizer.Prelude.Int.{pos}
use sql_query_optimizer.Prelude.Text.{int_to_string}
use sql_query_optimizer.Ast.{
  BinaryOperator, UnaryOperator, Double, Literal, Expression, Expressions, column, literal,
  binary_op, unary_op, function, wildcard, nil, cons, SelectItem, expression, any_column,
  qualified_wildcard, TableRef, JoinType, Join, OrderByItem, SelectStatement,
}

abbrev pub binary_op_name : BinaryOperator → String
binary_op_name BinaryOperator.eq = "="
binary_op_name BinaryOperator.neq = "<>"
binary_op_name BinaryOperator.lt = "<"
binary_op_name BinaryOperator.gt = ">"
binary_op_name BinaryOperator.lte = "<="
binary_op_name BinaryOperator.gte = ">="
binary_op_name BinaryOperator.and = "AND"
binary_op_name BinaryOperator.or = "OR"
binary_op_name BinaryOperator.add = "+"
binary_op_name BinaryOperator.sub = "-"
binary_op_name BinaryOperator.mul = "*"
binary_op_name BinaryOperator.div = "/"

abbrev pub unary_op_name : UnaryOperator → String
unary_op_name UnaryOperator.negation = "NOT "
unary_op_name UnaryOperator.neg = "-"

abbrev pub print_column : Option String → String → String
print_column (some t) c = t ++ ("." ++ c)
print_column none c = c

unfoldable pub print_literal : (Double → String) → Literal → String
unfolding int_to_string
print_literal write_double (Literal.integer n) = int_to_string n
print_literal write_double (Literal.floating x) = write_double x
print_literal write_double (Literal.str s) = "'" ++ (s ++ "'")
print_literal write_double (Literal.boolean true) = "TRUE"
print_literal write_double (Literal.boolean false) = "FALSE"
print_literal write_double Literal.null = "NULL"

module _ (write_double : Double → String) where
  unfoldable mutual
    unfolding print_literal int_to_string

    pub print_expr : Expression → String
    print_expr (column t c) = print_column t c
    print_expr (literal l) = print_literal write_double l
    print_expr (binary_op a o b) =
        "(" ++ (print_expr a ++ (" " ++ (binary_op_name o ++ (" " ++ (print_expr b ++ ")")))))
    print_expr (unary_op o a) = unary_op_name o ++ print_expr a
    print_expr (function name args) = name ++ ("(" ++ (print_args args ++ ")"))
    print_expr wildcard = "*"

    pub print_args : Expressions → String
    print_args nil = ""
    print_args (cons e nil) = print_expr e
    print_args (cons e (cons e' es)) = print_expr e ++ (", " ++ print_args (cons e' es))

-- Texts with a comma and a space between them.
unfoldable pub comma_separated {ℓ} : {A : Type ℓ} → (A → String) → List A → String
comma_separated print [] = ""
comma_separated print (x ∷ []) = print x
comma_separated print (x ∷ y ∷ xs) = print x ++ (", " ++ comma_separated print (y ∷ xs))

-- A text before what is there, and nothing otherwise.
abbrev pub print_option {ℓ} : {A : Type ℓ} → String → (A → String) → Option A → String
print_option before print none = ""
print_option before print (some a) = before ++ print a

unfoldable pub print_list {ℓ} : {A : Type ℓ} → String → (A → String) → List A → String
unfolding comma_separated
print_list before print [] = ""
print_list before print (x ∷ xs) = before ++ comma_separated print (x ∷ xs)

abbrev pub join_words : JoinType → String
join_words JoinType.inner = " INNER JOIN "
join_words JoinType.left = " LEFT JOIN "
join_words JoinType.right = " RIGHT JOIN "
join_words JoinType.cross = " CROSS JOIN "

abbrev pub print_table : TableRef → String
print_table t = t.table_name ++ print_option " " (λ a. a) t.alias

abbrev pub direction_word : Bool → String
direction_word true = " ASC"
direction_word false = " DESC"

module _ (write_double : Double → String) where
  unfoldable pub print_item : SelectItem → String
  unfolding print_expr
  print_item any_column = "*"
  print_item (qualified_wildcard t) = t ++ ".*"
  print_item (expression e alias) = print_expr write_double e ++ print_option " AS " (λ a. a) alias

  unfoldable pub print_joins : List Join → String
  unfolding print_expr
  print_joins [] = ""
  print_joins (j ∷ js) =
      join_words j.join_type
      ++ (print_table j.table
          ++ (" ON " ++ (print_expr write_double j.condition ++ print_joins js)))

  unfoldable pub print_order_by : OrderByItem → String
  unfolding print_expr
  print_order_by i = print_expr write_double i.sort_key ++ direction_word i.ascending

  unfoldable pub print_statement : SelectStatement → String
  unfolding print_item print_joins print_expr print_order_by print_list comma_separated
      int_to_string
  print_statement s =
      "SELECT "
      ++ (comma_separated (print_item) s.columns
          ++ (" FROM "
              ++ (print_table s.from
                  ++ (print_joins s.joins
                      ++ (print_option " WHERE " (print_expr write_double) s.where_clause
                          ++ (print_list " GROUP BY " (print_expr write_double) s.group_by
                              ++ (print_option " HAVING " (print_expr write_double) s.having
                                  ++ (print_list " ORDER BY " print_order_by s.order_by
                                      ++ print_option " LIMIT " (λ n. int_to_string (pos n))
                                          s.limit))))))))
