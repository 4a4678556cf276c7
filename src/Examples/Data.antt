-- ===== src/Examples/Data.antt =====
-- Two small tables, and doubles read as numbers.
use sql_query_optimizer.Prelude.{
  ℕ, ◌+◌, ◌-◌, ◌*◌, String, Bool, if◌then◌else◌, Option, none, some, List, [], ◌∷◌, eqb, ltb,
}
use sql_query_optimizer.Prelude.Int.{ℤ, pos, negsuc}
use sql_query_optimizer.Ast.{
  BinaryOperator, Literal, integer, str, Expression, column, literal, binary_op, JoinType,
}
use sql_query_optimizer.Plan.{LogicalPlan, scan, filter, join}
use sql_query_optimizer.Storage.{Table, Database}
use sql_query_optimizer.Execution.Result.{Result, ok, ◌>>=◌}
use sql_query_optimizer.Execution.HashJoin.Agree.{bucket}
use sql_query_optimizer.Execution.Values.{Platform}
use sql_query_optimizer.Execution.RowSchema.{RowSchema}
use sql_query_optimizer.Execution.Eval.{Row}
use sql_query_optimizer.Execution.Meaning.{UpperNodes}

abbrev magnitude : ℤ → ℕ
magnitude (pos n) = n
magnitude (negsuc n) = 0

-- An insertion sort, for `std::sort`.
abbrev insert_row : (Row → Row → Result Bool) → Row → List Row → Result (List Row)
insert_row before row [] = ok (row ∷ [])
insert_row before row (r ∷ rs) =
    let rest = insert_row before row rs in
    before row r >>= λ b. if b then ok (row ∷ r ∷ rs) else (rest >>= λ out. ok (r ∷ out))

abbrev sort_rows : (Row → Row → Result Bool) → List Row → Result (List Row)
sort_rows before [] = ok []
sort_rows before (row ∷ rows) = sort_rows before rows >>= insert_row before row

abbrev pub doubles : Platform
doubles = record {
  add = ◌+◌;
  sub = ◌-◌;
  mul = ◌*◌;
  div = λ x y. x;
  negate = λ x. 0;
  of_int = magnitude;
  equal = eqb;
  less = ltb;
  to_string = λ x. "0.0";
  equal_range = bucket;
  sort = sort_rows;
}

abbrev pub upper : UpperNodes
upper = record {
  aggregated = λ g a rel. ok rel;
  projected = λ es rel. ok rel;
  sorted = λ o rel. ok rel;
  limited = λ n rel. ok rel;
}

abbrev pub number : ℕ → Literal
number n = integer (pos n)

abbrev pub user_rows : List Row
user_rows =
    (number 1 ∷ str "ann" ∷ []) ∷ (number 2 ∷ str "bob" ∷ []) ∷ (number 3 ∷ str "eve" ∷ []) ∷ []

abbrev pub users : Table
users = record { column_names = "id" ∷ "name" ∷ []; rows = user_rows }

abbrev pub order_rows : List Row
order_rows = (number 7 ∷ number 1 ∷ []) ∷ (number 8 ∷ number 3 ∷ []) ∷ []

abbrev pub orders : Table
orders = record { column_names = "oid" ∷ "user_id" ∷ []; rows = order_rows }

abbrev pub shop : Database
shop = ("users", users) ∷ ("orders", orders) ∷ []

abbrev pub of_table : String → String → Expression
of_table t c = column (some t) c

abbrev pub equals_expr : Expression → Expression → Expression
equals_expr l r = binary_op l BinaryOperator.eq r

abbrev pub users_orders : LogicalPlan
users_orders =
    join JoinType.inner (equals_expr (of_table "u" "id") (of_table "o" "user_id"))
      (scan "users" (some "u") []) (scan "orders" (some "o") [])

-- WHERE u.name = 'ann' AND o.oid = 7
abbrev pub where_both : Expression
where_both =
    binary_op (equals_expr (of_table "u" "name") (literal (str "ann"))) BinaryOperator.and
      (equals_expr (of_table "o" "oid") (literal (number 7)))

abbrev pub filtered_join : LogicalPlan
filtered_join = filter where_both users_orders

-- Three tables, joined on columns of the given qualifiers.
abbrev pub three_tables : Option String → Option String → LogicalPlan
three_tables a b =
    join JoinType.inner (equals_expr (column b "x") (column b "y"))
      (join JoinType.inner (equals_expr (column a "id") (column a "user_id")) (scan "users" none [])
        (scan "orders" none []))
      (scan "items" none [])

abbrev pub user_schema : RowSchema
user_schema = record {
  entries =
      record { table = some "u"; column = "id" }
      ∷ record { table = some "u"; column = "name" }
      ∷ [];
  agg_entries = [];
}
