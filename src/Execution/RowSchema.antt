-- ===== src/Execution/RowSchema.antt =====
-- execution/row_schema.hpp and row_schema.cpp: resolution of column and aggregate references.
use sql_query_optimizer.Prelude.{
  ℕ, ◌+◌, String, Bool, true, false, not, ◌&&◌, ◌==◌, Option, none, some, List, [], ◌∷◌, ◌++◌,
  value_or, length, eqb, if◌then◌else◌,
}
use sql_query_optimizer.Prelude.Int.{eqb_ℤ}
use sql_query_optimizer.Prelude.Text.{to_upper}
use sql_query_optimizer.Ast.{
  BinaryOperator, UnaryOperator, Literal, integer, floating, str, boolean, null, Expression,
  Expressions, column, literal, binary_op, unary_op, function, wildcard, nil, cons,
}

pub record Entry : Type 0 where
  pub table : Option String
  pub column : String

pub record AggEntry : Type 0 where
  pub func : String
  pub arg : Expression
  pub idx : ℕ

pub record RowSchema : Type 0 where
  pub entries : List Entry
  pub agg_entries : List AggEntry

abbrev pub empty_schema : RowSchema
empty_schema = record { entries = []; agg_entries = [] }

abbrev pub same_option : Option String → Option String → Bool
same_option none none = true
same_option (some s) (some t) = s == t
same_option _ _ = false

abbrev same_flag : Bool → Bool → Bool
same_flag true b = b
same_flag false b = not b

-- The place of an operator in its `enum`, by which C++ compares it.
abbrev binary_index : BinaryOperator → ℕ
binary_index BinaryOperator.eq = 0
binary_index BinaryOperator.neq = 1
binary_index BinaryOperator.lt = 2
binary_index BinaryOperator.gt = 3
binary_index BinaryOperator.lte = 4
binary_index BinaryOperator.gte = 5
binary_index BinaryOperator.and = 6
binary_index BinaryOperator.or = 7
binary_index BinaryOperator.add = 8
binary_index BinaryOperator.sub = 9
binary_index BinaryOperator.mul = 10
binary_index BinaryOperator.div = 11

abbrev same_unary : UnaryOperator → UnaryOperator → Bool
same_unary UnaryOperator.negation UnaryOperator.negation = true
same_unary UnaryOperator.neg UnaryOperator.neg = true
same_unary _ _ = false

-- `float_equal` is `==` on doubles.
module _ (float_equal : ℕ → ℕ → Bool) where
  unfoldable pub literal_equal_structural : Literal → Literal → Bool
  literal_equal_structural (integer a) (integer b) = eqb_ℤ a b
  literal_equal_structural (floating a) (floating b) = float_equal a b
  literal_equal_structural (str a) (str b) = a == b
  literal_equal_structural (boolean a) (boolean b) = same_flag a b
  literal_equal_structural null null = true
  literal_equal_structural _ _ = false

  unfoldable mutual
    pub expr_equal_structural : Expression → Expression → Bool
    expr_equal_structural (column t c) (column t' c') = same_option t t' && c == c'
    expr_equal_structural (literal v) (literal v') = literal_equal_structural v v'
    expr_equal_structural (binary_op l op r) (binary_op l' op' r') =
        eqb (binary_index op) (binary_index op')
        && expr_equal_structural l l'
        && expr_equal_structural r r'
    expr_equal_structural (unary_op op e) (unary_op op' e') =
        same_unary op op' && expr_equal_structural e e'
    expr_equal_structural (function f es) (function f' es') =
        f == f' && args_equal_structural es es'
    expr_equal_structural wildcard wildcard = true
    expr_equal_structural _ _ = false

    pub args_equal_structural : Expressions → Expressions → Bool
    args_equal_structural nil nil = true
    args_equal_structural (cons e es) (cons e' es') =
        expr_equal_structural e e' && args_equal_structural es es'
    args_equal_structural _ _ = false

  abbrev find_aggregate : String → Expression → List AggEntry → Option ℕ
  unfolding expr_equal_structural
  find_aggregate func arg [] = none
  find_aggregate func arg (e ∷ es) =
      if e.func == func && expr_equal_structural e.arg arg
      then some e.idx
      else find_aggregate func arg es

  unfoldable pub resolve_aggregate : RowSchema → String → Expression → Option ℕ
  unfolding expr_equal_structural to_upper
  resolve_aggregate s func arg = find_aggregate (to_upper func) arg s.agg_entries

unfoldable pub add : Option String → String → RowSchema → RowSchema
add table name s = record s { entries = s.entries ++ record { table = table; column = name } ∷ [] }

unfoldable pub register_aggregate : String → Expression → ℕ → RowSchema → RowSchema
unfolding to_upper
register_aggregate func arg idx s = record s {
  agg_entries = s.agg_entries ++ record { func = to_upper func; arg = arg; idx = idx } ∷ [];
}

unfoldable pub extend : RowSchema → RowSchema → RowSchema
extend s other = record {
  entries = s.entries ++ other.entries;
  agg_entries = s.agg_entries ++ other.agg_entries;
}

unfoldable pub size : RowSchema → ℕ
size s = length s.entries

-- The loop of a qualified reference, from index `i` on.
unfoldable pub find_qualified : String → String → List Entry → ℕ → Option ℕ
find_qualified table name [] i = none
find_qualified table name (e ∷ es) i =
    if e.column == name && value_or e.table "" == table
    then some i
    else find_qualified table name es (i + 1)

-- What the loop of an unqualified reference does at an entry of that name.
abbrev at_match : Option ℕ → Option ℕ → Option ℕ
at_match none rest = rest
at_match (some _) rest = none

-- The loop of an unqualified reference, with what was found before index `i`.
unfoldable pub find_unqualified : String → List Entry → ℕ → Option ℕ → Option ℕ
find_unqualified name [] i found = found
find_unqualified name (e ∷ es) i found =
    if e.column == name
    then at_match found (find_unqualified name es (i + 1) (some i))
    else find_unqualified name es (i + 1) found

unfoldable pub resolve : RowSchema → Option String → String → Option ℕ
unfolding find_qualified find_unqualified
resolve s (some table) name = find_qualified table name s.entries 0
resolve s none name = find_unqualified name s.entries 0 none
