-- ===== src/Ast.antt =====
-- parser/ast.hpp: expressions, select lists, joins and the SELECT statement.
-- A `double` is its bit pattern, a number; the operations on doubles are a parameter of the code
-- that computes with them (Execution/Values.antt). `std::string` is a text.
use sql_query_optimizer.Prelude.{ℕ, String, Bool, Option, List}
use sql_query_optimizer.Prelude.Int.{ℤ}

pub data BinaryOperator : Type 0 where
  eq neq lt gt lte gte and or add sub mul div : BinaryOperator

pub data UnaryOperator : Type 0 where
  negation neg : UnaryOperator

abbrev pub Double : Type 0
Double = ℕ

pub data Literal : Type 0 where
  integer : ℤ → Literal
  floating : Double → Literal
  str : String → Literal
  boolean : Bool → Literal
  null : Literal

-- `args` is a list of expressions inside an expression, so the lists stand in the block.
mutual
  pub data Expression : Type 0 where
    column : Option String → String → Expression
    literal : Literal → Expression
    binary_op : Expression → BinaryOperator → Expression → Expression
    unary_op : UnaryOperator → Expression → Expression
    function : String → Expressions → Expression
    wildcard : Expression

  pub data Expressions : Type 0 where
    nil : Expressions
    cons : Expression → Expressions → Expressions

pub data SelectItem : Type 0 where
  expression : Expression → Option String → SelectItem
  any_column : SelectItem
  qualified_wildcard : String → SelectItem

pub record TableRef : Type 0 where
  pub table_name : String
  pub alias : Option String

pub data JoinType : Type 0 where
  inner left right cross : JoinType

pub record Join : Type 0 where
  pub join_type : JoinType
  pub table : TableRef
  pub condition : Expression

pub record OrderByItem : Type 0 where
  pub sort_key : Expression
  pub ascending : Bool

pub record SelectStatement : Type 0 where
  pub columns : List SelectItem
  pub from : TableRef
  pub joins : List Join
  pub where_clause : Option Expression
  pub group_by : List Expression
  pub having : Option Expression
  pub order_by : List OrderByItem
  pub limit : Option ℕ
