-- ===== src/Parser.antt =====
-- parser/token.hpp: the tokens. A token's kind and value are one constructor.
pub mod Lexer
pub mod Outcome
pub mod Expressions
pub mod Statements
pub mod Printer
use sql_query_optimizer.Prelude.{String}
use sql_query_optimizer.Prelude.Int.{ℤ}
use sql_query_optimizer.Ast.{Double}

pub data Token : Type 0 where
  select from where_ join inner left right cross on : Token
  and or not as_ order by group limit asc desc having : Token
  null true_ false_ : Token
  identifier : String → Token
  integer : ℤ → Token
  floating : Double → Token
  string_lit : String → Token
  eq neq lt gt lte gte plus minus star slash : Token
  comma dot lparen rparen : Token
  eof : Token
