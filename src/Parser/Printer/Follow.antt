-- ===== src/Parser/Printer/Follow.antt =====
-- parser/parser.cpp: the order of the clauses of a SELECT, and what a keyword cannot go on with.
use sql_query_optimizer.Prelude.{ℕ, ◌<◌, ◌≡◌, refl, false, arith}
use sql_query_optimizer.Parser.{Token}
use sql_query_optimizer.Parser.Expressions.{is_comma}
use sql_query_optimizer.Parser.Statements.{
  is_where, is_group, is_having, is_order, is_limit, starts_join,
}
use sql_query_optimizer.Parser.Printer.Levels.{EndsExpression}
use sql_query_optimizer.Parser.Printer.RoundTrip.{EndsName}

-- The place of a clause that the token starts, from 1; the end of the text is the last.
abbrev pub rank : Token → ℕ
rank Token.join = 1
rank Token.inner = 1
rank Token.left = 1
rank Token.right = 1
rank Token.cross = 1
rank Token.where_ = 2
rank Token.group = 3
rank Token.having = 4
rank Token.order = 5
rank Token.limit = 6
rank Token.eof = 7
rank _ = 0

abbrev pub NoAlias : Token → Type 0
NoAlias Token.as_ = ⊥
NoAlias (Token.identifier s) = ⊥
NoAlias _ = Unit

-- Nothing before the token goes on with it.
abbrev pub EndsItem : Token → Type 0
EndsItem t = EndsName t × EndsExpression t × NoAlias t

pub rank-EndsItem : (t : Token) → 0 < rank t → EndsItem t
rank-EndsItem Token.join h = (tt, ((refl, refl, refl), refl, refl), tt)
rank-EndsItem Token.inner h = (tt, ((refl, refl, refl), refl, refl), tt)
rank-EndsItem Token.left h = (tt, ((refl, refl, refl), refl, refl), tt)
rank-EndsItem Token.right h = (tt, ((refl, refl, refl), refl, refl), tt)
rank-EndsItem Token.cross h = (tt, ((refl, refl, refl), refl, refl), tt)
rank-EndsItem Token.where_ h = (tt, ((refl, refl, refl), refl, refl), tt)
rank-EndsItem Token.group h = (tt, ((refl, refl, refl), refl, refl), tt)
rank-EndsItem Token.having h = (tt, ((refl, refl, refl), refl, refl), tt)
rank-EndsItem Token.order h = (tt, ((refl, refl, refl), refl, refl), tt)
rank-EndsItem Token.limit h = (tt, ((refl, refl, refl), refl, refl), tt)
rank-EndsItem Token.eof h = (tt, ((refl, refl, refl), refl, refl), tt)
rank-EndsItem _ h = absurd omega arith

pub rank-is_comma : (t : Token) → 0 < rank t → is_comma t ≡ false
rank-is_comma Token.comma h = absurd omega arith
rank-is_comma _ h = refl

-- A later clause is not an earlier one.
pub rank-starts_join : (t : Token) → 1 < rank t → starts_join t ≡ false
rank-starts_join Token.join h = absurd omega arith
rank-starts_join Token.inner h = absurd omega arith
rank-starts_join Token.left h = absurd omega arith
rank-starts_join Token.right h = absurd omega arith
rank-starts_join Token.cross h = absurd omega arith
rank-starts_join _ h = refl

pub rank-is_where : (t : Token) → 2 < rank t → is_where t ≡ false
rank-is_where Token.where_ h = absurd omega arith
rank-is_where _ h = refl

pub rank-is_group : (t : Token) → 3 < rank t → is_group t ≡ false
rank-is_group Token.group h = absurd omega arith
rank-is_group _ h = refl

pub rank-is_having : (t : Token) → 4 < rank t → is_having t ≡ false
rank-is_having Token.having h = absurd omega arith
rank-is_having _ h = refl

pub rank-is_order : (t : Token) → 5 < rank t → is_order t ≡ false
rank-is_order Token.order h = absurd omega arith
rank-is_order _ h = refl

pub rank-is_limit : (t : Token) → 6 < rank t → is_limit t ≡ false
rank-is_limit Token.limit h = absurd omega arith
rank-is_limit _ h = refl
