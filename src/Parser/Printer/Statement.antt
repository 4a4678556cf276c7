-- ===== src/Parser/Printer/Statement.antt =====
-- parser/sql_printer.cpp: the tokens of a printed SELECT, before what follows them, and the statements
-- that parser/parser.cpp reads back.
use sql_query_optimizer.Prelude.{
  ℕ, ◌≡◌, String, Bool, true, false, Option, none, some, List, [], ◌∷◌, ◌++◌, ◌==◌,
}
use sql_query_optimizer.Prelude.Int.{pos}
use sql_query_optimizer.Ast.{
  Expression, column, SelectItem, expression, any_column, qualified_wildcard, TableRef, JoinType,
  Join, OrderByItem, SelectStatement,
}
use sql_query_optimizer.Parser.{Token}
use sql_query_optimizer.Parser.Outcome.{Tokens}
use sql_query_optimizer.Parser.Printer.Tokens.{expr_tokens, ReadsBack}

abbrev pub alias_tokens : Option String → Tokens → Tokens
alias_tokens none rest = rest
alias_tokens (some a) rest = Token.as_ ∷ Token.identifier a ∷ rest

unfoldable pub item_tokens : SelectItem → Tokens → Tokens
item_tokens any_column rest = Token.star ∷ rest
item_tokens (qualified_wildcard t) rest = Token.identifier t ∷ Token.dot ∷ Token.star ∷ rest
item_tokens (expression e alias) rest = expr_tokens e ++ alias_tokens alias rest

abbrev pub list_tokens {ℓ} : {A : Type ℓ} → (A → Tokens → Tokens) → List A → Tokens → Tokens
list_tokens tokens [] rest = rest
list_tokens tokens (x ∷ []) rest = tokens x rest
list_tokens tokens (x ∷ y ∷ xs) rest = tokens x (Token.comma ∷ list_tokens tokens (y ∷ xs) rest)

-- The alias of a table, which is printed without AS.
abbrev pub name_tokens : Option String → Tokens → Tokens
name_tokens none rest = rest
name_tokens (some a) rest = Token.identifier a ∷ rest

abbrev pub table_tokens : TableRef → Tokens → Tokens
table_tokens t rest = Token.identifier t.table_name ∷ name_tokens t.alias rest

abbrev pub join_token : JoinType → Token
join_token JoinType.inner = Token.inner
join_token JoinType.left = Token.left
join_token JoinType.right = Token.right
join_token JoinType.cross = Token.cross

abbrev pub clause_tokens {ℓ} :
    {A : Type ℓ} → Token → (A → Tokens → Tokens) → Option A → Tokens → Tokens
clause_tokens keyword tokens none rest = rest
clause_tokens keyword tokens (some a) rest = keyword ∷ tokens a rest

abbrev pub by_tokens {ℓ} : {A : Type ℓ} → Token → (A → Tokens → Tokens) → List A → Tokens → Tokens
by_tokens keyword tokens [] rest = rest
by_tokens keyword tokens (x ∷ xs) rest = keyword ∷ Token.by ∷ list_tokens tokens (x ∷ xs) rest

abbrev pub condition_tokens : Expression → Tokens → Tokens
condition_tokens e rest = expr_tokens e ++ rest

unfoldable pub join_tokens : List Join → Tokens → Tokens
join_tokens [] rest = rest
join_tokens (j ∷ js) rest =
    join_token j.join_type
    ∷ Token.join
    ∷ table_tokens j.table (Token.on ∷ (expr_tokens j.condition ++ join_tokens js rest))

abbrev pub direction_token : Bool → Token
direction_token true = Token.asc
direction_token false = Token.desc

abbrev pub order_tokens : OrderByItem → Tokens → Tokens
order_tokens i rest = expr_tokens i.sort_key ++ direction_token i.ascending ∷ rest

abbrev pub limit_tokens : ℕ → Tokens → Tokens
limit_tokens n rest = Token.integer (pos n) ∷ rest

-- The clauses after the joins.
abbrev pub tail_tokens : SelectStatement → Tokens → Tokens
tail_tokens s rest = clause_tokens Token.where_ condition_tokens s.where_clause (
    by_tokens Token.group condition_tokens s.group_by (
      clause_tokens Token.having condition_tokens s.having (
        by_tokens Token.order order_tokens s.order_by
          (clause_tokens Token.limit limit_tokens s.limit rest))))

unfoldable pub statement_tokens : SelectStatement → Tokens → Tokens
statement_tokens s rest =
    Token.select
    ∷ list_tokens item_tokens s.columns
        (Token.from ∷ table_tokens s.from (join_tokens s.joins (tail_tokens s rest)))

-- `t.*` as an expression is not read back, since the select list makes a wildcard of it.
abbrev pub IsItem : SelectItem → Type 0
IsItem (expression (column (some t) c) alias) = (c == "*") ≡ false
IsItem (expression e alias) = ReadsBack true e
IsItem _ = Unit

abbrev pub Every {ℓ} : {A : Type ℓ} → (A → Type 0) → List A → Type 0
Every P [] = Unit
Every P (x ∷ xs) = P x × Every P xs

abbrev pub Given {ℓ} : {A : Type ℓ} → (A → Type 0) → Option A → Type 0
Given P none = Unit
Given P (some a) = P a

abbrev pub IsNonEmpty {ℓ} : {A : Type ℓ} → List A → Type 0
IsNonEmpty [] = ⊥
IsNonEmpty (x ∷ xs) = Unit

-- Every expression of the statement is read back, and there is a select list.
pub record StatementReadsBack (s : SelectStatement) : Type 0 where
  pub some_columns : IsNonEmpty s.columns
  pub items : Every IsItem s.columns
  pub conditions : Every (λ j. ReadsBack true j.condition) s.joins
  pub where_reads : Given (ReadsBack true) s.where_clause
  pub groups : Every (ReadsBack true) s.group_by
  pub having_reads : Given (ReadsBack true) s.having
  pub keys : Every (λ i. ReadsBack true i.sort_key) s.order_by
