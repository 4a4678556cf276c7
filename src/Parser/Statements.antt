-- ===== src/Parser/Statements.antt =====
-- parser/parser.cpp: the SELECT statement, with the select list, the joins and the other lists. The
-- fuel of `parse_statement` bounds the nesting of expressions and the length of every list.
pub mod Ends
use sql_query_optimizer.Prelude.{
  ℕ, zero, suc, ◌+◌, ◌-◌, ◌^◌, String, Bool, true, false, Option, none, some, List, [], ◌∷◌, length,
  ◌==◌, if◌then◌else◌,
}
use sql_query_optimizer.Prelude.Int.{ℤ, pos, negsuc}
use sql_query_optimizer.Ast.{
  Expression, column, SelectItem, expression, any_column, qualified_wildcard, TableRef, JoinType,
  Join, OrderByItem, SelectStatement,
}
use sql_query_optimizer.Parser.{Token}
use sql_query_optimizer.Parser.Outcome.{
  Parsed, parsed, syntax_error, out_of_fuel, Parser, ◌>>=◌, peek, advance, expect,
}
use sql_query_optimizer.Parser.Expressions.{is_comma, parse_expr}

abbrev pub is_from : Token → Bool
is_from Token.from = true
is_from _ = false

abbrev pub is_join : Token → Bool
is_join Token.join = true
is_join _ = false

abbrev pub is_on : Token → Bool
is_on Token.on = true
is_on _ = false

abbrev pub is_by : Token → Bool
is_by Token.by = true
is_by _ = false

abbrev pub is_where : Token → Bool
is_where Token.where_ = true
is_where _ = false

abbrev pub is_group : Token → Bool
is_group Token.group = true
is_group _ = false

abbrev pub is_having : Token → Bool
is_having Token.having = true
is_having _ = false

abbrev pub is_order : Token → Bool
is_order Token.order = true
is_order _ = false

abbrev pub is_limit : Token → Bool
is_limit Token.limit = true
is_limit _ = false

abbrev pub starts_join : Token → Bool
starts_join Token.join = true
starts_join Token.inner = true
starts_join Token.left = true
starts_join Token.right = true
starts_join Token.cross = true
starts_join _ = false

abbrev pub parse_identifier : Parser String
parse_identifier (Token.identifier s ∷ ts) = parsed s ts
parse_identifier _ = syntax_error

-- `AS name`, `name` or nothing.
unfoldable pub parse_alias : Parser (Option String)
parse_alias (Token.as_ ∷ ts) = do (s, rest) ← parse_identifier ts; parsed (some s) rest
parse_alias (Token.identifier s ∷ ts) = parsed (some s) ts
parse_alias ts = parsed none ts

-- Items separated by commas.
unfoldable pub comma_list {ℓ} : {A : Type ℓ} → Parser A → ℕ → Parser (List A)
comma_list item zero ts = out_of_fuel
comma_list item (suc k) ts = item ts >>= λ r.
    let more = comma_list item k (advance r.1) >>= λ rs. parsed (r.0 ∷ rs.0) rs.1 in
    if is_comma (peek r.1) then more else parsed (r.0 ∷ []) r.1

-- What the select list makes of an expression: `t.*` becomes a wildcard, anything else may have an
-- alias.
unfoldable pub select_item : Expression → Parser SelectItem
unfolding parse_alias
select_item (column (some t) c) ts =
    let aliased = parse_alias ts >>= λ r. parsed (expression (column (some t) c) r.0) r.1 in
    if c == "*" then parsed (qualified_wildcard t) ts else aliased
select_item e ts = parse_alias ts >>= λ r. parsed (expression e r.0) r.1

unfoldable pub parse_select_item : ℕ → Parser SelectItem
unfolding select_item parse_expr
parse_select_item f (Token.star ∷ ts) = parsed any_column ts
parse_select_item f ts = parse_expr f ts >>= λ r. select_item r.0 r.1

unfoldable pub parse_select_list : ℕ → Parser (List SelectItem)
unfolding parse_select_item comma_list
parse_select_list f = comma_list (parse_select_item f) f

unfoldable pub parse_table_ref : Parser TableRef
unfolding parse_alias
parse_table_ref ts = do
  (name, rest) ← parse_identifier ts
  (alias, rest') ← parse_alias rest
  parsed (record { table_name = name; alias = alias }) rest'

unfoldable pub parse_join_type : Parser JoinType
parse_join_type (Token.join ∷ ts) = parsed JoinType.inner ts
parse_join_type (Token.inner ∷ ts) = expect is_join ts >>= λ r. parsed JoinType.inner r.1
parse_join_type (Token.left ∷ ts) = expect is_join ts >>= λ r. parsed JoinType.left r.1
parse_join_type (Token.right ∷ ts) = expect is_join ts >>= λ r. parsed JoinType.right r.1
parse_join_type (Token.cross ∷ ts) = expect is_join ts >>= λ r. parsed JoinType.cross r.1
parse_join_type _ = syntax_error

unfoldable pub parse_join : ℕ → Parser Join
unfolding parse_expr parse_join_type parse_table_ref
parse_join f ts = do
  (type, rest) ← parse_join_type ts
  (table, rest') ← parse_table_ref rest
  (_, rest'') ← expect is_on rest'
  (condition, end) ← parse_expr f rest''
  parsed (record { join_type = type; table = table; condition = condition }) end

-- Zero or more joins.
unfoldable pub parse_joins : ℕ → ℕ → Parser (List Join)
unfolding parse_join
parse_joins f zero ts = out_of_fuel
parse_joins f (suc k) ts =
    let more = parse_join f ts >>= λ r. parse_joins f k r.1 >>= λ rs. parsed (r.0 ∷ rs.0) rs.1 in
    if starts_join (peek ts) then more else parsed [] ts

abbrev pub parse_direction : Parser Bool
parse_direction (Token.asc ∷ ts) = parsed true ts
parse_direction (Token.desc ∷ ts) = parsed false ts
parse_direction ts = parsed true ts

unfoldable pub parse_order_by_item : ℕ → Parser OrderByItem
unfolding parse_expr
parse_order_by_item f ts = do
  (e, rest) ← parse_expr f ts
  (up, rest') ← parse_direction rest
  parsed (record { sort_key = e; ascending = up }) rest'

-- A clause that its keyword starts.
abbrev pub parse_clause {ℓ} : {A : Type ℓ} → (Token → Bool) → Parser A → A → Parser A
parse_clause is_keyword p default ts =
    if is_keyword (peek ts) then p (advance ts) else parsed default ts

abbrev pub parse_some {ℓ} : {A : Type ℓ} → Parser A → Parser (Option A)
parse_some p ts = p ts >>= λ r. parsed (some r.0) r.1

abbrev pub after_by {ℓ} : {A : Type ℓ} → Parser A → Parser A
after_by p ts = expect is_by ts >>= λ r. p r.1

-- `static_cast<size_t>` of an int64.
abbrev pub to_size : ℤ → ℕ
to_size (pos n) = n
to_size (negsuc n) = 2 ^ 64 - (n + 1)

abbrev pub parse_limit : Parser (Option ℕ)
parse_limit (Token.integer n ∷ ts) = parsed (some (to_size n)) ts
parse_limit _ = syntax_error

unfoldable pub parse_select : ℕ → Parser SelectStatement
unfolding parse_select_list parse_table_ref parse_joins parse_expr comma_list parse_order_by_item
parse_select f ts = do
  (columns, ts₁) ← parse_select_list f ts
  (_, ts₂) ← expect is_from ts₁
  (from, ts₃) ← parse_table_ref ts₂
  (joins, ts₄) ← parse_joins f f ts₃
  (where_clause, ts₅) ← parse_clause is_where (parse_some (parse_expr f)) none ts₄
  (group_by, ts₆) ← parse_clause is_group (after_by (comma_list (parse_expr f) f)) [] ts₅
  (having, ts₇) ← parse_clause is_having (parse_some (parse_expr f)) none ts₆
  (order_by, ts₈) ← parse_clause is_order (after_by (comma_list (parse_order_by_item f) f)) [] ts₇
  (limit, ts₉) ← parse_clause is_limit parse_limit none ts₈
  parsed
      (record {
        columns = columns;
        from = from;
        joins = joins;
        where_clause = where_clause;
        group_by = group_by;
        having = having;
        order_by = order_by;
        limit = limit;
      })
      ts₉

unfoldable pub parse_statement : ℕ → Parser SelectStatement
unfolding parse_select
parse_statement f (Token.select ∷ ts) = parse_select f ts
parse_statement f _ = syntax_error

-- `parse`, with the tokens it leaves unread.
unfoldable pub parse : Parser SelectStatement
unfolding parse_statement
parse ts = parse_statement (suc (length ts)) ts
