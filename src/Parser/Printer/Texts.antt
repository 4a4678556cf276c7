-- ===== src/Parser/Printer/Texts.antt =====
-- parser/sql_printer.cpp: the text of a printed SELECT is made of the texts of its tokens.
use Prim.Native.String.{◌++◌ as joined}
use text.Mathlib.TextLemmas.{append-nil, nil-append, append_assoc}
use mathlib.Core.Path.{subst}
use sql_query_optimizer.Prelude.{sym, String, Bool, true, false, Option, none, some, [], ◌∷◌}
use sql_query_optimizer.Prelude.Int.{pos}
use sql_query_optimizer.Prelude.Text.{int_to_string}
use sql_query_optimizer.Ast.{
  Double, expression, any_column, qualified_wildcard, JoinType, SelectStatement,
}
use sql_query_optimizer.Parser.{Token}
use sql_query_optimizer.Parser.Outcome.{Tokens}
use sql_query_optimizer.Parser.Printer.{
  print_expr, comma_separated, print_option, print_list, join_words, print_table, direction_word,
  print_item, print_joins, print_order_by, print_statement,
}
use sql_query_optimizer.Parser.Printer.Statement.{
  alias_tokens, item_tokens, list_tokens, name_tokens, table_tokens, join_token, clause_tokens,
  by_tokens, condition_tokens, join_tokens, direction_token, order_tokens, limit_tokens,
  statement_tokens,
}
use sql_query_optimizer.Parser.Printer.Spelling.{
  spelling, IsSpelled, finished, spaced, written, both-IsSpelled, print_expr-IsSpelled,
}

module _ (write_double : Double → String) where
  abbrev Spelled : Tokens → String → Type 0
  Spelled = IsSpelled write_double

  regroup :
      {ts : Tokens} (a b c : String)
      → Spelled ts (joined a (joined b c))
      → Spelled ts (joined (joined a b) c)
  regroup {ts} a b c h = subst (Spelled ts) (sym (append_assoc a b c)) h

  nothing : {ts : Tokens} (u : String) → Spelled ts u → Spelled ts (joined "" u)
  nothing {ts} u h = subst (Spelled ts) (sym (nil-append u)) h

  -- What is written before the tokens that follow.
  abbrev Prefixed {ℓ} : {A : Type ℓ} → (A → Tokens → Tokens) → (A → String) → Type ℓ
  Prefixed {A = A} tokens print =
      (x : A) (us : Tokens) (u : String) → Spelled us u → Spelled (tokens x us) (joined (print x) u)

  join_prefix : (t : JoinType) → Spelled (join_token t ∷ Token.join ∷ []) (join_words t)
  unfolding spelling
  join_prefix JoinType.inner =
      spaced (written Token.inner (spaced (written Token.join (spaced finished))))
  join_prefix JoinType.left =
      spaced (written Token.left (spaced (written Token.join (spaced finished))))
  join_prefix JoinType.right =
      spaced (written Token.right (spaced (written Token.join (spaced finished))))
  join_prefix JoinType.cross =
      spaced (written Token.cross (spaced (written Token.join (spaced finished))))

  direction_suffix : (b : Bool) → Spelled (direction_token b ∷ []) (direction_word b)
  unfolding spelling
  direction_suffix true = spaced (written Token.asc finished)
  direction_suffix false = spaced (written Token.desc finished)

  alias-Spelled :
      (a : Option String) (us : Tokens) (u : String)
      → Spelled us u
      → Spelled (alias_tokens a us) (joined (print_option " AS " (λ a. a) a) u)
  unfolding spelling
  alias-Spelled none us u h = nothing u h
  alias-Spelled (some a) us u h = regroup " AS " a u (
      both-IsSpelled write_double (spaced (written Token.as_ (spaced finished)))
        (written (Token.identifier a) h))

  item-Spelled : Prefixed item_tokens (print_item write_double)
  unfolding spelling item_tokens print_item
  item-Spelled any_column us u h = written Token.star h
  item-Spelled (qualified_wildcard t) us u h =
      both-IsSpelled write_double
        (written (Token.identifier t) (written Token.dot (written Token.star finished))) h
  item-Spelled (expression e alias) us u h =
      regroup (print_expr write_double e) (print_option " AS " (λ a. a) alias) u (
        both-IsSpelled write_double (print_expr-IsSpelled write_double e)
          (alias-Spelled alias us u h))

  module _ {ℓ} {A : Type ℓ} (tokens : A → Tokens → Tokens) (print : A → String)
      (step : Prefixed tokens print) where
    list-Spelled : Prefixed (list_tokens tokens) (comma_separated print)
    unfolding comma_separated spelling
    list-Spelled [] us u h = nothing u h
    list-Spelled (x ∷ []) us u h = step x us u h
    list-Spelled (x ∷ y ∷ xs) us u h =
        let rest = comma_separated print (y ∷ xs) in
        regroup (print x) (joined ", " rest) u (
          step x (Token.comma ∷ list_tokens tokens (y ∷ xs) us) (joined (joined ", " rest) u) (
            regroup ", " rest u (
              both-IsSpelled write_double (written Token.comma (spaced finished))
                (list-Spelled (y ∷ xs) us u h))))

    clause-Spelled :
        (keyword : Token) (before : String)
        → Spelled (keyword ∷ []) before
        → Prefixed (clause_tokens keyword tokens) (print_option before print)
    clause-Spelled keyword before k none us u h = nothing u h
    clause-Spelled keyword before k (some a) us u h =
        regroup before (print a) u (both-IsSpelled write_double k (step a us u h))

    by-Spelled :
        (keyword : Token) (before : String)
        → Spelled (keyword ∷ Token.by ∷ []) before
        → Prefixed (by_tokens keyword tokens) (print_list before print)
    unfolding print_list
    by-Spelled keyword before k [] us u h = nothing u h
    by-Spelled keyword before k (x ∷ xs) us u h =
        regroup before (comma_separated print (x ∷ xs)) u
          (both-IsSpelled write_double k (list-Spelled (x ∷ xs) us u h))

  condition-Spelled : Prefixed condition_tokens (print_expr write_double)
  condition-Spelled e us u h = both-IsSpelled write_double (print_expr-IsSpelled write_double e) h

  order-Spelled : Prefixed order_tokens (print_order_by write_double)
  unfolding print_order_by
  order-Spelled i us u h =
      regroup (print_expr write_double i.sort_key) (direction_word i.ascending) u (
        both-IsSpelled write_double (print_expr-IsSpelled write_double i.sort_key)
          (both-IsSpelled write_double (direction_suffix i.ascending) h))

  limit-Spelled : Prefixed limit_tokens (λ n. int_to_string (pos n))
  unfolding spelling int_to_string
  limit-Spelled n us u h = written (Token.integer (pos n)) h

  name-Spelled : Prefixed name_tokens (print_option " " (λ a. a))
  unfolding spelling
  name-Spelled none us u h = nothing u h
  name-Spelled (some a) us u h = regroup " " a u (spaced (written (Token.identifier a) h))

  table-Spelled : Prefixed table_tokens print_table
  unfolding spelling
  table-Spelled t us u h =
      regroup t.table_name (print_option " " (λ a. a) t.alias) u
        (written (Token.identifier t.table_name) (name-Spelled t.alias us u h))

  joins-Spelled : Prefixed join_tokens (print_joins write_double)
  unfolding join_tokens print_joins spelling
  joins-Spelled [] us u h = nothing u h
  joins-Spelled (j ∷ js) us u h =
      let condition = print_expr write_double j.condition in
      let rest = print_joins write_double js in
      regroup (join_words j.join_type) _ u (
        both-IsSpelled write_double (join_prefix j.join_type) (
          regroup (print_table j.table) _ u (
            table-Spelled j.table _ _ (
              regroup " ON " _ u (
                both-IsSpelled write_double (spaced (written Token.on (spaced finished))) (
                  regroup condition rest u (
                    both-IsSpelled write_double (print_expr-IsSpelled write_double j.condition)
                      (joins-Spelled js us u h))))))))

  -- A printed SELECT consists of the texts of its tokens.
  pub print_statement-IsSpelled :
      (s : SelectStatement)
      → IsSpelled write_double (statement_tokens s []) (print_statement write_double s)
  unfolding statement_tokens print_statement spelling
  print_statement-IsSpelled s =
      let print = print_expr write_double in
      let limit =
        subst (Spelled (clause_tokens Token.limit limit_tokens s.limit []))
          (append-nil (print_option " LIMIT " (λ n. int_to_string (pos n)) s.limit))
          (clause-Spelled limit_tokens (λ n. int_to_string (pos n)) limit-Spelled Token.limit
            " LIMIT " (spaced (written Token.limit (spaced finished))) s.limit [] "" finished) in
      let order =
        by-Spelled order_tokens (print_order_by write_double) order-Spelled Token.order " ORDER BY "
          (spaced (written Token.order (spaced (written Token.by (spaced finished))))) s.order_by _
          _ limit in
      let having =
        clause-Spelled condition_tokens print condition-Spelled Token.having " HAVING "
          (spaced (written Token.having (spaced finished))) s.having _ _ order in
      let group =
        by-Spelled condition_tokens print condition-Spelled Token.group " GROUP BY "
          (spaced (written Token.group (spaced (written Token.by (spaced finished))))) s.group_by _
          _ having in
      let where_part =
        clause-Spelled condition_tokens print condition-Spelled Token.where_ " WHERE "
          (spaced (written Token.where_ (spaced finished))) s.where_clause _ _ group in
      both-IsSpelled write_double (written Token.select (spaced finished)) (
        list-Spelled item_tokens (print_item write_double) item-Spelled s.columns _ _ (
          both-IsSpelled write_double (spaced (written Token.from (spaced finished)))
            (table-Spelled s.from _ _ (joins-Spelled s.joins _ _ where_part))))
