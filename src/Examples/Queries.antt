-- ===== src/Examples/Queries.antt =====
-- The lexer on the text of queries.
use sql_query_optimizer.Prelude.{String, ◌≡◌, refl, none, [], ◌∷◌, inl, inr, arith}
use sql_query_optimizer.Prelude.Int.{pos}
use sql_query_optimizer.Parser.{Token}
use sql_query_optimizer.Parser.Lexer.{LexError, tokenize}
use sql_query_optimizer.Parser.Lexer.Ends.{Ended, tokenize-Ended}

abbrev query_text : String
query_text = "select u.name from users u where id <> 42 and name = 'it'"

query_tokens :
    tokenize (λ _. none) 60 query_text
    ≡ inl (
        Token.select
        ∷ Token.identifier "u"
        ∷ Token.dot
        ∷ Token.identifier "name"
        ∷ Token.from
        ∷ Token.identifier "users"
        ∷ Token.identifier "u"
        ∷ Token.where_
        ∷ Token.identifier "id"
        ∷ Token.neq
        ∷ Token.integer (pos 42)
        ∷ Token.and
        ∷ Token.identifier "name"
        ∷ Token.eq
        ∷ Token.string_lit "it"
        ∷ Token.eof
        ∷ [])
unfolding tokenize
query_tokens = refl

unterminated : tokenize (λ _. none) 20 "where name = 'ann" ≡ inr LexError.unterminated_string
unfolding tokenize
unterminated = refl

tokenize-Ended_example : Ended (tokenize (λ _. none) 60 query_text)
tokenize-Ended_example = tokenize-Ended (λ _. none) 60 query_text (omega arith)
