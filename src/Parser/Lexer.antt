-- ===== src/Parser/Lexer.antt =====
-- parser/lexer.cpp: the text of a query to tokens. The state of the lexer is the text from `pos_` on.
-- `std::stod` is a parameter.
pub mod Ends
use Prim.Native.Char.{Char, code}
use Prim.Native.String.{◌++◌ as ◌+++◌}
use sql_query_optimizer.Prelude.{
  ℕ, zero, suc, String, Bool, true, false, ◌&&◌, ◌||◌, ◌==◌, Option, none, some, List, [], ◌∷◌, ◌⊎◌,
  inl, inr, eqb, if◌then◌else◌,
}
use sql_query_optimizer.Prelude.Text.{is_space, is_digit, is_alpha, skip_spaces, to_upper}
use sql_query_optimizer.Prelude.Int.{ℤ}
use sql_query_optimizer.Ast.{Double}
use sql_query_optimizer.Execution.Result.{Result, ok, err}
use sql_query_optimizer.Storage.Load.{stoll}
use sql_query_optimizer.Parser.{Token}

pub data LexError : Type 0 where
  expected_equals unterminated_string invalid_float invalid_integer : LexError
  unexpected_character out_of_fuel : LexError

-- A token with the text after it, or an error.
pub data Lexed : Type 0 where
  token : Token → String → Lexed
  fail : LexError → Lexed

abbrev pub code_is : Char → ℕ → Bool
code_is c n = eqb (code c) n

-- The tokens of one character that no longer one starts with.
abbrev pub single : Char → Option Token
single c =
    if code_is c b','
    then some Token.comma
    else if code_is c b'.'
    then some Token.dot
    else if code_is c b'('
    then some Token.lparen
    else if code_is c b')'
    then some Token.rparen
    else if code_is c b'+'
    then some Token.plus
    else if code_is c b'-'
    then some Token.minus
    else if code_is c b'*'
    then some Token.star
    else if code_is c b'/'
    then some Token.slash
    else if code_is c b'='
    then some Token.eq
    else none

abbrev pub after_less : String → Lexed
after_less String.[] = token Token.lt String.[]
after_less (String.◌∷◌ c s) =
    if code_is c b'='
    then token Token.lte s
    else if code_is c b'>'
    then token Token.neq s
    else token Token.lt (String.◌∷◌ c s)

abbrev pub after_greater : String → Lexed
after_greater String.[] = token Token.gt String.[]
after_greater (String.◌∷◌ c s) =
    if code_is c b'=' then token Token.gte s else token Token.gt (String.◌∷◌ c s)

abbrev pub after_bang : String → Lexed
after_bang String.[] = fail LexError.expected_equals
after_bang (String.◌∷◌ c s) =
    if code_is c b'=' then token Token.neq s else fail LexError.expected_equals

abbrev with_lit : Char → Lexed → Lexed
with_lit c (token (Token.string_lit t) rest) = token (Token.string_lit (String.◌∷◌ c t)) rest
with_lit c other = other

-- A string literal after its opening quote.
abbrev pub string_lit : String → Lexed
string_lit String.[] = fail LexError.unterminated_string
string_lit (String.◌∷◌ c s) =
    let rest = string_lit s in
    if code_is c b'\'' then token (Token.string_lit "") s else with_lit c rest

-- The longest start of the text with characters of a class, and the rest.
abbrev pub span : (Char → Bool) → String → String × String
span p String.[] = (String.[], String.[])
span p (String.◌∷◌ c s) =
    let (word, rest) = span p s in
    if p c then (String.◌∷◌ c word, rest) else (String.[], String.◌∷◌ c s)

abbrev pub integer_token : Result ℤ → String → Lexed
integer_token (ok n) rest = token (Token.integer n) rest
integer_token (err e) rest = fail LexError.invalid_integer

abbrev pub float_token : Option Double → String → Lexed
float_token (some x) rest = token (Token.floating x) rest
float_token none rest = fail LexError.invalid_float

abbrev pub starts_with_digit : String → Bool
starts_with_digit String.[] = false
starts_with_digit (String.◌∷◌ c s) = is_digit c

abbrev pub is_word : Char → Bool
is_word c = is_alpha c || is_digit c || code_is c b'_'

abbrev find_keyword : String → List (String × Token) → Option Token
find_keyword upper [] = none
find_keyword upper ((k, t) ∷ rest) = if upper == k then some t else find_keyword upper rest

abbrev keywords : List (String × Token)
keywords =
    ("SELECT", Token.select)
    ∷ ("FROM", Token.from)
    ∷ ("WHERE", Token.where_)
    ∷ ("JOIN", Token.join)
    ∷ ("INNER", Token.inner)
    ∷ ("LEFT", Token.left)
    ∷ ("RIGHT", Token.right)
    ∷ ("CROSS", Token.cross)
    ∷ ("ON", Token.on)
    ∷ ("AND", Token.and)
    ∷ ("OR", Token.or)
    ∷ ("NOT", Token.not)
    ∷ ("AS", Token.as_)
    ∷ ("ORDER", Token.order)
    ∷ ("BY", Token.by)
    ∷ ("GROUP", Token.group)
    ∷ ("LIMIT", Token.limit)
    ∷ ("ASC", Token.asc)
    ∷ ("DESC", Token.desc)
    ∷ ("HAVING", Token.having)
    ∷ ("NULL", Token.null)
    ∷ ("TRUE", Token.true_)
    ∷ ("FALSE", Token.false_)
    ∷ []

-- A word that is no keyword, whatever its case, is an identifier.
abbrev pub word_token : String → Option Token → Token
word_token word (some t) = t
word_token word none = Token.identifier word

module _ (stod : String → Option Double) where
  -- After the digits of a number; a dot and a digit make it a float.
  abbrev pub after_digits : String → String → Lexed
  unfolding stoll
  after_digits num String.[] = integer_token (stoll num) String.[]
  after_digits num (String.◌∷◌ c s) =
      if code_is c b'.' && starts_with_digit s
      then (let (fraction, rest) = span is_digit s in
          float_token (stod (num +++ ("." +++ fraction))) rest)
      else integer_token (stoll num) (String.◌∷◌ c s)

  -- The token at a character that is no token by itself.
  unfoldable pub lex_rest : Char → String → Lexed
  unfolding after_digits to_upper
  lex_rest c s =
      if code_is c b'<'
      then after_less s
      else if code_is c b'>'
      then after_greater s
      else if code_is c b'!'
      then after_bang s
      else if code_is c b'\''
      then string_lit s
      else if is_digit c
      then (let (num, rest) = span is_digit (String.◌∷◌ c s) in after_digits num rest)
      else if is_alpha c || code_is c b'_'
      then (let (word, rest) = span is_word (String.◌∷◌ c s) in
          token (word_token word (find_keyword (to_upper word) keywords)) rest)
      else fail LexError.unexpected_character

  abbrev dispatch : String → Lexed
  unfolding lex_rest
  dispatch String.[] = token Token.eof String.[]
  dispatch (String.◌∷◌ c s) = elim (single c) [ some t ↦ token t s | none ↦ lex_rest c s ]

  unfoldable pub next_token : String → Lexed
  unfolding lex_rest dispatch
  next_token text = dispatch (skip_spaces text)

abbrev pub is_eof : Token → Bool
is_eof Token.eof = true
is_eof _ = false

abbrev pub cons_token : Token → List Token ⊎ LexError → List Token ⊎ LexError
cons_token t (inl ts) = inl (t ∷ ts)
cons_token t (inr e) = inr e

-- The loop up to the end of the text; `fuel` bounds its rounds.
unfoldable pub tokenize : (String → Option Double) → ℕ → String → List Token ⊎ LexError
unfolding next_token
tokenize stod zero text = inr LexError.out_of_fuel
tokenize stod (suc fuel) text = elim (next_token stod text) [
  | fail e ↦ inr e
  | token t rest ↦
      let more = tokenize stod fuel rest in if is_eof t then inl (t ∷ []) else cons_token t more
]
