-- ===== src/Parser/Lexer/Ends.antt =====
-- The lexer reads on at every token, and ends.
use Prim.Native.Char.{Char}
use sql_query_optimizer.Prelude.{
  ℕ, zero, suc, ◌≤◌, ◌<◌, String, Bool, true, false, ◌&&◌, ◌||◌, ◌≡◌, refl, Option, none, some,
  List, [], ◌∷◌, ◌⊎◌, inl, inr, arith, Bool-cases, if◌then◌else◌,
}
use sql_query_optimizer.Prelude.Text.{is_space, is_digit, is_alpha, skip_spaces, text_length}
use sql_query_optimizer.Prelude.Int.{ℤ}
use sql_query_optimizer.Ast.{Double}
use sql_query_optimizer.Execution.Result.{Result, ok, err}
use sql_query_optimizer.Parser.{Token}
use sql_query_optimizer.Parser.Lexer.{
  LexError, Lexed, token, fail, single, code_is, after_less, after_greater, after_bang, string_lit,
  with_lit, span, integer_token, float_token, starts_with_digit, is_word, after_digits, lex_rest,
  dispatch, next_token, is_eof, cons_token, tokenize,
}
use sql_query_optimizer.Storage.Load.{stoll}

abbrev pub ran_out : LexError → Bool
ran_out LexError.out_of_fuel = true
ran_out _ = false

-- A token is followed by at most `n` characters; an error is not the fuel's.
abbrev Within : ℕ → Lexed → Type 0
Within n (token t rest) = text_length rest ≤ n
Within n (fail e) = ran_out e ≡ false

skip_spaces-length : (s : String) → text_length (skip_spaces s) ≤ text_length s
skip_spaces-length String.[] = omega arith
skip_spaces-length (String.◌∷◌ c s) = elim (Bool-cases (is_space c)) [
  | inl e ↦ rw e (omega (arith, skip_spaces-length s))
  | inr e ↦ rw e (omega arith)
]

span-length : (p : Char → Bool) (s : String) → text_length (span p s).1 ≤ text_length s
span-length p String.[] = omega arith
span-length p (String.◌∷◌ c s) = elim (Bool-cases (p c)) [
  | inl e ↦ rw e (omega (arith, span-length p s))
  | inr e ↦ rw e (omega arith)
]

-- A span that starts with a character of the class takes it.
span-shorter :
    (p : Char → Bool) (c : Char) (s : String)
    → p c ≡ true
    → text_length (span p (String.◌∷◌ c s)).1 ≤ text_length s
span-shorter p c s e = rw e (span-length p s)

if-Within :
    (n : ℕ) (b : Bool) (x y : Lexed) → Within n x → Within n y → Within n (if b then x else y)
if-Within n true x y h k = h
if-Within n false x y h k = k

if-Within_tested :
    (n : ℕ) (b : Bool) (x y : Lexed)
    → (b ≡ true → Within n x)
    → Within n y
    → Within n (if b then x else y)
if-Within_tested n true x y h k = h refl
if-Within_tested n false x y h k = k

word_start : (a b c : Bool) → (a || c) ≡ true → (a || b || c) ≡ true
word_start true b c e = refl
word_start false true c e = refl
word_start false false c e = e

integer_token-Within :
    (n : ℕ) (r : Result ℤ) (rest : String) → text_length rest ≤ n → Within n (integer_token r rest)
integer_token-Within n (ok m) rest h = h
integer_token-Within n (err e) rest h = refl

float_token-Within :
    (n : ℕ) (o : Option Double) (rest : String)
    → text_length rest ≤ n
    → Within n (float_token o rest)
float_token-Within n (some x) rest h = h
float_token-Within n none rest h = refl

after_less-Within : (s : String) → Within (text_length s) (after_less s)
after_less-Within String.[] = omega arith
after_less-Within (String.◌∷◌ c s) =
    if-Within (suc (text_length s)) (code_is c b'=') _ _ (omega arith)
      (if-Within (suc (text_length s)) (code_is c b'>') _ _ (omega arith) (omega arith))

after_greater-Within : (s : String) → Within (text_length s) (after_greater s)
after_greater-Within String.[] = omega arith
after_greater-Within (String.◌∷◌ c s) =
    if-Within (suc (text_length s)) (code_is c b'=') _ _ (omega arith) (omega arith)

after_bang-Within : (s : String) → Within (text_length s) (after_bang s)
after_bang-Within String.[] = refl
after_bang-Within (String.◌∷◌ c s) =
    if-Within (suc (text_length s)) (code_is c b'=') _ _ (omega arith) refl

-- The tokens that `with_lit` passes on are followed by the same text.
with_lit-Within : (n : ℕ) (c : Char) (x : Lexed) → Within n x → Within n (with_lit c x)
with_lit-Within n c (token (Token.string_lit t) rest) h = h
with_lit-Within n c (token _ rest) h = h
with_lit-Within n c (fail e) h = h

Within-more : (n : ℕ) (x : Lexed) → Within n x → Within (suc n) x
Within-more n (token t rest) h = omega arith
Within-more n (fail e) h = h

string_lit-Within : (s : String) → Within (text_length s) (string_lit s)
string_lit-Within String.[] = refl
string_lit-Within (String.◌∷◌ c s) =
    if-Within (suc (text_length s)) (code_is c b'\'') _ _ (omega arith) (
      with_lit-Within (suc (text_length s)) c (string_lit s)
        (Within-more (text_length s) (string_lit s) (string_lit-Within s)))

-- One end of input, and that last; or an error, but not for want of fuel.
abbrev pub EndsOnce : List Token → Type 0
EndsOnce [] = ⊥
EndsOnce (t ∷ []) = is_eof t ≡ true
EndsOnce (t ∷ ts) = (is_eof t ≡ false) × EndsOnce ts

abbrev pub Ended : List Token ⊎ LexError → Type 0
Ended (inl ts) = EndsOnce ts
Ended (inr e) = ran_out e ≡ false

Ended-cons :
    (t : Token) (r : List Token ⊎ LexError) → is_eof t ≡ false → Ended r → Ended (cons_token t r)
Ended-cons t (inl []) e h = absurd h
Ended-cons t (inl (u ∷ ts)) e h = (e, h)
Ended-cons t (inr x) e h = h

module _ (stod : String → Option Double) where
  after_digits-Within :
      (n : ℕ) (num s : String) → text_length s ≤ n → Within n (after_digits stod num s)
  unfolding after_digits
  after_digits-Within n num String.[] h = integer_token-Within n (stoll num) String.[] h
  after_digits-Within n num (String.◌∷◌ c s) h =
      if-Within n (code_is c b'.' && starts_with_digit s) _ _
        (float_token-Within n _ (span is_digit s).1 (omega (arith, span-length is_digit s)))
        (integer_token-Within n (stoll num) (String.◌∷◌ c s) h)

  lex_rest-Within : (c : Char) (s : String) → Within (text_length s) (lex_rest stod c s)
  unfolding lex_rest
  lex_rest-Within c s =
      let n = text_length s in
      if-Within n (code_is c b'<') _ _ (after_less-Within s) (
        if-Within n (code_is c b'>') _ _ (after_greater-Within s) (
          if-Within n (code_is c b'!') _ _ (after_bang-Within s) (
            if-Within n (code_is c b'\'') _ _ (string_lit-Within s) (
              if-Within_tested n (is_digit c) _ _
                (λ e.
                  after_digits-Within n (span is_digit (String.◌∷◌ c s)).0
                    (span is_digit (String.◌∷◌ c s)).1 (span-shorter is_digit c s e))
                (if-Within_tested n (is_alpha c || code_is c b'_') _ _
                  (λ e.
                    span-shorter is_word c s
                      (word_start (is_alpha c) (is_digit c) (code_is c b'_') e))
                  refl)))))

  dispatch-Within :
      (c : Char) (s : String) (o : Option Token)
      → Within (text_length s) (elim o [ some t ↦ token t s | none ↦ lex_rest stod c s ])
  dispatch-Within c s (some t) = omega arith
  dispatch-Within c s none = lex_rest-Within c s

  -- A token other than the end is followed by less text.
  abbrev Shorter : ℕ → Lexed → Type 0
  Shorter n (token t rest) = (is_eof t ≡ true) ⊎ (text_length rest < n)
  Shorter n (fail e) = ran_out e ≡ false

  Within-Shorter : (n m : ℕ) (x : Lexed) → Within n x → n < m → Shorter m x
  Within-Shorter n m (token t rest) h k = inr (omega arith)
  Within-Shorter n m (fail e) h k = h

  dispatch-Shorter : (s : String) (m : ℕ) → text_length s ≤ m → Shorter m (dispatch stod s)
  unfolding dispatch
  dispatch-Shorter String.[] m h = inl refl
  dispatch-Shorter (String.◌∷◌ c s) m h =
      Within-Shorter (text_length s) m _ (dispatch-Within c s (single c)) (omega arith)

  next_token-Shorter : (s : String) → Shorter (text_length s) (next_token stod s)
  unfolding next_token
  next_token-Shorter s = dispatch-Shorter (skip_spaces s) (text_length s) (skip_spaces-length s)

  -- With more rounds than the text has characters the lexer comes to an end: it gives tokens of which
  -- the last, and no other, is the end of input, or an error of the text.
  pub tokenize-Ended :
      (fuel : ℕ) (text : String) → text_length text < fuel → Ended (tokenize stod fuel text)
  unfolding tokenize
  tokenize-Ended zero text h = absurd (omega arith)
  tokenize-Ended (suc fuel) text h =
      at_token (next_token stod text) (next_token-Shorter text) (tokenize-Ended fuel)
    where
      at_token :
          (x : Lexed)
          → Shorter (text_length text) x
          → ((rest : String) → text_length rest < fuel → Ended (tokenize stod fuel rest))
          → Ended (elim x [
            | fail e ↦ inr e
            | token t rest ↦
                let more = tokenize stod fuel rest in
                if is_eof t then inl (t ∷ []) else cons_token t more
          ])
      at_token (fail e) s again = s
      at_token (token t rest) (inl f) again = rw f f
      at_token (token t rest) (inr k) again = elim (Bool-cases (is_eof t)) [
        | inl e ↦ rw e e
        | inr e ↦ rw e (Ended-cons t (tokenize stod fuel rest) e (again rest (omega arith)))
      ]
