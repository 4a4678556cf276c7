-- ===== src/Parser/Outcome.antt =====
-- parser/parser.cpp: what a parser returns, and the tokens that are left. A `runtime_error` is
-- `syntax_error`; `out_of_fuel` stands for no behaviour of the code.
use sql_query_optimizer.Prelude.{
  ℕ, ◌<◌, ◌≤◌, ◌≡◌, refl, Bool, true, false, Option, none, some, List, [], ◌∷◌, length,
  if◌then◌else◌, arith,
}
use sql_query_optimizer.Parser.{Token}

abbrev pub Tokens : Type 0
Tokens = List Token

pub data Parsed {ℓ} (A : Type ℓ) : Type ℓ where
  parsed : A → Tokens → Parsed A
  syntax_error out_of_fuel : Parsed A

abbrev pub Parser {ℓ} : Type ℓ → Type ℓ
Parser A = Tokens → Parsed A

infixl 5 ◌>>=◌
abbrev pub ◌>>=◌ {ℓ κ} : {A : Type ℓ} {B : Type κ} → Parsed A → (A × Tokens → Parsed B) → Parsed B
parsed a ts >>= f = f (a, ts)
syntax_error >>= f = syntax_error
out_of_fuel >>= f = out_of_fuel

-- `peek` and `advance`.
abbrev pub peek : Tokens → Token
peek [] = Token.eof
peek (t ∷ ts) = t

abbrev pub advance : Tokens → Tokens
advance [] = []
advance (t ∷ ts) = ts

-- `expect` of a token, by its test.
abbrev pub expect : (Token → Bool) → Parser (Unit {0})
expect is_expected ts = if is_expected (peek ts) then parsed tt (advance ts) else syntax_error

-- The tokens run out of neither fuel, and a result leaves fewer of them than `n`.
abbrev pub Leaves {ℓ} : {A : Type ℓ} → ℕ → Parsed A → Type 0
Leaves n (parsed a ts) = length ts < n
Leaves n syntax_error = Unit
Leaves n out_of_fuel = ⊥

module _ {ℓ κ} {A : Type ℓ} {B : Type κ} where
  pub Leaves-bind :
      (n m : ℕ) (r : Parsed A) (f : A × Tokens → Parsed B)
      → Leaves n r
      → ((a : A) (ts : Tokens) → length ts < n → Leaves m (f (a, ts)))
      → Leaves m (r >>= f)
  Leaves-bind n m (parsed a ts) f h k = k a ts h
  Leaves-bind n m syntax_error f h k = tt
  Leaves-bind n m out_of_fuel f h k = absurd h

module _ {ℓ} {A : Type ℓ} where
  pub Leaves-more : (n m : ℕ) (r : Parsed A) → n ≤ m → Leaves n r → Leaves m r
  Leaves-more n m (parsed a ts) k h = omega arith
  Leaves-more n m syntax_error k h = tt
  Leaves-more n m out_of_fuel k h = absurd h

  pub Leaves-elim {κ} :
      {B : Type κ} (n : ℕ) (o : Option B) (x : Parsed A) (f : B → Parsed A)
      → Leaves n x
      → ((b : B) → Leaves n (f b))
      → Leaves n (elim o [ none ↦ x | some b ↦ f b ])
  Leaves-elim n none x f h k = h
  Leaves-elim n (some b) x f h k = k b

  pub Leaves-if :
      (n : ℕ) (b : Bool) (x y : Parsed A)
      → (b ≡ true → Leaves n x)
      → Leaves n y
      → Leaves n (if b then x else y)
  Leaves-if n true x y h k = h refl
  Leaves-if n false x y h k = k
