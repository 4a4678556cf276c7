-- ===== src/Prelude/Text.antt =====
-- `std::toupper` over a text, in the "C" locale, `std::to_string` of an `int64_t`, and
-- the character classes.
use Prim.Native.Char.{Char, code}
use Prim.Native.Nat.{ℕ, zero, suc, ◌+◌, ◌/◌, ◌%◌}
use Prim.Native.String.{String, ◌++◌, char_at}
use sql_query_optimizer.Prelude.Tests.{eqb, ltb, leb, if◌then◌else◌}
use mathlib.Core.Bool.{Bool, ◌||◌, ◌&&◌}
use sql_query_optimizer.Prelude.Int.{ℤ, pos, negsuc}

-- The character of `to` that stands where `c` stands in `from`, or `c` itself.
abbrev translate : Char → String → String → Char
translate c String.[] _ = c
translate c (String.◌∷◌ f from) String.[] = c
translate c (String.◌∷◌ f from) (String.◌∷◌ t to) =
    if eqb (code f) (code c) then t else translate c from to

unfoldable pub to_upper : String → String
to_upper String.[] = String.[]
to_upper (String.◌∷◌ c s) =
    String.◌∷◌ (translate c "abcdefghijklmnopqrstuvwxyz" "ABCDEFGHIJKLMNOPQRSTUVWXYZ") (to_upper s)

abbrev digit : ℕ → String
digit n = String.◌∷◌ (char_at "0123456789" n) String.[]

-- The decimal digits; a number below 2 ^ 64 has at most 20.
abbrev decimal : ℕ → ℕ → String
decimal zero n = ""
decimal (suc fuel) n =
    let rest = decimal fuel (n / 10) in if ltb n 10 then digit n else rest ++ digit (n % 10)

unfoldable pub int_to_string : ℤ → String
int_to_string (pos n) = decimal 20 n
int_to_string (negsuc n) = "-" ++ decimal 20 (n + 1)

abbrev pub is_space : Char → Bool
is_space c = eqb (code c) b' ' || (leb 9 (code c) && leb (code c) 13)

abbrev pub is_digit : Char → Bool
is_digit c = leb b'0' (code c) && leb (code c) b'9'

abbrev pub skip_spaces : String → String
skip_spaces String.[] = String.[]
skip_spaces (String.◌∷◌ c s) =
    let rest = skip_spaces s in if is_space c then rest else String.◌∷◌ c s

abbrev pub is_alpha : Char → Bool
is_alpha c = leb b'A' (code c) && leb (code c) b'Z' || leb b'a' (code c) && leb (code c) b'z'

abbrev pub text_length : String → ℕ
text_length String.[] = 0
text_length (String.◌∷◌ c s) = suc (text_length s)
