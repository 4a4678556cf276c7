-- ===== src/Execution/Values.antt =====
-- execution/value_ops.cpp: operations on literals. What the hardware and the C++ library decide is a
-- parameter, the record `Platform`: the operations of `double`, which itself is its bit pattern, with 0
-- that of 0.0; the order in which an `unordered_multimap` gives the entries under one key; and
-- `std::sort`, whose order of equal elements is open and which is undefined for some comparisons.
use Prim.Native.Nat.{Ordering}
use Prim.Native.String.{compare}
use sql_query_optimizer.Prelude.{List, String, Bool, true, false, not, ◌&&◌, ◌==◌, if◌then◌else◌}
use sql_query_optimizer.Prelude.Int.{ℤ, ◌+ℤ◌, ◌-ℤ◌, ◌*ℤ◌, in_int64}
use sql_query_optimizer.Prelude.Text.{int_to_string}
use sql_query_optimizer.Ast.{Double, Literal, integer, floating, str, boolean, null}
use sql_query_optimizer.Execution.Result.{
  Result, ok, err, ◌>>=◌, not_boolean, not_numeric, not_comparable, undefined,
}

pub record Platform : Type 0 where
  pub add : Double → Double → Double
  pub sub : Double → Double → Double
  pub mul : Double → Double → Double
  pub div : Double → Double → Double
  pub negate : Double → Double
  pub of_int : ℤ → Double
  pub equal : Double → Double → Bool
  pub less : Double → Double → Bool
  pub to_string : Double → String
  pub equal_range : List (String × List Literal) → String → List (List Literal)
  pub sort :
      (List Literal → List Literal → Result Bool)
      → List (List Literal)
      → Result (List (List Literal))

unfoldable pub literal_is_null : Literal → Bool
literal_is_null null = true
literal_is_null _ = false

unfoldable pub literal_truthy : Literal → Result Bool
literal_truthy (boolean b) = ok b
literal_truthy _ = err not_boolean

unfoldable pub is_numeric : Literal → Bool
is_numeric (integer _) = true
is_numeric (floating _) = true
is_numeric _ = false

-- The order of `std::string`, byte by byte.
abbrev text_less : String → String → Bool
text_less s t = elim (compare s t) [ Ordering.lt ↦ true | _ ↦ false ]

abbrev same_bool : Bool → Bool → Bool
same_bool true b = b
same_bool false b = not b

-- The result of an `int64_t` operation, if it is in range.
abbrev checked : ℤ → Result Literal
checked n = if in_int64 n then ok (integer n) else err undefined

module _ (d : Platform) where
  unfoldable pub literal_as_double : Literal → Result Double
  literal_as_double (integer n) = ok (d.of_int n)
  literal_as_double (floating x) = ok x
  literal_as_double _ = err not_numeric

  -- The comparisons of the numeric cases, which read both sides as doubles.
  abbrev as_doubles : (Double → Double → Bool) → Literal → Literal → Bool
  as_doubles test (integer a) (integer b) = test (d.of_int a) (d.of_int b)
  as_doubles test (integer a) (floating b) = test (d.of_int a) b
  as_doubles test (floating a) (integer b) = test a (d.of_int b)
  as_doubles test (floating a) (floating b) = test a b
  as_doubles test _ _ = false

  unfoldable pub literal_equal : Literal → Literal → Bool
  unfolding literal_is_null is_numeric
  literal_equal null b = false
  literal_equal a null = false
  literal_equal (str s) (str t) = s == t
  literal_equal (boolean a) (boolean b) = same_bool a b
  literal_equal a b = if is_numeric a && is_numeric b then as_doubles d.equal a b else false

  unfoldable pub literal_less : Literal → Literal → Result Bool
  unfolding is_numeric
  literal_less null b = ok false
  literal_less a null = ok false
  literal_less (str s) (str t) = ok (text_less s t)
  literal_less a b =
      if is_numeric a && is_numeric b then ok (as_doubles d.less a b) else err not_comparable

  -- Int with Int stays Int; all else goes through doubles.
  abbrev arithmetic : (ℤ → ℤ → ℤ) → (Double → Double → Double) → Literal → Literal → Result Literal
  unfolding literal_as_double
  arithmetic on_ints on_doubles (integer a) (integer b) = checked (on_ints a b)
  arithmetic on_ints on_doubles a b = do
    x ← literal_as_double a
    y ← literal_as_double b
    ok (floating (on_doubles x y))

  unfoldable pub literal_add : Literal → Literal → Result Literal
  unfolding literal_as_double
  literal_add = arithmetic ◌+ℤ◌ d.add

  unfoldable pub literal_sub : Literal → Literal → Result Literal
  unfolding literal_as_double
  literal_sub = arithmetic ◌-ℤ◌ d.sub

  unfoldable pub literal_mul : Literal → Literal → Result Literal
  unfolding literal_as_double
  literal_mul = arithmetic ◌*ℤ◌ d.mul

  unfoldable pub literal_div : Literal → Literal → Result Literal
  unfolding literal_as_double
  literal_div a b = do x ← literal_as_double a; y ← literal_as_double b; ok (floating (d.div x y))

  unfoldable pub literal_to_string : Literal → String
  unfolding int_to_string
  literal_to_string (integer n) = int_to_string n
  literal_to_string (floating x) = d.to_string x
  literal_to_string (str s) = s
  literal_to_string (boolean true) = "true"
  literal_to_string (boolean false) = "false"
  literal_to_string null = "<null>"
