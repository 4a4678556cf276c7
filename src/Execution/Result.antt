-- ===== src/Execution/Result.antt =====
-- Code that throws returns a `Result`. The cases are the messages of the `runtime_error`s of
-- execution/, `undefined` for what C++ leaves undefined (signed overflow, an index out of range), and
-- `out_of_fuel` for a loop of the model whose bound was too small.
use sql_query_optimizer.Prelude.{◌≡◌, refl, ap, ◌⊎◌, inl, inr}

pub data Error : Type 0 where
  not_boolean not_numeric not_comparable unresolved_column unresolved_aggregate : Error
  unknown_column wrong_width bad_number : Error
  bare_wildcard no_table no_index_column no_external_rows no_equality no_key_columns
        unknown_aggregate undefined out_of_fuel :
      Error

pub data Result {ℓ} (A : Type ℓ) : Type ℓ where
  ok : A → Result A
  err : Error → Result A

infixl 5 ◌>>=◌
abbrev pub ◌>>=◌ {ℓ κ} : {A : Type ℓ} {B : Type κ} → Result A → (A → Result B) → Result B
ok a >>= f = f a
err e >>= f = err e

abbrev pub map_ok {ℓ κ} : {A : Type ℓ} {B : Type κ} → (A → B) → Result A → Result B
map_ok f (ok a) = ok (f a)
map_ok f (err e) = err e

pub Result-cases {ℓ} :
    {A : Type ℓ} (r : Result A) → ((a : A) × (r ≡ ok a)) ⊎ ((e : Error) × (r ≡ err e))
Result-cases (ok a) = inl (a, refl)
Result-cases (err e) = inr (e, refl)

pub bind-ok {ℓ κ} :
    {A : Type ℓ} {B : Type κ} (r : Result A) (f : A → Result B) {b : B}
    → (r >>= f) ≡ ok b
    → (a : A) × (r ≡ ok a) × (f a ≡ ok b)
bind-ok (ok a) f h = (a, refl, h)
bind-ok (err e) f h = cc

abbrev value_of {ℓ} : {A : Type ℓ} → A → Result A → A
value_of a₀ (ok a) = a
value_of a₀ (err e) = a₀

pub ok-injective {ℓ} : {A : Type ℓ} {a b : A} → ok a ≡ ok b → a ≡ b
ok-injective {a = a} h = ap (value_of a) h
