-- ===== src/Execution/HashJoin.antt =====
-- execution/operators.cpp, HashJoinExec: the hash join. `build_` is the list of the entries inserted,
-- in their order; which rows `equal_range` gives for a key, and in which order, is the platform's.
pub mod Yields
pub mod Agree
pub mod Nulls
use sql_query_optimizer.Prelude.{
  ℕ, zero, suc, String, Bool, true, false, ◌&&◌, Option, none, some, List, [], ◌∷◌, ◌++◌,
  if◌then◌else◌,
}
use sql_query_optimizer.Ast.{BinaryOperator, Expression, column, binary_op}
use sql_query_optimizer.Execution.Result.{
  Result, ok, err, ◌>>=◌, no_equality, no_key_columns, undefined, out_of_fuel,
}
use sql_query_optimizer.Execution.Values.{Platform, literal_to_string}
use sql_query_optimizer.Execution.RowSchema.{RowSchema, resolve}
use sql_query_optimizer.Execution.Eval.{Row, evaluate}
use sql_query_optimizer.Execution.Streams.{Next}

pub record Keys : Type 0 where
  pub left_key : Expression
  pub right_key : Expression

abbrev is_some {ℓ} : {A : Type ℓ} → Option A → Bool
is_some none = false
is_some (some _) = true

-- A column that resolves in the schema.
unfoldable pub is_column_of : RowSchema → Expression → Bool
unfolding resolve
is_column_of s (column table name) = is_some (resolve s table name)
is_column_of s _ = false

-- The constructor: which side of the equality is the key of which input.
unfoldable pub hash_keys : RowSchema → RowSchema → Expression → Result Keys
unfolding is_column_of
hash_keys L R (binary_op a BinaryOperator.eq b) =
    if is_column_of L a && is_column_of R b
    then ok (record { left_key = a; right_key = b })
    else if is_column_of R a && is_column_of L b
    then ok (record { left_key = b; right_key = a })
    else err no_key_columns
hash_keys L R _ = err no_equality

abbrev pub Build : Type 0
Build = List (String × Row)

pub record HashState (S : Type 0) : Type 0 where
  pub left : S
  pub current_left : Option Row
  pub probe : List Row
  pub probing : Bool

-- The first of the rows in the bucket of a left row, or else what the loop finds further on.
abbrev pub from_bucket :
    {S : Type 0}
    → Row
    → S
    → List Row
    → Result (Option Row × HashState S)
    → Result (Option Row × HashState S)
from_bucket l s [] more = more
from_bucket l s (row ∷ rest) more =
    ok (some (l ++ row), record { left = s; current_left = some l; probe = rest; probing = true })

module _ (d : Platform) where
  -- The key of a row, as text.
  unfoldable pub key_of : Expression → RowSchema → Row → Result String
  unfolding evaluate literal_to_string
  key_of e schema row = evaluate d e row schema >>= λ v. ok (literal_to_string d v)

  -- `open_impl`: the right side is drained into the table.
  unfoldable pub hash_build :
      {T : Type 0} → Expression → RowSchema → Next T → ℕ → T → Build → Result Build
  unfolding key_of
  hash_build e schema next zero t build = err out_of_fuel
  hash_build e schema next (suc fuel) t build = next t >>= λ r. elim r.0 [
    | none ↦ ok build
    | some row ↦
        key_of e schema row >>= λ k. hash_build e schema next fuel r.1 (build ++ (k, row) ∷ [])
  ]

  -- The part of the loop that fetches a left row, until one has partners.
  unfoldable pub hash_fetch :
      {S : Type 0}
      → Expression
      → RowSchema
      → Build
      → Next S
      → ℕ
      → S
      → Option Row
      → Result (Option Row × HashState S)
  unfolding key_of
  hash_fetch e schema build next zero s cl = err out_of_fuel
  hash_fetch e schema build next (suc fuel) s cl = next s >>= λ r. elim r.0 [
    | none ↦ ok (none, record { left = r.1; current_left = cl; probe = []; probing = false })
    | some l ↦
        let more = hash_fetch e schema build next fuel r.1 (some l) in
        key_of e schema l >>= λ k. from_bucket l r.1 (d.equal_range build k) more
  ]

  -- `next_impl`, by whether the executor is in the middle of a bucket.
  abbrev hash_next_at :
      {S : Type 0}
      → Expression
      → RowSchema
      → Build
      → Next S
      → ℕ
      → S
      → Option Row
      → List Row
      → Bool
      → Result (Option Row × HashState S)
  hash_next_at e schema build next fuel s cl (row ∷ rest) true = elim cl [
    | none ↦ err undefined
    | some l ↦
        ok (
          some (l ++ row),
          record { left = s; current_left = some l; probe = rest; probing = true },
        )
  ]
  hash_next_at e schema build next fuel s cl probe probing =
      hash_fetch e schema build next fuel s cl

  unfoldable pub hash_next :
      {S : Type 0} → Expression → RowSchema → Build → Next S → ℕ → Next (HashState S)
  unfolding hash_fetch
  hash_next e schema build next fuel s =
      hash_next_at e schema build next fuel s.left s.current_left s.probe s.probing
