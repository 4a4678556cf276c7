-- ===== src/Execution/Operators.antt =====
-- execution/operators.hpp and operators.cpp: the row-at-a-time executors. Each `next_impl` is a
-- function of the input's `next`; loops that call it take fuel.
pub mod Filters
pub mod Index
pub mod Joins
pub mod Agree
use sql_query_optimizer.Prelude.{
  ℕ, zero, suc, ◌+◌, String, Bool, true, false, Option, none, some, List, [], ◌∷◌, ◌++◌, length,
  get_elem?, drop, leb, if◌then◌else◌,
}
use sql_query_optimizer.Ast.{Literal, Expression}
use sql_query_optimizer.Execution.Result.{Result, Error, ok, err, ◌>>=◌, undefined, out_of_fuel}
use sql_query_optimizer.Execution.Values.{Platform, literal_truthy, literal_equal}
use sql_query_optimizer.Execution.RowSchema.{RowSchema}
use sql_query_optimizer.Execution.Eval.{Row, evaluate}
use sql_query_optimizer.Execution.Streams.{Next, collect_rows}

-- SeqScanExec and ExternalRowsExec: the state is `pos_`.
unfoldable pub scan_next : List Row → Next ℕ
scan_next rows pos = elim (get_elem? rows pos) [
  | none ↦ ok (none, pos)
  | some row ↦ ok (some row, pos + 1)
]

module _ (d : Platform) where
  -- The `while` loop of IndexScanExec, over the rows from `pos_` on.
  unfoldable pub index_next_from : List Row → ℕ → Literal → ℕ → Result (Option Row × ℕ)
  index_next_from [] col probe pos = ok (none, pos)
  index_next_from (row ∷ rows) col probe pos = elim (get_elem? row col) [
    | none ↦ err undefined
    | some v ↦ elim (literal_equal d v probe) [
      | true ↦ ok (some row, pos + 1)
      | false ↦ index_next_from rows col probe (pos + 1)
    ]
  ]

  unfoldable pub index_next : List Row → ℕ → Literal → Next ℕ
  unfolding index_next_from
  index_next rows col probe pos = index_next_from (drop pos rows) col probe pos

  -- `literal_truthy(evaluate(e, row, schema))`
  unfoldable pub test : Expression → RowSchema → Row → Result Bool
  unfolding evaluate literal_truthy
  test e schema row = evaluate d e row schema >>= literal_truthy

  -- FilterExec.
  unfoldable pub filter_next : {S : Type 0} → Expression → RowSchema → Next S → ℕ → Next S
  unfolding test
  filter_next e schema next zero s = err out_of_fuel
  filter_next e schema next (suc fuel) s = next s >>= λ r. elim r.0 [
    | none ↦ ok (none, r.1)
    | some row ↦ test e schema row >>= λ b. elim b [
      | true ↦ ok (some row, r.1)
      | false ↦ filter_next e schema next fuel r.1
    ]
  ]

  -- ProjectExec.
  unfoldable pub project_row : List Expression → RowSchema → Row → Result Row
  project_row [] schema row = ok []
  project_row (e ∷ es) schema row =
      evaluate d e row schema >>= λ v. project_row es schema row >>= λ vs. ok (v ∷ vs)

  unfoldable pub project_next : {S : Type 0} → List Expression → RowSchema → Next S → Next S
  unfolding project_row
  project_next es schema next s = next s >>= λ r. elim r.0 [
    | none ↦ ok (none, r.1)
    | some row ↦ project_row es schema row >>= λ out. ok (some out, r.1)
  ]

-- LimitExec: the state is the input's and `emitted_`.
unfoldable pub limit_next : {S : Type 0} → ℕ → Next S → Next (S × ℕ)
limit_next count next (s, emitted) =
    if leb count emitted
    then ok (none, (s, emitted))
    else (next s >>= λ r. elim r.0 [
      | none ↦ ok (none, (r.1, emitted))
      | some row ↦ ok (some row, (r.1, emitted + 1))
    ])

-- NestedLoopJoinExec; `right_rows_` is fixed once the executor is open.
pub record JoinState (S : Type 0) : Type 0 where
  pub left : S
  pub current_left : Option Row
  pub right_pos : ℕ
  pub left_exhausted : Bool

module _ (d : Platform) where
  -- The inner `while`: the right rows from `right_pos_` on; the row found, if any, and `right_pos_`.
  unfoldable pub match_right : Expression → RowSchema → Row → List Row → ℕ → Result (Option Row × ℕ)
  unfolding test
  match_right e schema l [] pos = ok (none, pos)
  match_right e schema l (r ∷ rows) pos = test d e schema (l ++ r) >>= λ b. elim b [
    | true ↦ ok (some (l ++ r), pos + 1)
    | false ↦ match_right e schema l rows (pos + 1)
  ]

  -- The outer `while`, from a state with a current left row.
  unfoldable pub join_loop :
      {S : Type 0}
      → Expression
      → RowSchema
      → List Row
      → Next S
      → ℕ
      → S
      → Row
      → ℕ
      → Result (Option Row × JoinState S)
  unfolding match_right
  join_loop e schema right_rows next zero s l pos = err out_of_fuel
  join_loop e schema right_rows next (suc fuel) s l pos =
      match_right e schema l (drop pos right_rows) pos >>= λ m. elim m.0 [
        | some row ↦ ok (
          some row,
          record { left = s; current_left = some l; right_pos = m.1; left_exhausted = false },
        )
        | none ↦ next s >>= λ r. elim r.0 [
          | none ↦ ok (
            none,
            record { left = r.1; current_left = some l; right_pos = m.1; left_exhausted = true },
          )
          | some l' ↦ join_loop e schema right_rows next fuel r.1 l' 0
        ]
      ]

  -- `next_impl`, by whether a left row is at hand and whether the left side is exhausted.
  abbrev join_next_at :
      {S : Type 0}
      → Expression
      → RowSchema
      → List Row
      → Next S
      → ℕ
      → S
      → Option Row
      → ℕ
      → Bool
      → Result (Option Row × JoinState S)
  join_next_at e schema right_rows next fuel s cl pos true =
      ok (none, record { left = s; current_left = cl; right_pos = pos; left_exhausted = true })
  join_next_at e schema right_rows next fuel s (some l) pos false =
      join_loop e schema right_rows next fuel s l pos
  join_next_at e schema right_rows next fuel s none pos false = next s >>= λ r. elim r.0 [
    | none ↦
        ok
          (none, record { left = r.1; current_left = none; right_pos = pos; left_exhausted = true })
    | some l ↦ join_loop e schema right_rows next fuel r.1 l 0
  ]

  unfoldable pub join_next :
      {S : Type 0} → Expression → RowSchema → List Row → Next S → ℕ → Next (JoinState S)
  unfolding join_loop
  join_next e schema right_rows next fuel s =
      join_next_at e schema right_rows next fuel s.left s.current_left s.right_pos s.left_exhausted

-- `open_impl`: the right side is drained, and no left row is at hand.
unfoldable pub join_open : {S T : Type 0} → Next T → ℕ → T → S → Result (List Row × JoinState S)
unfolding collect_rows
join_open right_next fuel right left = collect_rows right_next fuel right [] >>= λ rows.
    ok (rows, record { left = left; current_left = none; right_pos = 0; left_exhausted = false })
