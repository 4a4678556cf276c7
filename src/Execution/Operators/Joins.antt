-- ===== src/Execution/Operators/Joins.antt =====
-- What the nested loop join yields.
use sql_query_optimizer.Prelude.{
  ℕ, zero, suc, ◌+◌, ◌<◌, ◌≡◌, refl, ◌∙◌, true, false, Option, none, some, List, [], ◌∷◌, ◌++◌,
  length, drop, drop-cons, arith, inl, inr,
}
use native.Mathlib.Numerals.{add-one}
use sql_query_optimizer.Ast.{Expression}
use sql_query_optimizer.Execution.Result.{Result, Error, ok, err, Result-cases}
use sql_query_optimizer.Execution.Values.{Platform}
use sql_query_optimizer.Execution.RowSchema.{RowSchema}
use sql_query_optimizer.Execution.Eval.{Row}
use sql_query_optimizer.Execution.Streams.{Next, Yields, ends, fails, gives, Yields-same_step}
use sql_query_optimizer.Execution.Operators.{test, JoinState, match_right, join_loop, join_next}
use sql_query_optimizer.Execution.Operators.Filters.{filtered}

-- A left row before each right row.
abbrev pub cross : Row → List Row → List Row
cross l [] = []
cross l (r ∷ rs) = (l ++ r) ∷ cross l rs

abbrev pub product : List Row → List Row → List Row
product [] rs = []
product (l ∷ ls) rs = cross l rs ++ product ls rs

module _ (d : Platform) (e : Expression) (schema : RowSchema) (rs : List Row) {S : Type 0}
    (next : Next S) where
  -- The state with a current left row.
  abbrev at : S → Row → ℕ → JoinState S
  at s l pos = record { left = s; current_left = some l; right_pos = pos; left_exhausted = false }

  loop : ℕ → S → Row → ℕ → Result (Option Row × JoinState S)
  loop f s l pos = join_loop d e schema rs next f s l pos

  match_right-end :
      (l : Row) (pos : ℕ)
      → drop pos rs ≡ []
      → match_right d e schema l (drop pos rs) pos ≡ ok (none, pos)
  unfolding match_right
  match_right-end l pos h = rw (h, match_right)

  loop-end :
      (f : ℕ) (s s' : S) (l : Row) (pos : ℕ)
      → drop pos rs ≡ []
      → next s ≡ ok (none, s')
      → loop (suc f) s l pos
        ≡ ok (
          none,
          record { left = s'; current_left = some l; right_pos = pos; left_exhausted = true },
        )
  unfolding loop join_loop
  loop-end f s s' l pos h p = rw (match_right-end l pos h, p)

  loop-fail :
      (f : ℕ) (s : S) (x : Error) (l : Row) (pos : ℕ)
      → drop pos rs ≡ []
      → next s ≡ err x
      → loop (suc f) s l pos ≡ err x
  unfolding loop join_loop
  loop-fail f s x l pos h p = rw (match_right-end l pos h, p)

  loop-advance :
      (f : ℕ) (s s' : S) (l l' : Row) (pos : ℕ)
      → drop pos rs ≡ []
      → next s ≡ ok (some l', s')
      → loop (suc f) s l pos ≡ loop f s' l' 0
  unfolding loop join_loop
  loop-advance f s s' l l' pos h p = rw (match_right-end l pos h, p)

  module _ (l r : Row) (xs : List Row) (pos : ℕ) (h : drop pos rs ≡ r ∷ xs) where
    tail_rows : drop (pos + 1) rs ≡ xs
    tail_rows = rw add-one ((drop-cons pos rs r xs h).1)

    loop-throw :
        (f : ℕ) (s : S) (x : Error)
        → test d e schema (l ++ r) ≡ err x
        → loop (suc f) s l pos ≡ err x
    unfolding loop join_loop
    loop-throw f s x q = rw (h, match_right, q)

    loop-match :
        (f : ℕ) (s : S)
        → test d e schema (l ++ r) ≡ ok true
        → loop (suc f) s l pos ≡ ok (some (l ++ r), at s l (pos + 1))
    unfolding loop join_loop
    loop-match f s q = rw (h, match_right, q)

    loop-skip :
        (f : ℕ) (s : S)
        → test d e schema (l ++ r) ≡ ok false
        → loop (suc f) s l pos ≡ loop (suc f) s l (pos + 1)
    unfolding loop join_loop
    loop-skip f s q = rw (h, tail_rows, match_right, q)

  -- The fuel does not matter while it exceeds the left rows to come.
  loop-fuel :
      (f g : ℕ) (l : Row) (pos : ℕ) {s : S} {ls : List Row} {end : Option Error}
      → Yields next s ls end
      → length ls < f
      → length ls < g
      → loop f s l pos ≡ loop g s l pos
  unfolding loop join_loop
  loop-fuel zero g l pos y h k = absurd (omega arith)
  loop-fuel (suc f) zero l pos y h k = absurd (omega arith)
  loop-fuel (suc f) (suc g) l pos (ends p) h k =
      elim (Result-cases (match_right d e schema l (drop pos rs) pos)) [
        | inl ((some row, n), q) ↦ rw q
        | inl ((none, n), q) ↦ rw (q, p)
        | inr (x, q) ↦ rw q
      ]
  loop-fuel (suc f) (suc g) l pos (fails p) h k =
      elim (Result-cases (match_right d e schema l (drop pos rs) pos)) [
        | inl ((some row, n), q) ↦ rw q
        | inl ((none, n), q) ↦ rw (q, p)
        | inr (x, q) ↦ rw q
      ]
  loop-fuel (suc f) (suc g) l pos (gives {row = l'} p y) h k =
      elim (Result-cases (match_right d e schema l (drop pos rs) pos)) [
        | inl ((some row, n), q) ↦ rw q
        | inl ((none, n), q) ↦ rw (q, p) (loop-fuel f g l' 0 y (omega arith) (omega arith))
        | inr (x, q) ↦ rw q
      ]

  module _ (fuel : ℕ) where
    joined : Next (JoinState S)
    joined = join_next d e schema rs next (suc fuel)

    -- The right rows from `pos` on against the current left row, before what the rest yields.
    scan_right :
        (l : Row) (xs : List Row) (pos : ℕ) (s : S) (ls : List Row) (end : Option Error)
        → drop pos rs ≡ xs
        → ((p : ℕ)
            → drop p rs ≡ []
            → Yields joined
                (at s l p)
                (filtered d e schema (product ls rs) end).0
                (filtered d e schema (product ls rs) end).1)
        → Yields joined
            (at s l pos)
            (filtered d e schema (cross l xs ++ product ls rs) end).0
            (filtered d e schema (cross l xs ++ product ls rs) end).1
    unfolding joined join_next loop filtered
    scan_right l [] pos s ls end h rest = rest pos h
    scan_right l (r ∷ xs) pos s ls end h rest =
        let more = scan_right l xs (pos + 1) s ls end (tail_rows l r xs pos h) rest in
        elim (Result-cases (test d e schema (l ++ r))) [
          | inl (true, q) ↦
              rw q (gives {s' = at s l (pos + 1)} (loop-match l r xs pos h fuel s q) more)
          | inl (false, q) ↦ rw q (Yields-same_step joined (loop-skip l r xs pos h fuel s q) more)
          | inr (x, q) ↦ rw q (fails (loop-throw l r xs pos h fuel s x q))
        ]

    from_left :
        (l : Row) {s : S} {ls : List Row} {end : Option Error}
        → Yields next s ls end
        → length ls < suc fuel
        → (pos : ℕ) → drop pos rs ≡ []
        → Yields joined
            (at s l pos)
            (filtered d e schema (product ls rs) end).0
            (filtered d e schema (product ls rs) end).1
    unfolding joined join_next loop filtered
    from_left l {s} (ends {s' = s'} p) h pos k =
        ends
          {s' = record { left = s'; current_left = some l; right_pos = pos; left_exhausted = true }}
          (loop-end fuel s s' l pos k p)
    from_left l {s} (fails {e = x} p) h pos k = fails (loop-fail fuel s x l pos k p)
    from_left l {s} (gives {s' = s'} {row = l'} {rows = ls} {end = end} p y) h pos k =
        Yields-same_step joined
          (loop-advance fuel s s' l l' pos k p
            ∙ loop-fuel fuel (suc fuel) l' 0 y (omega arith) (omega arith))
          (scan_right l' rs 0 s' ls end refl (λ n z. from_left l' y (omega arith) n z))

    -- From the state after `open`, a nested loop join whose fuel exceeds the left rows yields what a
    -- filter by its condition over the product of the left and the right rows yields, left row by
    -- left row, errors included.
    pub join_next-Yields :
        {s : S} {ls : List Row} {end : Option Error}
        → Yields next s ls end
        → length ls < suc fuel
        → Yields
            (join_next d e schema rs next (suc fuel))
            (record { left = s; current_left = none; right_pos = 0; left_exhausted = false })
            (filtered d e schema (product ls rs) end).0
            (filtered d e schema (product ls rs) end).1
    unfolding joined join_next loop filtered
    join_next-Yields (ends {s' = s'} p) h =
        ends {s' = record { left = s'; current_left = none; right_pos = 0; left_exhausted = true }}
          (rw p)
    join_next-Yields (fails p) h = fails (rw p)
    join_next-Yields (gives {s' = s'} {row = l} {rows = ls} {end = end} p y) h =
        Yields-same_step joined {t = at s' l 0} (rw p)
          (scan_right l rs 0 s' ls end refl (λ n z. from_left l y (omega arith) n z))
