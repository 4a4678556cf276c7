-- ===== src/Execution/HashJoin/Yields.antt =====
-- What the hash join yields, and what its table holds.
use sql_query_optimizer.Prelude.{
  ℕ, zero, suc, ◌<◌, String, true, false, ◌≡◌, refl, ap, ◌∙◌, Option, none, some, List, [], ◌∷◌,
  ◌++◌, length, arith, inl, inr,
}
use sql_query_optimizer.Ast.{Expression}
use sql_query_optimizer.Execution.Result.{Result, Error, ok, err, Result-cases}
use sql_query_optimizer.Execution.Values.{Platform}
use sql_query_optimizer.Execution.RowSchema.{RowSchema}
use sql_query_optimizer.Execution.Eval.{Row}
use sql_query_optimizer.Execution.Streams.{Next, Yields, ends, fails, gives, Yields-same_step}
use sql_query_optimizer.Execution.Operators.Filters.{Outcome}
use sql_query_optimizer.Execution.Operators.Joins.{cross}
use sql_query_optimizer.Execution.HashJoin.{
  Build, HashState, key_of, hash_fetch, hash_next, from_bucket,
}

module _ (d : Platform) (e : Expression) (schema : RowSchema) where
  -- One left row before its partners, and then the rest.
  abbrev hashed_at : Build → Result String → Row → Outcome → Outcome
  hashed_at build (err x) l rest = ([], some x)
  hashed_at build (ok k) l rest = (cross l (d.equal_range build k) ++ rest.0, rest.1)

  unfoldable pub hashed : Build → List Row → Option Error → Outcome
  hashed build [] end = ([], end)
  hashed build (l ∷ ls) end = hashed_at build (key_of d e schema l) l (hashed build ls end)

  module _ (build : Build) {S : Type 0} (next : Next S) where
    fetch : ℕ → S → Option Row → Result (Option Row × HashState S)
    fetch = hash_fetch d e schema build next

    -- The fuel does not matter while it exceeds the left rows to come.
    fetch-fuel :
        (f g : ℕ) (cl : Option Row) {s : S} {ls : List Row} {end : Option Error}
        → Yields next s ls end
        → length ls < f
        → length ls < g
        → fetch f s cl ≡ fetch g s cl
    unfolding fetch hash_fetch
    fetch-fuel zero g cl y h k = absurd (omega arith)
    fetch-fuel (suc f) zero cl y h k = absurd (omega arith)
    fetch-fuel (suc f) (suc g) cl (ends p) h k = rw p
    fetch-fuel (suc f) (suc g) cl (fails p) h k = rw p
    fetch-fuel (suc f) (suc g) cl (gives {s' = s'} {row = l} p y) h k =
        rw p (elim (Result-cases (key_of d e schema l)) [
          | inr (x, q) ↦ rw q
          | inl (key, q) ↦ rw q (
              ap (from_bucket l s' (d.equal_range build key))
                (fetch-fuel f g (some l) y (omega arith) (omega arith)))
        ])

    module _ (fuel : ℕ) where
      probed : Next (HashState S)
      probed = hash_next d e schema build next (suc fuel)

      abbrev mid : S → Row → List Row → HashState S
      mid s l rows = record { left = s; current_left = some l; probe = rows; probing = true }

      -- The rest of a bucket, before what the following left rows yield.
      drain :
          (s : S) (l : Row) (rows : List Row) (o : Outcome)
          → Yields probed (mid s l []) o.0 o.1
          → Yields probed (mid s l rows) (cross l rows ++ o.0) o.1
      unfolding probed hash_next
      drain s l [] o y = y
      drain s l (row ∷ rows) o y = gives {s' = mid s l rows} refl (drain s l rows o y)

      -- A bucket of a left row that was just fetched.
      opened :
          (t : HashState S) (s : S) (l : Row) (rows : List Row) (o : Outcome)
          → probed t ≡ from_bucket l s rows (fetch (suc fuel) s (some l))
          → Yields probed (mid s l []) o.0 o.1
          → Yields probed t (cross l rows ++ o.0) o.1
      unfolding probed hash_next fetch
      opened t s l [] o h y = Yields-same_step probed h y
      opened t s l (row ∷ rows) o h y = gives {s' = mid s l rows} h (drain s l rows o y)

      from_fetch :
          (t : HashState S) (cl : Option Row) {s : S} {ls : List Row} {end : Option Error}
          → probed t ≡ fetch (suc fuel) s cl
          → Yields next s ls end
          → length ls < suc fuel
          → Yields probed t (hashed build ls end).0 (hashed build ls end).1
      unfolding probed hash_next fetch hashed hash_fetch
      from_fetch t cl i (ends {s' = s'} p) h =
          ends {s' = record { left = s'; current_left = cl; probe = []; probing = false }}
            (i ∙ rw p)
      from_fetch t cl i (fails p) h = fails (i ∙ rw p)
      from_fetch t cl i (gives {s' = s'} {row = l} {rows = ls} {end = end} p y) h =
          elim (Result-cases (key_of d e schema l)) [
            | inr (x, q) ↦ rw q (fails (i ∙ rw (p, q)))
            | inl (key, q) ↦ rw q (
                opened t s' l (d.equal_range build key) (hashed build ls end)
                  (i
                    ∙ rw (p, q)
                        (ap (from_bucket l s' (d.equal_range build key))
                          (fetch-fuel fuel (suc fuel) (some l) y (omega arith) (omega arith))))
                  (from_fetch (mid s' l []) (some l) refl y (omega arith)))
          ]

      -- From the state after `open`, a hash join whose fuel exceeds the left rows yields each left row
      -- with every row that `equal_range` gives for its key, in its order, up to the first left row whose key cannot be
      -- evaluated, where it throws the same; else it ends as its left input does.
      pub hash_next-Yields :
          {s : S} {ls : List Row} {end : Option Error}
          → Yields next s ls end
          → length ls < suc fuel
          → Yields
              (hash_next d e schema build next (suc fuel))
              (record { left = s; current_left = none; probe = []; probing = false })
              (hashed build ls end).0
              (hashed build ls end).1
      unfolding probed hash_next fetch
      hash_next-Yields y h = from_fetch _ none refl y h
