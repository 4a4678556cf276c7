-- ===== src/Execution/HashJoin/Nulls.antt =====
-- The hash join on NULL keys.
use sql_query_optimizer.Prelude.{false, ◌≡◌, refl, none, [], ◌∷◌, ◌++◌}
use sql_query_optimizer.Ast.{BinaryOperator, Expression, binary_op, null}
use sql_query_optimizer.Execution.Result.{ok}
use sql_query_optimizer.Execution.Values.{Platform, literal_to_string, literal_equal}
use sql_query_optimizer.Execution.RowSchema.{RowSchema, extend}
use sql_query_optimizer.Execution.Eval.{Row, evaluate, apply_binary}
use sql_query_optimizer.Execution.Meaning.{holds}
use sql_query_optimizer.Execution.Sides.{Fits, ApartFrom, evaluate-left, evaluate-right}
use sql_query_optimizer.Execution.Streams.{Next, Yields, ends, gives}
use sql_query_optimizer.Execution.HashJoin.{key_of, hash_build}
use sql_query_optimizer.Execution.HashJoin.Yields.{hashed}

module _ (d : Platform) (a b : Expression) (L R : RowSchema) (la : ApartFrom R.entries a)
    (rb : ApartFrom L.entries b) (l r : Row) (fl : Fits L l) (fr : Fits R r) where
  -- The table of a single right row with a NULL key.
  null_entry :
      {T : Type 0} (next : Next T) {t : T}
      → evaluate d b r R ≡ ok null
      → Yields next t (r ∷ []) none
      → hash_build d b R next 2 t [] ≡ ok (("<null>", r) ∷ [])
  unfolding hash_build key_of literal_to_string
  null_entry next q (gives p (ends e)) = rw (p, q, e) refl

  -- If a probe of a table of one entry under the key gives its row, then a hash join pairs a left and a right row whose keys are both NULL, on which its own condition
  -- `a = b` does not hold.
  pub hash_join-null :
      {T : Type 0} (next : Next T) (t : T)
      → d.equal_range (("<null>", r) ∷ []) "<null>" ≡ r ∷ []
      → evaluate d a l L ≡ ok null
      → evaluate d b r R ≡ ok null
      → Yields next t (r ∷ []) none
      → (hash_build d b R next 2 t [] ≡ ok (("<null>", r) ∷ []))
        × (hashed d a L (("<null>", r) ∷ []) (l ∷ []) none ≡ ((l ++ r) ∷ [], none))
        × (holds d (binary_op a BinaryOperator.eq b) (extend L R) (l ++ r) ≡ false)
  unfolding hashed key_of literal_to_string holds evaluate apply_binary literal_equal
  hash_join-null next t one p q y = (
    null_entry next q y,
    rw (p, one) refl,
    rw (evaluate-left d L R l r fl fr a la, evaluate-right d L R l r fl fr b rb, p, q) refl,
  )
