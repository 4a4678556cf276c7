-- ===== src/Execution/HashJoin/Agree.antt =====
-- The hash join against its condition, for keys that are texts.
use sql_query_optimizer.Prelude.{
  ℕ, zero, suc, ◌<◌, String, Bool, false, ◌==◌, ◌≡◌, refl, sym, ap, ◌∙◌, none, List, [], ◌∷◌, ◌++◌,
  if◌then◌else◌, length, All, arith, append_nil, append_assoc', eq_iff, Bool-cases, inl, inr,
}
use sql_query_optimizer.Prelude.Totals.{total, SameItems, total-append, total-length}
use sql_query_optimizer.Ast.{BinaryOperator, Expression, binary_op, str}
use sql_query_optimizer.Execution.Result.{ok, ◌>>=◌}
use sql_query_optimizer.Execution.Values.{Platform, literal_to_string, literal_equal}
use sql_query_optimizer.Execution.RowSchema.{RowSchema, extend}
use sql_query_optimizer.Execution.Eval.{Row, evaluate, apply_binary}
use sql_query_optimizer.Execution.Meaning.{holds, pair_rows, join_rows}
use sql_query_optimizer.Execution.Sides.{Fits, ApartFrom, evaluate-left, evaluate-right}
use sql_query_optimizer.Execution.Streams.{
  Next, Yields, ends, gives, collect_rows, collect_rows-finished,
}
use sql_query_optimizer.Execution.Operators.Joins.{cross}
use sql_query_optimizer.Execution.HashJoin.{Build, key_of, hash_build, hash_next}
use sql_query_optimizer.Execution.HashJoin.Yields.{hashed, hash_next-Yields}

-- The rows under a key, in the order in which they were inserted.
abbrev pub bucket : Build → String → List Row
bucket [] key = []
bucket ((k, row) ∷ build) key = if k == key then row ∷ bucket build key else bucket build key

total-cross :
    (w : Row → ℕ) (l : Row) (rows : List Row)
    → total w (cross l rows) ≡ total (λ r. w (l ++ r)) rows
total-cross w l [] = refl
total-cross w l (r ∷ rows) = omega (arith, total-cross w l rows)

-- The value on the row is a text.
abbrev pub HasText : Platform → Expression → RowSchema → Row → Type 0
HasText d e schema row = (s : String) × (evaluate d e row schema ≡ ok (str s))

==-comm : (s t : String) → (s == t) ≡ (t == s)
==-comm s t = elim (Bool-cases (s == t)) [
  | inl e ↦ let p = (eq_iff s t).0 e in e ∙ sym ((eq_iff t s).1 (sym p))
  | inr e ↦ elim (Bool-cases (t == s)) [
    | inl f ↦ let p = (eq_iff t s).0 f in let q = (eq_iff s t).1 (sym p) in cc
    | inr f ↦ e ∙ sym f
  ]
]

module _ (d : Platform) (a b : Expression) (L R : RowSchema) where
  key_of-HasText :
      (e : Expression) (schema : RowSchema) (row : Row) (h : HasText d e schema row)
      → key_of d e schema row ≡ ok h.0
  unfolding key_of literal_to_string
  key_of-HasText e schema row (s, h) = rw h refl

  -- The table that the right rows make.
  abbrev pub entries : (rs : List Row) → All (HasText d b R) rs → Build
  entries [] h = []
  entries (r ∷ rs) h = (h.0.0, r) ∷ entries rs h.1

  hash_build-entries :
      {T : Type 0} (next : Next T) (fuel : ℕ) (before : Build) {t : T} {rs : List Row}
      (h : All (HasText d b R) rs)
      → Yields next t rs none
      → length rs < fuel
      → hash_build d b R next fuel t before ≡ ok (before ++ entries rs h)
  unfolding hash_build
  hash_build-entries next zero before h y k = absurd (omega arith)
  hash_build-entries next (suc fuel) before h (ends p) k = rw (p, append_nil) refl
  hash_build-entries next (suc fuel) before h (gives {s' = t'} {row = r} {rows = rs} p y) k =
      rw (p, key_of-HasText b R r h.0)
        (hash_build-entries next fuel (before ++ (h.0.0, r) ∷ []) h.1 y (omega arith)
          ∙ ap ok (append_assoc' before ((h.0.0, r) ∷ []) (entries rs h.1)))

  module _ (la : ApartFrom R.entries a) (rb : ApartFrom L.entries b) where
    holds-equality :
        (l r : Row)
        → Fits L l
        → Fits R r
        → (x : HasText d a L l) (y : HasText d b R r)
        → holds d (binary_op a BinaryOperator.eq b) (extend L R) (l ++ r) ≡ (x.0 == y.0)
    unfolding holds evaluate apply_binary literal_equal
    holds-equality l r fl fr (s, p) (t, q) =
        rw (evaluate-left d L R l r fl fr a la, evaluate-right d L R l r fl fr b rb, p, q) refl

    abbrev equality : Row → Bool
    equality = holds d (binary_op a BinaryOperator.eq b) (extend L R)

    cross-bucket :
        (l : Row) (fl : Fits L l) (x : HasText d a L l) (rs : List Row)
        → All (Fits R) rs
        → (h : All (HasText d b R) rs)
        → cross l (bucket (entries rs h) x.0) ≡ pair_rows equality l rs
    unfolding pair_rows
    cross-bucket l fl x [] fr h = refl
    cross-bucket l fl x (r ∷ rs) fr h =
        let same = holds-equality l r fl fr.0 x h.0 ∙ ==-comm x.0 h.0.0 in
        let rest = cross-bucket l fl x rs fr.1 h.1 in
        elim (Bool-cases (h.0.0 == x.0)) [
          | inl e ↦ rw (same, e) (ap (λ rows. (l ++ r) ∷ rows) rest)
          | inr e ↦ rw (same, e) rest
        ]

    -- A probe gives every row under the key once, in some order.
    module _
        (ranges : (build : Build) (key : String)
          → SameItems (d.equal_range build key) (bucket build key)) where
      cross-equal_range :
          (w : Row → ℕ) (l : Row) (fl : Fits L l) (x : HasText d a L l) (rs : List Row)
          → All (Fits R) rs
          → (h : All (HasText d b R) rs)
          → total w (cross l (d.equal_range (entries rs h) x.0)) ≡ total w (pair_rows equality l rs)
      cross-equal_range w l fl x rs fr h =
          total-cross w l (d.equal_range (entries rs h) x.0)
          ∙ ranges (entries rs h) x.0 (λ r. w (l ++ r))
          ∙ sym (total-cross w l (bucket (entries rs h) x.0))
          ∙ ap (total w) (cross-bucket l fl x rs fr h)

      hashed-ends :
          (build : Build) (ls : List Row)
          → All (HasText d a L) ls
          → (hashed d a L build ls none).1 ≡ none
      unfolding hashed
      hashed-ends build [] g = refl
      hashed-ends build (l ∷ ls) g = rw (key_of-HasText a L l g.0) (hashed-ends build ls g.1)

      hashed-SameItems :
          (rs : List Row)
          → All (Fits R) rs
          → (h : All (HasText d b R) rs) → (ls : List Row) → All (Fits L) ls
          → All (HasText d a L) ls
          → SameItems (hashed d a L (entries rs h) ls none).0 (join_rows equality ls rs)
      unfolding hashed join_rows
      hashed-SameItems rs fr h [] fl g w = refl
      hashed-SameItems rs fr h (l ∷ ls) fl g w =
          let here = cross-equal_range w l fl.0 g.0 rs fr h in
          let rest = hashed-SameItems rs fr h ls fl.1 g.1 w in
          let range = d.equal_range (entries rs h) g.0.0 in
          rw (key_of-HasText a L l g.0) omega (
            arith,
            here,
            rest,
            total-append w (cross l range) (hashed d a L (entries rs h) ls none).0,
            total-append w (pair_rows equality l rs) (join_rows equality ls rs),
          )

      -- Let the left rows fit the left schema and have texts as keys, and so the right ones, let each
      -- key's columns be qualified by tables of its own side, and let `equal_range` give the rows
      -- inserted under a key, each as often, in any order. Then a hash join on `a = b` builds its table
      -- and returns the joined pairs on which `a = b` is TRUE, each as often as it has them.
      pub hash_join-runs :
          {S T : Type 0} (left_next : Next S) (right_next : Next T) (s : S) (t : T)
          (ls rs : List Row) (fuel right_fuel rounds : ℕ)
          → All (Fits L) ls
          → All (HasText d a L) ls
          → All (Fits R) rs
          → All (HasText d b R) rs
          → Yields left_next s ls none
          → Yields right_next t rs none
          → length ls < suc fuel
          → length rs < right_fuel
          → length (join_rows equality ls rs) < rounds
          → (out : List Row) × ((hash_build d b R right_next right_fuel t [] >>= λ build.
                collect_rows
                  (hash_next d a L build left_next (suc fuel))
                  rounds
                  (record { left = s; current_left = none; probe = []; probing = false })
                  [])
              ≡ ok out)
            × SameItems out (join_rows equality ls rs)
      hash_join-runs left_next right_next s t ls rs fuel right_fuel rounds fl g fr h y z p q k =
          let out = (hashed d a L (entries rs h) ls none).0 in
          let same = hashed-SameItems rs fr h ls fl g in
          let ended = hashed-ends (entries rs h) ls g in
          let short : length out < rounds =
            omega
              (arith, same (λ r. 1), total-length out, total-length (join_rows equality ls rs)) in
          (
            out,
            rw (hash_build-entries right_next right_fuel [] h z q) (
                collect_rows-finished _ rounds _ _ _
                  (rw ended at (hash_next-Yields d a L (entries rs h) left_next fuel y p)) short),
            same,
          )
