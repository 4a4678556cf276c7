-- ===== src/Optimizer/Predicates/Blocks.antt =====
-- The relation of a plan of scans, filters and joins.
use sql_query_optimizer.Prelude.{
  String, Bool, ◌==◌, ◌≡◌, refl, sym, ap, ◌∙◌, Option, none, some, List, [], ◌∷◌, ◌++◌, value_or,
  length, All, All-append, arith, length-append, keep_if, Bool-cases, inl, inr, append_nil,
  append_assoc',
}
use text.Mathlib.TextPositions.{eq_refl}
use mathlib.Core.Path.{subst}
use sql_query_optimizer.Plan.{LogicalPlan, scan, filter, join}
use sql_query_optimizer.Storage.{Table, Database, get_table, IsRectangular, AreRectangular}
use sql_query_optimizer.Execution.Result.{Result, ok, err, ◌>>=◌, map_ok}
use sql_query_optimizer.Execution.Values.{Platform}
use sql_query_optimizer.Execution.RowSchema.{Entry, RowSchema, add, empty_schema, extend}
use sql_query_optimizer.Execution.Eval.{Row}
use sql_query_optimizer.Execution.Meaning.{
  Relation, UpperNodes, holds, restrict, combine, pair_rows, join_rows, add_columns, scan_schema,
  scan_table, meaning,
}
use sql_query_optimizer.Optimizer.Expressions.{scan_aliases}
use sql_query_optimizer.Optimizer.Predicates.Scopes.{Under, Under-join, IsJoinBlock}

-- The schema has no aggregates, its qualifiers are among the names, and every row has its width.
pub record InBlock (names : List String) (rel : Relation) : Type 0 where
  pub plain : rel.schema.agg_entries ≡ []
  pub under : Under names rel.schema.entries
  pub wide : All (λ row. length row ≡ length rel.schema.entries) rel.rows

abbrev pub Succeeds : (Relation → Type 0) → Result Relation → Type 0
Succeeds P (ok rel) = P rel
Succeeds P (err e) = Unit

-- The entries of a scan.
abbrev pub named : String → List String → List Entry
named q [] = []
named q (c ∷ cs) = record { table = some q; column = c } ∷ named q cs

pub add_columns-named :
    (q : String) (cs : List String) (s : RowSchema)
    → add_columns q cs s ≡ record s { entries = s.entries ++ named q cs }
unfolding add_columns
add_columns-named q [] s = ap (λ es. record s { entries = es }) (sym (append_nil s.entries))
add_columns-named q (c ∷ cs) s =
    add_columns-named q cs (add (some q) c s)
    ∙ ap (λ es. record s { entries = es }) (append_assoc' s.entries _ (named q cs))

length-named : (q : String) (cs : List String) → length (named q cs) ≡ length cs
length-named q [] = refl
length-named q (c ∷ cs) = omega (arith, length-named q cs)

Under-named : (q : String) (cs : List String) → Under (q ∷ []) (named q cs)
Under-named q [] = tt
Under-named q (c ∷ cs) = (rw (eq_refl q), Under-named q cs)

All-map {ℓ} :
    {A : Type ℓ} (P Q : A → Type 0) (xs : List A) → ((x : A) → P x → Q x) → All P xs → All Q xs
All-map P Q [] f h = tt
All-map P Q (x ∷ xs) f h = (f x h.0, All-map P Q xs f h.1)

get_table-IsRectangular :
    (db : Database) (name : String) (t : Table)
    → AreRectangular db
    → get_table db name ≡ some t
    → IsRectangular t
unfolding get_table
get_table-IsRectangular [] name t h k = absurd (clash k)
  where
    clash : none ≡ some t → ⊥
    clash q = cc
get_table-IsRectangular ((n, s) ∷ db) name t h k = elim (Bool-cases (n == name)) [
  | inl e ↦ let same : s ≡ t = ground arith in subst IsRectangular same h.0
  | inr e ↦ get_table-IsRectangular db name t h.1 (rw e at k)
]

scan_table-InBlock :
    (q : String) (t : Table)
    → IsRectangular t
    → InBlock (q ∷ []) (record { schema = scan_schema q t.column_names; rows = t.rows })
unfolding scan_schema
scan_table-InBlock q t h = rw (add_columns-named q t.column_names empty_schema) (record {
  plain = refl;
  under = Under-named q t.column_names;
  wide = All-map _ _ t.rows (λ row w. w ∙ sym (length-named q t.column_names)) h;
})

All-keep_if {ℓ} :
    {A : Type ℓ} (P : A → Type 0) (p : A → Bool) (xs : List A) → All P xs → All P (keep_if p xs)
All-keep_if P p [] h = tt
All-keep_if P p (x ∷ xs) h = elim (Bool-cases (p x)) [
  | inl e ↦ rw e (h.0, All-keep_if P p xs h.1)
  | inr e ↦ rw e (All-keep_if P p xs h.1)
]

module _ (keep : Row → Bool) (L R : List Entry) where
  pair_rows-wide :
      (l : Row) (rs : List Row)
      → length l ≡ length L
      → All (λ row. length row ≡ length R) rs
      → All (λ row. length row ≡ length (L ++ R)) (pair_rows keep l rs)
  unfolding pair_rows
  pair_rows-wide l [] h k = tt
  pair_rows-wide l (r ∷ rs) h k = elim (Bool-cases (keep (l ++ r))) [
    | inl e ↦
        rw e
          (omega (arith, length-append l r, length-append L R, h, k.0), pair_rows-wide l rs h k.1)
    | inr e ↦ rw e (pair_rows-wide l rs h k.1)
  ]

  join_rows-wide :
      (ls rs : List Row)
      → All (λ row. length row ≡ length L) ls
      → All (λ row. length row ≡ length R) rs
      → All (λ row. length row ≡ length (L ++ R)) (join_rows keep ls rs)
  unfolding join_rows
  join_rows-wide [] rs h k = tt
  join_rows-wide (l ∷ ls) rs h k =
      All-append _ (pair_rows keep l rs) (join_rows keep ls rs) (pair_rows-wide l rs h.0 k)
        (join_rows-wide ls rs h.1 k)

module _ (d : Platform) (u : UpperNodes) (db : Database) (rect : AreRectangular db) where
  -- Whatever a join block succeeds with is in the block of its aliases.
  pub meaning-InBlock :
      (p : LogicalPlan) → IsJoinBlock p → Succeeds (InBlock (scan_aliases p)) (meaning d u db p)
  unfolding meaning scan_aliases
  meaning-InBlock (scan table alias cols) h =
      found (get_table db table) (λ t e. get_table-IsRectangular db table t rect e)
    where
      found :
          (o : Option Table)
          → ((t : Table) → o ≡ some t → IsRectangular t)
          → Succeeds (InBlock (value_or alias table ∷ [])) (scan_table d (value_or alias table) o)
      found none k = tt
      found (some t) k = scan_table-InBlock (value_or alias table) t (k t refl)
  meaning-InBlock (filter e i) h = kept (meaning d u db i) (meaning-InBlock i h)
    where
      kept :
          (x : Result Relation)
          → Succeeds (InBlock (scan_aliases i)) x
          → Succeeds (InBlock (scan_aliases i)) (map_ok (restrict d e) x)
      kept (ok rel) k = record {
        plain = k.plain;
        under = k.under;
        wide = All-keep_if _ (holds d e rel.schema) rel.rows k.wide;
      }
      kept (err e) k = tt
  meaning-InBlock (join t c l r) h =
      joined (meaning d u db l) (meaning d u db r) (meaning-InBlock l h.0) (meaning-InBlock r h.1)
    where
      joined :
          (x y : Result Relation)
          → Succeeds (InBlock (scan_aliases l)) x
          → Succeeds (InBlock (scan_aliases r)) y
          → Succeeds
              (InBlock (scan_aliases (join t c l r)))
              (x >>= λ a. y >>= λ b. ok (combine d c a b))
      joined (ok a) (ok b) k m = record {
        plain = rw (k.plain, m.plain);
        under = Under-join t c l r a.schema.entries b.schema.entries k.under m.under;
        wide =
            join_rows-wide (holds d c (extend a.schema b.schema)) a.schema.entries b.schema.entries
              a.rows b.rows k.wide m.wide;
      }
      joined (ok a) (err e) k m = tt
      joined (err e) y k m = tt
  meaning-InBlock _ h = absurd h
