-- ===== src/JoinGraph/Refs.antt =====
-- The ids of the relations that an expression refers to.
use sql_query_optimizer.Prelude.{
  ℕ, suc, ◌+◌, ◌<◌, String, false, ◌==◌, ◌≡◌, ◌≢◌, sym, Option, none, some, List, [], ◌∷◌, ◌++◌,
  length, any, value_or, eqb, All, All-append, arith, Bool-cases, inl, inr,
}
use sql_query_optimizer.Ast.{
  Expression, Expressions, column, literal, binary_op, unary_op, function, wildcard, nil, cons,
}
use sql_query_optimizer.Optimizer.Reorder.{◌>>=◌}
use sql_query_optimizer.JoinGraph.{
  Relation, find_relation, insert_id, visit, visit_args, referenced_relation_ids,
}

-- Every id is below `n`, and no id stands twice.
abbrev pub Fresh : ℕ → List ℕ → Type 0
Fresh i ids = any (eqb i) ids ≡ false

abbrev pub AreIds : ℕ → List ℕ → Type 0
AreIds n [] = Unit
AreIds n (i ∷ ids) = (i < n) × All (λ j. i ≢ j) ids × AreIds n ids

abbrev pub Gives : (List ℕ → Type 0) → Option (List ℕ) → Type 0
Gives P none = Unit
Gives P (some ids) = P ids

ne-any : (i : ℕ) (ids : List ℕ) → any (eqb i) ids ≡ false → All (λ j. i ≢ j) ids
ne-any i [] h = tt
ne-any i (j ∷ ids) h = (λ e. ground arith, ne-any i ids (ground arith))

ne-last : (i j : ℕ) (ids : List ℕ) → All (λ k. i ≢ k) ids → i ≢ j → All (λ k. i ≢ k) (ids ++ j ∷ [])
ne-last i j ids h k = All-append _ ids (j ∷ []) h (k, tt)

append-AreIds :
    (n i : ℕ) (ids : List ℕ)
    → i < n
    → All (λ j. i ≢ j) ids
    → AreIds n ids
    → AreIds n (ids ++ i ∷ [])
append-AreIds n i [] h k v = (h, tt, tt)
append-AreIds n i (j ∷ ids) h k v =
    (v.0, ne-last j i ids v.1 (λ e. k.0 (sym e)), append-AreIds n i ids h k.1 v.2)

insert_id-AreIds : (n i : ℕ) (ids : List ℕ) → i < n → AreIds n ids → AreIds n (insert_id i ids)
insert_id-AreIds n i ids h v = elim (Bool-cases (any (eqb i) ids)) [
  | inl e ↦ rw e v
  | inr e ↦ rw e (append-AreIds n i ids h (ne-any i ids e) v)
]

-- Relations are numbered by their places, from `i` on.
abbrev pub AreNumbered : ℕ → List Relation → Type 0
AreNumbered i [] = Unit
AreNumbered i (r ∷ rs) = (r.id ≡ i) × AreNumbered (suc i) rs

abbrev Below : ℕ → Option ℕ → Type 0
Below n none = Unit
Below n (some i) = i < n

find_relation-Below :
    (rs : List Relation) (name : String) (i : ℕ)
    → AreNumbered i rs
    → Below (i + length rs) (find_relation rs name)
unfolding find_relation
find_relation-Below [] name i h = tt
find_relation-Below (r ∷ rs) name i h = elim (Bool-cases (value_or r.alias r.table_name == name)) [
  | inl e ↦ rw e (omega arith)
  | inr e ↦
      let shift : suc i + length rs ≡ i + suc (length rs) = omega arith in
      rw e (rw shift at (find_relation-Below rs name (suc i) h.1))
]

module _ (rs : List Relation) (numbered : AreNumbered 0 rs) where
  found :
      (o : Option ℕ) (out : List ℕ)
      → Below (0 + length rs) o
      → AreIds (length rs) out
      → Gives (AreIds (length rs)) (o >>= λ id. some (insert_id id out))
  found none out h v = tt
  found (some i) out h v = insert_id-AreIds (length rs) i out (omega arith) v

  then_visit :
      (o : Option (List ℕ)) (f : List ℕ → Option (List ℕ))
      → Gives (AreIds (length rs)) o
      → ((out : List ℕ) → AreIds (length rs) out → Gives (AreIds (length rs)) (f out))
      → Gives (AreIds (length rs)) (o >>= f)
  then_visit none f h k = tt
  then_visit (some out) f h k = k out h

mutual
  unfolding visit

  visit-AreIds :
      (rs : List Relation) (numbered : AreNumbered 0 rs) (e : Expression) (out : List ℕ)
      → AreIds (length rs) out
      → Gives (AreIds (length rs)) (visit rs e out)
  visit-AreIds rs numbered (column none c) out v = tt
  visit-AreIds rs numbered (column (some t) c) out v =
      found rs numbered (find_relation rs t) out (find_relation-Below rs t 0 numbered) v
  visit-AreIds rs numbered (binary_op l op r) out v =
      then_visit rs numbered (visit rs l out) (visit rs r) (visit-AreIds rs numbered l out v)
        (visit-AreIds rs numbered r)
  visit-AreIds rs numbered (unary_op op e) out v = visit-AreIds rs numbered e out v
  visit-AreIds rs numbered (function f args) out v = visit_args-AreIds rs numbered args out v
  visit-AreIds rs numbered (literal x) out v = v
  visit-AreIds rs numbered wildcard out v = v

  visit_args-AreIds :
      (rs : List Relation) (numbered : AreNumbered 0 rs) (es : Expressions) (out : List ℕ)
      → AreIds (length rs) out
      → Gives (AreIds (length rs)) (visit_args rs es out)
  visit_args-AreIds rs numbered nil out v = v
  visit_args-AreIds rs numbered (cons e es) out v =
      then_visit rs numbered (visit rs e out) (visit_args rs es) (visit-AreIds rs numbered e out v)
        (visit_args-AreIds rs numbered es)

pub referenced_relation_ids-AreIds :
    (e : Expression) (rs : List Relation)
    → AreNumbered 0 rs
    → Gives (AreIds (length rs)) (referenced_relation_ids e rs)
unfolding referenced_relation_ids
referenced_relation_ids-AreIds e rs numbered = visit-AreIds rs numbered e [] tt
