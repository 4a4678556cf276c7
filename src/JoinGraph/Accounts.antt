-- ===== src/JoinGraph/Accounts.antt =====
-- The conjuncts that a join graph holds, and the ends of its edges.
use sql_query_optimizer.Prelude.{
  ℕ, zero, suc, ◌+◌, ◌<◌, String, ◌≡◌, ◌≢◌, refl, sym, ap, ◌∙◌, Option, some, List, [], ◌∷◌, ◌++◌,
  length, All, All-append, arith, append_nil, append_assoc',
}
use sql_query_optimizer.Prelude.Totals.{total, total-append}
use sql_query_optimizer.Ast.{Expression}
use sql_query_optimizer.Plan.{LogicalPlan, scan, filter, join}
use sql_query_optimizer.Optimizer.Predicates.Scopes.{IsJoinBlock}
use sql_query_optimizer.JoinGraph.{
  Relation, JoinEdge, JoinGraphExtraction, RawExtraction, split_and_copy, collect, add_local,
}
use sql_query_optimizer.JoinGraph.Refs.{AreNumbered}

-- The conjuncts of the filters and join conditions of a subtree, in the order of the tree.
unfoldable pub conjuncts : LogicalPlan → List Expression
conjuncts (filter e i) = split_and_copy e ++ conjuncts i
conjuncts (join t c l r) = split_and_copy c ++ (conjuncts l ++ conjuncts r)
conjuncts _ = []

-- The scans of a subtree, in the order of the tree.
unfoldable pub scan_names : LogicalPlan → List (String × Option String)
scan_names (scan table alias cols) = (table, alias) ∷ []
scan_names (filter e i) = scan_names i
scan_names (join t c l r) = scan_names l ++ scan_names r
scan_names _ = []

abbrev pub relation_names : List Relation → List (String × Option String)
relation_names [] = []
relation_names (r ∷ rs) = (r.table_name, r.alias) ∷ relation_names rs

-- The weight of the expressions of an extraction, wherever they were put.
abbrev pub local_weight : (Expression → ℕ) → List Relation → ℕ
local_weight v rs = total (λ r. total v r.local_filters) rs

abbrev pub accounted : (Expression → ℕ) → JoinGraphExtraction → ℕ
accounted v x =
    total (λ r. total v r.local_filters) x.graph.relations
    + total (λ e. v e.predicate) x.graph.edges
    + total v x.residual_filters

-- An edge joins two different relations of `n`.
abbrev pub IsEdge : ℕ → JoinEdge → Type 0
IsEdge n e = (e.left < n) × (e.right < n) × (e.left ≢ e.right)

relation_names-append :
    (rs ss : List Relation) → relation_names (rs ++ ss) ≡ relation_names rs ++ relation_names ss
relation_names-append [] ss = refl
relation_names-append (r ∷ rs) ss =
    ap (λ (ns : List (String × Option String)). (r.table_name, r.alias) ∷ ns)
      (relation_names-append rs ss)

-- A relation list under construction: numbered, with no filters yet.
pub record IsRaw (rs : List Relation) : Type 0 where
  pub numbered : AreNumbered 0 rs
  pub bare : All (λ r. r.local_filters ≡ []) rs

AreNumbered-append :
    (i : ℕ) (rs : List Relation) (r : Relation)
    → AreNumbered i rs
    → r.id ≡ i + length rs
    → AreNumbered i (rs ++ r ∷ [])
AreNumbered-append i [] r h e = (omega arith, tt)
AreNumbered-append i (s ∷ rs) r h e = (h.0, AreNumbered-append (suc i) rs r h.1 (omega arith))

pub record Collected (p : LogicalPlan) (out : RawExtraction) (r : Option RawExtraction)
    : Type 0 where
  pub raw : RawExtraction
  pub returned : r ≡ some raw
  pub is_raw : IsRaw raw.relations
  pub names : relation_names raw.relations ≡ relation_names out.relations ++ scan_names p
  pub predicates : raw.predicates ≡ out.predicates ++ conjuncts p

pub collect-Collected :
    (p : LogicalPlan) (out : RawExtraction)
    → IsJoinBlock p
    → IsRaw out.relations
    → Collected p out (collect p out)
unfolding collect conjuncts scan_names
collect-Collected (scan table alias cols) out h v = record {
  raw = _;
  returned = refl;
  is_raw = record {
    numbered = AreNumbered-append 0 out.relations _ v.numbered (omega arith);
    bare = All-append _ out.relations _ v.bare (refl, tt);
  };
  names = relation_names-append out.relations _;
  predicates = sym (append_nil out.predicates);
}
collect-Collected (filter e i) out h v =
    let out' : RawExtraction = record out { predicates = out.predicates ++ split_and_copy e } in
    let c = collect-Collected i out' h v in
    record {
      raw = c.raw;
      returned = c.returned;
      is_raw = c.is_raw;
      names = c.names;
      predicates = c.predicates ∙ append_assoc' out.predicates (split_and_copy e) (conjuncts i);
    }
collect-Collected (join t e l r) out h v =
    let out' : RawExtraction = record out { predicates = out.predicates ++ split_and_copy e } in
    let a = collect-Collected l out' h.0 v in
    let b = collect-Collected r a.raw h.1 a.is_raw in
    record {
      raw = b.raw;
      returned = rw a.returned b.returned;
      is_raw = b.is_raw;
      names =
          b.names
          ∙ ap (λ ns. ns ++ scan_names r) a.names
          ∙ append_assoc' (relation_names out.relations) (scan_names l) (scan_names r);
      predicates =
          b.predicates
          ∙ ap (λ es. es ++ conjuncts r) a.predicates
          ∙ append_assoc' (out.predicates ++ split_and_copy e) (conjuncts l) (conjuncts r)
          ∙ append_assoc' out.predicates (split_and_copy e) (conjuncts l ++ conjuncts r);
    }
collect-Collected _ out h v = absurd h

pub add_local-weight :
    (v : Expression → ℕ) (i : ℕ) (pred : Expression) (rs : List Relation)
    → i < length rs
    → local_weight v (add_local i pred rs) ≡ local_weight v rs + v pred
unfolding add_local
add_local-weight v i pred [] h = elim h [ ]
add_local-weight v zero pred (r ∷ rs) h = omega (arith, total-append v r.local_filters (pred ∷ []))
add_local-weight v (suc i) pred (r ∷ rs) h =
    omega (arith, add_local-weight v i pred rs (omega arith))

pub add_local-numbered :
    (i k : ℕ) (pred : Expression) (rs : List Relation)
    → AreNumbered k rs
    → AreNumbered k (add_local i pred rs)
unfolding add_local
add_local-numbered zero k pred [] h = h
add_local-numbered (suc i) k pred [] h = h
add_local-numbered zero k pred (r ∷ rs) h = h
add_local-numbered (suc i) k pred (r ∷ rs) h = (h.0, add_local-numbered i (suc k) pred rs h.1)

pub add_local-names :
    (i : ℕ) (pred : Expression) (rs : List Relation)
    → relation_names (add_local i pred rs) ≡ relation_names rs
unfolding add_local
add_local-names zero pred [] = refl
add_local-names (suc i) pred [] = refl
add_local-names zero pred (r ∷ rs) = refl
add_local-names (suc i) pred (r ∷ rs) =
    ap (λ (ns : List (String × Option String)). (r.table_name, r.alias) ∷ ns)
      (add_local-names i pred rs)

pub length-add_local :
    (i : ℕ) (pred : Expression) (rs : List Relation) → length (add_local i pred rs) ≡ length rs
unfolding add_local
length-add_local zero pred [] = refl
length-add_local (suc i) pred [] = refl
length-add_local zero pred (r ∷ rs) = refl
length-add_local (suc i) pred (r ∷ rs) = ap suc (length-add_local i pred rs)
