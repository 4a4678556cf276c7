-- ===== src/Physical/Enumerator/Connected.antt =====
-- optimizer/join_enumerator.cpp: the sets of relations that joins can connect.
use mathlib.Core.Option.{some-injective}
use sql_query_optimizer.Prelude.{
  ℕ, zero, suc, ◌+◌, ◌-◌, ◌^◌, ◌≤◌, ◌<◌, ◌≡◌, refl, true, false, Bool-cases, Option, none, some,
  inl, inr, List, [], ◌∷◌, length, get_elem?, eqb, arith,
}
use sql_query_optimizer.JoinGraph.{JoinEdge, JoinGraph}
use sql_query_optimizer.Physical.Enumerator.{
  test_bit, popcount, connects, find_connecting_edge, has_relation,
}
use sql_query_optimizer.Physical.Enumerator.Masks.{
  pow_positive, test_bit-put, put-lt, pow-lt, popcount-put, popcount-one,
}

-- The relations of the mask can be joined one by one, each by an edge to those before.
pub data IsConnected (graph : JoinGraph) : ℕ → Type 0 where
  one_relation : (i : ℕ) → i < length graph.relations → IsConnected graph (2 ^ i)
  one_more :
      (mask r k : ℕ) (edge : JoinEdge)
      → IsConnected graph mask
      → r < length graph.relations
      → test_bit mask r ≡ false
      → get_elem? graph.edges k ≡ some edge
      → connects mask (2 ^ r) edge ≡ true
      → IsConnected graph (mask + 2 ^ r)

-- An edge that connects is found, or another.
abbrev pub IsFound {ℓ} : {A : Type ℓ} → Option A → Type 0
IsFound none = ⊥
IsFound (some a) = Unit

pub connecting-IsFound :
    (left right : ℕ) (edges : List JoinEdge) (k : ℕ) (edge : JoinEdge)
    → get_elem? edges k ≡ some edge
    → connects left right edge ≡ true
    → IsFound (find_connecting_edge left right edges)
unfolding find_connecting_edge
connecting-IsFound left right [] k edge at h = cc
connecting-IsFound left right (x ∷ edges) zero edge at h =
    let same = some-injective x edge at in
    let there : connects left right x ≡ true = rw same h in rw there tt
connecting-IsFound left right (x ∷ edges) (suc k) edge at h =
    elim (Bool-cases (connects left right x)) [
      | inl e ↦ rw e tt
      | inr e ↦ rw e (connecting-IsFound left right edges k edge at h)
    ]

pub eq→eqb : (a b : ℕ) → a ≡ b → eqb a b ≡ true
eq→eqb a b h = ground arith

-- A mask of relations of the graph, at least one of them.
pub record IsSubset (graph : JoinGraph) (mask : ℕ) : Type 0 where
  pub positive : 1 ≤ mask
  pub within : mask < 2 ^ length graph.relations
  pub some_bit : 1 ≤ popcount 64 mask

pub IsConnected-IsSubset :
    (graph : JoinGraph) (mask : ℕ)
    → length graph.relations ≤ 64
    → IsConnected graph mask
    → IsSubset graph mask
IsConnected-IsSubset graph _ n (one_relation i h) = record {
  positive = pow_positive i;
  within = pow-lt (length graph.relations) i h;
  some_bit = omega (arith, popcount-one 64 i (omega arith));
}
IsConnected-IsSubset graph _ n (one_more mask r k edge c h off at e) =
    let s = IsConnected-IsSubset graph mask n c in
    record {
      positive = omega (arith, s.positive);
      within = put-lt (length graph.relations) r mask h s.within off;
      some_bit = omega (arith, popcount-put 64 r mask (omega arith) off);
    }

pub put-has_relation :
    (mask r : ℕ) → test_bit mask r ≡ false → 1 ≤ mask → has_relation (mask + 2 ^ r) r ≡ true
unfolding has_relation
put-has_relation mask r off h =
    let back : mask + 2 ^ r - 2 ^ r ≡ mask = omega arith in
    let others : eqb mask 0 ≡ false = ground arith in
    rw (test_bit-put r mask off, back, others) refl

pub get_elem?-lt {ℓ} :
    {A : Type ℓ} (xs : List A) (i : ℕ) (x : A) → get_elem? xs i ≡ some x → i < length xs
get_elem?-lt [] i x h = cc
get_elem?-lt (y ∷ xs) zero x h = omega arith
get_elem?-lt (y ∷ xs) (suc i) x h = omega (arith, get_elem?-lt xs i x h)
