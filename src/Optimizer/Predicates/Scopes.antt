-- ===== src/Optimizer/Predicates/Scopes.antt =====
-- Plans of scans, filters and joins, and the conjuncts that refer to their sides.
use sql_query_optimizer.Prelude.{
  String, true, false, ◌==◌, ◌≡◌, sym, ◌∙◌, none, some, List, [], ◌∷◌, ◌++◌, contains, value_or,
  All, All-append, arith, eq_iff, Bool-cases, inl, inr, ◌⊎◌,
}
use sql_query_optimizer.Ast.{
  Expression, column, literal, binary_op, unary_op, function, wildcard, JoinType,
}
use sql_query_optimizer.Plan.{LogicalPlan, scan, filter, join, aggregate, project, sort, limit}
use sql_query_optimizer.Execution.RowSchema.{Entry}
use sql_query_optimizer.Execution.Sides.{Lacks, ApartFrom}
use sql_query_optimizer.Optimizer.Expressions.{referenced_tables, scan_aliases, collect_aliases}
use sql_query_optimizer.Optimizer.Expressions.Names.{
  mentions, any-referenced_tables, any-collect_aliases,
}
use sql_query_optimizer.Optimizer.Predicates.{refers_to}

-- Scans, filters and joins alone.
abbrev pub IsJoinBlock : LogicalPlan → Type 0
IsJoinBlock (scan _ _ _) = Unit
IsJoinBlock (filter _ i) = IsJoinBlock i
IsJoinBlock (join _ _ l r) = IsJoinBlock l × IsJoinBlock r
IsJoinBlock _ = ⊥

-- Every join is over join blocks, as in the plans that the planner makes.
abbrev pub JoinsOverBlocks : LogicalPlan → Type 0
JoinsOverBlocks (scan _ _ _) = Unit
JoinsOverBlocks (filter _ i) = JoinsOverBlocks i
JoinsOverBlocks (join _ _ l r) = IsJoinBlock l × IsJoinBlock r
JoinsOverBlocks (aggregate _ _ i) = JoinsOverBlocks i
JoinsOverBlocks (project _ i) = JoinsOverBlocks i
JoinsOverBlocks (sort _ i) = JoinsOverBlocks i
JoinsOverBlocks (limit _ i) = JoinsOverBlocks i

pub IsJoinBlock-JoinsOverBlocks : (p : LogicalPlan) → IsJoinBlock p → JoinsOverBlocks p
IsJoinBlock-JoinsOverBlocks (scan _ _ _) h = tt
IsJoinBlock-JoinsOverBlocks (filter _ i) h = IsJoinBlock-JoinsOverBlocks i h
IsJoinBlock-JoinsOverBlocks (join _ _ l r) h = h
IsJoinBlock-JoinsOverBlocks _ h = absurd h

-- Every column has a qualifier; no column has one.
abbrev pub IsQualified : Expression → Type 0
IsQualified (column none c) = ⊥
IsQualified (column (some t) c) = Unit
IsQualified (binary_op l op r) = IsQualified l × IsQualified r
IsQualified (unary_op op e) = IsQualified e
IsQualified _ = Unit

-- A conjunct does not mix qualified and unqualified columns.
abbrev pub IsUniform : Expression → Type 0
IsUniform e = IsQualified e ⊎ (referenced_tables e ≡ [])

-- The qualifiers of a schema are among the names.
abbrev pub Under : List String → List Entry → Type 0
Under names es = All (λ e. contains names (value_or e.table "") ≡ true) es

Lacks-Under :
    (names : List String) (t : String) (es : List Entry)
    → Under names es
    → contains names t ≡ false
    → Lacks es t
Lacks-Under names t [] h k = tt
Lacks-Under names t (e ∷ es) h k = (
  elim (Bool-cases (value_or e.table "" == t)) [
    | inl same ↦ absurd (clash (sym k ∙ (rw (← (eq_iff (value_or e.table "") t).0 same) h.0)))
    | inr differ ↦ differ
  ],
  Lacks-Under names t es h.1 k,
)
  where
    clash : false ≡ true → ⊥
    clash q = cc

mentions-ApartFrom :
    (names : List String) (es : List Entry) (e : Expression)
    → Under names es
    → IsQualified e
    → mentions (contains names) e ≡ false
    → ApartFrom es e
unfolding mentions
mentions-ApartFrom names es (column none c) h q k = q
mentions-ApartFrom names es (column (some t) c) h q k = Lacks-Under names t es h k
mentions-ApartFrom names es (binary_op l op r) h q k = (
  mentions-ApartFrom names es l h q.0 (ground arith),
  mentions-ApartFrom names es r h q.1 (ground arith),
)
mentions-ApartFrom names es (unary_op op e) h q k = mentions-ApartFrom names es e h q k
mentions-ApartFrom names es (function f args) h q k = tt
mentions-ApartFrom names es (literal v) h q k = tt
mentions-ApartFrom names es wildcard h q k = tt

pub refers_to-ApartFrom :
    (names : List String) (es : List Entry) (e : Expression)
    → Under names es
    → IsQualified e
    → refers_to names e ≡ false
    → ApartFrom es e
unfolding refers_to
refers_to-ApartFrom names es e h q k =
    mentions-ApartFrom names es e h q (sym (any-referenced_tables (contains names) e) ∙ k)

pub refers_to-IsQualified :
    (names : List String) (e : Expression) → IsUniform e → refers_to names e ≡ true → IsQualified e
unfolding refers_to
refers_to-IsQualified names e (inl q) k = q
refers_to-IsQualified names e (inr n) k = absurd (clash (rw n at k))
  where
    clash : false ≡ true → ⊥
    clash q = cc

Under-mono :
    (xs ys : List String) (es : List Entry)
    → ((t : String) → contains xs t ≡ true → contains ys t ≡ true)
    → Under xs es
    → Under ys es
Under-mono xs ys [] m h = tt
Under-mono xs ys (e ∷ es) m h = (m (value_or e.table "") h.0, Under-mono xs ys es m h.1)

-- The schema of a join stands under the aliases of the join.
pub Under-join :
    (t : JoinType) (c : Expression) (l r : LogicalPlan) (L R : List Entry)
    → Under (scan_aliases l) L
    → Under (scan_aliases r) R
    → Under (scan_aliases (join t c l r)) (L ++ R)
unfolding scan_aliases
Under-join t c l r L R hl hr =
    let step = λ (s : String). any-collect_aliases (λ u. u == s) r (collect_aliases l []) in
    All-append _ L R
      (Under-mono (scan_aliases l) (scan_aliases (join t c l r)) L (λ s h. ground (arith, step s))
        hl)
      (Under-mono (scan_aliases r) (scan_aliases (join t c l r)) R (λ s h. ground (arith, step s))
        hr)
