-- ===== src/Optimizer/Projections/Columns.antt =====
-- Which columns the scans list after projection pushdown.
use sql_query_optimizer.Prelude.{
  String, Bool, true, false, ◌||◌, ◌==◌, ◌≡◌, List, [], ◌∷◌, any, contains, insert_name, arith,
}
use sql_query_optimizer.Ast.{
  Expression, Expressions, column, literal, binary_op, unary_op, function, wildcard, nil, cons,
}
use sql_query_optimizer.Plan.{LogicalPlan, scan, filter, join, aggregate, project, sort, limit}
use sql_query_optimizer.Optimizer.Expressions.{add_columns_from_expr, add_columns_from_args}
use sql_query_optimizer.Optimizer.Expressions.Names.{any-insert_name}
use sql_query_optimizer.Optimizer.Projections.{
  add_columns_from_list, projected_exprs, aggregate_args, sort_keys, columns_in_project_exprs,
  insert_names, push_projections,
}

unfoldable mutual
  -- The column name stands in the expression.
  pub occurs : String → Expression → Bool
  occurs n (column t c) = c == n
  occurs n (binary_op l op r) = occurs n l || occurs n r
  occurs n (unary_op op e) = occurs n e
  occurs n (function f args) = occurs_args n args
  occurs n (literal v) = false
  occurs n wildcard = false

  pub occurs_args : String → Expressions → Bool
  occurs_args n nil = false
  occurs_args n (cons e es) = occurs n e || occurs_args n es

abbrev pub occurs_in : String → List Expression → Bool
occurs_in n es = any (occurs n) es

mutual
  unfolding occurs add_columns_from_expr

  contains-add_columns :
      (n : String) (e : Expression) (out : List String)
      → contains (add_columns_from_expr e out) n ≡ (contains out n || occurs n e)
  contains-add_columns n (column t c) out = any-insert_name (λ u. u == n) c out
  contains-add_columns n (binary_op l op r) out =
      ground (
        arith,
        contains-add_columns n l out,
        contains-add_columns n r (add_columns_from_expr l out),
      )
  contains-add_columns n (unary_op op e) out = contains-add_columns n e out
  contains-add_columns n (function f args) out = contains-add_args n args out
  contains-add_columns n (literal v) out = ground arith
  contains-add_columns n wildcard out = ground arith

  contains-add_args :
      (n : String) (es : Expressions) (out : List String)
      → contains (add_columns_from_args es out) n ≡ (contains out n || occurs_args n es)
  contains-add_args n nil out = ground arith
  contains-add_args n (cons e es) out =
      ground
        (arith, contains-add_columns n e out, contains-add_args n es (add_columns_from_expr e out))

-- The columns that one expression adds are exactly those that stand in it.
pub contains-add_columns_from_expr :
    (n : String) (e : Expression) (out : List String)
    → contains (add_columns_from_expr e out) n ≡ (contains out n || occurs n e)
contains-add_columns_from_expr = contains-add_columns

contains-add_list :
    (n : String) (es : List Expression) (out : List String)
    → contains (add_columns_from_list es out) n ≡ (contains out n || occurs_in n es)
unfolding add_columns_from_list
contains-add_list n [] out = ground arith
contains-add_list n (e ∷ es) out =
    ground
      (arith, contains-add_columns n e out, contains-add_list n es (add_columns_from_expr e out))

contains-insert_names :
    (n : String) (ts out : List String)
    → contains (insert_names ts out) n ≡ (contains out n || contains ts n)
unfolding insert_names
contains-insert_names n [] out = ground arith
contains-insert_names n (t ∷ ts) out =
    ground
      (arith, any-insert_name (λ u. u == n) t out, contains-insert_names n ts (insert_name t out))

-- Every scan under the plan lists the column.
abbrev pub ReadsEverywhere : String → LogicalPlan → Type 0
ReadsEverywhere n (scan _ _ cols) = contains cols n ≡ true
ReadsEverywhere n (filter _ i) = ReadsEverywhere n i
ReadsEverywhere n (join _ _ l r) = ReadsEverywhere n l × ReadsEverywhere n r
ReadsEverywhere n (aggregate _ _ i) = ReadsEverywhere n i
ReadsEverywhere n (project _ i) = ReadsEverywhere n i
ReadsEverywhere n (sort _ i) = ReadsEverywhere n i
ReadsEverywhere n (limit _ i) = ReadsEverywhere n i

-- A node's expressions find their columns in every scan below it.
abbrev FindsIn : List Expression → LogicalPlan → Type 0
FindsIn es p = (n : String) → occurs_in n es ≡ true → ReadsEverywhere n p

abbrev pub IsSupplied : LogicalPlan → Type 0
IsSupplied (scan _ _ _) = Unit
IsSupplied (filter e i) = FindsIn (e ∷ []) i × IsSupplied i
IsSupplied (join _ c l r) = FindsIn (c ∷ []) l × FindsIn (c ∷ []) r × IsSupplied l × IsSupplied r
IsSupplied (aggregate g a i) = FindsIn g i × FindsIn (aggregate_args a) i × IsSupplied i
IsSupplied (project es i) = FindsIn (projected_exprs es) i × IsSupplied i
IsSupplied (sort o i) = FindsIn (sort_keys o) i × IsSupplied i
IsSupplied (limit _ i) = IsSupplied i

-- What is needed above is read everywhere below.
push_projections-reads :
    (n : String) (p : LogicalPlan) (needed : List String)
    → contains needed n ≡ true
    → ReadsEverywhere n (push_projections p needed)
unfolding push_projections
push_projections-reads n (scan _ _ _) needed h = h
push_projections-reads n (filter e i) needed h =
    push_projections-reads n i _ (ground (arith, contains-add_columns n e needed))
push_projections-reads n (join t c l r) needed h =
    let more : contains (add_columns_from_expr c needed) n ≡ true =
      ground (arith, contains-add_columns n c needed) in
    (push_projections-reads n l _ more, push_projections-reads n r _ more)
push_projections-reads n (aggregate g a i) needed h = push_projections-reads n i _ (
    ground (
      arith,
      contains-add_list n g needed,
      contains-add_list n (aggregate_args a) (add_columns_from_list g needed),
    ))
push_projections-reads n (project es i) needed h =
    push_projections-reads n i _
      (ground (arith, contains-insert_names n needed (columns_in_project_exprs es)))
push_projections-reads n (sort o i) needed h =
    push_projections-reads n i _ (ground (arith, contains-add_list n (sort_keys o) needed))
push_projections-reads n (limit k i) needed h = push_projections-reads n i needed h

-- After projection pushdown, whatever is needed above, each node finds every column that its
-- expressions name in the column list of every scan below it.
pub push_projections-IsSupplied :
    (p : LogicalPlan) (needed : List String) → IsSupplied (push_projections p needed)
unfolding push_projections columns_in_project_exprs
push_projections-IsSupplied (scan _ _ _) needed = tt
push_projections-IsSupplied (filter e i) needed = (
  λ n h. push_projections-reads n i _ (ground (arith, contains-add_columns n e needed)),
  push_projections-IsSupplied i _,
)
push_projections-IsSupplied (join t c l r) needed = (
  λ n h. push_projections-reads n l _ (ground (arith, contains-add_columns n c needed)),
  λ n h. push_projections-reads n r _ (ground (arith, contains-add_columns n c needed)),
  push_projections-IsSupplied l _,
  push_projections-IsSupplied r _,
)
push_projections-IsSupplied (aggregate g a i) needed = (
  λ n h. push_projections-reads n i _ (
      ground (
        arith,
        contains-add_list n g needed,
        contains-add_list n (aggregate_args a) (add_columns_from_list g needed),
      )),
  λ n h.
      push_projections-reads n i _
        (ground (arith, contains-add_list n (aggregate_args a) (add_columns_from_list g needed))),
  push_projections-IsSupplied i _,
)
push_projections-IsSupplied (project es i) needed = (
  λ n h. push_projections-reads n i _ (
      ground (
        arith,
        contains-insert_names n needed (columns_in_project_exprs es),
        contains-add_list n (projected_exprs es) [],
      )),
  push_projections-IsSupplied i _,
)
push_projections-IsSupplied (sort o i) needed = (
  λ n h. push_projections-reads n i _ (ground (arith, contains-add_list n (sort_keys o) needed)),
  push_projections-IsSupplied i _,
)
push_projections-IsSupplied (limit k i) needed = push_projections-IsSupplied i needed
