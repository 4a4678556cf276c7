-- ===== src/Plan/Views.antt =====
-- What a plan reads and on what it joins, as lists from left to right.
use sql_query_optimizer.Prelude.{String, Option, List, [], ◌∷◌, ◌++◌}
use sql_query_optimizer.Ast.{Expression}
use sql_query_optimizer.Plan.{LogicalPlan, scan, filter, join, aggregate, project, sort, limit}

-- The scans of a plan from left to right: table, alias, columns.
unfoldable pub scans : LogicalPlan → List (String × Option String × List String)
scans (scan table alias cols) = (table, alias, cols) ∷ []
scans (filter e i) = scans i
scans (join t c l r) = scans l ++ scans r
scans (aggregate g a i) = scans i
scans (project es i) = scans i
scans (sort o i) = scans i
scans (limit n i) = scans i

-- The conditions of the joins, those of a join before those of its sides.
unfoldable pub join_conditions : LogicalPlan → List Expression
join_conditions (scan table alias cols) = []
join_conditions (filter e i) = join_conditions i
join_conditions (join t c l r) = c ∷ (join_conditions l ++ join_conditions r)
join_conditions (aggregate g a i) = join_conditions i
join_conditions (project es i) = join_conditions i
join_conditions (sort o i) = join_conditions i
join_conditions (limit n i) = join_conditions i

-- The table that a scan reads, with its alias.
abbrev pub table_of : String × Option String × List String → String × Option String
table_of (table, alias, cols) = (table, alias)
