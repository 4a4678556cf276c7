-- ===== src/Partition.antt =====
-- distributed/partition.cpp and distributed/properties.hpp: which worker owns which row.
-- `num_workers` is below 2 ^ 63, so its cast to `int64_t` keeps its value.
pub mod Cover
pub mod Groups
use sql_query_optimizer.Prelude.{
  ℕ, zero, suc, ◌+◌, ◌-◌, ◌%◌, String, Bool, true, false, ◌&&◌, ◌==◌, Option, none, some, List, [],
  ◌∷◌, any, keep_if, get_elem?, eqb, if◌then◌else◌,
}
use sql_query_optimizer.Prelude.Int.{ℤ, pos, negsuc}
use sql_query_optimizer.Ast.{Literal, integer, Expression, column}
use sql_query_optimizer.Schema.{Catalog, TableSchema}
use sql_query_optimizer.Storage.{Table, Database, add_table, get_table}
use sql_query_optimizer.Execution.Eval.{Row}
use sql_query_optimizer.Execution.RowSchema.{same_option}

abbrev pub minus : ℕ → ℤ
minus zero = pos 0
minus (suc k) = negsuc k

-- C++ `%`, whose result has the sign of the left operand.
unfoldable pub remainder : ℤ → ℕ → ℤ
remainder (pos n) w = pos (n % w)
remainder (negsuc n) w = minus ((n + 1) % w)

-- `m < 0 ? m + num_workers : m`, as an unsigned number.
abbrev pub wrap_negative : ℤ → ℕ → ℕ
wrap_negative (pos m) w = m
wrap_negative (negsuc k) w = w - (k + 1)

unfoldable pub partition_of : ℤ → ℕ → ℕ
unfolding remainder
partition_of id zero = 0
partition_of id (suc w) = wrap_negative (remainder id (suc w)) (suc w)

-- The loop for the "id" column, from index `i` on.
unfoldable pub find_id : List String → ℕ → Option ℕ
find_id [] i = none
find_id (c ∷ cs) i = if c == "id" then some i else find_id cs (i + 1)

abbrev pub id_owned : Option Literal → ℕ → ℕ → Bool
id_owned (some (integer id)) worker n = eqb (partition_of id n) worker
id_owned _ worker n = false

-- The test of the row loop.
unfoldable pub owns : ℕ → ℕ → ℕ → Row → Bool
unfolding partition_of
owns id_col worker n row = id_owned (get_elem? row id_col) worker n

abbrev pub owned_part : Option ℕ → Table → ℕ → ℕ → Table
owned_part none full worker n = full
owned_part (some id_col) full worker n = record {
  column_names = full.column_names;
  rows = keep_if (owns id_col worker n) full.rows;
}

unfoldable pub filter_table_to_partition : Table → ℕ → ℕ → Table
unfolding owns find_id
filter_table_to_partition full worker n = owned_part (find_id full.column_names 0) full worker n

-- The loop over the catalog's table names.
unfoldable pub filter_tables : Database → List String → ℕ → ℕ → Database → Database
unfolding filter_table_to_partition get_table add_table
filter_tables full [] worker n db = db
filter_tables full (name ∷ names) worker n db =
    filter_tables full names worker n (elim (get_table full name) [
      | none ↦ db
      | some t ↦ add_table name (filter_table_to_partition t worker n) db
    ])

unfoldable pub filter_database_to_partition : Database → List String → ℕ → ℕ → Database
unfolding filter_tables
filter_database_to_partition full names worker n = filter_tables full names worker n []

pub record PartitionKey : Type 0 where
  pub table : Option String
  pub column_name : String

unfoldable pub matches : PartitionKey → Expression → Bool
matches key (column t c) = same_option t key.table && c == key.column_name
matches key _ = false

unfoldable pub partition_key_is_safe_for_group_by : PartitionKey → List Expression → Bool
unfolding matches
partition_key_is_safe_for_group_by key group_by = any (matches key) group_by
