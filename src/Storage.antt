-- ===== src/Storage.antt =====
-- storage/table.hpp and storage/database.hpp: tables of rows, and the tables of a database by name.
-- `std::unordered_map` is an association list in which a name stands once.
pub mod Csv
pub mod Load
use sql_query_optimizer.Prelude.{
  String, Option, none, some, List, [], ◌∷◌, ◌==◌, ◌≡◌, All, length, if◌then◌else◌,
}
use sql_query_optimizer.Execution.Eval.{Row}

pub record Table : Type 0 where
  pub column_names : List String
  pub rows : List Row

abbrev pub Database : Type 0
Database = List (String × Table)

unfoldable pub add_table : String → Table → Database → Database
add_table name table [] = (name, table) ∷ []
add_table name table ((n, t) ∷ db) =
    if n == name then (name, table) ∷ db else (n, t) ∷ add_table name table db

unfoldable pub get_table : Database → String → Option Table
get_table [] name = none
get_table ((n, t) ∷ db) name = if n == name then some t else get_table db name

-- Every row has a value for each column, which the loader enforces.
abbrev pub IsRectangular : Table → Type 0
IsRectangular t = All (λ row. length row ≡ length t.column_names) t.rows

abbrev pub AreRectangular : Database → Type 0
AreRectangular db = All (λ entry. IsRectangular entry.1) db
