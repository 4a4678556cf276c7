-- ===== src/Schema.antt =====
-- logical/schema.hpp and logical/schema.cpp: column and table definitions, and the catalog of
-- tables. `std::unordered_map` is an association list in which a name stands once.
use sql_query_optimizer.Prelude.{
  ℕ, String, Bool, true, false, Option, none, some, List, [], ◌∷◌, ◌==◌, any, if◌then◌else◌,
}

pub data DataType : Type 0 where
  int float text boolean : DataType

pub record ColumnDef : Type 0 where
  pub name : String
  pub data_type : DataType
  pub nullable : Bool

pub record TableStats : Type 0 where
  pub row_count : ℕ
  pub avg_row_bytes : ℕ

pub record TableSchema : Type 0 where
  pub columns : List ColumnDef
  pub stats : TableStats
  pub indexed_columns : List String

abbrev find_column : String → List ColumnDef → Option ColumnDef
find_column name [] = none
find_column name (c ∷ cs) = if c.name == name then some c else find_column name cs

unfoldable pub get_column : TableSchema → String → Option ColumnDef
get_column s name = find_column name s.columns

unfoldable pub has_index_on : TableSchema → String → Bool
has_index_on s column = any (λ c. c == column) s.indexed_columns

abbrev pub Catalog : Type 0
Catalog = List (String × TableSchema)

unfoldable pub register_table : String → TableSchema → Catalog → Catalog
register_table name schema [] = (name, schema) ∷ []
register_table name schema ((n, s) ∷ c) =
    if n == name then (name, schema) ∷ c else (n, s) ∷ register_table name schema c

unfoldable pub get : Catalog → String → Option TableSchema
get [] name = none
get ((n, s) ∷ c) name = if n == name then some s else get c name

abbrev col : String → DataType → Bool → ColumnDef
col n t b = record { name = n; data_type = t; nullable = b }

abbrev customers : TableSchema
customers = record {
  columns =
      col "id" int false
      ∷ col "name" text false
      ∷ col "email" text true
      ∷ col "country" text true
      ∷ [];
  stats = record { row_count = 10_000; avg_row_bytes = 128 };
  indexed_columns = "id" ∷ [];
}

abbrev orders : TableSchema
orders = record {
  columns =
      col "id" int false
      ∷ col "customer_id" int false
      ∷ col "product_id" int false
      ∷ col "total" float false
      ∷ col "status" text true
      ∷ [];
  stats = record { row_count = 500_000; avg_row_bytes = 64 };
  indexed_columns = "id" ∷ "customer_id" ∷ "product_id" ∷ [];
}

abbrev products : TableSchema
products = record {
  columns =
      col "id" int false
      ∷ col "name" text false
      ∷ col "price" float false
      ∷ col "category" text false
      ∷ [];
  stats = record { row_count = 2_000; avg_row_bytes = 96 };
  indexed_columns = "id" ∷ [];
}

unfoldable pub with_test_tables : Catalog
unfolding register_table
with_test_tables =
    register_table "products" products
      (register_table "orders" orders (register_table "customers" customers []))
