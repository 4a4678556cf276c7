-- ===== src/Storage/Load/Shape.antt =====
-- The shape of loaded tables.
use sql_query_optimizer.Prelude.{
  ℕ, suc, String, ◌==◌, ◌≡◌, refl, sym, ap, ◌∙◌, Option, none, some, List, [], ◌∷◌, length, All,
  eqb, eqb→eq, arith, Bool-cases, inl, inr,
}
use sql_query_optimizer.Ast.{Double}
use sql_query_optimizer.Schema.{DataType, TableSchema, Catalog, get_column, get}
use sql_query_optimizer.Storage.{Table, Database, add_table, IsRectangular, AreRectangular}
use sql_query_optimizer.Storage.Csv.{read_csv}
use sql_query_optimizer.Execution.Eval.{Row}
use sql_query_optimizer.Execution.Result.{ok, bind-ok, ok-injective}
use sql_query_optimizer.Storage.Load.{
  parse_field, column_types, parse_row, parse_rows, load_table_from_csv, load_tables,
  load_database_from_directory, known_type, typed_table, load_one,
}

column_types-length :
    (schema : TableSchema) (names : List String) (ts : List DataType)
    → column_types schema names ≡ ok ts
    → length ts ≡ length names
unfolding column_types
column_types-length schema [] ts h = rw (← ok-injective h) refl
column_types-length schema (name ∷ names) ts h =
    let (t, p, q) = bind-ok (known_type (get_column schema name)) _ h in
    let (rest, r, u) = bind-ok (column_types schema names) _ q in
    rw (← ok-injective u) (ap suc (column_types-length schema names rest r))

module _ (stod : String → Option Double) where
  parse_row-length :
      (fs : List String) (ts : List DataType) (row : Row)
      → length fs ≡ length ts
      → parse_row stod fs ts ≡ ok row
      → length row ≡ length ts
  unfolding parse_row
  parse_row-length [] [] row h k = rw (← ok-injective k) refl
  parse_row-length [] (t ∷ ts) row h k = absurd (omega arith)
  parse_row-length (f ∷ fs) [] row h k = absurd (omega arith)
  parse_row-length (f ∷ fs) (t ∷ ts) row h k =
      let (v, p, q) = bind-ok (parse_field stod f t) _ k in
      let (vs, r, u) = bind-ok (parse_row stod fs ts) _ q in
      rw (← ok-injective u) (ap suc (parse_row-length fs ts vs (omega arith) r))

  parse_rows-wide :
      (width : ℕ) (ts : List DataType) (raws : List (List String)) (rows : List Row)
      → length ts ≡ width
      → parse_rows stod width ts raws ≡ ok rows
      → All (λ row. length row ≡ width) rows
  unfolding parse_rows
  parse_rows-wide width ts [] rows w h = rw (← ok-injective h) tt
  parse_rows-wide width ts (raw ∷ raws) rows w h = elim (Bool-cases (eqb (length raw) width)) [
    | inr e ↦ let k = rw e at h in cc
    | inl e ↦
        let (row, p, q) = bind-ok (parse_row stod raw ts) _ (rw e at h) in
        let (rest, r, u) = bind-ok (parse_rows stod width ts raws) _ q in
        let same : length raw ≡ width = eqb→eq (length raw) width e in
        rw (← ok-injective u)
          (parse_row-length raw ts row (same ∙ sym w) p ∙ w, parse_rows-wide width ts raws rest w r)
  ]

  typed_table-IsRectangular :
      (schema : TableSchema) (raws : List (List String)) (t : Table)
      → typed_table stod schema raws ≡ ok t
      → IsRectangular t
  unfolding typed_table
  typed_table-IsRectangular schema [] t h = rw (← ok-injective h) tt
  typed_table-IsRectangular schema (header ∷ raws) t h =
      let (types, p, q) = bind-ok (column_types schema header) _ h in
      let (rows, r, u) = bind-ok (parse_rows stod (length header) types raws) _ q in
      rw (← ok-injective u) (
        parse_rows-wide (length header) types raws rows (column_types-length schema header types p)
          r)

  add_table-AreRectangular :
      (name : String) (t : Table) (db : Database)
      → IsRectangular t
      → AreRectangular db
      → AreRectangular (add_table name t db)
  unfolding add_table
  add_table-AreRectangular name t [] h k = (h, tt)
  add_table-AreRectangular name t ((n, u) ∷ db) h k = elim (Bool-cases (n == name)) [
    | inl e ↦ rw e (h, k.1)
    | inr e ↦ rw e (k.0, add_table-AreRectangular name t db h k.1)
  ]

  load_one-AreRectangular :
      (schema : Option TableSchema) (file : Option String) (name : String) (db db' : Database)
      → AreRectangular db
      → load_one stod schema file name db ≡ ok db'
      → AreRectangular db'
  unfolding load_table_from_csv load_one
  load_one-AreRectangular none file name db db' k h = rw (← ok-injective h) k
  load_one-AreRectangular (some schema) none name db db' k h = rw (← ok-injective h) k
  load_one-AreRectangular (some schema) (some text) name db db' k h =
      let (t, p, q) = bind-ok (typed_table stod schema (read_csv text)) _ h in
      rw (← ok-injective q) (
        add_table-AreRectangular name t db (typed_table-IsRectangular schema (read_csv text) t p) k)

  load_tables-AreRectangular :
      (files : String → Option String) (catalog : Catalog) (names : List String) (db db' : Database)
      → AreRectangular db
      → load_tables stod files catalog names db ≡ ok db'
      → AreRectangular db'
  unfolding load_tables
  load_tables-AreRectangular files catalog [] db db' k h = rw (← ok-injective h) k
  load_tables-AreRectangular files catalog (name ∷ names) db db' k h =
      let (db₁, p, q) = bind-ok (load_one stod (get catalog name) (files name) name db) _ h in
      load_tables-AreRectangular files catalog names db₁ db'
        (load_one-AreRectangular (get catalog name) (files name) name db db₁ k p) q

  -- Whatever the files hold, a database that loads has rectangular tables alone: every row of a table
  -- has a value for each of its columns.
  pub load_database-AreRectangular :
      (files : String → Option String) (catalog : Catalog) (names : List String) (db : Database)
      → load_database_from_directory stod files catalog names ≡ ok db
      → AreRectangular db
  unfolding load_database_from_directory
  load_database-AreRectangular files catalog names db h =
      load_tables-AreRectangular files catalog names [] db tt h
