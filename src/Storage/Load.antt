-- ===== src/Storage/Load.antt =====
-- storage/table.cpp and database.cpp: typed tables from the rows of CSV files. The files are a
-- function from a table's name to its text, if the file exists; `std::stod` is a parameter.
pub mod Shape
use Prim.Native.Char.{Char, code}
use sql_query_optimizer.Prelude.{
  ℕ, ◌+◌, ◌-◌, ◌*◌, String, Bool, true, false, ◌&&◌, ◌||◌, ◌==◌, Option, none, some, List, [], ◌∷◌,
  value_or, length, eqb, ltb, leb, if◌then◌else◌,
}
use sql_query_optimizer.Prelude.Text.{is_space, is_digit, skip_spaces}
use sql_query_optimizer.Prelude.Int.{ℤ, pos, sub_ℕ, in_int64}
use sql_query_optimizer.Ast.{Double, Literal, integer, floating, str, boolean, null}
use sql_query_optimizer.Schema.{DataType, TableSchema, ColumnDef, Catalog, get_column, get}
use sql_query_optimizer.Storage.{Table, Database, add_table}
use sql_query_optimizer.Storage.Csv.{read_csv}
use sql_query_optimizer.Execution.Eval.{Row}
use sql_query_optimizer.Execution.Result.{
  Result, ok, err, ◌>>=◌, unknown_column, wrong_width, bad_number,
}

-- The number that the leading digits stand for, if there are any.
abbrev digits_value : String → Option ℕ → Option ℕ
digits_value String.[] acc = acc
digits_value (String.◌∷◌ c s) acc =
    let rest = digits_value s (some (value_or acc 0 * 10 + (code c - b'0'))) in
    if is_digit c then rest else acc

abbrev signed : Bool → Option ℕ → Result ℤ
signed negative none = err bad_number
signed negative (some n) =
    let m = if negative then sub_ℕ 0 n else pos n in if in_int64 m then ok m else err bad_number

abbrev after_spaces : String → Result ℤ
after_spaces String.[] = err bad_number
after_spaces (String.◌∷◌ c s) =
    if eqb (code c) b'-'
    then signed true (digits_value s none)
    else if eqb (code c) b'+'
    then signed false (digits_value s none)
    else signed false (digits_value (String.◌∷◌ c s) none)

-- `std::stoll`: spaces, a sign and digits; what follows them is not looked at.
unfoldable pub stoll : String → Result ℤ
stoll s = after_spaces (skip_spaces s)

abbrev float_field : Option Double → Result Literal
float_field none = err bad_number
float_field (some x) = ok (floating x)

abbrev known_type : Option ColumnDef → Result DataType
known_type none = err unknown_column
known_type (some c) = ok c.data_type

unfoldable pub column_types : TableSchema → List String → Result (List DataType)
unfolding get_column
column_types schema [] = ok []
column_types schema (name ∷ names) =
    known_type (get_column schema name) >>= λ t. column_types schema names >>= λ ts. ok (t ∷ ts)

module _ (stod : String → Option Double) where
  abbrev typed_field : String → DataType → Result Literal
  unfolding stoll
  typed_field field DataType.int = stoll field >>= λ n. ok (integer n)
  typed_field field DataType.float = float_field (stod field)
  typed_field field DataType.text = ok (str field)
  typed_field field DataType.boolean =
      ok (boolean (field == "true" || field == "1" || field == "TRUE"))

  unfoldable pub parse_field : String → DataType → Result Literal
  unfolding stoll
  parse_field String.[] type = ok null
  parse_field field type = typed_field field type

  -- The fields of a row as long as the types.
  unfoldable pub parse_row : List String → List DataType → Result Row
  unfolding parse_field
  parse_row (f ∷ fs) (t ∷ ts) = parse_field f t >>= λ v. parse_row fs ts >>= λ vs. ok (v ∷ vs)
  parse_row _ _ = ok []

  unfoldable pub parse_rows : ℕ → List DataType → List (List String) → Result (List Row)
  unfolding parse_row
  parse_rows width types [] = ok []
  parse_rows width types (raw ∷ raws) =
      let rest = parse_rows width types raws in
      if eqb (length raw) width
      then (parse_row raw types >>= λ row. rest >>= λ rows. ok (row ∷ rows))
      else err wrong_width

  abbrev typed_table : TableSchema → List (List String) → Result Table
  unfolding column_types parse_rows
  typed_table schema [] = ok (record { column_names = []; rows = [] })
  typed_table schema (header ∷ raws) = column_types schema header >>= λ types.
      parse_rows (length header) types raws >>= λ rows.
      ok (record { column_names = header; rows = rows })

  unfoldable pub load_table_from_csv : TableSchema → String → Result Table
  unfolding read_csv column_types parse_rows
  load_table_from_csv schema text = typed_table schema (read_csv text)

  -- One name of the catalog; a table without a file is left out.
  abbrev load_one : Option TableSchema → Option String → String → Database → Result Database
  unfolding load_table_from_csv add_table
  load_one (some schema) (some text) name db =
      load_table_from_csv schema text >>= λ t. ok (add_table name t db)
  load_one _ _ name db = ok db

  unfoldable pub load_tables :
      (String → Option String) → Catalog → List String → Database → Result Database
  unfolding load_table_from_csv add_table get
  load_tables files catalog [] db = ok db
  load_tables files catalog (name ∷ names) db =
      load_one (get catalog name) (files name) name db >>= λ db'.
      load_tables files catalog names db'

  unfoldable pub load_database_from_directory :
      (String → Option String) → Catalog → List String → Result Database
  unfolding load_tables
  load_database_from_directory files catalog names = load_tables files catalog names []
