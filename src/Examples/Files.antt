-- ===== src/Examples/Files.antt =====
-- CSV texts and the tables that are loaded from them.
use sql_query_optimizer.Prelude.{
  String, Bool, ◌==◌, ◌≡◌, refl, Option, none, some, List, [], ◌∷◌, if◌then◌else◌,
}
use sql_query_optimizer.Ast.{str, null}
use sql_query_optimizer.Schema.{DataType, Catalog}
use sql_query_optimizer.Storage.{Database, AreRectangular}
use sql_query_optimizer.Storage.Csv.{read_csv}
use sql_query_optimizer.Storage.Csv.RoundTrip.{write_csv, fields, read_csv-write_csv}
use sql_query_optimizer.Storage.Load.{load_database_from_directory}
use sql_query_optimizer.Storage.Load.Shape.{load_database-AreRectangular}
use sql_query_optimizer.Examples.Data.{number}

quotes_inside : read_csv "a,\"b,\"\"c\"\"\"\r\n,d" ≡ ("a" ∷ "b,\"c\"" ∷ []) ∷ ("" ∷ "d" ∷ []) ∷ []
unfolding read_csv
quotes_inside = refl

abbrev notes : List (String × List String)
notes = ("id", "note" ∷ []) ∷ ("1", "she said \"hi\", then left\n" ∷ []) ∷ []

read_csv-write_csv_example : read_csv (write_csv notes) ≡ fields notes
read_csv-write_csv_example = read_csv-write_csv notes

abbrev catalog : Catalog
catalog =
    (
      "users",
      record {
        columns =
            record { name = "id"; data_type = DataType.int; nullable = Bool.false }
            ∷ record { name = "name"; data_type = DataType.text; nullable = Bool.true }
            ∷ [];
        stats = record { row_count = 2; avg_row_bytes = 16 };
        indexed_columns = [];
      },
    )
    ∷ []

abbrev files : String → Option String
files name = if name == "users" then some "name,id\nann,7\n,12\n" else none

abbrev loaded : Database
loaded =
    (
      "users",
      record {
        column_names = "name" ∷ "id" ∷ [];
        rows = (str "ann" ∷ number 7 ∷ []) ∷ (null ∷ number 12 ∷ []) ∷ [];
      },
    )
    ∷ []

load_database-AreRectangular_example : AreRectangular loaded
unfolding load_database_from_directory
load_database-AreRectangular_example =
    load_database-AreRectangular (λ _. none) files catalog ("users" ∷ "orders" ∷ []) loaded refl
