-- ===== src/Storage/Csv.antt =====
-- storage/csv_reader.cpp: the text of a CSV file to rows of fields. The file's text is the argument;
-- `i` is the place of the text that is left, and the state is `in_quotes`, `field`, `current_row`
-- and `rows`.
pub mod RoundTrip
use Prim.Native.Char.{Char, code}
use Prim.Native.String.{◌++◌ as ◌+++◌}
use sql_query_optimizer.Prelude.{
  ℕ, String, Bool, true, false, ◌&&◌, List, [], ◌∷◌, ◌++◌, eqb, if◌then◌else◌,
}

abbrev pub is_quote : Char → Bool
is_quote c = eqb (code c) b'"'

abbrev pub is_comma : Char → Bool
is_comma c = eqb (code c) b','

abbrev pub is_return : Char → Bool
is_return c = eqb (code c) b'\r'

abbrev pub is_newline : Char → Bool
is_newline c = eqb (code c) b'\n'

abbrev pub push : String → Char → String
push field c = field +++ String.◌∷◌ c String.[]

abbrev no_text : String → Bool
no_text String.[] = true
no_text _ = false

abbrev no_fields : List String → Bool
no_fields [] = true
no_fields _ = false

abbrev pub Rows : Type 0
Rows = List (List String)

-- The last line with no trailing newline.
abbrev pub at_end : String → List String → Rows → Rows
at_end field row rows =
    if no_text field && no_fields row then rows else rows ++ (row ++ field ∷ []) ∷ []

unfoldable mutual
  -- Outside quotes.
  pub csv_outside : String → String → List String → Rows → Rows
  csv_outside String.[] field row rows = at_end field row rows
  csv_outside (String.◌∷◌ c s) field row rows = elim (is_quote c) [
    | true ↦ csv_inside s field row rows
    | false ↦ elim (is_comma c) [
      | true ↦ csv_outside s "" (row ++ field ∷ []) rows
      | false ↦ elim (is_return c) [
        | true ↦ csv_outside s field row rows
        | false ↦ elim (is_newline c) [
          | true ↦ csv_outside s "" [] (rows ++ (row ++ field ∷ []) ∷ [])
          | false ↦ csv_outside s (push field c) row rows
        ]
      ]
    ]
  ]

  -- Inside quotes.
  pub csv_inside : String → String → List String → Rows → Rows
  csv_inside String.[] field row rows = at_end field row rows
  csv_inside (String.◌∷◌ c s) field row rows = elim (is_quote c) [
    | true ↦ csv_quote s field row rows
    | false ↦ csv_inside s (push field c) row rows
  ]

  -- After a quote inside quotes: a second one stands for a quote, else the quotes are closed and the
  -- next character is read outside.
  pub csv_quote : String → String → List String → Rows → Rows
  csv_quote String.[] field row rows = at_end field row rows
  csv_quote (String.◌∷◌ c s) field row rows = elim (is_quote c) [
    | true ↦ csv_inside s (push field "\"") row rows
    | false ↦ elim (is_comma c) [
      | true ↦ csv_outside s "" (row ++ field ∷ []) rows
      | false ↦ elim (is_return c) [
        | true ↦ csv_outside s field row rows
        | false ↦ elim (is_newline c) [
          | true ↦ csv_outside s "" [] (rows ++ (row ++ field ∷ []) ∷ [])
          | false ↦ csv_outside s (push field c) row rows
        ]
      ]
    ]
  ]

unfoldable pub read_csv : String → Rows
unfolding csv_outside
read_csv text = csv_outside text "" [] []
