-- ===== src/Storage/Csv/RoundTrip.antt =====
-- Rows written with every field in quotes, and read back.
use Prim.Native.Char.{Char, code}
use Prim.Native.String.{◌++◌ as ◌+++◌}
use sql_query_optimizer.Prelude.{
  String, false, ◌≡◌, refl, sym, ap, ◌∙◌, List, [], ◌∷◌, ◌++◌, append_nil, append_assoc',
  Bool-cases, inl, inr, if◌then◌else◌, eqb→eq,
}
use text.Mathlib.TextEquality.{Char-path}
use text.Mathlib.TextLemmas.{
  append-nil as text_append-nil, append_assoc as text_append_assoc, cons-append, nil-append,
}
use sql_query_optimizer.Storage.Csv.{
  Rows, is_quote, push, csv_outside, csv_inside, csv_quote, read_csv,
}

-- The rest of a quoted field, with its quotes doubled and the closing quote, before more text.
unfoldable pub quoted : String → String → String
quoted String.[] rest = String.◌∷◌ "\"" rest
quoted (String.◌∷◌ c s) rest =
    let more = quoted s rest in
    if is_quote c then String.◌∷◌ "\"" (String.◌∷◌ "\"" more) else String.◌∷◌ c more

-- A row of a first and further fields, and its end of line.
unfoldable pub write_row : String → List String → String → String
unfolding quoted
write_row f [] rest = String.◌∷◌ "\"" (quoted f (String.◌∷◌ "\n" rest))
write_row f (g ∷ fs) rest = String.◌∷◌ "\"" (quoted f (String.◌∷◌ "," (write_row g fs rest)))

unfoldable pub write_csv : List (String × List String) → String
unfolding write_row
write_csv [] = ""
write_csv ((f, fs) ∷ rows) = write_row f fs (write_csv rows)

abbrev pub fields : List (String × List String) → Rows
fields [] = []
fields ((f, fs) ∷ rows) = (f ∷ fs) ∷ fields rows

push-more : (field : String) (c : Char) (s : String) → push field c +++ s ≡ field +++ String.◌∷◌ c s
push-more field c s =
    text_append_assoc field (String.◌∷◌ c String.[]) s
    ∙ ap (λ t. field +++ t) (cons-append c String.[] s ∙ ap (String.◌∷◌ c) (nil-append s))

csv_inside-plain :
    (c : Char) (s field : String) (row : List String) (rows : Rows)
    → is_quote c ≡ false
    → csv_inside (String.◌∷◌ c s) field row rows ≡ csv_inside s (push field c) row rows
unfolding csv_inside
csv_inside-plain c s field row rows e = rw (csv_inside, e) refl

csv_inside-quoted :
    (f rest field : String) (row : List String) (rows : Rows)
    → csv_inside (quoted f rest) field row rows ≡ csv_quote rest (field +++ f) row rows
unfolding csv_inside quoted
csv_inside-quoted String.[] rest field row rows =
    ap (λ t. csv_quote rest t row rows) (sym (text_append-nil field))
csv_inside-quoted (String.◌∷◌ c s) rest field row rows = elim (Bool-cases (is_quote c)) [
  | inl e ↦
      let same : c ≡ "\"" = Char-path c "\"" (eqb→eq (code c) b'"' e) in
      rw e (
        csv_inside-quoted s rest (push field "\"") row rows
        ∙ ap (λ t. csv_quote rest t row rows)
            (push-more field "\"" s ∙ ap (λ x. field +++ String.◌∷◌ x s) (sym same)))
  | inr e ↦ rw e (
      csv_inside-plain c (quoted s rest) field row rows e
      ∙ csv_inside-quoted s rest (push field c) row rows
      ∙ ap (λ t. csv_quote rest t row rows) (push-more field c s))
]

csv_outside-write_row :
    (f : String) (fs : List String) (rest : String) (row : List String) (rows : Rows)
    → csv_outside (write_row f fs rest) "" row rows
      ≡ csv_outside rest "" [] (rows ++ (row ++ f ∷ fs) ∷ [])
unfolding csv_outside write_row
csv_outside-write_row f [] rest row rows =
    csv_inside-quoted f (String.◌∷◌ "\n" rest) "" row rows ∙ rw (nil-append f) refl
csv_outside-write_row f (g ∷ fs) rest row rows =
    csv_inside-quoted f (String.◌∷◌ "," (write_row g fs rest)) "" row rows
    ∙ rw (nil-append f) (
        csv_outside-write_row g fs rest (row ++ f ∷ []) rows
        ∙ ap (λ r. csv_outside rest "" [] (rows ++ r ∷ [])) (append_assoc' row (f ∷ []) (g ∷ fs)))

csv_outside-write_csv :
    (table : List (String × List String)) (rows : Rows)
    → csv_outside (write_csv table) "" [] rows ≡ rows ++ fields table
unfolding write_csv csv_outside
csv_outside-write_csv [] rows = sym (append_nil rows)
csv_outside-write_csv ((f, fs) ∷ table) rows =
    csv_outside-write_row f fs (write_csv table) [] rows
    ∙ csv_outside-write_csv table (rows ++ (f ∷ fs) ∷ [])
    ∙ append_assoc' rows ((f ∷ fs) ∷ []) (fields table)

-- Rows of one field or more, written with every field in quotes and the quotes inside doubled, are
-- read back as they were, whatever commas, quotes, line ends and other characters the fields have.
pub read_csv-write_csv :
    (table : List (String × List String)) → read_csv (write_csv table) ≡ fields table
unfolding read_csv
read_csv-write_csv table = csv_outside-write_csv table []
