-- ===== src/Export/Csv.antt =====
-- The CSV file, packages/core/docflow_core/exports.py, with what it uses of Python's `csv`: the writer
-- with minimal quotes, and the reader as a machine that reads a character. A file is the list of
-- its code points; the UTF-8 codec is not modelled, its byte-order mark is.
use Prim.Native.Char.{code}
use Prim.Native.String
use doc_flow.Prelude.{
  ℕ, zero, suc, ◌≤◌, String, Bool, true, false, not, ◌&&◌, ◌||◌, Option, none, some, List, [], ◌∷◌,
  ◌++◌, map, any, all, length, contains, leb, ◌==◌, if◌then◌else◌,
}
use doc_flow.Prelude.Sort.{Text, text_beq}
use doc_flow.Validation.Numbers.{DigitTable, is_document_number}
use doc_flow.Export.View.{
  Outcome, done, raised, exp_004, ◌>>=◌, OrderView, Row, flat_rows, view_from_flat_rows,
}
pub mod Reading
pub mod RoundTrip
pub mod Formulas

abbrev pub codes : String → Text
codes String.[] = []
codes (String.◌∷◌ c s) = code c ∷ codes s

abbrev pub flat_columns : List Text
flat_columns = map codes (
    "po_number" ∷ "order_date" ∷ "requested_delivery_date" ∷ "buyer_name" ∷ "buyer_contact_email"
    ∷ "ship_to_address" ∷ "payment_terms" ∷ "currency" ∷ "order_total" ∷ "notes" ∷ "line_number"
    ∷ "catalog_sku" ∷ "sku" ∷ "description" ∷ "quantity" ∷ "unit" ∷ "unit_price" ∷ "line_total"
    ∷ [])

-- `_FORMULA_TRIGGERS`: = + - @ tab, carriage return and the apostrophe
abbrev pub is_trigger : ℕ → Bool
is_trigger c = contains c (61 ∷ 43 ∷ 45 ∷ 64 ∷ 9 ∷ 13 ∷ 39 ∷ [])

abbrev pub starts_with_trigger : Text → Bool
starts_with_trigger [] = false
starts_with_trigger (c ∷ s) = is_trigger c

-- `_PLAIN_NUMBER`: a document number, after a minus sign or none
abbrev pub is_plain_number : DigitTable → Text → Bool
is_plain_number d [] = false
is_plain_number d (c ∷ s) = if c == 45 then is_document_number d s else is_document_number d (c ∷ s)

unfoldable pub csv_escape : DigitTable → Option Text → Text
csv_escape d none = []
csv_escape d (some value) =
    if starts_with_trigger value && not (is_plain_number d value) then 39 ∷ value else value

unfoldable pub csv_unescape : Text → Option Text
csv_unescape [] = none
csv_unescape (c ∷ s) = if c == 39 then some s else some (c ∷ s)

-- What a field is quoted for: the comma, the quote, and the characters of the line end.
abbrev pub is_special : ℕ → Bool
is_special c = contains c (44 ∷ 34 ∷ 13 ∷ 10 ∷ [])

abbrev pub doubled : Text → Text
doubled [] = []
doubled (c ∷ s) = if c == 34 then 34 ∷ 34 ∷ doubled s else c ∷ doubled s

abbrev pub quoted : Text → Text
quoted s = 34 ∷ (doubled s ++ 34 ∷ [])

abbrev pub write_field : Text → Text
write_field s = if any is_special s then quoted s else s

-- the fields of a row with commas between, and the line end
unfoldable pub write_fields : List Text → Text
write_fields [] = 13 ∷ 10 ∷ []
write_fields (f ∷ []) = write_field f ++ (13 ∷ 10 ∷ [])
write_fields (f ∷ g ∷ fs) = write_field f ++ (44 ∷ write_fields (g ∷ fs))

-- `writer.writerow`: a row of one empty field is quoted
abbrev pub write_row : List Text → Text
write_row ([] ∷ []) = 34 ∷ 34 ∷ 13 ∷ 10 ∷ []
write_row row = write_fields row

unfoldable pub write_rows : List (List Text) → Text
write_rows [] = []
write_rows (row ∷ rows) = write_row row ++ write_rows rows

-- Where the reader stands. `after_cr` is the start of a record just after a carriage return, whose
-- line feed belongs to the same line end.
pub data Mode : Type 0 where
  record_start after_cr field_start in_field in_quotes quote_in_quotes : Mode

-- the field and the row that are being read, and the rows before
pub record Reader : Type 0 where
  pub mode : Mode
  pub field : Text
  pub row : List Text
  pub rows : List (List Text)

abbrev pub add_char : ℕ → Mode → Reader → Reader
add_char c m r = record r { mode = m; field = r.field ++ c ∷ [] }

abbrev pub save_field : Reader → Reader
save_field r = record r { mode = field_start; field = []; row = r.row ++ r.field ∷ [] }

abbrev pub end_row : ℕ → Reader → Reader
end_row c r = record {
  mode = if c == 13 then after_cr else record_start;
  field = [];
  row = [];
  rows = r.rows ++ r.row ∷ [];
}

abbrev pub is_newline : ℕ → Bool
is_newline c = c == 13 || c == 10

-- the first character of a field
abbrev pub read_first : ℕ → Reader → Reader
read_first c r =
    if is_newline c
    then end_row c (save_field r)
    else if c == 34
    then record r { mode = in_quotes }
    else if c == 44
    then save_field r
    else add_char c in_field r

-- the first character of a record; an empty line is an empty row
abbrev pub read_start : ℕ → Reader → Reader
read_start c r = if is_newline c then end_row c r else read_first c r

abbrev pub read_in : Mode → ℕ → Reader → Reader
read_in record_start c r = read_start c r
read_in after_cr c r = if c == 10 then record r { mode = record_start } else read_start c r
read_in field_start c r = read_first c r
read_in in_field c r =
    if is_newline c
    then end_row c (save_field r)
    else if c == 44
    then save_field r
    else add_char c in_field r
read_in in_quotes c r =
    if c == 34 then record r { mode = quote_in_quotes } else add_char c in_quotes r
read_in quote_in_quotes c r =
    if c == 34
    then add_char 34 in_quotes r
    else if is_newline c
    then end_row c (save_field r)
    else if c == 44
    then save_field r
    else add_char c in_field r

unfoldable pub read_char : ℕ → Reader → Reader
read_char c r = read_in r.mode c r

unfoldable pub read_chars : Text → Reader → Reader
read_chars [] r = r
read_chars (c ∷ s) r = read_chars s (read_char c r)

-- the end of the text ends a row that has begun
abbrev pub at_end : Mode → Reader → List (List Text)
at_end record_start r = r.rows
at_end after_cr r = r.rows
at_end _ r = (end_row 10 (save_field r)).rows

abbrev pub start : Reader
start = record { mode = record_start; field = []; row = []; rows = [] }

-- `csv.field_size_limit()`
abbrev pub field_size_limit : ℕ
field_size_limit = 131_072

abbrev pub fields_fit : List Text → Bool
fields_fit row = all (λ f. leb (length f) field_size_limit) row

-- `list(csv.reader(...))`: a field above the limit is an error, which `build_export` makes EXP-004
unfoldable pub read_rows : Text → Outcome (List (List Text))
read_rows s =
    let r = read_chars s start in
    let rows = at_end r.mode r in if all fields_fit rows then done rows else raised exp_004

-- `encode("utf-8-sig")` and `decode("utf-8-sig")`
abbrev pub with_mark : Text → Text
with_mark s = 65279 ∷ s

abbrev pub without_mark : Text → Text
without_mark [] = []
without_mark (c ∷ s) = if c == 65279 then s else c ∷ s

abbrev pub fields_beq : List Text → List Text → Bool
fields_beq [] [] = true
fields_beq [] (y ∷ ys) = false
fields_beq (x ∷ xs) [] = false
fields_beq (x ∷ xs) (y ∷ ys) = text_beq x y && fields_beq xs ys

abbrev pub csv_rows : DigitTable → OrderView → List (List Text)
csv_rows d v = map (map (csv_escape d)) (flat_rows v)

unfoldable pub render_csv : DigitTable → OrderView → Text
render_csv d v = with_mark (write_rows (flat_columns ∷ csv_rows d v))

abbrev pub parse_csv_rows : DigitTable → List (List Text) → Outcome OrderView
parse_csv_rows d [] = raised exp_004
parse_csv_rows d (columns ∷ rows) =
    if fields_beq columns flat_columns
    then view_from_flat_rows d (map (map csv_unescape) rows)
    else raised exp_004

unfoldable pub parse_csv : DigitTable → Text → Outcome OrderView
parse_csv d content = read_rows (without_mark content) >>= parse_csv_rows d
