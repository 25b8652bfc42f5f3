-- ===== src/Export/Build.antt =====
-- `build_export` of packages/core/docflow_core/exports.py for the format `csv`: the file is written
-- twice, read back and compared with the approved order before it is returned.
use doc_flow.Prelude.{
  ◌≡◌, refl, Bool, true, false, ◌&&◌, Option, none, some, List, [], ◌∷◌, map, all, ◌==◌, ==_refl,
  if◌then◌else◌,
}
use doc_flow.Prelude.Sort.{Text, text_beq, text_beq_refl}
use doc_flow.Validation.Numbers.{DigitTable}
use doc_flow.Export.View.{
  Outcome, done, raised, exp_004, ◌>>=◌, line_columns, OrderLine, OrderView, Row, Snapshot,
  order_view, header_values, cell_beq, row_beq,
}
use doc_flow.Export.Csv.{fields_fit, csv_rows, render_csv, parse_csv}
use doc_flow.Export.Csv.RoundTrip.{blank, blank_line, blanked, parse_csv-render_csv}

abbrev pub lines_beq : List OrderLine → List OrderLine → Bool
lines_beq [] [] = true
lines_beq [] (l ∷ ls) = false
lines_beq (k ∷ ks) [] = false
lines_beq (k ∷ ks) (l ∷ ls) =
    k.line_number == l.line_number
    && (row_beq (map k.value line_columns) (map l.value line_columns) && lines_beq ks ls)

-- `==` of two orders
abbrev pub view_beq : OrderView → OrderView → Bool
view_beq v w = row_beq (header_values v) (header_values w) && lines_beq v.lines w.lines

-- the file that was read back is the approved order, or there is no file
abbrev pub compared : Text → OrderView → OrderView → Outcome Text
compared content approved parsed = if view_beq parsed approved then done content else raised exp_004

-- the second rendering, then the reading back
unfoldable pub build_csv : DigitTable → Snapshot → Outcome Text
build_csv d snapshot =
    let content = render_csv d (order_view snapshot) in
    if text_beq (render_csv d (order_view snapshot)) content
    then parse_csv d content >>= compared content (order_view snapshot)
    else raised exp_004

-- A value that is missing, or is not the empty text.
abbrev pub is_filled : Option Text → Bool
is_filled none = true
is_filled (some []) = false
is_filled (some (c ∷ s)) = true

abbrev pub line_filled : OrderLine → Bool
line_filled l = all is_filled (map l.value line_columns)

abbrev pub view_filled : OrderView → Bool
view_filled v = all is_filled (header_values v) && all line_filled v.lines

blank-filled : (x : Option Text) → cell_beq (blank x) x ≡ is_filled x
blank-filled none = refl
blank-filled (some []) = refl
blank-filled (some (c ∷ s)) = text_beq_refl (c ∷ s)

row_beq-blank : (row : Row) → row_beq (map blank row) row ≡ all is_filled row
unfolding row_beq
row_beq-blank [] = refl
row_beq-blank (x ∷ row) = rw (blank-filled x, row_beq-blank row)

lines_beq-blank : (ls : List OrderLine) → lines_beq (map blank_line ls) ls ≡ all line_filled ls
lines_beq-blank [] = refl
lines_beq-blank (l ∷ ls) =
    rw (==_refl l.line_number, row_beq-blank (map l.value line_columns), lines_beq-blank ls)

view_beq-blanked : (v : OrderView) → view_beq (blanked v) v ≡ view_filled v
view_beq-blanked v = rw (row_beq-blank (header_values v), lines_beq-blank v.lines)

-- A CSV export of an approved order, with no field above the reader's limit, gives the rendered file
-- when no value of the order is an empty text, and fails with EXP-004 when one is.
pub build_csv-outcome :
    (d : DigitTable) (snapshot : Snapshot)
    → all fields_fit (csv_rows d (order_view snapshot)) ≡ true
    → build_csv d snapshot ≡ (
        if view_filled (order_view snapshot)
        then done (render_csv d (order_view snapshot))
        else raised exp_004)
unfolding build_csv
build_csv-outcome d snapshot fit = rw (
  text_beq_refl (render_csv d (order_view snapshot)),
  parse_csv-render_csv d (order_view snapshot) fit,
  view_beq-blanked (order_view snapshot),
)
