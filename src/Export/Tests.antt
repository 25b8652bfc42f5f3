-- ===== src/Export/Tests.antt =====
-- Runs of the CSV export, and the witnesses.
use doc_flow.Prelude.{
  ℕ, ◌-◌, ◌+◌, ◌<◌, ◌≡◌, refl, true, ◌&&◌, Option, none, some, [], ◌∷◌, all, leb, if◌then◌else◌,
  arith,
}
use doc_flow.Prelude.Sort.{Text}
use doc_flow.Validation.Numbers.{DigitTable, is_document_number, rest_matches, digits}
use doc_flow.Export.View.{
  done, raised, exp_004, HeaderColumn, po_number, notes, buyer_name, LineColumn, sku, quantity,
  description, Snapshot, order_view, flat_rows,
}
use doc_flow.Export.Csv.{
  codes, fields_fit, csv_escape, csv_rows, render_csv, parse_csv, write_rows, write_fields,
}
use doc_flow.Export.Csv.RoundTrip.{blanked, parse_csv-render_csv}
use doc_flow.Export.Csv.Formulas.{is_neutral, csv_rows-neutral}
use doc_flow.Export.Build.{build_csv, view_filled, build_csv-outcome}

abbrev ascii_value : ℕ → Option ℕ
ascii_value c = if leb 48 c && leb c 57 then some (c - 48) else none

ascii_value-digit : (v : ℕ) → v < 10 → ascii_value (v + 48) ≡ some v
ascii_value-digit v h = ground arith

abbrev ascii_table : DigitTable
ascii_table = record {
  digit_value = ascii_value;
  ascii_digits = ascii_value-digit;
  no_point = refl;
  no_apostrophe = refl;
}

-- a comma, a quote, a line break and a formula
abbrev header_of : Option Text → HeaderColumn → Option Text
header_of shown po_number = some (codes "PO-7, second")
header_of shown buyer_name = some (codes "Ann \"A\" Lee")
header_of shown notes = shown
header_of shown c = none

abbrev line_of : LineColumn → Option Text
line_of sku = some (codes "=1+1")
line_of quantity = some (codes "-5")
line_of description = some (codes "'bolt\n3mm")
line_of c = none

abbrev snapshot_of : Option Text → Snapshot
snapshot_of shown = record {
  header = some (header_of shown);
  lines = some (record { line_number = 12; value = line_of } ∷ []);
}

abbrev approved : Snapshot
approved = snapshot_of (some (codes "left at\r\ndoor"))

fields_are_short : all fields_fit (csv_rows ascii_table (order_view approved)) ≡ true
unfolding order_view flat_rows csv_escape is_document_number rest_matches digits
fields_are_short = refl

parse_csv-render_csv_example :
    parse_csv ascii_table (render_csv ascii_table (order_view approved))
    ≡ done (blanked (order_view approved))
parse_csv-render_csv_example =
    parse_csv-render_csv ascii_table (order_view approved) fields_are_short

build_csv-outcome_example : build_csv ascii_table approved ≡ (
    if view_filled (order_view approved)
    then done (render_csv ascii_table (order_view approved))
    else raised exp_004)
build_csv-outcome_example = build_csv-outcome ascii_table approved fields_are_short

csv_rows-neutral_example :
    all (all (is_neutral ascii_table)) (csv_rows ascii_table (order_view approved)) ≡ true
csv_rows-neutral_example = csv_rows-neutral ascii_table refl (order_view approved)

-- approved notes that are the empty text
abbrev noted : Snapshot
noted = snapshot_of (some [])

noted_are_short : all fields_fit (csv_rows ascii_table (order_view noted)) ≡ true
unfolding order_view flat_rows csv_escape is_document_number rest_matches digits
noted_are_short = refl

no_file_of_empty_notes : build_csv ascii_table noted ≡ raised exp_004
unfolding order_view
no_file_of_empty_notes = build_csv-outcome ascii_table noted noted_are_short

one_quoted_row : write_rows ((codes "a,b" ∷ codes "c\"" ∷ []) ∷ []) ≡ codes "\"a,b\",\"c\"\"\"\r\n"
unfolding write_rows write_fields
one_quoted_row = refl
