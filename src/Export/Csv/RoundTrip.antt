-- ===== src/Export/Csv/RoundTrip.antt =====
-- `render_csv` and `parse_csv` of packages/core/docflow_core/exports.py, one after the other.
use doc_flow.Prelude.{
  ℕ, suc, ◌≡◌, refl, ap, ◌∙◌, true, false, not, ◌&&◌, Option, none, some, List, [], ◌∷◌, map, all,
  ◌==◌, inl, inr, Bool-cases, arith,
}
use doc_flow.Prelude.Sort.{Text, text_beq}
use doc_flow.Validation.Numbers.{DigitTable, is_document_number, digits, non_empty}
use doc_flow.Validation.Numbers.RoundTrip.{digits-non_empty}
use doc_flow.Export.View.{
  done, HeaderColumn, header_columns, OrderLine, OrderView, Row, line_row, rows_of, flat_rows,
  view_from_flat_rows,
}
use doc_flow.Export.View.Rows.{view_from_flat_rows-flat_rows}
use doc_flow.Export.Csv.{
  flat_columns, csv_escape, csv_unescape, is_trigger, is_plain_number, fields_fit, fields_beq,
  csv_rows, render_csv, parse_csv, write_rows, read_rows,
}
use doc_flow.Export.Csv.Reading.{two_or_more, write_rows-read}

-- A CSV file has no empty text: it is read as no value.
abbrev pub blank : Option Text → Option Text
blank none = none
blank (some []) = none
blank (some (c ∷ s)) = some (c ∷ s)

abbrev pub blank_line : OrderLine → OrderLine
blank_line l = record l { value = λ c. blank (l.value c) }

abbrev pub blanked : OrderView → OrderView
blanked v = record { header = λ c. blank (v.header c); lines = map blank_line v.lines }

module _ (d : DigitTable) where
  -- an apostrophe begins no number
  quote_is_trigger : (s : Text) → is_document_number d (39 ∷ s) ≡ false
  unfolding is_document_number
  quote_is_trigger s = rw d.no_apostrophe

  unescape-escape : (v : Option Text) → csv_unescape (csv_escape d v) ≡ blank v
  unfolding csv_unescape csv_escape
  unescape-escape none = refl
  unescape-escape (some []) = refl
  unescape-escape (some (c ∷ s)) = elim (Bool-cases (c == 39)) [
    | inl e ↦ let here : c ≡ 39 = ground arith in rw (here, quote_is_trigger s)
    | inr e ↦ elim (Bool-cases (is_trigger c && not (is_plain_number d (c ∷ s)))) [
      | inl e' ↦ rw e'
      | inr e' ↦ rw (e', e)
    ]
  ]

  unescape-row : (row : Row) → map csv_unescape (map (csv_escape d) row) ≡ map blank row
  unescape-row [] = refl
  unescape-row (v ∷ row) = rw (unescape-escape v, unescape-row row)

  unescape-rows :
      (rows : List Row)
      → map (map csv_unescape) (map (map (csv_escape d)) rows) ≡ map (map blank) rows
  unescape-rows [] = refl
  unescape-rows (row ∷ rows) = rw (unescape-row row, unescape-rows rows)

  line_number-blank : (n : ℕ) → blank (some (digits (suc n) n)) ≡ some (digits (suc n) n)
  line_number-blank n = written (digits (suc n) n) (digits-non_empty d n n)
    where
      written : (s : Text) → non_empty s ≡ true → blank (some s) ≡ some s
      written [] h = absurd (cc h)
      written (c ∷ s) h = refl

  blank-line_row :
      (h : HeaderColumn → Option Text) (l : OrderLine)
      → map blank (line_row (map h header_columns) l)
        ≡ line_row (map (λ c. blank (h c)) header_columns) (blank_line l)
  blank-line_row h l = rw (line_number-blank l.line_number)

  blank-lines :
      (h : HeaderColumn → Option Text) (ls : List OrderLine)
      → map (map blank) (map (line_row (map h header_columns)) ls)
        ≡ map (line_row (map (λ c. blank (h c)) header_columns)) (map blank_line ls)
  blank-lines h [] = refl
  blank-lines h (l ∷ ls) = λ i. blank-line_row h l i ∷ blank-lines h ls i

  wide :
      (h : HeaderColumn → Option Text) (ls : List OrderLine)
      → all two_or_more (map (map (csv_escape d)) (map (line_row (map h header_columns)) ls)) ≡ true
  wide h [] = refl
  wide h (l ∷ ls) = wide h ls

  rows_of-wide :
      (h : HeaderColumn → Option Text) (ls : List OrderLine)
      → all two_or_more (map (map (csv_escape d)) (rows_of (map h header_columns) ls)) ≡ true
  rows_of-wide h [] = refl
  rows_of-wide h (l ∷ ls) = wide h ls

  rows_of-blank :
      (h : HeaderColumn → Option Text) (ls : List OrderLine)
      → map (map blank) (rows_of (map h header_columns) ls)
        ≡ rows_of (map (λ c. blank (h c)) header_columns) (map blank_line ls)
  rows_of-blank h [] = refl
  rows_of-blank h (l ∷ ls) = blank-lines h (l ∷ ls)

  -- what the reader makes of a rendered file
  rendered-rows :
      (v : OrderView)
      → all fields_fit (csv_rows d v) ≡ true
      → read_rows (write_rows (flat_columns ∷ csv_rows d v)) ≡ done (flat_columns ∷ csv_rows d v)
  unfolding read_rows flat_rows
  rendered-rows v fit =
      rw (write_rows-read (flat_columns ∷ csv_rows d v) [] (rows_of-wide v.header v.lines), fit)

  columns_are_ours : fields_beq flat_columns flat_columns ≡ true
  unfolding text_beq
  columns_are_ours = refl

  -- For every order whose fields are no longer than the reader's limit, what is read back from its CSV
  -- file is the order itself, each value whole, but that an empty text is read as no value.
  pub parse_csv-render_csv :
      (v : OrderView)
      → all fields_fit (csv_rows d v) ≡ true
      → parse_csv d (render_csv d v) ≡ done (blanked v)
  unfolding parse_csv render_csv
  parse_csv-render_csv v fit =
      rw (rendered-rows v fit, columns_are_ours)
        (ap (view_from_flat_rows d) (unescape-rows (flat_rows v) ∙ flat_rows-blank)
          ∙ view_from_flat_rows-flat_rows d (blanked v))
    where
      flat_rows-blank : map (map blank) (flat_rows v) ≡ flat_rows (blanked v)
      flat_rows-blank = unfold flat_rows in rows_of-blank v.header v.lines
