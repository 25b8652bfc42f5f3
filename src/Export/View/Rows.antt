-- ===== src/Export/View/Rows.antt =====
-- The flat rows of an order and the order that is read from rows,
-- packages/core/docflow_core/exports.py.
use doc_flow.Prelude.{
  ℕ, suc, ◌≡◌, refl, ap, ◌∙◌, fun_ext, true, Option, none, some, List, [], ◌∷◌, ◌++◌, map, take,
  drop, length, all, arith,
}
use doc_flow.Prelude.Sort.{Text, text_beq_refl}
use doc_flow.Validation.Numbers.{DigitTable, digits}
use doc_flow.Validation.Numbers.RoundTrip.{read-digits, digits-AllDigits, digits-non_empty}
use doc_flow.Export.View.{
  done, HeaderColumn, LineColumn, po_number, order_date, requested_delivery_date, buyer_name,
  buyer_contact_email, ship_to_address, payment_terms, currency, order_total, notes, catalog_sku,
  sku, description, quantity, unit, unit_price, line_total, OrderLine, OrderView, Row, line_row,
  blanks, rows_of, flat_rows, row_beq, int_of, header_at, line_at, line_columns, header_columns,
  numbered, read_line, read_lines, same_header, view_from_flat_rows,
}

row_beq_refl : (row : Row) → row_beq row row ≡ true
unfolding row_beq
row_beq_refl [] = refl
row_beq_refl (none ∷ row) = row_beq_refl row
row_beq_refl (some a ∷ row) = rw (text_beq_refl a) (row_beq_refl row)

header_at-values : (h : HeaderColumn → Option Text) → header_at (map h header_columns) ≡ h
header_at-values h = fun_ext same
  where
    same : (c : HeaderColumn) → header_at (map h header_columns) c ≡ h c
    same po_number = refl
    same order_date = refl
    same requested_delivery_date = refl
    same buyer_name = refl
    same buyer_contact_email = refl
    same ship_to_address = refl
    same payment_terms = refl
    same currency = refl
    same order_total = refl
    same notes = refl

line_at-values : (value : LineColumn → Option Text) → line_at (map value line_columns) ≡ value
line_at-values value = fun_ext same
  where
    same : (c : LineColumn) → line_at (map value line_columns) c ≡ value c
    same catalog_sku = refl
    same sku = refl
    same description = refl
    same quantity = refl
    same unit = refl
    same unit_price = refl
    same line_total = refl

module _ (d : DigitTable) where
  int_of-digits : (n : ℕ) → int_of d (digits (suc n) n) ≡ some n
  unfolding int_of
  int_of-digits n =
      rw (
        digits-non_empty d n n,
        digits-AllDigits d (suc n) n,
        read-digits d (suc n) n (omega arith),
      )

  read_line-some :
      (count k : ℕ) (n : Text) (values : Row)
      → int_of d n ≡ some k
      → read_line d count (some n ∷ values)
        ≡ done (some (record { line_number = k; value = line_at values }))
  read_line-some count k n values e = ap (λ o. numbered o values) e

  read_line-row :
      (count : ℕ) (h : HeaderColumn → Option Text) (l : OrderLine)
      → read_line d count (drop 10 (line_row (map h header_columns) l)) ≡ done (some l)
  read_line-row count h l =
      read_line-some count l.line_number _ (map l.value line_columns) (int_of-digits l.line_number)
      ∙ ap (λ f. done (some (record { line_number = l.line_number; value = f })))
          (line_at-values l.value)

  read_lines-next :
      (count : ℕ) (row : Row) (l : OrderLine) (rows : List Row) (ls : List OrderLine)
      → read_line d count (drop 10 row) ≡ done (some l)
      → read_lines d count rows ≡ done ls
      → read_lines d count (row ∷ rows) ≡ done (l ∷ ls)
  unfolding read_lines
  read_lines-next count row l rows ls e e' = rw (e, e')

  read_lines-rows :
      (count : ℕ) (h : HeaderColumn → Option Text) (ls : List OrderLine)
      → read_lines d count (map (line_row (map h header_columns)) ls) ≡ done ls
  unfolding read_lines
  read_lines-rows count h [] = refl
  read_lines-rows count h (l ∷ ls) =
      read_lines-next count (line_row (map h header_columns) l) l
        (map (line_row (map h header_columns)) ls) ls (read_line-row count h l)
        (read_lines-rows count h ls)

  same_header-rows :
      (h : HeaderColumn → Option Text) (ls : List OrderLine)
      → all (same_header (map h header_columns)) (map (line_row (map h header_columns)) ls) ≡ true
  same_header-rows h [] = refl
  same_header-rows h (l ∷ ls) = rw (row_beq_refl (map h header_columns)) (same_header-rows h ls)

  from_rows :
      (row : Row) (rows : List Row) (ls : List OrderLine)
      → all (same_header (take 10 row)) (row ∷ rows) ≡ true
      → read_lines d (length (row ∷ rows)) (row ∷ rows) ≡ done ls
      → view_from_flat_rows d (row ∷ rows)
        ≡ done (record { header = header_at (take 10 row); lines = ls })
  unfolding view_from_flat_rows
  from_rows row rows ls e e' = rw (e, e')

  read_lines-blank :
      (h : HeaderColumn → Option Text)
      → read_lines d 1 ((map h header_columns ++ blanks 8) ∷ []) ≡ done []
  unfolding read_lines
  read_lines-blank h = refl

  rows_of-read :
      (h : HeaderColumn → Option Text) (ls : List OrderLine)
      → view_from_flat_rows d (rows_of (map h header_columns) ls)
        ≡ done (record { header = header_at (map h header_columns); lines = ls })
  rows_of-read h [] =
      from_rows _ [] [] (rw (row_beq_refl (map h header_columns))) (read_lines-blank h)
  rows_of-read h (l ∷ ls) =
      from_rows _ (map (line_row (map h header_columns)) ls) (l ∷ ls) (same_header-rows h (l ∷ ls))
        (read_lines-rows _ h (l ∷ ls))

  -- The rows of an order are read as that order.
  pub view_from_flat_rows-flat_rows : (v : OrderView) → view_from_flat_rows d (flat_rows v) ≡ done v
  unfolding flat_rows
  view_from_flat_rows-flat_rows v =
      rows_of-read v.header v.lines
      ∙ ap (λ h. done (record { header = h; lines = v.lines })) (header_at-values v.header)
