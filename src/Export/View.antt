-- ===== src/Export/View.antt =====
-- The order as every format sees it, and the flat rows of packages/core/docflow_core/exports.py. What
-- `dict.get` finds is a function of the column.
use doc_flow.Prelude.{
  ℕ, zero, suc, ◌+◌, Bool, true, false, not, ◌&&◌, ◌||◌, Option, none, some, List, [], ◌∷◌, ◌++◌,
  map, take, drop, length, any, all, ◌==◌, if◌then◌else◌, is_some,
}
use doc_flow.Prelude.Sort.{Text, text_beq}
use doc_flow.Validation.Numbers.{DigitTable, is_decimal_digit, read_number, digits, non_empty}
pub mod Rows

-- The codes that an `ExportError` carries. The ValueError of `int` is `EXP-004` too, as in
-- `build_export`.
pub data ExportCode : Type 0 where
  exp_002 exp_004 exp_005 exp_006 : ExportCode

pub data Outcome {ℓ} (A : Type ℓ) : Type ℓ where
  done : A → Outcome A
  raised : ExportCode → Outcome A

infixl 5 ◌>>=◌
abbrev pub ◌>>=◌ {ℓ κ} : {A : Type ℓ} {B : Type κ} → Outcome A → (A → Outcome B) → Outcome B
done a >>= f = f a
raised e >>= f = raised e

pub data HeaderColumn : Type 0 where
  po_number order_date requested_delivery_date buyer_name buyer_contact_email ship_to_address :
      HeaderColumn
  payment_terms currency order_total notes : HeaderColumn

-- `LINE_COLUMNS` after `line_number`, which is a number
pub data LineColumn : Type 0 where
  catalog_sku sku description quantity unit unit_price line_total : LineColumn

abbrev pub header_columns : List HeaderColumn
header_columns =
    po_number ∷ order_date ∷ requested_delivery_date ∷ buyer_name ∷ buyer_contact_email
    ∷ ship_to_address ∷ payment_terms ∷ currency ∷ order_total ∷ notes ∷ []

abbrev pub line_columns : List LineColumn
line_columns = catalog_sku ∷ sku ∷ description ∷ quantity ∷ unit ∷ unit_price ∷ line_total ∷ []

pub record OrderLine : Type 0 where
  pub line_number : ℕ
  pub value : LineColumn → Option Text

-- The part of an approved snapshot that is exported; what may be missing is an Option.
pub record Snapshot : Type 0 where
  pub header : Option (HeaderColumn → Option Text)
  pub lines : Option (List OrderLine)

pub record OrderView : Type 0 where
  pub header : HeaderColumn → Option Text
  pub lines : List OrderLine

abbrev pub or_else {ℓ} : {A : Type ℓ} → Option A → A → A
or_else none a = a
or_else (some b) a = b

unfoldable pub order_view : Snapshot → OrderView
order_view s = record { header = or_else s.header (λ c. none); lines = or_else s.lines [] }

abbrev pub Row : Type 0
Row = List (Option Text)

abbrev pub header_values : OrderView → Row
header_values v = map v.header header_columns

abbrev pub line_row : Row → OrderLine → Row
line_row header l =
    header ++ some (digits (suc l.line_number) l.line_number) ∷ map l.value line_columns

abbrev pub blanks : ℕ → Row
blanks zero = []
blanks (suc n) = none ∷ blanks n

abbrev pub rows_of : Row → List OrderLine → List Row
rows_of header [] = (header ++ blanks 8) ∷ []
rows_of header (l ∷ lines) = line_row header l ∷ map (line_row header) lines

unfoldable pub flat_rows : OrderView → List Row
flat_rows v = rows_of (header_values v) v.lines

abbrev pub cell_beq : Option Text → Option Text → Bool
cell_beq none none = true
cell_beq none (some b) = false
cell_beq (some a) none = false
cell_beq (some a) (some b) = text_beq a b

unfoldable pub row_beq : Row → Row → Bool
row_beq [] [] = true
row_beq [] (y ∷ ys) = false
row_beq (x ∷ xs) [] = false
row_beq (x ∷ xs) (y ∷ ys) = cell_beq x y && row_beq xs ys

-- `int(text)` of a text of digits. Other spellings that `int` takes stand in no rendered file.
unfoldable pub int_of : DigitTable → Text → Option ℕ
int_of d s =
    if non_empty s && all (is_decimal_digit d) s then some (read_number d (0, none) s).0 else none

-- `dict(zip(columns, values))` at a column, by the column's place
abbrev pub cell : Row → ℕ → Option Text
cell [] i = none
cell (x ∷ xs) zero = x
cell (x ∷ xs) (suc i) = cell xs i

abbrev pub header_at : Row → HeaderColumn → Option Text
header_at row po_number = cell row 0
header_at row order_date = cell row 1
header_at row requested_delivery_date = cell row 2
header_at row buyer_name = cell row 3
header_at row buyer_contact_email = cell row 4
header_at row ship_to_address = cell row 5
header_at row payment_terms = cell row 6
header_at row currency = cell row 7
header_at row order_total = cell row 8
header_at row notes = cell row 9

abbrev pub line_at : Row → LineColumn → Option Text
line_at row catalog_sku = cell row 0
line_at row sku = cell row 1
line_at row description = cell row 2
line_at row quantity = cell row 3
line_at row unit = cell row 4
line_at row unit_price = cell row 5
line_at row line_total = cell row 6

abbrev pub numbered : Option ℕ → Row → Outcome (Option OrderLine)
numbered none values = raised exp_004
numbered (some k) values = done (some (record { line_number = k; value = line_at values }))

-- one turn of the second loop: a line, or none for the row of an order without lines
abbrev pub read_line : DigitTable → ℕ → Row → Outcome (Option OrderLine)
read_line d count [] = raised exp_004
read_line d count (none ∷ values) =
    if not (count == 1) || any is_some values then raised exp_004 else done none
read_line d count (some n ∷ values) = numbered (int_of d n) values

abbrev pub cons_line : Option OrderLine → List OrderLine → List OrderLine
cons_line none ls = ls
cons_line (some l) ls = l ∷ ls

unfoldable pub read_lines : DigitTable → ℕ → List Row → Outcome (List OrderLine)
read_lines d count [] = done []
read_lines d count (row ∷ rows) =
    read_line d count (drop 10 row) >>= λ l. read_lines d count rows >>= λ ls. done (cons_line l ls)

-- the first loop: every row is as wide as the columns and repeats the header
abbrev pub same_header : Row → Row → Bool
same_header header row = length row == 18 && row_beq (take 10 row) header

unfoldable pub view_from_flat_rows : DigitTable → List Row → Outcome OrderView
view_from_flat_rows d [] = raised exp_004
view_from_flat_rows d (row ∷ rows) =
    if all (same_header (take 10 row)) (row ∷ rows)
    then (read_lines d (length (row ∷ rows)) (row ∷ rows) >>= λ ls.
        done (record { header = header_at (take 10 row); lines = ls }))
    else raised exp_004
