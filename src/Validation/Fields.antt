-- ===== src/Validation/Fields.antt =====
-- The rules on dates, currencies and required fields, the severity of a difference, and what a document
-- is checked as: packages/core/docflow_core/validation.py. The standard library's dates and case table,
-- `str` of a Decimal and the catalog's severities are a `Checks`. Dates are day numbers.
use doc_flow.Prelude.{
  ℕ, ◌+◌, ◌-◌, ◌*◌, ◌/◌, ◌^◌, max, Bool, true, false, not, ◌&&◌, ◌||◌, Option, none, some, List, [],
  ◌∷◌, map, ltb, leb, if◌then◌else◌,
}
use doc_flow.Prelude.Sort.{Text}
use doc_flow.Matching.Keys.{strip}
use doc_flow.Export.Csv.{codes}
use doc_flow.Validation.Numbers.{Decimal, plain, non_empty}
use doc_flow.Validation.Money.{aligned, magnitude, is_le}
use doc_flow.Validation.Sync.{Severity, high, warning, among}

pub record Checks : Type 0 where
  pub catalog_severity : ℕ → Severity
  pub fromisoformat : Text → Option ℕ
  pub isoformat : ℕ → Text
  pub upper : Text → Text
  pub decimal_str : Decimal → Text
  pub iso_4217_codes : List Text

pub record FieldRules : Type 0 where
  pub required_header : List Text
  pub required_line : List Text
  pub hidden_header : List Text
  pub hidden_line : List Text

-- `REQUIRED_HEADER_FIELDS` and `REQUIRED_LINE_FIELDS`, with nothing hidden
abbrev pub default_field_rules : FieldRules
default_field_rules = record {
  required_header = map codes ("po_number" ∷ "buyer_name" ∷ "order_total" ∷ "currency" ∷ []);
  required_line = map codes ("quantity" ∷ "line_total" ∷ []);
  hidden_header = [];
  hidden_line = [];
}

abbrev pub hundred : Decimal
hundred = record { negative = false; coefficient = 10000; places = 2 }

-- `delta / magnitude >= 0.05` of naturals, in the default context: the quotient is rounded to 28 digits,
-- half to even, and that reaches 0.05 from half a unit of the 30th place below it.
abbrev pub reaches_rel : ℕ → ℕ → Bool
reaches_rel x y = leb (y * (5 * 10 ^ 28 - 5)) (x * 10 ^ 30)

unfoldable pub money_severity : Decimal → Decimal → Severity
money_severity delta of_amount =
    let m = max delta.places of_amount.places in
    let relative =
      ltb 0 of_amount.coefficient && reaches_rel (aligned m delta) (aligned m of_amount) in
    if is_le hundred (magnitude delta) || relative then high else warning

-- `plain(value.quantize(Decimal("0.01"), rounding=ROUND_HALF_UP))`
abbrev pub to_cents : Decimal → Decimal
to_cents value = record {
  negative = value.negative;
  coefficient =
      if leb value.places 2
      then value.coefficient * 10 ^ (2 - value.places)
      else (value.coefficient + 5 * 10 ^ (value.places - 3)) / 10 ^ (value.places - 2);
  places = 2;
}

unfoldable pub derived_money : Decimal → Text
derived_money value = plain (to_cents value)

-- What `header.get(name)` is: a text or an amount.
pub data Field : Type 0 where
  words : Text → Field
  amount : Decimal → Field

abbrev pub is_blank : Option Field → Bool
is_blank none = true
is_blank (some (words s)) = not (non_empty (strip s))
is_blank (some (amount value)) = false

abbrev pub words_of : Option Field → Option Text
words_of none = none
words_of (some (words s)) = some s
words_of (some (amount value)) = none

abbrev pub amount_of : Option Field → Option Decimal
amount_of none = none
amount_of (some (words s)) = none
amount_of (some (amount value)) = some value

pub data DateVerdict : Type 0 where
  unparseable implausible : DateVerdict

module _ (checks : Checks) where
  abbrev pub parse_stripped : Text → Option ℕ
  parse_stripped [] = none
  parse_stripped (c ∷ s) = checks.fromisoformat (c ∷ s)

  unfoldable pub parse_iso_date : Option Text → Option ℕ
  parse_iso_date none = none
  parse_iso_date (some value) = parse_stripped (strip value)

  -- `delta_days` lies outside the window, with both dates as day numbers
  abbrev pub is_implausible : ℕ → ℕ → ℕ → ℕ → Bool
  is_implausible day received_on max_past_days max_future_days =
      ltb (day + max_past_days) received_on || ltb (received_on + max_future_days) day

  abbrev pub judged : Option ℕ → ℕ → ℕ → ℕ → Option DateVerdict
  judged none received_on max_past_days max_future_days = some unparseable
  judged (some day) received_on max_past_days max_future_days =
      if is_implausible day received_on max_past_days max_future_days
      then some implausible
      else none

  unfoldable pub check_date : Option Text → ℕ → ℕ → ℕ → Option DateVerdict
  check_date none received_on max_past_days max_future_days = none
  check_date (some value) received_on max_past_days max_future_days =
      if non_empty (strip value)
      then judged (parse_iso_date (some value)) received_on max_past_days max_future_days
      else none

  abbrev pub normalize_currency : Text → Text
  normalize_currency value = checks.upper (strip value)

  unfoldable pub check_currency : Option Text → Bool
  check_currency none = false
  check_currency (some value) =
      non_empty (strip value) && not (among (normalize_currency value) checks.iso_4217_codes)

-- A confidence as it arrives: a Decimal, a bool, another number (as the Decimal of its `str`), or none
-- of these.
pub data Raw : Type 0 where
  decimal : Decimal → Raw
  boolean : Bool → Raw
  float : Decimal → Raw
  other : Raw

abbrev pub confidence_of : Raw → Option Decimal
confidence_of (decimal value) = some value
confidence_of (boolean b) = none
confidence_of (float value) = some value
confidence_of other = none

pub record LineSnapshot : Type 0 where
  pub line_id : ℕ
  pub line_number : ℕ
  pub sku : Option Text
  pub description : Option Text
  pub quantity : Option Decimal
  pub unit : Option Text
  pub unit_price : Option Decimal
  pub line_total : Option Decimal
  pub confidence : Option Decimal
  pub uom_mismatch : Bool
  pub matched_uom : Option Text
  pub matched_item_uom : Option Text

pub record DocumentSnapshot : Type 0 where
  pub document_id : ℕ
  pub received_on : ℕ
  pub header : Text → Option Field
  pub header_confidence : List (Text × Raw)
  pub lines : List LineSnapshot
  pub injection_suspected : Bool
  pub currency_inferred : Bool
  pub is_possible_duplicate : Bool
  pub duplicate_of_document_id : Option ℕ
  pub is_possible_change_order : Bool
  pub change_order_of_document_id : Option ℕ
  pub unreadable_numbers : List (Text × (Option ℕ × Text))
  pub pipeline_issues : List Text
