-- ===== src/Validation/Tests.antt =====
-- Runs of the number functions and of the reconciliation of warnings, and the witnesses.
use doc_flow.Prelude.{
  ℕ, ◌+◌, ◌-◌, ◌*◌, ◌^◌, ◌<◌, true, not, map, is_some, ◌≡◌, refl, false, ◌&&◌, Option, none, some,
  List, [], ◌∷◌, leb, if◌then◌else◌, arith,
}
use doc_flow.Prelude.Sort.{Text, text_beq}
use doc_flow.Validation.Numbers.{
  Decimal, DigitTable, parse_document_number, plain, split_digits, digits,
}
use doc_flow.Validation.Numbers.RoundTrip.{parse_document_number-plain}
use doc_flow.Validation.Money.{
  dist, aligned, times, minus, plus, is_le, unsigned, line_total_tolerance, check_line_total,
  check_header_total, check_quantity, exact_context_precision,
}
use doc_flow.Validation.Money.Rounded.{check_line_total-allowance}
use doc_flow.Validation.Money.Header.{
  PrintedLine, printed, sum_by, printed_amount, check_header_total-allowance,
  check_header_total-rounded,
}
use doc_flow.Validation.Money.Exact.{IsExact, check_line_total-IsExact}
use doc_flow.Validation.Sync.{
  DocumentWarning, WarningRow, high, acknowledged, opened, WarningStatus, sync_warnings,
  first_of_each, insert_missing, insert_open, resolve_ids,
}
use doc_flow.Validation.Sync.Kept.{After, sync_warnings-After}
use doc_flow.Validation.Sync.RowByRow.{Prefix}

abbrev pub ascii_value : ℕ → Option ℕ
ascii_value c = if leb 48 c && leb c 57 then some (c - 48) else none

pub ascii_value-digit : (v : ℕ) → v < 10 → ascii_value (v + 48) ≡ some v
ascii_value-digit v h = ground arith

abbrev pub ascii_digits : DigitTable
ascii_digits = record {
  digit_value = ascii_value;
  ascii_digits = ascii_value-digit;
  no_point = refl;
  no_apostrophe = refl;
}

-- 47.50
abbrev price : Decimal
price = record { negative = false; coefficient = 4750; places = 2 }

plain-price : plain price ≡ (b'4' ∷ b'7' ∷ b'.' ∷ b'5' ∷ b'0' ∷ [])
unfolding plain split_digits digits
plain-price = refl

parse_document_number-plain_example :
    parse_document_number ascii_digits (some (plain price)) ≡ some price
parse_document_number-plain_example = parse_document_number-plain ascii_digits 4750 2

abbrev warning_of : ℕ → DocumentWarning
warning_of code = record {
  code = code;
  severity = high;
  field_name = none;
  line_number = none;
  document_line_id = none;
  detail = [];
}

abbrev print_of : DocumentWarning → Text
print_of w = w.code ∷ []

abbrev row : ℕ → ℕ → WarningStatus → WarningRow
row id code status = record {
  id = id;
  document_id = 3;
  content = warning_of code;
  fingerprint = code ∷ [];
  status = status;
  resolved_at = none;
  deleted = false;
  created_at = 1;
}

-- an acknowledged warning that is computed again, and an open one that is not
abbrev two_rows : List WarningRow
two_rows = row 1 5 acknowledged ∷ row 2 6 opened ∷ []

sync_two_rows :
    (sync_warnings print_of
      (λ n. 100 + n)
      3
      9
      (warning_of 5 ∷ warning_of 7 ∷ [])
      two_rows).1.created
    ≡ 1
unfolding sync_warnings first_of_each insert_missing insert_open resolve_ids text_beq
sync_two_rows = refl

sync_warnings-After_example :
    Prefix
      (After print_of (λ n. 100 + n) 3 9 (warning_of 5 ∷ []))
      two_rows
      (sync_warnings print_of (λ n. 100 + n) 3 9 (warning_of 5 ∷ []) two_rows).0
sync_warnings-After_example =
    sync_warnings-After print_of (λ n. 100 + n) 3 9 (warning_of 5 ∷ []) two_rows
      (((λ e. absurd (cc e)), tt), (tt, tt))

check_line_total-allowance_example :
    is_some
      (check_line_total (some (unsigned 3 0)) (some (unsigned 4750 2)) (some (unsigned 15000 2)))
    ≡ not (
        leb
          (dist
            (aligned 3 (unsigned 15000 2))
            (aligned 0 (unsigned 3 0) * aligned 3 (unsigned 4750 2)))
          (1 * 10 ^ 1 + aligned 0 (unsigned 3 0) * (5 * 10 ^ 0)))
check_line_total-allowance_example =
    check_line_total-allowance 3 0 4750 2 15000 2 0 3 (omega arith) (omega arith) (omega arith)

seven_fifty_over :
    check_line_total (some (unsigned 3 0)) (some (unsigned 4750 2)) (some (unsigned 15000 2))
    ≡ some (unsigned 14250 2, unsigned 750 2)
unfolding check_line_total is_le plus
seven_fifty_over = refl

check_line_total-IsExact_example :
    IsExact
      (exact_context_precision (unsigned 3 0 ∷ unsigned 4750 2 ∷ unsigned 15000 2 ∷ []))
      (times (unsigned 3 0) (unsigned 4750 2))
    × IsExact
        (exact_context_precision (unsigned 3 0 ∷ unsigned 4750 2 ∷ unsigned 15000 2 ∷ []))
        (minus (unsigned 15000 2) (times (unsigned 3 0) (unsigned 4750 2)))
    × IsExact
        (exact_context_precision (unsigned 3 0 ∷ unsigned 4750 2 ∷ unsigned 15000 2 ∷ []))
        (line_total_tolerance (unsigned 3 0) (unsigned 4750 2))
check_line_total-IsExact_example =
    check_line_total-IsExact (unsigned 3 0) (unsigned 4750 2) (unsigned 15000 2)

-- two lines of 0.335, each printed as 0.34, and their total 0.67
abbrev half_cents : PrintedLine
half_cents = record { coefficient = 34; places = 2; amount = 335 }

check_header_total-rounded_example :
    check_header_total (some (unsigned 67 2)) (map printed (half_cents ∷ half_cents ∷ [])) ≡ none
check_header_total-rounded_example =
    check_header_total-rounded 3 67 2 half_cents (half_cents ∷ []) (omega arith) (omega arith)
      (omega arith, (omega arith, tt)) (omega arith, (omega arith, tt)) (omega arith)

check_header_total-allowance_example :
    is_some (check_header_total (some (unsigned 71 2)) (map printed (half_cents ∷ half_cents ∷ [])))
    ≡ not (
        leb
          (dist 710 (sum_by 3 (printed_amount 3) (half_cents ∷ half_cents ∷ [])))
          (1 * 2 * 10 ^ 1))
check_header_total-allowance_example =
    check_header_total-allowance 3 71 2 half_cents (half_cents ∷ []) (omega arith) (omega arith)
      (omega arith, (omega arith, tt))

no_quantity_is_zero : check_quantity (some (unsigned 0 2)) ≡ true
unfolding check_quantity is_le
no_quantity_is_zero = refl
