-- ===== src/Validation/RuleTests.antt =====
-- Runs of the rules on fields, and the witnesses.
use doc_flow.Prelude.{
  ℕ, ◌*◌, ◌+◌, ◌-◌, true, false, ◌&&◌, Option, none, some, List, [], ◌∷◌, map, ltb, ◌≡◌, refl,
  if◌then◌else◌, any,
}
use doc_flow.Prelude.Sort.{Text, text_beq}
use doc_flow.Export.Csv.{codes}
use doc_flow.Validation.Numbers.{Decimal}
use doc_flow.Validation.Sync.{high, warning, DocumentWarning}
use doc_flow.Validation.Fields.{
  Checks, FieldRules, default_field_rules, money_severity, derived_money, Field, words, unparseable,
  implausible, check_date, check_currency, parse_iso_date, float, DocumentSnapshot,
}
use doc_flow.Validation.Document.{document_warnings, header_warnings, decimal_text}
use doc_flow.Validation.Evaluate.{evaluate_document, number_warnings}
use doc_flow.Validation.Required.{
  missing, on_header, order_date, evaluate_document-missing, evaluate_document-hidden,
}

abbrev pub checks : Checks
checks = record {
  catalog_severity = λ code. warning;
  fromisoformat = λ s. if text_beq s (codes "2026-03-01") then some 20000 else none;
  isoformat = decimal_text;
  upper = map (λ c. if ltb 96 c && ltb c 123 then c - 32 else c);
  decimal_str = λ value. decimal_text value.coefficient;
  iso_4217_codes = codes "USD" ∷ codes "EUR" ∷ [];
}

abbrev pub cents : ℕ → Decimal
cents n = record { negative = false; coefficient = n; places = 2 }

four_percent_off : money_severity (cents 400) (cents 10000) ≡ warning
unfolding money_severity doc_flow.Validation.Money.is_le
four_percent_off = refl

five_percent_off : money_severity (cents 500) (cents 10000) ≡ high
unfolding money_severity doc_flow.Validation.Money.is_le
five_percent_off = refl

half_a_cent_up :
    derived_money record { negative = false; coefficient = 12345; places = 3 } ≡ codes "12.35"
unfolding derived_money doc_flow.Validation.Numbers.plain doc_flow.Validation.Numbers.digits
    doc_flow.Validation.Numbers.split_digits
half_a_cent_up = refl

lower_case_currency : check_currency checks (some (codes " usd ")) ≡ false
unfolding check_currency doc_flow.Matching.Keys.rstrip doc_flow.Matching.Keys.lstrip text_beq
lower_case_currency = refl

early_order : check_date checks (some (codes "2026-03-01")) 20731 730 30 ≡ some implausible
unfolding check_date parse_iso_date doc_flow.Matching.Keys.rstrip doc_flow.Matching.Keys.lstrip
    text_beq
early_order = refl

-- an order without a PO number, whose order date is a text that is no date
abbrev header : Text → Option Field
header name = if text_beq name (codes "order_date") then some (words (codes "soon")) else none

abbrev snapshot : DocumentSnapshot
snapshot = record {
  document_id = 1;
  received_on = 20000;
  header = header;
  header_confidence =
      (codes "po_number", float (cents 10)) ∷ (codes "notes", float (cents 10)) ∷ [];
  lines = [];
  injection_suspected = false;
  currency_inferred = false;
  is_possible_duplicate = true;
  duplicate_of_document_id = some 7;
  is_possible_change_order = false;
  change_order_of_document_id = none;
  unreadable_numbers = [];
  pipeline_issues = codes "matching" ∷ codes "matching" ∷ [];
}

-- rules that hide the order date
abbrev rules : FieldRules
rules = record default_field_rules { hidden_header = codes "order_date" ∷ [] }

abbrev code_of : DocumentWarning → ℕ
code_of w = w.code

all_findings :
    map code_of (evaluate_document checks snapshot rules) ≡ 16 ∷ 12 ∷ 6 ∷ 6 ∷ 6 ∷ 6 ∷ 4 ∷ 10 ∷ []
unfolding evaluate_document document_warnings header_warnings text_beq check_currency check_date
    doc_flow.Matching.Keys.rstrip doc_flow.Matching.Keys.lstrip parse_iso_date
    doc_flow.Validation.Money.check_header_total doc_flow.Prelude.Sort.sort
    doc_flow.Prelude.Sort.text_leb doc_flow.Validation.Money.is_le number_warnings
all_findings = refl

evaluate_document-missing_example :
    any (missing checks (codes "po_number")) (evaluate_document checks snapshot rules) ≡ true
unfolding text_beq
evaluate_document-missing_example =
    evaluate_document-missing checks (codes "po_number") snapshot rules

order_date-unparseable : check_date checks (some (codes "soon")) 20000 730 30 ≡ some unparseable
unfolding check_date doc_flow.Matching.Keys.rstrip doc_flow.Matching.Keys.lstrip parse_iso_date
    text_beq
order_date-unparseable = refl

evaluate_document-hidden_example :
    any (on_header 4 order_date) (evaluate_document checks snapshot rules) ≡ true
unfolding text_beq
evaluate_document-hidden_example =
    evaluate_document-hidden checks snapshot rules order_date-unparseable
