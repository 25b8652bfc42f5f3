-- ===== src/Validation/Document.antt =====
-- The warnings on a document and on its header, `_document_warnings` and `_header_warnings` of
-- packages/core/docflow_core/validation.py. An entry of a warning's detail that is None is left out of it;
-- severities come from the catalog but where a rule sets its own.
use doc_flow.Prelude.{
  ℕ, suc, String, Bool, true, false, not, ◌&&◌, Option, none, some, List, [], ◌∷◌, ◌++◌, map,
  length, if◌then◌else◌,
}
use doc_flow.Prelude.Sort.{Text, text_beq, text_leb, sort}
use doc_flow.Export.Csv.{codes}
use doc_flow.Validation.Numbers.{Decimal, digits, plain}
use doc_flow.Validation.Money.{is_le, header_total_tolerance, check_header_total}
use doc_flow.Validation.Sync.{Severity, high, DocumentWarning, among}
use doc_flow.Validation.Fields.{
  Checks, FieldRules, money_severity, derived_money, is_blank, words_of, amount_of, DateVerdict,
  unparseable, implausible, check_date, check_currency, Raw, confidence_of, DocumentSnapshot,
}

abbrev pub decimal_text : ℕ → Text
decimal_text n = digits (suc n) n

abbrev pub confidence_threshold : Decimal
confidence_threshold = record { negative = false; coefficient = 80; places = 2 }

-- `value < CONFIDENCE_THRESHOLD`
abbrev pub is_low : Option Decimal → Bool
is_low none = false
is_low (some value) = not (is_le confidence_threshold value)

abbrev pub entry : String → Text → Text × Text
entry key value = (codes key, value)

abbrev pub maybe_entry : String → Option Text → List (Text × Text)
maybe_entry key none = []
maybe_entry key (some value) = entry key value ∷ []

abbrev pub amount_entry : String → Option Decimal → List (Text × Text)
amount_entry key none = []
amount_entry key (some value) = entry key (plain value) ∷ []

-- a warning of the document or its header
abbrev pub header_warning : ℕ → Severity → Option Text → List (Text × Text) → DocumentWarning
header_warning code severity field_name detail = record {
  code = code;
  severity = severity;
  field_name = field_name;
  line_number = none;
  document_line_id = none;
  detail = detail;
}

abbrev pub if_list : {A : Type 0} → Bool → A → List A
if_list true a = a ∷ []
if_list false a = []

abbrev pub concat_map : {A B : Type 0} → (A → List B) → List A → List B
concat_map f [] = []
concat_map f (a ∷ as') = f a ++ concat_map f as'

-- `sorted(set(...))`, of texts
abbrev pub without_repeats : List Text → List Text
without_repeats [] = []
without_repeats (s ∷ rest) =
    let others = without_repeats rest in if among s others then others else s ∷ others

abbrev pub comma_joined : List Text → Text
comma_joined [] = []
comma_joined (s ∷ []) = s
comma_joined (s ∷ t ∷ rest) = s ++ b',' ∷ comma_joined (t ∷ rest)

module _ (checks : Checks) where
  abbrev pub pipeline_warning : List Text → List DocumentWarning
  pipeline_warning [] = []
  pipeline_warning (s ∷ issues) =
      header_warning 16 (checks.catalog_severity 16) none
        (entry "steps" (comma_joined (sort text_leb (without_repeats (s ∷ issues)))) ∷ [])
      ∷ []

  -- `if flag and other_id is not None:`
  abbrev pub related_warning : ℕ → String → Bool → Option ℕ → List DocumentWarning
  related_warning code key flag none = []
  related_warning code key flag (some other_id) = if_list flag (
      header_warning code (checks.catalog_severity code) none
        (entry key (decimal_text other_id) ∷ []))

  unfoldable pub document_warnings : DocumentSnapshot → List DocumentWarning
  document_warnings snapshot =
      if_list snapshot.injection_suspected (
        header_warning 9 (checks.catalog_severity 9) none
          (entry "injection_suspected" (codes "true") ∷ []))
      ++ pipeline_warning snapshot.pipeline_issues
      ++ related_warning 12 "duplicate_of_document_id" snapshot.is_possible_duplicate
          snapshot.duplicate_of_document_id
      ++ related_warning 13 "change_order_of_document_id" snapshot.is_possible_change_order
          snapshot.change_order_of_document_id

  abbrev pub blank_warning : Text → DocumentWarning
  blank_warning name =
      header_warning 6
        (if text_beq name (codes "po_number") then high else checks.catalog_severity 6) (some name)
        (entry "scope" (codes "header") ∷ entry "field" name ∷ [])

  abbrev pub missing_header : DocumentSnapshot → Text → List DocumentWarning
  missing_header snapshot name = if_list (is_blank (snapshot.header name)) (blank_warning name)

  -- the two warnings on the currency, which a hidden one does not get
  abbrev pub currency_warnings : DocumentSnapshot → FieldRules → List DocumentWarning
  currency_warnings snapshot rules =
      let currency = codes "currency" in
      let printed = words_of (snapshot.header currency) in
      let shown = not (among currency rules.hidden_header) in
      if_list (shown && check_currency checks printed) (
        header_warning 7 (checks.catalog_severity 7) (some currency)
          (maybe_entry "currency" printed))
      ++ if_list (snapshot.currency_inferred && shown) (
          header_warning 11 (checks.catalog_severity 11) (some currency)
            (maybe_entry "currency" printed))

  abbrev pub date_verdict : DocumentSnapshot → Text → Option DateVerdict → List DocumentWarning
  date_verdict snapshot name none = []
  date_verdict snapshot name (some unparseable) =
      header_warning 4 (checks.catalog_severity 4) (some name)
        (entry "field" name ∷ maybe_entry "value" (words_of (snapshot.header name)))
      ∷ []
  date_verdict snapshot name (some implausible) =
      header_warning 5 (checks.catalog_severity 5) (some name) (
        entry "field" name
        ∷ (maybe_entry "value" (words_of (snapshot.header name))
            ++ entry "received_on" (checks.isoformat snapshot.received_on) ∷ []))
      ∷ []

  abbrev pub date_warnings : DocumentSnapshot → List DocumentWarning
  date_warnings snapshot =
      let order_date = codes "order_date" in
      let delivery_date = codes "requested_delivery_date" in
      date_verdict snapshot order_date
        (check_date checks (words_of (snapshot.header order_date)) snapshot.received_on 730 30)
      ++ date_verdict snapshot delivery_date (
          check_date checks (words_of (snapshot.header delivery_date)) snapshot.received_on 30 1095)

  abbrev pub total_warning : DocumentSnapshot → Option (Decimal × Decimal) → List DocumentWarning
  total_warning snapshot none = []
  total_warning snapshot (some (expected_sum, delta)) =
      let order_total = codes "order_total" in
      header_warning 2 (money_severity delta expected_sum) (some order_total) (
        amount_entry "order_total" (amount_of (snapshot.header order_total))
        ++ entry "sum_of_lines" (derived_money expected_sum)
          ∷ entry "difference" (derived_money delta)
          ∷ entry "line_count" (decimal_text (length snapshot.lines))
          ∷ entry "tolerance" (derived_money (header_total_tolerance (length snapshot.lines)))
          ∷ [])
      ∷ []

  -- one entry of the header's confidences
  abbrev pub is_flagged : DocumentSnapshot → FieldRules → Text → Option Decimal → Bool
  is_flagged snapshot rules name confidence =
      not (among name rules.hidden_header)
      && (not (not (among name rules.required_header) && is_blank (snapshot.header name))
          && is_low confidence)

  abbrev pub confidence_detail : List (Text × Text) → Option Decimal → List (Text × Text)
  confidence_detail place none = place
  confidence_detail place (some confidence) =
      place
      ++ entry "confidence" (checks.decimal_str confidence)
        ∷ entry "threshold" (checks.decimal_str confidence_threshold)
        ∷ []

  abbrev pub header_confidence_warning :
      DocumentSnapshot → FieldRules → Text × Raw → List DocumentWarning
  header_confidence_warning snapshot rules (name, raw) =
      if_list (is_flagged snapshot rules name (confidence_of raw)) (
        header_warning 10 (checks.catalog_severity 10) (some name) (
          confidence_detail (entry "scope" (codes "header") ∷ entry "field" name ∷ [])
            (confidence_of raw)))

  abbrev pub name_leb : Text × Raw → Text × Raw → Bool
  name_leb (a, _) (b, _) = text_leb a b

  unfoldable pub header_warnings : DocumentSnapshot → FieldRules → List DocumentWarning
  header_warnings snapshot rules =
      concat_map (missing_header snapshot) rules.required_header
      ++ currency_warnings snapshot rules
      ++ date_warnings snapshot
      ++ total_warning snapshot (
          check_header_total (amount_of (snapshot.header (codes "order_total")))
            (map (λ l. l.line_total) snapshot.lines))
      ++ concat_map (header_confidence_warning snapshot rules)
          (sort name_leb snapshot.header_confidence)
