-- ===== src/Validation/Evaluate.antt =====
-- `evaluate_document` of packages/core/docflow_core/validation.py, and the warnings on its lines and
-- numbers that it joins with those of Document. The tolerance that a warning shows is exact here, where
-- the source rounds what has more than the 28 digits of the default context. The names of required
-- fields are those of a line.
use doc_flow.Prelude.{
  ℕ, String, Bool, not, ◌&&◌, Option, none, some, List, [], ◌∷◌, ◌++◌, map, filter, ltb, leb, ◌==◌,
  if◌then◌else◌, is_some,
}
use doc_flow.Prelude.Sort.{Text, text_beq, sort}
use doc_flow.Export.Csv.{codes}
use doc_flow.Validation.Numbers.{Decimal, plain, unusual_decimal_places, decimal_places}
use doc_flow.Validation.Money.{line_total_tolerance, check_line_total, check_quantity}
use doc_flow.Validation.Sync.{Severity, DocumentWarning}
use doc_flow.Validation.Fields.{
  Checks, FieldRules, money_severity, derived_money, Field, is_blank, words, amount_of,
  LineSnapshot, DocumentSnapshot,
}
use doc_flow.Validation.Document.{
  decimal_text, is_low, entry, maybe_entry, amount_entry, header_warning, if_list, concat_map,
  confidence_detail, document_warnings, header_warnings,
}

module _ (checks : Checks) where
  -- the local function `warning`
  abbrev pub line_warning :
      LineSnapshot → ℕ → Severity → Option Text → List (Text × Text) → DocumentWarning
  line_warning line code severity field_name detail = record {
    code = code;
    severity = severity;
    field_name = field_name;
    line_number = some line.line_number;
    document_line_id = some line.line_id;
    detail = entry "line_number" (decimal_text line.line_number) ∷ detail;
  }

  -- `getattr(line, name) is None`
  abbrev pub lacks : LineSnapshot → Text → Bool
  lacks line name =
      if text_beq name (codes "quantity")
      then not (is_some line.quantity)
      else (if text_beq name (codes "unit_price")
          then not (is_some line.unit_price)
          else (if text_beq name (codes "line_total")
              then not (is_some line.line_total)
              else (if text_beq name (codes "sku")
                  then not (is_some line.sku)
                  else (if text_beq name (codes "description")
                      then not (is_some line.description)
                      else text_beq name (codes "unit") && not (is_some line.unit)))))

  abbrev pub field_of : Option Text → Option Field
  field_of none = none
  field_of (some s) = some (words s)

  abbrev pub missing_line : LineSnapshot → Text → DocumentWarning
  missing_line line name =
      line_warning line 6 (checks.catalog_severity 6) (some name)
        (entry "scope" (codes "line") ∷ entry "field" name ∷ [])

  abbrev pub tolerance_entry : Option Decimal → Option Decimal → List (Text × Text)
  tolerance_entry (some quantity) (some unit_price) =
      entry "tolerance" (derived_money (line_total_tolerance quantity unit_price)) ∷ []
  tolerance_entry (some quantity) none = []
  tolerance_entry none unit_price = []

  abbrev pub line_total_warning : LineSnapshot → Option (Decimal × Decimal) → List DocumentWarning
  line_total_warning line none = []
  line_total_warning line (some (expected, delta)) =
      line_warning line 1 (money_severity delta expected) (some (codes "line_total")) (
        amount_entry "quantity" line.quantity
        ++ amount_entry "unit_price" line.unit_price
        ++ amount_entry "line_total" line.line_total
        ++ entry "expected" (derived_money expected)
          ∷ entry "difference" (derived_money delta)
          ∷ tolerance_entry line.quantity line.unit_price)
      ∷ []

  unfoldable pub line_warnings : FieldRules → LineSnapshot → List DocumentWarning
  line_warnings rules line =
      if_list (is_blank (field_of line.sku) && is_blank (field_of line.description))
        (missing_line line (codes "sku_or_description"))
      ++ map (missing_line line) (filter (lacks line) rules.required_line)
      ++ if_list (check_quantity line.quantity) (
          line_warning line 3 (checks.catalog_severity 3) (some (codes "quantity"))
            (amount_entry "quantity" line.quantity))
      ++ line_total_warning line (check_line_total line.quantity line.unit_price line.line_total)
      ++ if_list line.uom_mismatch (
          line_warning line 8 (checks.catalog_severity 8) (some (codes "unit")) (
            maybe_entry "unit" line.unit
            ++ maybe_entry "matched_uom" line.matched_uom
            ++ maybe_entry "catalog_unit_of_measure" line.matched_item_uom))
      ++ if_list (is_low line.confidence) (
          line_warning line 10 (checks.catalog_severity 10) none
            (confidence_detail checks (entry "scope" (codes "line") ∷ []) line.confidence))

  -- `line_ids.get(line_number)`, where the last of equal numbers holds
  abbrev pub id_of_line : ℕ → List LineSnapshot → Option ℕ
  id_of_line n [] = none
  id_of_line n (line ∷ lines) =
      let later = id_of_line n lines in
      if is_some later then later else (if line.line_number == n then some line.line_id else none)

  abbrev pub unreadable_warning : List LineSnapshot → Text × (Option ℕ × Text) → DocumentWarning
  unreadable_warning lines (name, (none, printed)) =
      header_warning 14 (checks.catalog_severity 14) (some name)
        (entry "scope" (codes "header") ∷ entry "field" name ∷ entry "printed" printed ∷ [])
  unreadable_warning lines (name, (some n, printed)) = record {
    code = 14;
    severity = checks.catalog_severity 14;
    field_name = some name;
    line_number = some n;
    document_line_id = id_of_line n lines;
    detail =
        entry "scope" (codes "line")
        ∷ entry "field" name
        ∷ entry "printed" printed
        ∷ entry "line_number" (decimal_text n)
        ∷ [];
  }

  abbrev pub is_long : Decimal → Bool
  is_long value = ltb unusual_decimal_places (decimal_places value)

  abbrev pub precision_detail : String → Text → Decimal → List (Text × Text)
  precision_detail scope name value =
      entry "scope" (codes scope)
      ∷ entry "field" name
      ∷ entry "value" (plain value)
      ∷ entry "decimal_places" (decimal_text (decimal_places value))
      ∷ []

  abbrev pub header_precision : Text → Option Decimal → List DocumentWarning
  header_precision name none = []
  header_precision name (some value) = if_list (is_long value) (
      header_warning 15 (checks.catalog_severity 15) (some name)
        (precision_detail "header" name value))

  abbrev pub line_precision : LineSnapshot → Text → Option Decimal → List DocumentWarning
  line_precision line name none = []
  line_precision line name (some value) = if_list (is_long value) record {
    code = 15;
    severity = checks.catalog_severity 15;
    field_name = some name;
    line_number = some line.line_number;
    document_line_id = some line.line_id;
    detail =
        precision_detail "line" name value
        ++ entry "line_number" (decimal_text line.line_number) ∷ [];
  }

  abbrev pub line_precisions : LineSnapshot → List DocumentWarning
  line_precisions line =
      line_precision line (codes "quantity") line.quantity
      ++ line_precision line (codes "unit_price") line.unit_price
      ++ line_precision line (codes "line_total") line.line_total

  -- `sorted(snapshot.lines, key=lambda item: item.line_number)`
  abbrev pub in_order : List LineSnapshot → List LineSnapshot
  in_order lines = sort (λ a b. leb a.line_number b.line_number) lines

  unfoldable pub number_warnings : DocumentSnapshot → List DocumentWarning
  number_warnings snapshot =
      map (unreadable_warning snapshot.lines) snapshot.unreadable_numbers
      ++ header_precision (codes "order_total") (amount_of (snapshot.header (codes "order_total")))
      ++ concat_map line_precisions (in_order snapshot.lines)

  unfoldable pub evaluate_document : DocumentSnapshot → FieldRules → List DocumentWarning
  evaluate_document snapshot rules =
      document_warnings checks snapshot
      ++ header_warnings checks snapshot rules
      ++ concat_map (line_warnings rules) (in_order snapshot.lines)
      ++ number_warnings snapshot
