-- ===== src/Validation/Required.antt =====
-- Which findings `evaluate_document` of packages/core/docflow_core/validation.py makes of the header's
-- fields, among all the warnings that it joins.
use doc_flow.Prelude.{
  ℕ, String, Bool, true, false, not, ◌&&◌, ◌||◌, Option, none, some, List, [], ◌∷◌, ◌++◌, map,
  filter, ◌≡◌, refl, ap, ◌∙◌, inl, inr, arith, any, is_some, ◌==◌, Bool-cases,
}
use doc_flow.Prelude.Sort.{Text, text_beq, text_beq→eq, sort}
use doc_flow.Export.Csv.{codes}
use doc_flow.Validation.Numbers.{Decimal}
use doc_flow.Validation.Money.{check_line_total, check_header_total}
use doc_flow.Validation.Sync.{DocumentWarning, among}
use doc_flow.Validation.Fields.{
  Checks, FieldRules, is_blank, words_of, amount_of, DateVerdict, unparseable, implausible,
  check_date, Raw, LineSnapshot, DocumentSnapshot,
}
use doc_flow.Validation.Document.{
  if_list, concat_map, pipeline_warning, related_warning, document_warnings, blank_warning,
  missing_header, date_verdict, name_leb, total_warning, header_confidence_warning, header_warnings,
}
use doc_flow.Validation.Evaluate.{
  lacks, in_order, missing_line, line_total_warning, line_warnings, unreadable_warning,
  header_precision, line_precision, line_precisions, number_warnings, evaluate_document,
}

-- the field that a warning names
abbrev pub names : Text → Option Text → Bool
names name none = false
names name (some other) = text_beq other name

-- a warning with this code, on this field of the header
abbrev pub on_header : ℕ → Text → DocumentWarning → Bool
on_header code name w = w.code == code && (not (is_some w.line_number) && names name w.field_name)

module _ {A : Type 0} (p : A → Bool) where
  any-append : (xs ys : List A) → any p (xs ++ ys) ≡ (any p xs || any p ys)
  any-append [] ys = refl
  any-append (x ∷ xs) ys = let ih = any-append xs ys in rw ih (assoc (p x) _ _)
    where
      assoc : (a b c : Bool) → (a || (b || c)) ≡ ((a || b) || c)
      assoc a b c = ground arith

  any-if_list : (b : Bool) (x : A) → any p (if_list b x) ≡ (b && p x)
  any-if_list true x = ground arith
  any-if_list false x = refl

  none-concat_map :
      {B : Type 0} (f : B → List A)
      → ((x : B) → any p (f x) ≡ false)
      → (xs : List B) → any p (concat_map f xs) ≡ false
  none-concat_map f h [] = refl
  none-concat_map f h (x ∷ xs) =
      any-append (f x) (concat_map f xs) ∙ (rw (h x, none-concat_map f h xs) refl)

  none-map :
      {B : Type 0} (f : B → A)
      → ((x : B) → p (f x) ≡ false)
      → (xs : List B) → any p (map f xs) ≡ false
  none-map f h [] = refl
  none-map f h (x ∷ xs) = rw (h x) (none-map f h xs)

and_false : (b : Bool) → (b && false) ≡ false
and_false b = ground arith

or_false : (b : Bool) → (b || false) ≡ b
or_false b = ground arith

or_true : (b : Bool) → (b || true) ≡ true
or_true b = ground arith

-- The lists that make no finding of the code 6 on a field of the header.
module _ (checks : Checks) (name : Text) where
  abbrev pub missing : DocumentWarning → Bool
  missing w = on_header 6 name w

  none_pipeline : (issues : List Text) → any missing (pipeline_warning checks issues) ≡ false
  none_pipeline [] = refl
  none_pipeline (i ∷ issues) = refl

  none_related :
      (code : ℕ) (key : String) (flag : Bool) (other : Option ℕ)
      → (code == 6) ≡ false
      → any missing (related_warning checks code key flag other) ≡ false
  none_related code key flag none h = refl
  none_related code key flag (some i) h = any-if_list missing flag _ ∙ (rw h (and_false flag))

  none-document_warnings : (s : DocumentSnapshot) → any missing (document_warnings checks s) ≡ false
  unfolding document_warnings
  none-document_warnings s = simp (
    any-append missing,
    any-if_list missing,
    none_pipeline s.pipeline_issues,
    none_related 12 "duplicate_of_document_id" s.is_possible_duplicate s.duplicate_of_document_id
        refl,
    none_related 13 "change_order_of_document_id" s.is_possible_change_order
        s.change_order_of_document_id refl,
    and_false,
  )

  none_verdict :
      (s : DocumentSnapshot) (field : Text) (o : Option DateVerdict)
      → any missing (date_verdict checks s field o) ≡ false
  none_verdict s field none = refl
  none_verdict s field (some unparseable) = refl
  none_verdict s field (some implausible) = refl

  none_total :
      (s : DocumentSnapshot) (o : Option (Decimal × Decimal))
      → any missing (total_warning checks s o) ≡ false
  none_total s none = refl
  none_total s (some (expected_sum, delta)) = refl

  none_confidence :
      (s : DocumentSnapshot) (rules : FieldRules) (entry : Text × Raw)
      → any missing (header_confidence_warning checks s rules entry) ≡ false
  none_confidence s rules (field, raw) = simp (any-if_list missing, and_false)

  none_line_total :
      (line : LineSnapshot) (o : Option (Decimal × Decimal))
      → any missing (line_total_warning checks line o) ≡ false
  none_line_total line none = refl
  none_line_total line (some (expected, delta)) = refl

  none-line_warnings :
      (rules : FieldRules) (line : LineSnapshot)
      → any missing (line_warnings checks rules line) ≡ false
  unfolding line_warnings
  none-line_warnings rules line = simp (
    any-append missing,
    any-if_list missing,
    none-map missing (missing_line checks line) (λ n. refl)
        (filter (lacks checks line) rules.required_line),
    none_line_total line (check_line_total line.quantity line.unit_price line.line_total),
    and_false,
  )

  none_precision :
      (line : LineSnapshot) (field : Text) (o : Option Decimal)
      → any missing (line_precision checks line field o) ≡ false
  none_precision line field none = refl
  none_precision line field (some value) = simp (any-if_list missing, and_false)

  none_header_precision :
      (field : Text) (o : Option Decimal) → any missing (header_precision checks field o) ≡ false
  none_header_precision field none = refl
  none_header_precision field (some value) = simp (any-if_list missing, and_false)

  none_unreadable :
      (lines : List LineSnapshot) (e : Text × (Option ℕ × Text))
      → missing (unreadable_warning checks lines e) ≡ false
  none_unreadable lines (field, (none, printed)) = refl
  none_unreadable lines (field, (some n, printed)) = refl

  none-number_warnings : (s : DocumentSnapshot) → any missing (number_warnings checks s) ≡ false
  unfolding number_warnings
  none-number_warnings s = simp (
    any-append missing,
    none-map missing (unreadable_warning checks s.lines) (none_unreadable s.lines)
        s.unreadable_numbers,
    none_header_precision (codes "order_total") (amount_of (s.header (codes "order_total"))),
    none-concat_map missing (line_precisions checks)
        (λ line. simp (
          any-append missing,
          none_precision line (codes "quantity") line.quantity,
          none_precision line (codes "unit_price") line.unit_price,
          none_precision line (codes "line_total") line.line_total,
        ))
        (in_order checks s.lines),
  )

  required-missing :
      (s : DocumentSnapshot) (required : List Text)
      → any missing (concat_map (missing_header checks s) required)
        ≡ (among name required && is_blank (s.header name))
  required-missing s [] = refl
  required-missing s (field ∷ required) =
      let ih = required-missing s required in
      any-append missing (missing_header checks s field)
        (concat_map (missing_header checks s) required)
      ∙ (rw (ih, any-if_list missing (is_blank (s.header field)) (blank_warning checks field))
          (elim (Bool-cases (text_beq field name)) [
            | inl e ↦
                let blank = ap (λ n. is_blank (s.header n)) (text_beq→eq field name e) in
                rw (e, blank) (same (is_blank (s.header name)) _)
            | inr e ↦ rw e (apart (is_blank (s.header field)) _)
          ]))
    where
      same : (b c : Bool) → ((b && true) || (c && b)) ≡ b
      same b c = ground arith

      apart : (b c : Bool) → ((b && false) || c) ≡ c
      apart b c = ground arith

  -- For every name: among all the findings on a document there is one, of a missing required field, on this
  -- field of the header exactly when the field is among the required ones and is blank.
  pub evaluate_document-missing :
      (s : DocumentSnapshot) (rules : FieldRules)
      → any missing (evaluate_document checks s rules)
        ≡ (among name rules.required_header && is_blank (s.header name))
  unfolding evaluate_document header_warnings
  evaluate_document-missing s rules = simp (
    any-append missing,
    none-document_warnings s,
    required-missing s rules.required_header,
    any-if_list missing,
    and_false,
    none_verdict s (codes "order_date")
        (check_date checks (words_of (s.header (codes "order_date"))) s.received_on 730 30),
    none_verdict s (codes "requested_delivery_date") (
        check_date checks (words_of (s.header (codes "requested_delivery_date"))) s.received_on 30
          1095),
    none_total s (
        check_header_total (amount_of (s.header (codes "order_total")))
          (map (λ l. l.line_total) s.lines)),
    none-concat_map missing (header_confidence_warning checks s rules) (none_confidence s rules)
        (sort (name_leb checks) s.header_confidence),
    none-concat_map missing (line_warnings checks rules) (none-line_warnings rules)
        (in_order checks s.lines),
    none-number_warnings s,
    or_false,
  )

abbrev pub order_date : Text
order_date = codes "order_date"

module _ (checks : Checks) (s : DocumentSnapshot) where
  -- When the order date does not read as a date, the findings on the document have one of it, whatever
  -- the rules hide.
  pub evaluate_document-hidden :
      (rules : FieldRules)
      → check_date checks (words_of (s.header order_date)) s.received_on 730 30 ≡ some unparseable
      → any (on_header 4 order_date) (evaluate_document checks s rules) ≡ true
  unfolding evaluate_document header_warnings text_beq
  evaluate_document-hidden rules h =
      simp (any-append (on_header 4 order_date), ap (date_verdict checks s order_date) h, or_true)
