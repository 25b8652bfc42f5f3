-- ===== src/Review.antt =====
-- Human review, packages/core/docflow_core/review.py: what a reviewer sends, the allowlist of fields,
-- the typed numbers, and the changes that a save makes. The children hold the rows (Tables), a save
-- (Edit), the decisions (Decide), and the proofs.
use doc_flow.Prelude.{
  ℕ, String, Bool, true, false, not, ◌&&◌, ◌||◌, Option, none, some, List, [], ◌∷◌, map,
  if◌then◌else◌, ◌≡◌, refl,
}
use doc_flow.Prelude.Sort.{Text, text_beq}
use doc_flow.Validation.Numbers.{Decimal, DigitTable, is_document_number, plain}
use doc_flow.Validation.Sync.{among}
use doc_flow.Export.View.{cell_beq}
use doc_flow.Export.Csv.{codes}
pub mod Rows
pub mod Tables
pub mod Notes
pub mod Decide
pub mod Edit
pub mod Acknowledged
pub mod Noted
pub mod Approving
pub mod Approval
pub mod Snapshots
pub mod Steps
pub mod Moved
pub mod Calls
pub mod Retained
pub mod Saves
pub mod Reopened
pub mod Saved
mod Tests

-- The codes that a `ReviewError` carries, REV-001 to REV-005 and REV-007.
pub data ReviewCode : Type 0 where
  code_unacknowledged_warnings code_already_approved code_field_not_editable : ReviewCode
  code_not_reviewable code_stale_edit code_not_a_number : ReviewCode

-- What ends a call: a ReviewError, IllegalTransition, or a value that a column's type refuses. The
-- caller's transaction is then rolled back.
pub data Failure : Type 0 where
  review_error : ReviewCode → Failure
  illegal_transition data_error : Failure

pub data Outcome {ℓ} (A : Type ℓ) : Type ℓ where
  done : A → Outcome A
  raised : Failure → Outcome A

infixl 5 ◌>>=◌ ◌>>◌
abbrev pub ◌>>=◌ {ℓ κ} : {A : Type ℓ} {B : Type κ} → Outcome A → (A → Outcome B) → Outcome B
done a >>= next = next a
raised e >>= next = raised e

abbrev pub ◌>>◌ {κ} : {B : Type κ} → Outcome (Unit {0}) → Outcome B → Outcome B
done _ >> later = later
raised e >> later = raised e

-- A chain that returned: its first step did, and so did the rest.
pub bind_done {ℓ κ} :
    {A : Type ℓ} {B : Type κ} (step : Outcome A) (next : A → Outcome B) {b : B}
    → (step >>= next) ≡ done b
    → (a : A) × (step ≡ done a) × (next a ≡ done b)
bind_done (done a) next e = (a, refl, e)
bind_done (raised f) next e = cc

abbrev pub refuse_if : Bool → ReviewCode → Outcome (Unit {0})
refuse_if true code = raised (review_error code)
refuse_if false code = done tt

abbrev pub editable_header_fields : List Text
editable_header_fields = map codes (
    "po_number" ∷ "order_date" ∷ "requested_delivery_date" ∷ "buyer_name" ∷ "buyer_contact_email"
    ∷ "ship_to_address" ∷ "payment_terms" ∷ "order_total" ∷ "currency" ∷ "notes" ∷ [])

abbrev pub editable_line_fields : List Text
editable_line_fields =
    map codes ("sku" ∷ "description" ∷ "unit" ∷ "quantity" ∷ "unit_price" ∷ "line_total" ∷ [])

abbrev pub numeric_header_fields : List Text
numeric_header_fields = codes "order_total" ∷ []

abbrev pub numeric_line_fields : List Text
numeric_line_fields = map codes ("quantity" ∷ "unit_price" ∷ "line_total" ∷ [])

-- A dict from field names to new values, in the order of the request.
abbrev pub Values : Type 0
Values = List (Text × Option Text)

pub record EditRequest : Type 0 where
  pub header : Values
  pub lines : List (ℕ × Values)

pub record FieldChange : Type 0 where
  pub field_name : Text
  pub before : Option Text
  pub after : Option Text
  pub line_number : Option ℕ

-- What a column holds: text, a date as its text, or a numeric.
pub data Stored : Type 0 where
  text : Text → Stored
  number : Decimal → Stored

abbrev pub as_text : Option Stored → Option Text
as_text none = none
as_text (some (text s)) = some s
as_text (some (number n)) = some (plain n)

abbrev pub check_names : List Text → Values → Outcome (Unit {0})
check_names allowlist [] = done tt
check_names allowlist ((name, value) ∷ rest) = do
  refuse_if (not (among name allowlist)) code_field_not_editable
  check_names allowlist rest

abbrev pub is_blank : Option Text → Bool
is_blank none = true
is_blank (some []) = true
is_blank (some (c ∷ s)) = false

module _ (table : DigitTable) where
  abbrev pub is_number : Option Text → Bool
  is_number none = false
  is_number (some s) = is_document_number table s

  abbrev pub check_typed_numbers : List Text → Values → Outcome (Unit {0})
  check_typed_numbers numeric_fields [] = done tt
  check_typed_numbers numeric_fields ((name, value) ∷ rest) = do
    refuse_if (among name numeric_fields && (not (is_blank value) && not (is_number value)))
        code_not_a_number
    check_typed_numbers numeric_fields rest

  -- the loops over `request.lines`
  abbrev pub each_line : (Values → Outcome (Unit {0})) → List (ℕ × Values) → Outcome (Unit {0})
  each_line check [] = done tt
  each_line check ((line_id, fields) ∷ rest) = do check fields; each_line check rest

  unfoldable pub validate_editable : EditRequest → Outcome (Unit {0})
  validate_editable request = do
    check_names editable_header_fields request.header
    each_line (check_names editable_line_fields) request.lines
    check_typed_numbers numeric_header_fields request.header
    each_line (check_typed_numbers numeric_line_fields) request.lines

abbrev pub is_empty_text : Option Text → Bool
is_empty_text none = false
is_empty_text (some []) = true
is_empty_text (some (c ∷ s)) = false

unfoldable pub cleared_numbers_as_null : List Text → Values → Values
cleared_numbers_as_null numeric_fields [] = []
cleared_numbers_as_null numeric_fields ((name, value) ∷ rest) =
    (name, if among name numeric_fields && is_empty_text value then none else value)
    ∷ cleared_numbers_as_null numeric_fields rest

abbrev pub cleared_lines : List (ℕ × Values) → List (ℕ × Values)
cleared_lines [] = []
cleared_lines ((line_id, fields) ∷ rest) =
    (line_id, cleared_numbers_as_null numeric_line_fields fields) ∷ cleared_lines rest

unfoldable pub diff_fields : (Text → Option Stored) → Values → Option ℕ → List FieldChange
diff_fields before [] line_number = []
diff_fields before ((name, new_value) ∷ rest) line_number =
    let changes = diff_fields before rest line_number in
    if cell_beq (as_text (before name)) new_value
    then changes
    else record {
      field_name = name;
      before = as_text (before name);
      after = new_value;
      line_number = line_number;
    }
      ∷ changes
