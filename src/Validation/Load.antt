-- ===== src/Validation/Load.antt =====
-- `load_snapshot` of packages/core/docflow_core/validation.py: the rows that the rules read of a document,
-- its lines, and the numbers that the model printed in a form that is none. Rows are those of one tenant
-- and JSON columns are read already; a line's item is looked up in the list of items.
use doc_flow.Prelude.{
  ℕ, Bool, true, false, not, ◌&&◌, Option, none, some, List, [], ◌∷◌, ◌++◌, map, filter, leb, ◌==◌,
  if◌then◌else◌, is_some,
}
use doc_flow.Prelude.Sort.{Text, sort}
use doc_flow.Export.Csv.{codes}
use doc_flow.Validation.Numbers.{DigitTable, non_empty, is_document_number}
use doc_flow.Validation.Sync.{among}
use doc_flow.Validation.Fields.{Field, Raw, amount_of, LineSnapshot, DocumentSnapshot}
use doc_flow.Validation.Document.{concat_map}

-- A value of a JSON object: a text, or anything else.
pub data Json : Type 0 where
  json_text : Text → Json
  json_other : Json

abbrev pub Printed : Type 0
Printed = Text → Option Json

-- `raw_json` where it is an object whose header is one; an item of its lines that is no object is `none`
pub record RawDocument : Type 0 where
  pub header : Printed
  pub line_items : List (Option (Option ℕ × Printed))

pub record DocumentRow : Type 0 where
  pub id : ℕ
  pub created_on : ℕ
  pub injection_suspected : Bool
  pub raw_json : Option RawDocument
  pub pipeline_issues : List Text
  pub is_possible_duplicate : Bool
  pub duplicate_of_document_id : Option ℕ
  pub is_possible_change_order : Bool
  pub change_order_of_document_id : Option ℕ
  pub deleted : Bool

pub record JoinedHeader : Type 0 where
  pub document_id : ℕ
  pub values : Text → Option Field
  pub header_confidence : List (Text × Raw)
  pub currency_inferred : Bool
  pub field_provenance : Printed
  pub deleted : Bool

-- a line with its own columns; those of its item are joined to it
pub record JoinedLine : Type 0 where
  pub document_id : ℕ
  pub line : LineSnapshot
  pub matched_item_id : Option ℕ
  pub field_provenance : Printed
  pub deleted : Bool

pub record Rows : Type 0 where
  pub documents : List DocumentRow
  pub headers : List JoinedHeader
  pub lines : List JoinedLine
  pub item_units : List (ℕ × Option Text)

abbrev pub first_of : {A : Type 0} → List A → Option A
first_of [] = none
first_of (a ∷ as') = some a

-- `value.startswith(...)`
abbrev pub starts_with_text : Text → Text → Bool
starts_with_text [] s = true
starts_with_text (p ∷ ps) [] = false
starts_with_text (p ∷ ps) (c ∷ s) = p == c && starts_with_text ps s

abbrev pub is_edit : Option Json → Bool
is_edit none = false
is_edit (some (json_text value)) = starts_with_text (codes "human_edit") value
is_edit (some json_other) = false

unfoldable pub still_extracted : Printed → Text → Bool
still_extracted provenance name = not (is_edit (provenance name))

abbrev pub header_keys : List Text
header_keys = map codes (
    "po_number" ∷ "order_date" ∷ "requested_delivery_date" ∷ "buyer_name" ∷ "buyer_contact_email"
    ∷ "ship_to_address" ∷ "payment_terms" ∷ "order_total" ∷ "currency" ∷ "notes" ∷ [])

-- the columns of the header that is joined, NULL where there is none
abbrev pub header_dict : Option JoinedHeader → Text → Option Field
header_dict none name = none
header_dict (some h) name = if among name header_keys then h.values name else none

abbrev pub confidences : Option JoinedHeader → List (Text × Raw)
confidences none = []
confidences (some h) = h.header_confidence

abbrev pub was_inferred : Option JoinedHeader → Bool
was_inferred none = false
was_inferred (some h) = h.currency_inferred

abbrev pub provenance_of_header : Option JoinedHeader → Printed
provenance_of_header none = λ _. none
provenance_of_header (some h) = h.field_provenance

-- the item that is joined to a line
abbrev pub unit_of : List (ℕ × Option Text) → ℕ → Option Text
unit_of [] i = none
unit_of ((id, unit) ∷ items) i = let later = unit_of items i in if id == i then unit else later

abbrev pub unit_of_match : List (ℕ × Option Text) → Option ℕ → Option Text
unit_of_match items none = none
unit_of_match items (some i) = unit_of items i

abbrev pub snapshot_of_line : List (ℕ × Option Text) → JoinedLine → LineSnapshot
snapshot_of_line items l = record l.line {
  matched_item_uom = unit_of_match items l.matched_item_id;
}

abbrev pub has_number : Option ℕ → ℕ → Bool
has_number none n = false
has_number (some m) n = m == n

-- `raw_lines.get(line_number) or {}`, where the last of equal numbers holds
abbrev pub printed_line : List (Option (Option ℕ × Printed)) → ℕ → Option Printed
printed_line [] n = none
printed_line (none ∷ items) n = printed_line items n
printed_line (some (number, printed) ∷ items) n =
    let later = printed_line items n in
    if is_some later then later else (if has_number number n then some printed else none)

abbrev pub printed_or_empty : Option Printed → Printed
printed_or_empty none = λ _. none
printed_or_empty (some printed) = printed

module _ (table : DigitTable) where
  -- what is printed of a field without a value, when it is unreadable and the field is as extracted
  abbrev pub unreadable_of :
      Text → Option ℕ → Bool → Printed → Option Json → List (Text × (Option ℕ × Text))
  unreadable_of name number has_value provenance none = []
  unreadable_of name number has_value provenance (some json_other) = []
  unreadable_of name number has_value provenance (some (json_text printed)) =
      if not has_value
        && (non_empty printed
            && not (is_document_number table printed)
            && still_extracted provenance name)
      then (name, (number, printed)) ∷ []
      else []

  abbrev pub unreadable_of_line : RawDocument → JoinedLine → List (Text × (Option ℕ × Text))
  unreadable_of_line raw l =
      let item = printed_or_empty (printed_line raw.line_items l.line.line_number) in
      let number = some l.line.line_number in
      let quantity = codes "quantity" in
      let unit_price = codes "unit_price" in
      let line_total = codes "line_total" in
      unreadable_of quantity number (is_some l.line.quantity) l.field_provenance (item quantity)
      ++ unreadable_of unit_price number (is_some l.line.unit_price) l.field_provenance
          (item unit_price)
      ++ unreadable_of line_total number (is_some l.line.line_total) l.field_provenance
          (item line_total)

  unfoldable pub unreadable_numbers :
      Option RawDocument → Option JoinedHeader → List JoinedLine → List (Text × (Option ℕ × Text))
  unreadable_numbers none h lines = []
  unreadable_numbers (some raw) h lines =
      let order_total = codes "order_total" in
      unreadable_of order_total none (is_some (amount_of (header_dict h order_total)))
        (provenance_of_header h) (raw.header order_total)
      ++ concat_map (unreadable_of_line raw) lines

  abbrev pub snapshot_from :
      List (ℕ × Option Text)
      → DocumentRow
      → Option JoinedHeader
      → List JoinedLine
      → DocumentSnapshot
  snapshot_from items d h lines = record {
    document_id = d.id;
    received_on = d.created_on;
    header = header_dict h;
    header_confidence = confidences h;
    lines = map (snapshot_of_line items) lines;
    injection_suspected = d.injection_suspected;
    currency_inferred = was_inferred h;
    is_possible_duplicate = d.is_possible_duplicate;
    duplicate_of_document_id = d.duplicate_of_document_id;
    is_possible_change_order = d.is_possible_change_order;
    change_order_of_document_id = d.change_order_of_document_id;
    unreadable_numbers = unreadable_numbers d.raw_json h lines;
    pipeline_issues = d.pipeline_issues;
  }

  abbrev pub joined_to : Rows → Option DocumentRow → Option DocumentSnapshot
  joined_to rows none = none
  joined_to rows (some d) = some (
      snapshot_from rows.item_units d
        (first_of (filter (λ h. h.document_id == d.id && not h.deleted) rows.headers))
        (sort (λ a b. leb a.line.line_number b.line.line_number)
          (filter (λ l. l.document_id == d.id && not l.deleted) rows.lines)))

  unfoldable pub load_snapshot : Rows → ℕ → Option DocumentSnapshot
  load_snapshot rows document_id =
      joined_to rows (first_of (filter (λ d. d.id == document_id && not d.deleted) rows.documents))
