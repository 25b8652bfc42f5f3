-- ===== src/Validation/LoadTests.antt =====
-- Runs of `load_snapshot`, and the findings on what it loads.
use doc_flow.Prelude.{
  ℕ, Bool, true, false, Option, none, some, List, [], ◌∷◌, map, ◌≡◌, refl, ◌-◌, leb, ◌&&◌,
  if◌then◌else◌,
}
use doc_flow.Prelude.Sort.{Text, text_beq}
use doc_flow.Export.Csv.{codes}
use doc_flow.Validation.Numbers.{DigitTable}
use doc_flow.Validation.Tests.{ascii_digits}
use doc_flow.Validation.RuleTests.{checks, cents}
use doc_flow.Validation.Fields.{LineSnapshot, DocumentSnapshot}
use doc_flow.Validation.Evaluate.{number_warnings}
use doc_flow.Validation.Load.{
  Json, json_text, Printed, RawDocument, DocumentRow, JoinedHeader, JoinedLine, Rows, load_snapshot,
}

abbrev printed_at : Text → Text → Printed
printed_at key value name = if text_beq name key then some (json_text value) else none

abbrev document : DocumentRow
document = record {
  id = 1;
  created_on = 20000;
  injection_suspected = false;
  raw_json = some record {
    header = printed_at (codes "order_total") (codes "about 100");
    line_items = none ∷ some (some 1, printed_at (codes "quantity") (codes "two")) ∷ [];
  };
  pipeline_issues = [];
  is_possible_duplicate = false;
  duplicate_of_document_id = none;
  is_possible_change_order = false;
  change_order_of_document_id = none;
  deleted = false;
}

abbrev header_row : JoinedHeader
header_row = record {
  document_id = 1;
  values = λ _. none;
  header_confidence = [];
  currency_inferred = false;
  field_provenance = λ _. none;
  deleted = false;
}

abbrev line : LineSnapshot
line = record {
  line_id = 11;
  line_number = 1;
  sku = some (codes "A-1");
  description = none;
  quantity = none;
  unit = none;
  unit_price = none;
  line_total = some (cents 100);
  confidence = none;
  uom_mismatch = false;
  matched_uom = none;
  matched_item_uom = none;
}

abbrev joined_line : JoinedLine
joined_line = record {
  document_id = 1;
  line = line;
  matched_item_id = some 5;
  field_provenance = λ _. none;
  deleted = false;
}

-- the rows, with this provenance of the line's quantity
abbrev rows_with : Text → Rows
rows_with mark = record {
  documents = record document { deleted = true } ∷ document ∷ [];
  headers = header_row ∷ [];
  lines = record joined_line { field_provenance = printed_at (codes "quantity") mark } ∷ [];
  item_units = (5, some (codes "EA")) ∷ [];
}

abbrev places_of : Option DocumentSnapshot → List (Option ℕ)
places_of none = []
places_of (some s) = map (λ w. w.document_line_id) (number_warnings checks s)

both_unreadable :
    places_of (load_snapshot ascii_digits (rows_with (codes "ai_extraction")) 1)
    ≡ none ∷ some 11 ∷ []
unfolding load_snapshot number_warnings doc_flow.Validation.Load.unreadable_numbers text_beq
    doc_flow.Validation.Numbers.is_document_number doc_flow.Validation.Load.still_extracted
    doc_flow.Prelude.Sort.sort
both_unreadable = refl

line_was_edited :
    places_of (load_snapshot ascii_digits (rows_with (codes "human_edit:7")) 1) ≡ none ∷ []
unfolding load_snapshot number_warnings doc_flow.Validation.Load.unreadable_numbers text_beq
    doc_flow.Validation.Numbers.is_document_number doc_flow.Validation.Load.still_extracted
    doc_flow.Prelude.Sort.sort
line_was_edited = refl

abbrev units_of : Option DocumentSnapshot → List (Option Text)
units_of none = []
units_of (some s) = map (λ l. l.matched_item_uom) s.lines

unit_is_joined : units_of (load_snapshot ascii_digits (rows_with []) 1) ≡ some (codes "EA") ∷ []
unfolding load_snapshot doc_flow.Prelude.Sort.sort
unit_is_joined = refl

no_such_document : load_snapshot ascii_digits (rows_with []) 2 ≡ none
unfolding load_snapshot
no_such_document = refl
