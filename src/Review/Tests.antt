-- ===== src/Review/Tests.antt =====
-- Runs of a review, and the witnesses: an order with one open warning, approved and then edited.
use doc_flow.Prelude.{
  ℕ, ◌+◌, ◌-◌, ◌<◌, ◌&&◌, leb, if◌then◌else◌, arith, true, false, Option, none, some, List, [], ◌∷◌,
  ◌≡◌, refl, all, contains, filter,
}
use doc_flow.Prelude.Sort.{text_beq, sort}
use doc_flow.Status.Table.{needs_review}
use doc_flow.Status.Row.{Document}
use doc_flow.Status.Ops.{check, check_each, assignments, transition}
use doc_flow.Validation.Numbers.{DigitTable}
use doc_flow.Validation.Sync.{high, opened, WarningRow}
use doc_flow.Export.Csv.{codes}
use doc_flow.Review.{
  Outcome, done, raised, review_error, code_unacknowledged_warnings, text, EditRequest,
  validate_editable, diff_fields, cleared_numbers_as_null,
}
use doc_flow.Review.Rows.{HeaderRow, Tables, Server}
use doc_flow.Review.Noted.{acknowledged_ids, warning_ids}
use doc_flow.Review.Tables.{
  first, load_document, load_header, load_lines, build_snapshot, unacknowledged_warnings,
  validate_document, supersede, document_version, document_version_of,
}
use doc_flow.Review.Notes.{Acknowledgement, collect_notes, recorded_of, acknowledge_each}
use doc_flow.Review.Decide.{is_outdated, approve_rows, approve_noted, approve_document, reopen}
use doc_flow.Review.Edit.{
  write_changed, stamp, write_header_edits, write_lines, line_changes, save_changes, apply_edits,
}
use doc_flow.Review.Saves.{live_header}
use doc_flow.Review.Moved.{IsBacked}
use doc_flow.Review.Retained.{Retained}
use doc_flow.Review.Steps.{Steps, here, next, approves, saves, Steps-IsBacked, Steps-Retained}
use doc_flow.Review.Approval.{
  InReview, IsApproved, approve_document-IsApproved, approve_document-returns, opens_of,
}
use doc_flow.Review.Saved.{Saved, apply_edits-Saved}

abbrev digit_of : ℕ → Option ℕ
digit_of c = if leb 48 c && leb c 57 then some (c - 48) else none

digit_of-digit : (v : ℕ) → v < 10 → digit_of (v + 48) ≡ some v
digit_of-digit v h = ground arith

abbrev ascii_digits_only : DigitTable
ascii_digits_only = record {
  digit_value = digit_of;
  ascii_digits = digit_of-digit;
  no_point = refl;
  no_apostrophe = refl;
}

-- a server whose columns take any text, and whose checks find nothing new
abbrev server : Server
server = record {
  now = 50;
  new_id = λ n. 900 + n;
  table = ascii_digits_only;
  stores = λ name s. some (text s);
  json_of = λ s. "json";
  snapshot_sha256 = λ s. "digest";
  payload_sha256 = λ p. "version";
  fingerprint_of = λ w. [];
  evaluate = λ t tenant document. none;
  warning_entry = λ code detail. (codes "Total", codes "Check it.");
}

abbrev document : Document
document = record {
  id = 3;
  tenant = 1;
  created_at = 10;
  status = needs_review;
  deleted = false;
  processing_started_at = none;
  processing_attempts = 1;
  timeout_attempts = [];
  parse_lost_attempts = [];
  dispatched_at = none;
  retry_at = none;
  waiting_since = none;
  wait_cause = none;
  last_wait_error = none;
  failure_code = none;
  processed_at = some 20;
  cells = [];
}

abbrev header : HeaderRow
header = record {
  document_id = 3;
  deleted = false;
  value = λ name. if text_beq (codes "po_number") name then some (text (codes "PO-1")) else none;
  field_provenance = λ name. none;
}

abbrev unmet_total : WarningRow
unmet_total = record {
  id = 7;
  document_id = 3;
  content = record {
    code = 2;
    severity = high;
    field_name = some (codes "order_total");
    line_number = none;
    document_line_id = none;
    detail = (codes "expected", codes "9") ∷ [];
  };
  fingerprint = codes "f";
  status = opened;
  resolved_at = none;
  deleted = false;
  created_at = 20;
}

abbrev order : Tables
order = record {
  documents = document ∷ [];
  headers = header ∷ [];
  lines = [];
  warnings = unmet_total ∷ [];
  acknowledged = [];
  snapshots = [];
  actions = [];
  item_sku = λ i. none;
}

abbrev result_or {ℓ} : {A : Type ℓ} → Tables → Outcome (Tables × A) → Tables
result_or t (done (u, a)) = u
result_or t (raised f) = t

abbrev noted : List Acknowledgement
noted = record { warning_id = 7; note_text = none } ∷ []

abbrev approved_order : Tables
approved_order = result_or order (approve_document server 1 3 42 none noted (some "version") order)

approve_order :
    approve_document server 1 3 42 none noted (some "version") order ≡ done (approved_order, 900)
unfolding approve_document approve_noted approve_rows load_document document_version
    document_version_of load_header load_lines validate_document unacknowledged_warnings
    collect_notes recorded_of acknowledge_each transition check check_each assignments supersede
    build_snapshot sort
approve_order = refl

unnoted_order :
    approve_document server 1 3 42 none [] none order
    ≡ raised (review_error code_unacknowledged_warnings)
unfolding approve_document approve_noted load_document validate_document unacknowledged_warnings
    collect_notes sort
unnoted_order = refl

approve_document-IsApproved_example :
    InReview server 1 3 42 none order
    × (is_outdated (some "version") (document_version server order 3) ≡ false)
    × IsApproved server 1 3 42 none order approved_order 900
approve_document-IsApproved_example =
    approve_document-IsApproved server 1 3 42 none noted (some "version") order approve_order

one_open : opens_of server 1 3 42 none order ≡ unmet_total ∷ []
unfolding validate_document unacknowledged_warnings sort
one_open = refl

acknowledged_known :
    all (λ a. contains a.warning_id (warning_ids (opens_of server 1 3 42 none order))) noted ≡ true
acknowledged_known = rw one_open refl

open_acknowledged :
    all (λ w. contains w.id (acknowledged_ids noted)) (opens_of server 1 3 42 none order) ≡ true
open_acknowledged = rw one_open refl

in_review : InReview server 1 3 42 none order
unfolding load_document
in_review = (document, refl, refl)

approve_document-returns_example :
    (after : Tables) × (action : ℕ) × (approve_document server 1 3 42 none noted none order
      ≡ done (after, action))
approve_document-returns_example =
    approve_document-returns server 1 3 42 none noted none order in_review refl acknowledged_known
      open_acknowledged

-- the order number is corrected after the approval
abbrev correction : EditRequest
correction = record { header = (codes "po_number", some (codes "PO-2")) ∷ []; lines = [] }

abbrev corrected_order : Tables
corrected_order =
    result_or approved_order (apply_edits server 1 3 42 none correction none approved_order)

correct_order :
    apply_edits server 1 3 42 none correction none approved_order ≡ done (corrected_order, some 901)
unfolding apply_edits validate_editable load_document load_header load_lines document_version_of
    cleared_numbers_as_null diff_fields line_changes save_changes write_header_edits write_changed
    write_lines stamp reopen transition check check_each assignments supersede validate_document
    approve_document approve_noted approve_rows document_version unacknowledged_warnings
    collect_notes recorded_of acknowledge_each build_snapshot text_beq sort
correct_order = refl

header_found : first (filter (live_header 3) approved_order.headers) ≡ some header
unfolding approve_document approve_noted approve_rows load_document document_version
    document_version_of load_header load_lines validate_document unacknowledged_warnings
    collect_notes recorded_of acknowledge_each transition check check_each assignments supersede
    build_snapshot sort
header_found = refl

apply_edits-Saved_example :
    (d : Document) × (load_document 3 approved_order.documents ≡ some d)
    × Saved server 1 3 42 none d header correction approved_order corrected_order (some 901)
apply_edits-Saved_example =
    apply_edits-Saved server 1 3 42 none correction none approved_order header header_found
      correct_order

-- both calls, from the order as it came
two_calls : Steps order corrected_order
two_calls =
    next (next here (approves server 1 3 42 none noted (some "version") 900 approve_order))
      (saves server 1 3 42 none correction none (some 901) correct_order)

Steps-IsBacked_example : IsBacked corrected_order
Steps-IsBacked_example = Steps-IsBacked two_calls ((tt, tt), (refl, tt))

Steps-Retained_example : Retained order corrected_order
Steps-Retained_example = Steps-Retained two_calls
