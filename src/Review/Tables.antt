-- ===== src/Review/Tables.antt =====
-- The rows that packages/core/docflow_core/review.py reads and writes: headers, lines, snapshots and
-- review actions, beside the documents and the warnings; how they are loaded, the snapshot that an
-- approval freezes, and the text of an acknowledged warning. The tables are what the tenant's
-- session sees. Postgres, the digests, the random ids and the checks of a document are a `Server`.
use doc_flow.Prelude.{
  ℕ, String, Bool, true, false, not, ◌&&◌, Option, none, some, List, [], ◌∷◌, ◌++◌, map, filter,
  length, leb, ◌==◌, if◌then◌else◌,
}
use doc_flow.Prelude.Sort.{Text, text_leb, sort}
use doc_flow.Status.Row.{Document}
use doc_flow.Validation.Sync.{
  Severity, critical, high, info, warning, DocumentWarning, WarningRow, is_open, sync_warnings,
  by_key,
}
use doc_flow.Export.View.{
  HeaderColumn, LineColumn, po_number, order_date, requested_delivery_date, buyer_name,
  buyer_contact_email, ship_to_address, payment_terms, currency, order_total, notes, catalog_sku,
  sku, description, quantity, unit, unit_price, line_total,
}
use doc_flow.Export.Csv.{codes}
use doc_flow.Review.{Stored, as_text, editable_header_fields, editable_line_fields}
use doc_flow.Review.Rows.{
  HeaderRow, LineRow, SnapshotLine, ApprovedSnapshot, SnapshotRow, ActionKind, ActionRow, Tables,
  Server,
}

abbrev pub first {ℓ} : {A : Type ℓ} → List A → Option A
first [] = none
first (x ∷ xs) = some x

unfoldable pub load_document : ℕ → List Document → Option Document
load_document document_id docs = first (filter (λ d. d.id == document_id && not d.deleted) docs)

abbrev pub header_or_empty : ℕ → Option HeaderRow → HeaderRow
header_or_empty document_id (some h) = h
header_or_empty document_id none = record {
  document_id = document_id;
  deleted = false;
  value = λ name. none;
  field_provenance = λ name. none;
}

unfoldable pub load_header : ℕ → List HeaderRow → HeaderRow
load_header document_id headers =
    header_or_empty document_id
      (first (filter (λ h. h.document_id == document_id && not h.deleted) headers))

unfoldable pub load_lines : ℕ → List LineRow → List LineRow
load_lines document_id lines =
    sort (λ a b. leb a.line_number b.line_number)
      (filter (λ l. l.document_id == document_id && not l.deleted) lines)

-- `sorted(...)` of the field names
abbrev pub pairs_of : List Text → (Text → Option Stored) → List (Text × Option Text)
pairs_of names value = map (λ name. (name, as_text (value name))) (sort text_leb names)

unfoldable pub document_version_of : Server → HeaderRow → List LineRow → String
document_version_of server header lines = server.payload_sha256 record {
  header = pairs_of editable_header_fields header.value;
  lines =
      map (λ l. (l.id, pairs_of editable_line_fields l.value))
        (sort (λ a b. leb a.line_number b.line_number) lines);
}

unfoldable pub document_version : Server → Tables → ℕ → String
document_version server t document_id =
    document_version_of server (load_header document_id t.headers) (load_lines document_id t.lines)

abbrev pub header_name : HeaderColumn → Text
header_name po_number = codes "po_number"
header_name order_date = codes "order_date"
header_name requested_delivery_date = codes "requested_delivery_date"
header_name buyer_name = codes "buyer_name"
header_name buyer_contact_email = codes "buyer_contact_email"
header_name ship_to_address = codes "ship_to_address"
header_name payment_terms = codes "payment_terms"
header_name currency = codes "currency"
header_name order_total = codes "order_total"
header_name notes = codes "notes"

-- the LEFT JOIN of `items`
abbrev pub sku_of_item : (ℕ → Option Text) → Option ℕ → Option Text
sku_of_item item_sku none = none
sku_of_item item_sku (some i) = item_sku i

abbrev pub line_value : (ℕ → Option Text) → LineRow → LineColumn → Option Text
line_value item_sku l catalog_sku = sku_of_item item_sku l.matched_item_id
line_value item_sku l sku = as_text (l.value (codes "sku"))
line_value item_sku l description = as_text (l.value (codes "description"))
line_value item_sku l quantity = as_text (l.value (codes "quantity"))
line_value item_sku l unit = as_text (l.value (codes "unit"))
line_value item_sku l unit_price = as_text (l.value (codes "unit_price"))
line_value item_sku l line_total = as_text (l.value (codes "line_total"))

abbrev pub snapshot_line : (ℕ → Option Text) → LineRow → SnapshotLine
snapshot_line item_sku l = record {
  line_number = l.line_number;
  value = line_value item_sku l;
  matched_item_id = l.matched_item_id;
  matched_uom = l.matched_uom;
}

unfoldable pub build_snapshot : Tables → ℕ → ApprovedSnapshot
build_snapshot t document_id =
    let header = load_header document_id t.headers in
    record {
      document_id = document_id;
      header = λ column. as_text (header.value (header_name column));
      lines = map (snapshot_line t.item_sku) (load_lines document_id t.lines);
    }

-- `severity` is text
abbrev pub severity_place : Severity → ℕ
severity_place critical = 0
severity_place high = 1
severity_place info = 2
severity_place warning = 3

abbrev pub is_unacknowledged : ℕ → WarningRow → Bool
is_unacknowledged document_id w =
    w.document_id == document_id && (is_open w.status && not w.deleted)

unfoldable pub unacknowledged_warnings : ℕ → List WarningRow → List WarningRow
unacknowledged_warnings document_id rows =
    sort
      (λ a b.
        by_key (severity_place a.content.severity) (severity_place b.content.severity)
          (leb a.content.code b.content.code))
      (filter (is_unacknowledged document_id) rows)

abbrev pub synced : Server → ℕ → Option (List DocumentWarning) → Tables → Tables
synced server document_id none t = t
synced server document_id (some found) t = record t {
  warnings =
      (sync_warnings server.fingerprint_of server.new_id document_id server.now found t.warnings).0;
}

unfoldable pub validate_document : Server → ℕ → ℕ → Tables → Tables
validate_document server tenant_id document_id t =
    synced server document_id (server.evaluate t tenant_id document_id) t

-- a row that says nothing but who did what to which document
abbrev pub plain_action : Server → ℕ → ℕ → ℕ → Option ℕ → ActionKind → Tables → ActionRow
plain_action server tenant_id document_id user_id acting_as action t = record {
  id = server.new_id (length t.actions);
  tenant_id = tenant_id;
  document_id = document_id;
  user_id = user_id;
  acting_as_tenant_id = acting_as;
  action = action;
  changes = [];
  warning_acknowledgements = [];
  note_text = none;
  created_at = server.now;
}

abbrev pub record_action : ActionRow → Tables → Tables
record_action row t = record t { actions = t.actions ++ row ∷ [] }

-- superseded_at IS NULL AND deleted_at IS NULL, of one document
abbrev pub is_unset : Option ℕ → Bool
is_unset none = true
is_unset (some _) = false

abbrev pub is_live_snapshot : ℕ → SnapshotRow → Bool
is_live_snapshot document_id s =
    s.document_id == document_id && (is_unset s.superseded_at && not s.deleted)

unfoldable pub supersede : ℕ → ℕ → List SnapshotRow → List SnapshotRow
supersede now document_id [] = []
supersede now document_id (s ∷ rows) =
    (if is_live_snapshot document_id s then record s { superseded_at = some now } else s)
    ∷ supersede now document_id rows

unfoldable pub current_snapshot : ℕ → List SnapshotRow → Option SnapshotRow
current_snapshot document_id rows = first (filter (is_live_snapshot document_id) rows)

unfoldable pub review_trail : ℕ → List ActionRow → List ActionRow
review_trail document_id rows = filter (λ a. a.document_id == document_id) rows
