-- ===== src/Review/Rows.antt =====
-- The rows that packages/core/docflow_core/review.py reads and writes: headers, lines, snapshots and
-- review actions, beside the documents and the warnings. The tables are what the session of the
-- tenant sees. Postgres, the digests, the random ids and the checks of a document are a `Server`.
use doc_flow.Prelude.{ℕ, String, Bool, Option, List}
use doc_flow.Prelude.Sort.{Text}
use doc_flow.Status.Row.{Document}
use doc_flow.Matching.Resolve.{Provenance}
use doc_flow.Validation.Numbers.{DigitTable}
use doc_flow.Validation.Sync.{DocumentWarning, WarningRow}
use doc_flow.Export.View.{HeaderColumn, LineColumn}
use doc_flow.Review.{Stored, FieldChange}

-- A row of `document_headers`; `field_provenance` of a field without an entry is `none`.
pub record HeaderRow : Type 0 where
  pub document_id : ℕ
  pub deleted : Bool
  pub value : Text → Option Stored
  pub field_provenance : Text → Option Provenance

-- A row of `document_lines`.
pub record LineRow : Type 0 where
  pub id : ℕ
  pub document_id : ℕ
  pub deleted : Bool
  pub line_number : ℕ
  pub value : Text → Option Stored
  pub field_provenance : Text → Option Provenance
  pub matched_item_id : Option ℕ
  pub matched_uom : Option Text

pub record SnapshotLine : Type 0 where
  pub line_number : ℕ
  pub value : LineColumn → Option Text
  pub matched_item_id : Option ℕ
  pub matched_uom : Option Text

-- The JSON document that an approval freezes.
pub record ApprovedSnapshot : Type 0 where
  pub document_id : ℕ
  pub header : HeaderColumn → Option Text
  pub lines : List SnapshotLine

-- A row of `document_snapshots`.
pub record SnapshotRow : Type 0 where
  pub id : ℕ
  pub tenant_id : ℕ
  pub document_id : ℕ
  pub review_action_id : ℕ
  pub snapshot : ApprovedSnapshot
  pub snapshot_sha256 : String
  pub created_at : ℕ
  pub superseded_at : Option ℕ
  pub deleted : Bool

pub data ActionKind : Type 0 where
  action_edited action_approved action_rejected action_reopened : ActionKind

pub record WarningAcknowledgement : Type 0 where
  pub warning_id : ℕ
  pub code : ℕ
  pub text : Text
  pub note_text : Option Text

-- A row of `review_actions`; its `sequence` is its place in the table.
pub record ActionRow : Type 0 where
  pub id : ℕ
  pub tenant_id : ℕ
  pub document_id : ℕ
  pub user_id : ℕ
  pub acting_as_tenant_id : Option ℕ
  pub action : ActionKind
  pub changes : List FieldChange
  pub warning_acknowledgements : List WarningAcknowledgement
  pub note_text : Option Text
  pub created_at : ℕ

-- The columns of a warning that only an approval sets.
pub record AcknowledgedRow : Type 0 where
  pub warning_id : ℕ
  pub acknowledged_by : ℕ
  pub acknowledged_at : ℕ
  pub acknowledgement_note : Option Text
  pub acknowledged_review_action_id : ℕ

pub record Tables : Type 0 where
  pub documents : List Document
  pub headers : List HeaderRow
  pub lines : List LineRow
  pub warnings : List WarningRow
  pub acknowledged : List AcknowledgedRow
  pub snapshots : List SnapshotRow
  pub actions : List ActionRow
  pub item_sku : ℕ → Option Text  -- `items.sku` by id, retired items too

-- The editable state that a version token is the digest of: names and values, sorted.
pub record VersionPayload : Type 0 where
  pub header : List (Text × Option Text)
  pub lines : List (ℕ × List (Text × Option Text))

pub record Server : Type 0 where
  pub now : ℕ
  pub new_id : ℕ → ℕ  -- `uuid4()`, the n-th of a table
  pub table : DigitTable
  pub stores : Text → Text → Option Stored  -- what a column holds of a bound text, if it takes it
  pub json_of : ApprovedSnapshot → String
  pub snapshot_sha256 : ApprovedSnapshot → String
  pub payload_sha256 : VersionPayload → String
  pub fingerprint_of : DocumentWarning → Text
  pub evaluate : Tables → ℕ → ℕ → Option (List DocumentWarning)
      -- `evaluate_document` of `load_snapshot`, where there is one
  pub warning_entry : ℕ → List (Text × Text) → Text × Text  -- the catalog's title and message
