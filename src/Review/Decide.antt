-- ===== src/Review/Decide.antt =====
-- `acknowledgement_text`, `recheck_before_approval`, `approve_document`, `reject_document`,
-- `reopen_document` and `_reopen` of packages/core/docflow_core/review.py. An error rolls the caller's
-- transaction back, so it carries no tables; what an error's detail lists is left out.
use text.Mathlib.Text.{◌==◌ as str_eq}
use doc_flow.Prelude.{
  ℕ, String, Bool, true, false, not, Option, none, some, List, [], ◌∷◌, ◌++◌, map, length,
  if◌then◌else◌,
}
use doc_flow.Prelude.Sort.{Text}
use doc_flow.Status.Table.{needs_review, approved, exported, rejected, member}
use doc_flow.Status.Row.{Document, Cell, Assign, column, column_now, Value, bound, label}
use doc_flow.Status.Ops.{Result, illegal, ok, transition}
use doc_flow.Review.{
  Failure, Outcome, done, raised, review_error, illegal_transition, ◌>>=◌, ◌>>◌, refuse_if,
  code_unacknowledged_warnings, code_already_approved, code_not_reviewable, code_stale_edit,
}
use doc_flow.Review.Tables.{
  load_document, document_version, build_snapshot, unacknowledged_warnings, validate_document,
  plain_action, record_action, supersede,
}
use doc_flow.Review.Rows.{
  ApprovedSnapshot, SnapshotRow, WarningAcknowledgement, ActionRow, Tables, Server, action_approved,
  action_rejected, action_reopened,
}
use doc_flow.Review.Notes.{
  reviewable_statuses, reopenable_statuses, Acknowledgement, Notes, collect_notes, recorded_of,
  all_known, all_noted, acknowledge_each, acknowledged_row,
}

-- `expected_version is not None and current != expected_version`
abbrev pub is_outdated : Option String → String → Bool
is_outdated none current = false
is_outdated (some expected) current = not (str_eq current expected)

-- the outcome of a transition: `not moved` is the error given
abbrev pub moved_or : Failure → Result (List Document × Bool) → Outcome (List Document)
moved_or failure illegal = raised illegal_transition
moved_or failure (ok (docs, true)) = done docs
moved_or failure (ok (docs, false)) = raised failure

abbrev pub loaded : Option Document → Outcome Document
loaded none = raised (review_error code_not_reviewable)
loaded (some d) = done d

-- `if document is not None and document["status"] in REVIEWABLE_STATUSES:`
abbrev pub rechecked : Server → ℕ → ℕ → Tables → Option Document → Tables
rechecked server tenant_id document_id t none = t
rechecked server tenant_id document_id t (some d) =
    if member d.status reviewable_statuses
    then validate_document server tenant_id document_id t
    else t

unfoldable pub recheck_before_approval : Server → ℕ → ℕ → Tables → Tables
recheck_before_approval server tenant_id document_id t =
    rechecked server tenant_id document_id t (load_document document_id t.documents)

-- the values that the approval sets beside the status
abbrev pub approval_values : Server → ℕ → ApprovedSnapshot → List Assign
approval_values server user_id snapshot =
    column_now "approved_at"
    ∷ column "approved_by" (bound (Cell.number user_id))
    ∷ column "approved_json" (bound (label (server.json_of snapshot)))
    ∷ column "approved_snapshot_hash" (bound (label (server.snapshot_sha256 snapshot)))
    ∷ []

abbrev pub snapshot_row : Server → ℕ → ℕ → ℕ → ApprovedSnapshot → List SnapshotRow → SnapshotRow
snapshot_row server tenant_id document_id action_id snapshot rows = record {
  id = server.new_id (length rows);
  tenant_id = tenant_id;
  document_id = document_id;
  review_action_id = action_id;
  snapshot = snapshot;
  snapshot_sha256 = server.snapshot_sha256 snapshot;
  created_at = server.now;
  superseded_at = none;
  deleted = false;
}

module _ (server : Server) (tenant_id document_id user_id : ℕ) (acting_as : Option ℕ) where
  -- the row of the approval, and the tables with it
  abbrev pub approval_action : List WarningAcknowledgement → Tables → ActionRow
  approval_action recorded t =
      record (plain_action server tenant_id document_id user_id acting_as action_approved t) {
        warning_acknowledgements = recorded;
      }

  -- the compare-and-set of an approval, the last statement of it
  abbrev pub approval_move : Tables → Result (List Document × Bool)
  approval_move t =
      transition server.now t.documents document_id reviewable_statuses approved
        (approval_values server user_id (build_snapshot t document_id))

  -- what the statements have written by then
  abbrev pub approved_tables : List WarningAcknowledgement → Tables → List Document → Tables
  approved_tables recorded t docs =
      let row = approval_action recorded t in
      let snapshot = build_snapshot t document_id in
      record (record_action row t) {
        documents = docs;
        warnings = acknowledge_each document_id recorded t.warnings;
        acknowledged = t.acknowledged ++ map (acknowledged_row server.now user_id row.id) recorded;
        snapshots =
            supersede server.now document_id t.snapshots
            ++ snapshot_row server tenant_id document_id row.id snapshot t.snapshots ∷ [];
      }

  unfoldable pub approve_rows : List WarningAcknowledgement → Tables → Outcome (Tables × ℕ)
  approve_rows recorded t = do
    docs ← moved_or (review_error code_already_approved) (approval_move t)
    done (approved_tables recorded t docs, (approval_action recorded t).id)

  -- the notes against the open warnings
  unfoldable pub approve_noted : Notes → Tables → Outcome (Tables × ℕ)
  approve_noted notes t = do
    let opens = unacknowledged_warnings document_id t.warnings
    refuse_if (not (all_known opens notes)) code_stale_edit
    refuse_if (not (all_noted opens notes)) code_unacknowledged_warnings
    approve_rows (recorded_of server opens notes) t

  unfoldable pub approve_document :
      List Acknowledgement → Option String → Tables → Outcome (Tables × ℕ)
  approve_document acknowledgements expected_version t = do
    d ← loaded (load_document document_id t.documents)
    refuse_if (member d.status (approved ∷ exported ∷ [])) code_already_approved
    refuse_if (not (member d.status reviewable_statuses)) code_not_reviewable
    refuse_if (is_outdated expected_version (document_version server t document_id)) code_stale_edit
    approve_noted (collect_notes acknowledgements [])
        (validate_document server tenant_id document_id t)

  abbrev pub rejection_action : Text → Tables → ActionRow
  rejection_action reason t =
      record (plain_action server tenant_id document_id user_id acting_as action_rejected t) {
        note_text = some reason;
      }

  abbrev pub rejected_tables : Text → Tables → List Document → Tables
  rejected_tables reason t docs = record (record_action (rejection_action reason t) t) {
    documents = docs;
  }

  abbrev pub rejection_move : Tables → Result (List Document × Bool)
  rejection_move t = transition server.now t.documents document_id reviewable_statuses rejected []

  unfoldable pub reject_document : Text → Tables → Outcome (Tables × ℕ)
  reject_document reason t = do
    d ← loaded (load_document document_id t.documents)
    refuse_if (not (member d.status reviewable_statuses)) code_not_reviewable
    docs ← moved_or (review_error code_not_reviewable) (rejection_move t)
    done (rejected_tables reason t docs, (rejection_action reason t).id)

  abbrev pub reopening_action : Tables → ActionRow
  reopening_action t = plain_action server tenant_id document_id user_id acting_as action_reopened t

  abbrev pub reopening_move : Tables → Result (List Document × Bool)
  reopening_move t =
      transition server.now t.documents document_id reopenable_statuses needs_review (
        column "approved_at" Value.null
        ∷ column "approved_by" Value.null
        ∷ column "approved_json" Value.null
        ∷ column "approved_snapshot_hash" Value.null
        ∷ [])

  abbrev pub reopened_tables : Tables → List Document → Tables
  reopened_tables t docs = record (record_action (reopening_action t) t) {
    documents = docs;
    snapshots = supersede server.now document_id t.snapshots;
  }

  -- `_reopen`
  unfoldable pub reopen : Tables → Outcome (Tables × ℕ)
  reopen t = do
    docs ← moved_or (review_error code_not_reviewable) (reopening_move t)
    done (reopened_tables t docs, (reopening_action t).id)

  unfoldable pub reopen_document : Tables → Outcome (Tables × ℕ)
  reopen_document t = do
    d ← loaded (load_document document_id t.documents)
    refuse_if (not (member d.status reopenable_statuses)) code_not_reviewable
    reopen t
