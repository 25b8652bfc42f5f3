-- ===== src/Review/Reopened.antt =====
-- `_reopen` of packages/core/docflow_core/review.py as a save calls it: the row that moves, and what is
-- left of the snapshots.
use doc_flow.Prelude.{
  ℕ, true, false, not, ◌&&◌, Option, some, List, [], ◌∷◌, ◌≡◌, refl, inl, inr, arith, filter, any,
  Bool-cases, if◌then◌else◌,
}
use doc_flow.Status.Table.{Status, needs_review, approved, exported, member}
use doc_flow.Status.Row.{Document, column, Value, update_where}
use doc_flow.Status.Ops.{ok, check_each, check, assignments, move_row, is_source, transition}
use doc_flow.Review.{done}
use doc_flow.Review.Tables.{load_document, is_live_snapshot, supersede}
use doc_flow.Review.Rows.{SnapshotRow, Server, Tables}
use doc_flow.Review.Decide.{reopening_move, reopened_tables, reopen}
use doc_flow.Review.Notes.{reviewable_statuses, reopenable_statuses}
use doc_flow.Review.Edit.{was_approved}
use doc_flow.Review.Moved.{moved_and_written}
use doc_flow.Review.Approval.{InReview}
use doc_flow.Review.Approving.{load_document-update, load_document-source}

-- superseding leaves no live snapshot of the document
none_live :
    (now i : ℕ) (rows : List SnapshotRow) → filter (is_live_snapshot i) (supersede now i rows) ≡ []
unfolding supersede
none_live now i [] = refl
none_live now i (r ∷ rows) = elim (Bool-cases (is_live_snapshot i r)) [
  | inl e ↦
      let gone : is_live_snapshot i (record r { superseded_at = some now }) ≡ false =
        ground arith in
      rw e (rw gone (none_live now i rows))
  | inr e ↦ rw (e, e) (none_live now i rows)
]

abbrev reopen_row : ℕ → Document → Document
reopen_row now d =
    move_row now needs_review
      (column "approved_at" Value.null
        ∷ column "approved_by" Value.null
        ∷ column "approved_json" Value.null
        ∷ column "approved_snapshot_hash" Value.null
        ∷ [])
      d

reopenable :
    (s : Status) → member s (approved ∷ exported ∷ []) ≡ true → member s reopenable_statuses ≡ true
reopenable s h = ground arith

pub in_review :
    (s : Status)
    → member s (approved ∷ exported ∷ []) ≡ false
    → (not (member s (approved ∷ exported ∷ [])) && not (member s reviewable_statuses)) ≡ false
    → s ≡ needs_review
in_review needs_review h k = refl
in_review _ h k = cc

module _ (server : Server) (tenant_id document_id user_id : ℕ) (acting_as : Option ℕ) where
  reopening_move-row :
      (t : Tables)
      → reopening_move server tenant_id document_id user_id acting_as t
        ≡ ok (
          update_where
              (is_source document_id reopenable_statuses)
              (reopen_row server.now)
              t.documents,
          any (is_source document_id reopenable_statuses) t.documents,
        )
  unfolding transition check check_each assignments
  reopening_move-row t = refl

  -- A save's document: in review afterwards. Of the live snapshots there were, none is left if it had
  -- been approved, and all are otherwise.
  abbrev pub Reviewed : Document → List SnapshotRow → Tables → Type 0
  Reviewed d rows after =
      InReview server tenant_id document_id user_id acting_as after
      × (filter (is_live_snapshot document_id) after.snapshots
          ≡ (if was_approved d then [] else filter (is_live_snapshot document_id) rows))

  pub reopen-Reviewed :
      (t : Tables) (d : Document) {after : Tables} {action : ℕ}
      → load_document document_id t.documents ≡ some d
      → was_approved d ≡ true
      → reopen server tenant_id document_id user_id acting_as t ≡ done (after, action)
      → Reviewed d t.snapshots after × (after.headers ≡ t.headers)
  unfolding reopen
  reopen-Reviewed t d {after} found was h =
      let (docs, moved, e, _) =
        moved_and_written _ (reopening_move server tenant_id document_id user_id acting_as t)
          (reopened_tables server tenant_id document_id user_id acting_as t) _ h in
      let table : docs
          ≡ update_where (is_source document_id reopenable_statuses) (reopen_row server.now)
              t.documents =
        cc (reopening_move-row t) in
      let chosen =
        load_document-source document_id reopenable_statuses t.documents d found
          (reopenable d.status was) in
      rw e (
        (
          (
            reopen_row server.now d,
            (rw table (
                load_document-update document_id (is_source document_id reopenable_statuses)
                  (reopen_row server.now) (λ x. (refl, refl)) t.documents d found chosen)),
            refl,
          ),
          (rw was (none_live server.now document_id t.snapshots)),
        ),
        refl,
      )
