-- ===== src/Review/Approval.antt =====
-- What an approval, `approve_document` of packages/core/docflow_core/review.py, needs and leaves.
use doc_flow.Prelude.{
  ℕ, String, true, false, not, Option, some, List, [], ◌∷◌, ◌++◌, ◌≡◌, refl, ap, ◌∙◌, arith, filter,
  all, any, contains, ◌==◌,
}
use doc_flow.Status.Table.{needs_review, approved, exported, member}
use doc_flow.Status.Row.{Document, update_where}
use doc_flow.Status.Ops.{move_row, is_source}
use doc_flow.Validation.Sync.{WarningRow}
use doc_flow.Review.{
  done, bind_done, code_already_approved, code_not_reviewable, code_stale_edit,
  code_unacknowledged_warnings,
}
use doc_flow.Review.Tables.{
  load_document, document_version, build_snapshot, unacknowledged_warnings, validate_document,
  is_live_snapshot,
}
use doc_flow.Review.Rows.{Server, Tables, SnapshotRow, ActionRow, WarningAcknowledgement}
use doc_flow.Review.Decide.{
  is_outdated, loaded, approval_values, approval_move, approval_action, approved_tables,
  approve_rows, approve_noted, approve_document,
}
use doc_flow.Review.Notes.{
  Acknowledgement, Notes, collect_notes, recorded_of, all_known, all_noted, reviewable_statuses,
}
use doc_flow.Review.Moved.{refuse_if_done, moved_and_written}
use doc_flow.Review.Noted.{
  acknowledged_ids, warning_ids, all_known-acknowledged, all_noted-acknowledged,
}
use doc_flow.Review.Acknowledged.{none_unacknowledged}
use doc_flow.Review.Approving.{
  validate_document-values, live_of-supersede, loaded_done, load_document-update, approval_move-row,
  accepted, reviewable-status, load_document-source, load_document-any,
}

module _ (server : Server) (tenant_id document_id user_id : ℕ) (acting_as : Option ℕ) where
  -- The document was loaded and in review.
  abbrev pub InReview : Tables → Type 0
  InReview t =
      (d : Document) × (load_document document_id t.documents ≡ some d) × (d.status ≡ needs_review)

  -- What an approval leaves: one live snapshot of the values that were checked, no open warning, the
  -- document approved, and an action of this user.
  abbrev pub IsApproved : Tables → Tables → ℕ → Type 0
  IsApproved t after action =
      ((s : SnapshotRow) × (filter (is_live_snapshot document_id) after.snapshots ≡ s ∷ [])
        × (s.snapshot ≡ build_snapshot t document_id)
        × (s.review_action_id ≡ action))
      × (unacknowledged_warnings document_id after.warnings ≡ [])
      × ((d : Document) × (load_document document_id after.documents ≡ some d)
          × (d.status ≡ approved))
      × ((row : ActionRow) × (after.actions ≡ t.actions ++ row ∷ [])
          × (row.id ≡ action)
          × (row.user_id ≡ user_id))

  approve_noted-result :
      (notes : Notes) (t : Tables) {after : Tables} {action : ℕ}
      → InReview t
      → approve_noted server tenant_id document_id user_id acting_as notes t ≡ done (after, action)
      → IsApproved t after action
  unfolding approve_noted approve_rows
  approve_noted-result notes t {after} {action} (d, found, status) h =
      let opens = unacknowledged_warnings document_id t.warnings in
      let (known, h') = refuse_if_done (not (all_known opens notes)) code_stale_edit _ h in
      let (noted, h'') =
        refuse_if_done (not (all_noted opens notes)) code_unacknowledged_warnings _ h' in
      let recorded = recorded_of server opens notes in
      let (docs, moved, e, same_action) =
        moved_and_written _ (approval_move server tenant_id document_id user_id acting_as t)
          (approved_tables server tenant_id document_id user_id acting_as recorded t)
          (approval_action server tenant_id document_id user_id acting_as recorded t).id h'' in
      let chosen =
        load_document-source document_id reviewable_statuses t.documents d found (rw status refl) in
      let own : (document_id == document_id) ≡ true = ground arith in
      let approve_row =
        move_row server.now approved
          (approval_values server user_id (build_snapshot t document_id)) in
      let table : docs
          ≡ update_where (is_source document_id reviewable_statuses) approve_row t.documents =
        cc (approval_move-row server tenant_id document_id user_id acting_as t) in
      rw e (
        (
          _,
          live_of-supersede server.now document_id t.snapshots _ (rw own refl),
          refl,
          same_action,
        ),
        none_unacknowledged server document_id notes t.warnings (accepted _ known)
            (accepted _ noted),
        (
          approve_row d,
          (rw table (
              load_document-update document_id (is_source document_id reviewable_statuses)
                approve_row (λ x. (refl, refl)) t.documents d found chosen)),
          refl,
        ),
        (_, refl, same_action, refl),
      )

  -- An approval that returned started from a document in review, against the version that the reviewer
  -- saw if one was given. It leaves exactly one live snapshot of the document, which holds the
  -- header and lines as they are and names the approval's action; no open warning; the document
  -- approved; and one new review action at the end of the trail, by this user.
  pub approve_document-IsApproved :
      (acknowledgements : List Acknowledgement) (expected_version : Option String) (t : Tables)
      {after : Tables} {action : ℕ}
      → approve_document server tenant_id document_id user_id acting_as acknowledgements
          expected_version t
        ≡ done (after, action)
      → InReview t
        × (is_outdated expected_version (document_version server t document_id) ≡ false)
        × IsApproved t after action
  unfolding approve_document
  approve_document-IsApproved acknowledgements expected_version t {after} {action} h =
      let (d, loads, h₁) = bind_done (loaded (load_document document_id t.documents)) _ h in
      let (_, h₂) =
        refuse_if_done (member d.status (approved ∷ exported ∷ [])) code_already_approved _ h₁ in
      let (reviewable, h₃) =
        refuse_if_done (not (member d.status reviewable_statuses)) code_not_reviewable _ h₂ in
      let (fresh, h₄) =
        refuse_if_done (is_outdated expected_version (document_version server t document_id))
          code_stale_edit _ h₃ in
      let found = loaded_done _ loads in
      let status = reviewable-status d.status reviewable in
      let checked = validate_document server tenant_id document_id t in
      let (same_docs, same_values, same_actions) =
        validate_document-values server tenant_id document_id t in
      let (kept, none_open, approval, trail) =
        approve_noted-result (collect_notes acknowledgements []) checked
          (d, ap (load_document document_id) same_docs ∙ found, status) h₄ in
      let (s, live, values, names) = kept in
      let (row, added, id, by) = trail in
      (
        (d, found, status),
        fresh,
        (
          (s, live, values ∙ same_values, names),
          none_open,
          approval,
          (row, added ∙ ap (λ l. l ++ row ∷ []) same_actions, id, by),
        ),
      )

  abbrev pub opens_of : Tables → List WarningRow
  opens_of t =
      unacknowledged_warnings document_id
        (validate_document server tenant_id document_id t).warnings

  approve_rows-returns :
      (recorded : List WarningAcknowledgement) (t : Tables)
      → any (is_source document_id reviewable_statuses) t.documents ≡ true
      → (after : Tables) × (action : ℕ) × (approve_rows server tenant_id document_id user_id
            acting_as recorded t
          ≡ done (after, action))
  unfolding approve_rows
  approve_rows-returns recorded t hit =
      let docs =
        update_where (is_source document_id reviewable_statuses)
          (move_row server.now approved
            (approval_values server user_id (build_snapshot t document_id)))
          t.documents in
      (
        approved_tables server tenant_id document_id user_id acting_as recorded t docs,
        (approval_action server tenant_id document_id user_id acting_as recorded t).id,
        (rw (approval_move-row server tenant_id document_id user_id acting_as t) (rw hit refl)),
      )

  -- A document in review, at the version that the reviewer saw if one is given, is approved: if every
  -- warning that is open once the document has been checked again is acknowledged, and every
  -- acknowledgement is of such a warning. The compare-and-set then never fails.
  pub approve_document-returns :
      (acknowledgements : List Acknowledgement) (expected_version : Option String) (t : Tables)
      → InReview t
      → is_outdated expected_version (document_version server t document_id) ≡ false
      → all (λ a. contains a.warning_id (warning_ids (opens_of t))) acknowledgements ≡ true
      → all (λ w. contains w.id (acknowledged_ids acknowledgements)) (opens_of t) ≡ true
      → (after : Tables) × (action : ℕ) × (approve_document server tenant_id document_id user_id
            acting_as acknowledgements expected_version t
          ≡ done (after, action))
  unfolding approve_document approve_noted
  approve_document-returns acks expected_version t (d, found, status) fresh known noted =
      let checked = validate_document server tenant_id document_id t in
      let (same_docs, _, _) = validate_document-values server tenant_id document_id t in
      let again = ap (load_document document_id) same_docs ∙ found in
      let chosen =
        load_document-source document_id reviewable_statuses checked.documents d again
          (rw status refl) in
      let hit =
        load_document-any document_id reviewable_statuses checked.documents d again chosen in
      let all_k = all_known-acknowledged (opens_of t) acks ∙ known in
      let all_n = all_noted-acknowledged (opens_of t) acks ∙ noted in
      let recorded = recorded_of server (opens_of t) (collect_notes acks []) in
      let (after, action, e) = approve_rows-returns recorded checked hit in
      (after, action, (rw found (rw status (rw fresh (rw all_k (rw all_n e))))))
