-- ===== src/Review/Calls.antt =====
-- Each decision of packages/core/docflow_core/review.py that returned, taken apart: what it does to the
-- documents, the snapshots and the review actions.
use doc_flow.Prelude.{
  ℕ, String, Bool, true, false, not, Option, none, some, List, [], ◌∷◌, ◌≡◌, refl, inl, inr, arith,
  ◌==◌, Bool-cases,
}
use doc_flow.Prelude.Sort.{Text}
use doc_flow.Status.Table.{needs_review, approved, exported, rejected, member}
use doc_flow.Status.Row.{Document}
use doc_flow.Review.{
  Outcome, done, raised, code_not_reviewable, code_already_approved, code_stale_edit,
  code_unacknowledged_warnings, ◌>>=◌, bind_done,
}
use doc_flow.Review.Tables.{
  load_document, document_version, unacknowledged_warnings, validate_document,
}
use doc_flow.Review.Rows.{Server, Tables, WarningAcknowledgement}
use doc_flow.Review.Decide.{
  is_outdated, loaded, rechecked, recheck_before_approval, approve_rows, approve_noted,
  approve_document, reject_document, reopen, approval_move, approved_tables, rejection_move,
  rejected_tables, rejection_action, reopening_action, reopening_move, reopened_tables,
  reopen_document,
}
use doc_flow.Review.Notes.{
  Acknowledgement, Notes, collect_notes, recorded_of, all_known, all_noted, reviewable_statuses,
  reopenable_statuses,
}
use doc_flow.Review.Edit.{reopen_if}
use doc_flow.Review.Retained.{
  Retained, Retained-trans, Retained-keeps, Retained-grown, Retained-superseded, Retained-action,
}
use doc_flow.Review.Snapshots.{
  live_count-supersede_same, live_count-supersede_other, live_count-replaced_same,
  live_count-replaced_other,
}
use doc_flow.Review.Moved.{
  IsBacked, refuse_if_done, transition-IsBacked, equal-IsBacked, moved_and_written,
  validate_document-keeps,
}

-- What every call does: it keeps the tables sound, and what was recorded.
abbrev pub Carries : Tables → Tables → Type 0
Carries t after = (IsBacked t → IsBacked after) × Retained t after

pub Carries-trans : (t u v : Tables) → Carries t u → Carries u v → Carries t v
Carries-trans t u v (s, r) (s', r') = (λ h. s' (s h), Retained-trans t u v r r')

-- Where the documents and the snapshots are as before.
IsBacked-keeps :
    (t u : Tables) → u.documents ≡ t.documents → u.snapshots ≡ t.snapshots → IsBacked t → IsBacked u
IsBacked-keeps t u d s h = rw (d, s) h

pub validate_document-Carries :
    (server : Server) (tenant_id document_id : ℕ) (t : Tables)
    → Carries t (validate_document server tenant_id document_id t)
validate_document-Carries server tenant_id document_id t =
    let (d, s, a) = validate_document-keeps server tenant_id document_id t in
    let after = validate_document server tenant_id document_id t in
    (IsBacked-keeps t after d s, Retained-keeps t after s a)

module _ (server : Server) (tenant_id document_id user_id : ℕ) (acting_as : Option ℕ) where
  approve_rows-Carries :
      (recorded : List WarningAcknowledgement) (t : Tables) {after : Tables} {action : ℕ}
      → approve_rows server tenant_id document_id user_id acting_as recorded t
        ≡ done (after, action)
      → Carries t after
  unfolding approve_rows
  approve_rows-Carries recorded t {after} h =
      let (docs, moved, e, _) =
        moved_and_written _ (approval_move server tenant_id document_id user_id acting_as t)
          (approved_tables server tenant_id document_id user_id acting_as recorded t) _ h in
      let own : (document_id == document_id) ≡ true = ground arith in
      rw e (
        transition-IsBacked server.now document_id reviewable_statuses approved _ t.documents docs
            t.snapshots _ moved
            (live_count-replaced_same server.now document_id t.snapshots _ (rw own refl))
            (λ j apart.
              live_count-replaced_other server.now document_id j t.snapshots _ apart refl),
        Retained-grown server.now document_id t
            (approved_tables server tenant_id document_id user_id acting_as recorded t docs) _ _
            refl refl,
      )

  approve_noted-Carries :
      (notes : Notes) (t : Tables) {after : Tables} {action : ℕ}
      → approve_noted server tenant_id document_id user_id acting_as notes t ≡ done (after, action)
      → Carries t after
  unfolding approve_noted
  approve_noted-Carries notes t h =
      let opens = unacknowledged_warnings document_id t.warnings in
      let (_, h') = refuse_if_done (not (all_known opens notes)) code_stale_edit _ h in
      let (_, h'') =
        refuse_if_done (not (all_noted opens notes)) code_unacknowledged_warnings _ h' in
      approve_rows-Carries (recorded_of server opens notes) t h''

  pub approve_document-Carries :
      (acknowledgements : List Acknowledgement) (expected_version : Option String) (t : Tables)
      {after : Tables} {action : ℕ}
      → approve_document server tenant_id document_id user_id acting_as acknowledgements
          expected_version t
        ≡ done (after, action)
      → Carries t after
  unfolding approve_document
  approve_document-Carries acknowledgements expected_version t {after} h =
      let (d, _, h₁) = bind_done (loaded (load_document document_id t.documents)) _ h in
      let (_, h₂) =
        refuse_if_done (member d.status (approved ∷ exported ∷ [])) code_already_approved _ h₁ in
      let (_, h₃) =
        refuse_if_done (not (member d.status reviewable_statuses)) code_not_reviewable _ h₂ in
      let (_, h₄) =
        refuse_if_done (is_outdated expected_version (document_version server t document_id))
          code_stale_edit _ h₃ in
      let checked = validate_document server tenant_id document_id t in
      Carries-trans t checked after (validate_document-Carries server tenant_id document_id t)
        (approve_noted-Carries (collect_notes acknowledgements []) checked h₄)

  pub reject_document-Carries :
      (reason : Text) (t : Tables) {after : Tables} {action : ℕ}
      → reject_document server tenant_id document_id user_id acting_as reason t
        ≡ done (after, action)
      → Carries t after
  unfolding reject_document
  reject_document-Carries reason t {after} h =
      let (d, loads, h₁) = bind_done (loaded (load_document document_id t.documents)) _ h in
      let (reviewable, h₂) =
        refuse_if_done (not (member d.status reviewable_statuses)) code_not_reviewable _ h₁ in
      let (docs, moved, e, _) =
        moved_and_written _ (rejection_move server tenant_id document_id user_id acting_as t)
          (rejected_tables server tenant_id document_id user_id acting_as reason t) _ h₂ in
      let final = rejected_tables server tenant_id document_id user_id acting_as reason t docs in
      rw e (
        equal-IsBacked server.now document_id reviewable_statuses rejected [] t.documents docs true
            t.snapshots moved (refl, tt),
        Retained-action t final
            (rejection_action server tenant_id document_id user_id acting_as reason t) refl refl,
      )

  pub reopen-Carries :
      (t : Tables) {after : Tables} {action : ℕ}
      → reopen server tenant_id document_id user_id acting_as t ≡ done (after, action)
      → Carries t after
  unfolding reopen
  reopen-Carries t {after} h =
      let (docs, moved, e, _) =
        moved_and_written _ (reopening_move server tenant_id document_id user_id acting_as t)
          (reopened_tables server tenant_id document_id user_id acting_as t) _ h in
      let final = reopened_tables server tenant_id document_id user_id acting_as t docs in
      rw e (
        transition-IsBacked server.now document_id reopenable_statuses needs_review _ t.documents
            docs t.snapshots _ moved (live_count-supersede_same server.now document_id t.snapshots)
            (λ j apart. live_count-supersede_other server.now document_id j t.snapshots apart),
        Retained-superseded server.now document_id t final
            (reopening_action server tenant_id document_id user_id acting_as t) refl refl,
      )

  pub reopen_document-Carries :
      (t : Tables) {after : Tables} {action : ℕ}
      → reopen_document server tenant_id document_id user_id acting_as t ≡ done (after, action)
      → Carries t after
  unfolding reopen_document
  reopen_document-Carries t h =
      let (d, _, h₁) = bind_done (loaded (load_document document_id t.documents)) _ h in
      let (_, h₂) =
        refuse_if_done (not (member d.status reopenable_statuses)) code_not_reviewable _ h₁ in
      reopen-Carries t h₂

  pub reopen_if-Carries :
      (was_approved : Bool) (t : Tables) {after : Tables}
      → reopen_if server tenant_id document_id user_id acting_as was_approved t ≡ done after
      → Carries t after
  reopen_if-Carries false t {after} h =
      let e : after ≡ t = cc in rw e (λ sound. sound, Retained-keeps t t refl refl)
  reopen_if-Carries true t {after} h =
      go (reopen server tenant_id document_id user_id acting_as t) refl h
    where
      kept : Tables × ℕ → Outcome Tables
      kept (u, action) = done u

      go :
          (r : Outcome (Tables × ℕ))
          → reopen server tenant_id document_id user_id acting_as t ≡ r
          → (r >>= kept) ≡ done after
          → Carries t after
      go (done (u, action)) e k =
          let same_tables : after ≡ u = cc in rw same_tables (reopen-Carries t e)
      go (raised f) e k = cc

pub recheck-Carries :
    (server : Server) (tenant_id document_id : ℕ) (t : Tables)
    → Carries t (recheck_before_approval server tenant_id document_id t)
unfolding recheck_before_approval
recheck-Carries server tenant_id document_id t = by_document (load_document document_id t.documents)
  where
    by_document : (o : Option Document) → Carries t (rechecked server tenant_id document_id t o)
    by_document none = (λ sound. sound, Retained-keeps t t refl refl)
    by_document (some d) = elim (Bool-cases (member d.status reviewable_statuses)) [
      | inl e ↦ rw e (validate_document-Carries server tenant_id document_id t)
      | inr e ↦ rw e (λ sound. sound, Retained-keeps t t refl refl)
    ]
