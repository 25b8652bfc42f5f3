-- ===== src/Review/Steps.antt =====
-- The operations of packages/core/docflow_core/review.py over time: any sequence of approvals,
-- rejections, re-opens, saves and rechecks, with the other moves of documents in between.
use doc_flow.Prelude.{ℕ, String, Bool, not, ◌&&◌, Option, List, [], ◌∷◌, ◌++◌, ◌≡◌, refl, All}
use doc_flow.Prelude.Sort.{Text}
use doc_flow.Status.Table.{Status, member}
use doc_flow.Status.Row.{Document, Assign}
use doc_flow.Status.Ops.{ok, transition}
use doc_flow.Review.{
  done, bind_done, EditRequest, FieldChange, validate_editable, cleared_lines, code_not_reviewable,
  code_stale_edit,
}
use doc_flow.Review.Tables.{
  load_document, load_header, load_lines, document_version_of, validate_document,
}
use doc_flow.Review.Rows.{Server, Tables}
use doc_flow.Review.Decide.{
  loaded, is_outdated, recheck_before_approval, approve_document, reject_document, reopen_document,
}
use doc_flow.Review.Notes.{Acknowledgement, reviewable_statuses}
use doc_flow.Review.Edit.{
  LineEdit, line_changes, changes_of, write_header, write_lines, was_approved, header_changes_of,
  edit_action, edited_tables, reopen_if, save_changes, save_any, apply_edits,
}
use doc_flow.Review.Snapshots.{live_due}
use doc_flow.Review.Retained.{Retained, Retained-trans, Retained-keeps, Retained-action}
use doc_flow.Review.Calls.{
  Carries, Carries-trans, validate_document-Carries, recheck-Carries, approve_document-Carries,
  reject_document-Carries, reopen_if-Carries, reopen_document-Carries,
}
use doc_flow.Review.Moved.{IsBacked, unit_done, refuse_if_done, equal-IsBacked}

module _ (server : Server) (tenant_id document_id user_id : ℕ) (acting_as : Option ℕ) where
  save_changes-Carries :
      (approved_before : Bool) (header_changes : List FieldChange) (edits : List LineEdit)
      (t : Tables) {after : Tables} {action : Option ℕ}
      → save_changes server tenant_id document_id user_id acting_as approved_before header_changes
          edits t
        ≡ done (after, action)
      → Carries t after
  unfolding save_changes
  save_changes-Carries approved_before header_changes edits t {after} h =
      let row = edit_action server tenant_id document_id user_id acting_as header_changes edits t in
      let (headers, _, h₁) =
        bind_done
          (write_header server document_id row.id header_changes (load_header document_id t.headers)
            t.headers)
          _ h in
      let (lines, _, h₂) = bind_done (write_lines server row.id edits t.lines) _ h₁ in
      let mid =
        edited_tables server tenant_id document_id user_id acting_as header_changes edits t headers
          lines in
      let (saved, reopened, h₃) =
        bind_done (reopen_if server tenant_id document_id user_id acting_as approved_before mid) _
          h₂ in
      let checked = validate_document server tenant_id document_id saved in
      let e : after ≡ checked = cc in
      let first : Carries t mid = (λ sound. sound, Retained-action t mid row refl refl) in
      rw e (
        Carries-trans t mid checked first (
          Carries-trans mid saved checked
            (reopen_if-Carries server tenant_id document_id user_id acting_as approved_before mid
              reopened)
            (validate_document-Carries server tenant_id document_id saved)))

  save_any-Carries :
      (changes : List FieldChange) (approved_before : Bool) (header_changes : List FieldChange)
      (edits : List LineEdit) (t : Tables) {after : Tables} {action : Option ℕ}
      → save_any server tenant_id document_id user_id acting_as changes approved_before
          header_changes edits t
        ≡ done (after, action)
      → Carries t after
  save_any-Carries [] approved_before header_changes edits t {after} h =
      let e : after ≡ t = cc in rw e (λ sound. sound, Retained-keeps t t refl refl)
  save_any-Carries (c ∷ changes) approved_before header_changes edits t h =
      save_changes-Carries approved_before header_changes edits t h

  apply_edits-Carries :
      (request : EditRequest) (expected_version : Option String) (t : Tables) {after : Tables}
      {action : Option ℕ}
      → apply_edits server tenant_id document_id user_id acting_as request expected_version t
        ≡ done (after, action)
      → Carries t after
  unfolding apply_edits
  apply_edits-Carries request expected_version t {after} h =
      let h₁ = unit_done (validate_editable server.table request) _ h in
      let (d, _, h₂) = bind_done (loaded (load_document document_id t.documents)) _ h₁ in
      let (_, h₃) =
        refuse_if_done (not (was_approved d) && not (member d.status reviewable_statuses))
          code_not_reviewable _ h₂ in
      let header = load_header document_id t.headers in
      let lines = load_lines document_id t.lines in
      let (_, h₄) =
        refuse_if_done (is_outdated expected_version (document_version_of server header lines))
          code_stale_edit _ h₃ in
      let (edits, _, h₅) = bind_done (line_changes lines (cleared_lines request.lines)) _ h₄ in
      let header_changes = header_changes_of request header in
      save_any-Carries (header_changes ++ changes_of edits) (was_approved d) header_changes edits t
        h₅

-- One call that returned, or another part's move of a document between statuses that stand on
-- equally many live snapshots.
pub data Step (t after : Tables) : Type 0 where
  approves :
      (server : Server) (tenant_id document_id user_id : ℕ) (acting_as : Option ℕ)
      (acknowledgements : List Acknowledgement) (expected_version : Option String) (action : ℕ)
      → approve_document server tenant_id document_id user_id acting_as acknowledgements
          expected_version t
        ≡ done (after, action)
      → Step t after
  rejects :
      (server : Server) (tenant_id document_id user_id : ℕ) (acting_as : Option ℕ) (reason : Text)
      (action : ℕ)
      → reject_document server tenant_id document_id user_id acting_as reason t
        ≡ done (after, action)
      → Step t after
  reopens :
      (server : Server) (tenant_id document_id user_id : ℕ) (acting_as : Option ℕ) (action : ℕ)
      → reopen_document server tenant_id document_id user_id acting_as t ≡ done (after, action)
      → Step t after
  saves :
      (server : Server) (tenant_id document_id user_id : ℕ) (acting_as : Option ℕ)
      (request : EditRequest) (expected_version : Option String) (action : Option ℕ)
      → apply_edits server tenant_id document_id user_id acting_as request expected_version t
        ≡ done (after, action)
      → Step t after
  rechecks :
      (server : Server) (tenant_id document_id : ℕ)
      → after ≡ recheck_before_approval server tenant_id document_id t
      → Step t after
  moves :
      (clock document_id : ℕ) (from_statuses : List Status) (to : Status) (values : List Assign)
      (docs : List Document) (found : Bool)
      → All (λ s. live_due s ≡ live_due to) from_statuses
      → transition clock t.documents document_id from_statuses to values ≡ ok (docs, found)
      → after ≡ record t { documents = docs }
      → Step t after

-- Any number of calls, in any order.
pub data Steps (t : Tables) : Tables → Type 0 where
  here : Steps t t
  next : {mid after : Tables} → Steps t mid → Step mid after → Steps t after

Step-Carries : {t after : Tables} → Step t after → Carries t after
Step-Carries {t} (approves server tenant i user acting acks version action h) =
    approve_document-Carries server tenant i user acting acks version t h
Step-Carries {t} (rejects server tenant i user acting reason action h) =
    reject_document-Carries server tenant i user acting reason t h
Step-Carries {t} (reopens server tenant i user acting action h) =
    reopen_document-Carries server tenant i user acting t h
Step-Carries {t} (saves server tenant i user acting request version action h) =
    apply_edits-Carries server tenant i user acting request version t h
Step-Carries {t} (rechecks server tenant i e) = rw e (recheck-Carries server tenant i t)
Step-Carries {t} (moves clock i from_statuses to values docs found equal h e) = rw e (
  equal-IsBacked clock i from_statuses to values t.documents docs found t.snapshots h equal,
  Retained-keeps t (record t { documents = docs }) refl refl,
)

-- Where every document has as many live snapshots as its status stands on (one if it is approved or
-- exported, none otherwise), that holds after any sequence of approvals, rejections, re-opens, saves
-- and rechecks that returned, and of other moves between equal statuses.
pub Steps-IsBacked : {t after : Tables} → Steps t after → IsBacked t → IsBacked after
Steps-IsBacked here sound = sound
Steps-IsBacked (next before step) sound = (Step-Carries step).0 (Steps-IsBacked before sound)

-- Over any such sequence every snapshot that was there is kept with all its contents, but for the time
-- at which it is superseded, which is set once; and every review action is kept as it was, in its
-- place.
pub Steps-Retained : {t after : Tables} → Steps t after → Retained t after
Steps-Retained {t} here = Retained-keeps t t refl refl
Steps-Retained {t} {after} (next {mid} before step) =
    Retained-trans t mid after (Steps-Retained before) (Step-Carries step).1
