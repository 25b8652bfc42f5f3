-- ===== src/Review/Saved.antt =====
-- What a save, `apply_edits` of packages/core/docflow_core/review.py, leaves: the header's fields, the
-- document's status and its snapshots.
use doc_flow.Prelude.{
  ℕ, String, Bool, true, false, not, ◌&&◌, Option, none, some, List, [], ◌∷◌, ◌++◌, ◌≡◌, refl, sym,
  subst, ap, ◌∙◌, filter,
}
use doc_flow.Prelude.Sort.{Text}
use doc_flow.Status.Table.{needs_review, member}
use doc_flow.Status.Row.{Document}
use doc_flow.Validation.Sync.{DocumentWarning}
use doc_flow.Review.{
  done, raised, Outcome, ◌>>=◌, bind_done, EditRequest, FieldChange, validate_editable,
  cleared_lines, code_not_reviewable, code_stale_edit,
}
use doc_flow.Review.Tables.{
  first, load_document, header_or_empty, load_header, load_lines, document_version_of, synced,
  validate_document,
}
use doc_flow.Review.Rows.{SnapshotRow, HeaderRow, Server, Tables}
use doc_flow.Review.Decide.{loaded, is_outdated, reopen}
use doc_flow.Review.Notes.{reviewable_statuses}
use doc_flow.Review.Edit.{
  LineEdit, line_changes, changes_of, write_header, write_lines, was_approved, header_changes_of,
  edit_action, edited_tables, reopen_if, save_changes, save_any, apply_edits,
}
use doc_flow.Review.Moved.{unit_done, refuse_if_done}
use doc_flow.Review.Approving.{loaded_done}
use doc_flow.Review.Saves.{FieldSaved, live_header, write_header_edits-found}
use doc_flow.Review.Reopened.{in_review, Reviewed, reopen-Reviewed}

module _ (server : Server) (tenant_id document_id user_id : ℕ) (acting_as : Option ℕ) where
  reopen_if-Reviewed :
      (t : Tables) (d : Document) (b : Bool) {after : Tables}
      → load_document document_id t.documents ≡ some d
      → was_approved d ≡ b
      → (b ≡ false → d.status ≡ needs_review)
      → reopen_if server tenant_id document_id user_id acting_as b t ≡ done after
      → Reviewed server tenant_id document_id user_id acting_as d t.snapshots after
        × (after.headers ≡ t.headers)
  reopen_if-Reviewed t d false {after} found was status h =
      let e : after ≡ t = cc in rw e (((d, found, status refl), (rw was refl)), refl)
  reopen_if-Reviewed t d true {after} found was status h =
      go (reopen server tenant_id document_id user_id acting_as t) refl h
    where
      kept : Tables × ℕ → Outcome Tables
      kept (u, action) = done u

      go :
          (r : Outcome (Tables × ℕ))
          → reopen server tenant_id document_id user_id acting_as t ≡ r
          → (r >>= kept) ≡ done after
          → Reviewed server tenant_id document_id user_id acting_as d t.snapshots after
            × (after.headers ≡ t.headers)
      go (done (u, action)) e k =
          let same_tables : after ≡ u = cc in
          rw same_tables
            (reopen-Reviewed server tenant_id document_id user_id acting_as t d found was e)
      go (raised f) e k = cc

  synced-Reviewed :
      (d : Document) (rows : List SnapshotRow) (o : Option (List DocumentWarning)) (t : Tables)
      → Reviewed server tenant_id document_id user_id acting_as d rows t
      → Reviewed server tenant_id document_id user_id acting_as d rows
          (synced server document_id o t)
        × ((synced server document_id o t).headers ≡ t.headers)
  synced-Reviewed d rows none t h = (h, refl)
  synced-Reviewed d rows (some found) t h = (h, refl)

  validate_document-Reviewed :
      (d : Document) (rows : List SnapshotRow) (t : Tables)
      → Reviewed server tenant_id document_id user_id acting_as d rows t
      → Reviewed server tenant_id document_id user_id acting_as d rows
          (validate_document server tenant_id document_id t)
        × ((validate_document server tenant_id document_id t).headers ≡ t.headers)
  unfolding validate_document
  validate_document-Reviewed d rows t h =
      synced-Reviewed d rows (server.evaluate t tenant_id document_id) t h

  -- the header that is loaded before and after, at one field
  write_header-FieldSaved :
      (action : ℕ) (changes : List FieldChange) (k : Text) (rows rows' : List HeaderRow)
      (before : HeaderRow)
      → first (filter (live_header document_id) rows) ≡ some before
      → write_header server document_id action changes before rows ≡ done rows'
      → FieldSaved server action changes k before (load_header document_id rows')
  unfolding load_header
  write_header-FieldSaved action [] k rows rows' before found h =
      let same_rows : rows' ≡ rows = cc in
      let same_header : header_or_empty document_id (first (filter (live_header document_id) rows'))
          ≡ before =
        rw (same_rows, found) refl in
      rw same_header (refl, refl)
  write_header-FieldSaved action (c ∷ changes) k rows rows' before found h =
      let (x, loads, saved) =
        write_header_edits-found server document_id action (c ∷ changes) k before rows rows' h
          found in
      let same_header : load_header document_id rows' ≡ x = rw loads refl in
      subst (FieldSaved server action (c ∷ changes) k before) (sym same_header) saved

  -- What a save answers: nothing was changed and nothing is written, or the action's id.
  abbrev pub Saved : Document → HeaderRow → EditRequest → Tables → Tables → Option ℕ → Type 0
  Saved d before request t after none = after ≡ t
  Saved d before request t after (some action) =
      Reviewed server tenant_id document_id user_id acting_as d t.snapshots after
      × ((k : Text)
          → FieldSaved server action (header_changes_of request before) k before
              (load_header document_id after.headers))

  save_changes-Saved :
      (d : Document) (before : HeaderRow) (request : EditRequest) (edits : List LineEdit)
      (t : Tables) {after : Tables} {answer : Option ℕ}
      → load_document document_id t.documents ≡ some d
      → (was_approved d ≡ false → d.status ≡ needs_review)
      → first (filter (live_header document_id) t.headers) ≡ some before
      → save_changes server tenant_id document_id user_id acting_as
          (was_approved d)
          (header_changes_of request before)
          edits
          t
        ≡ done (after, answer)
      → Saved d before request t after answer
  unfolding save_changes load_header
  save_changes-Saved d before request edits t {after} {answer} found status live h =
      let changes = header_changes_of request before in
      let row = edit_action server tenant_id document_id user_id acting_as changes edits t in
      let (headers, wrote, h₁) =
        bind_done
          (write_header server document_id row.id changes (load_header document_id t.headers)
            t.headers)
          _ h in
      let (lines, _, h₂) = bind_done (write_lines server row.id edits t.lines) _ h₁ in
      let mid =
        edited_tables server tenant_id document_id user_id acting_as changes edits t headers
          lines in
      let (saved, reopened, h₃) =
        bind_done (reopen_if server tenant_id document_id user_id acting_as (was_approved d) mid) _
          h₂ in
      let (reviewed, same_headers) =
        reopen_if-Reviewed mid d (was_approved d) found refl status reopened in
      let (checked, same_headers') = validate_document-Reviewed d t.snapshots saved reviewed in
      let e : after ≡ validate_document server tenant_id document_id saved = cc in
      let e' : answer ≡ some row.id = cc in
      let all_headers : after.headers ≡ headers =
        ap (λ x. x.headers) e ∙ same_headers' ∙ same_headers in
      let loads : load_header document_id t.headers ≡ before = rw live refl in
      let wrote' : write_header server document_id row.id changes before t.headers ≡ done headers =
        subst (λ x. write_header server document_id row.id changes x t.headers ≡ done headers) loads
          wrote in
      subst (Saved d before request t after) (sym e') (
        subst (Reviewed server tenant_id document_id user_id acting_as d t.snapshots) (sym e)
            checked,
        λ k.
            subst (λ hs. FieldSaved server row.id changes k before (load_header document_id hs))
              (sym all_headers)
              (write_header-FieldSaved row.id changes k t.headers headers before live wrote'),
      )

  save_any-Saved :
      (all : List FieldChange) (d : Document) (before : HeaderRow) (request : EditRequest)
      (edits : List LineEdit) (t : Tables) {after : Tables} {answer : Option ℕ}
      → load_document document_id t.documents ≡ some d
      → (was_approved d ≡ false → d.status ≡ needs_review)
      → first (filter (live_header document_id) t.headers) ≡ some before
      → save_any server tenant_id document_id user_id acting_as all
          (was_approved d)
          (header_changes_of request before)
          edits
          t
        ≡ done (after, answer)
      → Saved d before request t after answer
  save_any-Saved [] d before request edits t {after} {answer} found status live h =
      let e : answer ≡ none = cc in
      let same_tables : after ≡ t = cc in subst (Saved d before request t after) (sym e) same_tables
  save_any-Saved (c ∷ all) d before request edits t found status live h =
      save_changes-Saved d before request edits t found status live h

  -- A save that returned, of a document whose header is `before`. Where it answers None, nothing is
  -- written. Otherwise the document is in review afterwards; it has no live snapshot if it had been
  -- approved, and those it had if not; every header field that did not change keeps its value and its
  -- provenance, and every field that did holds what the column took of the reviewer's text, marked
  -- as a human edit of the action whose id is answered.
  pub apply_edits-Saved :
      (request : EditRequest) (expected_version : Option String) (t : Tables) (before : HeaderRow)
      {after : Tables} {answer : Option ℕ}
      → first (filter (live_header document_id) t.headers) ≡ some before
      → apply_edits server tenant_id document_id user_id acting_as request expected_version t
        ≡ done (after, answer)
      → (d : Document) × (load_document document_id t.documents ≡ some d)
        × Saved d before request t after answer
  unfolding apply_edits load_header
  apply_edits-Saved request expected_version t before {after} {answer} live h =
      let h₁ = unit_done (validate_editable server.table request) _ h in
      let (d, loads, h₂) = bind_done (loaded (load_document document_id t.documents)) _ h₁ in
      let (allowed, h₃) =
        refuse_if_done (not (was_approved d) && not (member d.status reviewable_statuses))
          code_not_reviewable _ h₂ in
      let header = load_header document_id t.headers in
      let lines = load_lines document_id t.lines in
      let (_, h₄) =
        refuse_if_done (is_outdated expected_version (document_version_of server header lines))
          code_stale_edit _ h₃ in
      let (edits, _, h₅) = bind_done (line_changes lines (cleared_lines request.lines)) _ h₄ in
      let found = loaded_done _ loads in
      let same_header : header ≡ before = rw live refl in
      let saved : save_any server tenant_id document_id user_id acting_as
            (header_changes_of request header ++ changes_of edits) (was_approved d)
            (header_changes_of request before) edits t
          ≡ done (after, answer) =
        subst
          (λ x.
            save_any server tenant_id document_id user_id acting_as
              (header_changes_of request header ++ changes_of edits) (was_approved d)
              (header_changes_of request x) edits t
            ≡ done (after, answer))
          same_header h₅ in
      (
        d,
        found,
        save_any-Saved (header_changes_of request header ++ changes_of edits) d before request edits
            t found (λ q. in_review d.status q allowed) live saved,
      )
