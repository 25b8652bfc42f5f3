-- ===== src/Review/Edit.antt =====
-- `apply_edits`, `_write_header_edits`, `_write_line_edits`, `_checked_column` and `start_review` of
-- packages/core/docflow_core/review.py. A dict of a row is a function of the field's name.
use doc_flow.Prelude.{
  ℕ, String, Bool, true, false, not, ◌&&◌, Option, none, some, List, [], ◌∷◌, ◌++◌, ◌==◌,
  if◌then◌else◌,
}
use doc_flow.Prelude.Sort.{Text, text_beq}
use doc_flow.Status.Table.{approved, exported, member}
use doc_flow.Status.Row.{Document}
use doc_flow.Matching.Resolve.{Provenance, human_edit}
use doc_flow.Validation.Sync.{among}
use doc_flow.Review.{
  Outcome, done, raised, data_error, review_error, ◌>>=◌, ◌>>◌, refuse_if, code_not_reviewable,
  code_stale_edit, code_field_not_editable, editable_header_fields, editable_line_fields,
  numeric_header_fields, Values, EditRequest, FieldChange, Stored, validate_editable,
  cleared_numbers_as_null, cleared_lines, diff_fields,
}
use doc_flow.Review.Tables.{
  load_document, load_header, load_lines, document_version_of, validate_document, plain_action,
  record_action,
}
use doc_flow.Review.Rows.{HeaderRow, LineRow, ActionRow, Tables, Server, action_edited}
use doc_flow.Review.Decide.{is_outdated, loaded, reopen}
use doc_flow.Review.Notes.{reviewable_statuses}

abbrev pub put_field {ℓ} : {A : Type ℓ} → Text → A → (Text → A) → Text → A
put_field name v m = λ k. if text_beq name k then v else m k

-- NULL, or what the column takes of the text
abbrev pub kept_or : Option Stored → Outcome (Option Stored)
kept_or none = raised data_error
kept_or (some v) = done (some v)

abbrev pub bind_value : Server → Text → Option Text → Outcome (Option Stored)
bind_value server name none = done none
bind_value server name (some s) = kept_or (server.stores name s)

-- the SET list of the changed columns: `values[name]` is the change's `after`
unfoldable pub write_changed :
    Server → List Text → List FieldChange → (Text → Option Stored) → Outcome (Text → Option Stored)
write_changed server allowlist [] value = done value
write_changed server allowlist (c ∷ changes) value = do
  refuse_if (not (among c.field_name allowlist)) code_field_not_editable
  v ← bind_value server c.field_name c.after
  write_changed server allowlist changes (put_field c.field_name v value)

unfoldable pub stamp : ℕ → List FieldChange → (Text → Option Provenance) → Text → Option Provenance
stamp action_id [] provenance = provenance
stamp action_id (c ∷ changes) provenance =
    stamp action_id changes (put_field c.field_name (some (human_edit (some action_id))) provenance)

abbrev pub edit_header_row :
    Server → List FieldChange → (Text → Option Provenance) → HeaderRow → Outcome HeaderRow
edit_header_row server changes provenance h = do
  value ← write_changed server editable_header_fields changes h.value
  done (record h { value = value; field_provenance = provenance })

-- the UPDATE of every header row of the document
unfoldable pub write_header_edits :
    Server
    → ℕ
    → List FieldChange
    → (Text → Option Provenance)
    → List HeaderRow
    → Outcome (List HeaderRow)
write_header_edits server document_id changes provenance [] = done []
write_header_edits server document_id changes provenance (h ∷ rows) = do
  row ← if h.document_id == document_id then edit_header_row server changes provenance h else done h
  rest ← write_header_edits server document_id changes provenance rows
  done (row ∷ rest)

abbrev pub edit_line_row :
    Server → List FieldChange → (Text → Option Provenance) → LineRow → Outcome LineRow
edit_line_row server changes provenance l = do
  value ← write_changed server editable_line_fields changes l.value
  done (record l { value = value; field_provenance = provenance })

-- the UPDATE of the line with an id
unfoldable pub write_line_edits :
    Server
    → ℕ
    → List FieldChange
    → (Text → Option Provenance)
    → List LineRow
    → Outcome (List LineRow)
write_line_edits server line_id changes provenance [] = done []
write_line_edits server line_id changes provenance (l ∷ rows) = do
  row ← if l.id == line_id then edit_line_row server changes provenance l else done l
  rest ← write_line_edits server line_id changes provenance rows
  done (row ∷ rest)

-- An entry of `line_changes`: the line as it was, and what changes of it.
pub record LineEdit : Type 0 where
  pub line : LineRow
  pub found : List FieldChange

-- `lines_before.get(line_id)`
abbrev pub line_before : ℕ → List LineRow → Option LineRow
line_before line_id [] = none
line_before line_id (l ∷ rows) = if l.id == line_id then some l else line_before line_id rows

abbrev pub line_or_error : Option LineRow → Outcome LineRow
line_or_error none = raised (review_error code_not_reviewable)
line_or_error (some l) = done l

-- `if found:`
abbrev pub with_changes : LineRow → List FieldChange → List LineEdit → List LineEdit
with_changes l [] rest = rest
with_changes l (c ∷ found) rest = record { line = l; found = c ∷ found } ∷ rest

unfoldable pub line_changes : List LineRow → List (ℕ × Values) → Outcome (List LineEdit)
line_changes before [] = done []
line_changes before ((line_id, fields) ∷ rest) = do
  l ← line_or_error (line_before line_id before)
  others ← line_changes before rest
  done (with_changes l (diff_fields l.value fields (some l.line_number)) others)

abbrev pub changes_of : List LineEdit → List FieldChange
changes_of [] = []
changes_of (e ∷ edits) = e.found ++ changes_of edits

unfoldable pub write_lines : Server → ℕ → List LineEdit → List LineRow → Outcome (List LineRow)
write_lines server action_id [] rows = done rows
write_lines server action_id (e ∷ edits) rows = do
  written ←
      write_line_edits server e.line.id e.found (stamp action_id e.found e.line.field_provenance)
        rows
  write_lines server action_id edits written

-- `if header_changes:`
abbrev pub write_header :
    Server → ℕ → ℕ → List FieldChange → HeaderRow → List HeaderRow → Outcome (List HeaderRow)
write_header server document_id action_id [] before rows = done rows
write_header server document_id action_id (c ∷ changes) before rows =
    write_header_edits server document_id (c ∷ changes)
      (stamp action_id (c ∷ changes) before.field_provenance) rows

abbrev pub was_approved : Document → Bool
was_approved d = member d.status (approved ∷ exported ∷ [])

abbrev pub header_changes_of : EditRequest → HeaderRow → List FieldChange
header_changes_of request before =
    diff_fields before.value (cleared_numbers_as_null numeric_header_fields request.header) none

module _ (server : Server) (tenant_id document_id user_id : ℕ) (acting_as : Option ℕ) where
  -- `if was_approved:`
  abbrev pub reopen_if : Bool → Tables → Outcome Tables
  reopen_if false t = done t
  reopen_if true t = do
    (reopened, action_id) ← reopen server tenant_id document_id user_id acting_as t
    done reopened

  abbrev pub edit_action : List FieldChange → List LineEdit → Tables → ActionRow
  edit_action header_changes edits t =
      record (plain_action server tenant_id document_id user_id acting_as action_edited t) {
        changes = header_changes ++ changes_of edits;
      }

  abbrev pub edited_tables :
      List FieldChange → List LineEdit → Tables → List HeaderRow → List LineRow → Tables
  edited_tables header_changes edits t headers lines =
      record (record_action (edit_action header_changes edits t) t) {
        headers = headers;
        lines = lines;
      }

  -- the statements of a save, once there are changes
  unfoldable pub save_changes :
      Bool → List FieldChange → List LineEdit → Tables → Outcome (Tables × Option ℕ)
  save_changes approved_before header_changes edits t = do
    let action_id = (edit_action header_changes edits t).id
    headers ←
        write_header server document_id action_id header_changes (load_header document_id t.headers)
          t.headers
    lines ← write_lines server action_id edits t.lines
    saved ← reopen_if approved_before (edited_tables header_changes edits t headers lines)
    done (validate_document server tenant_id document_id saved, some action_id)

  -- `if not changes: return None`
  abbrev pub save_any :
      List FieldChange
      → Bool
      → List FieldChange
      → List LineEdit
      → Tables
      → Outcome (Tables × Option ℕ)
  save_any [] approved_before header_changes edits t = done (t, none)
  save_any (c ∷ changes) approved_before header_changes edits t =
      save_changes approved_before header_changes edits t

  unfoldable pub apply_edits : EditRequest → Option String → Tables → Outcome (Tables × Option ℕ)
  apply_edits request expected_version t = do
    validate_editable server.table request
    d ← loaded (load_document document_id t.documents)
    refuse_if (not (was_approved d) && not (member d.status reviewable_statuses))
        code_not_reviewable
    let header_before = load_header document_id t.headers
    let lines_before = load_lines document_id t.lines
    refuse_if (is_outdated expected_version (document_version_of server header_before lines_before))
        code_stale_edit
    let header_changes = header_changes_of request header_before
    edits ← line_changes lines_before (cleared_lines request.lines)
    save_any (header_changes ++ changes_of edits) (was_approved d) header_changes edits t
