-- ===== src/Validation/Sync.antt =====
-- The warnings of a document as rows, `sync_warnings`, `record_parse_warnings`, `open_warnings` and
-- `unacknowledged_warning_count` of packages/core/docflow_core/validation.py. The fingerprint of a
-- warning, a SHA-256 of its fields, is a parameter.
use doc_flow.Prelude.{
  ℕ, zero, suc, ◌+◌, Bool, true, false, not, ◌&&◌, ◌||◌, Option, none, some, List, [], ◌∷◌, ◌++◌,
  map, filter, contains, ltb, leb, ◌==◌, if◌then◌else◌, any, length,
}
use doc_flow.Prelude.Sort.{Text, text_beq, text_leb, sort}
pub mod RowByRow
pub mod Kept

pub data Severity : Type 0 where
  critical : Severity
  high : Severity
  warning : Severity
  info : Severity

abbrev pub severity_beq : Severity → Severity → Bool
severity_beq critical critical = true
severity_beq high high = true
severity_beq warning warning = true
severity_beq info info = true
severity_beq _ _ = false

-- `VAL-001` is 1, and so on
abbrev pub is_parse_step : ℕ → Bool
is_parse_step code = code == 17 || code == 18

pub record DocumentWarning : Type 0 where
  pub code : ℕ
  pub severity : Severity
  pub field_name : Option Text
  pub line_number : Option ℕ
  pub document_line_id : Option ℕ
  pub detail : List (Text × Text)

pub data WarningStatus : Type 0 where
  opened : WarningStatus
  acknowledged : WarningStatus
  resolved : WarningStatus

-- A row of `document_warnings`.
pub record WarningRow : Type 0 where
  pub id : ℕ
  pub document_id : ℕ
  pub content : DocumentWarning
  pub fingerprint : Text
  pub status : WarningStatus
  pub resolved_at : Option ℕ
  pub deleted : Bool
  pub created_at : ℕ

pub record ValidationSummary : Type 0 where
  pub evaluated : ℕ
  pub created : ℕ
  pub retained : ℕ
  pub resolved_count : ℕ
  pub by_severity : Severity → ℕ

-- the live rows that are reconciled
abbrev pub is_stored : ℕ → WarningRow → Bool
is_stored document r =
    r.document_id == document && (not r.deleted && not (is_parse_step r.content.code))

-- the partial unique index on (document_id, fingerprint)
abbrev pub conflicts_with : ℕ → Text → WarningRow → Bool
conflicts_with document print r =
    r.document_id == document && (not r.deleted && text_beq r.fingerprint print)

abbrev pub among : Text → List Text → Bool
among print [] = false
among print (p ∷ ps) = text_beq p print || among print ps

module _ (fingerprint_of : DocumentWarning → Text) (uuid : ℕ → ℕ) (document now : ℕ) where
  -- `computed`: the first warning of each fingerprint, in order; `seen` are those before
  unfoldable pub first_of_each : List Text → List DocumentWarning → List DocumentWarning
  first_of_each seen [] = []
  first_of_each seen (w ∷ ws) =
      let kept = first_of_each (fingerprint_of w ∷ seen) ws in
      let skipped = first_of_each seen ws in
      if among (fingerprint_of w) seen then skipped else w ∷ kept

  abbrev pub new_row : ℕ → DocumentWarning → WarningRow
  new_row id w = record {
    id = id;
    document_id = document;
    content = w;
    fingerprint = fingerprint_of w;
    status = opened;
    resolved_at = none;
    deleted = false;
    created_at = now;
  }

  -- `INSERT … ON CONFLICT (document_id, fingerprint) WHERE deleted_at IS NULL DO NOTHING`
  unfoldable pub insert_open : DocumentWarning → List WarningRow → List WarningRow
  insert_open w rows =
      if any (conflicts_with document (fingerprint_of w)) rows
      then rows
      else rows ++ new_row (uuid (length rows)) w ∷ []

  -- the loop over `computed`: the rows, how many were created and how many retained
  unfoldable pub insert_missing :
      List Text → List DocumentWarning → List WarningRow → List WarningRow × (ℕ × ℕ)
  insert_missing stored [] rows = (rows, (0, 0))
  insert_missing stored (w ∷ ws) rows =
      let (kept, (created, retained)) = insert_missing stored ws rows in
      let (added, (created', retained')) = insert_missing stored ws (insert_open w rows) in
      if among (fingerprint_of w) stored
      then (kept, (created, suc retained))
      else (added, (suc created', retained'))

  abbrev pub resolve_row : WarningRow → WarningRow
  resolve_row r = record r { status = resolved; resolved_at = some now; deleted = true }

  -- the UPDATE of each id that is gone
  unfoldable pub resolve_ids : List ℕ → List WarningRow → List WarningRow
  resolve_ids ids [] = []
  resolve_ids ids (r ∷ rows) =
      let rest = resolve_ids ids rows in
      if contains r.id ids then resolve_row r ∷ rest else r ∷ rest

  -- stored, and no longer computed
  abbrev pub is_gone : List DocumentWarning → WarningRow → Bool
  is_gone computed r =
      is_stored document r && not (among r.fingerprint (map fingerprint_of computed))

  abbrev pub gone_ids : List DocumentWarning → List WarningRow → List ℕ
  gone_ids computed rows = map (λ r. r.id) (filter (is_gone computed) rows)

  unfoldable pub sync_warnings :
      List DocumentWarning → List WarningRow → List WarningRow × ValidationSummary
  sync_warnings warnings rows =
      let stored = map (λ r. r.fingerprint) (filter (is_stored document) rows) in
      let computed = first_of_each [] warnings in
      let gone = gone_ids computed rows in
      let (rows', (created, retained)) = insert_missing stored computed rows in
      (
        resolve_ids gone rows',
        record {
          evaluated = length warnings;
          created = created;
          retained = retained;
          resolved_count = length gone;
          by_severity = λ s. length (filter (λ w. severity_beq w.severity s) computed);
        },
      )

  -- the loop of `record_parse_warnings`, and how many rows were written
  unfoldable pub record_parse_warnings :
      List DocumentWarning → List WarningRow → List WarningRow × ℕ
  record_parse_warnings [] rows = (rows, 0)
  record_parse_warnings (w ∷ ws) rows =
      let (rows', written) = record_parse_warnings ws (insert_open w rows) in
      let wrote = if any (conflicts_with document (fingerprint_of w)) rows then 0 else 1 in
      (rows', written + wrote)

-- the `ORDER BY CASE severity`
abbrev pub rank : Severity → ℕ
rank critical = 0
rank high = 1
rank warning = 2
rank info = 3

abbrev pub nulls_first : Option ℕ → ℕ
nulls_first none = 0
nulls_first (some n) = suc n

abbrev pub by_key : ℕ → ℕ → Bool → Bool
by_key a b rest = if ltb a b then true else if a == b then rest else false

abbrev pub open_leb : WarningRow → WarningRow → Bool
open_leb r s = by_key (rank r.content.severity) (rank s.content.severity) (
    by_key (nulls_first r.content.line_number) (nulls_first s.content.line_number)
      (by_key r.content.code s.content.code (leb r.created_at s.created_at)))

unfoldable pub open_warnings : ℕ → List WarningRow → List WarningRow
open_warnings document rows =
    sort open_leb (filter (λ r. r.document_id == document && not r.deleted) rows)

abbrev pub is_open : WarningStatus → Bool
is_open opened = true
is_open acknowledged = false
is_open resolved = false

unfoldable pub unacknowledged_warning_count : ℕ → List WarningRow → ℕ
unacknowledged_warning_count document rows =
    length (filter (λ r. r.document_id == document && (not r.deleted && is_open r.status)) rows)
