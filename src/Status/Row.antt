-- ===== src/Status/Row.antt =====
-- A row of the `documents` table as the statements of
-- packages/core/docflow_core/document_status.py read and write it, the values that a transition
-- may set beside the status, and a conditional UPDATE. Times are whole seconds.
use text.Mathlib.Text.{◌==◌ as str_eq}
use doc_flow.Prelude.{
  ℕ, String, Bool, false, ◌||◌, Option, none, some, List, [], ◌∷◌, map, filter, if◌then◌else◌,
}
use doc_flow.Status.Table.{Status}

-- A value of a column that no statement here reads back.
pub data Cell : Type 0 where
  time number : ℕ → Cell
  label : String → Cell

pub record Document : Type 0 where
  pub id : ℕ
  pub tenant : ℕ
  pub created_at : ℕ
  pub status : Status
  pub deleted : Bool  -- deleted_at IS NOT NULL
  pub processing_started_at : Option ℕ
  pub processing_attempts : ℕ
  pub timeout_attempts : List ℕ
  pub parse_lost_attempts : List ℕ
  pub dispatched_at : Option ℕ
  pub retry_at : Option ℕ
  pub waiting_since : Option ℕ
  pub wait_cause : Option String
  pub last_wait_error : Option String
  pub failure_code : Option String
  pub processed_at : Option ℕ
  pub cells : List (String × Option Cell)  -- the other columns of `_SETTABLE`

-- What a transition binds to a column: `NULL` or `None`, or a value.
pub data Value (A : Type 0) : Type 0 where
  null : Value A
  bound : A → Value A

-- A time column may also be given `NOW`.
pub data TimeValue : Type 0 where
  now null : TimeValue
  at : ℕ → TimeValue

-- One entry of the `values` mapping. The columns that the statements read have a constructor.
pub data Assign : Type 0 where
  processing_started_at retry_at waiting_since processed_at : TimeValue → Assign
  wait_cause last_wait_error failure_code : Value String → Assign
  column : String → Value Cell → Assign
  column_now : String → Assign

-- The names of `_SETTABLE` that have no constructor of their own.
abbrev pub settable_names : List String
settable_names =
    "model_id" ∷ "prompt_hash" ∷ "schema_version" ∷ "input_tokens" ∷ "output_tokens"
    ∷ "est_cost_usd" ∷ "injection_suspected" ∷ "overall_confidence" ∷ "raw_json"
    ∷ "field_schema_version" ∷ "current_extraction_run_id" ∷ "approved_at" ∷ "approved_by"
    ∷ "approved_json" ∷ "approved_snapshot_hash" ∷ "quarantine_reason" ∷ "quarantined_at"
    ∷ "released_at" ∷ "released_by_user_id" ∷ "released_acting_as_tenant_id" ∷ "pipeline_issues"
    ∷ "dispatch_lane" ∷ []

abbrev pub has_name : String → List String → Bool
has_name s [] = false
has_name s (t ∷ ts) = str_eq s t || has_name s ts

abbrev pub value_of : {A : Type 0} → Value A → Option A
value_of null = none
value_of (bound a) = some a

abbrev pub time_of : TimeValue → ℕ → Option ℕ
time_of now clock = some clock
time_of null clock = none
time_of (at t) clock = some t

abbrev pub set_cell :
    String → Option Cell → List (String × Option Cell) → List (String × Option Cell)
set_cell k v [] = (k, v) ∷ []
set_cell k v ((j, w) ∷ cs) = if str_eq j k then (k, v) ∷ cs else (j, w) ∷ set_cell k v cs

-- One `name = value` of the SET list, in a statement that runs at `clock`.
abbrev pub assign : ℕ → Assign → Document → Document
assign clock (processing_started_at v) d = record d { processing_started_at = time_of v clock }
assign clock (retry_at v) d = record d { retry_at = time_of v clock }
assign clock (waiting_since v) d = record d { waiting_since = time_of v clock }
assign clock (processed_at v) d = record d { processed_at = time_of v clock }
assign clock (wait_cause v) d = record d { wait_cause = value_of v }
assign clock (last_wait_error v) d = record d { last_wait_error = value_of v }
assign clock (failure_code v) d = record d { failure_code = value_of v }
assign clock (column k v) d = record d { cells = set_cell k (value_of v) d.cells }
assign clock (column_now k) d = record d { cells = set_cell k (some (Cell.time clock)) d.cells }

abbrev pub assign_all : ℕ → List Assign → Document → Document
assign_all clock [] d = d
assign_all clock (a ∷ as') d = assign_all clock as' (assign clock a d)

-- UPDATE documents SET f WHERE p: the new table.
abbrev pub update_where : (Document → Bool) → (Document → Document) → List Document → List Document
update_where p f [] = []
update_where p f (d ∷ ds) = (if p d then f d else d) ∷ update_where p f ds

-- ... RETURNING id
abbrev pub returned : (Document → Bool) → List Document → List ℕ
returned p ds = map (λ d. d.id) (filter p ds)
