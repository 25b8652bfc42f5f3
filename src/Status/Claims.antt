-- ===== src/Status/Claims.antt =====
-- The worker's claim, what is recorded of an attempt, and the waits:
-- packages/core/docflow_core/document_status.py from `record_timeout` on. Each is one UPDATE with a
-- condition; `int(x)` of whole numbers is the identity, and `array_append` adds at the end.
use text.Mathlib.Text.{◌==◌ as str_eq}
use doc_flow.Prelude.{
  ℕ, zero, suc, ◌+◌, ◌-◌, ◌*◌, String, Bool, true, false, not, ◌&&◌, ◌||◌, Option, none, some, List,
  [], ◌∷◌, ◌++◌, any, contains, ltb, leb, ◌==◌, if◌then◌else◌,
}
use doc_flow.Status.Table.{pending, processing, failed, same}
use doc_flow.Status.Row.{Document, has_name, update_where, returned}

-- WHERE id = :id AND status = 'processing'
abbrev pub is_processing : ℕ → Document → Bool
is_processing document_id d = d.id == document_id && same d.status processing

abbrev pub is_processing_live : ℕ → Document → Bool
is_processing_live document_id d = is_processing document_id d && not d.deleted

abbrev pub is_timeout_unrecorded : ℕ → Document → Bool
is_timeout_unrecorded document_id d =
    is_processing document_id d && not (contains d.processing_attempts d.timeout_attempts)

abbrev pub add_timeout : Document → Document
add_timeout d = record d { timeout_attempts = d.timeout_attempts ++ d.processing_attempts ∷ [] }

unfoldable pub record_timeout : List Document → ℕ → List Document × Bool
record_timeout docs document_id =
    let chosen = is_timeout_unrecorded document_id in
    (update_where chosen add_timeout docs, any chosen docs)

abbrev pub add_parse_lost : Document → Document
add_parse_lost d = record d {
  parse_lost_attempts =
      if contains d.processing_attempts d.parse_lost_attempts
      then d.parse_lost_attempts
      else d.parse_lost_attempts ++ d.processing_attempts ∷ [];
}

-- RETURNING processing_attempts, timeout_attempts, parse_lost_attempts, of the first row
abbrev pub first_tries : (Document → Bool) → List Document → Option (ℕ × List ℕ × List ℕ)
first_tries p [] = none
first_tries p (d ∷ ds) =
    if p d
    then some (d.processing_attempts, d.timeout_attempts, d.parse_lost_attempts)
    else first_tries p ds

unfoldable pub record_parse_lost : List Document → ℕ → List Document × Option (ℕ × List ℕ × List ℕ)
record_parse_lost docs document_id =
    let chosen = is_processing_live document_id in
    let written = update_where chosen add_parse_lost docs in (written, first_tries chosen written)

unfoldable pub release_claim : List Document → ℕ → List Document × Bool
release_claim docs document_id =
    let chosen = is_processing_live document_id in
    (update_where chosen (λ d. record d { processing_started_at = none }) docs, any chosen docs)

-- `retry_at IS NULL OR retry_at <= now()`
abbrev pub is_due : ℕ → Option ℕ → Bool
is_due clock none = true
is_due clock (some t) = leb t clock

-- `processing_started_at IS NULL OR processing_started_at < now() - make_interval(mins => :stale)`
abbrev pub is_stale : ℕ → ℕ → Option ℕ → Bool
is_stale clock minutes none = true
is_stale clock minutes (some t) = ltb (t + minutes * 60) clock

abbrev pub is_claimable : ℕ → ℕ → ℕ → Document → Bool
is_claimable clock stale_after_min document_id d =
    d.id == document_id
    && (not d.deleted
        && ((same d.status pending && is_due clock d.retry_at)
            || (same d.status processing
                && is_stale clock stale_after_min d.processing_started_at)))

abbrev pub claim_row : ℕ → Document → Document
claim_row clock d = record d {
  status = processing;
  processing_started_at = some clock;
  processing_attempts = d.processing_attempts + 1;
}

unfoldable pub claim_for_processing : ℕ → List Document → ℕ → ℕ → List Document × Bool
claim_for_processing clock docs document_id stale_after_min =
    let chosen = is_claimable clock stale_after_min document_id in
    (update_where chosen (claim_row clock) docs, any chosen docs)

-- `WAIT_CAUSES`
abbrev pub wait_causes : List String
wait_causes = "model_provider" ∷ "storage" ∷ "parse_service" ∷ "database" ∷ []

-- `label[:n]`
abbrev pub truncate : ℕ → String → String
truncate zero s = ""
truncate (suc n) String.[] = ""
truncate (suc n) (String.◌∷◌ c s) = String.◌∷◌ c (truncate n s)

-- `wait_cause = :cause`; NULL is equal to nothing
abbrev pub is_cause : String → Option String → Bool
is_cause cause none = false
is_cause cause (some c) = str_eq c cause

-- `coalesce(t, now())`
abbrev pub coalesce : Option ℕ → ℕ → ℕ
coalesce none clock = clock
coalesce (some t) clock = t

abbrev pub wait_row : ℕ → String → ℕ → String → Document → Document
wait_row clock cause retry_after error_label d = record d {
  status = pending;
  processing_attempts = d.processing_attempts - 1;
  processing_started_at = none;
  dispatched_at = none;
  waiting_since =
      some (if is_cause cause d.wait_cause then coalesce d.waiting_since clock else clock);
  wait_cause = some cause;
  retry_at = some (clock + retry_after);
  last_wait_error = some (truncate 120 error_label);
}

-- `none` is the ValueError of an unknown cause.
unfoldable pub to_waiting :
    ℕ → List Document → ℕ → String → ℕ → String → Option (List Document × Bool)
to_waiting clock docs document_id cause retry_after error_label =
    if has_name cause wait_causes
    then some (
      update_where (is_processing_live document_id) (wait_row clock cause retry_after error_label)
          docs,
      any (is_processing_live document_id) docs,
    )
    else none

-- `waiting_since < now() - make_interval(hours => :hours)`; NULL is before nothing
abbrev pub waited_past : ℕ → ℕ → Option ℕ → Bool
waited_past clock hours none = false
waited_past clock hours (some t) = ltb (t + hours * 3600) clock

abbrev pub is_past_wait_limit : ℕ → ℕ → Document → Bool
is_past_wait_limit clock hours d =
    same d.status pending
    && (not d.deleted
        && (is_cause "model_provider" d.wait_cause && waited_past clock hours d.waiting_since))

abbrev pub fail_wait_row : ℕ → String → Document → Document
fail_wait_row clock code d = record d {
  status = failed;
  failure_code = some code;
  processed_at = some clock;
  retry_at = none;
  dispatched_at = none;
}

unfoldable pub fail_provider_waits_past : ℕ → List Document → ℕ → String → List Document × List ℕ
fail_provider_waits_past clock docs hours code =
    let chosen = is_past_wait_limit clock hours in
    (update_where chosen (fail_wait_row clock code) docs, returned chosen docs)

abbrev pub is_waiting_on : ℕ → String → Document → Bool
is_waiting_on document_id cause d = d.id == document_id && is_cause cause d.wait_cause

-- The first row that waits on `cause` since some time: the seconds until `clock`.
unfoldable pub waited_seconds : ℕ → List Document → ℕ → String → Option ℕ
waited_seconds clock [] document_id cause = none
waited_seconds clock (d ∷ ds) document_id cause =
    let rest = waited_seconds clock ds document_id cause in
    elim d.waiting_since [
      | none ↦ rest
      | some t ↦ if is_waiting_on document_id cause d then some (clock - t) else rest
    ]
