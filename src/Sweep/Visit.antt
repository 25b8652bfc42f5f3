-- ===== src/Sweep/Visit.antt =====
-- The rows that were left behind and the loop over them, packages/core/docflow_core/stuck_documents.py.
use doc_flow.Prelude.{
  ℕ, ◌+◌, ◌*◌, Bool, true, false, not, ◌&&◌, ◌||◌, Option, none, some, List, [], ◌∷◌, ◌++◌, filter,
  any, ltb, leb, ◌==◌, if◌then◌else◌, is_some,
}
use doc_flow.Prelude.Sort.{sort}
use doc_flow.Status.Table.{Status, pending, processing, same}
use doc_flow.Status.Row.{Document, Value, failure_code, processed_at, TimeValue, update_where}
use doc_flow.Status.Ops.{Result, ok, ◌>>=◌, transition}
use doc_flow.Status.Claims.{is_stale}
use doc_flow.Retry.{Decision, decide, failure_detail}
use doc_flow.Sweep.Tables.{stuck_code, Effect, lost_runs_closed, failure_alert}

-- `t < now() - make_interval(mins => :t)`; NULL is before nothing
abbrev pub is_before : ℕ → ℕ → Option ℕ → Bool
is_before clock minutes none = false
is_before clock minutes (some t) = ltb (t + minutes * 60) clock

-- the WHERE of the SELECT
abbrev pub is_left_behind : ℕ → ℕ → Document → Bool
is_left_behind clock minutes d =
    not d.deleted
    && (same d.status processing && is_stale clock minutes d.processing_started_at
        || same d.status pending && is_before clock minutes d.dispatched_at)

-- ORDER BY created_at, id
abbrev pub is_older : Document → Document → Bool
is_older a b =
    if ltb a.created_at b.created_at then true else a.created_at == b.created_at && leb a.id b.id

abbrev pub stale_rows : ℕ → ℕ → List Document → List Document
stale_rows clock minutes docs = sort is_older (filter (is_left_behind clock minutes) docs)

abbrev pub is_dispatched : ℕ → Document → Bool
is_dispatched document_id d =
    d.id == document_id && (same d.status pending && is_some d.dispatched_at)

abbrev pub undispatched : Document → Document
undispatched d = record d { dispatched_at = none }

unfoldable pub return_to_waiting : List Document → ℕ → List Document × Bool
return_to_waiting docs document_id = (
  update_where (is_dispatched document_id) undispatched docs,
  any (is_dispatched document_id) docs,
)

-- the table and the lists, in the middle of the loop
pub record Swept : Type 0 where
  pub documents : List Document
  pub requeued : List ℕ
  pub failed : List ℕ
  pub lost_jobs : List ℕ
  pub effects : List Effect

abbrev pub add_if : Bool → ℕ → List ℕ → List ℕ
add_if b i ids = if b then ids ++ i ∷ [] else ids

-- `decide` says so: the document stays with its stale claim, or is failed with an alert
abbrev pub settle : ℕ → Document → Decision → Swept → Result Swept
settle clock row Decision.retry s = ok (record s { requeued = s.requeued ++ row.id ∷ [] })
settle clock row (Decision.fail cause) s =
    transition clock s.documents row.id (processing ∷ []) Status.failed
      (failure_code (Value.bound stuck_code) ∷ processed_at TimeValue.now ∷ [])
    >>= λ moved. ok (record s {
      documents = moved.0;
      failed = add_if moved.1 row.id s.failed;
      effects =
          if moved.1
          then s.effects
            ++ failure_alert stuck_code row.id (
                some (
                  cause,
                  failure_detail row.processing_attempts row.timeout_attempts
                      row.parse_lost_attempts none,
                ))
              ∷ []
          else s.effects;
    })

-- one turn of the loop
abbrev pub visit : ℕ → ℕ → Document → Swept → Result Swept
visit clock max_attempts row s =
    if same row.status processing
    then settle clock row
        (decide row.processing_attempts row.timeout_attempts max_attempts row.parse_lost_attempts)
        (record s { effects = s.effects ++ lost_runs_closed row.id ∷ [] })
    else (let (documents, moved) = return_to_waiting s.documents row.id in
        ok (record s { documents = documents; lost_jobs = add_if moved row.id s.lost_jobs }))

unfoldable pub visit_rows : ℕ → ℕ → List Document → Swept → Result Swept
visit_rows clock max_attempts [] s = ok s
visit_rows clock max_attempts (row ∷ rows) s =
    visit clock max_attempts row s >>= λ s'. visit_rows clock max_attempts rows s'
