-- ===== src/Sweep/Run.antt =====
-- The jobs that never finished, and `sweep_tenant` of packages/core/docflow_core/stuck_documents.py.
use doc_flow.Prelude.{
  ℕ, ◌+◌, ◌-◌, ◌*◌, ◌%◌, Bool, true, false, not, ◌&&◌, Option, none, some, List, [], ◌∷◌, ◌++◌, map,
  filter, length, any, ltb, leb, ◌==◌, if◌then◌else◌,
}
use doc_flow.Status.Row.{Document}
use doc_flow.Status.Ops.{Result, ok, ◌>>=◌}
use doc_flow.Status.Claims.{is_cause, fail_provider_waits_past}
use doc_flow.Sweep.Tables.{
  export_not_finished_code, provider_wait_limit_code, import_not_finished_code,
  provider_max_wait_hours, exports_not_finished_alert_per_day, Effect, JobStatus, Job, Tables,
  SweepResult, failure_alert, lost_jobs_alert, exports_alert, enqueued,
}
use doc_flow.Sweep.Visit.{stale_rows, Swept, visit_rows}

abbrev pub has_not_ended : JobStatus → Bool
has_not_ended JobStatus.unfinished = true
has_not_ended JobStatus.finished = false
has_not_ended JobStatus.failed = false

-- WHERE tenant_id = :tid AND status = ... AND deleted_at IS NULL AND the job is older than the timeout
abbrev pub is_unfinished : ℕ → ℕ → ℕ → Job → Bool
is_unfinished clock tenant_id minutes j =
    j.tenant == tenant_id
    && (has_not_ended j.status && (not j.deleted && ltb (j.started_at + minutes * 60) clock))

abbrev pub fail_export : ℕ → Job → Job
fail_export clock j = record j {
  status = JobStatus.failed;
  error_code = some export_not_finished_code;
  generated_at = some clock;
}

abbrev pub fail_import : Job → Job
fail_import j = record j { status = JobStatus.failed; error_code = some import_not_finished_code }

abbrev pub update_jobs : (Job → Bool) → (Job → Job) → List Job → List Job
update_jobs p f [] = []
update_jobs p f (j ∷ js) = (if p j then f j else j) ∷ update_jobs p f js

-- `generated_at` is of the UTC day of `clock`, which no row is after
abbrev pub is_of_today : ℕ → Option ℕ → Bool
is_of_today clock none = false
is_of_today clock (some t) = leb (clock - clock % 86400) t

abbrev pub is_not_finished_today : ℕ → ℕ → Job → Bool
is_not_finished_today clock tenant_id j =
    j.tenant == tenant_id
    && (is_cause export_not_finished_code j.error_code && is_of_today clock j.generated_at)

-- `_fail_unfinished_exports_and_imports`: the exports, the imports, the ids of both, the alert
unfoldable pub fail_unfinished_exports_and_imports :
    ℕ → ℕ → ℕ → List Job → List Job → List Job × List Job × List ℕ × List ℕ × List Effect
fail_unfinished_exports_and_imports clock tenant_id minutes exports imports =
    let chosen = is_unfinished clock tenant_id minutes in
    let exports' = update_jobs chosen (fail_export clock) exports in
    let today = length (filter (is_not_finished_today clock tenant_id) exports') in
    (
      exports',
      update_jobs chosen fail_import imports,
      map (λ j. j.id) (filter chosen exports),
      map (λ j. j.id) (filter chosen imports),
      if any chosen exports && ltb exports_not_finished_alert_per_day today
          then exports_alert today ∷ []
          else [],
    )

abbrev pub wait_limit_alert : ℕ → Effect
wait_limit_alert document_id = failure_alert provider_wait_limit_code document_id none

abbrev pub lost_jobs_alerts : ℕ → List ℕ → List Effect
lost_jobs_alerts minutes [] = []
lost_jobs_alerts minutes (i ∷ lost) = lost_jobs_alert (length (i ∷ lost)) minutes ∷ []

abbrev pub nothing_swept : List Document → Swept
nothing_swept docs = record {
  documents = docs;
  requeued = [];
  failed = [];
  lost_jobs = [];
  effects = [];
}

-- what follows the loop, and the jobs that are queued after the commit
abbrev pub finish : ℕ → ℕ → ℕ → Tables → Swept → Tables × SweepResult × List Effect
finish clock tenant_id minutes tables s =
    let (documents, waited) =
      fail_provider_waits_past clock s.documents provider_max_wait_hours provider_wait_limit_code in
    let (exports, imports, exports_failed, imports_failed, alerts) =
      fail_unfinished_exports_and_imports clock tenant_id minutes tables.exports tables.imports in
    (
      record { documents = documents; exports = exports; imports = imports },
      record {
        requeued = s.requeued;
        failed = s.failed;
        lost_jobs = s.lost_jobs;
        wait_limit_failed = waited;
        exports_failed = exports_failed;
        imports_failed = imports_failed;
      },
      s.effects
          ++ lost_jobs_alerts minutes s.lost_jobs
          ++ map wait_limit_alert waited
          ++ alerts
          ++ map (enqueued tenant_id) s.requeued,
    )

unfoldable pub sweep_tenant : ℕ → ℕ → ℕ → ℕ → Tables → Result (Tables × SweepResult × List Effect)
sweep_tenant clock tenant_id timeout_min max_attempts tables =
    visit_rows clock max_attempts (stale_rows clock timeout_min tables.documents)
      (nothing_swept tables.documents)
    >>= λ s. ok (finish clock tenant_id timeout_min tables s)
