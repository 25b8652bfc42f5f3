-- ===== src/Sweep/Tests.antt =====
-- Runs of the sweep, and the witnesses.
use doc_flow.Prelude.{◌≡◌, refl, false, none, some, List, [], ◌∷◌, map, All, arith}
use doc_flow.Prelude.Sort.{sort, insert}
use doc_flow.Status.Table.{pending, processing}
use doc_flow.Status.Row.{Document}
use doc_flow.Status.Ops.{Result, ok, transition, check, check_each, assignments}
use doc_flow.Status.Claims.{fail_provider_waits_past}
use doc_flow.Status.Claiming.{Unique}
use doc_flow.Retry.{decide}
use doc_flow.Sweep.Tables.{Tables, SweepResult, Effect, Job, JobStatus}
use doc_flow.Sweep.Run.{sweep_tenant, fail_unfinished_exports_and_imports}
use doc_flow.Sweep.Visit.{visit_rows, return_to_waiting, stale_rows}
use doc_flow.Sweep.Settles.{retried_ids}
use doc_flow.Sweep.Promise.{after_sweep, Unstuck, sweep_tenant-rows, sweep_tenant-Unstuck}

-- claimed at 100 by a worker that died
abbrev crashed : Document
crashed = record {
  id = 1;
  tenant = 7;
  created_at = 50;
  status = processing;
  deleted = false;
  processing_started_at = some 100;
  processing_attempts = 1;
  timeout_attempts = [];
  parse_lost_attempts = [];
  dispatched_at = some 90;
  retry_at = none;
  waiting_since = none;
  wait_cause = none;
  last_wait_error = none;
  failure_code = none;
  processed_at = none;
  cells = [];
}

abbrev crashed_often : Document
crashed_often = record crashed { id = 2; created_at = 40; processing_attempts = 3 }

abbrev lost_job : Document
lost_job = record crashed {
  id = 3;
  created_at = 30;
  status = pending;
  processing_started_at = none;
}

abbrev fresh : Document
fresh = record crashed { id = 4; processing_started_at = some 9000 }

abbrev slow_export : Job
slow_export = record {
  id = 5;
  tenant = 7;
  status = JobStatus.unfinished;
  deleted = false;
  started_at = 60;
  error_code = none;
  generated_at = none;
}

abbrev tables : Tables
tables = record {
  documents = crashed ∷ crashed_often ∷ lost_job ∷ fresh ∷ [];
  exports = slow_export ∷ [];
  imports = [];
}

documents-Unique : Unique tables.documents
documents-Unique = (
  (omega arith, (omega arith, (omega arith, tt))),
  ((omega arith, (omega arith, tt)), ((omega arith, tt), (tt, tt))),
)

sweep_tenant-rows_example :
    (out : Tables × SweepResult × List Effect) × (sweep_tenant 9001 7 30 3 tables ≡ ok out)
    × (out.0.documents ≡ map (after_sweep 9001 7 30 3) tables.documents)
    × (out.1.requeued ≡ retried_ids 9001 30 3 (stale_rows 9001 30 tables.documents))
sweep_tenant-rows_example = sweep_tenant-rows 9001 7 30 3 tables documents-Unique

sweep_tenant-Unstuck_example :
    (out : Tables × SweepResult × List Effect) × (sweep_tenant 9001 7 30 3 tables ≡ ok out)
    × (out.0.documents ≡ map (after_sweep 9001 7 30 3) tables.documents)
    × All (Unstuck 9001 7 30 3 out.1.requeued) tables.documents
sweep_tenant-Unstuck_example = sweep_tenant-Unstuck 9001 7 30 3 tables documents-Unique

abbrev result_of : Result (Tables × SweepResult × List Effect) → SweepResult
result_of (ok out) = out.1
result_of Result.illegal = record {
  requeued = [];
  failed = [];
  lost_jobs = [];
  wait_limit_failed = [];
  exports_failed = [];
  imports_failed = [];
}

one_of_each : result_of (sweep_tenant 9001 7 30 3 tables) ≡ record {
  requeued = 1 ∷ [];
  failed = 2 ∷ [];
  lost_jobs = 3 ∷ [];
  wait_limit_failed = [];
  exports_failed = 5 ∷ [];
  imports_failed = [];
}
unfolding sweep_tenant visit_rows return_to_waiting fail_unfinished_exports_and_imports transition
    check check_each assignments fail_provider_waits_past decide sort insert
one_of_each = refl
