-- ===== src/Sweep/Tables.antt =====
-- The tables and the results of the sweep, packages/core/docflow_core/stuck_documents.py.
use doc_flow.Prelude.{ℕ, String, Bool, Option, List}
use doc_flow.Status.Row.{Document}
use doc_flow.Retry.{Cause, Detail}

abbrev pub stuck_code : String
stuck_code = "DOC-022"

abbrev pub export_not_finished_code : String
export_not_finished_code = "EXP-009"

abbrev pub provider_wait_limit_code : String
provider_wait_limit_code = "DOC-024"

abbrev pub import_not_finished_code : String
import_not_finished_code = "IMP-009"

abbrev pub stuck_processing_timeout_min : ℕ
stuck_processing_timeout_min = 30

abbrev pub provider_max_wait_hours : ℕ
provider_max_wait_hours = 6

abbrev pub exports_not_finished_alert_per_day : ℕ
exports_not_finished_alert_per_day = 3

pub data Effect : Type 0 where
  lost_runs_closed : ℕ → Effect
  failure_alert : String → ℕ → Option (Cause × Detail) → Effect
  lost_jobs_alert : ℕ → ℕ → Effect
  exports_alert : ℕ → Effect
  enqueued : ℕ → ℕ → Effect

pub data JobStatus : Type 0 where
  unfinished finished failed : JobStatus

-- A row of `exports` or of `catalog_imports`: `unfinished` is `pending` in the one and `parsing` in the
-- other, and the time is when it was requested or created.
pub record Job : Type 0 where
  pub id : ℕ
  pub tenant : ℕ
  pub status : JobStatus
  pub deleted : Bool
  pub started_at : ℕ
  pub error_code : Option String
  pub generated_at : Option ℕ

pub record Tables : Type 0 where
  pub documents : List Document
  pub exports : List Job
  pub imports : List Job

pub record SweepResult : Type 0 where
  pub requeued : List ℕ
  pub failed : List ℕ
  pub lost_jobs : List ℕ
  pub wait_limit_failed : List ℕ
  pub exports_failed : List ℕ
  pub imports_failed : List ℕ
