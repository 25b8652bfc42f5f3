-- ===== src/Retry/Tests.antt =====
-- The table of `decide` in packages/core/docflow_core/retry_rules.py, row by row, and its theorems
-- at runs of it.
use doc_flow.Prelude.{◌<◌, true, false, ◌≡◌, refl, none, some, List, [], ◌∷◌, arith, length}
use doc_flow.Status.Table.{pending}
use doc_flow.Status.Row.{Document}
use doc_flow.Retry.{
  timeout, worker_stopped, retry, fail, max_processing_attempts, decide, failure_detail,
}
use doc_flow.Retry.Bounds.{Ending, stopped, timed_out, Retried, timeouts_last, tries_bounded}

crash_crash_timeout : decide 3 (3 ∷ []) max_processing_attempts [] ≡ fail timeout
unfolding decide
crash_crash_timeout = refl

three_crashes : decide 3 [] max_processing_attempts [] ≡ fail worker_stopped
unfolding decide
three_crashes = refl

one_timeout : decide 1 (1 ∷ []) max_processing_attempts [] ≡ retry
unfolding decide
one_timeout = refl

timeout_then_crash : decide 2 [] max_processing_attempts (1 ∷ []) ≡ fail timeout
unfolding decide
timeout_then_crash = refl

both_kinds : failure_detail 2 (2 ∷ []) (1 ∷ []) (some "") ≡ record {
  attempts = 2;
  timed_out_attempts = 2 ∷ [];
  parse_lost_attempts = some (1 ∷ []);
  last_lost_reason = none;
  cause_detail = some "task_time_limit+parse_lost";
}
unfolding failure_detail
both_kinds = refl

abbrev fresh : Document
fresh = record {
  id = 1;
  tenant = 7;
  created_at = 10;
  status = pending;
  deleted = false;
  processing_started_at = none;
  processing_attempts = 0;
  timeout_attempts = [];
  parse_lost_attempts = [];
  dispatched_at = none;
  retry_at = none;
  waiting_since = none;
  wait_cause = none;
  last_wait_error = none;
  failure_code = none;
  processed_at = none;
  cells = [];
}

abbrev endings : List Ending
endings = stopped ∷ timed_out ∷ []

endings-Retried : Retried max_processing_attempts 100 fresh endings
unfolding decide
endings-Retried = (refl, (refl, tt))

tries_bounded_example : (length endings < max_processing_attempts) × (timeouts_last endings ≡ true)
tries_bounded_example =
    tries_bounded max_processing_attempts 100 fresh endings (omega arith) (refl, refl, refl)
      endings-Retried
