-- ===== src/Status/Tests.antt =====
-- Runs of the operations of packages/core/docflow_core/document_status.py on a small table, and
-- the theorems at such runs.
use doc_flow.Prelude.{true, false, ◌≡◌, refl, none, some, List, [], ◌∷◌, arith}
use doc_flow.Status.Table.{pending, processing, needs_review, failed, approved}
use doc_flow.Status.Row.{Document, Value, column}
use doc_flow.Status.Ops.{ok, illegal, check, assignments, transition}
use doc_flow.Status.Claims.{
  claim_for_processing, to_waiting, fail_provider_waits_past, waited_seconds,
}
use doc_flow.Status.Moves.{Pointwise, Follows}
use doc_flow.Status.Lifetime.{Change, Changes, StaysInReview, Change-Follows, review_is_final}
use doc_flow.Status.Claiming.{Unique, claim_excludes, wait_holds_off_claims}

abbrev waiting : Document
waiting = record {
  id = 1;
  tenant = 7;
  created_at = 10;
  status = pending;
  deleted = false;
  processing_started_at = none;
  processing_attempts = 0;
  timeout_attempts = [];
  parse_lost_attempts = [];
  dispatched_at = some 90;
  retry_at = none;
  waiting_since = none;
  wait_cause = none;
  last_wait_error = none;
  failure_code = none;
  processed_at = none;
  cells = [];
}

abbrev order : Document
order = record waiting { id = 2; status = approved }

abbrev docs : List Document
docs = waiting ∷ order ∷ []

docs-Unique : Unique docs
docs-Unique = ((omega arith, tt), (tt, tt))

claim_once : (claim_for_processing 100 docs 1 30).1 ≡ true
unfolding claim_for_processing
claim_once = refl

claim_of_an_order : claim_for_processing 100 docs 2 30 ≡ (docs, false)
unfolding claim_for_processing
claim_of_an_order = refl

claim_excludes_example :
    (claim_for_processing 1900 (claim_for_processing 100 docs 1 30).0 1 30).1 ≡ false
claim_excludes_example = claim_excludes 100 1900 docs 1 30 docs-Unique claim_once (omega arith)

-- Claimed at 100, given back at 130 for a minute.
abbrev held : List Document
held =
    record waiting {
      status = pending;
      dispatched_at = none;
      waiting_since = some 130;
      wait_cause = some "storage";
      retry_at = some 190;
      last_wait_error = some "503";
    }
    ∷ order
    ∷ []

in_hand : List Document
in_hand =
    record waiting {
      status = processing;
      processing_started_at = some 100;
      processing_attempts = 1;
    }
    ∷ order
    ∷ []

in_hand-waits : to_waiting 130 in_hand 1 "storage" 60 "503" ≡ some (held, true)
unfolding to_waiting in_hand
in_hand-waits = refl

in_hand-Unique : Unique in_hand
unfolding in_hand
in_hand-Unique = ((omega arith, tt), (tt, tt))

wait_holds_off_claims_example : (claim_for_processing 189 held 1 30).1 ≡ false
wait_holds_off_claims_example =
    wait_holds_off_claims 130 189 in_hand 1 "storage" 60 "503" 30 in_hand-Unique in_hand-waits
      (omega arith)

waited_a_minute : waited_seconds 190 held 1 "storage" ≡ some 60
unfolding waited_seconds
waited_a_minute = refl

-- Seven hours on the provider, with a limit of six.
abbrev outage : List Document
outage = record waiting { wait_cause = some "model_provider"; waiting_since = some 0 } ∷ order ∷ []

outage_failed : (fail_provider_waits_past 25200 outage 6 "DOC-024").1 ≡ 1 ∷ []
unfolding fail_provider_waits_past
outage_failed = refl

-- An order is not put back to processing, whatever the caller expects of its status.
order_not_reprocessed : transition 100 docs 2 (approved ∷ []) processing [] ≡ illegal
unfolding transition check assignments
order_not_reprocessed = refl

unknown_column_refused :
    transition 100 docs 1 (pending ∷ []) failed (column "password" Value.null ∷ []) ≡ illegal
unfolding transition check assignments
unknown_column_refused = refl

abbrev reopened : List Document
reopened = waiting ∷ record order { status = needs_review } ∷ []

reopen : transition 100 docs 2 (approved ∷ []) needs_review [] ≡ ok (reopened, true)
unfolding transition check assignments
reopen = refl

reopen-Change : Change docs reopened
reopen-Change = Change.moved 100 2 (approved ∷ []) needs_review [] true reopen

Change-Follows_example : Pointwise Follows docs reopened
Change-Follows_example = Change-Follows reopen-Change

review_is_final_example : Pointwise StaysInReview docs reopened
review_is_final_example = review_is_final (Changes.next Changes.here reopen-Change)
