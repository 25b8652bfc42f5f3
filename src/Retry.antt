-- ===== src/Retry.antt =====
-- How many tries a document gets: packages/core/docflow_core/retry_rules.py. `set(a) | set(b)` is
-- read by its emptiness and its least element only, so the union is the two lists joined.
pub mod Bounds
mod Tests
use Prim.Native.String
use doc_flow.Prelude.{
  ℕ, String, Bool, true, false, not, ◌&&◌, Option, none, some, List, [], ◌∷◌, ◌++◌, min, leb, ltb,
  if◌then◌else◌,
}

abbrev pub max_processing_attempts : ℕ
max_processing_attempts = 3

pub data Cause : Type 0 where
  timeout worker_stopped : Cause

pub data Decision : Type 0 where
  retry : Decision
  fail : Cause → Decision

-- the truth value of a list or a set
abbrev pub nonempty : List ℕ → Bool
nonempty [] = false
nonempty (x ∷ xs) = true

-- `min(s)` of a set that is not empty
abbrev pub least : List ℕ → ℕ
least [] = 0
least (x ∷ []) = x
least (x ∷ y ∷ ys) = min x (least (y ∷ ys))

unfoldable pub decide : ℕ → List ℕ → ℕ → List ℕ → Decision
decide processing_attempts timeout_attempts max_attempts parse_lost_attempts =
    let timeout_class = timeout_attempts ++ parse_lost_attempts in
    if leb max_attempts processing_attempts
    then fail (if nonempty timeout_class then timeout else worker_stopped)
    else if nonempty timeout_class && ltb (least timeout_class) processing_attempts
    then fail timeout
    else retry

-- The keys of the alert's payload; one that the dict lacks is `none`.
pub record Detail : Type 0 where
  pub attempts : ℕ
  pub timed_out_attempts : List ℕ
  pub parse_lost_attempts : Option (List ℕ)
  pub last_lost_reason : Option String
  pub cause_detail : Option String

-- `"+".join(kinds)` if `kinds`
abbrev pub cause_detail_of : Bool → Bool → Option String
cause_detail_of true true = some "task_time_limit+parse_lost"
cause_detail_of true false = some "task_time_limit"
cause_detail_of false true = some "parse_lost"
cause_detail_of false false = none

-- `if last_lost_reason`: an empty text is dropped too
abbrev pub reason_of : Option String → Option String
reason_of none = none
reason_of (some String.[]) = none
reason_of (some (String.◌∷◌ c s)) = some (String.◌∷◌ c s)

unfoldable pub failure_detail : ℕ → List ℕ → List ℕ → Option String → Detail
failure_detail attempts timeouts lost last_lost_reason = record {
  attempts = attempts;
  timed_out_attempts = timeouts;
  parse_lost_attempts = if nonempty lost then some lost else none;
  last_lost_reason = reason_of last_lost_reason;
  cause_detail = cause_detail_of (nonempty timeouts) (nonempty lost);
}
