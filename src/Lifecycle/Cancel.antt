-- ===== src/Lifecycle/Cancel.antt =====
-- The rules of a cancellation and `cancel` of packages/core/docflow_core/lifecycle.py.
use text.Mathlib.Text.{◌==◌ as str_eq}
use doc_flow.Prelude.{
  ℕ, ◌+◌, String, Bool, true, false, not, ◌&&◌, Option, none, some, length, ltb, if◌then◌else◌,
  is_some,
}
use doc_flow.Prelude.Sort.{Text}
use doc_flow.Matching.Keys.{strip}
use doc_flow.Lifecycle.Row.{
  Reason, Outcome, ◌>>=◌, Tenant, World, cure_period_days, days, emit, mail_owner, is_active,
  cancelling, customer_requested, non_payment, for_cause, unknown, con_001, life_001, life_002,
  life_003, refused, ok, event,
}

pub record EffectiveDatePlan : Type 0 where
  pub effective_at : ℕ
  pub rule : String
  pub flagged : Bool

abbrev pub from_period_end : ℕ → Option ℕ → EffectiveDatePlan
from_period_end now none = record {
  effective_at = now;
  rule = "no billing period on record: immediate";
  flagged = true;
}
from_period_end now (some period_end) = record {
  effective_at = period_end;
  rule = "end of the current billing period";
  flagged = false;
}

abbrev pub from_past_due : ℕ → Option ℕ → EffectiveDatePlan
from_past_due now none = record {
  effective_at = now + days cure_period_days;
  rule = "14 days from the first past-due notice";
  flagged = true;
}
from_past_due now (some first_past_due) = record {
  effective_at = first_past_due + days cure_period_days;
  rule = "14 days from the first past-due notice";
  flagged = false;
}

-- of the row that was found
unfoldable pub compute_effective_at : ℕ → Tenant → Reason → Outcome EffectiveDatePlan
compute_effective_at now t customer_requested = ok (
    if is_some t.stripe_subscription_id
    then from_period_end now t.stripe_current_period_end
    else record { effective_at = now; rule = "no subscription yet: immediate"; flagged = false })
compute_effective_at now t non_payment = ok (from_past_due now t.first_past_due_at)
compute_effective_at now t for_cause =
    ok (record { effective_at = now; rule = "immediate (for cause)"; flagged = false })
compute_effective_at now t unknown = refused life_001

-- `not note_text or len(note_text.strip()) < 20`
abbrev pub is_short : Option Text → Bool
is_short none = true
is_short (some note_text) = ltb (length (strip note_text)) 20

abbrev pub is_for_cause : Reason → Bool
is_for_cause for_cause = true
is_for_cause customer_requested = false
is_for_cause non_payment = false
is_for_cause unknown = false

abbrev pub is_unknown : Reason → Bool
is_unknown unknown = true
is_unknown customer_requested = false
is_unknown non_payment = false
is_unknown for_cause = false

-- the later date that was asked for, or the rule's
abbrev pub effective_of : Option ℕ → EffectiveDatePlan → Outcome ℕ
effective_of none plan = ok plan.effective_at
effective_of (some override_at) plan =
    if ltb override_at plan.effective_at then refused life_003 else ok override_at

unfoldable pub check_cancel :
    ℕ → Option Tenant → Reason → Option Text → Option ℕ → Outcome (Tenant × ℕ × EffectiveDatePlan)
check_cancel now none reason note_text override_at =
    if is_unknown reason then refused life_001 else refused con_001
check_cancel now (some t) reason note_text override_at =
    if is_unknown reason
    then refused life_001
    else if not (is_active t.status)
    then refused life_001
    else if is_for_cause reason && is_short note_text
    then refused life_002
    else (compute_effective_at now t reason >>= λ plan.
        effective_of override_at plan >>= λ effective_at. ok (t, effective_at, plan))

abbrev pub cancelled_row : ℕ → ℕ → Reason → Tenant → Tenant
cancelled_row now effective_at reason t = record t {
  status = cancelling;
  status_changed_at = now;
  cancellation_effective_at = some effective_at;
  cancellation_reason = some reason;
}

unfoldable pub cancel : ℕ → Reason → Option Text → Option ℕ → World → Outcome World
cancel now reason note_text override_at w =
    check_cancel now w.tenant reason note_text override_at >>= λ checked. ok (
      emit (event "cancellation_scheduled") (
        mail_owner "cancellation_confirmed"
          (record w { tenant = some (cancelled_row now checked.1 reason checked.0) })))

abbrev pub is_trialing : Option String → Bool
is_trialing none = false
is_trialing (some s) = str_eq s "trialing"

abbrev pub pair_of : Option ℕ → Option ℕ → Option (ℕ × ℕ)
pair_of none customer = none
pair_of (some subscription) none = none
pair_of (some subscription) (some customer) = some (subscription, customer)

-- the subscription and the customer of a trial that must end with nothing charged
unfoldable pub trial_cancel_target :
    ℕ → Reason → Option Text → Option ℕ → World → Outcome (Option (ℕ × ℕ))
trial_cancel_target now reason note_text override_at w =
    check_cancel now w.tenant reason note_text override_at >>= λ checked. ok (
      if is_trialing checked.0.stripe_subscription_status
      then pair_of checked.0.stripe_subscription_id checked.0.stripe_customer_id
      else none)
