-- ===== src/Lifecycle/Return.antt =====
-- The retry of the billing cancel and the reactivation, packages/core/docflow_core/lifecycle.py. The
-- payment provider's answers are given.
use doc_flow.Prelude.{
  ℕ, String, Bool, true, false, Option, none, some, map, ◌==◌, if◌then◌else◌, is_some,
}
use doc_flow.Lifecycle.Row.{
  Outcome, Tenant, JobStatus, Reminder, Effect, World, emit, mail_owner, is_reactivatable, active,
  con_001, life_004, refused, ok, pending, done, event, alert, cancel_subscription,
  void_pending_setup_fee,
}

-- Whether the payment provider did what each call asks.
pub record Stripe : Type 0 where
  pub cancels_subscription : Bool
  pub voids_setup_fee : Bool

pub data Settled : Type 0 where
  nothing_owed skipped cancelled failed : Settled

abbrev pub clear_pending_cancel : Tenant → World → World
clear_pending_cancel t w = record w { tenant = some (record t { stripe_cancel_pending_at = none }) }

-- one call of the provider, if there is an id, and whether to go on
abbrev pub call_if : (ℕ → Effect) → Bool → Option ℕ → World → World × Bool
call_if call succeeds none w = (w, true)
call_if call succeeds (some id) w = (emit (call id) w, succeeds)

abbrev pub cleared_or_failed : Tenant → World × Bool → World × Settled
cleared_or_failed t (w, true) = (clear_pending_cancel t w, cancelled)
cleared_or_failed t (w, false) = (emit (alert "stripe_cancel_failed") w, failed)

abbrev pub void_next : Stripe → Tenant → World × Bool → World × Bool
void_next stripe t (w, true) =
    call_if void_pending_setup_fee stripe.voids_setup_fee t.stripe_customer_id w
void_next stripe t (w, false) = (w, false)

abbrev pub settle_owed : Stripe → Tenant → World → World × Settled
settle_owed stripe t w =
    if is_reactivatable t.status
    then cleared_or_failed t (
        void_next stripe t
          (call_if cancel_subscription stripe.cancels_subscription t.stripe_subscription_id w))
    else (clear_pending_cancel t w, skipped)

abbrev pub settle_if : Stripe → Option Tenant → World → World × Settled
settle_if stripe none w = (w, nothing_owed)
settle_if stripe (some t) w =
    if is_some t.stripe_cancel_pending_at then settle_owed stripe t w else (w, nothing_owed)

unfoldable pub process_pending_cancel : Stripe → World → World × Settled
process_pending_cancel stripe w = settle_if stripe w.tenant w

pub record ReactivateBilling : Type 0 where
  pub subscription_id : Option ℕ
  pub subscription_status : Option String
  pub current_period_end : Option ℕ

-- the time zero is no time
abbrev pub nonzero : Option ℕ → Option ℕ
nonzero none = none
nonzero (some t) = if t == 0 then none else some t

abbrev pub reactivated_row : ℕ → ReactivateBilling → Tenant → Tenant
reactivated_row now billing t = record t {
  status = active;
  status_changed_at = now;
  cancellation_effective_at = none;
  cancellation_reason = none;
  deletion_scheduled_at = none;
  first_past_due_at = none;
  intake_address_active = true;
  stripe_subscription_id = billing.subscription_id;
  stripe_subscription_status = billing.subscription_status;
  stripe_current_period_end = nonzero billing.current_period_end;
  founding_price_ends_at = none;
  stripe_cancel_pending_at = none;
}

abbrev pub not_pending : JobStatus → JobStatus
not_pending pending = JobStatus.cancelled
not_pending JobStatus.cancelled = JobStatus.cancelled
not_pending done = done

abbrev pub drop_pending : Reminder → Reminder
drop_pending r = record r { status = not_pending r.status }

abbrev pub reactivate_if : ℕ → ReactivateBilling → Option Tenant → World → Outcome World
reactivate_if now billing none w = refused con_001
reactivate_if now billing (some t) w =
    if is_reactivatable t.status
    then ok (
        emit (event "reactivated") (
          mail_owner "reactivated" (record w {
            tenant = some (reactivated_row now billing t);
            reminders = map drop_pending w.reminders;
          })))
    else refused life_004

unfoldable pub complete_reactivate : ℕ → ReactivateBilling → World → Outcome World
complete_reactivate now billing w = reactivate_if now billing w.tenant w
