-- ===== src/Lifecycle/Tests.antt =====
-- The life of one tenant as runs, and the witnesses.
use doc_flow.Prelude.{◌≡◌, ◌≢◌, refl, true, false, Option, none, some, [], any}
use doc_flow.Lifecycle.Row.{
  active, customer_requested, for_cause, Outcome, refused, ok, life_002, life_003, Tenant, World,
}
use doc_flow.Lifecycle.Cancel.{compute_effective_at, check_cancel, cancel, trial_cancel_target}
use doc_flow.Lifecycle.Suspend.{claim_for_suspend}
use doc_flow.Lifecycle.Return.{
  Stripe, nothing_owed, Settled, process_pending_cancel, ReactivateBilling, complete_reactivate,
}
use doc_flow.Matching.Keys.{lstrip, rstrip}
use doc_flow.Export.Csv.{codes}
use doc_flow.Lifecycle.Sound.{IsSound, is_pending}
use doc_flow.Lifecycle.Steps.{Step, start, next, Steps-IsSound}
use doc_flow.Lifecycle.Billing.{suspended_once, reactivated_keeps_billing}

abbrev customer : Tenant
customer = record {
  status = active;
  status_changed_at = 0;
  intake_address_active = true;
  cancellation_effective_at = none;
  cancellation_reason = none;
  deletion_scheduled_at = none;
  first_past_due_at = none;
  stripe_subscription_id = some 31;
  stripe_customer_id = some 32;
  stripe_subscription_status = some "trialing";
  stripe_current_period_end = some 5000;
  stripe_cancel_pending_at = none;
  founding_price_ends_at = none;
}

abbrev live : World
live = record { tenant = some customer; has_owner = true; reminders = []; effects = [] }

abbrev world_of : Outcome World → World
world_of (ok w) = w
world_of (refused c) = live

abbrev claimed_of : Option World → World
claimed_of (some w) = w
claimed_of none = live

abbrev leaving : World
leaving = world_of (cancel 1000 customer_requested none none live)

abbrev gone : World
gone = claimed_of (claim_for_suspend 6000 leaving)

abbrev provider_is_up : Stripe
provider_is_up = record { cancels_subscription = true; voids_setup_fee = true }

abbrev billing : ReactivateBilling
billing = record {
  subscription_id = some 33;
  subscription_status = some "active";
  current_period_end = some 90000;
}

abbrev back : World
back = world_of (complete_reactivate 7000 billing gone)

leaves : cancel 1000 customer_requested none none live ≡ ok leaving
unfolding cancel check_cancel compute_effective_at
leaves = refl

is_gone : claim_for_suspend 6000 leaving ≡ some gone
unfolding claim_for_suspend cancel check_cancel compute_effective_at
is_gone = refl

comes_back : complete_reactivate 7000 billing gone ≡ ok back
unfolding complete_reactivate claim_for_suspend cancel check_cancel compute_effective_at
comes_back = refl

Steps-IsSound_example : IsSound back
Steps-IsSound_example =
    Steps-IsSound
      (next
        (next (next start (Step.cancels 1000 customer_requested none none leaves))
          (Step.suspends 6000 is_gone))
        (Step.reactivates 7000 billing comes_back))
      (refl, (refl, refl, refl))

suspended_once_example : claim_for_suspend 6060 gone ≡ none
suspended_once_example = suspended_once 6000 6060 leaving gone is_gone

reactivated_keeps_billing_example :
    process_pending_cancel provider_is_up back ≡ (back, nothing_owed)
reactivated_keeps_billing_example =
    reactivated_keeps_billing 7000 billing provider_is_up gone back comes_back

cause_wants_a_note : cancel 1000 for_cause none none live ≡ refused life_002
unfolding cancel check_cancel
cause_wants_a_note = refl

no_earlier_date : cancel 1000 customer_requested none (some 4000) live ≡ refused life_003
unfolding cancel check_cancel compute_effective_at
no_earlier_date = refl

trial_ends : trial_cancel_target 1000 customer_requested none none live ≡ ok (some (31, 32))
unfolding trial_cancel_target check_cancel compute_effective_at
trial_ends = refl

billing_is_cancelled : (process_pending_cancel provider_is_up gone).1 ≡ Settled.cancelled
unfolding process_pending_cancel claim_for_suspend cancel check_cancel compute_effective_at
billing_is_cancelled = refl

-- cancelled and suspended again on the day of the first time: the dropped reminders keep their keys
abbrev gone_again : World
gone_again = claimed_of (
    claim_for_suspend 8000
      (world_of (cancel 7500 for_cause (some (codes "repeated abuse of the service")) none back)))

is_gone_again : gone_again.tenant ≢ live.tenant
unfolding complete_reactivate claim_for_suspend cancel check_cancel compute_effective_at lstrip
    rstrip
is_gone_again e = cc

no_second_reminder : any is_pending gone_again.reminders ≡ false
unfolding complete_reactivate claim_for_suspend cancel check_cancel compute_effective_at lstrip
    rstrip
no_second_reminder = refl
