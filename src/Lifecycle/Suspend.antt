-- ===== src/Lifecycle/Suspend.antt =====
-- The sweep's claim of a tenant that is due, packages/core/docflow_core/lifecycle.py.
use doc_flow.Prelude.{
  ℕ, ◌+◌, ◌/◌, Bool, false, ◌||◌, Option, none, some, List, [], ◌∷◌, ◌++◌, any, leb, ◌==◌,
  if◌then◌else◌, is_some,
}
use doc_flow.Lifecycle.Row.{
  Tenant, Reminder, World, export_window_days, reminder_days, days, emit, mail_owner, is_cancelling,
  pending_deletion, pending, event, alert,
}

-- ON CONFLICT (dedupe_key) DO NOTHING
abbrev pub schedule_reminder : ℕ → ℕ → List Reminder → List Reminder
schedule_reminder now day reminders =
    let run_at = now + days day in
    if any (λ r. r.run_at / 86400 == run_at / 86400) reminders
    then reminders
    else reminders ++ record { run_at = run_at; status = pending } ∷ []

abbrev pub schedule_each : ℕ → List ℕ → List Reminder → List Reminder
schedule_each now [] reminders = reminders
schedule_each now (day ∷ rest) reminders =
    schedule_each now rest (schedule_reminder now day reminders)

-- `cancellation_effective_at <= now()`; NULL is not due
abbrev pub is_due : ℕ → Option ℕ → Bool
is_due now none = false
is_due now (some t) = leb t now

abbrev pub suspended_row : ℕ → Tenant → Tenant
suspended_row now t = record t {
  status = pending_deletion;
  status_changed_at = now;
  intake_address_active = false;
  deletion_scheduled_at = some (now + days export_window_days);
  stripe_cancel_pending_at =
      if is_some t.stripe_subscription_id || is_some t.stripe_customer_id then some now else none;
}

abbrev pub suspend : ℕ → Tenant → World → World
suspend now t w =
    let written = mail_owner "suspended_notice" (
      emit (event "pending_deletion_entered")
        (emit (event "suspended") (record w { tenant = some (suspended_row now t) }))) in
    emit (alert "tenant_entered_pending_deletion")
      (record written { reminders = schedule_each now reminder_days written.reminders })

-- `none`: the tenant is not, or no longer, due
abbrev pub suspend_if : ℕ → Option Tenant → World → Option World
suspend_if now none w = none
suspend_if now (some t) w =
    if is_cancelling t.status
    then (if is_due now t.cancellation_effective_at then some (suspend now t w) else none)
    else none

unfoldable pub claim_for_suspend : ℕ → World → Option World
claim_for_suspend now w = suspend_if now w.tenant w
