-- ===== src/Lifecycle/Billing.antt =====
-- When a tenant of packages/core/docflow_core/lifecycle.py is suspended, and what the retry of the billing
-- cancel does to one that came back.
use doc_flow.Prelude.{
  ℕ, ◌≡◌, refl, subst, true, Option, none, some, map, is_some, inl, inr, Bool-cases,
}
use doc_flow.Prelude.Sort.{Text}
use doc_flow.Lifecycle.Row.{
  Reason, Outcome, refused, ok, ◌>>=◌, Tenant, World, emit, event, mail_owner, is_reactivatable,
  is_cancelling,
}
use doc_flow.Lifecycle.Cancel.{EffectiveDatePlan, check_cancel, cancelled_row, cancel}
use doc_flow.Lifecycle.Suspend.{is_due, suspended_row, suspend, suspend_if, claim_for_suspend}
use doc_flow.Lifecycle.Return.{
  Stripe, nothing_owed, settle_if, process_pending_cancel, ReactivateBilling, reactivated_row,
  drop_pending, reactivate_if, complete_reactivate,
}
use doc_flow.Lifecycle.Sound.{mail_owner-tenant}

-- The date that a cancelled tenant's row holds.
abbrev pub agreed_date : Option Tenant → Option ℕ
agreed_date none = none
agreed_date (some t) = t.cancellation_effective_at

claim-cancelled :
    (now : ℕ) (t : Tenant) (w : World)
    → is_cancelling t.status ≡ true
    → is_some (suspend_if now (some t) w) ≡ is_due now t.cancellation_effective_at
claim-cancelled now t w e = elim (Bool-cases (is_due now t.cancellation_effective_at)) [
  | inl e' ↦ rw (e, e')
  | inr e' ↦ rw (e, e')
]

-- Once a cancellation is recorded, the sweep's claim of the tenant succeeds at exactly the times that the
-- recorded date is not after.
pub claim_for_suspend-cancel :
    (now t : ℕ) (reason : Reason) (note_text : Option Text) (override_at : Option ℕ) (w w' : World)
    → cancel now reason note_text override_at w ≡ ok w'
    → is_some (claim_for_suspend t w') ≡ is_due t (agreed_date w'.tenant)
unfolding cancel claim_for_suspend
claim_for_suspend-cancel now t reason note_text override_at w w' h =
    found (check_cancel now w.tenant reason note_text override_at) h
  where
    written : World → Tenant → World
    written v row =
        emit (event "cancellation_scheduled")
          (mail_owner "cancellation_confirmed" (record v { tenant = some row }))

    of_row :
        (row : Tenant) (v : World)
        → v.tenant ≡ some row
        → is_cancelling row.status ≡ true
        → is_some (suspend_if t v.tenant v) ≡ is_due t (agreed_date v.tenant)
    of_row row v e e' = rw e (claim-cancelled t row v e')

    found :
        (o : Outcome (Tenant × ℕ × EffectiveDatePlan))
        → (o >>= λ checked. ok (written w (cancelled_row now checked.1 reason checked.0))) ≡ ok w'
        → is_some (suspend_if t w'.tenant w') ≡ is_due t (agreed_date w'.tenant)
    found (refused c) k = absurd (cc k)
    found (ok checked) k =
        let row : Tenant = cancelled_row now checked.1 reason checked.0 in
        let same : written w row ≡ w' = cc k in
        subst (λ v. is_some (suspend_if t v.tenant v) ≡ is_due t (agreed_date v.tenant)) same
          (of_row row (written w row)
            (mail_owner-tenant "cancellation_confirmed" (record w { tenant = some row })) refl)

-- A tenant that the sweep has suspended is not suspended again, whenever the next sweep runs: no second
-- notice, and the date of deletion stands.
pub suspended_once :
    (now later : ℕ) (w w' : World)
    → claim_for_suspend now w ≡ some w'
    → claim_for_suspend later w' ≡ none
unfolding claim_for_suspend
suspended_once now later w w' h = found w.tenant h
  where
    after : (t : Tenant) → suspend_if later (suspend now t w).tenant (suspend now t w) ≡ none
    after t = rw (
        mail_owner-tenant "suspended_notice" (
          emit (event "pending_deletion_entered")
            (emit (event "suspended") (record w { tenant = some (suspended_row now t) }))))

    found :
        (o : Option Tenant) → suspend_if now o w ≡ some w' → suspend_if later w'.tenant w' ≡ none
    found none k = absurd (cc k)
    found (some t) k = elim (Bool-cases (is_cancelling t.status)) [
      | inr e ↦ absurd (cc (rw e at k))
      | inl e ↦ elim (Bool-cases (is_due now t.cancellation_effective_at)) [
        | inr e' ↦ absurd (cc (rw (e, e') at k))
        | inl e' ↦
            let same : suspend now t w ≡ w' = cc (rw (e, e') at k) in
            subst (λ v. suspend_if later v.tenant v ≡ none) same (after t)
      ]
    ]

-- After a reactivation nothing is owed: whatever the payment provider would answer, the retry of the
-- billing cancel makes no call and changes nothing, so the new subscription stands.
pub reactivated_keeps_billing :
    (now : ℕ) (billing : ReactivateBilling) (stripe : Stripe) (w w' : World)
    → complete_reactivate now billing w ≡ ok w'
    → process_pending_cancel stripe w' ≡ (w', nothing_owed)
unfolding complete_reactivate process_pending_cancel
reactivated_keeps_billing now billing stripe w w' h = found w.tenant h
  where
    back : Tenant → World
    back t = emit (event "reactivated") (
        mail_owner "reactivated" (record w {
          tenant = some (reactivated_row now billing t);
          reminders = map drop_pending w.reminders;
        }))

    of_row :
        (t : Tenant) (v : World)
        → v.tenant ≡ some (reactivated_row now billing t)
        → settle_if stripe v.tenant v ≡ (v, nothing_owed)
    of_row t v e = rw e

    found :
        (o : Option Tenant)
        → reactivate_if now billing o w ≡ ok w'
        → settle_if stripe w'.tenant w' ≡ (w', nothing_owed)
    found none k = absurd (cc k)
    found (some t) k = elim (Bool-cases (is_reactivatable t.status)) [
      | inr e ↦ absurd (cc (rw e at k))
      | inl e ↦
          let same : back t ≡ w' = cc (rw e at k) in
          subst (λ v. settle_if stripe v.tenant v ≡ (v, nothing_owed)) same
            (of_row t (back t) (
              mail_owner-tenant "reactivated" (record w {
                tenant = some (reactivated_row now billing t);
                reminders = map drop_pending w.reminders;
              })))
    ]
