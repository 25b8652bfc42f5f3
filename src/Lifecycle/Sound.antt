-- ===== src/Lifecycle/Sound.antt =====
-- What holds of a tenant's row and reminders in each status, through any sequence of the operations of
-- packages/core/docflow_core/lifecycle.py.
use doc_flow.Prelude.{
  ℕ, ◌+◌, ◌≤◌, ◌≡◌, refl, sym, ap, subst, String, Bool, true, false, ◌&&◌, Option, none, some, List,
  any, leb→le, is_some, inl, inr, Bool-cases, arith,
}
use doc_flow.Prelude.Sort.{Text}
use doc_flow.Lifecycle.Row.{
  TenantStatus, active, cancelling, suspended, pending_deletion, deleted, Reason, Outcome, refused,
  ok, ◌>>=◌, Tenant, JobStatus, pending, done, Reminder, World, days, export_window_days, is_active,
  is_cancelling, emit, event, mail_owner,
}
use doc_flow.Lifecycle.Cancel.{
  is_unknown, is_for_cause, is_short, EffectiveDatePlan, compute_effective_at, effective_of,
  check_cancel, cancelled_row, cancel,
}
use doc_flow.Lifecycle.Suspend.{is_due, suspended_row, suspend, suspend_if, claim_for_suspend}

abbrev pub waits : JobStatus → Bool
waits pending = true
waits JobStatus.cancelled = false
waits done = false

abbrev pub is_pending : Reminder → Bool
is_pending r = waits r.status

-- Nothing of an earlier cancellation is left: no date of deletion, no bill to cancel, no reminder to send.
abbrev pub Untouched : Tenant → List Reminder → Type 0
Untouched t reminders =
    (t.deletion_scheduled_at ≡ none)
    × (t.stripe_cancel_pending_at ≡ none)
    × (any is_pending reminders ≡ false)

-- The export window: the row is deleted thirty days after the date that was agreed on, or later.
abbrev pub HasWindow : Tenant → Type 0
HasWindow t =
    (agreed : ℕ) × (deletion : ℕ) × (t.cancellation_effective_at ≡ some agreed)
    × (t.deletion_scheduled_at ≡ some deletion)
    × (agreed + days export_window_days ≤ deletion)

abbrev pub SoundRow : TenantStatus → Tenant → List Reminder → Type 0
SoundRow active t reminders = (t.cancellation_effective_at ≡ none) × Untouched t reminders
SoundRow cancelling t reminders =
    (is_some t.cancellation_effective_at ≡ true) × Untouched t reminders
SoundRow pending_deletion t reminders = (t.intake_address_active ≡ false) × HasWindow t
SoundRow suspended t reminders = Unit
SoundRow deleted t reminders = Unit

abbrev pub SoundOf : Option Tenant → List Reminder → Type 0
SoundOf none reminders = Unit
SoundOf (some t) reminders = SoundRow t.status t reminders

abbrev pub IsSound : World → Type 0
IsSound w = SoundOf w.tenant w.reminders

active_of : (s : TenantStatus) → is_active s ≡ true → s ≡ active
active_of active h = refl
active_of cancelling h = absurd (cc h)
active_of suspended h = absurd (cc h)
active_of pending_deletion h = absurd (cc h)
active_of deleted h = absurd (cc h)

cancelling_of : (s : TenantStatus) → is_cancelling s ≡ true → s ≡ cancelling
cancelling_of cancelling h = refl
cancelling_of active h = absurd (cc h)
cancelling_of suspended h = absurd (cc h)
cancelling_of pending_deletion h = absurd (cc h)
cancelling_of deleted h = absurd (cc h)

-- what a cancel is allowed for
pub check_cancel-active :
    (now : ℕ) (o : Option Tenant) (reason : Reason) (note_text : Option Text)
    (override_at : Option ℕ) {checked : Tenant × ℕ × EffectiveDatePlan}
    → check_cancel now o reason note_text override_at ≡ ok checked
    → (o ≡ some checked.0) × (checked.0.status ≡ active)
unfolding check_cancel
check_cancel-active now none reason note_text override_at h =
    elim (Bool-cases (is_unknown reason)) [
      | inl e ↦ absurd (cc (rw e at h))
      | inr e ↦ absurd (cc (rw e at h))
    ]
check_cancel-active now (some t) reason note_text override_at {checked} h =
    elim (Bool-cases (is_unknown reason)) [
      | inl e ↦ absurd (cc (rw e at h))
      | inr e ↦ elim (Bool-cases (is_active t.status)) [
        | inr e' ↦ absurd (cc (rw (e, e') at h))
        | inl e' ↦ elim (Bool-cases (is_for_cause reason && is_short note_text)) [
          | inl f ↦ absurd (cc (rw (e, e', f) at h))
          | inr f ↦
              let same : t ≡ checked.0 =
                planned (compute_effective_at now t reason) (rw (e, e', f) at h) in
              (ap some same, subst (λ x. x.status ≡ active) same (active_of t.status e'))
        ]
      ]
    ]
  where
    dated :
        (plan : EffectiveDatePlan) (o : Outcome ℕ)
        → (o >>= λ effective_at. ok (t, effective_at, plan)) ≡ ok checked
        → t ≡ checked.0
    dated plan (refused c) k = absurd (cc k)
    dated plan (ok effective_at) k = cc k

    planned :
        (o : Outcome EffectiveDatePlan)
        → (o >>= λ plan.
            effective_of override_at plan >>= λ effective_at. ok (t, effective_at, plan))
          ≡ ok checked
        → t ≡ checked.0
    planned (refused c) k = absurd (cc k)
    planned (ok plan) k = dated plan (effective_of override_at plan) k

pub mail_owner-tenant : (template : String) (w : World) → (mail_owner template w).tenant ≡ w.tenant
mail_owner-tenant template w = elim (Bool-cases w.has_owner) [ inl e ↦ rw e | inr e ↦ rw e ]

pub mail_owner-reminders :
    (template : String) (w : World) → (mail_owner template w).reminders ≡ w.reminders
mail_owner-reminders template w = elim (Bool-cases w.has_owner) [ inl e ↦ rw e | inr e ↦ rw e ]

pub sound_at :
    (o : Option Tenant) (t : Tenant) (s : TenantStatus) (reminders : List Reminder)
    → o ≡ some t
    → t.status ≡ s
    → SoundOf o reminders
    → SoundRow s t reminders
sound_at o t s reminders e e' h =
    subst (λ x. SoundRow x t reminders) e' (subst (λ x. SoundOf x reminders) e h)

-- mail does not touch the row
pub mailed : (template : String) (w : World) → IsSound w → IsSound (mail_owner template w)
mailed template w h =
    subst (λ o. SoundOf o (mail_owner template w).reminders) (sym (mail_owner-tenant template w))
      (subst (λ r. SoundOf w.tenant r) (sym (mail_owner-reminders template w)) h)

pub cancel-IsSound :
    (now : ℕ) (reason : Reason) (note_text : Option Text) (override_at : Option ℕ) (w w' : World)
    → cancel now reason note_text override_at w ≡ ok w'
    → IsSound w
    → IsSound w'
unfolding cancel
cancel-IsSound now reason note_text override_at w w' h sound =
    found (check_cancel now w.tenant reason note_text override_at) refl h
  where
    found :
        (o : Outcome (Tenant × ℕ × EffectiveDatePlan))
        → check_cancel now w.tenant reason note_text override_at ≡ o
        → (o >>= λ checked. ok (
            emit (event "cancellation_scheduled") (
              mail_owner "cancellation_confirmed"
                (record w { tenant = some (cancelled_row now checked.1 reason checked.0) }))))
          ≡ ok w'
        → IsSound w'
    found (refused c) e k = absurd (cc k)
    found (ok checked) e k =
        let allowed = check_cancel-active now w.tenant reason note_text override_at e in
        let before = sound_at w.tenant checked.0 active w.reminders allowed.0 allowed.1 sound in
        let v : World = record w { tenant = some (cancelled_row now checked.1 reason checked.0) } in
        let same : emit (event "cancellation_scheduled") (mail_owner "cancellation_confirmed" v)
            ≡ w' =
          cc k in
        subst IsSound same (mailed "cancellation_confirmed" v (refl, before.1))

due_date : (now : ℕ) (o : Option ℕ) → is_due now o ≡ true → (t : ℕ) × (o ≡ some t) × (t ≤ now)
due_date now none h = absurd (cc h)
due_date now (some t) h = (t, refl, leb→le t now h)

pub claim_for_suspend-IsSound :
    (now : ℕ) (w w' : World) → claim_for_suspend now w ≡ some w' → IsSound w → IsSound w'
unfolding claim_for_suspend
claim_for_suspend-IsSound now w w' h sound = found w.tenant h
  where
    claimed :
        (t : Tenant) → is_due now t.cancellation_effective_at ≡ true → IsSound (suspend now t w)
    claimed t due =
        let (agreed, date, past) = due_date now t.cancellation_effective_at due in
        let v : World =
          emit (event "pending_deletion_entered")
            (emit (event "suspended") (record w { tenant = some (suspended_row now t) })) in
        let waiting : SoundOf (some (suspended_row now t)) (suspend now t w).reminders =
          (refl, (agreed, now + days export_window_days, date, refl, omega (arith, past))) in
        subst (λ o. SoundOf o (suspend now t w).reminders)
          (sym (mail_owner-tenant "suspended_notice" v)) waiting

    found : (o : Option Tenant) → suspend_if now o w ≡ some w' → IsSound w'
    found none k = absurd (cc k)
    found (some t) k = elim (Bool-cases (is_cancelling t.status)) [
      | inr e ↦ absurd (cc (rw e at k))
      | inl e ↦ elim (Bool-cases (is_due now t.cancellation_effective_at)) [
        | inr e' ↦ absurd (cc (rw (e, e') at k))
        | inl e' ↦
            let same : suspend now t w ≡ w' = cc (rw (e, e') at k) in
            subst IsSound same (claimed t e')
      ]
    ]
