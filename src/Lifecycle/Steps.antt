-- ===== src/Lifecycle/Steps.antt =====
-- The billing cancel and the reactivation of packages/core/docflow_core/lifecycle.py, and all sequences
-- of its operations.
use doc_flow.Prelude.{
  ℕ, ◌≡◌, refl, sym, subst, Bool, true, false, Option, none, some, List, [], ◌∷◌, map, any, is_some,
  inl, inr, Bool-cases,
}
use doc_flow.Prelude.Sort.{Text}
use doc_flow.Lifecycle.Row.{
  TenantStatus, active, cancelling, suspended, pending_deletion, deleted, Reason, ok, Tenant,
  JobStatus, pending, done, Reminder, World, is_reactivatable, emit, event, Effect,
  cancel_subscription, void_pending_setup_fee, mail_owner,
}
use doc_flow.Lifecycle.Cancel.{cancel}
use doc_flow.Lifecycle.Return.{
  clear_pending_cancel, not_pending, Stripe, call_if, void_next, cleared_or_failed, settle_owed,
  settle_if, process_pending_cancel, ReactivateBilling, drop_pending, reactivate_if,
  reactivated_row, complete_reactivate,
}
use doc_flow.Lifecycle.Suspend.{claim_for_suspend}
use doc_flow.Lifecycle.Sound.{
  waits, is_pending, SoundRow, SoundOf, IsSound, mailed, cancel-IsSound, claim_for_suspend-IsSound,
}

clear_pending_cancel-IsSound :
    (t : Tenant) (w : World) → SoundRow t.status t w.reminders → IsSound (clear_pending_cancel t w)
clear_pending_cancel-IsSound t w sound = by_status t.status refl sound
  where
    by_status :
        (s : TenantStatus)
        → t.status ≡ s
        → SoundRow s t w.reminders
        → SoundRow t.status (record t { stripe_cancel_pending_at = none }) w.reminders
    by_status active e (h, (k, _, q)) =
        subst (λ x. SoundRow x (record t { stripe_cancel_pending_at = none }) w.reminders) (sym e)
          (h, (k, refl, q))
    by_status cancelling e (h, (k, _, q)) =
        subst (λ x. SoundRow x (record t { stripe_cancel_pending_at = none }) w.reminders) (sym e)
          (h, (k, refl, q))
    by_status pending_deletion e h =
        subst (λ x. SoundRow x (record t { stripe_cancel_pending_at = none }) w.reminders) (sym e) h
    by_status suspended e h =
        subst (λ x. SoundRow x (record t { stripe_cancel_pending_at = none }) w.reminders) (sym e)
          tt
    by_status deleted e h =
        subst (λ x. SoundRow x (record t { stripe_cancel_pending_at = none }) w.reminders) (sym e)
          tt

-- the calls of the provider leave the row and the reminders as they are
module _ (stripe : Stripe) (t : Tenant) where
  call_if-IsSound :
      (call : ℕ → Effect) (succeeds : Bool) (id : Option ℕ) (w : World)
      → IsSound w
      → SoundRow t.status t w.reminders
      → IsSound (call_if call succeeds id w).0
        × SoundRow t.status t (call_if call succeeds id w).0.reminders
  call_if-IsSound call succeeds none w h k = (h, k)
  call_if-IsSound call succeeds (some id) w h k = (h, k)

  void_next-IsSound :
      (r : World × Bool)
      → IsSound r.0
      → SoundRow t.status t r.0.reminders
      → IsSound (void_next stripe t r).0 × SoundRow t.status t (void_next stripe t r).0.reminders
  void_next-IsSound (w, true) h k =
      call_if-IsSound void_pending_setup_fee stripe.voids_setup_fee t.stripe_customer_id w h k
  void_next-IsSound (w, false) h k = (h, k)

  cleared_or_failed-IsSound :
      (r : World × Bool)
      → IsSound r.0
      → SoundRow t.status t r.0.reminders
      → IsSound (cleared_or_failed t r).0
  cleared_or_failed-IsSound (w, true) h k = clear_pending_cancel-IsSound t w k
  cleared_or_failed-IsSound (w, false) h k = h

  settle_owed-IsSound :
      (w : World) → IsSound w → SoundRow t.status t w.reminders → IsSound (settle_owed stripe t w).0
  settle_owed-IsSound w h k = elim (Bool-cases (is_reactivatable t.status)) [
    | inr e ↦ rw e (clear_pending_cancel-IsSound t w k)
    | inl e ↦
        let first =
          call_if cancel_subscription stripe.cancels_subscription t.stripe_subscription_id w in
        let (h₁, k₁) =
          call_if-IsSound cancel_subscription stripe.cancels_subscription t.stripe_subscription_id w
            h k in
        let (h₂, k₂) = void_next-IsSound first h₁ k₁ in
        rw e (cleared_or_failed-IsSound (void_next stripe t first) h₂ k₂)
  ]

process_pending_cancel-IsSound :
    (stripe : Stripe) (w : World) → IsSound w → IsSound (process_pending_cancel stripe w).0
unfolding process_pending_cancel
process_pending_cancel-IsSound stripe w sound = found w.tenant sound
  where
    found : (o : Option Tenant) → SoundOf o w.reminders → IsSound (settle_if stripe o w).0
    found none h = sound
    found (some t) h = elim (Bool-cases (is_some t.stripe_cancel_pending_at)) [
      | inl e ↦ rw e (settle_owed-IsSound stripe t w sound h)
      | inr e ↦ rw e sound
    ]

none_pending : (reminders : List Reminder) → any is_pending (map drop_pending reminders) ≡ false
none_pending [] = refl
none_pending (r ∷ reminders) = rw (dropped r.status, none_pending reminders)
  where
    dropped : (s : JobStatus) → waits (not_pending s) ≡ false
    dropped pending = refl
    dropped JobStatus.cancelled = refl
    dropped done = refl

complete_reactivate-IsSound :
    (now : ℕ) (billing : ReactivateBilling) (w w' : World)
    → complete_reactivate now billing w ≡ ok w'
    → IsSound w'
unfolding complete_reactivate
complete_reactivate-IsSound now billing w w' h = found w.tenant h
  where
    found : (o : Option Tenant) → reactivate_if now billing o w ≡ ok w' → IsSound w'
    found none k = absurd (cc k)
    found (some t) k = elim (Bool-cases (is_reactivatable t.status)) [
      | inr e ↦ absurd (cc (rw e at k))
      | inl e ↦
          let v : World = record w {
            tenant = some (reactivated_row now billing t);
            reminders = map drop_pending w.reminders;
          } in
          let same : emit (event "reactivated") (mail_owner "reactivated" v) ≡ w' =
            cc (rw e at k) in
          subst IsSound same (mailed "reactivated" v (refl, (refl, refl, none_pending w.reminders)))
    ]

-- one call of the module that took effect
pub data Step (w w' : World) : Type 0 where
  cancels :
      (now : ℕ) (reason : Reason) (note_text : Option Text) (override_at : Option ℕ)
      → cancel now reason note_text override_at w ≡ ok w'
      → Step w w'
  suspends : (now : ℕ) → claim_for_suspend now w ≡ some w' → Step w w'
  settles : (stripe : Stripe) → (process_pending_cancel stripe w).0 ≡ w' → Step w w'
  reactivates :
      (now : ℕ) (billing : ReactivateBilling)
      → complete_reactivate now billing w ≡ ok w'
      → Step w w'

pub data Steps (w : World) : World → Type 0 where
  start : Steps w w
  next : {v v' : World} → Steps w v → Step v v' → Steps w v'

Step-IsSound : {w w' : World} → Step w w' → IsSound w → IsSound w'
Step-IsSound {w = w} {w' = w'} (cancels now reason note_text override_at e) h =
    cancel-IsSound now reason note_text override_at w w' e h
Step-IsSound {w = w} {w' = w'} (suspends now e) h = claim_for_suspend-IsSound now w w' e h
Step-IsSound {w = w} (settles stripe e) h =
    subst IsSound e (process_pending_cancel-IsSound stripe w h)
Step-IsSound {w = w} {w' = w'} (reactivates now billing e) h =
    complete_reactivate-IsSound now billing w w' e

-- Through any sequence of cancellations, suspensions, retries of the billing cancel and reactivations, at
-- any times: a tenant that waits for deletion has its address closed and is not to be deleted before
-- thirty days after the agreed date; one that is active or cancelling has no deletion date, no billing
-- to be cancelled and no reminder to be sent.
pub Steps-IsSound : {w w' : World} → Steps w w' → IsSound w → IsSound w'
Steps-IsSound start h = h
Steps-IsSound (next steps step) h = Step-IsSound step (Steps-IsSound steps h)
