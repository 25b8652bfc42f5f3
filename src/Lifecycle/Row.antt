-- ===== src/Lifecycle/Row.antt =====
-- The row of a tenant, its reminder jobs and what is sent or called, in order, as
-- packages/core/docflow_core/lifecycle.py reads and writes them. Times are whole seconds.
use doc_flow.Prelude.{ℕ, ◌*◌, String, Bool, true, false, Option, List, [], ◌∷◌, ◌++◌, if◌then◌else◌}

pub data TenantStatus : Type 0 where
  active cancelling suspended pending_deletion deleted : TenantStatus

-- a text that is none of `REASONS` is `unknown`
pub data Reason : Type 0 where
  customer_requested non_payment for_cause unknown : Reason

pub data LifecycleCode : Type 0 where
  con_001 life_001 life_002 life_003 life_004 : LifecycleCode

pub data Outcome {ℓ} (A : Type ℓ) : Type ℓ where
  refused : LifecycleCode → Outcome A
  ok : A → Outcome A

infixl 5 ◌>>=◌
abbrev pub ◌>>=◌ {ℓ κ} : {A : Type ℓ} {B : Type κ} → Outcome A → (A → Outcome B) → Outcome B
refused c >>= f = refused c
ok a >>= f = f a

pub record Tenant : Type 0 where
  pub status : TenantStatus
  pub status_changed_at : ℕ
  pub intake_address_active : Bool
  pub cancellation_effective_at : Option ℕ
  pub cancellation_reason : Option Reason
  pub deletion_scheduled_at : Option ℕ
  pub first_past_due_at : Option ℕ
  pub stripe_subscription_id : Option ℕ
  pub stripe_customer_id : Option ℕ
  pub stripe_subscription_status : Option String
  pub stripe_current_period_end : Option ℕ
  pub stripe_cancel_pending_at : Option ℕ
  pub founding_price_ends_at : Option ℕ

pub data JobStatus : Type 0 where
  pending cancelled done : JobStatus

-- a `pending_deletion_reminder` of this tenant; its dedupe key is the day that it runs on
pub record Reminder : Type 0 where
  pub run_at : ℕ
  pub status : JobStatus

pub data Effect : Type 0 where
  event mail alert : String → Effect
  cancel_subscription void_pending_setup_fee : ℕ → Effect

pub record World : Type 0 where
  pub tenant : Option Tenant
  pub has_owner : Bool  -- `_owner_email` finds an address
  pub reminders : List Reminder
  pub effects : List Effect

abbrev pub cure_period_days : ℕ
cure_period_days = 14

abbrev pub export_window_days : ℕ
export_window_days = 30

abbrev pub reminder_days : List ℕ
reminder_days = 1 ∷ 15 ∷ 25 ∷ []

abbrev pub days : ℕ → ℕ
days n = n * 86400

abbrev pub emit : Effect → World → World
emit e w = record w { effects = w.effects ++ e ∷ [] }

-- `email_outbox.enqueue` to the owner, if there is an address
abbrev pub mail_owner : String → World → World
mail_owner template w = if w.has_owner then emit (mail template) w else w

abbrev pub is_reactivatable : TenantStatus → Bool
is_reactivatable suspended = true
is_reactivatable pending_deletion = true
is_reactivatable active = false
is_reactivatable cancelling = false
is_reactivatable deleted = false

abbrev pub is_active : TenantStatus → Bool
is_active active = true
is_active cancelling = false
is_active suspended = false
is_active pending_deletion = false
is_active deleted = false

abbrev pub is_cancelling : TenantStatus → Bool
is_cancelling cancelling = true
is_cancelling active = false
is_cancelling suspended = false
is_cancelling pending_deletion = false
is_cancelling deleted = false
