-- ===== src/Dispatch/Order.antt =====
-- The order of a tenant's documents in `_read_queues`, packages/core/docflow_core/dispatch.py, in the
-- words of the rule.
use text.Mathlib.Text.{◌==◌ as str_eq}
use doc_flow.Prelude.{
  ℕ, ◌≤◌, ◌<◌, Bool, true, false, [], ◌∷◌, map, ◌≡◌, ◌⊎◌, refl, inl, arith, All, ltb, leb, ◌==◌,
  if◌then◌else◌,
}
use doc_flow.Prelude.Sort.{Ordered, sort-Ordered}
use doc_flow.Dispatch.Choose.{Ready}
use doc_flow.Dispatch.Pass.{Queues, ready_leb, sorted_queue}

abbrev pub is_interactive : Ready → Bool
is_interactive r = str_eq r.lane "interactive"

-- `r` goes before `s`: the interactive lane before any other; in a lane, the one that arrived first; of
-- two that arrived together, the one with the lower id.
abbrev pub GoesBefore : Ready → Ready → Type 0
GoesBefore r s =
    ((is_interactive r ≡ true) × (is_interactive s ≡ false))
    ⊎ ((is_interactive r ≡ is_interactive s)
        × ((r.arrived_at < s.arrived_at)
            ⊎ ((r.arrived_at ≡ s.arrived_at) × (r.document_id ≤ s.document_id))))

abbrev Keys : Bool → ℕ → ℕ → Bool → ℕ → ℕ → Type 0
Keys p b c q y z = ((p ≡ true) × (q ≡ false)) ⊎ ((p ≡ q) × ((b < y) ⊎ ((b ≡ y) × (c ≤ z))))

abbrev lane_key : Bool → ℕ
lane_key p = if p then 0 else 1

abbrev key_leb : Bool → ℕ → ℕ → Bool → ℕ → ℕ → Bool
key_leb p b c q y z =
    if ltb (lane_key p) (lane_key q)
    then true
    else (if lane_key p == lane_key q
        then (if ltb b y then true else (if b == y then leb c z else false))
        else false)

Keys-below :
    (p : Bool) (b c : ℕ) (q : Bool) (y z : ℕ) → key_leb p b c q y z ≡ true → Keys p b c q y z
Keys-below true b c true y z h = ground arith
Keys-below true b c false y z h = inl (refl, refl)
Keys-below false b c true y z h = cc
Keys-below false b c false y z h = ground arith

Keys-above :
    (p : Bool) (b c : ℕ) (q : Bool) (y z : ℕ) → key_leb p b c q y z ≡ false → Keys q y z p b c
Keys-above true b c true y z h = ground arith
Keys-above true b c false y z h = cc
Keys-above false b c true y z h = inl (refl, refl)
Keys-above false b c false y z h = ground arith

Keys-trans :
    (p : Bool) (b c : ℕ) (q : Bool) (y z : ℕ) (r : Bool) (v w : ℕ)
    → Keys p b c q y z
    → Keys q y z r v w
    → Keys p b c r v w
Keys-trans p b c q y z r v w h k = ground arith

below : (r s : Ready) → ready_leb r s ≡ true → GoesBefore r s
below r s =
    Keys-below (is_interactive r) r.arrived_at r.document_id (is_interactive s) s.arrived_at
      s.document_id

above : (r s : Ready) → ready_leb r s ≡ false → GoesBefore s r
above r s =
    Keys-above (is_interactive r) r.arrived_at r.document_id (is_interactive s) s.arrived_at
      s.document_id

trans : (r s t : Ready) → GoesBefore r s → GoesBefore s t → GoesBefore r t
trans r s t =
    Keys-trans (is_interactive r) r.arrived_at r.document_id (is_interactive s) s.arrived_at
      s.document_id (is_interactive t) t.arrived_at t.document_id

pub queues-Ordered :
    (tenants : Queues) → All (λ e. Ordered GoesBefore e.1.ready) (map sorted_queue tenants)
queues-Ordered [] = tt
queues-Ordered ((tenant, queue) ∷ tenants) =
    (sort-Ordered ready_leb GoesBefore below above trans queue.ready, queues-Ordered tenants)
