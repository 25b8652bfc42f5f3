-- ===== src/Allowance/Tests.antt =====
-- A run of the allowance notices, and the witness.
use doc_flow.Prelude.{ℕ, ◌≤◌, ◌≡◌, refl, true, [], ◌∷◌, some}
use doc_flow.Allowance.{Usage, Notice, fire, fire_each, record_thresholds, current_banner}
use doc_flow.Allowance.Once.{times, calls, calls_fire_once}

abbrev usage_of : ℕ → Usage
usage_of n = record { month = 5; used = n; allowance = 200; has_next_tier = true }

abbrev near : Notice
near = record { tenant_id = 7; month = 5; threshold_pct = 80 }

near_is_sent :
    times near (calls ((7, usage_of 159) ∷ (7, usage_of 160) ∷ (7, usage_of 161) ∷ []) []).1 ≡ 1
unfolding calls record_thresholds fire_each fire
near_is_sent = refl

banner_at_the_end : current_banner (usage_of 200) ≡ some 100
unfolding current_banner
banner_at_the_end = refl

calls_fire_once_example : times near (calls ((7, usage_of 160) ∷ (7, usage_of 199) ∷ []) []).1 ≤ 1
calls_fire_once_example = calls_fire_once near ((7, usage_of 160) ∷ (7, usage_of 199) ∷ []) []
