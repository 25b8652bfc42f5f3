-- ===== src/Allowance.antt =====
-- The notices on a plan's allowance, packages/core/docflow_core/allowance.py: the table of notices,
-- what a call sends, and the banner. A threshold is a percentage, and `used < threshold * allowance`
-- is its exact comparison: for counts that are whole numbers the code's floats decide the same.
use doc_flow.Prelude.{
  ℕ, ◌+◌, ◌*◌, ◌≤◌, ◌≡◌, Bool, true, false, not, ◌&&◌, ◌||◌, Option, none, some, List, [], ◌∷◌,
  ◌++◌, ltb, leb, ◌==◌, if◌then◌else◌, any, filter, length, refl, ap, sym, inl, inr, Bool-cases,
  arith,
}
pub mod Once
mod Tests

-- What `usage.allowance_for` returns, as far as it decides anything.
pub record Usage : Type 0 where
  pub month : ℕ
  pub used : ℕ
  pub allowance : ℕ  -- no allowance is 0
  pub has_next_tier : Bool

abbrev pub allowance_thresholds : List ℕ
allowance_thresholds = 80 ∷ 100 ∷ []

abbrev pub allowance_banner_threshold : ℕ
allowance_banner_threshold = 90

-- the catalog entries LIM-001 to LIM-004
pub data Entry : Type 0 where
  near_with_tier : Entry
  reached_with_tier : Entry
  near_top_tier : Entry
  reached_top_tier : Entry

unfoldable pub entry : Usage → ℕ → Entry
entry a pct =
    if a.has_next_tier
    then (if pct == 100 then reached_with_tier else near_with_tier)
    else (if pct == 100 then reached_top_tier else near_top_tier)

-- A row of `allowance_notices`, with its unique key.
pub record Notice : Type 0 where
  pub tenant_id : ℕ
  pub month : ℕ
  pub threshold_pct : ℕ

abbrev pub notice_beq : Notice → Notice → Bool
notice_beq n m =
    n.tenant_id == m.tenant_id && (n.month == m.month && n.threshold_pct == m.threshold_pct)

abbrev pub noticed : Notice → List Notice → Bool
noticed n notices = any (notice_beq n) notices

-- What one fired threshold sends: the mail to the owners, and the founder's alert.
pub data Sent : Type 0 where
  mail_owners : Notice → Entry → Sent
  raise_alert : ℕ → ℕ → Sent

abbrev pub sends : Usage → Notice → List Sent
sends a n =
    mail_owners n (entry a n.threshold_pct)
    ∷ (if n.threshold_pct == 100 then raise_alert n.tenant_id n.month ∷ [] else [])

-- below a threshold
abbrev pub is_below : ℕ → Usage → Bool
is_below pct a = ltb (a.used * 100) (pct * a.allowance)

abbrev pub notice_of : ℕ → Usage → ℕ → Notice
notice_of tenant a pct = record { tenant_id = tenant; month = a.month; threshold_pct = pct }

-- one turn of the loop: the table, and the notice if it fired now
unfoldable pub fire : ℕ → Usage → ℕ → List Notice → List Notice × List Notice
fire tenant a pct notices =
    let n = notice_of tenant a pct in
    if is_below pct a || noticed n notices then (notices, []) else (n ∷ notices, n ∷ [])

unfoldable pub fire_each : ℕ → Usage → List ℕ → List Notice → List Notice × List Notice
fire_each tenant a [] notices = (notices, [])
fire_each tenant a (pct ∷ pcts) notices =
    let (now, fired) = fire tenant a pct notices in
    let (after, more) = fire_each tenant a pcts now in (after, fired ++ more)

unfoldable pub record_thresholds : ℕ → Usage → List Notice → List Notice × List Notice
record_thresholds tenant a notices =
    if a.allowance == 0 then (notices, []) else fire_each tenant a allowance_thresholds notices

abbrev pub last_crossed : Usage → List ℕ → Option ℕ → Option ℕ
last_crossed a [] best = best
last_crossed a (pct ∷ pcts) best = last_crossed a pcts (if is_below pct a then best else some pct)

-- `max(crossed)`: the thresholds are in increasing order, so it is the last one
unfoldable pub current_banner : Usage → Option ℕ
current_banner a =
    if a.allowance == 0 || is_below allowance_banner_threshold a
    then none
    else last_crossed a allowance_thresholds none
