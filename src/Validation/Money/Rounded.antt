-- ===== src/Validation/Money/Rounded.antt =====
-- What `check_line_total` of packages/core/docflow_core/validation.py allow.
-- Amounts are compared as whole numbers of 10 ^ -k, for a `k` with room for every digit.
use doc_flow.Prelude.{
  ℕ, suc, ◌+◌, ◌-◌, ◌*◌, ◌^◌, ◌≤◌, max, ◌≡◌, refl, ap, ◌∙◌, Bool, true, false, not, leb,
  if◌then◌else◌, Option, none, some, is_some, arith,
}
use doc_flow.Validation.Numbers.{Decimal}
use doc_flow.Validation.Money.{
  dist, aligned, plus, minus, magnitude, times, is_le, unsigned, line_total_tolerance,
  check_line_total,
}
use doc_flow.Validation.Money.Scale.{is_le-aligned, plus-aligned, minus-aligned, times-aligned}

pub is_some-if {ℓ} : {A : Type ℓ} (b : Bool) (a : A) → is_some (if b then none else some a) ≡ not b
is_some-if true a = refl
is_some-if false a = refl

pub silent {ℓ} : {A : Type ℓ} (o : Option A) → is_some o ≡ false → o ≡ none
silent none e = refl
silent (some a) e = absurd (cc e)

pub le→leb : {a b : ℕ} → a ≤ b → leb a b ≡ true
le→leb h = ground arith

-- half of one allowance and the other, by the triangle inequality
pub bounded : (x y z c e : ℕ) → 2 * dist x y ≤ c → dist y z ≤ e → dist x z ≤ c + e
bounded x y z c e h h' = omega arith

module _ (q p u r t s j h : ℕ) (hp : p ≤ j) (hr : suc (max 2 r) ≤ h) (hs : s ≤ j + h) where
  abbrev quantity : Decimal
  quantity = unsigned q p

  abbrev unit_price : Decimal
  unit_price = unsigned u r

  abbrev line_total : Decimal
  line_total = unsigned t s

  abbrev half_step : ℕ
  half_step = 5 * 10 ^ (h - suc (max 2 r))

  delta-aligned :
      aligned (j + h) (magnitude (minus line_total (times quantity unit_price)))
      ≡ dist (aligned (j + h) line_total) (aligned j quantity * aligned h unit_price)
  delta-aligned =
      minus-aligned t (q * u) s (p + r) (j + h) hs (omega arith)
      ∙ ap (λ x. dist (aligned (j + h) line_total) x) (times-aligned q u p r j h hp (omega arith))

  tolerance-aligned :
      aligned (j + h) (line_total_tolerance quantity unit_price)
      ≡ 1 * 10 ^ (j + h - 2) + aligned j quantity * half_step
  tolerance-aligned =
      plus-aligned 1 (q * 5) 2 (p + suc (max 2 r)) (j + h) (omega arith) (omega arith)
      ∙ ap (λ x. 1 * 10 ^ (j + h - 2) + x) (times-aligned q 5 p (suc (max 2 r)) j h hp hr)

  -- For a quantity, a unit price and a line total without a sign, the rule fires exactly when the line
  -- total is further from quantity times unit price than one cent and half a unit of the price's last
  -- printed place (two places at least) for each one ordered.
  pub check_line_total-allowance :
      is_some (check_line_total (some quantity) (some unit_price) (some line_total))
      ≡ not (
          leb
            (dist (aligned (j + h) line_total) (aligned j quantity * aligned h unit_price))
            (1 * 10 ^ (j + h - 2) + aligned j quantity * half_step))
  unfolding check_line_total plus
  check_line_total-allowance =
      is_some-if
        (is_le (magnitude (minus line_total (times quantity unit_price)))
          (line_total_tolerance quantity unit_price))
        (times quantity unit_price, minus line_total (times quantity unit_price))
      ∙ ap not (
          is_le-aligned (minus line_total (times quantity unit_price)).coefficient
            (line_total_tolerance quantity unit_price).coefficient
            (minus line_total (times quantity unit_price)).places
            (line_total_tolerance quantity unit_price).places (j + h) (omega arith) (omega arith)
          ∙ ap (λ x. leb x (aligned (j + h) (line_total_tolerance quantity unit_price)))
              delta-aligned
          ∙ ap
              (λ x.
                leb (dist (aligned (j + h) line_total) (aligned j quantity * aligned h unit_price))
                  x)
              tolerance-aligned)
