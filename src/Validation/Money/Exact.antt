-- ===== src/Validation/Money/Exact.antt =====
-- The precision of the decimal context in packages/core/docflow_core/numbers.py, against the numbers that
-- the rule on a line total computes. A context of precision `n` holds the coefficients below 10 ^ n.
use native.Mathlib.Nat.{pow-suc, mul-le-mul, pow-le-pow_right, one-le-pow}
use doc_flow.Prelude.{
  ℕ, zero, suc, ◌+◌, ◌-◌, ◌*◌, ◌/◌, ◌%◌, ◌^◌, ◌≤◌, ◌<◌, max, sym, subst, Bool, true, false, ltb,
  List, [], ◌∷◌, length, length-append, inl, inr, Bool-cases, arith,
}
use doc_flow.Validation.Numbers.{Decimal, digits}
use doc_flow.Validation.Money.{
  aligned, joined, plus, minus, times, unsigned, magnitude, negated, unit_price_half_step,
  line_total_tolerance, sizes, exact_context_precision,
}
use doc_flow.Validation.Money.Scale.{ten-add}

-- The context holds the number's digits.
abbrev pub IsExact : ℕ → Decimal → Type 0
IsExact precision d = d.coefficient < 10 ^ precision

below_digits : (fuel n : ℕ) → n < fuel → n < 10 ^ length (digits fuel n)
unfolding digits
below_digits zero n h = absurd (omega arith)
below_digits (suc fuel) n h = elim (Bool-cases (ltb n 10)) [
  | inl e ↦ rw e (ground arith)
  | inr e ↦
      let rest = below_digits fuel (n / 10) (ground arith) in
      let one_more = length-append (digits fuel (n / 10)) ((n % 10 + 48) ∷ []) in
      rw (e, one_more)
        (subst (λ x. n < x) (sym (ten-add (length (digits fuel (n / 10))) 1)) (omega (arith, rest)))
]

wider : {c : ℕ} (a b : ℕ) → a ≤ b → c ≤ 10 ^ a → c ≤ 10 ^ b
wider a b h h' = let grown = pow-le-pow_right {n = 10} (omega arith) h in omega (arith, grown)

below : {c : ℕ} (a b : ℕ) → a < b → c ≤ 10 ^ a → c < 10 ^ b
below a b h h' =
    let grown = pow-le-pow_right {n = 10} (omega arith) {i = suc a} {j = b} h in
    let step = pow-suc 10 a in
    let positive = one-le-pow a 10 (omega arith) in omega (arith, grown, step, positive)

product_fits : {c e : ℕ} (a b : ℕ) → c ≤ 10 ^ a → e ≤ 10 ^ b → c * e ≤ 10 ^ (a + b)
product_fits {c = c} {e = e} a b h h' = subst (λ x. c * e ≤ x) (sym (ten-add a b)) (mul-le-mul h h')

sum_fits : {c e : ℕ} (a : ℕ) → c ≤ 10 ^ a → e ≤ 10 ^ a → c + e ≤ 10 ^ suc a
sum_fits a h h' = let step = pow-suc 10 a in omega (arith, step)

aligned_fits : (d : Decimal) (a m : ℕ) → d.coefficient ≤ 10 ^ a → aligned m d ≤ 10 ^ (a + m)
aligned_fits d a m h = product_fits a m h (wider (m - d.places) m (omega arith) (omega arith))

joined_fits : (s s' : Bool) (x y m : ℕ) → (joined s x s' y m).coefficient ≤ x + y
joined_fits true true x y m = omega arith
joined_fits true false x y m = omega arith
joined_fits false true x y m = omega arith
joined_fits false false x y m = omega arith

-- a sum of two numbers whose aligned coefficients fit
plus_fits :
    (a b : Decimal) (e : ℕ)
    → aligned (max a.places b.places) a ≤ 10 ^ e
    → aligned (max a.places b.places) b ≤ 10 ^ e
    → (plus a b).coefficient ≤ 10 ^ suc e
unfolding plus
plus_fits a b e h h' =
    let m = max a.places b.places in
    let both = joined_fits a.negative b.negative (aligned m a) (aligned m b) m in
    let fits = sum_fits {c = aligned m a} {e = aligned m b} e h h' in omega (arith, both, fits)

coefficient_fits :
    (d : Decimal) → d.coefficient ≤ 10 ^ length (digits (suc d.coefficient) d.coefficient)
coefficient_fits d =
    let less = below_digits (suc d.coefficient) d.coefficient (omega arith) in omega (arith, less)

module _ (quantity unit_price line_total : Decimal) where
  abbrev values : List Decimal
  values = quantity ∷ unit_price ∷ line_total ∷ []

  abbrev width : Decimal → ℕ
  width d = length (digits (suc d.coefficient) d.coefficient)

  enough : 2 * sizes values + 10 ≤ exact_context_precision values
  unfolding exact_context_precision
  enough = omega arith

  product-IsExact : IsExact (exact_context_precision values) (times quantity unit_price)
  product-IsExact =
      below (width quantity + width unit_price) (exact_context_precision values)
        (omega (arith, enough))
        (product_fits (width quantity) (width unit_price) (coefficient_fits quantity)
          (coefficient_fits unit_price))

  delta-IsExact :
      IsExact (exact_context_precision values) (minus line_total (times quantity unit_price))
  delta-IsExact =
      let m = max line_total.places (quantity.places + unit_price.places) in
      let expected = times quantity unit_price in
      below (suc (2 * sizes values)) (exact_context_precision values) (omega (arith, enough)) (
        plus_fits line_total (negated expected) (2 * sizes values)
          (wider (width line_total + m) (2 * sizes values) (omega arith)
            (aligned_fits line_total (width line_total) m (coefficient_fits line_total)))
          (wider (width quantity + width unit_price + m) (2 * sizes values) (omega arith) (
            aligned_fits expected (width quantity + width unit_price) m (
              product_fits (width quantity) (width unit_price) (coefficient_fits quantity)
                (coefficient_fits unit_price)))))

  tolerance-IsExact :
      IsExact (exact_context_precision values) (line_total_tolerance quantity unit_price)
  tolerance-IsExact =
      let m = max 2 (quantity.places + suc (max 2 unit_price.places)) in
      let share = times (magnitude quantity) (unit_price_half_step unit_price) in
      below (suc (2 * sizes values + 4)) (exact_context_precision values) (omega (arith, enough)) (
        plus_fits (unsigned 1 2) share (2 * sizes values + 4)
          (wider (0 + m) (2 * sizes values + 4) (omega arith)
            (aligned_fits (unsigned 1 2) 0 m (omega arith)))
          (wider (width quantity + 1 + m) (2 * sizes values + 4) (omega arith) (
            aligned_fits share (width quantity + 1) m
              (product_fits (width quantity) 1 (coefficient_fits quantity) (omega arith)))))

  -- Whatever the three numbers, the precision that the rule on a line total asks for holds every digit of
  -- the product, of the difference and of the tolerance: none of them is rounded.
  pub check_line_total-IsExact :
      IsExact (exact_context_precision values) (times quantity unit_price)
      × IsExact (exact_context_precision values) (minus line_total (times quantity unit_price))
      × IsExact (exact_context_precision values) (line_total_tolerance quantity unit_price)
  check_line_total-IsExact = (product-IsExact, delta-IsExact, tolerance-IsExact)
