-- ===== src/Validation/Money/Scale.antt =====
-- Decimals at a common scale: the operators of Money as sums, differences and products of numbers.
use native.Mathlib.Nat.{
  pow-suc, mul_assoc, mul_comm, add-mul, mul-sub, mul-mul-mul_comm, mul-le-mul_right,
  mul-lt-mul_of_pos_right, one-le-pow, one-mul, zero-add,
}
use doc_flow.Prelude.{
  ℕ, zero, suc, ◌+◌, ◌-◌, ◌*◌, ◌^◌, ◌≤◌, ◌<◌, max, ◌≡◌, sym, ap, ◌∙◌, leb, inl, inr, Bool-cases,
  leb→le, arith,
}
use doc_flow.Validation.Numbers.{Decimal}
use doc_flow.Validation.Money.{dist, aligned, plus, minus, magnitude, times, is_le, unsigned}

pub ten_pos : (n : ℕ) → 0 < 10 ^ n
ten_pos n = one-le-pow n 10 (omega arith)

pub ten-add : (a b : ℕ) → 10 ^ (a + b) ≡ 10 ^ a * 10 ^ b
ten-add zero b = ap (λ t. 10 ^ t) (zero-add b) ∙ sym (one-mul (10 ^ b))
ten-add (suc a) b =
    ap (λ t. 10 ^ t) moved
    ∙ pow-suc 10 (a + b)
    ∙ ap (λ t. t * 10) (ten-add a b)
    ∙ turned (10 ^ a) (10 ^ b)
    ∙ ap (λ t. t * 10 ^ b) (sym (pow-suc 10 a))
  where
    moved : suc a + b ≡ suc (a + b)
    moved = omega arith

    turned : (x y : ℕ) → x * y * 10 ≡ x * 10 * y
    turned x y = mul_assoc x y 10 ∙ ap (λ t. x * t) (mul_comm y 10) ∙ sym (mul_assoc x 10 y)

-- a finer scale
pub aligned-scale :
    (d : Decimal) (m k : ℕ) → d.places ≤ m → m ≤ k → aligned k d ≡ aligned m d * 10 ^ (k - m)
aligned-scale d m k h h' =
    ap (λ t. d.coefficient * 10 ^ t) split
    ∙ ap (λ t. d.coefficient * t) (ten-add (m - d.places) (k - m))
    ∙ sym (mul_assoc d.coefficient (10 ^ (m - d.places)) (10 ^ (k - m)))
  where
    split : k - d.places ≡ (m - d.places) + (k - m)
    split = omega arith

pub dist-mul : (x y c : ℕ) → dist (x * c) (y * c) ≡ dist x y * c
dist-mul x y c =
    ap (λ t. t + (y * c - x * c)) (minus-mul x y)
    ∙ ap (λ t. (x - y) * c + t) (minus-mul y x)
    ∙ sym (add-mul (x - y) (y - x) c)
  where
    minus-mul : (a b : ℕ) → a * c - b * c ≡ (a - b) * c
    minus-mul a b =
        ap (λ t. t - b * c) (mul_comm a c)
        ∙ ap (λ t. c * a - t) (mul_comm b c)
        ∙ sym (mul-sub c a b)
        ∙ mul_comm c (a - b)

pub leb-mul : (x y c : ℕ) → 0 < c → leb (x * c) (y * c) ≡ leb x y
leb-mul x y c h = elim (Bool-cases (leb x y)) [
  | inl e ↦ let scaled : x * c ≤ y * c = mul-le-mul_right c (leb→le x y e) in ground arith
  | inr e ↦
      let less : y < x = ground arith in
      let scaled : y * c < x * c = mul-lt-mul_of_pos_right less h in ground arith
]

module _ (a b p r k : ℕ) (hp : p ≤ k) (hr : r ≤ k) where
  abbrev wide : ℕ
  wide = max p r

  scaled_left : aligned k (unsigned a p) ≡ aligned wide (unsigned a p) * 10 ^ (k - wide)
  scaled_left = aligned-scale (unsigned a p) wide k (omega arith) (omega arith)

  scaled_right : aligned k (unsigned b r) ≡ aligned wide (unsigned b r) * 10 ^ (k - wide)
  scaled_right = aligned-scale (unsigned b r) wide k (omega arith) (omega arith)

  pub is_le-aligned :
      is_le (unsigned a p) (unsigned b r)
      ≡ leb (aligned k (unsigned a p)) (aligned k (unsigned b r))
  unfolding is_le
  is_le-aligned = sym (
      ap (λ t. leb t (aligned k (unsigned b r))) scaled_left
      ∙ ap (λ t. leb (aligned wide (unsigned a p) * 10 ^ (k - wide)) t) scaled_right
      ∙ leb-mul (aligned wide (unsigned a p)) (aligned wide (unsigned b r)) (10 ^ (k - wide))
          (ten_pos (k - wide)))

  pub plus-aligned :
      aligned k (plus (unsigned a p) (unsigned b r))
      ≡ aligned k (unsigned a p) + aligned k (unsigned b r)
  unfolding plus
  plus-aligned =
      add-mul (aligned wide (unsigned a p)) (aligned wide (unsigned b r)) (10 ^ (k - wide))
      ∙ ap (λ t. t + aligned wide (unsigned b r) * 10 ^ (k - wide)) (sym scaled_left)
      ∙ ap (λ t. aligned k (unsigned a p) + t) (sym scaled_right)

  pub minus-aligned :
      aligned k (magnitude (minus (unsigned a p) (unsigned b r)))
      ≡ dist (aligned k (unsigned a p)) (aligned k (unsigned b r))
  unfolding plus
  minus-aligned =
      sym (dist-mul (aligned wide (unsigned a p)) (aligned wide (unsigned b r)) (10 ^ (k - wide)))
      ∙ ap (λ t. dist t (aligned wide (unsigned b r) * 10 ^ (k - wide))) (sym scaled_left)
      ∙ ap (λ t. dist (aligned k (unsigned a p)) t) (sym scaled_right)

-- a product, at the sum of two scales
pub times-aligned :
    (a b p r j h : ℕ)
    → p ≤ j
    → r ≤ h
    → aligned (j + h) (times (unsigned a p) (unsigned b r))
      ≡ aligned j (unsigned a p) * aligned h (unsigned b r)
times-aligned a b p r j h hp hr =
    ap (λ t. a * b * 10 ^ t) split
    ∙ ap (λ t. a * b * t) (ten-add (j - p) (h - r))
    ∙ mul-mul-mul_comm a b (10 ^ (j - p)) (10 ^ (h - r))
  where
    split : (j + h) - (p + r) ≡ (j - p) + (h - r)
    split = omega arith
