-- ===== src/Validation/Money/Header.antt =====
-- What `check_header_total` of packages/core/docflow_core/validation.py allows, for lines whose totals
-- were printed rounded. Amounts are compared as whole numbers of 10 ^ -k.
use native.Mathlib.Nat.{zero-mul, add-mul, one-mul, mul-le-mul_right}
use doc_flow.Prelude.{
  ℕ, ◌+◌, ◌-◌, ◌*◌, ◌^◌, ◌≤◌, max, ◌≡◌, refl, ap, ◌∙◌, false, not, ◌||◌, leb, Option, none, some,
  List, [], ◌∷◌, map, length, any, All, is_some, length-map, arith,
}
use doc_flow.Validation.Numbers.{Decimal}
use doc_flow.Validation.Money.{
  dist, aligned, plus, minus, magnitude, is_le, is_missing, unsigned, header_total_tolerance,
  sum_from, check_header_total,
}
use doc_flow.Validation.Money.Scale.{is_le-aligned, plus-aligned, minus-aligned}
use doc_flow.Validation.Money.Rounded.{is_some-if, silent, le→leb}

-- A line's total as it was printed, and the true amount that it was rounded from, in units of
-- 10 ^ -k.
pub record PrintedLine : Type 0 where
  pub coefficient : ℕ
  pub places : ℕ
  pub amount : ℕ

abbrev pub printed : PrintedLine → Option Decimal
printed l = some (unsigned l.coefficient l.places)

module _ (k : ℕ) where
  abbrev pub printed_amount : PrintedLine → ℕ
  printed_amount l = aligned k (unsigned l.coefficient l.places)

  abbrev pub Fits : PrintedLine → Type 0
  Fits l = l.places ≤ k

  -- printed correctly: half a cent at most
  abbrev pub RoundedToCent : PrintedLine → Type 0
  RoundedToCent l = 2 * dist l.amount (printed_amount l) ≤ 1 * 10 ^ (k - 2)

  abbrev pub sum_by : (PrintedLine → ℕ) → List PrintedLine → ℕ
  sum_by f [] = 0
  sum_by f (l ∷ ls) = f l + sum_by f ls

  -- the sum of unsigned totals is unsigned and has no more places than the longest
  abbrev IsSum : ℕ → Decimal → Type 0
  IsSum n d = (d.negative ≡ false) × (d.places ≤ k) × (aligned k d ≡ n)

  sum_from-IsSum :
      (ls : List PrintedLine) (c p : ℕ)
      → p ≤ k
      → All Fits ls
      → IsSum
          (aligned k (unsigned c p) + sum_by printed_amount ls)
          (sum_from (unsigned c p) (map printed ls))
  unfolding sum_from plus
  sum_from-IsSum [] c p hp hs = (refl, hp, omega arith)
  sum_from-IsSum (l ∷ ls) c p hp (h, hs) =
      let start = plus (unsigned c p) (unsigned l.coefficient l.places) in
      let rest = sum_from-IsSum ls start.coefficient start.places (omega arith) hs in
      let added = plus-aligned c l.coefficient p l.places k hp h in
      (rest.0, rest.1, omega (arith, rest.2, added))

  sum_by-dist :
      (ls : List PrintedLine)
      → All RoundedToCent ls
      → 2 * dist (sum_by (λ l. l.amount) ls) (sum_by printed_amount ls)
        ≤ length ls * (1 * 10 ^ (k - 2))
  sum_by-dist [] hs = omega arith
  sum_by-dist (l ∷ ls) (h, hs) =
      let rest = sum_by-dist ls hs in
      let split = add-mul 1 (length ls) (1 * 10 ^ (k - 2)) in omega (arith, h, rest, split)

  none_missing : (ls : List PrintedLine) → any is_missing (map printed ls) ≡ false
  none_missing [] = refl
  none_missing (l ∷ ls) = none_missing ls

  within-aligned :
      (t s n c p : ℕ)
      → s ≤ k
      → p ≤ k
      → 2 ≤ k
      → is_le (magnitude (minus (unsigned t s) (unsigned c p))) (header_total_tolerance n)
        ≡ leb
            (dist (aligned k (unsigned t s)) (aligned k (unsigned c p)))
            (1 * max n 1 * 10 ^ (k - 2))
  unfolding plus
  within-aligned t s n c p hs hp hk =
      is_le-aligned (minus (unsigned t s) (unsigned c p)).coefficient (1 * max n 1)
        (minus (unsigned t s) (unsigned c p)).places 2 k (omega arith) hk
      ∙ ap (λ x. leb x (1 * max n 1 * 10 ^ (k - 2))) (minus-aligned t c s p k hs hp)

  module _ (t s : ℕ) (l : PrintedLine) (ls : List PrintedLine) (hs : s ≤ k) (hk : 2 ≤ k) where
    abbrev total : ℕ
    total = aligned k (unsigned t s)

    abbrev lines : List PrintedLine
    lines = l ∷ ls

    abbrev allowance : ℕ
    allowance = 1 * max (length lines) 1 * 10 ^ (k - 2)

    -- For an order total and line totals without a sign, none of them missing, the rule fires exactly
    -- when the order total is further from the sum of the lines than one cent for each line.
    pub check_header_total-allowance :
        All Fits lines
        → is_some (check_header_total (some (unsigned t s)) (map printed lines))
          ≡ not (leb (dist total (sum_by printed_amount lines)) allowance)
    unfolding check_header_total
    check_header_total-allowance fits =
        let (sign, places, sum) = sum_from-IsSum lines 0 0 (omega arith) fits in
        is_some-if
          (any is_missing (map printed lines)
            || is_le (magnitude (minus (unsigned t s) expected))
                (header_total_tolerance (length (map printed lines))))
          (expected, minus (unsigned t s) expected)
        ∙ ap
            (λ b. not (
              b
              || is_le (magnitude (minus (unsigned t s) expected))
                  (header_total_tolerance (length (map printed lines)))))
            (none_missing lines)
        ∙ ap
            (λ n.
              not (is_le (magnitude (minus (unsigned t s) expected)) (header_total_tolerance n)))
            (length-map printed lines)
        ∙ ap
            (λ e.
              not (
                is_le (magnitude (minus (unsigned t s) e)) (header_total_tolerance (length lines))))
            (positive expected sign)
        ∙ ap not
            (within-aligned t s (length lines) expected.coefficient expected.places hs places hk)
        ∙ ap (λ x. not (leb (dist total x) allowance)) (sum ∙ no_start)
      where
        expected : Decimal
        expected = sum_from (unsigned 0 0) (map printed lines)

        positive : (d : Decimal) → d.negative ≡ false → d ≡ unsigned d.coefficient d.places
        positive d e =
            ap (λ b. record { negative = b; coefficient = d.coefficient; places = d.places }) e

        no_start :
            aligned k (unsigned 0 0) + sum_by printed_amount lines ≡ sum_by printed_amount lines
        no_start = omega (arith, zero-mul (10 ^ (k - 0)))

    -- No false alarm: an order whose lines were each rounded to the cent, and whose total is the sum of the
    -- true amounts rounded to the cent, gets no warning, however many lines it has.
    pub check_header_total-rounded :
        All Fits lines
        → All RoundedToCent lines
        → 2 * dist total (sum_by (λ x. x.amount) lines) ≤ 1 * 10 ^ (k - 2)
        → check_header_total (some (unsigned t s)) (map printed lines) ≡ none
    check_header_total-rounded fits rounded near =
        silent (check_header_total (some (unsigned t s)) (map printed lines))
          (check_header_total-allowance fits ∙ ap not (le→leb within))
      where
        lines_apart :
            2 * dist (sum_by (λ x. x.amount) lines) (sum_by printed_amount lines)
            ≤ length lines * (1 * 10 ^ (k - 2))
        lines_apart = sum_by-dist lines rounded

        as_many : max (length lines) 1 ≡ length lines
        as_many = omega arith

        whole : allowance ≡ length lines * 10 ^ (k - 2)
        whole =
            ap (λ n. 1 * n * 10 ^ (k - 2)) as_many
            ∙ ap (λ n. n * 10 ^ (k - 2)) (one-mul (length lines))

        plain_cents : length lines * (1 * 10 ^ (k - 2)) ≡ length lines * 10 ^ (k - 2)
        plain_cents = ap (λ n. length lines * n) (one-mul (10 ^ (k - 2)))

        some_line : 1 * 10 ^ (k - 2) ≤ length lines * 10 ^ (k - 2)
        some_line = mul-le-mul_right (10 ^ (k - 2)) (omega arith)

        within : dist total (sum_by printed_amount lines) ≤ allowance
        within = omega (arith, lines_apart, near, whole, plain_cents, some_line)
