-- ===== src/Validation/Money.antt =====
-- The rules on money and quantities of packages/core/docflow_core/validation.py. Arithmetic on Decimals is
-- exact, as it is in a context of the precision that `exact_context_precision` gives; the zero of a
-- difference has no sign.
use doc_flow.Prelude.{
  ℕ, suc, ◌+◌, ◌-◌, ◌*◌, ◌^◌, max, Bool, true, false, not, ◌&&◌, ◌||◌, Option, none, some, List, [],
  ◌∷◌, length, any, leb, ltb, ◌==◌, if◌then◌else◌, is_some,
}
use doc_flow.Validation.Numbers.{Decimal, digits}
pub mod Scale
pub mod Rounded
pub mod Header
pub mod Exact

-- the distance of two numbers
abbrev pub dist : ℕ → ℕ → ℕ
dist x y = (x - y) + (y - x)

-- the coefficient of a Decimal written with `m` digits after the point
abbrev pub aligned : ℕ → Decimal → ℕ
aligned m d = d.coefficient * 10 ^ (m - d.places)

-- `abs(value)`
abbrev pub magnitude : Decimal → Decimal
magnitude a = record a { negative = false }

abbrev pub negated : Decimal → Decimal
negated a = record a { negative = not a.negative }

-- a number of sign `s` and one of the other sign
abbrev pub difference : Bool → ℕ → ℕ → ℕ → Decimal
difference s x y m = record {
  negative = if ltb y x then s else not s && ltb x y;
  coefficient = dist x y;
  places = m;
}

abbrev pub joined : Bool → ℕ → Bool → ℕ → ℕ → Decimal
joined true x true y m = record { negative = true; coefficient = x + y; places = m }
joined true x false y m = difference true x y m
joined false x true y m = difference false x y m
joined false x false y m = record { negative = false; coefficient = x + y; places = m }

unfoldable pub plus : Decimal → Decimal → Decimal
plus a b =
    let m = max a.places b.places in joined a.negative (aligned m a) b.negative (aligned m b) m

abbrev pub minus : Decimal → Decimal → Decimal
minus a b = plus a (negated b)

abbrev pub times : Decimal → Decimal → Decimal
times a b = record {
  negative = a.negative && not b.negative || not a.negative && b.negative;
  coefficient = a.coefficient * b.coefficient;
  places = a.places + b.places;
}

abbrev pub signed_leb : Bool → ℕ → Bool → ℕ → Bool
signed_leb true x true y = leb y x
signed_leb true x false y = true
signed_leb false x true y = x == 0 && y == 0
signed_leb false x false y = leb x y

-- `a <= b`
unfoldable pub is_le : Decimal → Decimal → Bool
is_le a b =
    let m = max a.places b.places in signed_leb a.negative (aligned m a) b.negative (aligned m b)

abbrev pub unsigned : ℕ → ℕ → Decimal
unsigned c p = record { negative = false; coefficient = c; places = p }

abbrev pub line_total_rounding : Decimal
line_total_rounding = unsigned 1 2

abbrev pub min_price_decimal_places : ℕ
min_price_decimal_places = 2

abbrev pub header_total_per_line_allowance : Decimal
header_total_per_line_allowance = unsigned 1 2

abbrev pub unit_price_half_step : Decimal → Decimal
unit_price_half_step unit_price = unsigned 5 (suc (max min_price_decimal_places unit_price.places))

abbrev pub line_total_tolerance : Decimal → Decimal → Decimal
line_total_tolerance quantity unit_price =
    plus line_total_rounding (times (magnitude quantity) (unit_price_half_step unit_price))

unfoldable pub check_line_total :
    Option Decimal → Option Decimal → Option Decimal → Option (Decimal × Decimal)
check_line_total none unit_price line_total = none
check_line_total (some quantity) none line_total = none
check_line_total (some quantity) (some unit_price) none = none
check_line_total (some quantity) (some unit_price) (some line_total) =
    let expected = times quantity unit_price in
    let delta = minus line_total expected in
    if is_le (magnitude delta) (line_total_tolerance quantity unit_price)
    then none
    else some (expected, delta)

-- `Decimal * int` of the allowance
abbrev pub header_total_tolerance : ℕ → Decimal
header_total_tolerance line_count =
    times header_total_per_line_allowance (unsigned (max line_count 1) 0)

-- `sum(..., start)`
unfoldable pub sum_from : Decimal → List (Option Decimal) → Decimal
sum_from start [] = start
sum_from start (none ∷ vs) = sum_from start vs
sum_from start (some v ∷ vs) = sum_from (plus start v) vs

abbrev pub is_missing : Option Decimal → Bool
is_missing v = not (is_some v)

unfoldable pub check_header_total :
    Option Decimal → List (Option Decimal) → Option (Decimal × Decimal)
check_header_total none line_totals = none
check_header_total (some order_total) [] = none
check_header_total (some order_total) (v ∷ vs) =
    let expected_sum = sum_from (unsigned 0 0) (v ∷ vs) in
    let delta = minus order_total expected_sum in
    if any is_missing (v ∷ vs) || is_le (magnitude delta) (header_total_tolerance (length (v ∷ vs)))
    then none
    else some (expected_sum, delta)

unfoldable pub check_quantity : Option Decimal → Bool
check_quantity none = false
check_quantity (some quantity) = is_le quantity (unsigned 0 0)

-- `len(v.as_tuple().digits) + abs(exponent)`
abbrev pub size : Decimal → ℕ
size v = length (digits (suc v.coefficient) v.coefficient) + v.places

abbrev pub sizes : List Decimal → ℕ
sizes [] = 0
sizes (v ∷ vs) = size v + sizes vs

unfoldable pub exact_context_precision : List Decimal → ℕ
exact_context_precision values = max 28 (2 * sizes values + 10)
