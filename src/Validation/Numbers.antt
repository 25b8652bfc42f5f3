-- ===== src/Validation/Numbers.antt =====
-- Document numbers, packages/core/docflow_core/numbers.py: what one is, reading it and writing it
-- down. A Decimal is a sign, a coefficient and the number of digits after the point; one with a
-- positive exponent, which no document number and no stored `numeric` has, is left out.
use doc_flow.Prelude.{
  ℕ, zero, suc, ◌+◌, ◌-◌, ◌*◌, ◌/◌, ◌%◌, ◌≤◌, ◌<◌, Bool, true, false, not, ◌&&◌, ◌||◌, Option, none,
  some, List, [], ◌∷◌, ◌++◌, ltb, leb, ◌==◌, if◌then◌else◌, all, is_some, ◌≡◌,
}
use doc_flow.Prelude.Sort.{Text}
pub mod RoundTrip

pub record Decimal : Type 0 where
  pub negative : Bool
  pub coefficient : ℕ
  pub places : ℕ

-- Python's table of the decimal digits, which `\d` and `Decimal` read: those of Unicode, and so not
-- those of ASCII alone.
pub record DigitTable : Type 0 where
  pub digit_value : ℕ → Option ℕ
  pub ascii_digits : (v : ℕ) → v < 10 → digit_value (v + 48) ≡ some v
  pub no_point : digit_value b'.' ≡ none
  pub no_apostrophe : digit_value 39 ≡ none

abbrev pub unusual_decimal_places : ℕ
unusual_decimal_places = 6

abbrev pub non_empty : Text → Bool
non_empty [] = false
non_empty (c ∷ s) = true

-- where the rest has no point, `decimal_places` counts no digit
abbrev pub or_zero : Option ℕ → ℕ
or_zero none = 0
or_zero (some v) = v

module _ (d : DigitTable) where
  abbrev pub is_decimal_digit : ℕ → Bool
  is_decimal_digit c = is_some (d.digit_value c)

  -- `\d*(\.\d+)?` to the end of the text
  unfoldable pub rest_matches : Text → Bool
  rest_matches [] = true
  rest_matches (c ∷ s) =
      let rest = rest_matches s in
      if is_decimal_digit c then rest else c == b'.' && (non_empty s && all is_decimal_digit s)

  -- `DOCUMENT_NUMBER.fullmatch(text) is not None` with `\d+(\.\d+)?`
  unfoldable pub is_document_number : Text → Bool
  is_document_number [] = false
  is_document_number (c ∷ s) = is_decimal_digit c && rest_matches s

  -- `Decimal(text)` of a text that matches: the digits read so far, and the places after the point
  -- once it has been read
  abbrev pub read_char : ℕ × Option ℕ → Option ℕ → ℕ × Option ℕ
  read_char (n, none) none = (n, some 0)
  read_char (n, some k) none = (n, some k)
  read_char (n, none) (some v) = (n * 10 + v, none)
  read_char (n, some k) (some v) = (n * 10 + v, some (suc k))

  unfoldable pub read_number : ℕ × Option ℕ → Text → ℕ × Option ℕ
  read_number st [] = st
  read_number st (c ∷ s) = read_number (read_char st (d.digit_value c)) s

  abbrev pub decimal_of : ℕ × Option ℕ → Decimal
  decimal_of (n, k) = record { negative = false; coefficient = n; places = or_zero k }

  unfoldable pub parse_document_number : Option Text → Option Decimal
  parse_document_number none = none
  parse_document_number (some text) =
      if is_document_number text then some (decimal_of (read_number (0, none) text)) else none

-- The last `k` digits of a coefficient, and what stands before them.
unfoldable pub split_digits : ℕ → ℕ → ℕ × Text
split_digits zero n = (n, [])
split_digits (suc k) n =
    let (whole, fraction) = split_digits k (n / 10) in (whole, fraction ++ (n % 10 + 48) ∷ [])

-- the digits of a number without leading zeros; more fuel than the number is enough
unfoldable pub digits : ℕ → ℕ → Text
digits zero n = []
digits (suc fuel) n =
    let rest = digits fuel (n / 10) in
    if ltb n 10 then (n + 48) ∷ [] else rest ++ (n % 10 + 48) ∷ []

abbrev pub point_and : Text → Text
point_and [] = []
point_and (c ∷ s) = b'.' ∷ c ∷ s

-- `format(value, "f")`
unfoldable pub plain : Decimal → Text
plain value =
    let (whole, fraction) = split_digits value.places value.coefficient in
    let number = digits (suc whole) whole ++ point_and fraction in
    if value.negative then b'-' ∷ number else number

abbrev pub plain_or_none : Option Decimal → Option Text
plain_or_none none = none
plain_or_none (some value) = some (plain value)

abbrev pub decimal_places : Decimal → ℕ
decimal_places value = value.places
