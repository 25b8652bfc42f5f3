-- ===== src/Export/Csv/Formulas.antt =====
-- What a spreadsheet program makes of the fields of a rendered file,
-- packages/core/docflow_core/exports.py.
use doc_flow.Prelude.{
  ℕ, ◌≡◌, refl, Bool, true, false, not, ◌&&◌, ◌||◌, Option, none, some, List, [], ◌∷◌, map, all,
  ◌==◌, inl, inr, Bool-cases, is_some, arith, contains,
}
use doc_flow.Prelude.Sort.{Text}
use doc_flow.Validation.Numbers.{
  DigitTable, is_decimal_digit, non_empty, rest_matches, is_document_number,
}
use doc_flow.Export.View.{OrderView, Row, flat_rows}
use doc_flow.Export.Csv.{is_trigger, is_plain_number, csv_escape, csv_rows}

-- the characters that make a spreadsheet program run a field: = + - @, a tab, a carriage return
abbrev pub formula_starts : List ℕ
formula_starts = b'=' ∷ b'+' ∷ b'-' ∷ b'@' ∷ 9 ∷ 13 ∷ []

abbrev pub is_digit_or_point : DigitTable → ℕ → Bool
is_digit_or_point d c = is_some (d.digit_value c) || c == b'.'

-- A field that is not run: it begins with none of these characters, or is a minus sign and then digits
-- and points, one at least.
abbrev pub is_neutral : DigitTable → Text → Bool
is_neutral d [] = true
is_neutral d (c ∷ s) =
    not (contains c formula_starts) || (c == b'-' && (non_empty s && all (is_digit_or_point d) s))

module _ (d : DigitTable) where
  digits-points :
      (s : Text) → all (is_decimal_digit d) s ≡ true → all (is_digit_or_point d) s ≡ true
  digits-points [] h = refl
  digits-points (c ∷ s) h = elim (Bool-cases (is_decimal_digit d c)) [
    | inl e ↦ rw e (digits-points s (rw e at h))
    | inr e ↦ cc (rw e at h)
  ]

  rest_matches-points : (s : Text) → rest_matches d s ≡ true → all (is_digit_or_point d) s ≡ true
  unfolding rest_matches
  rest_matches-points [] h = refl
  rest_matches-points (c ∷ s) h = elim (Bool-cases (is_decimal_digit d c)) [
    | inl e ↦ rw e (rest_matches-points s (rw e at h))
    | inr e ↦ rw e (point (rw e at h))
  ]
    where
      point :
          (c == b'.' && (non_empty s && all (is_decimal_digit d) s)) ≡ true
          → (c == b'.' && all (is_digit_or_point d) s) ≡ true
      point k = elim (Bool-cases (c == b'.')) [
        | inl e ↦ elim (Bool-cases (non_empty s)) [
          | inl e' ↦ rw e (digits-points s (rw (e, e') at k))
          | inr e' ↦ cc (rw (e, e') at k)
        ]
        | inr e ↦ cc (rw e at k)
      ]

  is_document_number-points :
      (s : Text)
      → is_document_number d s ≡ true
      → (non_empty s && all (is_digit_or_point d) s) ≡ true
  unfolding is_document_number
  is_document_number-points [] h = cc
  is_document_number-points (c ∷ s) h = elim (Bool-cases (is_decimal_digit d c)) [
    | inl e ↦ rw e (rest_matches-points s (rw e at h))
    | inr e ↦ cc (rw e at h)
  ]

abbrev pub NoneDigit : DigitTable → List ℕ → Type 0
NoneDigit d cs = all (λ c. not (is_some (d.digit_value c))) cs ≡ true

not_digit :
    (d : DigitTable) (c : ℕ) (cs : List ℕ)
    → NoneDigit d cs
    → contains c cs ≡ true
    → is_decimal_digit d c ≡ false
not_digit d c [] h k = cc
not_digit d c (b ∷ cs) h k = elim (Bool-cases (is_some (d.digit_value b))) [
  | inl e ↦ cc (rw e at h)
  | inr e ↦ elim (Bool-cases (c == b)) [
    | inl e' ↦ let same : c ≡ b = ground arith in rw same e
    | inr e' ↦ not_digit d c cs (rw e at h) (rw e' at k)
  ]
]

or_true : (b : Bool) → (b || true) ≡ true
or_true b = ground arith

is_trigger-starts : (c : ℕ) → is_trigger c ≡ false → contains c formula_starts ≡ false
is_trigger-starts c h = ground (arith, h)

module _ (d : DigitTable) (none_digit : NoneDigit d formula_starts) where
  -- a number with no sign begins with a digit
  number-neutral :
      (c : ℕ) (s : Text) → is_plain_number d (c ∷ s) ≡ true → is_neutral d (c ∷ s) ≡ true
  unfolding is_document_number
  number-neutral c s h = elim (Bool-cases (c == b'-')) [
    | inl e ↦ let points = is_document_number-points d s (rw e at h) in rw (e, points) (or_true _)
    | inr e ↦ elim (Bool-cases (contains c formula_starts)) [
      | inl k ↦
          let no : is_decimal_digit d c ≡ false = not_digit d c formula_starts none_digit k in
          cc (rw (e, no) at h)
      | inr k ↦ rw k
    ]
  ]

  csv_escape-neutral : (v : Option Text) → is_neutral d (csv_escape d v) ≡ true
  unfolding csv_escape
  csv_escape-neutral none = refl
  csv_escape-neutral (some []) = refl
  csv_escape-neutral (some (c ∷ s)) = elim (Bool-cases (is_trigger c)) [
    | inl e ↦ elim (Bool-cases (is_plain_number d (c ∷ s))) [
      | inl e' ↦ rw (e, e') (number-neutral c s e')
      | inr e' ↦ rw (e, e')
    ]
    | inr e ↦ rw e (rw (is_trigger-starts c e))
  ]

  row-neutral : (row : Row) → all (is_neutral d) (map (csv_escape d) row) ≡ true
  row-neutral [] = refl
  row-neutral (v ∷ row) = rw (csv_escape-neutral v, row-neutral row)

  rows-neutral : (rows : List Row) → all (all (is_neutral d)) (map (map (csv_escape d)) rows) ≡ true
  rows-neutral [] = refl
  rows-neutral (row ∷ rows) = rw (row-neutral row, rows-neutral rows)

  -- Where none of = + - @, the tab and the carriage return is a decimal digit: every field of every
  -- row that is written for an order begins with none of them, so that no spreadsheet program runs it,
  -- or it is a minus sign and then digits and points, one at least.
  pub csv_rows-neutral : (v : OrderView) → all (all (is_neutral d)) (csv_rows d v) ≡ true
  csv_rows-neutral v = rows-neutral (flat_rows v)
