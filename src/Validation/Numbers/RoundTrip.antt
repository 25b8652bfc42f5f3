-- ===== src/Validation/Numbers/RoundTrip.antt =====
-- `plain` and `parse_document_number` of packages/core/docflow_core/numbers.py, one after the other.
use doc_flow.Prelude.{
  ℕ, zero, suc, ◌+◌, ◌/◌, ◌%◌, ◌<◌, true, false, Option, none, some, [], ◌∷◌, ◌++◌, ltb, all, ◌≡◌,
  refl, ap, ◌∙◌, inl, inr, Bool-cases, arith,
}
use doc_flow.Prelude.Sort.{Text}
use doc_flow.Validation.Numbers.{
  DigitTable, non_empty, is_decimal_digit, rest_matches, is_document_number, read_char, read_number,
  decimal_of, parse_document_number, split_digits, digits, point_and, plain,
}

module _ (d : DigitTable) where
  read_number-append :
      (st : ℕ × Option ℕ) (s r : Text)
      → read_number d st (s ++ r) ≡ read_number d (read_number d st s) r
  unfolding read_number
  read_number-append st [] r = refl
  read_number-append st (c ∷ s) r = read_number-append (read_char d st (d.digit_value c)) s r

  read_end : (st : ℕ × Option ℕ) → read_number d st [] ≡ st
  unfolding read_number
  read_end st = refl

  read_one :
      (st : ℕ × Option ℕ) (v : ℕ)
      → v < 10
      → read_number d st ((v + 48) ∷ []) ≡ read_char d st (some v)
  unfolding read_number
  read_one st v h = rw (d.ascii_digits v h)

  -- the last digit of a number
  read_last :
      (st : ℕ × Option ℕ) (n : ℕ)
      → read_number d st ((n % 10 + 48) ∷ []) ≡ read_char d st (some (n % 10))
  read_last st n = read_one st (n % 10) (omega arith)

  pub read-digits : (fuel n : ℕ) → n < fuel → read_number d (0, none) (digits fuel n) ≡ (n, none)
  unfolding digits
  read-digits zero n h = absurd (omega arith)
  read-digits (suc fuel) n h = elim (Bool-cases (ltb n 10)) [
    | inl e ↦ rw (e, read_one (0, none) n (ground arith)) (ap (λ m. (m, none)) (omega arith))
    | inr e ↦
        rw
          (
            e,
            read_number-append (0, none) (digits fuel (n / 10)) ((n % 10 + 48) ∷ []),
            read-digits fuel (n / 10) (ground arith),
            read_last (n / 10, none) n,
          )
          (ap (λ m. (m, none)) (omega arith))
  ]

  -- the digits after the point, once it is read
  read-fraction :
      (k n : ℕ) → read_number d ((split_digits k n).0, some 0) (split_digits k n).1 ≡ (n, some k)
  unfolding split_digits read_number
  read-fraction zero n = refl
  read-fraction (suc k) n =
      rw
        (
          read_number-append ((split_digits k (n / 10)).0, some 0) (split_digits k (n / 10)).1
              ((n % 10 + 48) ∷ []),
          read-fraction k (n / 10),
          read_last (n / 10, some k) n,
        )
        (ap (λ m. (m, some (suc k))) (omega arith))

  abbrev pub AllDigits : Text → Type 0
  AllDigits s = all (is_decimal_digit d) s ≡ true

  AllDigits-end : (s : Text) (n : ℕ) → AllDigits s → AllDigits (s ++ (n % 10 + 48) ∷ [])
  AllDigits-end [] n h = rw (d.ascii_digits (n % 10) (omega arith))
  AllDigits-end (c ∷ s) n h = elim (Bool-cases (is_decimal_digit d c)) [
    | inl e ↦ rw e (AllDigits-end s n (rw e at h))
    | inr e ↦ absurd (cc (rw e at h))
  ]

  pub digits-AllDigits : (fuel n : ℕ) → AllDigits (digits fuel n)
  unfolding digits
  digits-AllDigits zero n = refl
  digits-AllDigits (suc fuel) n = elim (Bool-cases (ltb n 10)) [
    | inl e ↦ rw (e, d.ascii_digits n (ground arith))
    | inr e ↦ rw e (AllDigits-end (digits fuel (n / 10)) n (digits-AllDigits fuel (n / 10)))
  ]

  split_digits-AllDigits : (k n : ℕ) → AllDigits (split_digits k n).1
  unfolding split_digits
  split_digits-AllDigits zero n = refl
  split_digits-AllDigits (suc k) n =
      AllDigits-end (split_digits k (n / 10)).1 n (split_digits-AllDigits k (n / 10))

  rest_matches-digits : (s r : Text) → AllDigits s → rest_matches d (s ++ r) ≡ rest_matches d r
  unfolding rest_matches
  rest_matches-digits [] r h = refl
  rest_matches-digits (c ∷ s) r h = elim (Bool-cases (is_decimal_digit d c)) [
    | inl e ↦ rw e (rest_matches-digits s r (rw e at h))
    | inr e ↦ absurd (cc (rw e at h))
  ]

  rest_matches-point_and : (s : Text) → AllDigits s → rest_matches d (point_and s) ≡ true
  unfolding rest_matches
  rest_matches-point_and [] h = refl
  rest_matches-point_and (c ∷ s) h = rw (d.no_point) h

  -- what `is_document_number` asks of a text that is not empty
  starts_with_digit :
      (s r : Text)
      → non_empty s ≡ true
      → AllDigits s
      → is_document_number d (s ++ r) ≡ rest_matches d (s ++ r)
  unfolding is_document_number rest_matches
  starts_with_digit [] r e h = absurd (cc e)
  starts_with_digit (c ∷ s) r e h = elim (Bool-cases (is_decimal_digit d c)) [
    | inl e' ↦ rw e'
    | inr e' ↦ absurd (cc (rw e' at h))
  ]

  pub digits-non_empty : (fuel n : ℕ) → non_empty (digits (suc fuel) n) ≡ true
  unfolding digits
  digits-non_empty fuel n = elim (Bool-cases (ltb n 10)) [
    | inl e ↦ rw e
    | inr e ↦ rw e (end_non_empty (digits fuel (n / 10)))
  ]
    where
      end_non_empty : (s : Text) → non_empty (s ++ (n % 10 + 48) ∷ []) ≡ true
      end_non_empty [] = refl
      end_non_empty (c ∷ s) = refl

  -- `plain` without its sign
  abbrev unsigned : ℕ → ℕ → Text
  unsigned n k =
      digits (suc (split_digits k n).0) (split_digits k n).0 ++ point_and (split_digits k n).1

  unsigned-is_document_number : (n k : ℕ) → is_document_number d (unsigned n k) ≡ true
  unsigned-is_document_number n k =
      let w = (split_digits k n).0 in
      starts_with_digit (digits (suc w) w) _ (digits-non_empty w w) (digits-AllDigits (suc w) w)
      ∙ rest_matches-digits (digits (suc w) w) _ (digits-AllDigits (suc w) w)
      ∙ rest_matches-point_and (split_digits k n).1 (split_digits-AllDigits k n)

  point_and-non_empty : (s : Text) → non_empty s ≡ true → point_and s ≡ b'.' ∷ s
  point_and-non_empty [] h = absurd (cc h)
  point_and-non_empty (c ∷ s) h = refl

  split_digits-non_empty : (k n : ℕ) → non_empty (split_digits (suc k) n).1 ≡ true
  unfolding split_digits
  split_digits-non_empty k n = ends (split_digits k (n / 10)).1
    where
      ends : (s : Text) → non_empty (s ++ (n % 10 + 48) ∷ []) ≡ true
      ends [] = refl
      ends (c ∷ s) = refl

  read_point :
      (w : ℕ) (s : Text)
      → non_empty s ≡ true
      → read_number d (w, none) (point_and s) ≡ read_number d (w, some 0) s
  unfolding read_number
  read_point w s h = rw (point_and-non_empty s h, d.no_point)

  read_whole : (n : ℕ) → read_number d (0, none) (unsigned n 0) ≡ (n, none)
  unfolding split_digits
  read_whole n =
      rw (read_number-append (0, none) (digits (suc n) n) [], read-digits (suc n) n (omega arith))
        (read_end (n, none))

  read_unsigned :
      (n k : ℕ)
      → decimal_of d (read_number d (0, none) (unsigned n k))
        ≡ record { negative = false; coefficient = n; places = k }
  read_unsigned n zero = rw (read_whole n)
  read_unsigned n (suc k) =
      let w = (split_digits (suc k) n).0 in
      let f = (split_digits (suc k) n).1 in
      rw (
        read_number-append (0, none) (digits (suc w) w) (point_and f),
        read-digits (suc w) w (omega arith),
        read_point w f (split_digits-non_empty k n),
        read-fraction (suc k) n,
      )

  -- Every number without a sign that the system writes down is a document number, and reading it
  -- gives the number that was written: every digit and every decimal place, trailing zeros included.
  pub parse_document_number-plain :
      (n k : ℕ)
      → parse_document_number d
          (some (plain (record { negative = false; coefficient = n; places = k })))
        ≡ some (record { negative = false; coefficient = n; places = k })
  unfolding parse_document_number plain
  parse_document_number-plain n k =
      rw (unsigned-is_document_number n k) (ap some (read_unsigned n k))
