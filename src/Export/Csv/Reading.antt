-- ===== src/Export/Csv/Reading.antt =====
-- The reader of packages/core/docflow_core/exports.py on what the writer wrote.
use doc_flow.Prelude.{
  ℕ, ◌≡◌, refl, sym, ap, ◌∙◌, Bool, true, false, not, List, [], ◌∷◌, ◌++◌, any, all, ◌==◌, inl, inr,
  Bool-cases, arith,
}
use mathlib.Core.List.{append_assoc, append-nil}
use doc_flow.Prelude.Sort.{Text}
use doc_flow.Export.Csv.{
  Mode, record_start, field_start, in_field, in_quotes, quote_in_quotes, Reader, add_char,
  is_newline, is_special, doubled, quoted, write_field, write_fields, write_row, write_rows,
  read_first, read_char, read_chars,
}

read_chars-append :
    (s r : Text) (st : Reader) → read_chars (s ++ r) st ≡ read_chars r (read_chars s st)
unfolding read_chars
read_chars-append [] r st = refl
read_chars-append (c ∷ s) r st = read_chars-append s r (read_char c st)

abbrev pub two_or_more : List Text → Bool
two_or_more [] = false
two_or_more (f ∷ []) = false
two_or_more (f ∷ g ∷ fs) = true

abbrev starts_row : Text → Bool
starts_row [] = false
starts_row (c ∷ s) = not (is_newline c)

write_row-starts : (f g : Text) (fs : List Text) → starts_row (write_row (f ∷ g ∷ fs)) ≡ true
unfolding write_fields
write_row-starts [] g fs = refl
write_row-starts (c ∷ s) g fs = elim (Bool-cases (is_special c)) [
  | inl e ↦ rw e
  | inr e ↦
      let plain : is_newline c ≡ false = ground arith in
      elim (Bool-cases (any is_special s)) [ inl e' ↦ rw (e, e') | inr e' ↦ rw (e, e', plain) ]
]

write_row-fields :
    (f g : Text) (fs : List Text) → write_row (f ∷ g ∷ fs) ≡ write_fields (f ∷ g ∷ fs)
write_row-fields [] g fs = refl
write_row-fields (c ∷ s) g fs = refl

abbrev pub at : Mode → Text → List Text → List (List Text) → Reader
at m f row rows = record { mode = m; field = f; row = row; rows = rows }

-- One step of the machine, by the character.
step_plain :
    (c : ℕ) (f : Text) (row : List Text) (rows : List (List Text))
    → is_special c ≡ false
    → read_char c (at in_field f row rows) ≡ at in_field (f ++ c ∷ []) row rows
unfolding read_char
step_plain c f row rows h = ground arith

first_plain : (c : ℕ) (r : Reader) → is_special c ≡ false → read_first c r ≡ add_char c in_field r
first_plain c r h = ground arith

step_quoted :
    (c : ℕ) (f : Text) (row : List Text) (rows : List (List Text))
    → (c == 34) ≡ false
    → read_char c (at in_quotes f row rows) ≡ at in_quotes (f ++ c ∷ []) row rows
unfolding read_char
step_quoted c f row rows h = rw h

next_char : (f : Text) (c : ℕ) (s : Text) → (f ++ c ∷ []) ++ s ≡ f ++ c ∷ s
next_char f c s = append_assoc f (c ∷ []) s

-- the characters of a field without quotes
plain_chars :
    (s f : Text) (row : List Text) (rows : List (List Text))
    → any is_special s ≡ false
    → read_chars s (at in_field f row rows) ≡ at in_field (f ++ s) row rows
unfolding read_chars
plain_chars [] f row rows h = ap (λ g. at in_field g row rows) (sym (append-nil f))
plain_chars (c ∷ s) f row rows h = elim (Bool-cases (is_special c)) [
  | inl e ↦ absurd (cc (rw e at h))
  | inr e ↦
      ap (read_chars s) (step_plain c f row rows e)
      ∙ plain_chars s (f ++ c ∷ []) row rows (rw e at h)
      ∙ ap (λ g. at in_field g row rows) (next_char f c s)
]

-- the characters between quotes
doubled_chars :
    (s f : Text) (row : List Text) (rows : List (List Text))
    → read_chars (doubled s) (at in_quotes f row rows) ≡ at in_quotes (f ++ s) row rows
doubled_chars [] f row rows =
    unfold read_chars in ap (λ g. at in_quotes g row rows) (sym (append-nil f))
doubled_chars (c ∷ s) f row rows = elim (Bool-cases (c == 34)) [
  | inl e ↦
      let here : c ≡ 34 = ground arith in
      rw e (
        two_quotes
        ∙ doubled_chars s (f ++ 34 ∷ []) row rows
        ∙ ap (λ g. at in_quotes g row rows) (next_char f 34 s)
        ∙ ap (λ n. at in_quotes (f ++ n ∷ s) row rows) (sym here))
  | inr e ↦ rw e (
      one_char e
      ∙ doubled_chars s (f ++ c ∷ []) row rows
      ∙ ap (λ g. at in_quotes g row rows) (next_char f c s))
]
  where
    two_quotes :
        read_chars (34 ∷ 34 ∷ doubled s) (at in_quotes f row rows)
        ≡ read_chars (doubled s) (at in_quotes (f ++ 34 ∷ []) row rows)
    two_quotes = unfold read_chars read_char in refl

    one_char :
        (c == 34) ≡ false
        → read_chars (c ∷ doubled s) (at in_quotes f row rows)
          ≡ read_chars (doubled s) (at in_quotes (f ++ c ∷ []) row rows)
    one_char e = unfold read_chars in ap (read_chars (doubled s)) (step_quoted c f row rows e)

-- What a reader is after a field: the separator decides which.
abbrev Ready : Text → List Text → List (List Text) → Reader → Type 0
Ready f row rows r =
    (read_char 44 r ≡ at field_start [] (row ++ f ∷ []) rows)
    × (read_chars (13 ∷ 10 ∷ []) r ≡ at record_start [] [] (rows ++ (row ++ f ∷ []) ∷ []))

ready_plain :
    (f : Text) (row : List Text) (rows : List (List Text))
    → Ready f row rows (at in_field f row rows)
unfolding read_char read_chars
ready_plain f row rows = (refl, refl)

ready_quoted :
    (f : Text) (row : List Text) (rows : List (List Text))
    → Ready f row rows (at quote_in_quotes f row rows)
unfolding read_char read_chars
ready_quoted f row rows = (refl, refl)

ready_empty :
    (row : List Text) (rows : List (List Text)) → Ready [] row rows (at field_start [] row rows)
unfolding read_char read_chars
ready_empty row rows = (refl, refl)

read-quoted :
    (f : Text) (row : List Text) (rows : List (List Text))
    → read_chars (quoted f) (at field_start [] row rows) ≡ at quote_in_quotes f row rows
read-quoted f row rows =
    open_quote
    ∙ read_chars-append (doubled f) (34 ∷ []) (at in_quotes [] row rows)
    ∙ ap (read_chars (34 ∷ [])) (doubled_chars f [] row rows)
    ∙ close_quote
  where
    open_quote :
        read_chars (quoted f) (at field_start [] row rows)
        ≡ read_chars (doubled f ++ 34 ∷ []) (at in_quotes [] row rows)
    open_quote = unfold read_chars read_char in refl

    close_quote : read_chars (34 ∷ []) (at in_quotes f row rows) ≡ at quote_in_quotes f row rows
    close_quote = unfold read_chars read_char in refl

read-plain :
    (c : ℕ) (s : Text) (row : List Text) (rows : List (List Text))
    → is_special c ≡ false
    → any is_special s ≡ false
    → read_chars (c ∷ s) (at field_start [] row rows) ≡ at in_field (c ∷ s) row rows
read-plain c s row rows e h = first ∙ plain_chars s (c ∷ []) row rows h
  where
    first :
        read_chars (c ∷ s) (at field_start [] row rows)
        ≡ read_chars s (at in_field (c ∷ []) row rows)
    first =
        unfold read_chars read_char in
        ap (read_chars s) (first_plain c (at field_start [] row rows) e)

-- A field as it is written, quoted or not.
write_field-Ready :
    (f : Text) (row : List Text) (rows : List (List Text))
    → Ready f row rows (read_chars (write_field f) (at field_start [] row rows))
write_field-Ready [] row rows = unfold read_chars in ready_empty row rows
write_field-Ready (c ∷ s) row rows = elim (Bool-cases (is_special c)) [
  | inl e ↦ rw (e, read-quoted (c ∷ s) row rows) (ready_quoted (c ∷ s) row rows)
  | inr e ↦ elim (Bool-cases (any is_special s)) [
    | inl e' ↦ rw (e, e', read-quoted (c ∷ s) row rows) (ready_quoted (c ∷ s) row rows)
    | inr e' ↦ rw (e, e', read-plain c s row rows e e') (ready_plain (c ∷ s) row rows)
  ]
]

write_fields-read :
    (f : Text) (fs row : List Text) (rows : List (List Text))
    → read_chars (write_fields (f ∷ fs)) (at field_start [] row rows)
      ≡ at record_start [] [] (rows ++ (row ++ f ∷ fs) ∷ [])
unfolding write_fields
write_fields-read f [] row rows =
    read_chars-append (write_field f) (13 ∷ 10 ∷ []) (at field_start [] row rows)
    ∙ (write_field-Ready f row rows).1
write_fields-read f (g ∷ fs) row rows =
    read_chars-append (write_field f) (44 ∷ write_fields (g ∷ fs)) (at field_start [] row rows)
    ∙ comma
    ∙ write_fields-read g fs (row ++ f ∷ []) rows
    ∙ ap (λ r. at record_start [] [] (rows ++ r ∷ [])) (append_assoc row (f ∷ []) (g ∷ fs))
  where
    comma :
        read_chars
          (44 ∷ write_fields (g ∷ fs))
          (read_chars (write_field f) (at field_start [] row rows))
        ≡ read_chars (write_fields (g ∷ fs)) (at field_start [] (row ++ f ∷ []) rows)
    comma =
        unfold read_chars in
        ap (read_chars (write_fields (g ∷ fs))) (write_field-Ready f row rows).0

-- A record begins like a field, but for a line end.
record_as_field :
    (s : Text) (rows : List (List Text))
    → starts_row s ≡ true
    → read_chars s (at record_start [] [] rows) ≡ read_chars s (at field_start [] [] rows)
unfolding read_chars read_char
record_as_field [] rows h = absurd (cc h)
record_as_field (c ∷ s) rows h =
    let plain : is_newline c ≡ false = ground arith in ap (read_chars s) (rw plain)

-- Rows of two fields or more are read as they were written.
pub write_rows-read :
    (written rows : List (List Text))
    → all two_or_more written ≡ true
    → read_chars (write_rows written) (at record_start [] [] rows)
      ≡ at record_start [] [] (rows ++ written)
unfolding write_rows
write_rows-read [] rows h = unfold read_chars in ap (at record_start [] []) (sym (append-nil rows))
write_rows-read ([] ∷ written) rows h = absurd (cc h)
write_rows-read ((f ∷ []) ∷ written) rows h = absurd (cc h)
write_rows-read ((f ∷ g ∷ fs) ∷ written) rows h =
    read_chars-append (write_row (f ∷ g ∷ fs)) (write_rows written) (at record_start [] [] rows)
    ∙ ap (read_chars (write_rows written))
        (record_as_field (write_row (f ∷ g ∷ fs)) rows (write_row-starts f g fs) ∙ row_read)
    ∙ write_rows-read written (rows ++ (f ∷ g ∷ fs) ∷ []) h
    ∙ ap (at record_start [] []) (append_assoc rows ((f ∷ g ∷ fs) ∷ []) written)
  where
    row_read :
        read_chars (write_row (f ∷ g ∷ fs)) (at field_start [] [] rows)
        ≡ at record_start [] [] (rows ++ (f ∷ g ∷ fs) ∷ [])
    row_read =
        ap (λ w. read_chars w (at field_start [] [] rows)) (write_row-fields f g fs)
        ∙ write_fields-read f (g ∷ fs) [] rows
