-- ===== src/Review/Noted.antt =====
-- The ids that a reviewer's acknowledgements name, against the dict of notes that `approve_document` of
-- packages/core/docflow_core/review.py makes of them.
use doc_flow.Prelude.{
  ℕ, Bool, true, false, ◌&&◌, ◌||◌, Option, List, [], ◌∷◌, map, ◌≡◌, refl, ◌∙◌, inl, inr, arith,
  all, contains, is_some, ◌==◌, Bool-cases,
}
use doc_flow.Validation.Sync.{WarningRow}
use doc_flow.Review.Notes.{
  Acknowledgement, Notes, set_note, collect_notes, noted_ids, find_open, all_known, all_noted,
}

-- the ids that a list of acknowledgements, or of warnings, names
abbrev pub acknowledged_ids : List Acknowledgement → List ℕ
acknowledged_ids acks = map (λ a. a.warning_id) acks

abbrev pub warning_ids : List WarningRow → List ℕ
warning_ids rows = map (λ w. w.id) rows

module _ (i : ℕ) (v : Option (List ℕ)) where
  noted_ids-set_note :
      (j : ℕ) (notes : Notes)
      → contains j (noted_ids (set_note i v notes)) ≡ (j == i || contains j (noted_ids notes))
  noted_ids-set_note j [] = refl
  noted_ids-set_note j ((k, w) ∷ notes) = elim (Bool-cases (i == k)) [
    | inl e ↦ rw e (again e)
    | inr e ↦ let ih = noted_ids-set_note j notes in rw (e, ih) (swap (j == k) (j == i) _)
  ]
    where
      again :
          (i == k) ≡ true
          → (j == k || contains j (noted_ids notes))
            ≡ (j == i || (j == k || contains j (noted_ids notes)))
      again e = ground arith

      swap : (a b c : Bool) → (a || (b || c)) ≡ (b || (a || c))
      swap a b c = ground arith

  all-set_note :
      (p : ℕ → Bool) (notes : Notes)
      → all p (noted_ids (set_note i v notes)) ≡ (p i && all p (noted_ids notes))
  all-set_note p [] = refl
  all-set_note p ((k, w) ∷ notes) = elim (Bool-cases (i == k)) [
    | inl e ↦ let same_id : i ≡ k = ground arith in rw e (rw same_id (twice (p k) _))
    | inr e ↦ let ih = all-set_note p notes in rw (e, ih) (swap (p k) (p i) _)
  ]
    where
      twice : (a b : Bool) → (a && b) ≡ (a && (a && b))
      twice a b = ground arith

      swap : (a b c : Bool) → (a && (b && c)) ≡ (b && (a && c))
      swap a b c = ground arith

noted_ids-collect_notes :
    (j : ℕ) (acks : List Acknowledgement) (notes : Notes)
    → contains j (noted_ids (collect_notes acks notes))
      ≡ (contains j (acknowledged_ids acks) || contains j (noted_ids notes))
unfolding collect_notes
noted_ids-collect_notes j [] notes = refl
noted_ids-collect_notes j (a ∷ acks) notes =
    noted_ids-collect_notes j acks (set_note a.warning_id a.note_text notes)
    ∙ (rw (noted_ids-set_note a.warning_id a.note_text j notes) (swap _ (j == a.warning_id) _))
  where
    swap : (x y z : Bool) → (x || (y || z)) ≡ ((y || x) || z)
    swap x y z = ground arith

all-collect_notes :
    (p : ℕ → Bool) (acks : List Acknowledgement) (notes : Notes)
    → all p (noted_ids (collect_notes acks notes))
      ≡ (all (λ a. p a.warning_id) acks && all p (noted_ids notes))
unfolding collect_notes
all-collect_notes p [] notes = refl
all-collect_notes p (a ∷ acks) notes =
    all-collect_notes p acks (set_note a.warning_id a.note_text notes)
    ∙ (rw (all-set_note a.warning_id a.note_text p notes) (swap _ (p a.warning_id) _))
  where
    swap : (x y z : Bool) → (x && (y && z)) ≡ ((y && x) && z)
    swap x y z = ground arith

find_open-warning_ids :
    (i : ℕ) (rows : List WarningRow) → is_some (find_open i rows) ≡ contains i (warning_ids rows)
find_open-warning_ids i [] = refl
find_open-warning_ids i (w ∷ rows) = elim (Bool-cases (i == w.id)) [
  | inl e ↦ rw e refl
  | inr e ↦ rw e (find_open-warning_ids i rows)
]

all-eq : {A : Type 0} (p q : A → Bool) → ((x : A) → p x ≡ q x) → (xs : List A) → all p xs ≡ all q xs
all-eq p q h [] = refl
all-eq p q h (x ∷ xs) = rw (h x, all-eq p q h xs)

or_false : (b : Bool) → (b || false) ≡ b
or_false b = ground arith

and_true : (b : Bool) → (b && true) ≡ b
and_true b = ground arith

-- no note is of an unknown warning, said of the acknowledgements
pub all_known-acknowledged :
    (opens : List WarningRow) (acks : List Acknowledgement)
    → all_known opens (collect_notes acks [])
      ≡ all (λ a. contains a.warning_id (warning_ids opens)) acks
all_known-acknowledged opens acks =
    all-collect_notes (λ i. is_some (find_open i opens)) acks []
    ∙ and_true _
    ∙ all-eq _ _ (λ a. find_open-warning_ids a.warning_id opens) acks

pub all_noted-acknowledged :
    (opens : List WarningRow) (acks : List Acknowledgement)
    → all_noted opens (collect_notes acks [])
      ≡ all (λ w. contains w.id (acknowledged_ids acks)) opens
all_noted-acknowledged opens acks =
    all-eq _ _ (λ w. noted_ids-collect_notes w.id acks [] ∙ or_false _) opens
