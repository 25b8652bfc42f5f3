-- ===== src/Sweep/Rows.antt =====
-- The rows that the sweep of packages/core/docflow_core/stuck_documents.py selects, against the table
-- that they were read from: each is the one row with its id.
use doc_flow.Prelude.{
  ◌≡◌, ◌≢◌, refl, sym, ap, ◌∙◌, Bool, true, false, ◌||◌, List, [], ◌∷◌, filter, any, All, All-map,
  All-zip, ◌==◌, inl, inr, Bool-cases, arith,
}
use doc_flow.Prelude.Sort.{insert, sort, insert-All, sort-All}
use doc_flow.Status.Row.{Document}
use doc_flow.Status.Claiming.{Unique}

-- A row is what the table holds under its id.
abbrev pub Agrees : List Document → Document → Type 0
Agrees docs r = All (λ d. d.id ≡ r.id → d ≡ r) docs

module _ (p : Document → Bool) where
  pub filter-All {κ} : (P : Document → Type κ) (ds : List Document) → All P ds → All P (filter p ds)
  filter-All P [] h = tt
  filter-All P (d ∷ ds) (h, hs) = elim (Bool-cases (p d)) [
    | inl e ↦ rw e (h, filter-All P ds hs)
    | inr e ↦ rw e (filter-All P ds hs)
  ]

  pub filter-holds : (ds : List Document) → All (λ d. p d ≡ true) (filter p ds)
  filter-holds [] = tt
  filter-holds (d ∷ ds) = elim (Bool-cases (p d)) [
    | inl e ↦ rw e (e, filter-holds ds)
    | inr e ↦ rw e (filter-holds ds)
  ]

  filter-Unique : (ds : List Document) → Unique ds → Unique (filter p ds)
  filter-Unique [] u = tt
  filter-Unique (d ∷ ds) (fresh, u) = elim (Bool-cases (p d)) [
    | inl e ↦ rw e (filter-All (λ e. e.id ≢ d.id) ds fresh, filter-Unique ds u)
    | inr e ↦ rw e (filter-Unique ds u)
  ]

  -- what passes the test is found by its id among what passed
  found_here :
      (d : Document) (ds : List Document)
      → p d ≡ true
      → any (λ r. r.id == d.id) (filter p (d ∷ ds)) ≡ true
  found_here d ds h = rw h (found (any (λ r. r.id == d.id) (filter p ds)))
    where
      found : (b : Bool) → ((d.id == d.id) || b) ≡ true
      found b = ground arith

  found_later :
      (q : Document → Bool) (d : Document) (ds : List Document)
      → any q (filter p ds) ≡ true
      → any q (filter p (d ∷ ds)) ≡ true
  found_later q d ds h = elim (Bool-cases (p d)) [
    | inl e ↦ rw (e, h) (or_true (q d))
    | inr e ↦ rw e h
  ]
    where
      or_true : (b : Bool) → (b || true) ≡ true
      or_true true = refl
      or_true false = refl

  pub filter-found :
      (ds : List Document) → All (λ d. p d ≡ true → any (λ r. r.id == d.id) (filter p ds) ≡ true) ds
  filter-found [] = tt
  filter-found (d ∷ ds) = (
    found_here d ds,
    All-map (λ x h e. found_later (λ r. r.id == x.id) d ds (h e)) ds (filter-found ds),
  )

module _ (le : Document → Document → Bool) where
  insert-Unique :
      (d : Document) (ds : List Document)
      → All (λ e. e.id ≢ d.id) ds
      → Unique ds
      → Unique (insert le d ds)
  unfolding insert
  insert-Unique d [] fresh u = (tt, tt)
  insert-Unique d (x ∷ ds) (other, fresh) (new, u) = elim (Bool-cases (le d x)) [
    | inl e ↦ rw e ((other, fresh), (new, u))
    | inr e ↦
        rw e (
          insert-All le (λ y. y.id ≢ x.id) d ds (λ h. other (sym h)) new,
          insert-Unique d ds fresh u,
        )
  ]

  sort-Unique : (ds : List Document) → Unique ds → Unique (sort le ds)
  unfolding sort
  sort-Unique [] u = tt
  sort-Unique (d ∷ ds) (fresh, u) =
      insert-Unique d (sort le ds) (sort-All le (λ e. e.id ≢ d.id) ds fresh) (sort-Unique ds u)

  any-insert :
      (q : Document → Bool) (d : Document) (ds : List Document)
      → any q (insert le d ds) ≡ (q d || any q ds)
  unfolding insert
  any-insert q d [] = refl
  any-insert q d (x ∷ ds) = elim (Bool-cases (le d x)) [
    | inl e ↦ rw e
    | inr e ↦ rw (e, any-insert q d ds) (swapped (q x) (q d) (any q ds))
  ]
    where
      swapped : (a b c : Bool) → (a || (b || c)) ≡ (b || (a || c))
      swapped true true c = refl
      swapped true false c = refl
      swapped false true c = refl
      swapped false false c = refl

  pub any-sort : (q : Document → Bool) (ds : List Document) → any q (sort le ds) ≡ any q ds
  unfolding sort
  any-sort q [] = refl
  any-sort q (d ∷ ds) = any-insert q d (sort le ds) ∙ ap (λ b. q d || b) (any-sort q ds)

  pub sort-filter-Unique :
      (p : Document → Bool) (ds : List Document) → Unique ds → Unique (sort le (filter p ds))
  sort-filter-Unique p ds u = sort-Unique (filter p ds) (filter-Unique p ds u)

-- the rows of a table with unique ids agree with it
pub Unique-Agrees : (ds : List Document) → Unique ds → All (Agrees ds) ds
Unique-Agrees [] u = tt
Unique-Agrees (d ∷ ds) (fresh, u) = (
  ((λ e. refl), All-map (λ x other e. absurd (other e)) ds fresh),
  All-map (λ x h. ((λ e. absurd (h.0 (sym e))), h.1)) ds
      (All-zip (λ e. e.id ≢ d.id) (Agrees ds) ds fresh (Unique-Agrees ds u)),
)
