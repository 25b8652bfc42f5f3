-- ===== src/Prelude/Sort.antt =====
-- Python's stable `sort`, and the order of texts. A text is the list of its code points.
use mathlib.Core.Path.{◌≡◌, refl, ap, ◌∙◌}
use mathlib.Core.Logic.{inl, inr}
use mathlib.Core.Bool.{Bool, true, false, not, ◌&&◌}
use mathlib.Core.List.{List, [], ◌∷◌, ◌++◌}
use Prim.Native.Nat.{ℕ}
use native.Mathlib.Omega.{arith}
use doc_flow.Prelude.Tests.{ltb, ◌==◌, ==_refl, if◌then◌else◌, Bool-cases}
use doc_flow.Prelude.Lists.{All, filter, Member}

abbrev pub Text : Type 0
Text = List ℕ

-- `a <= b`
unfoldable pub text_leb : Text → Text → Bool
text_leb [] b = true
text_leb (x ∷ a) [] = false
text_leb (x ∷ a) (y ∷ b) =
    let rest = text_leb a b in if ltb x y then true else if x == y then rest else false

-- `a == b`
unfoldable pub text_beq : Text → Text → Bool
text_beq [] [] = true
text_beq [] (y ∷ b) = false
text_beq (x ∷ a) [] = false
text_beq (x ∷ a) (y ∷ b) = x == y && text_beq a b

pub text_beq→eq : (a b : Text) → text_beq a b ≡ true → a ≡ b
unfolding text_beq
text_beq→eq [] [] h = refl
text_beq→eq [] (y ∷ b) h = cc
text_beq→eq (x ∷ a) [] h = cc
text_beq→eq (x ∷ a) (y ∷ b) h = elim (Bool-cases (x == y)) [
  | inl e ↦
      let head : x ≡ y = ground arith in
      let tail = text_beq→eq a b (rw e at h) in ap (λ c. c ∷ a) head ∙ ap (λ l. y ∷ l) tail
  | inr e ↦ cc (rw e at h)
]

pub text_beq_refl : (s : Text) → text_beq s s ≡ true
unfolding text_beq
text_beq_refl [] = refl
text_beq_refl (c ∷ s) = rw (==_refl c, text_beq_refl s)

-- Every element is in the relation with all that come after it.
module _ {ℓ} {A : Type ℓ} where
  abbrev pub Ordered {κ} : (A → A → Type κ) → List A → Type κ
  Ordered R [] = Unit
  Ordered R (x ∷ xs) = All (R x) xs × Ordered R xs

module _ {ℓ} {A : Type ℓ} (le : A → A → Bool) where
  -- an element goes before the first that it is not above: equal ones keep their order
  unfoldable pub insert : A → List A → List A
  insert x [] = x ∷ []
  insert x (y ∷ ys) = if le x y then x ∷ y ∷ ys else y ∷ insert x ys

  unfoldable pub sort : List A → List A
  unfolding insert
  sort [] = []
  sort (x ∷ xs) = insert x (sort xs)

  pub insert-All {κ} : (P : A → Type κ) (x : A) (ys : List A) → P x → All P ys → All P (insert x ys)
  unfolding insert
  insert-All P x [] h k = (h, tt)
  insert-All P x (y ∷ ys) h (k, ks) = elim (Bool-cases (le x y)) [
    | inl e ↦ rw e (h, (k, ks))
    | inr e ↦ rw e (k, insert-All P x ys h ks)
  ]

  pub sort-All {κ} : (P : A → Type κ) (xs : List A) → All P xs → All P (sort xs)
  unfolding sort
  sort-All P [] h = tt
  sort-All P (x ∷ xs) (h, hs) = insert-All P x (sort xs) h (sort-All P xs hs)

  -- Where a test `p` holds of the elements that go first, sorting is sorting the two halves.
  module _ (p : A → Bool) (first : (x y : A) → p x ≡ true → p y ≡ false → le x y ≡ true)
      (last : (x y : A) → p x ≡ false → p y ≡ true → le x y ≡ false) where
    insert_high :
        (x : A) (as' bs : List A)
        → p x ≡ true
        → All (λ b. p b ≡ false) bs
        → insert x (as' ++ bs) ≡ insert x as' ++ bs
    unfolding insert
    insert_high x [] [] h k = refl
    insert_high x [] (b ∷ bs) h (k, ks) = rw (first x b h k)
    insert_high x (a ∷ as') bs h k = elim (Bool-cases (le x a)) [
      | inl e ↦ rw e
      | inr e ↦ rw e (ap (λ l. a ∷ l) (insert_high x as' bs h k))
    ]

    insert_low :
        (x : A) (as' bs : List A)
        → p x ≡ false
        → All (λ a. p a ≡ true) as'
        → insert x (as' ++ bs) ≡ as' ++ insert x bs
    unfolding insert
    insert_low x [] bs h k = refl
    insert_low x (a ∷ as') bs h (k, ks) =
        rw (last x a h k) (ap (λ l. a ∷ l) (insert_low x as' bs h ks))

    All-filter : (xs : List A) → All (λ a. p a ≡ true) (filter p xs)
    All-filter [] = tt
    All-filter (x ∷ xs) = elim (Bool-cases (p x)) [
      | inl e ↦ rw e (e, All-filter xs)
      | inr e ↦ rw e (All-filter xs)
    ]

    All-filter-not : (xs : List A) → All (λ a. p a ≡ false) (filter (λ x. not (p x)) xs)
    All-filter-not [] = tt
    All-filter-not (x ∷ xs) = elim (Bool-cases (p x)) [
      | inl e ↦ rw e (All-filter-not xs)
      | inr e ↦ rw e (e, All-filter-not xs)
    ]

    pub sort-filter :
        (xs : List A) → sort xs ≡ sort (filter p xs) ++ sort (filter (λ x. not (p x)) xs)
    unfolding sort
    sort-filter [] = refl
    sort-filter (x ∷ xs) = elim (Bool-cases (p x)) [
      | inl e ↦ rw e (
          ap (insert x) (sort-filter xs)
          ∙ insert_high x (sort (filter p xs)) _ e
              (sort-All (λ a. p a ≡ false) _ (All-filter-not xs)))
      | inr e ↦ rw e (
          ap (insert x) (sort-filter xs)
          ∙ insert_low x (sort (filter p xs)) _ e (sort-All (λ a. p a ≡ true) _ (All-filter xs)))
    ]

  module _ {κ} (R : A → A → Type κ) (below : (x y : A) → le x y ≡ true → R x y)
      (above : (x y : A) → le x y ≡ false → R y x)
      (trans : (x y z : A) → R x y → R y z → R x z) where
    All-trans : (x y : A) (zs : List A) → R x y → All (R y) zs → All (R x) zs
    All-trans x y [] h k = tt
    All-trans x y (z ∷ zs) h (k, ks) = (trans x y z h k, All-trans x y zs h ks)

    insert-Ordered : (x : A) (ys : List A) → Ordered R ys → Ordered R (insert x ys)
    unfolding insert
    insert-Ordered x [] h = (tt, tt)
    insert-Ordered x (y ∷ ys) (k, ks) = elim (Bool-cases (le x y)) [
      | inl e ↦ rw e ((below x y e, All-trans x y ys (below x y e) k), (k, ks))
      | inr e ↦ rw e (insert-All (R y) x ys (above x y e) k, insert-Ordered x ys ks)
    ]

    pub sort-Ordered : (xs : List A) → Ordered R (sort xs)
    unfolding sort
    sort-Ordered [] = tt
    sort-Ordered (x ∷ xs) = insert-Ordered x (sort xs) (sort-Ordered xs)

module _ {A : Type 0} (le : A → A → Bool) where
  insert-Member : (z x : A) (ys : List A) → Member (x ∷ ys) z → Member (insert le x ys) z
  unfolding insert
  insert-Member z x [] h = h
  insert-Member z x (y ∷ ys) h = elim (Bool-cases (le x y)) [
    | inl e ↦ rw e h
    | inr e ↦ rw e (elim h [
      | inl here ↦ inr (insert-Member z x ys (inl here))
      | inr (inl next) ↦ inl next
      | inr (inr later) ↦ inr (insert-Member z x ys (inr later))
    ])
  ]

  pub sort-Member : (z : A) (xs : List A) → Member xs z → Member (sort le xs) z
  unfolding sort
  sort-Member z [] h = h
  sort-Member z (x ∷ xs) (inl h) = insert-Member z x (sort le xs) (inl h)
  sort-Member z (x ∷ xs) (inr h) = insert-Member z x (sort le xs) (inr (sort-Member z xs h))
