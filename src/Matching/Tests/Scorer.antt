-- ===== src/Matching/Tests/Scorer.antt =====
-- A case table and a scorer that answer as the laws of matching's two parameters say.
use doc_flow.Prelude.{
  ℕ, zero, suc, ◌+◌, ◌-◌, ◌≤◌, ◌≡◌, ◌⊎◌, Bool, true, false, ◌&&◌, ◌||◌, some, List, [], ◌∷◌, take,
  length, get_elem?, contains, leb, ◌==◌, if◌then◌else◌, refl, subst, ap, inl, inr, Bool-cases,
  arith, All, subst,
}
use doc_flow.Prelude.Sort.{Text, text_beq, sort, insert, Ordered, sort-Ordered}
use doc_flow.Matching.Keys.{CaseTable, sorted_tokens, is_key_char}
use doc_flow.Matching.Candidates.{Fuzz, last_cut, indices}

abbrev pub ascii_lower : ℕ → Text
ascii_lower c = if leb 65 c && leb c 90 then (c + 32) ∷ [] else c ∷ []

pub ascii_lower_key : (c : ℕ) → is_key_char c ≡ true → ascii_lower c ≡ c ∷ []
ascii_lower_key c h = ground arith

-- ASCII letters
abbrev pub ascii : CaseTable
ascii = record {
  lower = ascii_lower;
  upper = λ c. if leb 97 c && leb c 122 then (c - 32) ∷ [] else c ∷ [];
  lower_key = ascii_lower_key;
  lower_space = refl;
}

-- equal or not
abbrev pub same_ratio : Text → Text → ℕ
same_ratio a b = if text_beq a b then 1000000000000000000000000 else 0

abbrev pub scored_keys : ℕ → Text → List Text → List (ℕ × ℕ)
scored_keys i query [] = []
scored_keys i query (key ∷ keys) = (same_ratio query key, i) ∷ scored_keys (suc i) query keys

abbrev pub high_first : ℕ × ℕ → ℕ × ℕ → Bool
high_first (s, i) (r, j) = leb r s

abbrev pub best_of : Text → List Text → ℕ → List (ℕ × ℕ)
best_of query keys limit = take limit (sort high_first (scored_keys 0 query keys))

abbrev pub Among : ℕ × ℕ → List (ℕ × ℕ) → Type 0
Among p [] = ⊥
Among p (x ∷ xs) = (p ≡ x) ⊎ Among p xs

pub scored_keys-Among :
    (k : ℕ) (query : Text) (keys : List Text) (i : ℕ) (key : Text)
    → get_elem? keys i ≡ some key
    → Among (same_ratio query key, k + i) (scored_keys k query keys)
scored_keys-Among k query [] i key h = absurd (cc h)
scored_keys-Among k query (x ∷ keys) zero key h =
    let here : x ≡ key = cc h in let at : k + 0 ≡ k = omega arith in rw (here, at) (inl refl)
scored_keys-Among k query (x ∷ keys) (suc i) key h = inr (
    subst (λ j. Among (same_ratio query key, j) (scored_keys (suc k) query keys)) (omega arith)
      (scored_keys-Among (suc k) query keys i key h))

insert-Among :
    (p x : ℕ × ℕ) (ys : List (ℕ × ℕ)) → Among p (x ∷ ys) → Among p (insert high_first x ys)
unfolding insert
insert-Among p x [] h = h
insert-Among p x (y ∷ ys) h = elim (Bool-cases (high_first x y)) [
  | inl e ↦ rw e h
  | inr e ↦ rw e (later h (λ k. insert-Among p x ys k))
]
  where
    later :
        Among p (x ∷ y ∷ ys)
        → (Among p (x ∷ ys) → Among p (insert high_first x ys))
        → Among p (y ∷ insert high_first x ys)
    later (inl at) rest = inr (rest (inl at))
    later (inr (inl at)) rest = inl at
    later (inr (inr more)) rest = inr (rest (inr more))

pub sort-Among : (p : ℕ × ℕ) (xs : List (ℕ × ℕ)) → Among p xs → Among p (sort high_first xs)
unfolding sort
sort-Among p [] h = h
sort-Among p (x ∷ xs) (inl at) = insert-Among p x (sort high_first xs) (inl at)
sort-Among p (x ∷ xs) (inr more) =
    insert-Among p x (sort high_first xs) (inr (sort-Among p xs more))

abbrev pub Above : ℕ × ℕ → ℕ × ℕ → Type 0
Above (s, i) (r, j) = r ≤ s

All-Among : (s i : ℕ) (x : ℕ × ℕ) (xs : List (ℕ × ℕ)) → All (Above x) xs → Among (s, i) xs → s ≤ x.0
All-Among s i x [] h k = absurd k
All-Among s i x (y ∷ ys) (h, hs) (inl at) = let here : s ≡ y.0 = ap (λ p. p.0) at in rw here h
All-Among s i x (y ∷ ys) (h, hs) (inr more) = All-Among s i x ys hs more

pub left_out_low :
    (n s i d : ℕ) (xs : List (ℕ × ℕ))
    → 1 ≤ n
    → n ≤ length (take n xs)
    → Ordered Above xs
    → Among (s, i) xs
    → contains i (indices (take n xs)) ≡ false
    → s ≤ last_cut d (take n xs)
left_out_low zero s i d xs long full order at out = absurd (omega arith)
left_out_low (suc n) s i d [] long full order at out = absurd at
left_out_low (suc n) s i d (x ∷ xs) long full order (inl at) out =
    let here : i ≡ x.1 = ap (λ p. p.1) at in
    let found : (i == x.1) ≡ true = ground arith in absurd (cc (rw found at out))
left_out_low (suc zero) s i d (x ∷ xs) long full (top, order) (inr more) out =
    All-Among s i x xs top more
left_out_low (suc (suc n)) s i d (x ∷ xs) long full (top, order) (inr more) out =
    left_out_low (suc n) s i x.0 xs (omega arith) (omega arith) order more
      (not_first (i == x.1) out)
  where
    not_first :
        (b : Bool)
        → (b || contains i (indices (take (suc n) xs))) ≡ false
        → contains i (indices (take (suc n) xs)) ≡ false
    not_first true h = absurd (cc h)
    not_first false h = h

pub best-Ordered : (ps : List (ℕ × ℕ)) → Ordered Above (sort high_first ps)
best-Ordered ps =
    sort-Ordered high_first Above (λ p q h. ground arith) (λ p q h. ground arith)
      (λ p q r h k. omega arith) ps

pub scored_at_zero :
    (query : Text) (keys : List Text) (i : ℕ) (key : Text)
    → get_elem? keys i ≡ some key
    → Among (same_ratio query key, i) (sort high_first (scored_keys 0 query keys))
scored_at_zero query keys i key at =
    sort-Among (same_ratio query key, i) (scored_keys 0 query keys)
      (subst (λ j. Among (same_ratio query key, j) (scored_keys 0 query keys)) (omega arith)
        (scored_keys-Among 0 query keys i key at))

abbrev pub exact_scorer : Fuzz
exact_scorer = record {
  ratio = same_ratio;
  token_sort_ratio = λ a b. same_ratio (sorted_tokens a) (sorted_tokens b);
  extract = best_of;
  sorts_tokens = λ a b. refl;
  left_out = λ query keys limit i key long full at out.
      left_out_low limit (same_ratio query key) i 0 (sort high_first (scored_keys 0 query keys))
        long full (best-Ordered (scored_keys 0 query keys)) (scored_at_zero query keys i key at)
        out;
}
