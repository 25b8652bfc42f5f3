-- ===== src/Matching/Candidates/Parity.antt =====
-- The fast scan of packages/core/docflow_core/matching.py against the full scan.
use doc_flow.Prelude.{
  ℕ, zero, suc, ◌+◌, ◌≤◌, ◌<◌, ◌≡◌, Bool, true, false, not, Option, some, List, [], ◌∷◌, ◌++◌,
  filter, take, length, get_elem?, contains, ltb, leb, refl, ◌∙◌, subst, inl, inr, Bool-cases,
  arith, All,
}
use doc_flow.Prelude.Sort.{Text, sort, sort-filter}
use doc_flow.Matching.Keys.{CaseTable}
use doc_flow.Matching.Catalog.{CatalogItem}
use doc_flow.Matching.Candidates.{
  Fuzz, score_item, scored, select, MatchCandidate, candidate_leb, last_score,
}

-- A candidate above the cut, and one that is not.
abbrev pub above : ℕ → MatchCandidate → Bool
above cut c = ltb cut c.score

abbrev pub above-last : (cut : ℕ) → MatchCandidate → Type 0
above-last cut c = above cut c ≡ false

pub filter-above-not :
    (cut : ℕ) (cs : List MatchCandidate) → All (above-last cut) (filter (λ c. not (above cut c)) cs)
filter-above-not cut [] = tt
filter-above-not cut (c ∷ cs) = elim (Bool-cases (above cut c)) [
  | inl e ↦ rw e (filter-above-not cut cs)
  | inr e ↦ rw e (e, filter-above-not cut cs)
]

pub sort-above :
    (cut : ℕ) (cs : List MatchCandidate)
    → sort candidate_leb cs
      ≡ sort candidate_leb (filter (above cut) cs)
        ++ sort candidate_leb (filter (λ c. not (above cut c)) cs)
sort-above cut cs =
    sort-filter candidate_leb (above cut) (λ c d h k. ground arith) (λ c d h k. ground arith) cs

last_score-low :
    (cut n d : ℕ) (low : List MatchCandidate)
    → d ≤ cut
    → All (above-last cut) low
    → last_score d (take n low) ≤ cut
last_score-low cut zero d low h k = h
last_score-low cut (suc n) d [] h k = h
last_score-low cut (suc n) d (c ∷ low) h (k, ks) =
    last_score-low cut n c.score low (ground arith) ks

-- Where the prefix ends above the cut, none of it is below.
pub long_enough :
    (cut n d : ℕ) (high low : List MatchCandidate)
    → All (above-last cut) low
    → length (take n (high ++ low)) ≡ n
    → cut < last_score d (take n (high ++ low))
    → n ≤ length high
long_enough cut zero d high low h k e = omega arith
long_enough cut (suc n) d [] [] h k e = absurd (omega arith)
long_enough cut (suc n) d [] (c ∷ low) (h, hs) k e =
    absurd (omega (arith, last_score-low cut n c.score low (ground arith) hs))
long_enough cut (suc n) d (c ∷ high) low h k e =
    omega (arith, long_enough cut n c.score high low h (omega arith) e)

module _ (t : CaseTable) (f : Fuzz) (raw_sku raw_description : Option Text) where
  abbrev pub scores : List CatalogItem → List MatchCandidate
  scores items = scored t f raw_sku raw_description items

  abbrev pub score_of : CatalogItem → MatchCandidate
  score_of x = score_item t f raw_sku raw_description x

  -- A zero is never a candidate.
  pub no_low : (items : List CatalogItem) → filter (λ c. not (above 0 c)) (scores items) ≡ []
  unfolding scored
  no_low [] = refl
  no_low (x ∷ xs) = elim (Bool-cases (leb (score_of x).score 0)) [
    | inl e ↦ rw e (no_low xs)
    | inr e ↦
        let positive : ltb 0 (score_of x).score ≡ true = ground arith in
        rw (e, positive) (no_low xs)
  ]

  -- an item of the full scan that is at most at the cut is of no consequence above it
  drop_low :
      (cut : ℕ) (x : CatalogItem) (xs : List CatalogItem)
      → (score_of x).score ≤ cut
      → filter (above cut) (scores (x ∷ xs)) ≡ filter (above cut) (scores xs)
  unfolding scored
  drop_low cut x xs h = elim (Bool-cases (leb (score_of x).score 0)) [
    | inl e ↦ rw e
    | inr e ↦ let low : ltb cut (score_of x).score ≡ false = ground arith in rw (e, low)
  ]

  keep_one :
      (cut : ℕ) (x : CatalogItem) (xs ys : List CatalogItem)
      → filter (above cut) (scores xs) ≡ filter (above cut) (scores ys)
      → filter (above cut) (scores (x ∷ xs)) ≡ filter (above cut) (scores (x ∷ ys))
  unfolding scored
  keep_one cut x xs ys h = elim (Bool-cases (leb (score_of x).score 0)) [
    | inl e ↦ rw e h
    | inr e ↦ elim (Bool-cases (above cut (score_of x))) [
      | inl a ↦ rw (e, a, h)
      | inr a ↦ rw (e, a, h)
    ]
  ]

  -- Above the cut the selected items have the candidates that all items have.
  pub select-above :
      (cut k : ℕ) (kept : List ℕ) (items : List CatalogItem)
      → ((i : ℕ) (x : CatalogItem)
          → get_elem? items i ≡ some x
          → contains (k + i) kept ≡ false
          → (score_of x).score ≤ cut)
      → filter (above cut) (scores items) ≡ filter (above cut) (scores (select kept k items))
  unfolding select
  select-above cut k kept [] low = refl
  select-above cut k kept (x ∷ xs) low =
      let ih =
        select-above cut (suc k) kept xs (λ i y at out.
          low (suc i) y at (subst (λ j. contains j kept ≡ false) (omega arith) out)) in
      elim (Bool-cases (contains k kept)) [
        | inl e ↦ rw e (keep_one cut x xs (select kept (suc k) xs) ih)
        | inr e ↦ rw e (
            drop_low cut x xs (low 0 x refl (subst (λ j. contains j kept ≡ false) (omega arith) e))
            ∙ ih)
      ]
