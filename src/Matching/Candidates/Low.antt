-- ===== src/Matching/Candidates/Low.antt =====
-- The items that the fast scan of packages/core/docflow_core/matching.py leaves out, against its cut.
use doc_flow.Prelude.{
  ℕ, zero, suc, ◌≤◌, ◌≡◌, max, Bool, true, false, ◌||◌, Option, none, some, List, [], ◌∷◌, ◌++◌,
  map, length, get_elem?, contains, ltb, ◌==◌, refl, sym, ◌∙◌, inl, inr, Bool-cases, arith, All,
}
use doc_flow.Prelude.Sort.{Text}
use doc_flow.Matching.Keys.{CaseTable, normalize_description, sku_comparison_key, sorted_tokens}
use doc_flow.Matching.Tokens.{normalize-Tight, empty_tokens}
use doc_flow.Matching.Catalog.{CatalogItem, is_empty, scan_keys}
use doc_flow.Matching.Candidates.{
  Fuzz, as_score, last_cut, indices, description_similarity, sku_similarity, gather, asked,
  score_item, best_field,
}

as_score_mono : (a b : ℕ) → a ≤ b → as_score a ≤ as_score b
unfolding as_score
as_score_mono a b h = omega arith

contains-left : (i : ℕ) (xs ys : List ℕ) → contains i (xs ++ ys) ≡ false → contains i xs ≡ false
contains-left i [] ys h = refl
contains-left i (x ∷ xs) ys h = elim (Bool-cases (i == x)) [
  | inl e ↦ absurd (cc (rw e at h))
  | inr e ↦ rw e (contains-left i xs ys (rw e at h))
]

contains-right : (i : ℕ) (xs ys : List ℕ) → contains i (xs ++ ys) ≡ false → contains i ys ≡ false
contains-right i [] ys h = h
contains-right i (x ∷ xs) ys h = elim (Bool-cases (i == x)) [
  | inl e ↦ absurd (cc (rw e at h))
  | inr e ↦ contains-right i xs ys (rw e at h)
]

module _ (f : Fuzz) (i : ℕ) where
  -- a field that the line has something on, and a key of it that is left out
  abbrev pub Cut : List ℕ → ℕ → Text × List Text → Type 0
  Cut kept cut (line_key, item_keys) =
      is_empty line_key ≡ false
      → (key : Text) → get_elem? item_keys i ≡ some key
      → contains i kept ≡ false
      → f.ratio line_key key ≤ cut

  -- what `gather` says of the key `i`, when it started from `kept₀` and `cut₀`
  abbrev pub Found : List (Text × List Text) → List ℕ → ℕ → Option (List ℕ × ℕ) → Type 0
  Found fields kept₀ cut₀ none = Unit
  Found fields kept₀ cut₀ (some (kept, cut)) =
      (cut₀ ≤ cut)
      × (contains i kept ≡ false → contains i kept₀ ≡ false)
      × All (Cut kept cut) fields

module _ (f : Fuzz) (keep i : ℕ) (long : 1 ≤ keep) where
  Found-skip :
      (line_key : Text) (item_keys : List Text) (fields : List (Text × List Text)) (kept₀ : List ℕ)
      (cut₀ : ℕ) (o : Option (List ℕ × ℕ))
      → is_empty line_key ≡ true
      → Found f i fields kept₀ cut₀ o
      → Found f i ((line_key, item_keys) ∷ fields) kept₀ cut₀ o
  Found-skip line_key item_keys fields kept₀ cut₀ none e h = tt
  Found-skip line_key item_keys fields kept₀ cut₀ (some (kept, cut)) e (up, old, cuts) =
      (up, old, ((λ e' key at out. absurd (cc (sym e ∙ e'))), cuts))

  Found-look :
      (line_key : Text) (item_keys : List Text) (fields : List (Text × List Text)) (kept₀ : List ℕ)
      (cut₀ : ℕ) (o : Option (List ℕ × ℕ))
      → keep ≤ length (f.extract line_key item_keys keep)
      → Found f i fields
          (indices (f.extract line_key item_keys keep) ++ kept₀)
          (max cut₀ (last_cut 0 (f.extract line_key item_keys keep)))
          o
      → Found f i ((line_key, item_keys) ∷ fields) kept₀ cut₀ o
  Found-look line_key item_keys fields kept₀ cut₀ none full h = tt
  Found-look line_key item_keys fields kept₀ cut₀ (some (kept, cut)) full (up, old, cuts) =
      let best = f.extract line_key item_keys keep in
      (
        omega arith,
        (λ out. contains-right i (indices best) kept₀ (old out)),
        (
          λ e key at out.
              let low =
                f.left_out line_key item_keys keep i key long full at
                  (contains-left i (indices best) kept₀ (old out)) in
              omega arith,
          cuts,
        ),
      )

  pub gather-Found :
      (fields : List (Text × List Text)) (kept₀ : List ℕ) (cut₀ : ℕ)
      → Found f i fields kept₀ cut₀ (gather f keep fields kept₀ cut₀)
  unfolding gather
  gather-Found [] kept₀ cut₀ = (omega arith, (λ h. h), tt)
  gather-Found ((line_key, item_keys) ∷ fields) kept₀ cut₀ = elim (Bool-cases (is_empty line_key)) [
    | inl e ↦
        rw e (Found-skip line_key item_keys fields kept₀ cut₀ _ e (gather-Found fields kept₀ cut₀))
    | inr e ↦ elim (Bool-cases (ltb (length (f.extract line_key item_keys keep)) keep)) [
      | inl short ↦ rw (e, short) tt
      | inr full ↦
          rw (e, full)
            (Found-look line_key item_keys fields kept₀ cut₀ _ (ground arith)
              (gather-Found fields _ _))
    ]
  ]

get_elem?-map :
    (key_of : CatalogItem → Text) (items : List CatalogItem) (i : ℕ) (x : CatalogItem)
    → get_elem? items i ≡ some x
    → get_elem? (map key_of items) i ≡ some (key_of x)
get_elem?-map key_of [] i x h = absurd (cc h)
get_elem?-map key_of (y ∷ ys) zero x h = cc h
get_elem?-map key_of (y ∷ ys) (suc i) x h = get_elem?-map key_of ys i x h

or_left : (a b : Bool) → (a || b) ≡ false → a ≡ false
or_left true b h = h
or_left false b h = refl

token_left :
    (t : CaseTable) (v : Option Text) (right : Text)
    → (is_empty (normalize_description t v) || is_empty right) ≡ false
    → is_empty (sorted_tokens (normalize_description t v)) ≡ false
token_left t v right h = elim (Bool-cases (is_empty (sorted_tokens (normalize_description t v)))) [
  | inl e ↦ absurd (
      cc (
        empty_tokens _ (normalize-Tight t v) e,
        or_left (is_empty (normalize_description t v)) (is_empty right) h,
      ))
  | inr e ↦ e
]

module _ (t : CaseTable) (f : Fuzz) (raw_sku raw_description : Option Text) where
  -- an item at an index that a round leaves out
  module _ (items : List CatalogItem) (kept : List ℕ) (i cut : ℕ) (x : CatalogItem)
      (at : get_elem? items i ≡ some x) (out : contains i kept ≡ false) where
    abbrev pub Round : Type 0
    Round = All (Cut f i kept cut) (asked t f raw_sku raw_description items)

    description_low :
        Round → description_similarity t f raw_description x.description ≤ as_score cut
    unfolding description_similarity asked scan_keys
    description_low (low, _) =
        let left = normalize_description t raw_description in
        let right = normalize_description t x.description in
        elim (Bool-cases (is_empty left || is_empty right)) [
          | inl e ↦ rw e (omega arith)
          | inr e ↦
              rw (e, f.sorts_tokens left right)
                (as_score_mono _ cut (
                  low (token_left t raw_description right e) (sorted_tokens right)
                    (get_elem?-map (λ y. sorted_tokens (normalize_description t y.description))
                      items i x at)
                    out))
        ]

    sku_low : Round → sku_similarity t f raw_sku (some x.sku) ≤ as_score cut
    unfolding sku_similarity asked scan_keys
    sku_low (_, (low, _)) =
        let left = sku_comparison_key t raw_sku in
        let right = sku_comparison_key t (some x.sku) in
        elim (Bool-cases (is_empty left || is_empty right)) [
          | inl e ↦ rw e (omega arith)
          | inr e ↦ rw e (
              as_score_mono _ cut (
                low (or_left _ _ e) right
                  (get_elem?-map (λ y. sku_comparison_key t (some y.sku)) items i x at) out))
        ]

    best_low :
        (b : Bool) → Round → (best_field t f raw_sku raw_description x b).score ≤ as_score cut
    best_low true h = sku_low h
    best_low false h = description_low h

    pub item_low : Round → (score_item t f raw_sku raw_description x).score ≤ as_score cut
    unfolding score_item
    item_low h = best_low _ h
