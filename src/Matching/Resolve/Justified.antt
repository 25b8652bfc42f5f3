-- ===== src/Matching/Resolve/Justified.antt =====
-- What stands behind every conclusion of `resolve_line`, packages/core/docflow_core/matching.py.
use doc_flow.Prelude.{
  ℕ, zero, suc, ◌+◌, ◌≤◌, ◌<◌, true, false, Option, none, some, List, [], ◌∷◌, leb, ◌≡◌, ◌⊎◌, inl,
  inr, refl, All, take, Bool-cases, arith,
}
use doc_flow.Prelude.Sort.{Text, Ordered, sort-Ordered}
use doc_flow.Matching.Keys.{CaseTable, normalize_description}
use doc_flow.Matching.Catalog.{CatalogItem, exact_sku}
use doc_flow.Matching.Candidates.{
  Fuzz, MatchCandidate, score_candidates_full_scan, score_items, scored, candidate_leb,
  max_candidates,
}
use doc_flow.Matching.Candidates.Fast.{fast_scan_is_full_scan}
use doc_flow.Matching.Resolve.{
  learned_rule, exact, fuzzy, LineMatch, SkuRule, Dict, find, eligible_best, fuzzy_match,
  by_candidates, live_rule, first_hit, resolve_line, fuzzy_match_threshold, fuzzy_ambiguity_margin,
}

-- The first candidate is eligible, at or above the threshold, and every other is more than the
-- margin behind it.
abbrev pub Clear : ℕ → List MatchCandidate → Type 0
Clear n [] = ⊥
Clear n (best ∷ rest) =
    (best.item_id ≡ n)
    × (best.eligible ≡ true)
    × (fuzzy_match_threshold ≤ best.score)
    × All (λ c. c.score + fuzzy_ambiguity_margin < best.score) rest

abbrev NoMoreThan : MatchCandidate → MatchCandidate → Type 0
NoMoreThan c d = d.score ≤ c.score

take-All :
    (P : MatchCandidate → Type 0) (n : ℕ) (cs : List MatchCandidate) → All P cs → All P (take n cs)
take-All P zero cs h = tt
take-All P (suc n) [] h = tt
take-All P (suc n) (c ∷ cs) (h, hs) = (h, take-All P n cs hs)

take-Ordered :
    (n : ℕ) (cs : List MatchCandidate) → Ordered NoMoreThan cs → Ordered NoMoreThan (take n cs)
take-Ordered zero cs h = tt
take-Ordered (suc n) [] h = tt
take-Ordered (suc n) (c ∷ cs) (h, hs) = (take-All (NoMoreThan c) n cs h, take-Ordered n cs hs)

-- What a line's candidates come to.
abbrev pub Decided : List MatchCandidate → LineMatch → Type 0
Decided cs m =
    ((n : ℕ) × (m.item_id ≡ some n) × (m.method ≡ some fuzzy) × Clear n cs)
    ⊎ ((m.item_id ≡ none) × ((n : ℕ) → Clear n cs → ⊥))

behind :
    (k : ℕ) (second : MatchCandidate) (rest : List MatchCandidate)
    → second.score + fuzzy_ambiguity_margin < k
    → All (NoMoreThan second) rest
    → All (λ c. c.score + fuzzy_ambiguity_margin < k) rest
behind k second [] h hs = tt
behind k second (c ∷ cs) h (low, hs) = (omega arith, behind k second cs h hs)

eligible_best_iff :
    (best : MatchCandidate)
    → eligible_best best ≡ true
    → (best.eligible ≡ true) × (fuzzy_match_threshold ≤ best.score)
eligible_best_iff best h = ground arith

not_eligible :
    (best : MatchCandidate) (rest : List MatchCandidate) (n : ℕ)
    → eligible_best best ≡ false
    → Clear n (best ∷ rest)
    → ⊥
not_eligible best rest n h (_, e, above, _) = ground arith

fuzzy_match-Decided :
    (cs : List MatchCandidate)
    → Ordered NoMoreThan cs
    → Decided cs (by_candidates cs (fuzzy_match cs))
unfolding fuzzy_match
fuzzy_match-Decided [] h = inr (refl, (λ n c. c))
fuzzy_match-Decided (best ∷ []) h = elim (Bool-cases (eligible_best best)) [
  | inl e ↦
      let (ok, above) = eligible_best_iff best e in
      rw e (inl (best.item_id, refl, refl, (refl, ok, above, tt)))
  | inr e ↦ rw e (inr (refl, (λ n. not_eligible best [] n e)))
]
fuzzy_match-Decided (best ∷ second ∷ rest) (_, (h, hs)) = elim (Bool-cases (eligible_best best)) [
  | inr e ↦ rw e (inr (refl, (λ n. not_eligible best (second ∷ rest) n e)))
  | inl e ↦ elim (Bool-cases (leb best.score (second.score + fuzzy_ambiguity_margin))) [
    | inl near ↦ rw (e, near) (inr (refl, (λ n (_, _, _, (far, _)). ground arith)))
    | inr far ↦
        let (ok, above) = eligible_best_iff best e in
        let gap : second.score + fuzzy_ambiguity_margin < best.score = ground arith in
        rw (e, far)
          (inl (
            best.item_id,
            refl,
            refl,
            (refl, ok, above, (gap, behind best.score second rest gap h)),
          ))
  ]
]

module _ (t : CaseTable) (f : Fuzz) (raw_sku raw_description : Option Text)
    (items : List CatalogItem) (sku_rules : Dict SkuRule) where
  abbrev pub full_scan : List MatchCandidate
  full_scan = score_candidates_full_scan t f raw_sku raw_description items

  abbrev pub rule_for : Option SkuRule
  rule_for = live_rule items (find (normalize_description t raw_description) sku_rules)

  full_scan-Ordered : Ordered NoMoreThan full_scan
  unfolding score_candidates_full_scan score_items
  full_scan-Ordered = take-Ordered max_candidates _ (
      sort-Ordered candidate_leb NoMoreThan (λ c d h. ground arith) (λ c d h. ground arith)
        (λ c d e h k. omega arith) (scored t f raw_sku raw_description items))

  abbrev pub Justified : LineMatch → Type 0
  Justified m =
      ((rule : SkuRule) × (rule_for ≡ some rule)
        × (m.item_id ≡ some rule.item_id)
        × (m.method ≡ some learned_rule))
      ⊎ (((rule_for ≡ none)
            × ((x : CatalogItem) × (exact_sku t items raw_sku ≡ some x)
                × (m.item_id ≡ some x.item_id)
                × (m.method ≡ some exact)))
          ⊎ ((rule_for ≡ none)
              × (exact_sku t items raw_sku ≡ none)
              × (m.candidates ≡ full_scan)
              × Decided full_scan m))

  -- The candidates of a decision are the ones it is about.
  by_candidates-candidates :
      (cs : List MatchCandidate) (o : Option MatchCandidate) → (by_candidates cs o).candidates ≡ cs
  by_candidates-candidates cs none = refl
  by_candidates-candidates cs (some c) = refl

  first_hit-Justified :
      (rule : Option SkuRule) (exact_item : Option CatalogItem)
      → rule_for ≡ rule
      → exact_sku t items raw_sku ≡ exact_item
      → (m : LineMatch) × (first_hit rule exact_item (some full_scan) ≡ some m) × Justified m
  first_hit-Justified (some rule) exact_item e e' = (_, refl, inl (rule, e, refl, refl))
  first_hit-Justified none (some x) e e' = (_, refl, inr (inl (e, (x, e', refl, refl))))
  first_hit-Justified none none e e' = (
    by_candidates full_scan (fuzzy_match full_scan),
    refl,
    inr (
        inr (
          e,
          e',
          by_candidates-candidates full_scan (fuzzy_match full_scan),
          fuzzy_match-Decided full_scan full_scan-Ordered,
        )),
  )

  -- Every line gets a conclusion, and what stands behind it: a learned rule of the line's
  -- description whose item is in the catalog; or, without one, the one item with the printed SKU; or,
  -- without either, the candidates of the full scan, where an item is applied exactly if the first
  -- candidate is eligible, scores 0.9000 or more, and every other is more than 0.0200 behind it.
  pub resolve_line-Justified :
      (m : LineMatch) × (resolve_line t f raw_sku raw_description items sku_rules ≡ some m)
      × Justified m
  unfolding resolve_line
  resolve_line-Justified =
      rw (fast_scan_is_full_scan t f raw_sku raw_description items)
        (first_hit-Justified rule_for (exact_sku t items raw_sku) refl refl)
