-- ===== src/Matching/Candidates/Fast.antt =====
-- `score_candidates` of packages/core/docflow_core/matching.py as a whole, its rounds and its end.
use doc_flow.Prelude.{
  ℕ, zero, suc, ◌+◌, ◌*◌, ◌≤◌, ◌<◌, ◌≡◌, false, not, ◌&&◌, Option, none, some, List, [], filter,
  take, take-append, length, contains, ltb, leb, ◌==◌, sym, ap, ◌∙◌, subst, inl, inr, Bool-cases,
  arith,
}
use doc_flow.Prelude.Sort.{Text, sort, sort-All}
use doc_flow.Matching.Keys.{CaseTable}
use doc_flow.Matching.Catalog.{CatalogItem}
use doc_flow.Matching.Candidates.{
  Fuzz, as_score, asked, select, score_items, MatchCandidate, candidate_leb, last_score, scan_round,
  or_again, widen, score_candidates, score_candidates_full_scan, max_candidates, fast_scan_keep,
  fast_scan_widen,
}
use doc_flow.Matching.Candidates.Low.{Found, gather-Found, item_low}
use doc_flow.Matching.Candidates.Parity.{
  above, above-last, filter-above-not, sort-above, long_enough, scores, no_low, select-above,
}

abbrev below : ℕ → List MatchCandidate → List MatchCandidate
below cut cs = filter (λ c. not (above cut c)) cs

abbrev high : ℕ → List MatchCandidate → List MatchCandidate
high cut cs = sort candidate_leb (filter (above cut) cs)

-- Two lists with the same candidates above the cut, whose prefix lies above it.
same_prefix :
    (cut : ℕ) (cs ds : List MatchCandidate)
    → filter (above cut) cs ≡ filter (above cut) ds
    → length (take max_candidates (sort candidate_leb ds)) ≡ max_candidates
    → cut < last_score 0 (take max_candidates (sort candidate_leb ds))
    → take max_candidates (sort candidate_leb ds) ≡ take max_candidates (sort candidate_leb cs)
same_prefix cut cs ds same full up =
    let long =
      long_enough cut max_candidates 0 (high cut ds) (sort candidate_leb (below cut ds))
        (sort-All candidate_leb (above-last cut) (below cut ds) (filter-above-not cut ds))
        (rw (sort-above cut ds) at full) (rw (sort-above cut ds) at up) in
    rw (sort-above cut ds, sort-above cut cs, same)
      (take-append max_candidates (high cut ds) _ long
        ∙ sym (take-append max_candidates (high cut ds) _ long))

same_all :
    (cs ds : List MatchCandidate)
    → filter (above 0) cs ≡ filter (above 0) ds
    → below 0 cs ≡ []
    → below 0 ds ≡ []
    → sort candidate_leb ds ≡ sort candidate_leb cs
same_all cs ds same e e' = rw (sort-above 0 ds, sort-above 0 cs, same, e, e')

module _ (t : CaseTable) (f : Fuzz) (raw_sku raw_description : Option Text)
    (items : List CatalogItem) where
  abbrev full_scan : List MatchCandidate
  full_scan = score_candidates_full_scan t f raw_sku raw_description items

  -- What a round says when it is not going to look again.
  abbrev Answers : Option (List MatchCandidate) → Type 0
  Answers none = Unit
  Answers (some cs) = cs ≡ full_scan

  scan_round-Answers :
      (found : Option (List ℕ × ℕ))
      → ((i : ℕ) → Found f i (asked t f raw_sku raw_description items) [] 0 found)
      → Answers (scan_round t f raw_sku raw_description items found)
  unfolding score_candidates_full_scan score_items
  scan_round-Answers none h = tt
  scan_round-Answers (some (kept, cut)) h =
      let ds = scores t f raw_sku raw_description (select kept 0 items) in
      let cs = scores t f raw_sku raw_description items in
      let same = select-above t f raw_sku raw_description (as_score cut) 0 kept items (λ i x at out.
        item_low t f raw_sku raw_description items kept i cut x at
          (subst (λ j. contains j kept ≡ false) (omega arith) out) (h i).2) in
      elim (Bool-cases (leb (as_score cut) 0)) [
        | inl e ↦
            let zero_cut : as_score cut ≡ 0 = ground arith in
            rw e (
              ap (take max_candidates) (
                same_all cs ds (rw zero_cut at same) (no_low t f raw_sku raw_description items)
                  (no_low t f raw_sku raw_description (select kept 0 items))))
        | inr e ↦
            elim (Bool-cases (
              length (take max_candidates (sort candidate_leb ds)) == max_candidates
              && ltb (as_score cut) (last_score 0 (take max_candidates (sort candidate_leb ds))))) [
                | inl e' ↦
                    rw (e, e') (same_prefix (as_score cut) cs ds same (ground arith) (ground arith))
                | inr e' ↦ rw (e, e') tt
              ]
      ]

  or_again-Answers :
      (now again : Option (List MatchCandidate))
      → Answers now
      → again ≡ some full_scan
      → or_again t f raw_sku raw_description now again ≡ some full_scan
  or_again-Answers none again h k = k
  or_again-Answers (some cs) again h k = ap some h

  widen-full_scan :
      (fuel keep : ℕ)
      → 1 ≤ keep
      → 1 ≤ fuel
      → length items < fuel + keep
      → widen t f raw_sku raw_description fuel keep items ≡ some full_scan
  unfolding widen
  widen-full_scan zero keep long more h = absurd (omega arith)
  widen-full_scan (suc fuel) keep long more h = elim (Bool-cases (ltb keep (length items))) [
    | inl e ↦ rw e (
        or_again-Answers _ _
          (scan_round-Answers _
            (λ i. gather-Found f keep i long (asked t f raw_sku raw_description items) [] 0))
          (widen-full_scan fuel (keep * fast_scan_widen) (omega arith) (ground arith)
            (ground arith)))
    | inr e ↦ rw e
  ]

  -- The fast scan ends, and its candidates are those of the full scan, in the same order: for every
  -- line, every catalog, and every scorer that answers as the library documents.
  pub fast_scan_is_full_scan :
      score_candidates t f raw_sku raw_description items
      ≡ some (score_candidates_full_scan t f raw_sku raw_description items)
  unfolding score_candidates
  fast_scan_is_full_scan = elim (Bool-cases (leb (length items) fast_scan_keep)) [
    | inl e ↦ rw e
    | inr e ↦ rw e (
        widen-full_scan (suc (length items)) fast_scan_keep (omega arith) (omega arith)
          (omega arith))
  ]
