-- ===== src/Matching/Candidates.antt =====
-- The scored candidates of a line, packages/core/docflow_core/matching.py: the scores, `_score_items`,
-- the full scan and the fast scan. A score is a number of ten-thousandths.
use doc_flow.Prelude.{
  ℕ, zero, suc, ◌+◌, ◌*◌, ◌/◌, ◌≤◌, ◌≡◌, max, Bool, true, false, not, ◌&&◌, ◌||◌, Option, none,
  some, List, [], ◌∷◌, ◌++◌, map, filter, take, length, get_elem?, contains, ltb, leb, ◌==◌,
  if◌then◌else◌,
}
use doc_flow.Prelude.Sort.{Text, text_leb, sort}
use doc_flow.Matching.Keys.{CaseTable, normalize_description, sku_comparison_key, sorted_tokens}
use doc_flow.Matching.Measures.{measures_agree}
use doc_flow.Matching.Catalog.{CatalogItem, is_empty, scan_keys}
pub mod Low
pub mod Parity
pub mod Fast

-- the score of the last of the best, `best[-1][1]`
abbrev pub last_cut : ℕ → List (ℕ × ℕ) → ℕ
last_cut d [] = d
last_cut d ((s, i) ∷ best) = last_cut s best

abbrev pub indices : List (ℕ × ℕ) → List ℕ
indices best = map (λ (s, i). i) best

-- What the code relies on of the library rapidfuzz. A ratio is the decimal `repr(raw / 100)` in units
-- of 10^-24. `extract query keys limit` is `process.extract` with the scorer `ratio`: scores with
-- the indices of the keys.
pub record Fuzz : Type 0 where
  pub ratio : Text → Text → ℕ
  pub token_sort_ratio : Text → Text → ℕ
  pub extract : Text → List Text → ℕ → List (ℕ × ℕ)
  -- it is the plain ratio of the two texts with their tokens sorted
  pub sorts_tokens : (a b : Text) → token_sort_ratio a b ≡ ratio (sorted_tokens a) (sorted_tokens b)
  -- where as many came back as were asked for, a key that is left out scores no more than the last
  pub left_out :
      (query : Text) (keys : List Text) (limit i : ℕ) (key : Text)
      → 1 ≤ limit
      → limit ≤ length (extract query keys limit)
      → get_elem? keys i ≡ some key
      → contains i (indices (extract query keys limit)) ≡ false
      → ratio query key ≤ last_cut 0 (extract query keys limit)

abbrev pub max_candidates : ℕ
max_candidates = 5

abbrev pub fast_scan_keep : ℕ
fast_scan_keep = 100

abbrev pub fast_scan_widen : ℕ
fast_scan_widen = 4

-- `quantize(Decimal("0.0001"), rounding=ROUND_HALF_UP)`
unfoldable pub as_score : ℕ → ℕ
as_score raw = (raw + 50000000000000000000) / 100000000000000000000

pub data MatchedOn : Type 0 where
  on_description : MatchedOn
  on_sku : MatchedOn

pub data BlockedReason : Type 0 where
  measure_mismatch : BlockedReason

pub record MatchCandidate : Type 0 where
  pub item_id : ℕ
  pub sku : Text
  pub description : Option Text
  pub score : ℕ
  pub matched_on : MatchedOn
  pub eligible : Bool
  pub blocked_reason : Option BlockedReason

-- the sort's key is `(-score, sku)`
abbrev pub candidate_leb : MatchCandidate → MatchCandidate → Bool
candidate_leb c d =
    if ltb d.score c.score then true else if c.score == d.score then text_leb c.sku d.sku else false

abbrev pub last_score : ℕ → List MatchCandidate → ℕ
last_score d [] = d
last_score d (c ∷ cs) = last_score c.score cs

-- the items of a list whose indices are kept, in the list's order; `i` is the first item's index
unfoldable pub select : List ℕ → ℕ → List CatalogItem → List CatalogItem
select kept i [] = []
select kept i (x ∷ xs) =
    let rest = select kept (suc i) xs in if contains i kept then x ∷ rest else rest

-- The loop over `asked`: what is kept and the cut, or `none` where fewer came back than were
-- asked for.
unfoldable pub gather : Fuzz → ℕ → List (Text × List Text) → List ℕ → ℕ → Option (List ℕ × ℕ)
gather f keep [] kept cut = some (kept, cut)
gather f keep ((line_key, item_keys) ∷ asked) kept cut =
    let best = f.extract line_key item_keys keep in
    let skipped = gather f keep asked kept cut in
    let looked = gather f keep asked (indices best ++ kept) (max cut (last_cut 0 best)) in
    if is_empty line_key then skipped else if ltb (length best) keep then none else looked

module _ (t : CaseTable) (f : Fuzz) where
  unfoldable pub description_similarity : Option Text → Option Text → ℕ
  description_similarity left right =
      let left_key = normalize_description t left in
      let right_key = normalize_description t right in
      if is_empty left_key || is_empty right_key
      then 0
      else as_score (f.token_sort_ratio left_key right_key)

  unfoldable pub sku_similarity : Option Text → Option Text → ℕ
  sku_similarity left right =
      let left_key = sku_comparison_key t left in
      let right_key = sku_comparison_key t right in
      if is_empty left_key || is_empty right_key then 0 else as_score (f.ratio left_key right_key)

  -- the reason for the block goes with the measures' answer
  abbrev pub candidate : CatalogItem → ℕ → MatchedOn → Bool → MatchCandidate
  candidate x score on agree = record {
    item_id = x.item_id;
    sku = x.sku;
    description = x.description;
    score = score;
    matched_on = on;
    eligible = agree;
    blocked_reason = if agree then none else some measure_mismatch;
  }

  module _ (raw_sku raw_description : Option Text) where
    abbrev pub best_field : CatalogItem → Bool → MatchCandidate
    best_field x true =
        candidate x (sku_similarity raw_sku (some x.sku)) on_sku
          (measures_agree t raw_sku (some x.sku))
    best_field x false =
        candidate x (description_similarity raw_description x.description) on_description
          (measures_agree t raw_description x.description)

    -- one turn of the loop of `_score_items`, without the test of the score
    unfoldable pub score_item : CatalogItem → MatchCandidate
    score_item x = best_field x (
        ltb (description_similarity raw_description x.description)
          (sku_similarity raw_sku (some x.sku)))

    unfoldable pub scored : List CatalogItem → List MatchCandidate
    scored [] = []
    scored (x ∷ xs) =
        let rest = scored xs in let c = score_item x in if leb c.score 0 then rest else c ∷ rest

    unfoldable pub score_items : List CatalogItem → List MatchCandidate
    score_items items = take max_candidates (sort candidate_leb (scored items))

    unfoldable pub score_candidates_full_scan : List CatalogItem → List MatchCandidate
    score_candidates_full_scan items = score_items items

    unfoldable pub asked : List CatalogItem → List (Text × List Text)
    unfolding scan_keys
    asked items =
        let (description_keys, sku_keys) = scan_keys t items in
        (sorted_tokens (normalize_description t raw_description), description_keys)
        ∷ (sku_comparison_key t raw_sku, sku_keys)
        ∷ []

    -- The test after a complete round: nothing that is left out could be among the candidates.
    abbrev pub settled : ℕ → List MatchCandidate → Bool
    settled cut_score candidates =
        leb cut_score 0
        || (length candidates == max_candidates && ltb cut_score (last_score 0 candidates))

    -- one round of the `while`: what the function returns, if it returns in this round
    abbrev pub scan_round : List CatalogItem → Option (List ℕ × ℕ) → Option (List MatchCandidate)
    scan_round items none = none
    scan_round items (some (kept, cut)) =
        let candidates = score_items (select kept 0 items) in
        if settled (as_score cut) candidates then some candidates else none

    abbrev pub or_again :
        Option (List MatchCandidate) → Option (List MatchCandidate) → Option (List MatchCandidate)
    or_again none again = again
    or_again (some candidates) again = some candidates

    -- the `while` on fuel: `none` where the fuel does not suffice
    unfoldable pub widen : ℕ → ℕ → List CatalogItem → Option (List MatchCandidate)
    widen zero keep items = none
    widen (suc fuel) keep items =
        let again = widen fuel (keep * fast_scan_widen) items in
        if ltb keep (length items)
        then or_again (scan_round items (gather f keep (asked items) [] 0)) again
        else some (score_candidates_full_scan items)

    -- every round at least doubles `keep`, so one more round than there are items is enough
    unfoldable pub score_candidates : List CatalogItem → Option (List MatchCandidate)
    score_candidates items =
        if leb (length items) fast_scan_keep
        then some (score_candidates_full_scan items)
        else widen (suc (length items)) fast_scan_keep items
