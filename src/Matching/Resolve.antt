-- ===== src/Matching/Resolve.antt =====
-- The decision on one line, `_fuzzy_match`, `resolve_line`, `resolve_uom` and `uom_mismatch` of
-- packages/core/docflow_core/matching.py.
use doc_flow.Prelude.{
  ℕ, ◌+◌, Bool, true, false, not, ◌&&◌, ◌||◌, Option, none, some, List, [], ◌∷◌, ltb, leb,
  if◌then◌else◌,
}
use doc_flow.Prelude.Sort.{Text, text_beq}
use doc_flow.Matching.Keys.{CaseTable, normalize_description}
use doc_flow.Matching.Catalog.{CatalogItem, is_empty, get, exact_sku}
use doc_flow.Matching.Candidates.{Fuzz, MatchCandidate, score_candidates}
pub mod Justified

abbrev pub learned_rule_match_score : ℕ
learned_rule_match_score = 9900

abbrev pub exact_match_score : ℕ
exact_match_score = 10000

abbrev pub human_confirmed_match_score : ℕ
human_confirmed_match_score = 10000

abbrev pub fuzzy_match_threshold : ℕ
fuzzy_match_threshold = 9000

abbrev pub fuzzy_ambiguity_margin : ℕ
fuzzy_ambiguity_margin = 200

pub data Method : Type 0 where
  learned_rule : Method
  exact : Method
  fuzzy : Method
  human_confirmed : Method

-- A value of `field_provenance`: `learned_rule:<id>`, `mapped:exact_sku`, `mapped:fuzzy`,
-- `human_edit` with or without an id, and what the extraction writes.
pub data Provenance : Type 0 where
  by_rule : ℕ → Provenance
  mapped_exact : Provenance
  mapped_fuzzy : Provenance
  human_edit : Option ℕ → Provenance
  extracted : Text → Provenance

pub record LineMatch : Type 0 where
  pub item_id : Option ℕ
  pub method : Option Method
  pub score : Option ℕ
  pub provenance : Option Provenance
  pub learned_rule_id : Option ℕ
  pub candidates : List MatchCandidate

pub record SkuRule : Type 0 where
  pub rule_id : ℕ
  pub buyer_scoped : Bool
  pub item_id : ℕ

pub record UomRule : Type 0 where
  pub rule_id : ℕ
  pub buyer_scoped : Bool
  pub unit_of_measure : Text

-- a dict whose keys are texts
abbrev pub Dict : Type 0 → Type 0
Dict V = List (Text × V)

unfoldable pub find : {V : Type 0} → Text → Dict V → Option V
find key [] = none
find key ((k, v) ∷ rest) = let found = find key rest in if text_beq k key then some v else found

-- the two tests on the best candidate
abbrev pub eligible_best : MatchCandidate → Bool
eligible_best best = best.eligible && leb fuzzy_match_threshold best.score

unfoldable pub fuzzy_match : List MatchCandidate → Option MatchCandidate
fuzzy_match [] = none
fuzzy_match (best ∷ []) = if eligible_best best then some best else none
fuzzy_match (best ∷ second ∷ rest) =
    if eligible_best best
    then (if leb best.score (second.score + fuzzy_ambiguity_margin) then none else some best)
    else none

abbrev pub by_candidates : List MatchCandidate → Option MatchCandidate → LineMatch
by_candidates candidates none = record {
  item_id = none;
  method = none;
  score = none;
  provenance = none;
  learned_rule_id = none;
  candidates = candidates;
}
by_candidates candidates (some winner) = record {
  item_id = some winner.item_id;
  method = some fuzzy;
  score = some winner.score;
  provenance = some mapped_fuzzy;
  learned_rule_id = none;
  candidates = candidates;
}

abbrev pub map_some {ℓ κ} : {A : Type ℓ} {B : Type κ} → (A → B) → Option A → Option B
map_some g none = none
map_some g (some a) = some (g a)

-- a learned rule whose item is live
abbrev pub live_rule : List CatalogItem → Option SkuRule → Option SkuRule
live_rule items none = none
live_rule items (some rule) = map_some (λ _. rule) (get items rule.item_id)

-- `resolve_line` after its three questions: the rule, the exact SKU, the candidates
abbrev pub first_hit :
    Option SkuRule → Option CatalogItem → Option (List MatchCandidate) → Option LineMatch
first_hit (some rule) exact_item candidates = some (record {
  item_id = some rule.item_id;
  method = some learned_rule;
  score = some learned_rule_match_score;
  provenance = some (by_rule rule.rule_id);
  learned_rule_id = some rule.rule_id;
  candidates = [];
})
first_hit none (some item) candidates = some (record {
  item_id = some item.item_id;
  method = some exact;
  score = some exact_match_score;
  provenance = some mapped_exact;
  learned_rule_id = none;
  candidates = [];
})
first_hit none none candidates = map_some (λ cs. by_candidates cs (fuzzy_match cs)) candidates

-- `none` only where the fuel of the fast scan does not suffice
unfoldable pub resolve_line :
    CaseTable
    → Fuzz
    → Option Text
    → Option Text
    → List CatalogItem
    → Dict SkuRule
    → Option LineMatch
resolve_line t f raw_sku raw_description items sku_rules =
    first_hit (live_rule items (find (normalize_description t raw_description) sku_rules))
      (exact_sku t items raw_sku) (score_candidates t f raw_sku raw_description items)

unfoldable pub resolve_uom : CaseTable → Option Text → Dict UomRule → Option UomRule
resolve_uom t raw_unit uom_rules = find (normalize_description t raw_unit) uom_rules

unfoldable pub uom_mismatch : CaseTable → Option Text → Option Text → Bool
uom_mismatch t effective_unit item_unit =
    let left = normalize_description t effective_unit in
    let right = normalize_description t item_unit in
    if is_empty left || is_empty right then false else not (text_beq left right)
