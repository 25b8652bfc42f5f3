-- ===== src/Matching/Tests.antt =====
-- Runs of matching and the witnesses: a case table and a scorer that answer as the parameters' laws
-- say, a catalog that is longer than what the fast scan keeps, and two lines.
use doc_flow.Prelude.{
  ℕ, zero, suc, ◌+◌, ◌≤◌, ◌≡◌, ◌≢◌, ◌⊎◌, Bool, true, false, not, ◌&&◌, ◌||◌, Option, none, some,
  List, [], ◌∷◌, ◌++◌, map, take, length, get_elem?, contains, ltb, leb, ◌==◌, if◌then◌else◌, refl,
  sym, ap, inl, inr, Bool-cases, arith, All, any, ==_refl, is_some,
}
use doc_flow.Matching.Tests.Scorer.{ascii, exact_scorer}
use doc_flow.Prelude.Sort.{Text, text_beq, sort, insert, Ordered, sort-Ordered}
use doc_flow.Matching.Keys.{
  CaseTable, normalize_description, description_passes, spaced_where, squeeze, drop_stray, lstrip,
  rstrip, glue,
}
use doc_flow.Matching.Catalog.{CatalogItem, exact_sku}
use doc_flow.Matching.Candidates.{
  Fuzz, last_cut, indices, score_candidates, score_candidates_full_scan,
}
use doc_flow.Matching.Candidates.Fast.{fast_scan_is_full_scan}
use doc_flow.Matching.Resolve.{LineMatch, SkuRule, Dict, find, resolve_line, human_edit, extracted}
use doc_flow.Matching.Resolve.Justified.{Justified, resolve_line-Justified}
use doc_flow.Matching.Rules.{RuleRow, RuleType, sku_mapping, MatchValue, visible, load_sku_rules}
use doc_flow.Matching.Rules.Scope.{IsOwn, buyer_rule_first}
use doc_flow.Matching.Pass.{
  Line, MatchingSummary, match_document_lines, lines_of, FieldKey, matched_item,
}
use doc_flow.Matching.Pass.Untouched.{Pairs, SameExtracted, Human, pass_keeps_extracted}
use doc_flow.Matching.Confirm.{confirm_sku_mapping}
use doc_flow.Matching.Confirm.Survives.{Survives, confirm_sku_mapping-Survives}
use doc_flow.Matching.Pass.Answers.{Distinct, pass_keeps_answers}
mod Scorer

-- "cup", "Cup 5 oz" and "5oz"
abbrev cup : Text
cup = b'c' ∷ b'u' ∷ b'p' ∷ []

abbrev cup_five_oz : Text
cup_five_oz = b'C' ∷ b'u' ∷ b'p' ∷ 32 ∷ b'5' ∷ 32 ∷ b'o' ∷ b'z' ∷ []

cup_key :
    normalize_description ascii (some cup_five_oz)
    ≡ (b'c' ∷ b'u' ∷ b'p' ∷ 32 ∷ b'5' ∷ b'o' ∷ b'z' ∷ [])
unfolding normalize_description description_passes spaced_where squeeze drop_stray lstrip rstrip
    glue
cup_key = refl

abbrev catalog_item : ℕ → CatalogItem
catalog_item n = record {
  item_id = n;
  sku = b'A' ∷ (n + 48) ∷ [];
  description = some cup;
  unit_of_measure = none;
}

-- items with the ids below a number
abbrev items_below : ℕ → List CatalogItem
items_below zero = []
items_below (suc n) = catalog_item n ∷ items_below n

abbrev large_catalog : List CatalogItem
large_catalog = items_below 120

fast_scan_is_full_scan_example :
    score_candidates ascii exact_scorer none (some cup) large_catalog
    ≡ some (score_candidates_full_scan ascii exact_scorer none (some cup) large_catalog)
fast_scan_is_full_scan_example =
    fast_scan_is_full_scan ascii exact_scorer none (some cup) large_catalog

abbrev rule_row : ℕ → Option ℕ → ℕ → RuleRow
rule_row n buyer created = record {
  id = n;
  buyer_id = buyer;
  rule_type = sku_mapping;
  match_key = cup;
  match_value = record {
    item_id = some n;
    sku = none;
    raw_description = none;
    unit_of_measure = none;
  };
  active = true;
  deleted = false;
  confirmed_by = some 1;
  source_document_id = none;
  times_applied = 0;
  created_at = created;
}

-- a tenant-wide rule that is newer than the buyer's own
abbrev two_rules : List RuleRow
two_rules = rule_row 1 none 50 ∷ rule_row 2 (some 7) 10 ∷ []

resolve_line-Justified_example :
    (m : LineMatch) × (resolve_line ascii exact_scorer none (some cup_five_oz) large_catalog []
      ≡ some m)
    × Justified ascii exact_scorer none (some cup_five_oz) large_catalog [] m
resolve_line-Justified_example =
    resolve_line-Justified ascii exact_scorer none (some cup_five_oz) large_catalog []

key_of_cup : normalize_description ascii (some cup) ≡ cup
unfolding normalize_description description_passes spaced_where squeeze drop_stray lstrip rstrip
    glue
key_of_cup = refl

buyer_rule_first_example :
    (rule : SkuRule) × (find cup (load_sku_rules ascii (some 7) two_rules) ≡ some rule)
    × (rule.buyer_scoped ≡ true)
    × ((r : RuleRow) × IsOwn ascii 7 two_rules cup r rule.item_id
        × (r.id ≡ rule.rule_id)
        × (10 ≤ r.created_at))
buyer_rule_first_example =
    buyer_rule_first ascii 7 two_rules cup (rule_row 2 (some 7) 10) 2
      (inr (inl refl), refl, refl, refl, refl, key_of_cup, refl)

abbrev line : ℕ → Bool → Line
line n human = record {
  line_id = n;
  document_id = 3;
  line_number = n;
  deleted = false;
  sku = none;
  description = some cup;
  unit = none;
  field_provenance = λ k. if human then some (human_edit none) else some (extracted []);
  matched_item_id = none;
  match_method = none;
  match_score = none;
  matched_uom = none;
  uom_mismatch = false;
  match_candidates = [];
  matched_at = none;
}

abbrev two_lines : List Line
two_lines = line 1 true ∷ line 2 false ∷ []

pass_keeps_extracted_example :
    (lines' : List Line) × (s : MatchingSummary) × (match_document_lines ascii exact_scorer
        large_catalog two_rules
        (some 7)
        3
        9
        two_lines
      ≡ some (lines', s))
    × Pairs SameExtracted two_lines lines'
    × (s.lines_considered ≡ length (lines_of 3 two_lines))
    × (s.lines_matched + s.skipped_human_edited ≤ s.lines_considered)
pass_keeps_extracted_example =
    pass_keeps_extracted ascii exact_scorer large_catalog two_rules (some 7) 3 9 two_lines

pass_keeps_answers_example :
    (lines' : List Line) × (s : MatchingSummary) × (match_document_lines ascii exact_scorer
        large_catalog two_rules
        (some 7)
        3
        9
        two_lines
      ≡ some (lines', s))
    × Pairs (λ l m. Human l → m ≡ l) two_lines lines'
pass_keeps_answers_example =
    pass_keeps_answers ascii exact_scorer large_catalog two_rules (some 7) 3 9 two_lines
      (((λ e. absurd (cc e)), tt), (tt, tt))

confirm_sku_mapping-Survives_example :
    Survives ascii exact_scorer large_catalog two_rules (some 7) 3 12 2 (
      confirm_sku_mapping ascii
        (λ _. some 7)
        50
        11
        4
        (some 1)
        false
        (some 8)
        2
        large_catalog
        two_lines
        two_rules)
confirm_sku_mapping-Survives_example =
    confirm_sku_mapping-Survives ascii exact_scorer large_catalog two_rules (some 7) 3 12 2
      (λ _. some 7) 50 11 4 (some 1) false (some 8) large_catalog two_lines two_rules
      (((λ e. absurd (cc e)), tt), (tt, tt))
