-- ===== src/Matching/Pass.antt =====
-- The pass over the lines of a document, `match_document_lines`, and a reviewer's confirmation,
-- `confirm_sku_mapping`, of packages/core/docflow_core/matching.py.
use doc_flow.Prelude.{
  ℕ, zero, suc, ◌+◌, Bool, true, false, not, ◌&&◌, ◌||◌, Option, none, some, List, [], ◌∷◌, ◌++◌,
  map, filter, ltb, leb, ◌==◌, if◌then◌else◌, is_some, any,
}
use doc_flow.Prelude.Sort.{Text, text_beq, sort}
use doc_flow.Matching.Keys.{CaseTable, normalize_description}
use doc_flow.Matching.Catalog.{CatalogItem, is_empty, get}
use doc_flow.Matching.Candidates.{Fuzz, MatchCandidate}
use doc_flow.Matching.Resolve.{
  Method, learned_rule, exact, fuzzy, human_confirmed, Provenance, by_rule, human_edit, LineMatch,
  SkuRule, UomRule, Dict, resolve_line, resolve_uom, uom_mismatch, human_confirmed_match_score,
}
use doc_flow.Matching.Rules.{
  RuleRow, sku_mapping, MatchValue, load_sku_rules, load_uom_rules, rule_type_beq,
}
pub mod Untouched
pub mod Answers

-- the keys of `field_provenance`: the two that matching owns, and the extracted fields
pub data FieldKey : Type 0 where
  matched_item : FieldKey
  matched_unit : FieldKey
  extracted_field : ℕ → FieldKey

abbrev pub field_key_beq : FieldKey → FieldKey → Bool
field_key_beq matched_item matched_item = true
field_key_beq matched_unit matched_unit = true
field_key_beq (extracted_field i) (extracted_field j) = i == j
field_key_beq _ _ = false

abbrev pub FieldProvenance : Type 0
FieldProvenance = FieldKey → Option Provenance

abbrev pub put : FieldKey → Option Provenance → FieldProvenance → FieldProvenance
put key v m = λ k. if field_key_beq k key then v else m k

-- A row of `document_lines`.
pub record Line : Type 0 where
  pub line_id : ℕ
  pub document_id : ℕ
  pub line_number : ℕ
  pub deleted : Bool
  pub sku : Option Text
  pub description : Option Text
  pub unit : Option Text
  pub field_provenance : FieldProvenance
  pub matched_item_id : Option ℕ
  pub match_method : Option Method
  pub match_score : Option ℕ
  pub matched_uom : Option Text
  pub uom_mismatch : Bool
  pub match_candidates : List MatchCandidate
  pub matched_at : Option ℕ

pub record MatchingSummary : Type 0 where
  pub lines_considered : ℕ
  pub lines_matched : ℕ
  pub by_method : Method → ℕ
  pub skipped_human_edited : ℕ
  pub rules_applied : ℕ → ℕ

abbrev pub no_summary : MatchingSummary
no_summary = record {
  lines_considered = 0;
  lines_matched = 0;
  by_method = λ _. 0;
  skipped_human_edited = 0;
  rules_applied = λ _. 0;
}

abbrev pub is_human : Option Provenance → Bool
is_human none = false
is_human (some (human_edit _)) = true
is_human (some _) = false

unfoldable pub human_edited : FieldProvenance → FieldKey → Bool
human_edited m key = is_human (m key)

abbrev pub method_beq : Method → Method → Bool
method_beq learned_rule learned_rule = true
method_beq exact exact = true
method_beq fuzzy fuzzy = true
method_beq human_confirmed human_confirmed = true
method_beq _ _ = false

abbrev pub bump_method : Option Method → (Method → ℕ) → Method → ℕ
bump_method none counts m = counts m
bump_method (some method) counts m = if method_beq m method then suc (counts m) else counts m

abbrev pub bump_rule : Option ℕ → (ℕ → ℕ) → ℕ → ℕ
bump_rule none counts n = counts n
bump_rule (some rule) counts n = if n == rule then suc (counts n) else counts n

-- `matched_uom or row["unit"]`
abbrev pub unit_or : Option Text → Option Text → Option Text
unit_or none unit = unit
unit_or (some []) unit = unit
unit_or (some (c ∷ u)) unit = some (c ∷ u)

abbrev pub unit_of_uom : Option UomRule → Option Text
unit_of_uom none = none
unit_of_uom (some rule) = some rule.unit_of_measure

abbrev pub id_of_uom : Option UomRule → Option ℕ
id_of_uom none = none
id_of_uom (some rule) = some rule.rule_id

abbrev pub provenance_of : Option ℕ → Option Provenance
provenance_of none = none
provenance_of (some rule) = some (by_rule rule)

abbrev pub item_of : List CatalogItem → Option ℕ → Option CatalogItem
item_of items none = none
item_of items (some n) = get items n

abbrev pub mismatch_with : CaseTable → Option Text → Option CatalogItem → Bool
mismatch_with t unit none = false
mismatch_with t unit (some item) = uom_mismatch t unit item.unit_of_measure

-- `UPDATE document_lines SET … WHERE id = :id`
unfoldable pub update_line : (Line → Line) → ℕ → List Line → List Line
update_line write n [] = []
update_line write n (l ∷ lines) =
    let rest = update_line write n lines in if l.line_id == n then write l ∷ rest else l ∷ rest

module _ (t : CaseTable) (f : Fuzz) (items : List CatalogItem) (sku_rules : Dict SkuRule)
    (uom_rules : Dict UomRule) (now : ℕ) where
  -- the rule for the unit and the provenance with it; a person's answer is left alone
  unfoldable pub suggest_uom : Line → Option UomRule × FieldProvenance
  suggest_uom row =
      let rule = resolve_uom t row.unit uom_rules in
      if human_edited row.field_provenance matched_unit
      then (none, row.field_provenance)
      else (rule, put matched_unit (provenance_of (id_of_uom rule)) row.field_provenance)

  -- the UPDATE of a row that was read as `row`
  unfoldable pub write_match : Line → LineMatch → Option UomRule × FieldProvenance → Line → Line
  write_match row result (rule, provenance) l = record l {
    matched_item_id = result.item_id;
    match_method = result.method;
    match_score = result.score;
    matched_uom = unit_of_uom rule;
    uom_mismatch =
        mismatch_with t (unit_or (unit_of_uom rule) row.unit) (item_of items result.item_id);
    match_candidates = result.candidates;
    field_provenance =
        put matched_item (if is_some result.item_id then result.provenance else none) provenance;
    matched_at = some now;
  }

  unfoldable pub count_match : LineMatch → Option ℕ → MatchingSummary → MatchingSummary
  count_match result uom_rule s = record s {
    lines_matched = if is_some result.item_id then suc s.lines_matched else s.lines_matched;
    by_method =
        if is_some result.item_id then bump_method result.method s.by_method else s.by_method;
    rules_applied = bump_rule result.learned_rule_id (bump_rule uom_rule s.rules_applied);
  }

  -- the rest of the turn, where the line has its conclusion
  abbrev pub conclude :
      Line → Option LineMatch → List Line × MatchingSummary → Option (List Line × MatchingSummary)
  conclude row none (lines, s) = none
  conclude row (some result) (lines, s) = some (
    update_line (write_match row result (suggest_uom row)) row.line_id lines,
    count_match result (id_of_uom (suggest_uom row).0) s,
  )

  -- one turn of the loop
  unfoldable pub match_line :
      Line → List Line × MatchingSummary → Option (List Line × MatchingSummary)
  match_line row (lines, s) =
      let considered : MatchingSummary = record s { lines_considered = suc s.lines_considered } in
      let skipped : MatchingSummary = record considered {
        skipped_human_edited = suc s.skipped_human_edited;
      } in
      let concluded =
        conclude row (resolve_line t f row.sku row.description items sku_rules)
          (lines, considered) in
      if human_edited row.field_provenance matched_item then some (lines, skipped) else concluded

  abbrev pub next_line :
      (List Line × MatchingSummary → Option (List Line × MatchingSummary))
      → Option (List Line × MatchingSummary)
      → Option (List Line × MatchingSummary)
  next_line go none = none
  next_line go (some state) = go state

  unfoldable pub match_lines :
      List Line → List Line × MatchingSummary → Option (List Line × MatchingSummary)
  match_lines [] state = some state
  match_lines (row ∷ rows) state =
      next_line (λ state'. match_lines rows state') (match_line row state)

-- `SELECT … WHERE document_id = … AND deleted_at IS NULL ORDER BY line_number`
unfoldable pub lines_of : ℕ → List Line → List Line
lines_of document lines =
    sort (λ a b. leb a.line_number b.line_number)
      (filter (λ l. l.document_id == document && not l.deleted) lines)

unfoldable pub match_document_lines :
    CaseTable
    → Fuzz
    → List CatalogItem
    → List RuleRow
    → Option ℕ
    → ℕ
    → ℕ
    → List Line
    → Option (List Line × MatchingSummary)
match_document_lines t f items rules buyer document now lines =
    match_lines t f items (load_sku_rules t buyer rules) (load_uom_rules t buyer rules) now
      (lines_of document lines) (lines, no_summary)
