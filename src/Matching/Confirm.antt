-- ===== src/Matching/Confirm.antt =====
-- A reviewer's confirmation, `confirm_sku_mapping` and `_upsert_sku_mapping_rule` of
-- packages/core/docflow_core/matching.py. The rows are the tenant's own.
use doc_flow.Prelude.{
  ℕ, Bool, true, false, not, ◌&&◌, Option, none, some, List, [], ◌∷◌, ◌==◌, if◌then◌else◌,
}
use doc_flow.Prelude.Sort.{Text, text_beq}
use doc_flow.Matching.Keys.{CaseTable, normalize_description}
use doc_flow.Matching.Catalog.{CatalogItem, is_empty, get}
use doc_flow.Matching.Resolve.{
  human_confirmed, human_edit, human_confirmed_match_score, uom_mismatch,
}
use doc_flow.Matching.Rules.{RuleRow, sku_mapping, rule_type_beq}
use doc_flow.Matching.Pass.{Line, matched_item, put, update_line}
pub mod Survives

abbrev pub buyer_beq : Option ℕ → Option ℕ → Bool
buyer_beq none none = true
buyer_beq none (some c) = false
buyer_beq (some b) none = false
buyer_beq (some b) (some c) = b == c

-- the conflict target: the partial unique index on the live rules of a key
abbrev pub conflicts : Option ℕ → Text → RuleRow → Bool
conflicts buyer key r =
    not r.deleted
    && (rule_type_beq r.rule_type sku_mapping
        && (buyer_beq r.buyer_id buyer && text_beq r.match_key key))

-- `INSERT … ON CONFLICT … DO UPDATE … RETURNING id`; `fresh` is the new row, with its `uuid4`
unfoldable pub upsert_sku_mapping_rule : RuleRow → List RuleRow → List RuleRow × ℕ
upsert_sku_mapping_rule fresh [] = (fresh ∷ [], fresh.id)
upsert_sku_mapping_rule fresh (r ∷ rows) =
    let (rest, id) = upsert_sku_mapping_rule fresh rows in
    if conflicts fresh.buyer_id fresh.match_key r
    then (
      record r {
        match_value = fresh.match_value;
        active = true;
        confirmed_by = fresh.confirmed_by;
        source_document_id = fresh.source_document_id;
      }
          ∷ rows,
      r.id,
    )
    else (r ∷ rest, id)

abbrev pub find_line : ℕ → List Line → Option Line
find_line n [] = none
find_line n (l ∷ lines) =
    let rest = find_line n lines in if l.line_id == n && not l.deleted then some l else rest

-- What the call returns or raises, with what it wrote.
pub data Confirmation : Type 0 where
  line_not_found : Confirmation
  item_not_found : Confirmation
  confirmed : List Line → List RuleRow → Option ℕ → Confirmation

-- the rule that would be inserted
abbrev pub new_rule : ℕ → ℕ → Option ℕ → Text → CatalogItem → Line → Option ℕ → RuleRow
new_rule id now buyer key item l confirmed_by = record {
  id = id;
  buyer_id = buyer;
  rule_type = sku_mapping;
  match_key = key;
  match_value = record {
    item_id = some item.item_id;
    sku = some item.sku;
    raw_description = l.description;
    unit_of_measure = none;
  };
  active = true;
  deleted = false;
  confirmed_by = confirmed_by;
  source_document_id = some l.document_id;
  times_applied = 0;
  created_at = now;
}

module _ (t : CaseTable) (buyer_of : ℕ → Option ℕ)  -- the buyer of a document's header
    (id now item_id : ℕ) (confirmed_by : Option ℕ) (tenant_wide : Bool)
    (review_action_id : Option ℕ) where
  -- the UPDATE of the line that was read as `row`
  unfoldable pub write_confirmed : Line → CatalogItem → Line → Line
  write_confirmed row item l = record l {
    matched_item_id = some item_id;
    match_method = some human_confirmed;
    match_score = some human_confirmed_match_score;
    uom_mismatch = uom_mismatch t row.unit item.unit_of_measure;
    field_provenance = put matched_item (some (human_edit review_action_id)) row.field_provenance;
    matched_at = some now;
  }

  abbrev pub scope : Line → Option ℕ
  scope row = if tenant_wide then none else buyer_of row.document_id

  -- nothing to learn from a line without a description
  abbrev pub learn : Bool → RuleRow → List Line → List RuleRow → Confirmation
  learn true fresh lines rules = confirmed lines rules none
  learn false fresh lines rules =
      let (rules', rule) = upsert_sku_mapping_rule fresh rules in confirmed lines rules' (some rule)

  abbrev pub confirm_found :
      ℕ → Option Line → Option CatalogItem → List Line → List RuleRow → Confirmation
  confirm_found n none item lines rules = line_not_found
  confirm_found n (some row) none lines rules = item_not_found
  confirm_found n (some row) (some item) lines rules =
      let match_key = normalize_description t row.description in
      learn (is_empty match_key) (new_rule id now (scope row) match_key item row confirmed_by)
        (update_line (write_confirmed row item) n lines) rules

  unfoldable pub confirm_sku_mapping :
      ℕ → List CatalogItem → List Line → List RuleRow → Confirmation
  confirm_sku_mapping n items lines rules =
      confirm_found n (find_line n lines) (get items item_id) lines rules
