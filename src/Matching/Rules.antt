-- ===== src/Matching/Rules.antt =====
-- The learned rules that matching reads, `_load_rules`, `load_sku_rules`, `load_uom_rules` and
-- `bump_times_applied` of packages/core/docflow_core/matching.py. The rows are the tenant's own.
use doc_flow.Prelude.{
  ℕ, ◌+◌, Bool, true, false, not, ◌&&◌, ◌||◌, Option, none, some, List, [], ◌∷◌, ◌++◌, map, filter,
  ltb, leb, ◌==◌, if◌then◌else◌, is_some,
}
use doc_flow.Prelude.Sort.{Text, text_beq, sort}
use doc_flow.Matching.Keys.{CaseTable, normalize_description}
use doc_flow.Matching.Catalog.{is_empty}
use doc_flow.Matching.Resolve.{Dict, find, SkuRule, UomRule}
pub mod First
pub mod Scope

pub data RuleType : Type 0 where
  sku_mapping : RuleType
  uom_alias : RuleType

abbrev pub rule_type_beq : RuleType → RuleType → Bool
rule_type_beq sku_mapping sku_mapping = true
rule_type_beq uom_alias uom_alias = true
rule_type_beq sku_mapping uom_alias = false
rule_type_beq uom_alias sku_mapping = false

-- the keys of `match_value` that the code reads or writes
pub record MatchValue : Type 0 where
  pub item_id : Option ℕ
  pub sku : Option Text
  pub raw_description : Option Text
  pub unit_of_measure : Option Text

pub record RuleRow : Type 0 where
  pub id : ℕ
  pub buyer_id : Option ℕ
  pub rule_type : RuleType
  pub match_key : Text
  pub match_value : MatchValue
  pub active : Bool
  pub deleted : Bool
  pub confirmed_by : Option ℕ
  pub source_document_id : Option ℕ
  pub times_applied : ℕ
  pub created_at : ℕ

-- `buyer_id IS NULL OR buyer_id = CAST(:buyer_id AS uuid)`: with no buyer bound the equation is NULL
abbrev pub in_scope : Option ℕ → Option ℕ → Bool
in_scope none buyer = true
in_scope (some b) none = false
in_scope (some b) (some c) = b == c

-- the WHERE clause of `_load_rules`
abbrev pub visible : Option ℕ → RuleType → RuleRow → Bool
visible buyer kind r =
    rule_type_beq r.rule_type kind && (r.active && (not r.deleted && in_scope r.buyer_id buyer))

-- ORDER BY (buyer_id IS NULL), created_at DESC; where the two agree, the rows keep their order
abbrev pub rule_leb : RuleRow → RuleRow → Bool
rule_leb r s =
    if is_some r.buyer_id
    then (if is_some s.buyer_id then leb s.created_at r.created_at else true)
    else if is_some s.buyer_id
    then false
    else leb s.created_at r.created_at

unfoldable pub load_rules : Option ℕ → RuleType → List RuleRow → List RuleRow
load_rules buyer kind rows = sort rule_leb (filter (visible buyer kind) rows)

-- `rules.setdefault(key, value)`
abbrev pub keep_first : {V : Type 0} → Option V → Text → V → Dict V → Dict V
keep_first (some old) key v rules = rules
keep_first none key v rules = rules ++ (key, v) ∷ []

unfoldable pub setdefault : {V : Type 0} → Text → V → Dict V → Dict V
setdefault key v rules = keep_first (find key rules) key v rules

-- what a row contributes; `none` for a value without the key (`continue`)
abbrev pub sku_rule : RuleRow → Option SkuRule
sku_rule r = elim r.match_value.item_id [
  | none ↦ none
  | some n ↦ some (record { rule_id = r.id; buyer_scoped = is_some r.buyer_id; item_id = n })
]

abbrev pub uom_rule : RuleRow → Option UomRule
uom_rule r = elim r.match_value.unit_of_measure [
  | none ↦ none
  | some u ↦
      if is_empty u
      then none
      else some (record { rule_id = r.id; buyer_scoped = is_some r.buyer_id; unit_of_measure = u })
]

module _ {V : Type 0} (t : CaseTable) (rule_of : RuleRow → Option V) where
  abbrev pub add_rule : Option V → Text → Dict V → Dict V
  add_rule none key rules = rules
  add_rule (some v) key rules = setdefault (normalize_description t (some key)) v rules

  -- the loop over the rows
  unfoldable pub add_rules : List RuleRow → Dict V → Dict V
  add_rules [] rules = rules
  add_rules (r ∷ rows) rules = add_rules rows (add_rule (rule_of r) r.match_key rules)

unfoldable pub load_sku_rules : CaseTable → Option ℕ → List RuleRow → Dict SkuRule
load_sku_rules t buyer rows = add_rules t sku_rule (load_rules buyer sku_mapping rows) []

unfoldable pub load_uom_rules : CaseTable → Option ℕ → List RuleRow → Dict UomRule
load_uom_rules t buyer rows = add_rules t uom_rule (load_rules buyer uom_alias rows) []

unfoldable pub bump_times_applied : (ℕ → ℕ) → List RuleRow → List RuleRow
bump_times_applied counts [] = []
bump_times_applied counts (r ∷ rows) =
    record r { times_applied = r.times_applied + counts r.id } ∷ bump_times_applied counts rows
