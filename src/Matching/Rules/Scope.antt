-- ===== src/Matching/Rules/Scope.antt =====
-- Which rule `load_sku_rules` of packages/core/docflow_core/matching.py keeps for a key.
use doc_flow.Prelude.{
  ℕ, Bool, true, false, ◌&&◌, Option, none, some, List, [], filter, if◌then◌else◌, is_some, ◌≡◌,
  refl, sym, ap, ◌∙◌, inl, inr, Option-cases, ◌≤◌, ◌⊎◌, leb, not, All, All-filter, All-self, Member,
  Member-filter, arith, subst, ==_refl,
}
use doc_flow.Prelude.Sort.{
  Text, text_beq, text_beq→eq, text_beq_refl, sort, sort-filter, sort-All, sort-Ordered,
  sort-Member,
}
use doc_flow.Matching.Keys.{CaseTable, normalize_description}
use doc_flow.Matching.Resolve.{find, SkuRule}
use doc_flow.Matching.Rules.{
  RuleType, rule_type_beq, uom_alias, in_scope, RuleRow, sku_mapping, visible, rule_leb, load_rules,
  sku_rule, load_sku_rules,
}
use doc_flow.Matching.Rules.First.{
  first_for-append, keyed, first_for, find-add_rules, fits, first_for-first,
}

above : (r s : RuleRow) → rule_leb r s ≡ false → rule_leb s r ≡ true
above r s h = keys (is_some r.buyer_id) r.created_at (is_some s.buyer_id) s.created_at h
  where
    key : Bool → ℕ → Bool → ℕ → Bool
    key a m b n = if a then (if b then leb n m else true) else if b then false else leb n m

    keys : (a : Bool) (m : ℕ) (b : Bool) (n : ℕ) → key a m b n ≡ false → key b n a m ≡ true
    keys a m b n h = ground arith

trans : (r s t : RuleRow) → rule_leb r s ≡ true → rule_leb s t ≡ true → rule_leb r t ≡ true
trans r s t h k =
    keys (is_some r.buyer_id) r.created_at (is_some s.buyer_id) s.created_at (is_some t.buyer_id)
      t.created_at h k
  where
    key : Bool → ℕ → Bool → ℕ → Bool
    key a m b n = if a then (if b then leb n m else true) else if b then false else leb n m

    keys :
        (a : Bool) (m : ℕ) (b : Bool) (n : ℕ) (c : Bool) (o : ℕ)
        → key a m b n ≡ true
        → key b n c o ≡ true
        → key a m c o ≡ true
    keys a m b n c o h k = ground arith

-- the test of `visible`, for the rules of one buyer
own_of :
    (kind : RuleType) (active deleted : Bool) (o : Option ℕ) (b : ℕ)
    → (rule_type_beq kind sku_mapping && (active && (not deleted && in_scope o (some b)))) ≡ true
    → is_some o ≡ true
    → (kind ≡ sku_mapping) × (active ≡ true) × (deleted ≡ false) × (o ≡ some b)
own_of uom_alias active deleted o b h k = cc
own_of sku_mapping false deleted o b h k = cc
own_of sku_mapping true true o b h k = cc
own_of sku_mapping true false none b h k = cc
own_of sku_mapping true false (some c) b h k =
    let same : c ≡ b = ground arith in (refl, refl, refl, ap some same)

own_visible :
    (kind : RuleType) (active deleted : Bool) (o : Option ℕ) (b : ℕ)
    → kind ≡ sku_mapping
    → active ≡ true
    → deleted ≡ false
    → o ≡ some b
    → (rule_type_beq kind sku_mapping && (active && (not deleted && in_scope o (some b)))) ≡ true
own_visible kind active deleted o b h k l m = rw (h, k, l, m) (==_refl b)

sku_rule-some : (r : RuleRow) (n : ℕ) → r.match_value.item_id ≡ some n → is_some (sku_rule r) ≡ true
sku_rule-some r n h = rw h refl

sku_rule-fields :
    (r : RuleRow) (rule : SkuRule)
    → sku_rule r ≡ some rule
    → (r.match_value.item_id ≡ some rule.item_id)
      × (r.id ≡ rule.rule_id)
      × (is_some r.buyer_id ≡ rule.buyer_scoped)
sku_rule-fields r rule h = elim (Option-cases r.match_value.item_id) [
  | inl e ↦ absurd (cc (rw e at h))
  | inr (n, e) ↦
      let made = rw e at h in
      (
        e ∙ ap (λ o. elim o [ none ↦ none | some v ↦ some v.item_id ]) made,
        ap (λ o. elim o [ none ↦ 0 | some v ↦ v.rule_id ]) made,
        ap (λ o. elim o [ none ↦ false | some v ↦ v.buyer_scoped ]) made,
      )
]

not_older :
    (a b : Bool) (m n : ℕ)
    → a ≡ true
    → b ≡ true
    → (if a then (if b then leb n m else true) else if b then false else leb n m) ≡ true
    → n ≤ m
not_older a b m n h k l = ground arith

module _ (t : CaseTable) (b : ℕ) (rows : List RuleRow) (k : Text) where
  -- a live rule of the buyer `b` that maps the key `k` to an item
  abbrev pub IsOwn : RuleRow → ℕ → Type 0
  IsOwn r item =
      Member rows r
      × (r.rule_type ≡ sku_mapping)
      × (r.active ≡ true)
      × (r.deleted ≡ false)
      × (r.buyer_id ≡ some b)
      × (normalize_description t (some r.match_key) ≡ k)
      × (r.match_value.item_id ≡ some item)

  abbrev scoped : RuleRow → Bool
  scoped r = is_some r.buyer_id

  abbrev rest : List RuleRow
  rest = filter (visible (some b) sku_mapping) rows

  abbrev own : List RuleRow
  own = sort rule_leb (filter scoped rest)

  abbrev Within : RuleRow → Type 0
  Within r = (Member rows r × (visible (some b) sku_mapping r ≡ true)) × (scoped r ≡ true)

  own-Within : All Within own
  own-Within = sort-All rule_leb Within (filter scoped rest) (
      All-filter _ scoped rest (
        All-filter (Member rows) (visible (some b) sku_mapping) rows
          (All-self (Member rows) rows (λ r m. m))))

  own-Member : (s : RuleRow) (item : ℕ) → IsOwn s item → Member own s
  own-Member s item (m, kind, active, live, mine, key, value) =
      let seen = own_visible s.rule_type s.active s.deleted s.buyer_id b kind active live mine in
      sort-Member rule_leb s (filter scoped rest) (
        Member-filter scoped s rest (ap is_some mine)
          (Member-filter (visible (some b) sku_mapping) s rows seen m))

  IsOwn-fits : (s : RuleRow) (item : ℕ) → IsOwn s item → fits t k s ≡ true
  IsOwn-fits s item (m, kind, active, live, mine, key, value) =
      let has_key : keyed t k s ≡ true = ap (λ x. text_beq x k) key ∙ text_beq_refl k in
      ap (λ x. x && is_some (sku_rule s)) has_key ∙ sku_rule-some s item value

  Within-IsOwn :
      (r : RuleRow) (rule : SkuRule)
      → Within r
      → keyed t k r ≡ true
      → sku_rule r ≡ some rule
      → IsOwn r rule.item_id
  Within-IsOwn r rule ((m, seen), scope) has_key made =
      let (kind, active, live, mine) =
        own_of r.rule_type r.active r.deleted r.buyer_id b seen scope in
      let (value, _, _) = sku_rule-fields r rule made in
      (m, kind, active, live, mine, text_beq→eq _ k has_key, value)

  first_own-kept :
      (rule : SkuRule)
      → first_for t k own ≡ some rule
      → find k (load_sku_rules t (some b) rows) ≡ some rule
  unfolding load_sku_rules load_rules find
  first_own-kept rule first =
      find-add_rules t k (load_rules (some b) sku_mapping rows) []
      ∙ ap (first_for t k)
          (sort-filter rule_leb scoped (λ r s e e'. rw (e, e')) (λ r s e e'. rw (e, e')) rest)
      ∙ first_for-append t k own _ rule first

  created_in_order :
      (r s : RuleRow)
      → scoped r ≡ true
      → scoped s ≡ true
      → (r ≡ s) ⊎ (rule_leb r s ≡ true)
      → s.created_at ≤ r.created_at
  created_in_order r s h k (inl same) =
      subst (λ x. s.created_at ≤ x.created_at) (sym same) (omega arith)
  created_in_order r s h k (inr l) =
      not_older (is_some r.buyer_id) (is_some s.buyer_id) r.created_at s.created_at h k l

  -- When the buyer `b` has a live rule `s` that maps the key to an item: the rule that is kept for the
  -- key is made of such a rule of this buyer, one that is not older than `s`, and has its id and its
  -- item, whatever tenant-wide rules and rules of other buyers there are.
  pub buyer_rule_first :
      (s : RuleRow) (item : ℕ)
      → IsOwn s item
      → (rule : SkuRule) × (find k (load_sku_rules t (some b) rows) ≡ some rule)
        × (rule.buyer_scoped ≡ true)
        × ((r : RuleRow) × IsOwn r rule.item_id
            × (r.id ≡ rule.rule_id)
            × (s.created_at ≤ r.created_at))
  buyer_rule_first s item h =
      let (_, _, _, _, mine, _, _) = h in
      let ordered =
        sort-Ordered rule_leb (λ x y. rule_leb x y ≡ true) (λ x y e. e) above trans
          (filter scoped rest) in
      let (r, rule, first, made, has_key, within, place) =
        first_for-first t k Within own s own-Within ordered (own-Member s item h)
          (IsOwn-fits s item h) in
      let (_, same_id, scope) = sku_rule-fields r rule made in
      (
        rule,
        first_own-kept rule first,
        sym scope ∙ within.1,
        (
          r,
          Within-IsOwn r rule within has_key made,
          same_id,
          created_in_order r s within.1 (ap is_some mine) place,
        ),
      )
