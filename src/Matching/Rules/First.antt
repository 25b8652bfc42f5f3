-- ===== src/Matching/Rules/First.antt =====
-- The first learned rule of a key: what the loop of `_load_rules` in
-- packages/core/docflow_core/matching.py keeps of the rows in their order.
use doc_flow.Prelude.{
  Bool, true, false, ◌&&◌, Option, none, some, List, [], ◌∷◌, ◌++◌, if◌then◌else◌, is_some, ◌≡◌,
  refl, sym, ap, ◌∙◌, inl, inr, Bool-cases, Option-cases, ◌⊎◌, All, Member, All-Member,
}
use doc_flow.Prelude.Sort.{Text, text_beq, text_beq→eq, Ordered}
use doc_flow.Matching.Keys.{CaseTable, normalize_description}
use doc_flow.Matching.Catalog.{or_else}
use doc_flow.Matching.Resolve.{Dict, find, SkuRule}
use doc_flow.Matching.Rules.{RuleRow, rule_leb, setdefault, sku_rule, add_rule, add_rules}

abbrev pub when {ℓ} : {A : Type ℓ} → Bool → Option A → Option A
when b o = if b then o else none

when-none {ℓ} : {A : Type ℓ} (b : Bool) → when {A = A} b none ≡ none
when-none true = refl
when-none false = refl

when-some {ℓ} :
    {A : Type ℓ} (b : Bool) (o : Option A) (v : A) → when b o ≡ some v → (b ≡ true) × (o ≡ some v)
when-some true o v h = (refl, h)
when-some false o v h = absurd (cc h)

when-none-fits {ℓ} :
    {A : Type ℓ} (b : Bool) (o : Option A) → when b o ≡ none → (b && is_some o) ≡ false
when-none-fits true none h = refl
when-none-fits true (some v) h = absurd (cc h)
when-none-fits false o h = refl

or_else-none {ℓ} : {A : Type ℓ} (o : Option A) → or_else o none ≡ o
or_else-none none = refl
or_else-none (some a) = refl

or_else_assoc {ℓ} :
    {A : Type ℓ} (a b c : Option A) → or_else (or_else a b) c ≡ or_else a (or_else b c)
or_else_assoc none b c = refl
or_else_assoc (some a) b c = refl

module _ {V : Type 0} where
  find-end :
      (k key : Text) (v : V) (rules : Dict V)
      → find k (rules ++ (key, v) ∷ []) ≡ or_else (find k rules) (when (text_beq key k) (some v))
  unfolding find
  find-end k key v [] = refl
  find-end k key v ((k', v') ∷ rules) = elim (Bool-cases (text_beq k' k)) [
    | inl e ↦ rw e
    | inr e ↦ rw e (find-end k key v rules)
  ]

  -- A key that is there keeps its value.
  find-setdefault :
      (k key : Text) (v : V) (rules : Dict V)
      → find k (setdefault key v rules) ≡ or_else (find k rules) (when (text_beq key k) (some v))
  unfolding setdefault
  find-setdefault k key v rules = elim (Option-cases (find key rules)) [
    | inl e ↦ rw e (find-end k key v rules)
    | inr (old, e) ↦ rw e (kept old e (text_beq key k) refl)
  ]
    where
      kept :
          (old : V)
          → find key rules ≡ some old
          → (b : Bool) → text_beq key k ≡ b
          → find k rules ≡ or_else (find k rules) (when b (some v))
      kept old e false h = sym (or_else-none (find k rules))
      kept old e true h =
          let there : find k rules ≡ some old = rw (← text_beq→eq key k h) e in rw there

module _ (t : CaseTable) (k : Text) where
  abbrev pub keyed : RuleRow → Bool
  keyed r = text_beq (normalize_description t (some r.match_key)) k

  -- the first row with the key that has a value
  pub first_for : List RuleRow → Option SkuRule
  first_for [] = none
  first_for (r ∷ rows) = or_else (when (keyed r) (sku_rule r)) (first_for rows)

  pub find-add_rules :
      (rows : List RuleRow) (rules : Dict SkuRule)
      → find k (add_rules t sku_rule rows rules) ≡ or_else (find k rules) (first_for rows)
  unfolding add_rules first_for
  find-add_rules [] rules = sym (or_else-none (find k rules))
  find-add_rules (r ∷ rows) rules =
      find-add_rules rows (add_rule t sku_rule (sku_rule r) r.match_key rules) ∙ go (sku_rule r)
    where
      go :
          (o : Option SkuRule)
          → or_else (find k (add_rule t sku_rule o r.match_key rules)) (first_for rows)
            ≡ or_else (find k rules) (or_else (when (keyed r) o) (first_for rows))
      go none = rw (when-none (keyed r))
      go (some v) = rw (find-setdefault k _ v rules) (or_else_assoc (find k rules) _ _)

  abbrev pub fits : RuleRow → Bool
  fits r = keyed r && is_some (sku_rule r)

  -- The first row that fits comes before, or is, any row that fits.
  pub first_for-first :
      (P : RuleRow → Type 0) (rows : List RuleRow) (s : RuleRow)
      → All P rows
      → Ordered (λ x y. rule_leb x y ≡ true) rows
      → Member rows s
      → fits s ≡ true
      → (r : RuleRow) × (rule : SkuRule) × (first_for rows ≡ some rule)
        × (sku_rule r ≡ some rule)
        × (keyed r ≡ true)
        × P r
        × ((r ≡ s) ⊎ (rule_leb r s ≡ true))
  unfolding first_for
  first_for-first P [] s all o m h = absurd m
  first_for-first P (r ∷ rows) s (own, all) (before, o) m h =
      let ih = first_for-first P rows s all o in
      elim (Option-cases (when (keyed r) (sku_rule r))) [
        | inr (rule, e) ↦
            let (has_key, value) = when-some (keyed r) (sku_rule r) rule e in
            (
              r,
              rule,
              ap (λ x. or_else x (first_for rows)) e,
              value,
              has_key,
              own,
              elim m [ inl same ↦ inl same | inr m' ↦ inr (All-Member _ rows s before m') ],
            )
        | inl e ↦ elim m [
          | inl same ↦
              absurd (cc (sym (when-none-fits (keyed r) (sku_rule r) e) ∙ ap fits same ∙ h))
          | inr m' ↦
              let (x, rule, first, value, has_key, p, place) = ih m' h in
              (x, rule, ap (λ y. or_else y (first_for rows)) e ∙ first, value, has_key, p, place)
        ]
      ]

pub first_for-append :
    (t : CaseTable) (k : Text) (rows others : List RuleRow) (rule : SkuRule)
    → first_for t k rows ≡ some rule
    → first_for t k (rows ++ others) ≡ some rule
unfolding first_for
first_for-append t k [] others rule h = absurd (cc h)
first_for-append t k (r ∷ rows) others rule h =
    go (when (keyed t k r) (sku_rule r)) (first_for-append t k rows others rule) h
  where
    go :
        (o : Option SkuRule)
        → (first_for t k rows ≡ some rule → first_for t k (rows ++ others) ≡ some rule)
        → or_else o (first_for t k rows) ≡ some rule
        → or_else o (first_for t k (rows ++ others)) ≡ some rule
    go none ih h = ih h
    go (some v) ih h = h
