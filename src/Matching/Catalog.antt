-- ===== src/Matching/Catalog.antt =====
-- The catalog of one tenant, `CatalogItem` and `Catalog` of
-- packages/core/docflow_core/matching.py: its items in order, and the two indexes as searches.
use doc_flow.Prelude.{
  ℕ, Bool, true, false, not, ◌&&◌, Option, none, some, List, [], ◌∷◌, map, filter, ◌==◌,
  if◌then◌else◌,
}
use doc_flow.Prelude.Sort.{Text, text_beq}
use doc_flow.Matching.Keys.{
  CaseTable, normalize_description, normalize_sku, sku_comparison_key, sorted_tokens,
}

pub record CatalogItem : Type 0 where
  pub item_id : ℕ
  pub sku : Text
  pub description : Option Text
  pub unit_of_measure : Option Text

-- `if key:`
abbrev pub is_empty : Text → Bool
is_empty [] = true
is_empty (c ∷ s) = false

-- a dict comprehension keeps the last item of an id
abbrev pub or_else {ℓ} : {A : Type ℓ} → Option A → Option A → Option A
or_else none o = o
or_else (some a) o = some a

unfoldable pub get : List CatalogItem → ℕ → Option CatalogItem
get [] n = none
get (x ∷ xs) n = or_else (get xs n) (if x.item_id == n then some x else none)

-- `_by_sku.get(key, [])`: an item with an empty key is in no bucket
unfoldable pub with_sku : CaseTable → List CatalogItem → Text → List CatalogItem
with_sku t items key =
    filter
      (λ x.
        not (is_empty (normalize_sku t (some x.sku)))
        && text_beq (normalize_sku t (some x.sku)) key)
      items

-- `matches[0] if len(matches) == 1 else None`
abbrev pub only_one : List CatalogItem → Option CatalogItem
only_one [] = none
only_one (x ∷ []) = some x
only_one (x ∷ y ∷ xs) = none

abbrev pub several : List CatalogItem → List CatalogItem
several [] = []
several (x ∷ []) = []
several (x ∷ y ∷ xs) = x ∷ y ∷ xs

unfoldable pub exact_sku : CaseTable → List CatalogItem → Option Text → Option CatalogItem
exact_sku t items raw_sku = only_one (with_sku t items (normalize_sku t raw_sku))

unfoldable pub ambiguous_sku : CaseTable → List CatalogItem → Option Text → List CatalogItem
ambiguous_sku t items raw_sku = several (with_sku t items (normalize_sku t raw_sku))

-- one key for each item, in the order of the items
unfoldable pub scan_keys : CaseTable → List CatalogItem → List Text × List Text
scan_keys t items = (
  map (λ x. sorted_tokens (normalize_description t x.description)) items,
  map (λ x. sku_comparison_key t (some x.sku)) items,
)
