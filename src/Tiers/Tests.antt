-- ===== src/Tiers/Tests.antt =====
-- A change of a tier's price as a run, and the witness.
use doc_flow.Prelude.{◌+◌, ◌≡◌, refl, false, none, some, List, [], ◌∷◌, ◌++◌, map, filter}
use doc_flow.Prelude.Sort.{text_beq}
use doc_flow.Matching.Keys.{lstrip, rstrip}
use doc_flow.Export.Csv.{codes}
use doc_flow.Validation.Money.{is_le, unsigned}
use doc_flow.Tiers.{
  growth, TierVersion, TierRow, Changes, refused, ok, is_current_of, current, proposed_of, validate,
  preview, retire_all, offered_row, create,
}
use doc_flow.Tiers.Versions.{signed, create-versions}

abbrev growth_terms : TierVersion
growth_terms = record {
  code = growth;
  version = 4;
  name = codes "Growth";
  monthly_price = unsigned 49900 2;
  promo_monthly_price = some (unsigned 299 0);
  promo_days = some 90;
  document_allowance = 500;
}

abbrev old_row : TierRow
old_row = record { id = 1; terms = record growth_terms { version = 3 }; is_current = false }

abbrev rows : List TierRow
rows = old_row ∷ offered_row 2 growth_terms ∷ []

abbrev no_change : Changes
no_change = record {
  name = none;
  monthly_price = none;
  promo_monthly_price = none;
  promo_days = none;
  document_allowance = none;
  clear_promo = false;
}

abbrev dearer : Changes
dearer = record no_change { monthly_price = some (unsigned 549 0) }

abbrev rows_after : List TierRow
rows_after = retire_all growth rows ++ offered_row 9 (proposed_of growth_terms dearer) ∷ []

becomes_dearer :
    create 9 growth dearer (codes "list price of the new year") rows
    ≡ ok (rows_after, growth_terms, proposed_of growth_terms dearer)
unfolding create preview current validate is_le text_beq lstrip rstrip
becomes_dearer = refl

create-versions_example :
    (map signed rows_after ≡ map signed rows ++ (9, proposed_of growth_terms dearer) ∷ [])
    × ((proposed_of growth_terms dearer).version ≡ growth_terms.version + 1)
    × (filter (is_current_of growth) rows_after
        ≡ offered_row 9 (proposed_of growth_terms dearer) ∷ [])
create-versions_example =
    create-versions 9 growth dearer (codes "list price of the new year") rows rows_after
      growth_terms (proposed_of growth_terms dearer) becomes_dearer

nothing_to_change : create 9 growth no_change (codes "list price of the new year") rows ≡ refused
unfolding create preview current validate is_le text_beq lstrip rstrip
nothing_to_change = refl

price_in_half_cents :
    create 9 growth
      (record no_change { monthly_price = some (unsigned 549005 3) })
      (codes "half a cent")
      rows
    ≡ refused
unfolding create preview current validate is_le text_beq lstrip rstrip
price_in_half_cents = refl
