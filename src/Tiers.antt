-- ===== src/Tiers.antt =====
-- Tier price versions, packages/core/docflow_core/tiers.py: a change of a price is a new row, which becomes the
-- one that is offered. A version's name is the list of its code points.
use doc_flow.Prelude.{
  ℕ, suc, ◌+◌, ◌-◌, ◌*◌, ◌%◌, ◌^◌, Bool, true, false, not, ◌&&◌, ◌||◌, Option, none, some, List, [],
  ◌∷◌, ◌++◌, filter, length, ltb, leb, ◌==◌, if◌then◌else◌, is_some,
}
use doc_flow.Prelude.Sort.{Text, text_beq}
use doc_flow.Matching.Keys.{strip}
use doc_flow.Validation.Numbers.{Decimal, non_empty}
use doc_flow.Validation.Money.{is_le}
pub mod Versions
mod Tests

-- `CODES`, and a code that is none of them
pub data TierCode : Type 0 where
  starter growth scale unlisted : TierCode

abbrev pub same_code : TierCode → TierCode → Bool
same_code starter starter = true
same_code growth growth = true
same_code scale scale = true
same_code unlisted unlisted = true
same_code _ _ = false

abbrev pub is_listed : TierCode → Bool
is_listed starter = true
is_listed growth = true
is_listed scale = true
is_listed unlisted = false

pub record TierVersion : Type 0 where
  pub code : TierCode
  pub version : ℕ
  pub name : Text
  pub monthly_price : Decimal
  pub promo_monthly_price : Option Decimal
  pub promo_days : Option ℕ
  pub document_allowance : ℕ

pub record TierRow : Type 0 where
  pub id : ℕ
  pub terms : TierVersion
  pub is_current : Bool

pub record Changes : Type 0 where
  pub name : Option Text
  pub monthly_price : Option Decimal
  pub promo_monthly_price : Option Decimal
  pub promo_days : Option ℕ
  pub document_allowance : Option ℕ
  pub clear_promo : Bool

-- `refused` is a TierVersionError, `not_one` what `.one()` raises
pub data Outcome {ℓ} (A : Type ℓ) : Type ℓ where
  refused not_one : Outcome A
  ok : A → Outcome A

infixl 5 ◌>>=◌
abbrev pub ◌>>=◌ {ℓ κ} : {A : Type ℓ} {B : Type κ} → Outcome A → (A → Outcome B) → Outcome B
refused >>= f = refused
not_one >>= f = not_one
ok a >>= f = f a

-- WHERE code = :c AND is_current
abbrev pub is_current_of : TierCode → TierRow → Bool
is_current_of code r = same_code r.terms.code code && r.is_current

abbrev pub the_one : List TierRow → Outcome TierVersion
the_one [] = not_one
the_one (r ∷ []) = ok r.terms
the_one (r ∷ r' ∷ rows) = not_one

unfoldable pub current : TierCode → List TierRow → Outcome TierVersion
current code rows = if is_listed code then the_one (filter (is_current_of code) rows) else refused

-- what is not given is carried over
abbrev pub given_or {ℓ} : {A : Type ℓ} → Option A → A → A
given_or none a = a
given_or (some b) a = b

abbrev pub given_or_kept {ℓ} : {A : Type ℓ} → Option A → Option A → Option A
given_or_kept none kept = kept
given_or_kept (some a) kept = some a

abbrev pub proposed_of : TierVersion → Changes → TierVersion
proposed_of now c = record {
  code = now.code;
  version = now.version + 1;
  name = given_or c.name now.name;
  monthly_price = given_or c.monthly_price now.monthly_price;
  promo_monthly_price =
      if c.clear_promo then none else given_or_kept c.promo_monthly_price now.promo_monthly_price;
  promo_days = if c.clear_promo then none else given_or_kept c.promo_days now.promo_days;
  document_allowance = given_or c.document_allowance now.document_allowance;
}

-- `==` of Decimals, and of what may be missing
abbrev pub same_amount : Decimal → Decimal → Bool
same_amount a b = is_le a b && is_le b a

abbrev pub same_option {ℓ} : {A : Type ℓ} → (A → A → Bool) → Option A → Option A → Bool
same_option same none none = true
same_option same none (some b) = false
same_option same (some a) none = false
same_option same (some a) (some b) = same a b

-- the terms are equal, the version left aside
abbrev pub same_terms : TierVersion → TierVersion → Bool
same_terms a b =
    same_code a.code b.code
    && (text_beq a.name b.name
        && (same_amount a.monthly_price b.monthly_price
            && (same_option same_amount a.promo_monthly_price b.promo_monthly_price
                && (same_option (λ x y. x == y) a.promo_days b.promo_days
                    && a.document_allowance == b.document_allowance))))

abbrev pub zero_amount : Decimal
zero_amount = record { negative = false; coefficient = 0; places = 0 }

-- `price != price.quantize(Decimal("0.01"))` is false
abbrev pub in_whole_cents : Decimal → Bool
in_whole_cents price = price.coefficient % 10 ^ (price.places - 2) == 0

-- the founding price and its days, both or neither
abbrev pub promo_is_valid : Decimal → Option Decimal → Option ℕ → Bool
promo_is_valid monthly_price none none = true
promo_is_valid monthly_price none (some days) = false
promo_is_valid monthly_price (some price) none = false
promo_is_valid monthly_price (some price) (some days) =
    is_le zero_amount price && (not (is_le monthly_price price) && ltb 0 days)

unfoldable pub validate : TierVersion → TierVersion → Bool
validate now proposed =
    not (same_terms proposed now)
    && (non_empty (strip proposed.name)
        && (is_le zero_amount proposed.monthly_price
            && (in_whole_cents proposed.monthly_price
                && (ltb 0 proposed.document_allowance
                    && promo_is_valid proposed.monthly_price proposed.promo_monthly_price
                        proposed.promo_days))))

unfoldable pub preview : TierCode → Changes → List TierRow → Outcome (TierVersion × TierVersion)
preview code changes rows = current code rows >>= λ now.
    if validate now (proposed_of now changes) then ok (now, proposed_of now changes) else refused

abbrev pub retire : TierCode → TierRow → TierRow
retire code r = if is_current_of code r then record r { is_current = false } else r

abbrev pub retire_all : TierCode → List TierRow → List TierRow
retire_all code [] = []
retire_all code (r ∷ rows) = retire code r ∷ retire_all code rows

abbrev pub offered_row : ℕ → TierVersion → TierRow
offered_row id proposed = record { id = id; terms = proposed; is_current = true }

-- the rows after; the second part is the before and the after of the audit row
unfoldable pub create :
    ℕ
    → TierCode
    → Changes
    → Text
    → List TierRow
    → Outcome (List TierRow × TierVersion × TierVersion)
create new_id code changes note_text rows =
    if ltb (length (strip note_text)) 5
    then refused
    else (preview code changes rows >>= λ previewed.
        ok (retire_all code rows ++ offered_row new_id previewed.1 ∷ [], previewed.0, previewed.1))
