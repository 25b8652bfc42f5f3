-- ===== src/Validation/Sync/RowByRow.antt =====
-- Rows before and after, row by row, and rows that are found by their ids, for the reconciliation of
-- warnings in packages/core/docflow_core/validation.py.
use doc_flow.Prelude.{
  ℕ, ◌≡◌, ◌≢◌, refl, ◌∙◌, Bool, true, false, List, [], ◌∷◌, ◌++◌, map, filter, contains, ◌==◌, All,
  inl, inr, Bool-cases, arith,
}
use doc_flow.Prelude.Sort.{Ordered}
use doc_flow.Validation.Sync.{WarningRow}

-- The id is the table's key.
abbrev pub Distinct : List WarningRow → Type 0
Distinct rows = Ordered (λ r s. r.id ≢ s.id) rows

-- Row by row, before and after; rows that were added come after them.
abbrev pub Prefix : (WarningRow → WarningRow → Type 0) → List WarningRow → List WarningRow → Type 0
Prefix R [] ms = Unit
Prefix R (r ∷ rs) [] = ⊥
Prefix R (r ∷ rs) (m ∷ ms) = R r m × Prefix R rs ms

abbrev pub Same : WarningRow → WarningRow → Type 0
Same r m = m ≡ r

pub Prefix-append : (rs added : List WarningRow) → Prefix Same rs (rs ++ added)
Prefix-append [] added = tt
Prefix-append (r ∷ rs) added = (refl, Prefix-append rs added)

pub Prefix-self : (rs : List WarningRow) → Prefix Same rs rs
Prefix-self [] = tt
Prefix-self (r ∷ rs) = (refl, Prefix-self rs)

pub Prefix-trans :
    (rs ms ns : List WarningRow) → Prefix Same rs ms → Prefix Same ms ns → Prefix Same rs ns
Prefix-trans [] ms ns h k = tt
Prefix-trans (r ∷ rs) [] ns h k = absurd h
Prefix-trans (r ∷ rs) (m ∷ ms) [] h k = absurd k
Prefix-trans (r ∷ rs) (m ∷ ms) (n ∷ ns) (h, hs) (k, ks) = (k ∙ h, Prefix-trans rs ms ns hs ks)

-- the ids of the rows that pass a test
module _ (p : WarningRow → Bool) where
  abbrev pub ids : List WarningRow → List ℕ
  ids rows = map (λ r. r.id) (filter p rows)

  abbrev pub Agrees : List WarningRow → WarningRow → Type 0
  Agrees rows r = contains r.id (ids rows) ≡ p r

  fresh_id :
      (n : ℕ) (rows : List WarningRow) → All (λ s. n ≢ s.id) rows → contains n (ids rows) ≡ false
  fresh_id n [] h = refl
  fresh_id n (s ∷ rows) (h, hs) = elim (Bool-cases (p s)) [
    | inl e ↦ let apart : (n == s.id) ≡ false = ground arith in rw (e, apart) (fresh_id n rows hs)
    | inr e ↦ rw e (fresh_id n rows hs)
  ]

  head-Agrees :
      (x : WarningRow) (rows : List WarningRow) → All (λ s. x.id ≢ s.id) rows → Agrees (x ∷ rows) x
  head-Agrees x rows h = elim (Bool-cases (p x)) [
    | inl e ↦ let here : (x.id == x.id) ≡ true = ground arith in rw (e, here)
    | inr e ↦ rw e (fresh_id x.id rows h)
  ]

  tail-Agrees :
      (x : WarningRow) (rows others : List WarningRow)
      → All (λ s. x.id ≢ s.id) rows
      → All (Agrees others) rows
      → All (Agrees (x ∷ others)) rows
  tail-Agrees x [] others h k = tt
  tail-Agrees x (r ∷ rows) others (h, hs) (k, ks) = elim (Bool-cases (p x)) [
    | inl e ↦
        let apart : (r.id == x.id) ≡ false = ground arith in
        let one : Agrees (x ∷ others) r = rw (e, apart) k in (one, tail-Agrees x rows others hs ks)
    | inr e ↦ let one : Agrees (x ∷ others) r = rw e k in (one, tail-Agrees x rows others hs ks)
  ]

  pub Distinct-Agrees : (rows : List WarningRow) → Distinct rows → All (Agrees rows) rows
  Distinct-Agrees [] h = tt
  Distinct-Agrees (x ∷ rows) (h, hs) =
      (head-Agrees x rows h, tail-Agrees x rows rows h (Distinct-Agrees rows hs))
