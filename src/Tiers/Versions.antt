-- ===== src/Tiers/Versions.antt =====
-- What `create` of packages/core/docflow_core/tiers.py does to the versions that were there.
use doc_flow.Prelude.{
  ℕ, ◌+◌, ◌≡◌, refl, sym, ap, ◌∙◌, subst, Bool, true, false, ◌&&◌, List, [], ◌∷◌, ◌++◌, map, filter,
  length, ltb, if◌then◌else◌, inl, inr, Bool-cases,
}
use doc_flow.Prelude.Sort.{Text}
use doc_flow.Matching.Keys.{strip}
use doc_flow.Tiers.{
  TierCode, starter, growth, scale, unlisted, same_code, is_listed, TierVersion, TierRow, Changes,
  Outcome, refused, not_one, ok, ◌>>=◌, is_current_of, the_one, current, proposed_of, validate,
  preview, retire, retire_all, offered_row, create,
}

-- What a tenant that signed up on a row is held to.
abbrev pub signed : TierRow → ℕ × TierVersion
signed r = (r.id, r.terms)

same_code_refl : (c : TierCode) → same_code c c ≡ true
same_code_refl starter = refl
same_code_refl growth = refl
same_code_refl scale = refl
same_code_refl unlisted = refl

retired-signed :
    (code : TierCode) (rows : List TierRow) → map signed (retire_all code rows) ≡ map signed rows
retired-signed code [] = refl
retired-signed code (r ∷ rows) = λ i. kept i ∷ retired-signed code rows i
  where
    kept : signed (retire code r) ≡ signed r
    kept = elim (Bool-cases (is_current_of code r)) [ inl e ↦ rw e | inr e ↦ rw e ]

and_false : (b : Bool) → (b && false) ≡ false
and_false true = refl
and_false false = refl

none_current :
    (code : TierCode) (rows : List TierRow)
    → filter (is_current_of code) (retire_all code rows) ≡ []
none_current code [] = refl
none_current code (r ∷ rows) = rw (retired, none_current code rows)
  where
    retired : is_current_of code (retire code r) ≡ false
    retired = elim (Bool-cases (is_current_of code r)) [
      | inl e ↦ rw e (and_false (same_code r.terms.code code))
      | inr e ↦ rw e e
    ]

map-append :
    (f : TierRow → ℕ × TierVersion) (xs ys : List TierRow) → map f (xs ++ ys) ≡ map f xs ++ map f ys
map-append f [] ys = refl
map-append f (x ∷ xs) ys = ap (λ l. f x ∷ l) (map-append f xs ys)

filter-append :
    (p : TierRow → Bool) (xs ys : List TierRow) → filter p (xs ++ ys) ≡ filter p xs ++ filter p ys
filter-append p [] ys = refl
filter-append p (x ∷ xs) ys = elim (Bool-cases (p x)) [
  | inl e ↦ rw e (ap (λ l. x ∷ l) (filter-append p xs ys))
  | inr e ↦ rw e (filter-append p xs ys)
]

-- the version that was current has the code that was asked for
current-code :
    (code : TierCode) (rows : List TierRow) {now : TierVersion}
    → current code rows ≡ ok now
    → same_code now.code code ≡ true
unfolding current
current-code code rows {now} h = elim (Bool-cases (is_listed code)) [
  | inl e ↦ held (filter (is_current_of code) rows) (filter-holds rows) (rw e at h)
  | inr e ↦ absurd (cc (rw e at h))
]
  where
    first_of : (a b : Bool) → (a && b) ≡ true → a ≡ true
    first_of true b k = refl
    first_of false b k = absurd (cc k)

    Coded : List TierRow → Type 0
    Coded [] = Unit
    Coded (r ∷ rs) = (same_code r.terms.code code ≡ true) × Coded rs

    filter-holds : (rs : List TierRow) → Coded (filter (is_current_of code) rs)
    filter-holds [] = tt
    filter-holds (r ∷ rs) = elim (Bool-cases (is_current_of code r)) [
      | inl e ↦ rw e (first_of (same_code r.terms.code code) r.is_current e, filter-holds rs)
      | inr e ↦ rw e (filter-holds rs)
    ]

    held : (rs : List TierRow) → Coded rs → the_one rs ≡ ok now → same_code now.code code ≡ true
    held [] c k = absurd (cc k)
    held (r ∷ []) (c, cs) k =
        let same : r.terms ≡ now = cc k in subst (λ v. same_code v.code code ≡ true) same c
    held (r ∷ r' ∷ rs) c k = absurd (cc k)

-- A change that is made: every version that was there stands with its id, its number, its prices and its
-- allowance, so a tenant that signed up on it keeps them; one version more is there, a number above
-- the one that was offered; and that one alone is offered under its code.
pub create-versions :
    (new_id : ℕ) (code : TierCode) (changes : Changes) (note_text : Text)
    (rows rows' : List TierRow) (now proposed : TierVersion)
    → create new_id code changes note_text rows ≡ ok (rows', now, proposed)
    → (map signed rows' ≡ map signed rows ++ (new_id, proposed) ∷ [])
      × (proposed.version ≡ now.version + 1)
      × (filter (is_current_of code) rows' ≡ offered_row new_id proposed ∷ [])
unfolding create preview
create-versions new_id code changes note_text rows rows' now proposed h =
    elim (Bool-cases (ltb (length (strip note_text)) 5)) [
      | inl e ↦ absurd (cc (rw e at h))
      | inr e ↦ by_current (current code rows) refl (rw e at h)
    ]
  where
    Made : Type 0
    Made =
        (map signed rows' ≡ map signed rows ++ (new_id, proposed) ∷ [])
        × (proposed.version ≡ now.version + 1)
        × (filter (is_current_of code) rows' ≡ offered_row new_id proposed ∷ [])

    written : TierVersion → List TierRow
    written v = retire_all code rows ++ offered_row new_id v ∷ []

    offered :
        (v : TierVersion)
        → same_code v.code code ≡ true
        → filter (is_current_of code) (offered_row new_id v ∷ []) ≡ offered_row new_id v ∷ []
    offered v e = rw e

    made :
        (old : TierVersion)
        → current code rows ≡ ok old
        → old ≡ now
        → proposed_of old changes ≡ proposed
        → written (proposed_of old changes) ≡ rows'
        → Made
    made old e n q k =
        let coded : same_code proposed.code code ≡ true =
          subst (λ v. same_code v.code code ≡ true) q (current-code code rows e) in
        let list : written proposed ≡ rows' = ap written (sym q) ∙ k in
        (
          ap (map signed) (sym list)
              ∙ map-append signed (retire_all code rows) (offered_row new_id proposed ∷ [])
              ∙ ap (λ l. l ++ (new_id, proposed) ∷ []) (retired-signed code rows),
          ap (λ v. v.version) (sym q) ∙ ap (λ v. v.version + 1) n,
          ap (filter (is_current_of code)) (sym list)
              ∙ filter-append (is_current_of code) (retire_all code rows)
                  (offered_row new_id proposed ∷ [])
              ∙ ap (λ l. l ++ filter (is_current_of code) (offered_row new_id proposed ∷ []))
                  (none_current code rows)
              ∙ offered proposed coded,
        )

    checked : TierVersion → Outcome (TierVersion × TierVersion)
    checked old =
        if validate old (proposed_of old changes)
        then ok (old, proposed_of old changes)
        else refused

    recorded : TierVersion × TierVersion → Outcome (List TierRow × TierVersion × TierVersion)
    recorded previewed = ok (written previewed.1, previewed.0, previewed.1)

    by_current :
        (o : Outcome TierVersion)
        → current code rows ≡ o
        → ((o >>= checked) >>= recorded) ≡ ok (rows', now, proposed)
        → Made
    by_current refused e k = absurd (cc k)
    by_current not_one e k = absurd (cc k)
    by_current (ok old) e k = elim (Bool-cases (validate old (proposed_of old changes))) [
      | inr f ↦ absurd (cc (rw f at k))
      | inl f ↦
          let result : ok (written (proposed_of old changes), old, proposed_of old changes)
              ≡ ok (rows', now, proposed) =
            rw f at k in
          made old e (cc result) (cc result) (cc result)
    ]
