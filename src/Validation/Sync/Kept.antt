-- ===== src/Validation/Sync/Kept.antt =====
-- What `sync_warnings` of packages/core/docflow_core/validation.py does to the rows that were there.
use doc_flow.Prelude.{
  ℕ, ◌≡◌, ◌≢◌, ◌⊎◌, some, not, ◌&&◌, ◌||◌, refl, sym, subst, ap, ◌∙◌, Bool, true, false, List, [],
  ◌∷◌, map, filter, contains, ◌==◌, if◌then◌else◌, All, Exists, inl, inr, Bool-cases, any, arith,
}
use doc_flow.Prelude.Sort.{Text, text_beq, text_beq→eq, text_beq_refl}
use doc_flow.Validation.Sync.{
  DocumentWarning, WarningRow, resolved, is_stored, among, conflicts_with, first_of_each,
  insert_open, insert_missing, resolve_row, resolve_ids, is_gone, sync_warnings,
}
use doc_flow.Validation.Sync.RowByRow.{
  Distinct, Prefix, Same, Prefix-append, Prefix-self, Prefix-trans, ids, Agrees, Distinct-Agrees,
}

or_true : (b : Bool) → (b || true) ≡ true
or_true b = ground arith

or_false : (b : Bool) → (b || false) ≡ b
or_false b = ground arith

turned : (a b c : Bool) → ((a || b) || c) ≡ (b || (a || c))
turned a b c = ground arith

-- the test of `is_gone`, taken apart
gone_true :
    (n document : ℕ) (deleted : Bool) (code : ℕ) (again : Bool)
    → ((n == document && (not deleted && not (code == 17 || code == 18))) && not again) ≡ true
    → (n ≡ document) × (deleted ≡ false) × (code ≢ 17) × (code ≢ 18) × (again ≡ false)
gone_true n document deleted code again h = ground arith

gone_false :
    (n document : ℕ) (deleted : Bool) (code : ℕ) (again : Bool)
    → ((n == document && (not deleted && not (code == 17 || code == 18))) && not again) ≡ false
    → (n ≢ document) ⊎ ((deleted ≡ true) ⊎ ((code ≡ 17) ⊎ ((code ≡ 18) ⊎ (again ≡ true))))
gone_false n document deleted code again h = ground arith

module _ (fingerprint_of : DocumentWarning → Text) (uuid : ℕ → ℕ) (document now : ℕ) where
  insert_open-Prefix :
      (w : DocumentWarning) (rows : List WarningRow)
      → Prefix Same rows (insert_open fingerprint_of uuid document now w rows)
  unfolding insert_open
  insert_open-Prefix w rows =
      elim (Bool-cases (any (conflicts_with document (fingerprint_of w)) rows)) [
        | inl e ↦ rw e (Prefix-self rows)
        | inr e ↦ rw e (Prefix-append rows _)
      ]

  insert_missing-Prefix :
      (stored : List Text) (ws : List DocumentWarning) (rows : List WarningRow)
      → Prefix Same rows (insert_missing fingerprint_of uuid document now stored ws rows).0
  unfolding insert_missing
  insert_missing-Prefix stored [] rows = Prefix-self rows
  insert_missing-Prefix stored (w ∷ ws) rows = elim (Bool-cases (among (fingerprint_of w) stored)) [
    | inl e ↦ rw e (insert_missing-Prefix stored ws rows)
    | inr e ↦
        rw e (Prefix-trans rows _ _ (insert_open-Prefix w rows) (insert_missing-Prefix stored ws _))
  ]

  abbrev computed : List DocumentWarning → List DocumentWarning
  computed warnings = first_of_each fingerprint_of uuid document now [] warnings

  abbrev gone : List DocumentWarning → WarningRow → Bool
  gone ws r = is_gone fingerprint_of uuid document now ws r

  abbrev Rewritten : List DocumentWarning → WarningRow → WarningRow → Type 0
  Rewritten ws r m = m ≡ (if gone ws r then resolve_row fingerprint_of uuid document now r else r)

  resolve_ids-Rewritten :
      (ws : List DocumentWarning) (all rows ms : List WarningRow)
      → Prefix Same rows ms
      → All (Agrees (gone ws) all) rows
      → Prefix
          (Rewritten ws)
          rows
          (resolve_ids fingerprint_of uuid document now (ids (gone ws) all) ms)
  unfolding resolve_ids
  resolve_ids-Rewritten ws all [] ms h k = tt
  resolve_ids-Rewritten ws all (r ∷ rows) [] h k = absurd h
  resolve_ids-Rewritten ws all (r ∷ rows) (m ∷ ms) (h, hs) (k, ks) = elim (Bool-cases (gone ws r)) [
    | inl e ↦
        let found : contains m.id (ids (gone ws) all) ≡ true = rw h (k ∙ e) in
        rw (found, e)
          (
            ap (resolve_row fingerprint_of uuid document now) h,
            resolve_ids-Rewritten ws all rows ms hs ks,
          )
    | inr e ↦
        let absent : contains m.id (ids (gone ws) all) ≡ false = rw h (k ∙ e) in
        rw (absent, e) (h, resolve_ids-Rewritten ws all rows ms hs ks)
  ]

  among-first_of_each :
      (u : Text) (seen : List Text) (ws : List DocumentWarning)
      → (among u (map fingerprint_of (first_of_each fingerprint_of uuid document now seen ws))
          || among u seen)
        ≡ (among u (map fingerprint_of ws) || among u seen)
  unfolding first_of_each
  among-first_of_each u seen [] = refl
  among-first_of_each u seen (w ∷ ws) =
      let skipped = among-first_of_each u seen ws in
      let kept = among-first_of_each u (fingerprint_of w ∷ seen) ws in
      elim (Bool-cases (among (fingerprint_of w) seen)) [
        | inl e ↦ elim (Bool-cases (text_beq (fingerprint_of w) u)) [
          | inl e' ↦
              let in_seen : among u seen ≡ true =
                subst (λ t. among t seen ≡ true) (text_beq→eq (fingerprint_of w) u e') e in
              rw (e, e', in_seen) (or_true _)
          | inr e' ↦ rw (e, e') skipped
        ]
        | inr e ↦
            let own = text_beq (fingerprint_of w) u in
            let first =
              first_of_each fingerprint_of uuid document now (fingerprint_of w ∷ seen) ws in
            rw e (
              turned own (among u (map fingerprint_of first)) (among u seen)
              ∙ kept
              ∙ sym (turned own (among u (map fingerprint_of ws)) (among u seen)))
      ]

  once_or_more :
      (warnings : List DocumentWarning) (u : Text)
      → among u (map fingerprint_of (computed warnings)) ≡ among u (map fingerprint_of warnings)
  once_or_more warnings u =
      sym (or_false (among u (map fingerprint_of (computed warnings))))
      ∙ among-first_of_each u [] warnings
      ∙ or_false (among u (map fingerprint_of warnings))

  none_among :
      (u : Text) (ws : List DocumentWarning)
      → among u (map fingerprint_of ws) ≡ false
      → All (λ w. fingerprint_of w ≢ u) ws
  none_among u [] h = tt
  none_among u (w ∷ ws) h = elim (Bool-cases (text_beq (fingerprint_of w) u)) [
    | inl e ↦ cc (rw e at h)
    | inr e ↦ (
      (λ same. absurd (cc (sym e ∙ ap (λ t. text_beq t u) same ∙ text_beq_refl u))),
      none_among u ws (rw e at h),
    )
  ]

  one_among :
      (u : Text) (ws : List DocumentWarning)
      → among u (map fingerprint_of ws) ≡ true
      → Exists (λ w. fingerprint_of w ≡ u) ws
  one_among u [] h = cc
  one_among u (w ∷ ws) h = elim (Bool-cases (text_beq (fingerprint_of w) u)) [
    | inl e ↦ inl (text_beq→eq (fingerprint_of w) u e)
    | inr e ↦ inr (one_among u ws (rw e at h))
  ]

  -- a live warning of the document, not from the parse step, whose fingerprint no warning has
  abbrev pub Vanished : List DocumentWarning → WarningRow → Type 0
  Vanished warnings r =
      (r.document_id ≡ document)
      × (r.deleted ≡ false)
      × (r.content.code ≢ 17)
      × (r.content.code ≢ 18)
      × All (λ w. fingerprint_of w ≢ r.fingerprint) warnings

  -- of another document, deleted already, from the parse step (VAL-017, VAL-018) or found again
  abbrev pub Stays : List DocumentWarning → WarningRow → Type 0
  Stays warnings r =
      (r.document_id ≢ document)
      ⊎ ((r.deleted ≡ true)
          ⊎ ((r.content.code ≡ 17)
              ⊎ ((r.content.code ≡ 18) ⊎ Exists (λ w. fingerprint_of w ≡ r.fingerprint) warnings)))

  abbrev pub After : List DocumentWarning → WarningRow → WarningRow → Type 0
  After warnings r m =
      (Vanished warnings r
        × (m ≡ record r { status = resolved; resolved_at = some now; deleted = true }))
      ⊎ (Stays warnings r × (m ≡ r))

  is_gone-Vanished :
      (warnings : List DocumentWarning) (r : WarningRow)
      → gone (computed warnings) r ≡ true
      → Vanished warnings r
  is_gone-Vanished warnings r h =
      let (own, live, no_17, no_18, absent) =
        gone_true r.document_id document r.deleted r.content.code _ h in
      (
        own,
        live,
        no_17,
        no_18,
        none_among r.fingerprint warnings (sym (once_or_more warnings r.fingerprint) ∙ absent),
      )

  is_gone-Stays :
      (warnings : List DocumentWarning) (r : WarningRow)
      → gone (computed warnings) r ≡ false
      → Stays warnings r
  is_gone-Stays warnings r h =
      elim (gone_false r.document_id document r.deleted r.content.code _ h) [
        | inl other ↦ inl other
        | inr (inl dead) ↦ inr (inl dead)
        | inr (inr (inl c)) ↦ inr (inr (inl c))
        | inr (inr (inr (inl c))) ↦ inr (inr (inr (inl c)))
        | inr (inr (inr (inr found))) ↦ inr (
            inr (
              inr (
                inr (
                  one_among r.fingerprint warnings
                    (sym (once_or_more warnings r.fingerprint) ∙ found)))))
      ]

  Rewritten-After :
      (warnings : List DocumentWarning) (rows ms : List WarningRow)
      → Prefix (Rewritten (computed warnings)) rows ms
      → Prefix (After warnings) rows ms
  Rewritten-After warnings [] ms h = tt
  Rewritten-After warnings (r ∷ rows) [] h = absurd h
  Rewritten-After warnings (r ∷ rows) (m ∷ ms) (h, hs) = (
    elim (Bool-cases (gone (computed warnings) r)) [
      | inl e ↦ inl (is_gone-Vanished warnings r e, rw e at h)
      | inr e ↦ inr (is_gone-Stays warnings r e, rw e at h)
    ],
    Rewritten-After warnings rows ms hs,
  )

  -- Where the ids are distinct, each row that was there is one of two kinds. A live warning of this
  -- document, not of the parse step (codes 17 and 18), whose fingerprint none of the warnings has, is
  -- resolved and soft-deleted now, and nothing else of it changes. Any other, of another document,
  -- deleted, of the parse step or with the fingerprint of one of the warnings, stays as it was, its
  -- acknowledgement too.
  pub sync_warnings-After :
      (warnings : List DocumentWarning) (rows : List WarningRow)
      → Distinct rows
      → Prefix
          (After warnings)
          rows
          (sync_warnings fingerprint_of uuid document now warnings rows).0
  unfolding sync_warnings
  sync_warnings-After warnings rows h = Rewritten-After warnings rows _ (
      resolve_ids-Rewritten (computed warnings) rows rows _
        (insert_missing-Prefix (map (λ r. r.fingerprint) (filter (is_stored document) rows))
          (computed warnings) rows)
        (Distinct-Agrees (gone (computed warnings)) rows h))
