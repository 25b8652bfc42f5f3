-- ===== src/Matching/Confirm/Survives.antt =====
-- A confirmation, `confirm_sku_mapping` of packages/core/docflow_core/matching.py, and the passes
-- that come after it.
use doc_flow.Prelude.{
  ℕ, Bool, true, false, Option, none, some, List, [], ◌∷◌, ◌==◌, All, ◌≡◌, ◌≢◌, refl, sym, ◌∙◌, inl,
  inr, Bool-cases, arith,
}
use doc_flow.Matching.Keys.{CaseTable}
use doc_flow.Matching.Catalog.{CatalogItem, get}
use doc_flow.Matching.Candidates.{Fuzz}
use doc_flow.Matching.Rules.{RuleRow}
use doc_flow.Matching.Pass.{Line, MatchingSummary, human_edited, update_line, match_document_lines}
use doc_flow.Matching.Pass.Untouched.{Human, Pairs, Pairs-map}
use doc_flow.Matching.Pass.Answers.{Distinct, pass_keeps_answers}
use doc_flow.Matching.Confirm.{
  Confirmation, line_not_found, item_not_found, confirmed, find_line, write_confirmed, learn,
  confirm_found, confirm_sku_mapping, upsert_sku_mapping_rule,
}

abbrev Keeps : (Line → Line) → Type 0
Keeps write = (l : Line) → (write l).line_id ≡ l.line_id

update_line-apart :
    (write : Line → Line) (n : ℕ) (x : Line) (ls : List Line)
    → Keeps write
    → All (λ l. x.line_id ≢ l.line_id) ls
    → All (λ l. x.line_id ≢ l.line_id) (update_line write n ls)
unfolding update_line
update_line-apart write n x [] keeps h = tt
update_line-apart write n x (l ∷ ls) keeps (h, hs) = elim (Bool-cases (l.line_id == n)) [
  | inl e ↦ rw e ((λ same. h (same ∙ keeps l)), update_line-apart write n x ls keeps hs)
  | inr e ↦ rw e (h, update_line-apart write n x ls keeps hs)
]

apart_after :
    (write : Line → Line) (x : Line) (ls : List Line)
    → Keeps write
    → All (λ l. x.line_id ≢ l.line_id) ls
    → All (λ l. (write x).line_id ≢ l.line_id) ls
apart_after write x [] keeps h = tt
apart_after write x (l ∷ ls) keeps (h, hs) =
    ((λ same. h (sym (keeps x) ∙ same)), apart_after write x ls keeps hs)

update_line-Distinct :
    (write : Line → Line) (n : ℕ) (ls : List Line)
    → Keeps write
    → Distinct ls
    → Distinct (update_line write n ls)
unfolding update_line
update_line-Distinct write n [] keeps h = tt
update_line-Distinct write n (l ∷ ls) keeps (h, hs) = elim (Bool-cases (l.line_id == n)) [
  | inl e ↦ rw e (
    apart_after write l (update_line write n ls) keeps (update_line-apart write n l ls keeps h),
    update_line-Distinct write n ls keeps hs,
  )
  | inr e ↦ rw e (update_line-apart write n l ls keeps h, update_line-Distinct write n ls keeps hs)
]

update_line-Human :
    (write : Line → Line) (n : ℕ) (ls : List Line)
    → ((l : Line) → Human (write l))
    → All (λ l. l.line_id ≡ n → Human l) (update_line write n ls)
unfolding update_line
update_line-Human write n [] human = tt
update_line-Human write n (l ∷ ls) human = elim (Bool-cases (l.line_id == n)) [
  | inl e ↦ rw e ((λ same. human l), update_line-Human write n ls human)
  | inr e ↦ rw e ((λ same. absurd (ground arith)), update_line-Human write n ls human)
]

module _ (t : CaseTable) (f : Fuzz) (items : List CatalogItem) (later_rules : List RuleRow)
    (buyer : Option ℕ) (document later n : ℕ) where
  -- What a later pass over the lines that a confirmation left does to the confirmed line.
  abbrev pub Survives : Confirmation → Type 0
  Survives line_not_found = Unit
  Survives item_not_found = Unit
  Survives (confirmed lines rules rule) =
      (lines' : List Line) × (s : MatchingSummary) × (match_document_lines t f items later_rules
          buyer document later lines
        ≡ some (lines', s))
      × Pairs (λ l m. l.line_id ≡ n → m ≡ l) lines lines'

  learn-Survives :
      (buyer_of : ℕ → Option ℕ) (id now item_id : ℕ) (confirmed_by : Option ℕ) (tenant_wide : Bool)
      (review_action_id : Option ℕ) (b : Bool) (fresh : RuleRow) (lines : List Line)
      (rules : List RuleRow)
      → ((rules' : List RuleRow) (rule : Option ℕ) → Survives (confirmed lines rules' rule))
      → Survives (
          learn t buyer_of id now item_id confirmed_by tenant_wide review_action_id b fresh lines
            rules)
  learn-Survives buyer_of id now item_id by wide action true fresh lines rules h = h rules none
  learn-Survives buyer_of id now item_id by wide action false fresh lines rules h =
      h (upsert_sku_mapping_rule fresh rules).0 (some (upsert_sku_mapping_rule fresh rules).1)

  lines-Survive :
      (lines : List Line) (rules : List RuleRow) (rule : Option ℕ)
      → Distinct lines
      → All (λ l. l.line_id ≡ n → Human l) lines
      → Survives (confirmed lines rules rule)
  lines-Survive lines rules rule keys human =
      let (ls, s, e, kept) =
        pass_keeps_answers t f items later_rules buyer document later lines keys in
      (
        ls,
        s,
        e,
        Pairs-map (λ l m. Human l → m ≡ l) (λ l m. l.line_id ≡ n → m ≡ l)
            (λ l. l.line_id ≡ n → Human l) lines ls (λ l m p h same. h (p same)) human kept,
      )

  module _ (buyer_of : ℕ → Option ℕ) (id now item_id : ℕ) (confirmed_by : Option ℕ)
      (tenant_wide : Bool) (review_action_id : Option ℕ) where
    abbrev write : Line → CatalogItem → Line → Line
    write row item =
        write_confirmed t buyer_of id now item_id confirmed_by tenant_wide review_action_id row item

    write_confirmed-Keeps : (row : Line) (item : CatalogItem) → Keeps (write row item)
    unfolding write_confirmed
    write_confirmed-Keeps row item l = refl

    write_confirmed-Human : (row : Line) (item : CatalogItem) (l : Line) → Human (write row item l)
    unfolding write_confirmed human_edited
    write_confirmed-Human row item l = refl

    confirm_found-Survives :
        (row : Option Line) (item : Option CatalogItem) (lines : List Line) (rules : List RuleRow)
        → Distinct lines
        → Survives (
            confirm_found t buyer_of id now item_id confirmed_by tenant_wide review_action_id n row
              item lines rules)
    confirm_found-Survives none item lines rules keys = tt
    confirm_found-Survives (some row) none lines rules keys = tt
    confirm_found-Survives (some row) (some item) lines rules keys =
        learn-Survives buyer_of id now item_id confirmed_by tenant_wide review_action_id _ _
          (update_line (write row item) n lines) rules
          (λ rules' rule.
            lines-Survive (update_line (write row item) n lines) rules' rule
              (update_line-Distinct (write row item) n lines (write_confirmed-Keeps row item) keys)
              (update_line-Human (write row item) n lines (write_confirmed-Human row item)))

    -- Where the line ids are distinct: after a confirmation that goes through, any later pass, with
    -- whatever rules and catalog, ends and leaves the confirmed line in every column as the
    -- confirmation wrote it.
    pub confirm_sku_mapping-Survives :
        (live : List CatalogItem) (lines : List Line) (rules : List RuleRow)
        → Distinct lines
        → Survives (
            confirm_sku_mapping t buyer_of id now item_id confirmed_by tenant_wide review_action_id
              n live lines rules)
    unfolding confirm_sku_mapping
    confirm_sku_mapping-Survives live lines rules keys =
        confirm_found-Survives (find_line n lines) (get live item_id) lines rules keys
