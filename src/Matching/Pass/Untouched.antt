-- ===== src/Matching/Pass/Untouched.antt =====
-- What the pass over a document's lines, `match_document_lines` of
-- packages/core/docflow_core/matching.py, leaves as it was.
use doc_flow.Prelude.{
  ℕ, suc, ◌+◌, ◌≤◌, true, false, Option, some, List, [], ◌∷◌, ◌==◌, is_some, All, ◌≡◌, refl, sym,
  ◌∙◌, inl, inr, Bool-cases, length, arith,
}
use doc_flow.Matching.Keys.{CaseTable}
use doc_flow.Matching.Catalog.{CatalogItem}
use doc_flow.Matching.Candidates.{Fuzz}
use doc_flow.Matching.Resolve.{LineMatch, SkuRule, UomRule, Dict}
use doc_flow.Matching.Resolve.Justified.{resolve_line-Justified}
use doc_flow.Matching.Rules.{RuleRow, load_sku_rules, load_uom_rules}
use doc_flow.Matching.Pass.{
  Line, MatchingSummary, no_summary, matched_item, human_edited, update_line, write_match,
  suggest_uom, count_match, match_line, match_lines, lines_of, match_document_lines,
  FieldProvenance, id_of_uom,
}

-- The columns that the extraction wrote, and the line's place.
abbrev pub SameExtracted : Line → Line → Type 0
SameExtracted l m =
    (m.line_id ≡ l.line_id)
    × (m.document_id ≡ l.document_id)
    × (m.line_number ≡ l.line_number)
    × (m.deleted ≡ l.deleted)
    × (m.sku ≡ l.sku)
    × (m.description ≡ l.description)
    × (m.unit ≡ l.unit)

abbrev pub Human : Line → Type 0
Human l = human_edited l.field_provenance matched_item ≡ true

-- No row but one that a person answered has the line's id.
abbrev pub Guarded : List Line → Line → Type 0
Guarded rows l = All (λ r. r.line_id ≡ l.line_id → Human r) rows

abbrev pub Kept : List Line → Line → Line → Type 0
Kept rows l m = SameExtracted l m × (Guarded rows l → m ≡ l)

-- Line by line, before and after.
abbrev pub Pairs : (Line → Line → Type 0) → List Line → List Line → Type 0
Pairs R [] [] = Unit
Pairs R [] (m ∷ ms) = ⊥
Pairs R (l ∷ ls) [] = ⊥
Pairs R (l ∷ ls) (m ∷ ms) = R l m × Pairs R ls ms

same : (l : Line) → SameExtracted l l
same l = (refl, refl, refl, refl, refl, refl, refl)

unchanged : (rows ls : List Line) → Pairs (Kept rows) ls ls
unchanged rows [] = tt
unchanged rows (l ∷ ls) = ((same l, (λ g. refl)), unchanged rows ls)

Kept-next :
    (row : Line) (rows : List Line) (l m n : Line)
    → Kept (row ∷ []) l m
    → Kept rows m n
    → Kept (row ∷ rows) l n
Kept-next row rows l m n ((a, b, c, d, e, g, h), keep) ((a', b', c', d', e', g', h'), keep') = (
  (a' ∙ a, b' ∙ b, c' ∙ c, d' ∙ d, e' ∙ e, g' ∙ g, h' ∙ h),
  (λ (first, others). let now : m ≡ l = keep (first, tt) in keep' (rw now others) ∙ now),
)

Pairs-next :
    (row : Line) (rows ls ms ns : List Line)
    → Pairs (Kept (row ∷ [])) ls ms
    → Pairs (Kept rows) ms ns
    → Pairs (Kept (row ∷ rows)) ls ns
Pairs-next row rows [] [] [] h k = tt
Pairs-next row rows [] [] (n ∷ ns) h k = absurd k
Pairs-next row rows [] (m ∷ ms) ns h k = absurd h
Pairs-next row rows (l ∷ ls) [] ns h k = absurd h
Pairs-next row rows (l ∷ ls) (m ∷ ms) [] h k = absurd k
Pairs-next row rows (l ∷ ls) (m ∷ ms) (n ∷ ns) (h, hs) (k, ks) =
    (Kept-next row rows l m n h k, Pairs-next row rows ls ms ns hs ks)

update_line-Kept :
    (row : Line) (write : Line → Line) (ls : List Line)
    → ((l : Line) → SameExtracted l (write l))
    → human_edited row.field_provenance matched_item ≡ false
    → Pairs (Kept (row ∷ [])) ls (update_line write row.line_id ls)
unfolding update_line
update_line-Kept row write [] same_write e = tt
update_line-Kept row write (l ∷ ls) same_write e = elim (Bool-cases (l.line_id == row.line_id)) [
  | inl at ↦
      let here : row.line_id ≡ l.line_id = ground arith in
      rw at (
        (same_write l, (λ (human, _). absurd (cc (sym (human here) ∙ e)))),
        update_line-Kept row write ls same_write e,
      )
  | inr at ↦ rw at ((same l, (λ g. refl)), update_line-Kept row write ls same_write e)
]

-- How the counts of a summary grow over some rows.
abbrev pub Counted : ℕ → MatchingSummary → MatchingSummary → Type 0
Counted n s s' =
    (s'.lines_considered ≡ s.lines_considered + n)
    × (s'.lines_matched + s'.skipped_human_edited ≤ s.lines_matched + s.skipped_human_edited + n)

module _ (t : CaseTable) (f : Fuzz) (items : List CatalogItem) (sku_rules : Dict SkuRule)
    (uom_rules : Dict UomRule) (now : ℕ) where
  write_match-SameExtracted :
      (row l : Line) (m : LineMatch) (u : Option UomRule × FieldProvenance)
      → SameExtracted l (write_match t f items sku_rules uom_rules now row m u l)
  unfolding write_match
  write_match-SameExtracted row l m u = same l

  -- A conclusion counts at most one more match.
  OneMore : MatchingSummary → MatchingSummary → Type 0
  OneMore s s' =
      (s'.lines_considered ≡ s.lines_considered)
      × (s'.skipped_human_edited ≡ s.skipped_human_edited)
      × (s'.lines_matched ≤ suc s.lines_matched)

  count_match-OneMore :
      (m : LineMatch) (u : Option ℕ) (s : MatchingSummary)
      → OneMore s (count_match t f items sku_rules uom_rules now m u s)
  unfolding count_match OneMore
  count_match-OneMore m u s = elim (Bool-cases (is_some m.item_id)) [
    | inl e ↦ rw e (refl, refl, omega arith)
    | inr e ↦ rw e (refl, refl, omega arith)
  ]

  Counted-one :
      (s s' : MatchingSummary)
      → OneMore (record s { lines_considered = suc s.lines_considered }) s'
      → Counted 1 s s'
  unfolding OneMore
  Counted-one s s' (a, b, c) = (omega arith, omega arith)

  match_line-Kept :
      (row : Line) (ls : List Line) (s : MatchingSummary)
      → (ls' : List Line) × (s' : MatchingSummary) × (match_line t f items sku_rules uom_rules now
            row
            (ls, s)
          ≡ some (ls', s'))
        × Pairs (Kept (row ∷ [])) ls ls'
        × Counted 1 s s'
  unfolding match_line
  match_line-Kept row ls s = elim (Bool-cases (human_edited row.field_provenance matched_item)) [
    | inl e ↦ rw e (_, _, refl, unchanged (row ∷ []) ls, (omega arith, omega arith))
    | inr e ↦
        let (m, found, _) = resolve_line-Justified t f row.sku row.description items sku_rules in
        let u = suggest_uom t f items sku_rules uom_rules now row in
        rw (e, found)
          (
            _,
            _,
            refl,
            update_line-Kept row (write_match t f items sku_rules uom_rules now row m u) ls
                (λ l. write_match-SameExtracted row l m u) e,
            Counted-one s _ (count_match-OneMore m (id_of_uom u.0) _),
          )
  ]

  pub match_lines-Kept :
      (rows ls : List Line) (s : MatchingSummary)
      → (ls' : List Line) × (s' : MatchingSummary) × (match_lines t f items sku_rules uom_rules now
            rows
            (ls, s)
          ≡ some (ls', s'))
        × Pairs (Kept rows) ls ls'
        × Counted (length rows) s s'
  unfolding match_lines
  match_lines-Kept [] ls s = (ls, s, refl, unchanged [] ls, (omega arith, omega arith))
  match_lines-Kept (row ∷ rows) ls s =
      let (ms, s₁, one, kept, (a, b)) = match_line-Kept row ls s in
      let (ns, s₂, all, kept', (c, d)) = match_lines-Kept rows ms s₁ in
      (ns, s₂, rw one all, Pairs-next row rows ls ms ns kept kept', (omega arith, omega arith))

pub Pairs-map :
    (R S : Line → Line → Type 0) (P : Line → Type 0) (ls ms : List Line)
    → ((l m : Line) → P l → R l m → S l m)
    → All P ls
    → Pairs R ls ms
    → Pairs S ls ms
Pairs-map R S P [] [] g all h = tt
Pairs-map R S P [] (m ∷ ms) g all h = absurd h
Pairs-map R S P (l ∷ ls) [] g all h = absurd h
Pairs-map R S P (l ∷ ls) (m ∷ ms) g (p, all) (h, hs) = (g l m p h, Pairs-map R S P ls ms g all hs)

trivially : (ls : List Line) → All {0, 0} (λ l. Unit) ls
trivially [] = tt
trivially (l ∷ ls) = (tt, trivially ls)

module _ (t : CaseTable) (f : Fuzz) (items : List CatalogItem) (rules : List RuleRow)
    (buyer : Option ℕ) (document now : ℕ) (lines : List Line) where
  -- The pass over a document comes to its end whatever the lines, the catalog and the rules are. It
  -- changes no line's place and nothing that the extraction wrote of the SKU, the description and
  -- the unit; it considers every live line of the document, and each is skipped, matched or neither.
  pub pass_keeps_extracted :
      (lines' : List Line) × (s : MatchingSummary) × (match_document_lines t f items rules buyer
          document now lines
        ≡ some (lines', s))
      × Pairs SameExtracted lines lines'
      × (s.lines_considered ≡ length (lines_of document lines))
      × (s.lines_matched + s.skipped_human_edited ≤ s.lines_considered)
  unfolding match_document_lines
  pass_keeps_extracted =
      let (ls, s, e, kept, (a, b)) =
        match_lines-Kept t f items (load_sku_rules t buyer rules) (load_uom_rules t buyer rules) now
          (lines_of document lines) lines no_summary in
      (
        ls,
        s,
        e,
        Pairs-map (Kept (lines_of document lines)) SameExtracted (λ l. Unit) lines ls
            (λ l m p h. h.0) (trivially lines) kept,
        omega arith,
        omega arith,
      )
