-- ===== src/Matching/Pass/Answers.antt =====
-- The lines that a person answered, in the pass `match_document_lines` of
-- packages/core/docflow_core/matching.py.
use doc_flow.Prelude.{
  ℕ, Bool, Option, some, List, [], ◌∷◌, filter, leb, All, ◌≡◌, ◌≢◌, sym, inl, inr, Bool-cases,
}
use doc_flow.Prelude.Sort.{Ordered, sort-All}
use doc_flow.Matching.Keys.{CaseTable}
use doc_flow.Matching.Catalog.{CatalogItem}
use doc_flow.Matching.Candidates.{Fuzz}
use doc_flow.Matching.Rules.{RuleRow, load_sku_rules, load_uom_rules}
use doc_flow.Matching.Pass.{Line, MatchingSummary, no_summary, lines_of, match_document_lines}
use doc_flow.Matching.Pass.Untouched.{Human, Guarded, Kept, Pairs, Pairs-map, match_lines-Kept}

-- The id is the table's key.
abbrev pub Distinct : List Line → Type 0
Distinct ls = Ordered (λ l m. l.line_id ≢ m.line_id) ls

abbrev Shares : Line → Line → Type 0
Shares l r = r.line_id ≡ l.line_id → Human r

apart : (l : Line) (rs : List Line) → All (λ r. l.line_id ≢ r.line_id) rs → All (Shares l) rs
apart l [] h = tt
apart l (r ∷ rs) (h, hs) = ((λ e. absurd (h (sym e))), apart l rs hs)

with_head :
    (x : Line) (ls rs : List Line)
    → All (λ l. x.line_id ≢ l.line_id) ls
    → All (λ l. Human l → All (Shares l) rs) ls
    → All (λ l. Human l → All (Shares l) (x ∷ rs)) ls
with_head x [] rs h k = tt
with_head x (l ∷ ls) rs (h, hs) (k, ks) =
    ((λ human. ((λ e. absurd (h e)), k human)), with_head x ls rs hs ks)

keys-Shares : (ls : List Line) → Distinct ls → All (λ l. Human l → All (Shares l) ls) ls
keys-Shares [] h = tt
keys-Shares (x ∷ ls) (h, hs) =
    ((λ human. ((λ e. human), apart x ls h)), with_head x ls ls h (keys-Shares ls hs))

filter-All : (P : Line → Type 0) (q : Line → Bool) (ls : List Line) → All P ls → All P (filter q ls)
filter-All P q [] h = tt
filter-All P q (l ∷ ls) (h, hs) = elim (Bool-cases (q l)) [
  | inl e ↦ rw e (h, filter-All P q ls hs)
  | inr e ↦ rw e (filter-All P q ls hs)
]

guard :
    (document : ℕ) (lines : List Line) (l : Line)
    → All (Shares l) lines
    → Guarded (lines_of document lines) l
unfolding lines_of
guard document lines l h =
    sort-All (λ a b. leb a.line_number b.line_number) (Shares l) _ (filter-All (Shares l) _ lines h)

module _ (t : CaseTable) (f : Fuzz) (items : List CatalogItem) (rules : List RuleRow)
    (buyer : Option ℕ) (document now : ℕ) (lines : List Line) where
  -- Where the line ids are distinct, the pass ends, and a line whose item a person chose is in every
  -- column what it was.
  pub pass_keeps_answers :
      Distinct lines
      → (lines' : List Line) × (s : MatchingSummary) × (match_document_lines t f items rules buyer
            document now lines
          ≡ some (lines', s))
        × Pairs (λ l m. Human l → m ≡ l) lines lines'
  unfolding match_document_lines
  pass_keeps_answers keys =
      let (ls, s, e, kept, _) =
        match_lines-Kept t f items (load_sku_rules t buyer rules) (load_uom_rules t buyer rules) now
          (lines_of document lines) lines no_summary in
      (
        ls,
        s,
        e,
        Pairs-map (Kept (lines_of document lines)) (λ l m. Human l → m ≡ l)
            (λ l. Human l → All (Shares l) lines) lines ls
            (λ l m p h human. h.1 (guard document lines l (p human))) (keys-Shares lines keys) kept,
      )
