-- ===== src/Review/Saves.antt =====
-- What a save, `apply_edits` of packages/core/docflow_core/review.py, does to the fields of the header.
use doc_flow.Prelude.{
  ℕ, Bool, true, false, not, ◌&&◌, ◌||◌, Option, some, List, [], ◌∷◌, map, ◌≡◌, refl, sym, subst,
  ap, ◌∙◌, ◌⊎◌, inl, inr, arith, filter, ◌==◌, if◌then◌else◌, Bool-cases,
}
use doc_flow.Prelude.Sort.{Text, text_beq}
use doc_flow.Matching.Resolve.{Provenance, human_edit}
use doc_flow.Validation.Sync.{among}
use doc_flow.Review.{
  done, bind_done, Stored, FieldChange, code_field_not_editable, editable_header_fields,
}
use doc_flow.Review.Tables.{first}
use doc_flow.Review.Rows.{HeaderRow, Server}
use doc_flow.Review.Edit.{
  put_field, bind_value, write_changed, stamp, edit_header_row, write_header_edits,
}
use doc_flow.Review.Moved.{refuse_if_done}

abbrev pub changed_names : List FieldChange → List Text
changed_names changes = map (λ c. c.field_name) changes

-- Some change of the field `k` was bound, and the column took it as `v`.
abbrev pub Wrote : Server → Text → Option Stored → List FieldChange → Type 0
Wrote server k v [] = ⊥
Wrote server k v (c ∷ changes) =
    ((text_beq c.field_name k ≡ true) × (bind_value server c.field_name c.after ≡ done v))
    ⊎ Wrote server k v changes

or_false_left : (a b : Bool) → (a || b) ≡ false → (a ≡ false) × (b ≡ false)
or_false_left a b h = ground arith

stamp-other :
    (action : ℕ) (changes : List FieldChange) (m : Text → Option Provenance) (k : Text)
    → among k (changed_names changes) ≡ false
    → stamp action changes m k ≡ m k
unfolding stamp
stamp-other action [] m k h = refl
stamp-other action (c ∷ changes) m k h =
    let (apart, later) = or_false_left (text_beq c.field_name k) _ h in
    stamp-other action changes (put_field c.field_name (some (human_edit (some action))) m) k later
    ∙ (rw apart refl)

stamp-human :
    (action : ℕ) (changes : List FieldChange) (m : Text → Option Provenance) (k : Text)
    → (among k (changed_names changes) ≡ true) ⊎ (m k ≡ some (human_edit (some action)))
    → stamp action changes m k ≡ some (human_edit (some action))
unfolding stamp
stamp-human action [] m k (inl h) = cc
stamp-human action [] m k (inr h) = h
stamp-human action (c ∷ changes) m k h =
    stamp-human action changes (put_field c.field_name (some (human_edit (some action))) m) k
      (elim (Bool-cases (text_beq c.field_name k)) [ inl e ↦ inr (rw e refl) | inr e ↦ later e h ])
  where
    later :
        text_beq c.field_name k ≡ false
        → ((text_beq c.field_name k || among k (changed_names changes)) ≡ true)
          ⊎ (m k ≡ some (human_edit (some action)))
        → (among k (changed_names changes) ≡ true)
          ⊎ (put_field c.field_name (some (human_edit (some action))) m k
              ≡ some (human_edit (some action)))
    later e (inl q) = inl (rw e at q)
    later e (inr q) = inr (rw e q)

module _ (server : Server) (allowlist : List Text) where
  write_changed-other :
      (changes : List FieldChange) (m m' : Text → Option Stored) (k : Text)
      → write_changed server allowlist changes m ≡ done m'
      → among k (changed_names changes) ≡ false
      → m' k ≡ m k
  unfolding write_changed
  write_changed-other [] m m' k h q = let e : m' ≡ m = cc in ap (λ g. g k) e
  write_changed-other (c ∷ changes) m m' k h q =
      let (_, h') =
        refuse_if_done (not (among c.field_name allowlist)) code_field_not_editable _ h in
      let (v, _, h'') = bind_done (bind_value server c.field_name c.after) _ h' in
      let (apart, later) = or_false_left (text_beq c.field_name k) _ q in
      write_changed-other changes (put_field c.field_name v m) m' k h'' later ∙ (rw apart refl)

  -- what was bound last of the field stands in it
  write_changed-Wrote :
      (changes : List FieldChange) (m m' : Text → Option Stored) (k : Text)
      → write_changed server allowlist changes m ≡ done m'
      → among k (changed_names changes) ≡ true
      → Wrote server k (m' k) changes
  unfolding write_changed
  write_changed-Wrote [] m m' k h q = absurd (cc q)
  write_changed-Wrote (c ∷ changes) m m' k h q =
      let (_, h') =
        refuse_if_done (not (among c.field_name allowlist)) code_field_not_editable _ h in
      let (v, bound, h'') = bind_done (bind_value server c.field_name c.after) _ h' in
      elim (Bool-cases (among k (changed_names changes))) [
        | inl e ↦ inr (write_changed-Wrote changes (put_field c.field_name v m) m' k h'' e)
        | inr e ↦
            let here : text_beq c.field_name k ≡ true = or_left _ _ q e in
            let kept = write_changed-other changes (put_field c.field_name v m) m' k h'' e in
            let value : m' k ≡ v = kept ∙ (rw here refl) in
            inl (here, bound ∙ ap (λ x. done x) (sym value))
      ]
    where
      or_left : (a b : Bool) → (a || b) ≡ true → b ≡ false → a ≡ true
      or_left a b h k = ground arith

-- One field of a header, before and after a save that changes `changes` of it.
abbrev pub FieldSaved : Server → ℕ → List FieldChange → Text → HeaderRow → HeaderRow → Type 0
FieldSaved server action changes k before after =
    if among k (changed_names changes)
    then Wrote server k (after.value k) changes
      × (after.field_provenance k ≡ some (human_edit (some action)))
    else (after.value k ≡ before.value k) × (after.field_provenance k ≡ before.field_provenance k)

abbrev pub live_header : ℕ → HeaderRow → Bool
live_header i h = h.document_id == i && not h.deleted

module _ (server : Server) (i action : ℕ) (changes : List FieldChange) (k : Text)
    (before : HeaderRow) where
  abbrev provenance_after : Text → Option Provenance
  provenance_after = stamp action changes before.field_provenance

  edit_header_row-FieldSaved :
      (r' : HeaderRow)
      → edit_header_row server changes provenance_after before ≡ done r'
      → (live_header i r' ≡ live_header i before) × FieldSaved server action changes k before r'
  edit_header_row-FieldSaved r' h =
      let (m', written, h') =
        bind_done (write_changed server editable_header_fields changes before.value) _ h in
      let e : r' ≡ record before { value = m'; field_provenance = provenance_after } = cc in
      rw e (refl, by_change (Bool-cases (among k (changed_names changes))) m' written)
    where
      by_change :
          (among k (changed_names changes) ≡ true) ⊎ (among k (changed_names changes) ≡ false)
          → (m' : Text → Option Stored)
          → write_changed server editable_header_fields changes before.value ≡ done m'
          → FieldSaved server action changes k before
              (record before { value = m'; field_provenance = provenance_after })
      by_change (inl q) m' written = rw q (
        write_changed-Wrote server editable_header_fields changes before.value m' k written q,
        stamp-human action changes before.field_provenance k (inl q),
      )
      by_change (inr q) m' written = rw q (
        write_changed-other server editable_header_fields changes before.value m' k written q,
        stamp-other action changes before.field_provenance k q,
      )

  -- a row that the UPDATE passes, and that is not the one loaded
  edit_if-live :
      (r r' : HeaderRow)
      → (if r.document_id == i then edit_header_row server changes provenance_after r else done r)
        ≡ done r'
      → live_header i r' ≡ live_header i r
  edit_if-live r r' h = elim (Bool-cases (r.document_id == i)) [
    | inl e ↦
        let (m', _, h') =
          bind_done (write_changed server editable_header_fields changes r.value) _ (rw e at h) in
        let same_row : r' ≡ record r { value = m'; field_provenance = provenance_after } = cc in
        rw same_row refl
    | inr e ↦ let same_row : r' ≡ r = cc (rw e at h) in ap (live_header i) same_row
  ]

  -- the row that is loaded is among those that were written
  pub write_header_edits-found :
      (rows rows' : List HeaderRow)
      → write_header_edits server i changes provenance_after rows ≡ done rows'
      → first (filter (live_header i) rows) ≡ some before
      → (h : HeaderRow) × (first (filter (live_header i) rows') ≡ some h)
        × FieldSaved server action changes k before h
  unfolding write_header_edits
  write_header_edits-found [] rows' h found = absurd (cc found)
  write_header_edits-found (r ∷ rows) rows' h found =
      let (r', edited, h₁) =
        bind_done
          (if r.document_id == i then edit_header_row server changes provenance_after r else done r)
          _ h in
      let (rest, written, h₂) =
        bind_done (write_header_edits server i changes provenance_after rows) _ h₁ in
      let e : rows' ≡ r' ∷ rest = cc in
      let live = edit_if-live r r' edited in
      elim (Bool-cases (live_header i r)) [
        | inl q ↦
            let same_row : r ≡ before = cc (rw q at found) in
            let own : (before.document_id == i) ≡ true =
              own_of before (ap (live_header i) (sym same_row) ∙ q) in
            let edited' : (if before.document_id == i
                  then edit_header_row server changes provenance_after before
                  else done before)
                ≡ done r' =
              subst
                (λ x.
                  (if x.document_id == i
                    then edit_header_row server changes provenance_after x
                    else done x)
                  ≡ done r')
                same_row edited in
            let (_, saved) = edit_header_row-FieldSaved r' (rw own at edited') in
            (r', (rw e (rw (live ∙ q) refl)), saved)
        | inr q ↦
            let (x, loads, saved) = write_header_edits-found rows rest written (rw q at found) in
            (x, (rw e (rw (live ∙ q) loads)), saved)
      ]
    where
      own_of : (b : HeaderRow) → live_header i b ≡ true → (b.document_id == i) ≡ true
      own_of b h = ground arith
