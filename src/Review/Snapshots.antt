-- ===== src/Review/Snapshots.antt =====
-- How many snapshots of a document are live, before and after a move of its row:
-- packages/core/docflow_core/review.py with packages/core/docflow_core/document_status.py.
use doc_flow.Prelude.{
  ℕ, suc, ◌+◌, Bool, true, false, ◌&&◌, some, List, [], ◌∷◌, ◌++◌, ◌≡◌, ◌≢◌, refl, sym, ap, ◌∙◌,
  inl, inr, arith, filter, length, any, All, ◌==◌, Bool-cases,
}
use doc_flow.Status.Table.{Status, approved, exported, same, member, same→eq}
use doc_flow.Status.Row.{Document, Assign, update_where}
use doc_flow.Status.Ops.{
  Result, ok, illegal, ◌>>◌, bind_returned, check_each, check, assignments, move_row, is_source,
  transition,
}
use doc_flow.Status.Moves.{assign_all-SameRow}
use doc_flow.Status.Claiming.{Unique}
use doc_flow.Review.Tables.{is_live_snapshot, supersede}
use doc_flow.Review.Rows.{SnapshotRow}

abbrev pub live_count : ℕ → List SnapshotRow → ℕ
live_count i rows = length (filter (is_live_snapshot i) rows)

pub live_count-append :
    (i : ℕ) (rows added : List SnapshotRow)
    → live_count i (rows ++ added) ≡ live_count i rows + live_count i added
live_count-append i [] added = omega arith
live_count-append i (s ∷ rows) added = elim (Bool-cases (is_live_snapshot i s)) [
  | inl e ↦ let ih = live_count-append i rows added in rw e (omega (arith, ih))
  | inr e ↦ rw e (live_count-append i rows added)
]

-- superseding leaves none live, and those of another document as they are
pub live_count-supersede_same :
    (now i : ℕ) (rows : List SnapshotRow) → live_count i (supersede now i rows) ≡ 0
unfolding supersede
live_count-supersede_same now i [] = refl
live_count-supersede_same now i (s ∷ rows) = elim (Bool-cases (is_live_snapshot i s)) [
  | inl e ↦
      let gone : is_live_snapshot i (record s { superseded_at = some now }) ≡ false =
        ground arith in
      rw e (rw gone (live_count-supersede_same now i rows))
  | inr e ↦ rw (e, e) (live_count-supersede_same now i rows)
]

pub live_count-supersede_other :
    (now i j : ℕ) (rows : List SnapshotRow)
    → j ≢ i
    → live_count j (supersede now i rows) ≡ live_count j rows
unfolding supersede
live_count-supersede_other now i j [] h = refl
live_count-supersede_other now i j (s ∷ rows) h =
    let ih = live_count-supersede_other now i j rows h in
    elim (Bool-cases (is_live_snapshot i s)) [
      | inl e ↦
          let apart : is_live_snapshot j s ≡ false = ground arith in
          let apart' : is_live_snapshot j (record s { superseded_at = some now }) ≡ false =
            ground arith in
          rw e (rw (apart', apart) ih)
      | inr e ↦ rw e (same (is_live_snapshot j s) refl ih)
    ]
  where
    same :
        (b : Bool)
        → is_live_snapshot j s ≡ b
        → live_count j (supersede now i rows) ≡ live_count j rows
        → live_count j (s ∷ supersede now i rows) ≡ live_count j (s ∷ rows)
    same true e ih = rw e (ap suc ih)
    same false e ih = rw e ih

-- The statuses that stand on a live snapshot.
abbrev pub live_due : Status → ℕ
live_due approved = 1
live_due exported = 1
live_due _ = 0

-- Every document has the live snapshots that its status stands on: one or none.
abbrev pub HasDue : List SnapshotRow → Document → Type 0
HasDue rows d = live_count d.id rows ≡ live_due d.status

-- a row of another document
abbrev pub Elsewhere : ℕ → Document → Type 0
Elsewhere i d = d.id ≢ i

module _ (clock i : ℕ) (sources : List Status) (to : Status) (parts : List Assign)
    (rows after : List SnapshotRow) (moved : live_count i after ≡ live_due to)
    (others : (j : ℕ) → j ≢ i → live_count j after ≡ live_count j rows) where
  abbrev moved_docs : List Document → List Document
  moved_docs docs = update_where (is_source i sources) (move_row clock to parts) docs

  not_source : (d : Document) → d.id ≢ i → is_source i sources d ≡ false
  not_source d h = ground arith

  elsewhere-HasDue :
      (docs : List Document)
      → All (λ d. d.id ≢ i) docs
      → All (HasDue rows) docs
      → All (HasDue after) (moved_docs docs)
  elsewhere-HasDue [] h k = tt
  elsewhere-HasDue (d ∷ docs) (h, hs) (k, ks) =
      rw (not_source d h) (others d.id h ∙ k, elsewhere-HasDue docs hs ks)

  row-HasDue : (d : Document) → d.id ≡ i → HasDue after (move_row clock to parts d)
  row-HasDue d e =
      let (same_id, _, same_status) = assign_all-SameRow clock parts (record d { status = to }) in
      ap (λ j. live_count j after) (same_id ∙ e) ∙ moved ∙ ap live_due (sym same_status)

  source_id : (d : Document) → is_source i sources d ≡ true → d.id ≡ i
  source_id d h = ground arith

  -- the row that moved stands in this list
  apart_from :
      (n : ℕ) (docs : List Document)
      → All (λ e. e.id ≢ n) docs
      → any (is_source i sources) docs ≡ true
      → n ≢ i
  apart_from n [] h k = cc
  apart_from n (d ∷ docs) (h, hs) k = elim (Bool-cases (is_source i sources d)) [
    | inl e ↦ λ same. h (source_id d e ∙ sym same)
    | inr e ↦ apart_from n docs hs (rw e at k)
  ]

  -- Where the row of `i` moves and its snapshots are those of the new status, every document has
  -- what is due.
  pub moved-HasDue :
      (docs : List Document)
      → Unique docs
      → any (is_source i sources) docs ≡ true
      → All (HasDue rows) docs
      → All (HasDue after) (moved_docs docs)
  moved-HasDue [] u found h = tt
  moved-HasDue (d ∷ docs) (fresh, u) found (h, hs) = elim (Bool-cases (is_source i sources d)) [
    | inl e ↦
        let at_i = source_id d e in
        let rest : All (λ x. x.id ≢ i) docs = subst_ids at_i docs fresh in
        rw e (row-HasDue d at_i, elsewhere-HasDue docs rest hs)
    | inr e ↦
        let later : any (is_source i sources) docs ≡ true = rw e at found in
        rw e (others d.id (apart_from d.id docs fresh later) ∙ h, moved-HasDue docs u later hs)
  ]
    where
      subst_ids :
          {n : ℕ} → n ≡ i → (ds : List Document) → All (λ x. x.id ≢ n) ds → All (λ x. x.id ≢ i) ds
      subst_ids e [] k = tt
      subst_ids e (x ∷ ds) (k, ks) = (λ q. k (q ∙ sym e), subst_ids e ds ks)

check_same :
    (from_statuses sources : List Status) (to : Status)
    → check from_statuses to ≡ ok sources
    → sources ≡ from_statuses
unfolding check
check_same [] sources to h = cc
check_same (t ∷ ts) sources to h = go (check_each (t ∷ ts) to) h
  where
    go : (r : Result (Unit {0})) → (r >> ok (t ∷ ts)) ≡ ok sources → sources ≡ t ∷ ts
    go (ok _) q = cc
    go illegal q = cc

-- A transition that returned is one conditional UPDATE.
pub transition-update_where :
    (clock : ℕ) (docs : List Document) (i : ℕ) (from_statuses : List Status) (to : Status)
    (values : List Assign) {after : List Document} {found : Bool}
    → transition clock docs i from_statuses to values ≡ ok (after, found)
    → (parts : List Assign) × (after
        ≡ update_where (is_source i from_statuses) (move_row clock to parts) docs)
      × (any (is_source i from_statuses) docs ≡ found)
unfolding transition
transition-update_where clock docs i from_statuses to values {after} {found} h =
    let (sources, checked, h') = bind_returned (check from_statuses to) _ h in
    let (parts, _, h'') = bind_returned (assignments values) _ h' in
    let same_sources = check_same from_statuses sources to checked in
    let table : after ≡ update_where (is_source i sources) (move_row clock to parts) docs = cc in
    let hit : any (is_source i sources) docs ≡ found = cc in
    (
      parts,
      table ∙ ap (λ s. update_where (is_source i s) (move_row clock to parts) docs) same_sources,
      ap (λ s. any (is_source i s) docs) (sym same_sources) ∙ hit,
    )

-- superseding the old snapshot and adding a new one
pub live_count-replaced_same :
    (now i : ℕ) (rows : List SnapshotRow) (s : SnapshotRow)
    → is_live_snapshot i s ≡ true
    → live_count i (supersede now i rows ++ s ∷ []) ≡ 1
live_count-replaced_same now i rows s h =
    live_count-append i (supersede now i rows) (s ∷ [])
    ∙ (rw h (omega (arith, live_count-supersede_same now i rows)))

pub live_count-replaced_other :
    (now i j : ℕ) (rows : List SnapshotRow) (s : SnapshotRow)
    → j ≢ i
    → s.document_id ≡ i
    → live_count j (supersede now i rows ++ s ∷ []) ≡ live_count j rows
live_count-replaced_other now i j rows s h own =
    let apart : is_live_snapshot j s ≡ false = ground arith in
    live_count-append j (supersede now i rows) (s ∷ [])
    ∙ (rw apart (omega (arith, live_count-supersede_other now i j rows h)))

-- A move between statuses that stand on equally many live snapshots.
module _ (clock i : ℕ) (sources : List Status) (to : Status) (parts : List Assign)
    (rows : List SnapshotRow) where
  member-due :
      (s : Status) (ss : List Status)
      → All (λ r. live_due r ≡ live_due to) ss
      → member s ss ≡ true
      → live_due s ≡ live_due to
  member-due s [] h m = cc
  member-due s (r ∷ ss) (h, hs) m = elim (Bool-cases (same s r)) [
    | inl e ↦ ap live_due (same→eq s r e) ∙ h
    | inr e ↦ member-due s ss hs (rw e at m)
  ]

  right_of : (a b : Bool) → (a && b) ≡ true → b ≡ true
  right_of a b h = ground arith

  pub equal-HasDue :
      All (λ r. live_due r ≡ live_due to) sources
      → (docs : List Document) → All (HasDue rows) docs
      → All (HasDue rows) (update_where (is_source i sources) (move_row clock to parts) docs)
  equal-HasDue equal [] h = tt
  equal-HasDue equal (d ∷ docs) (h, hs) = elim (Bool-cases (is_source i sources d)) [
    | inl e ↦
        let (same_id, _, same_status) = assign_all-SameRow clock parts (record d { status = to }) in
        let due = member-due d.status sources equal (right_of (d.id == i) _ e) in
        let row : HasDue rows (move_row clock to parts d) =
          ap (λ j. live_count j rows) same_id ∙ h ∙ due ∙ ap live_due (sym same_status) in
        rw e (row, equal-HasDue equal docs hs)
    | inr e ↦ rw e (h, equal-HasDue equal docs hs)
  ]
