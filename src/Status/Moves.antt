-- ===== src/Status/Moves.antt =====
-- Every operation of packages/core/docflow_core/document_status.py moves documents only along
-- `ALLOWED`, so the trigger that refuses other moves never fires on a statement of this module.
use doc_flow.Prelude.{
  ℕ, Bool, true, false, not, ◌&&◌, ◌||◌, ◌≡◌, refl, sym, inl, inr, List, [], ◌∷◌, arith, subst,
  ◌==◌, Bool-cases, if◌then◌else◌,
}
use doc_flow.Status.Table.{Status, same, listed, is_allowed, member, same→eq}
use doc_flow.Status.Row.{Document, Assign, processing_started_at, assign, assign_all, update_where}
use doc_flow.Status.Ops.{
  Result, ok, illegal, ◌>>◌, bind_returned, check_each, check, assignments, move_row, is_source,
  transition,
}

-- A relation between the rows of two tables, row by row.
abbrev pub Pointwise : (Document → Document → Type 0) → List Document → List Document → Type 0
Pointwise R [] [] = Unit
Pointwise R [] (e ∷ es) = ⊥
Pointwise R (d ∷ ds) [] = ⊥
Pointwise R (d ∷ ds) (e ∷ es) = R d e × Pointwise R ds es

-- The same document, at an allowed next status.
abbrev pub Follows : Document → Document → Type 0
Follows d e = (e.id ≡ d.id) × (e.tenant ≡ d.tenant) × (is_allowed d.status e.status ≡ true)

pub Follows-refl : (d : Document) → Follows d d
unfolding is_allowed
Follows-refl d = ground arith

pub update_where-Pointwise :
    (R : Document → Document → Type 0) (p : Document → Bool) (f : Document → Document)
    → ((d : Document) → R d d)
    → ((d : Document) → p d ≡ true → R d (f d))
    → (ds : List Document) → Pointwise R ds (update_where p f ds)
update_where-Pointwise R p f stay move [] = tt
update_where-Pointwise R p f stay move (d ∷ ds) =
    (head (p d) refl, update_where-Pointwise R p f stay move ds)
  where
    head : (b : Bool) → p d ≡ b → R d (if b then f d else d)
    head true e = move d e
    head false e = stay d

pub Pointwise-refl : (ds : List Document) → Pointwise Follows ds ds
Pointwise-refl [] = tt
Pointwise-refl (d ∷ ds) = (Follows-refl d, Pointwise-refl ds)

-- What a transition's SET list leaves alone.
abbrev pub SameRow : Document → Document → Type 0
SameRow d e = (e.id ≡ d.id) × (e.tenant ≡ d.tenant) × (e.status ≡ d.status)

assign-SameRow : (clock : ℕ) (a : Assign) (d : Document) → SameRow d (assign clock a d)
assign-SameRow clock (processing_started_at v) d = (refl, refl, refl)
assign-SameRow clock _ d = (refl, refl, refl)

pub assign_all-SameRow :
    (clock : ℕ) (values : List Assign) (d : Document) → SameRow d (assign_all clock values d)
assign_all-SameRow clock [] d = (refl, refl, refl)
assign_all-SameRow clock (a ∷ values) d =
    chain (assign-SameRow clock a d) (assign_all-SameRow clock values (assign clock a d))
  where
    chain :
        SameRow d (assign clock a d)
        → SameRow (assign clock a d) (assign_all clock values (assign clock a d))
        → SameRow d (assign_all clock values (assign clock a d))
    chain (p, q, r) (p', q', r') = (cc, cc, cc)

either_of_refused : (a b : Bool) → (not a && not b) ≡ false → (a || b) ≡ true
either_of_refused a b h = ground arith

-- What `_check` accepts, source by source.
check_each-cons :
    (t : Status) (ts : List Status) (to : Status)
    → check_each (t ∷ ts) to ≡ ok tt
    → (is_allowed t to ≡ true) × (check_each ts to ≡ ok tt)
unfolding check_each is_allowed
check_each-cons t ts to h = elim (Bool-cases (not (same t to) && not (listed t to))) [
  | inl refused ↦ cc (rw refused at h)
  | inr fine ↦ (either_of_refused (same t to) (listed t to) fine, rw fine at h)
]

-- A source list that `_check` accepts has only allowed moves to the target.
check_each-is_allowed :
    (sources : List Status) (to s : Status)
    → check_each sources to ≡ ok tt
    → member s sources ≡ true
    → is_allowed s to ≡ true
check_each-is_allowed [] to s h m = cc
check_each-is_allowed (t ∷ ts) to s h m =
    let (now, later) = check_each-cons t ts to h in
    elim (Bool-cases (same s t)) [
      | inl e ↦ rw (same→eq s t e) now
      | inr e ↦ check_each-is_allowed ts to s later (rw e at m)
    ]

pub check-is_allowed :
    (from_statuses sources : List Status) (to s : Status)
    → check from_statuses to ≡ ok sources
    → member s sources ≡ true
    → is_allowed s to ≡ true
unfolding check
check-is_allowed [] sources to s h m = cc
check-is_allowed (t ∷ ts) sources to s h m = go (check_each (t ∷ ts) to) refl h
  where
    go :
        (r : Result (Unit {0}))
        → check_each (t ∷ ts) to ≡ r
        → (r >> ok (t ∷ ts)) ≡ ok sources
        → is_allowed s to ≡ true
    go (ok tt) e q =
        let same_list : sources ≡ t ∷ ts = cc in
        check_each-is_allowed (t ∷ ts) to s e (rw same_list at m)
    go illegal e q = cc

pub move_row-Follows :
    (clock : ℕ) (to : Status) (values : List Assign) (d : Document)
    → is_allowed d.status to ≡ true
    → Follows d (move_row clock to values d)
move_row-Follows clock to values d h =
    let (i, t, s) = assign_all-SameRow clock values (record d { status = to }) in
    (i, t, subst (λ u. is_allowed d.status u ≡ true) (sym s) h)

pub and-right : (a b : Bool) → (a && b) ≡ true → b ≡ true
and-right a b h = ground arith

pub transition-Follows :
    (clock : ℕ) (docs : List Document) (document_id : ℕ) (from_statuses : List Status) (to : Status)
    (values : List Assign) {after : List Document} {moved : Bool}
    → transition clock docs document_id from_statuses to values ≡ ok (after, moved)
    → Pointwise Follows docs after
unfolding transition
transition-Follows clock docs document_id from_statuses to values {after} {moved} h =
    let (sources, checked, h') = bind_returned (check from_statuses to) _ h in
    let (parts, _, h'') = bind_returned (assignments values) _ h' in
    let chosen = is_source document_id sources in
    let e : after ≡ update_where chosen (move_row clock to parts) docs = cc in
    rw e (
      update_where-Pointwise Follows chosen (move_row clock to parts) Follows-refl
        (λ d m. move_row-Follows clock to parts d (
          check-is_allowed from_statuses sources to d.status checked
            (and-right (d.id == document_id) (member d.status sources) m)))
        docs)
