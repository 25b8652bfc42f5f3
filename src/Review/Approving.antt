-- ===== src/Review/Approving.antt =====
-- Rows of the documents and the snapshots as an approval, `approve_document` of
-- packages/core/docflow_core/review.py, moves and adds them.
use doc_flow.Prelude.{
  ℕ, Bool, true, false, not, ◌&&◌, ◌||◌, Option, none, some, List, [], ◌∷◌, ◌++◌, ◌≡◌, refl, sym,
  ap, ◌∙◌, ◌⊎◌, inl, inr, arith, filter, any, ◌==◌, Bool-cases,
}
use doc_flow.Status.Table.{Status, needs_review, approved, member}
use doc_flow.Status.Row.{Document, update_where}
use doc_flow.Status.Ops.{ok, check_each, check, assignments, move_row, is_source, transition}
use doc_flow.Validation.Sync.{DocumentWarning}
use doc_flow.Review.{done}
use doc_flow.Review.Tables.{
  first, load_document, build_snapshot, synced, validate_document, is_live_snapshot, supersede,
}
use doc_flow.Review.Rows.{Server, Tables, SnapshotRow}
use doc_flow.Review.Decide.{loaded, approval_values, approval_move}
use doc_flow.Review.Notes.{reviewable_statuses}

-- what a check of the document changes is its warnings
pub validate_document-values :
    (server : Server) (tenant_id i : ℕ) (t : Tables)
    → ((validate_document server tenant_id i t).documents ≡ t.documents)
      × (build_snapshot (validate_document server tenant_id i t) i ≡ build_snapshot t i)
      × ((validate_document server tenant_id i t).actions ≡ t.actions)
unfolding validate_document build_snapshot
validate_document-values server tenant_id i t = by_found (server.evaluate t tenant_id i)
  where
    by_found :
        (o : Option (List DocumentWarning))
        → ((synced server i o t).documents ≡ t.documents)
          × (build_snapshot (synced server i o t) i ≡ build_snapshot t i)
          × ((synced server i o t).actions ≡ t.actions)
    by_found none = (refl, refl, refl)
    by_found (some found) = (refl, refl, refl)

-- The live snapshots after an approval are the new one.
pub live_of-supersede :
    (now i : ℕ) (rows : List SnapshotRow) (s : SnapshotRow)
    → is_live_snapshot i s ≡ true
    → filter (is_live_snapshot i) (supersede now i rows ++ s ∷ []) ≡ s ∷ []
unfolding supersede
live_of-supersede now i [] s h = rw h refl
live_of-supersede now i (r ∷ rows) s h = elim (Bool-cases (is_live_snapshot i r)) [
  | inl e ↦
      let gone : is_live_snapshot i (record r { superseded_at = some now }) ≡ false =
        ground arith in
      rw e (rw gone (live_of-supersede now i rows s h))
  | inr e ↦ rw (e, e) (live_of-supersede now i rows s h)
]

pub loaded_done : (o : Option Document) {d : Document} → loaded o ≡ done d → o ≡ some d
loaded_done none h = cc
loaded_done (some d) h = cc

-- an UPDATE that keeps the id and the deletion of a row, seen by the next load
pub load_document-update :
    (i : ℕ) (p : Document → Bool) (f : Document → Document)
    → ((d : Document) → ((f d).id ≡ d.id) × ((f d).deleted ≡ d.deleted))
    → (docs : List Document) (d : Document) → load_document i docs ≡ some d
    → p d ≡ true
    → load_document i (update_where p f docs) ≡ some (f d)
unfolding load_document
load_document-update i p f keeps [] d h k = cc
load_document-update i p f keeps (e ∷ docs) d h k = elim (Bool-cases (e.id == i && not e.deleted)) [
  | inl q ↦
      let same_row : e ≡ d = cc (rw q at h) in
      let chosen : p e ≡ true = rw same_row k in
      rw chosen (rw (seen_as e ∙ q) (ap (λ x. some (f x)) same_row))
  | inr q ↦ rest q (load_document-update i p f keeps docs d (rw q at h) k) (Bool-cases (p e))
]
  where
    seen_as : (x : Document) → ((f x).id == i && not (f x).deleted) ≡ (x.id == i && not x.deleted)
    seen_as x = let (same_id, same_deleted) = keeps x in rw (same_id, same_deleted) refl

    rest :
        (e.id == i && not e.deleted) ≡ false
        → first (filter (λ x. x.id == i && not x.deleted) (update_where p f docs)) ≡ some (f d)
        → (p e ≡ true) ⊎ (p e ≡ false)
        → first (filter (λ x. x.id == i && not x.deleted) (update_where p f (e ∷ docs)))
          ≡ some (f d)
    rest q ih (inl c) = rw c (rw (seen_as e ∙ q) ih)
    rest q ih (inr c) = rw c (rw q ih)

-- the row that an approval leaves
pub approval_move-row :
    (server : Server) (tenant_id i user_id : ℕ) (acting_as : Option ℕ) (t : Tables)
    → approval_move server tenant_id i user_id acting_as t
      ≡ ok (
        update_where
            (is_source i reviewable_statuses)
            (move_row server.now approved (approval_values server user_id (build_snapshot t i)))
            t.documents,
        any (is_source i reviewable_statuses) t.documents,
      )
unfolding transition check check_each assignments
approval_move-row server tenant_id i user_id acting_as t = refl

pub accepted : (b : Bool) → not b ≡ false → b ≡ true
accepted b h = ground arith

pub reviewable-status : (s : Status) → not (member s reviewable_statuses) ≡ false → s ≡ needs_review
reviewable-status needs_review h = refl
reviewable-status _ h = cc

-- What load_document found stands in the table, and is moved if its status is a source.
pub load_document-source :
    (i : ℕ) (sources : List Status) (docs : List Document) (d : Document)
    → load_document i docs ≡ some d
    → member d.status sources ≡ true
    → is_source i sources d ≡ true
unfolding load_document
load_document-source i sources [] d h s = cc
load_document-source i sources (e ∷ docs) d h s = elim (Bool-cases (e.id == i && not e.deleted)) [
  | inl q ↦
      let same_row : e ≡ d = cc (rw q at h) in
      let own : (d.id == i) ≡ true = ap (λ x. x.id == i) (sym same_row) ∙ left_of (e.id == i) _ q in
      rw (own, s) refl
  | inr q ↦ load_document-source i sources docs d (rw q at h) s
]
  where
    left_of : (a b : Bool) → (a && b) ≡ true → a ≡ true
    left_of a b h = ground arith

pub load_document-any :
    (i : ℕ) (sources : List Status) (docs : List Document) (d : Document)
    → load_document i docs ≡ some d
    → is_source i sources d ≡ true
    → any (is_source i sources) docs ≡ true
unfolding load_document
load_document-any i sources [] d h s = cc
load_document-any i sources (e ∷ docs) d h s = elim (Bool-cases (e.id == i && not e.deleted)) [
  | inl q ↦
      let same_row : e ≡ d = cc (rw q at h) in
      let here : is_source i sources e ≡ true = ap (is_source i sources) same_row ∙ s in
      rw here refl
  | inr q ↦ or_right (is_source i sources e) _ (load_document-any i sources docs d (rw q at h) s)
]
  where
    or_right : (a b : Bool) → b ≡ true → (a || b) ≡ true
    or_right a b h = ground arith
