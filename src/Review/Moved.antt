-- ===== src/Review/Moved.antt =====
-- A move of a document by a call of packages/core/docflow_core/review.py that returned, and what it
-- keeps of the live snapshots.
use doc_flow.Prelude.{
  ℕ, Bool, true, false, Option, none, some, List, [], ◌∷◌, ◌≡◌, ◌≢◌, refl, sym, ◌∙◌, All,
}
use doc_flow.Status.Table.{Status}
use doc_flow.Status.Row.{Document, Assign}
use doc_flow.Status.Ops.{Result, ok, illegal, transition}
use doc_flow.Status.Moves.{Pointwise, Follows, transition-Follows}
use doc_flow.Status.Claiming.{Unique}
use doc_flow.Validation.Sync.{DocumentWarning}
use doc_flow.Review.{Outcome, done, raised, Failure, ReviewCode, ◌>>=◌, ◌>>◌, refuse_if}
use doc_flow.Review.Tables.{synced, validate_document}
use doc_flow.Review.Rows.{Server, Tables, SnapshotRow}
use doc_flow.Review.Decide.{moved_or}
use doc_flow.Review.Snapshots.{
  live_count, live_due, HasDue, moved-HasDue, equal-HasDue, transition-update_where,
}

-- `id` is the key of the documents, and each has the live snapshots that its status stands on.
abbrev pub IsBacked : Tables → Type 0
IsBacked t = Unique t.documents × All (HasDue t.snapshots) t.documents

-- The ids of a table stay where they are.
Unique-Follows :
    (docs after : List Document) → Pointwise Follows docs after → Unique docs → Unique after
Unique-Follows [] [] h u = tt
Unique-Follows [] (e ∷ es) h u = absurd h
Unique-Follows (d ∷ ds) [] h u = absurd h
Unique-Follows (d ∷ ds) (e ∷ es) ((i, t, s), h) (fresh, u) =
    (apart ds es h fresh, Unique-Follows ds es h u)
  where
    apart :
        (as' bs : List Document)
        → Pointwise Follows as' bs
        → All (λ a. a.id ≢ d.id) as'
        → All (λ b. b.id ≢ e.id) bs
    apart [] [] h k = tt
    apart [] (b ∷ bs) h k = absurd h
    apart (a ∷ as') [] h k = absurd h
    apart (a ∷ as') (b ∷ bs) ((j, _, _), h) (k, ks) = (λ q. k (sym j ∙ q ∙ i), apart as' bs h ks)

pub refuse_if_done :
    {B : Type 0} (b : Bool) (code : ReviewCode) (later : Outcome B) {x : B}
    → (refuse_if b code >> later) ≡ done x
    → (b ≡ false) × (later ≡ done x)
refuse_if_done true code later h = cc
refuse_if_done false code later h = (refl, h)

pub unit_done :
    {B : Type 0} (step : Outcome (Unit {0})) (later : Outcome B) {x : B}
    → (step >> later) ≡ done x
    → later ≡ done x
unit_done (done _) later h = h
unit_done (raised f) later h = cc

moved_done :
    (failure : Failure) (r : Result (List Document × Bool)) {docs : List Document}
    → moved_or failure r ≡ done docs
    → r ≡ ok (docs, true)
moved_done failure illegal h = cc
moved_done failure (ok (docs, true)) h = cc
moved_done failure (ok (docs, false)) h = cc

-- A move along a transition that found its row, together with the new snapshots.
pub transition-IsBacked :
    (clock i : ℕ) (from_statuses : List Status) (to : Status) (values : List Assign)
    (docs after : List Document) (rows rows' : List SnapshotRow)
    → transition clock docs i from_statuses to values ≡ ok (after, true)
    → live_count i rows' ≡ live_due to
    → ((j : ℕ) → j ≢ i → live_count j rows' ≡ live_count j rows)
    → Unique docs × All (HasDue rows) docs
    → Unique after × All (HasDue rows') after
transition-IsBacked clock i from_statuses to values docs after rows rows' h now_due others
      (u, due) =
    let (parts, table, hit) = transition-update_where clock docs i from_statuses to values h in
    let kept : Unique after =
      Unique-Follows docs after (transition-Follows clock docs i from_statuses to values h) u in
    let held =
      moved-HasDue clock i from_statuses to parts rows rows' now_due others docs u hit due in
    (kept, rw table held)

pub equal-IsBacked :
    (clock i : ℕ) (from_statuses : List Status) (to : Status) (values : List Assign)
    (docs after : List Document) (found : Bool) (rows : List SnapshotRow)
    → transition clock docs i from_statuses to values ≡ ok (after, found)
    → All (λ s. live_due s ≡ live_due to) from_statuses
    → Unique docs × All (HasDue rows) docs
    → Unique after × All (HasDue rows) after
equal-IsBacked clock i from_statuses to values docs after found rows h equal (u, due) =
    let (parts, table, hit) = transition-update_where clock docs i from_statuses to values h in
    let kept : Unique after =
      Unique-Follows docs after (transition-Follows clock docs i from_statuses to values h) u in
    let held = equal-HasDue clock i from_statuses to parts rows equal docs due in
    (kept, rw table held)

-- A compare-and-set that returned has moved the row, and the rest is what was written.
pub moved_and_written :
    (failure : Failure) (r : Result (List Document × Bool)) (written : List Document → Tables)
    (id : ℕ) {after : Tables} {action : ℕ}
    → ◌>>=◌ {B = Tables × ℕ} (moved_or failure r) (λ docs. done (written docs, id))
      ≡ done (after, action)
    → (docs : List Document) × (r ≡ ok (docs, true)) × (after ≡ written docs) × (id ≡ action)
moved_and_written failure illegal written id h = cc
moved_and_written failure (ok (docs, true)) written id h = (docs, refl, cc, cc)
moved_and_written failure (ok (docs, false)) written id h = cc

-- What a check of the document leaves alone.
module _ (server : Server) (tenant_id document_id : ℕ) (t : Tables) where
  synced-keeps :
      (o : Option (List DocumentWarning))
      → ((synced server document_id o t).documents ≡ t.documents)
        × ((synced server document_id o t).snapshots ≡ t.snapshots)
        × ((synced server document_id o t).actions ≡ t.actions)
  synced-keeps none = (refl, refl, refl)
  synced-keeps (some found) = (refl, refl, refl)

  pub validate_document-keeps :
      ((validate_document server tenant_id document_id t).documents ≡ t.documents)
      × ((validate_document server tenant_id document_id t).snapshots ≡ t.snapshots)
      × ((validate_document server tenant_id document_id t).actions ≡ t.actions)
  unfolding validate_document
  validate_document-keeps = synced-keeps (server.evaluate t tenant_id document_id)
