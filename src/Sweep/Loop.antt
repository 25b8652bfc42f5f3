-- ===== src/Sweep/Loop.antt =====
-- The loop of the sweep in packages/core/docflow_core/stuck_documents.py, statement by statement, against
-- what it does to each row.
use mathlib.Core.List.{append-nil}
use doc_flow.Prelude.{
  ℕ, ◌≡◌, refl, sym, ap, ◌∙◌, Bool, true, false, not, ◌&&◌, Option, none, some, List, [], ◌∷◌, ◌++◌,
  map, ◌==◌, if◌then◌else◌, is_some, inl, inr, Bool-cases, arith,
}
use doc_flow.Status.Table.{Status, pending, processing, same}
use doc_flow.Status.Row.{Document, update_where}
use doc_flow.Status.Ops.{ok, transition, check, check_each, assignments, is_source}
use doc_flow.Retry.{Decision, decide}
use doc_flow.Sweep.Visit.{
  Swept, is_left_behind, is_before, is_dispatched, undispatched, add_if, return_to_waiting, settle,
  visit,
}
use doc_flow.Sweep.Tables.{stuck_code, lost_runs_closed}
use doc_flow.Sweep.Rows.{Agrees}

module _ (clock minutes max_attempts : ℕ) where
  abbrev pub decided : Document → Decision
  decided d = decide d.processing_attempts d.timeout_attempts max_attempts d.parse_lost_attempts

  abbrev pub failed_row : Document → Document
  failed_row d = record d {
    status = Status.failed;
    failure_code = some stuck_code;
    processed_at = some clock;
  }

  abbrev pub settled_row : Decision → Document → Document
  settled_row Decision.retry d = d
  settled_row (Decision.fail cause) d = failed_row d

  -- what becomes of a row that was left behind
  abbrev pub swept_row : Document → Document
  swept_row d = if same d.status processing then settled_row (decided d) d else undispatched d

  abbrev pub is_retry : Decision → Bool
  is_retry Decision.retry = true
  is_retry (Decision.fail cause) = false

  abbrev pub is_retried : Document → Bool
  is_retried d = same d.status processing && is_retry (decided d)

  abbrev pub touch : Document → Document → Document
  touch r d = if d.id == r.id then swept_row d else d

  -- An UPDATE that finds no row but the one with the id of `r`.
  update_where-touch :
      (p : Document → Bool) (f : Document → Document) (r : Document)
      → p r ≡ true
      → f r ≡ swept_row r
      → ((d : Document) → (d.id == r.id) ≡ false → p d ≡ false)
      → (docs : List Document) → Agrees docs r
      → update_where p f docs ≡ map (touch r) docs
  update_where-touch p f r h k away [] a = refl
  update_where-touch p f r h k away (d ∷ docs) (a, rest) =
      λ i. here i ∷ update_where-touch p f r h k away docs rest i
    where
      same_row : d ≡ r → (d.id == r.id) ≡ true → (if p d then f d else d) ≡ touch r d
      same_row e i = rw (i, ap p e, h) (ap f e ∙ k ∙ sym (ap swept_row e))

      here : (if p d then f d else d) ≡ touch r d
      here = elim (Bool-cases (d.id == r.id)) [
        | inl e ↦ same_row (a (ground arith)) e
        | inr e ↦ rw (e, away d e)
      ]

  update_where-nothing :
      (p : Document → Bool) (docs : List Document) → update_where p (λ d. d) docs ≡ docs
  update_where-nothing p [] = refl
  update_where-nothing p (d ∷ docs) = λ i. same_either (p d) i ∷ update_where-nothing p docs i
    where
      same_either : (b : Bool) → (if b then d else d) ≡ d
      same_either true = refl
      same_either false = refl

  -- the state after a turn: the table, and the ids that are queued again
  abbrev pub Visited : Document → Swept → Swept → Type 0
  Visited r s s' =
      (s'.documents ≡ map (touch r) s.documents)
      × (s'.requeued ≡ s.requeued ++ (if is_retried r then r.id ∷ [] else []))

  own_id : (r : Document) → (r.id == r.id) ≡ true
  own_id r = ground arith

  settle-Visited :
      (r : Document) (decision : Decision) (s : Swept)
      → decided r ≡ decision
      → same r.status processing ≡ true
      → Agrees s.documents r
      → (s' : Swept) × (settle clock r decision s ≡ ok s') × Visited r s s'
  unfolding transition check check_each assignments
  settle-Visited r Decision.retry s e h a =
      (_, refl, (kept, ap (λ ids. s.requeued ++ ids) (sym queued)))
    where
      unchanged : r ≡ swept_row r
      unchanged = rw (h, e)

      kept : s.documents ≡ map (touch r) s.documents
      kept =
          sym (update_where-nothing (λ d. d.id == r.id) s.documents)
          ∙ update_where-touch (λ d. d.id == r.id) (λ d. d) r (own_id r) unchanged (λ d e'. e')
              s.documents a

      queued : (if is_retried r then r.id ∷ [] else []) ≡ r.id ∷ []
      queued = rw (h, e)
  settle-Visited r (Decision.fail cause) s e h a =
      (_, refl, (moved, sym (ap (λ ids. s.requeued ++ ids) queued ∙ append-nil s.requeued)))
    where
      failed_now : failed_row r ≡ swept_row r
      failed_now = rw (h, e)

      source : is_source r.id (processing ∷ []) r ≡ true
      source = rw (own_id r, h)

      elsewhere :
          (d : Document) → (d.id == r.id) ≡ false → is_source r.id (processing ∷ []) d ≡ false
      elsewhere d e' = rw e'

      moved :
          update_where (is_source r.id (processing ∷ [])) failed_row s.documents
          ≡ map (touch r) s.documents
      moved =
          update_where-touch (is_source r.id (processing ∷ [])) failed_row r source failed_now
            elsewhere s.documents a

      queued : (if is_retried r then r.id ∷ [] else []) ≡ []
      queued = rw (h, e)

  pub both : (a b : Bool) → (a && b) ≡ true → (a ≡ true) × (b ≡ true)
  both true true h = (refl, refl)
  both true false h = absurd (cc h)
  both false b h = absurd (cc h)

  -- left behind, and not in processing
  pub left_dispatched :
      (d : Document)
      → is_left_behind clock minutes d ≡ true
      → same d.status processing ≡ false
      → (same d.status pending && is_some d.dispatched_at) ≡ true
  left_dispatched d h e =
      let live = both (not d.deleted) _ h in
      let lost =
        both (same d.status pending) (is_before clock minutes d.dispatched_at) (rw e at live.1) in
      rw lost.0 (some_time d.dispatched_at lost.1)
    where
      some_time : (t : Option ℕ) → is_before clock minutes t ≡ true → is_some t ≡ true
      some_time none k = absurd (cc k)
      some_time (some t) k = refl

  pub visit-Visited :
      (r : Document) (s : Swept)
      → is_left_behind clock minutes r ≡ true
      → Agrees s.documents r
      → (s' : Swept) × (visit clock max_attempts r s ≡ ok s') × Visited r s s'
  unfolding return_to_waiting
  visit-Visited r s left a = elim (Bool-cases (same r.status processing)) [
    | inl e ↦
        let (s', settled, visited) = settle-Visited r (decided r) _ refl e a in
        (s', by_status e ∙ settled, visited)
    | inr e ↦ (
      _,
      by_status e,
      (waiting e, sym (ap (λ ids. s.requeued ++ ids) (not_queued e) ∙ append-nil s.requeued)),
    )
  ]
    where
      by_status :
          {b : Bool}
          → same r.status processing ≡ b
          → visit clock max_attempts r s ≡ (
              if b
              then settle clock r
                  (decided r)
                  (record s { effects = s.effects ++ lost_runs_closed r.id ∷ [] })
              else ok (record s {
                documents = (return_to_waiting s.documents r.id).0;
                lost_jobs = add_if (return_to_waiting s.documents r.id).1 r.id s.lost_jobs;
              }))
      by_status e = rw e

      not_queued : same r.status processing ≡ false → (if is_retried r then r.id ∷ [] else []) ≡ []
      not_queued e = rw e

      waiting :
          same r.status processing ≡ false
          → update_where (is_dispatched r.id) undispatched s.documents ≡ map (touch r) s.documents
      waiting e =
          update_where-touch (is_dispatched r.id) undispatched r
            (rw (own_id r) (left_dispatched r left e)) (rw e) (λ d e'. rw e') s.documents a
