-- ===== src/Status/Lifetime.antt =====
-- The documents table over time: any sequence of the operations of
-- packages/core/docflow_core/document_status.py, as a relation between tables.
use doc_flow.Prelude.{
  ℕ, String, Bool, true, false, ◌≡◌, refl, inl, inr, some, List, [], ◌∷◌, arith, ◌∙◌, ◌==◌,
  contains, Bool-cases,
}
use doc_flow.Status.Table.{Status, needs_review, approved, exported, rejected, is_allowed, member}
use doc_flow.Status.Row.{Document, Assign, update_where, has_name}
use doc_flow.Status.Ops.{
  ok, bind_returned, check, assignments, move_row, is_source_of, transition, transition_many,
}
use doc_flow.Status.Claims.{
  record_timeout, is_processing_live, record_parse_lost, release_claim, is_claimable, claim_row,
  claim_for_processing, wait_causes, wait_row, to_waiting, is_past_wait_limit, fail_wait_row,
  fail_provider_waits_past,
}
use doc_flow.Status.Moves.{
  Pointwise, Pointwise-refl, Follows, Follows-refl, update_where-Pointwise, check-is_allowed,
  move_row-Follows, and-right, transition-Follows,
}

-- One call of the module: the table before and the table after, whatever the call returned.
pub data Change (docs after : List Document) : Type 0 where
  moved :
      (clock document_id : ℕ) (from_statuses : List Status) (to : Status) (values : List Assign)
      (found : Bool)
      → transition clock docs document_id from_statuses to values ≡ ok (after, found)
      → Change docs after
  moved_many :
      (clock tenant_id : ℕ) (ids : List ℕ) (from_statuses : List Status) (to : Status)
      (values : List Assign) (found : List ℕ)
      → transition_many clock docs tenant_id ids from_statuses to values ≡ ok (after, found)
      → Change docs after
  timed_out : (document_id : ℕ) → after ≡ (record_timeout docs document_id).0 → Change docs after
  parse_lost :
      (document_id : ℕ) → after ≡ (record_parse_lost docs document_id).0 → Change docs after
  released : (document_id : ℕ) → after ≡ (release_claim docs document_id).0 → Change docs after
  claimed :
      (clock document_id stale_after_min : ℕ)
      → after ≡ (claim_for_processing clock docs document_id stale_after_min).0
      → Change docs after
  waited :
      (clock document_id : ℕ) (cause : String) (retry_after : ℕ) (error_label : String)
      (found : Bool)
      → to_waiting clock docs document_id cause retry_after error_label ≡ some (after, found)
      → Change docs after
  gave_up :
      (clock hours : ℕ) (code : String)
      → after ≡ (fail_provider_waits_past clock docs hours code).0
      → Change docs after

transition_many-Follows :
    (clock : ℕ) (docs : List Document) (tenant_id : ℕ) (ids : List ℕ) (from_statuses : List Status)
    (to : Status) (values : List Assign) {after : List Document} {found : List ℕ}
    → transition_many clock docs tenant_id ids from_statuses to values ≡ ok (after, found)
    → Pointwise Follows docs after
unfolding transition_many
transition_many-Follows clock docs tenant_id [] from_statuses to values {after} h =
    let e : after ≡ docs = cc in rw e (Pointwise-refl docs)
transition_many-Follows clock docs tenant_id (i ∷ ids) from_statuses to values {after} h =
    let (sources, checked, h') = bind_returned (check from_statuses to) _ h in
    let (parts, _, h'') = bind_returned (assignments values) _ h' in
    let chosen = is_source_of tenant_id (i ∷ ids) sources in
    let e : after ≡ update_where chosen (move_row clock to parts) docs = cc in
    rw e (
      update_where-Pointwise Follows chosen (move_row clock to parts) Follows-refl
        (λ d m. move_row-Follows clock to parts d (
          check-is_allowed from_statuses sources to d.status checked (
            and-right (contains d.id (i ∷ ids)) (member d.status sources)
              (and-right (d.tenant == tenant_id) _ m))))
        docs)

-- Each conditional UPDATE of Claims.antt, row by row.
claim_row-Follows :
    (clock minutes i : ℕ) (d : Document)
    → is_claimable clock minutes i d ≡ true
    → Follows d (claim_row clock d)
unfolding is_allowed
claim_row-Follows clock minutes i d h = ground arith

wait_row-Follows :
    (clock i : ℕ) (cause : String) (after : ℕ) (label : String) (d : Document)
    → is_processing_live i d ≡ true
    → Follows d (wait_row clock cause after label d)
unfolding is_allowed
wait_row-Follows clock i cause after label d h = ground arith

fail_wait_row-Follows :
    (clock hours : ℕ) (code : String) (d : Document)
    → is_past_wait_limit clock hours d ≡ true
    → Follows d (fail_wait_row clock code d)
unfolding is_allowed
fail_wait_row-Follows clock hours code d h = ground arith

to_waiting-Follows :
    (clock : ℕ) (docs : List Document) (i : ℕ) (cause : String) (retry : ℕ) (label : String)
    {after : List Document} {found : Bool}
    → to_waiting clock docs i cause retry label ≡ some (after, found)
    → Pointwise Follows docs after
unfolding to_waiting
to_waiting-Follows clock docs i cause retry label {after} h =
    elim (Bool-cases (has_name cause wait_causes)) [
      | inl known ↦
          let e : after
              ≡ update_where (is_processing_live i) (wait_row clock cause retry label) docs =
            cc (rw known at h) in
          rw e (
            update_where-Pointwise Follows _ _ Follows-refl
              (wait_row-Follows clock i cause retry label) docs)
      | inr unknown ↦ cc (rw unknown at h)
    ]

-- Whatever call is made, every document keeps its id and tenant, and its status moves along
-- `ALLOWED` or stays.
pub Change-Follows : {docs after : List Document} → Change docs after → Pointwise Follows docs after
unfolding record_timeout record_parse_lost release_claim claim_for_processing
    fail_provider_waits_past
Change-Follows {docs} (moved clock i from_statuses to values found h) =
    transition-Follows clock docs i from_statuses to values h
Change-Follows {docs} (moved_many clock t ids from_statuses to values found h) =
    transition_many-Follows clock docs t ids from_statuses to values h
Change-Follows {docs} (timed_out i e) =
    rw e (update_where-Pointwise Follows _ _ Follows-refl (λ d _. Follows-refl d) docs)
Change-Follows {docs} (parse_lost i e) =
    rw e (update_where-Pointwise Follows _ _ Follows-refl (λ d _. Follows-refl d) docs)
Change-Follows {docs} (released i e) =
    rw e (update_where-Pointwise Follows _ _ Follows-refl (λ d _. Follows-refl d) docs)
Change-Follows {docs} (claimed clock i m e) =
    rw e (update_where-Pointwise Follows _ _ Follows-refl (claim_row-Follows clock m i) docs)
Change-Follows {docs} (waited clock i cause retry label found h) =
    to_waiting-Follows clock docs i cause retry label h
Change-Follows {docs} (gave_up clock hours code e) =
    rw e (
      update_where-Pointwise Follows _ _ Follows-refl (fail_wait_row-Follows clock hours code) docs)

-- Any number of calls, in any order.
pub data Changes (docs : List Document) : List Document → Type 0 where
  here : Changes docs docs
  next : {mid after : List Document} → Changes docs mid → Change mid after → Changes docs after

-- The statuses of a document that a person has been given to review.
abbrev pub in_review : Status → Bool
in_review needs_review = true
in_review approved = true
in_review exported = true
in_review rejected = true
in_review _ = false

-- A document that was in review is the same document, and still in review.
abbrev pub StaysInReview : Document → Document → Type 0
StaysInReview d e = (e.id ≡ d.id) × (in_review d.status ≡ true → in_review e.status ≡ true)

is_allowed-in_review :
    (old new : Status) → is_allowed old new ≡ true → in_review old ≡ true → in_review new ≡ true
unfolding is_allowed
is_allowed-in_review needs_review new h r = ground arith
is_allowed-in_review approved new h r = ground arith
is_allowed-in_review exported new h r = ground arith
is_allowed-in_review rejected new h r = ground arith
is_allowed-in_review _ new h r = cc

StaysInReview-Follows :
    (as' bs cs : List Document)
    → Pointwise StaysInReview as' bs
    → Pointwise Follows bs cs
    → Pointwise StaysInReview as' cs
StaysInReview-Follows [] [] [] h k = tt
StaysInReview-Follows [] [] (c ∷ cs) h k = k
StaysInReview-Follows [] (b ∷ bs) cs h k = absurd h
StaysInReview-Follows (a ∷ as') [] cs h k = absurd h
StaysInReview-Follows (a ∷ as') (b ∷ bs) [] h k = k
StaysInReview-Follows (a ∷ as') (b ∷ bs) (c ∷ cs) ((i, r), h) ((j, t, f), k) = (
  (j ∙ i, λ old. is_allowed-in_review b.status c.status f (r old)),
  StaysInReview-Follows as' bs cs h k,
)

StaysInReview-refl : (docs : List Document) → Pointwise StaysInReview docs docs
StaysInReview-refl [] = tt
StaysInReview-refl (d ∷ ds) = ((refl, λ r. r), StaysInReview-refl ds)

-- Once a document has reached review (needs_review, approved, exported or rejected), no sequence of
-- calls takes it out again: it is never processed, failed, held or queued a second time.
pub review_is_final :
    {docs after : List Document} → Changes docs after → Pointwise StaysInReview docs after
review_is_final {docs} here = StaysInReview-refl docs
review_is_final {docs} {after} (next {mid} before step) =
    StaysInReview-Follows docs mid after (review_is_final before) (Change-Follows step)
