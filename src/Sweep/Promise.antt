-- ===== src/Sweep/Promise.antt =====
-- What the sweep of packages/core/docflow_core/stuck_documents.py promises for each document.
use doc_flow.Prelude.{
  ℕ, ◌≡◌, ◌⊎◌, refl, sym, ap, subst, ◌∙◌, Bool, true, false, not, ◌&&◌, ◌||◌, none, List, [], ◌∷◌,
  map, filter, any, All, All-map, contains, ◌==◌, if◌then◌else◌, is_some, inl, inr, Bool-cases,
  arith,
}
use doc_flow.Status.Table.{Status, pending, processing, same, same→eq}
use doc_flow.Status.Row.{Document, update_where}
use doc_flow.Status.Ops.{ok, ◌>>=◌}
use doc_flow.Status.Claims.{
  is_claimable, is_past_wait_limit, fail_wait_row, fail_provider_waits_past, is_stale,
}
use doc_flow.Status.Claiming.{Unique}
use doc_flow.Retry.{Decision}
use doc_flow.Sweep.Tables.{
  Tables, SweepResult, Effect, provider_max_wait_hours, provider_wait_limit_code,
}
use doc_flow.Sweep.Visit.{is_left_behind, is_older, stale_rows, undispatched}
use doc_flow.Sweep.Run.{finish, sweep_tenant}
use doc_flow.Sweep.Rows.{any-sort}
use doc_flow.Sweep.Loop.{decided, both, left_dispatched, is_retried}
use doc_flow.Sweep.Settles.{swept, retried_ids, stale_rows-AllSwept}

module _ (clock tenant_id minutes max_attempts : ℕ) where
  -- the wait limit, on one row
  abbrev pub past_limit : Document → Document
  past_limit d =
      if is_past_wait_limit clock provider_max_wait_hours d
      then fail_wait_row clock provider_wait_limit_code d
      else d

  -- the whole sweep, on one row
  abbrev pub after_sweep : Document → Document
  after_sweep d = past_limit (swept clock minutes max_attempts d)

  update_where-map :
      (p : Document → Bool) (f : Document → Document) (docs : List Document)
      → update_where p f docs ≡ map (λ d. if p d then f d else d) docs
  update_where-map p f [] = refl
  update_where-map p f (d ∷ docs) =
      ap (λ l. (if p d then f d else d) ∷ l) (update_where-map p f docs)

  map-map :
      (f g : Document → Document) (docs : List Document)
      → map g (map f docs) ≡ map (λ d. g (f d)) docs
  map-map f g [] = refl
  map-map f g (d ∷ docs) = ap (λ l. g (f d) ∷ l) (map-map f g docs)

  limited :
      (docs : List Document)
      → (fail_provider_waits_past clock docs provider_max_wait_hours provider_wait_limit_code).0
        ≡ map past_limit docs
  unfolding fail_provider_waits_past
  limited docs =
      update_where-map (is_past_wait_limit clock provider_max_wait_hours)
        (fail_wait_row clock provider_wait_limit_code) docs

  -- For a table where the ids are unique, the sweep returns, and its table is the one before with each row
  -- treated by itself: one left behind is kept to be tried again, failed or sent back to wait by its own
  -- columns alone, and then failed if it has waited past the limit. Queued again are those kept to be
  -- tried, the oldest first.
  pub sweep_tenant-rows :
      (tables : Tables)
      → Unique tables.documents
      → (out : Tables × SweepResult × List Effect) × (sweep_tenant clock tenant_id minutes
            max_attempts tables
          ≡ ok out)
        × (out.0.documents ≡ map after_sweep tables.documents)
        × (out.1.requeued
            ≡ retried_ids clock minutes max_attempts (stale_rows clock minutes tables.documents))
  unfolding sweep_tenant
  sweep_tenant-rows tables u =
      let (s, ran, documents, requeued) =
        stale_rows-AllSwept clock minutes max_attempts tables.documents u in
      (
        finish clock tenant_id minutes tables s,
        ap (λ x. x >>= λ s. ok (finish clock tenant_id minutes tables s)) ran,
        limited s.documents
            ∙ ap (map past_limit) documents
            ∙ map-map (swept clock minutes max_attempts) past_limit tables.documents,
        requeued,
      )

  -- The document was queued again, and the worker that takes it up is let through by the claim.
  abbrev pub IsTaken : List ℕ → Document → Type 0
  IsTaken requeued d =
      (contains d.id requeued ≡ true) × (is_claimable clock minutes d.id (after_sweep d) ≡ true)

  -- The document is failed, or waits for the dispatcher.
  abbrev pub is_released : Document → Bool
  is_released d =
      same d.status Status.failed || same d.status pending && not (is_some d.dispatched_at)

  abbrev pub Unstuck : List ℕ → Document → Type 0
  Unstuck requeued d =
      is_left_behind clock minutes d ≡ true
      → IsTaken requeued d ⊎ (is_released (after_sweep d) ≡ true)

  any-map-contains :
      (i : ℕ) (rows : List Document) → contains i (map (λ r. r.id) rows) ≡ any (λ r. i == r.id) rows
  any-map-contains i [] = refl
  any-map-contains i (r ∷ rows) = ap (λ b. i == r.id || b) (any-map-contains i rows)

  any-filter :
      (p q : Document → Bool) (rows : List Document)
      → any q (filter p rows) ≡ any (λ r. p r && q r) rows
  any-filter p q [] = refl
  any-filter p q (r ∷ rows) = elim (Bool-cases (p r)) [
    | inl e ↦ rw (e, any-filter p q rows)
    | inr e ↦ rw (e, any-filter p q rows)
  ]

  any-member :
      (docs : List Document)
      → All (λ d. (q : Document → Bool) → q d ≡ true → any q docs ≡ true) docs
  any-member [] = tt
  any-member (d ∷ docs) =
      ((λ q h. rw h), All-map (λ x f q h. later (q d) (f q h)) docs (any-member docs))
    where
      later : (b : Bool) {c : Bool} → c ≡ true → (b || c) ≡ true
      later true h = refl
      later false h = h

  requeued-contains :
      (i : ℕ) (docs : List Document)
      → contains i (retried_ids clock minutes max_attempts (stale_rows clock minutes docs))
        ≡ any
            (λ r.
              is_left_behind clock minutes r
              && (is_retried clock minutes max_attempts r && i == r.id))
            docs
  requeued-contains i docs =
      any-map-contains i
        (filter (is_retried clock minutes max_attempts) (stale_rows clock minutes docs))
      ∙ any-filter (is_retried clock minutes max_attempts) (λ r. i == r.id)
          (stale_rows clock minutes docs)
      ∙ any-sort is_older (λ r. is_retried clock minutes max_attempts r && i == r.id)
          (filter (is_left_behind clock minutes) docs)
      ∙ any-filter (is_left_behind clock minutes) _ docs

  is_pending : (d : Document) → same d.status processing ≡ true → same d.status pending ≡ false
  is_pending d h = ap (λ s. same s pending) (same→eq d.status processing h)

  no_longer : (d : Document) → same d.status pending ≡ false → past_limit d ≡ d
  no_longer d h = rw h

  retried-swept :
      (d : Document)
      → is_left_behind clock minutes d ≡ true
      → same d.status processing ≡ true
      → decided clock minutes max_attempts d ≡ Decision.retry
      → after_sweep d ≡ d
  retried-swept d left h e = ap past_limit kept ∙ no_longer d (is_pending d h)
    where
      kept : swept clock minutes max_attempts d ≡ d
      kept = rw (left, h, e)

  -- what is in processing and left behind has a stale claim
  left_stale :
      (d : Document)
      → is_left_behind clock minutes d ≡ true
      → same d.status processing ≡ true
      → is_claimable clock minutes d.id d ≡ true
  left_stale d left h =
      let live = both clock minutes max_attempts (not d.deleted) _ left in
      let lost : (is_stale clock minutes d.processing_started_at || false) ≡ true =
        rw (h, is_pending d h) at live.1 in
      rw (h, is_pending d h, live.0) (claimed (is_stale clock minutes d.processing_started_at) lost)
    where
      claimed : (b : Bool) → (b || false) ≡ true → ((d.id == d.id) && b) ≡ true
      claimed b k = ground arith

  retried-IsTaken :
      (d : Document) (docs : List Document)
      → ((q : Document → Bool) → q d ≡ true → any q docs ≡ true)
      → is_left_behind clock minutes d ≡ true
      → same d.status processing ≡ true
      → decided clock minutes max_attempts d ≡ Decision.retry
      → IsTaken (retried_ids clock minutes max_attempts (stale_rows clock minutes docs)) d
  retried-IsTaken d docs found left h e = (
    requeued-contains d.id docs
        ∙ found
            (λ r.
              is_left_behind clock minutes r
              && (is_retried clock minutes max_attempts r && d.id == r.id))
            chosen,
    subst (λ x. is_claimable clock minutes d.id x ≡ true) (sym (retried-swept d left h e))
        (left_stale d left h),
  )
    where
      own_id : (d.id == d.id) ≡ true
      own_id = ground arith

      chosen :
          (is_left_behind clock minutes d
            && (is_retried clock minutes max_attempts d && d.id == d.id))
          ≡ true
      chosen = rw (left, h, e, own_id)

  failed-released :
      (d : Document)
      → is_left_behind clock minutes d ≡ true
      → same d.status processing ≡ true
      → (cause : _) → decided clock minutes max_attempts d ≡ Decision.fail cause
      → is_released (after_sweep d) ≡ true
  failed-released d left h cause e = rw (left, h, e)

  waiting-released :
      (d : Document)
      → is_left_behind clock minutes d ≡ true
      → same d.status processing ≡ false
      → is_released (after_sweep d) ≡ true
  waiting-released d left h =
      subst (λ x. is_released (past_limit x) ≡ true) (sym back)
        (held (undispatched d)
          (both clock minutes max_attempts (same d.status pending) _ dispatched).0 refl)
    where
      dispatched : (same d.status pending && is_some d.dispatched_at) ≡ true
      dispatched = left_dispatched clock minutes max_attempts d left h

      back : swept clock minutes max_attempts d ≡ undispatched d
      back = rw (left, h)

      or_true : (b : Bool) → (b || true) ≡ true
      or_true true = refl
      or_true false = refl

      held :
          (x : Document)
          → same x.status pending ≡ true
          → x.dispatched_at ≡ none
          → is_released (past_limit x) ≡ true
      held x p n = elim (Bool-cases (is_past_wait_limit clock provider_max_wait_hours x)) [
        | inl e ↦ rw e
        | inr e ↦ rw (e, p, n) (or_true (same x.status Status.failed))
      ]

  row-Unstuck :
      (d : Document) (docs : List Document)
      → ((q : Document → Bool) → q d ≡ true → any q docs ≡ true)
      → Unstuck (retried_ids clock minutes max_attempts (stale_rows clock minutes docs)) d
  row-Unstuck d docs found left = elim (Bool-cases (same d.status processing)) [
    | inl h ↦ by_decision (decided clock minutes max_attempts d) refl h
    | inr h ↦ inr (waiting-released d left h)
  ]
    where
      by_decision :
          (decision : Decision)
          → decided clock minutes max_attempts d ≡ decision
          → same d.status processing ≡ true
          → IsTaken (retried_ids clock minutes max_attempts (stale_rows clock minutes docs)) d
            ⊎ (is_released (after_sweep d) ≡ true)
      by_decision Decision.retry e h = inl (retried-IsTaken d docs found left h e)
      by_decision (Decision.fail cause) e h = inr (failed-released d left h cause e)

  -- No document stays stuck. For a table where the ids are unique, the sweep returns, and each document
  -- that was left behind is then failed, or waits for the dispatcher, or is on the list that is queued
  -- again and free to be claimed.
  pub sweep_tenant-Unstuck :
      (tables : Tables)
      → Unique tables.documents
      → (out : Tables × SweepResult × List Effect) × (sweep_tenant clock tenant_id minutes
            max_attempts tables
          ≡ ok out)
        × (out.0.documents ≡ map after_sweep tables.documents)
        × All (Unstuck out.1.requeued) tables.documents
  sweep_tenant-Unstuck tables u =
      let (out, ran, documents, requeued) = sweep_tenant-rows tables u in
      (
        out,
        ran,
        documents,
        subst (λ ids. All (Unstuck ids) tables.documents) (sym requeued)
            (All-map (λ d found. row-Unstuck d tables.documents found) tables.documents
              (any-member tables.documents)),
      )
