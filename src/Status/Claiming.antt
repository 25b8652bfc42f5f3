-- ===== src/Status/Claiming.antt =====
-- What the claim, the recorded attempts and the waits of
-- packages/core/docflow_core/document_status.py guarantee of the calls that follow them.
use doc_flow.Prelude.{
  ℕ, ◌+◌, ◌*◌, ◌≤◌, ◌<◌, String, Bool, true, false, ◌||◌, ◌≡◌, ◌≢◌, refl, ◌⊎◌, inl, inr, some, List,
  [], ◌∷◌, ◌++◌, arith, subst, contains, any, All, Bool-cases,
}
use doc_flow.Status.Row.{Document, update_where, returned, has_name}
use doc_flow.Status.Claims.{
  is_timeout_unrecorded, add_timeout, record_timeout, is_processing_live, is_claimable, claim_row,
  claim_for_processing, wait_causes, wait_row, to_waiting, is_past_wait_limit, fail_wait_row,
  fail_provider_waits_past,
}

-- `id` is the primary key.
abbrev pub Unique : List Document → Type 0
Unique [] = Unit
Unique (d ∷ ds) = All (λ e. e.id ≢ d.id) ds × Unique ds

-- An UPDATE of the row `i` under the test `p`, and a later statement's test `q` of the same row.
module _ (i : ℕ) (p q : Document → Bool) (f : Document → Document)
    (p_id : (d : Document) → p d ≡ true → d.id ≡ i) (q_id : (d : Document) → q d ≡ true → d.id ≡ i)
    (keeps_id : (d : Document) → (f d).id ≡ d.id)
    (settles : (d : Document) → p d ≡ true → q (f d) ≡ false) where
  elsewhere :
      (t : Document → Bool)
      → ((d : Document) → t d ≡ true → d.id ≡ i)
      → (d : Document) → d.id ≢ i
      → t d ≡ false
  elsewhere t t_id d h = elim (Bool-cases (t d)) [ inl e ↦ absurd (h (t_id d e)) | inr e ↦ e ]

  any-elsewhere : (ds : List Document) → All (λ e. e.id ≢ i) ds → any p ds ≡ false
  any-elsewhere [] h = refl
  any-elsewhere (d ∷ ds) (h, hs) = rw (elsewhere p p_id d h) (any-elsewhere ds hs)

  any-update_elsewhere :
      (ds : List Document) → All (λ e. e.id ≢ i) ds → any q (update_where p f ds) ≡ false
  any-update_elsewhere [] h = refl
  any-update_elsewhere (d ∷ ds) (h, hs) =
      rw (elsewhere p p_id d h) (rw (elsewhere q q_id d h) (any-update_elsewhere ds hs))

  -- The UPDATE found the row: then the later statement does not.
  any-update_where :
      (ds : List Document) → Unique ds → any p ds ≡ true → any q (update_where p f ds) ≡ false
  any-update_where [] u h = cc
  any-update_where (d ∷ ds) (fresh, u) h = elim (Bool-cases (p d)) [
    | inl e ↦
        let others : All (λ e. e.id ≢ i) ds =
          subst (λ k. All (λ e. e.id ≢ k) ds) (p_id d e) fresh in
        rw e (rw (settles d e) (any-update_elsewhere ds others))
    | inr e ↦ rw e (tail e (any-update_where ds u) (Bool-cases (q d)))
  ]
    where
      tail :
          p d ≡ false
          → (any p ds ≡ true → any q (update_where p f ds) ≡ false)
          → (q d ≡ true) ⊎ (q d ≡ false)
          → (q d || any q (update_where p f ds)) ≡ false
      tail e ih (inl t) =
          let others : All (λ e. e.id ≢ i) ds =
            subst (λ k. All (λ e. e.id ≢ k) ds) (q_id d t) fresh in
          cc (rw (e, any-elsewhere ds others) at h)
      tail e ih (inr t) = rw t (ih (rw e at h))

-- A claim that succeeded excludes every other claim of the document until it is older than the
-- stuck timeout: a redelivered or duplicated job is a no-op.
pub claim_excludes :
    (clock later : ℕ) (docs : List Document) (document_id stale_after_min : ℕ)
    → Unique docs
    → (claim_for_processing clock docs document_id stale_after_min).1 ≡ true
    → later ≤ clock + stale_after_min * 60
    → let after = (claim_for_processing clock docs document_id stale_after_min).0 in
      (claim_for_processing later after document_id stale_after_min).1 ≡ false
unfolding claim_for_processing
claim_excludes clock later docs i m u h fresh =
    any-update_where i (is_claimable clock m i) (is_claimable later m i) (claim_row clock)
      (λ d e. ground arith) (λ d e. ground arith) (λ d. refl) (λ d e. ground arith) docs u h

-- A document sent to wait is not claimed again before its `retry_at`.
pub wait_holds_off_claims :
    (clock later : ℕ) (docs : List Document) (document_id : ℕ) (cause : String) (retry_after : ℕ)
    (error_label : String) (stale_after_min : ℕ) {after : List Document}
    → Unique docs
    → to_waiting clock docs document_id cause retry_after error_label ≡ some (after, true)
    → later < clock + retry_after
    → (claim_for_processing later after document_id stale_after_min).1 ≡ false
unfolding to_waiting claim_for_processing
wait_holds_off_claims clock later docs i cause retry label m {after} u h early =
    elim (Bool-cases (has_name cause wait_causes)) [
      | inl known ↦
          let row = wait_row clock cause retry label in
          let e : after ≡ update_where (is_processing_live i) row docs = cc (rw known at h) in
          let found : any (is_processing_live i) docs ≡ true = cc (rw known at h) in
          rw e (
            any-update_where i (is_processing_live i) (is_claimable later m i) row
              (λ d e. ground arith) (λ d e. ground arith) (λ d. refl) (λ d e. ground arith) docs u
              found)
      | inr unknown ↦ cc (rw unknown at h)
    ]

-- An UPDATE whose result no longer meets its own condition finds nothing the second time.
update_where_settled :
    (p : Document → Bool) (f : Document → Document)
    → ((d : Document) → p d ≡ true → p (f d) ≡ false)
    → (ds : List Document)
    → (update_where p f (update_where p f ds) ≡ update_where p f ds)
      × (any p (update_where p f ds) ≡ false)
update_where_settled p f settles [] = (refl, refl)
update_where_settled p f settles (d ∷ ds) =
    let (same_table, none_left) = update_where_settled p f settles ds in
    elim (Bool-cases (p d)) [
      | inl e ↦ (rw e (rw (settles d e) (rw same_table)), rw e (rw (settles d e) none_left))
      | inr e ↦ (rw (e, e) (rw same_table), rw (e, e) none_left)
    ]

contains-append_self : (n : ℕ) (xs : List ℕ) → contains n (xs ++ n ∷ []) ≡ true
contains-append_self n [] = ground arith
contains-append_self n (x ∷ xs) = ground (arith, contains-append_self n xs)

add_timeout-recorded :
    (i : ℕ) (d : Document)
    → is_timeout_unrecorded i d ≡ true
    → is_timeout_unrecorded i (add_timeout d) ≡ false
add_timeout-recorded i d h =
    rw (contains-append_self d.processing_attempts d.timeout_attempts) (ground arith)

-- Recording a timeout a second time writes nothing and says so: a soft and a hard timeout of one
-- attempt count once.
pub record_timeout_idempotent :
    (docs : List Document) (document_id : ℕ)
    → let after = (record_timeout docs document_id).0 in
      record_timeout after document_id ≡ (after, false)
unfolding record_timeout
record_timeout_idempotent docs i =
    let (table, none_left) =
      update_where_settled (is_timeout_unrecorded i) add_timeout (add_timeout-recorded i) docs in
    cc

-- After the limit has been enforced no document is still waiting on the model provider past it,
-- and enforcing it again at that time changes nothing and returns no id.
pub provider_waits_settled :
    (clock : ℕ) (docs : List Document) (hours : ℕ) (code : String)
    → let after = (fail_provider_waits_past clock docs hours code).0 in
      (any (is_past_wait_limit clock hours) after ≡ false)
      × (fail_provider_waits_past clock after hours code ≡ (after, []))
unfolding fail_provider_waits_past
provider_waits_settled clock docs hours code =
    let (table, none_left) =
      update_where_settled (is_past_wait_limit clock hours) (fail_wait_row clock code) (λ d e. refl)
        docs in
    (none_left, cc (table, returned_none (is_past_wait_limit clock hours) _ none_left))
  where
    returned_none :
        (p : Document → Bool) (ds : List Document) → any p ds ≡ false → returned p ds ≡ []
    returned_none p [] h = refl
    returned_none p (d ∷ ds) h = elim (Bool-cases (p d)) [
      | inl e ↦ cc (rw e at h)
      | inr e ↦ rw e (returned_none p ds (rw e at h))
    ]
