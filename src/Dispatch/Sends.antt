-- ===== src/Dispatch/Sends.antt =====
-- How many documents one pass of the dispatcher marks, and what becomes of each: `run_pass` of
-- packages/core/docflow_core/dispatch.py.
use doc_flow.Prelude.{
  ℕ, ◌+◌, ◌-◌, ◌≤◌, Bool, true, false, Option, none, some, List, [], ◌∷◌, map, ◌≡◌, refl, filter,
  not, subst, ap, inl, inr, arith, length, max, Bool-cases, if◌then◌else◌,
}
use doc_flow.Dispatch.Choose.{Ready, choose}
use doc_flow.Dispatch.Promise.{length-choose}
use doc_flow.Dispatch.Pass.{
  Queues, read_queues, PassCalls, total_in_flight, mark_each, send_each, pass_result, no_pass,
  probe_of, probes, to_send, run_pass,
}
use doc_flow.Dispatch.Passes.{read_queues-HasKeys}

length-mark_each :
    (calls : PassCalls) (items : List Ready) → length (mark_each calls items) ≤ length items
unfolding mark_each
length-mark_each calls [] = omega arith
length-mark_each calls (item ∷ items) = elim (Bool-cases (calls.mark item.document_id)) [
  | inl e ↦ let ih = length-mark_each calls items in rw e (omega (arith, ih))
  | inr e ↦ let ih = length-mark_each calls items in rw e (omega (arith, ih))
]

-- what a pass marked, and the queues that it read
abbrev pub marked_by : PassCalls → ℕ → ℕ → List Ready
marked_by calls target cap = (run_pass calls target cap).1.0

abbrev pub queues_read : PassCalls → ℕ → Queues
queues_read calls target = read_queues (calls.candidates (max target 1))

marked_by-to_send :
    (calls : PassCalls) (target cap : ℕ)
    → length (marked_by calls target cap) ≤ length (to_send calls target cap)
unfolding run_pass to_send mark_each
marked_by-to_send calls target cap = elim (Bool-cases calls.takes_lock) [
  | inl e ↦ let fewer = length-mark_each calls (to_send calls target cap) in rw e fewer
  | inr e ↦ rw e (omega arith)
]

-- the two ways to choose
to_send-provider :
    (calls : PassCalls) (target cap : ℕ) (b : Bool)
    → calls.provider_down ≡ b
    → to_send calls target cap ≡ (
        if b
        then probes calls
        else choose
            (queues_read calls target)
            (target - total_in_flight (queues_read calls target))
            cap)
unfolding to_send
to_send-provider calls target cap b e =
    ap
      (λ x.
        if x
        then probes calls
        else choose (queues_read calls target) (target - total_in_flight (queues_read calls target))
            cap)
      e

-- While the provider is up a pass never fills more than the target: what was in flight, with what it
-- marks, is at most the target, or nothing is marked.
pub run_pass-target :
    (calls : PassCalls) (target cap : ℕ)
    → calls.provider_down ≡ false
    → total_in_flight (queues_read calls target) + length (marked_by calls target cap)
      ≤ max target (total_in_flight (queues_read calls target))
unfolding to_send
run_pass-target calls target cap up =
    let queues = queues_read calls target in
    let chosen = choose queues (target - total_in_flight queues) cap in
    let fewer : length (marked_by calls target cap) ≤ length chosen =
      subst (λ l. length (marked_by calls target cap) ≤ length l)
        (to_send-provider calls target cap false up) (marked_by-to_send calls target cap) in
    let keys = read_queues-HasKeys (calls.candidates (max target 1)) in
    let slots = length-choose queues (target - total_in_flight queues) cap keys in
    omega (arith, fewer, slots)

-- what `send` and the clearing of a mark answer for a document
abbrev pub goes_out : PassCalls → Ready → Bool
goes_out calls r = calls.send r.tenant_id r.document_id

abbrev pub marked_ids : List Ready → List ℕ
marked_ids items = map (λ r. r.document_id) items

-- Of the marked documents, in their order: those whose send went through are the sent ones, the others
-- are the failed ones, and of these the marks are cleared that can be.
abbrev pub IsSettled : PassCalls → List Ready → List (ℕ × ℕ) × (List ℕ × List ℕ) → Type 0
IsSettled calls marked (sent, (send_failed, cleared)) =
    (sent ≡ map (λ r. (r.tenant_id, r.document_id)) (filter (goes_out calls) marked))
    × (send_failed ≡ marked_ids (filter (λ r. not (goes_out calls r)) marked))
    × (cleared ≡ filter calls.clears send_failed)

-- one turn of the loop
abbrev send_item :
    PassCalls → Ready → List (ℕ × ℕ) × (List ℕ × List ℕ) → List (ℕ × ℕ) × (List ℕ × List ℕ)
send_item calls item (sent, (send_failed, cleared)) =
    if goes_out calls item
    then ((item.tenant_id, item.document_id) ∷ sent, (send_failed, cleared))
    else (
      sent,
      (
        item.document_id ∷ send_failed,
        if calls.clears item.document_id then item.document_id ∷ cleared else cleared,
      ),
    )

send_item-IsSettled :
    (calls : PassCalls) (item : Ready) (items : List Ready) (r : List (ℕ × ℕ) × (List ℕ × List ℕ))
    → IsSettled calls items r
    → IsSettled calls (item ∷ items) (send_item calls item r)
send_item-IsSettled calls item items (sent, (send_failed, cleared)) (h, k, l) =
    elim (Bool-cases (goes_out calls item)) [
      | inl e ↦ rw e (ap (λ x. (item.tenant_id, item.document_id) ∷ x) h, k, l)
      | inr e ↦ elim (Bool-cases (calls.clears item.document_id)) [
        | inl c ↦ rw (e, c) (h, ap (λ x. item.document_id ∷ x) k, ap (λ x. item.document_id ∷ x) l)
        | inr c ↦ rw (e, c) (h, ap (λ x. item.document_id ∷ x) k, l)
      ]
    ]

send_each-IsSettled :
    (calls : PassCalls) (items : List Ready) → IsSettled calls items (send_each calls items)
unfolding send_each
send_each-IsSettled calls [] = (refl, refl, refl)
send_each-IsSettled calls (item ∷ items) =
    send_item-IsSettled calls item items (send_each calls items) (send_each-IsSettled calls items)

mark_each-filter :
    (calls : PassCalls) (items : List Ready)
    → mark_each calls items ≡ filter (λ r. calls.mark r.document_id) items
unfolding mark_each
mark_each-filter calls [] = refl
mark_each-filter calls (item ∷ items) = elim (Bool-cases (calls.mark item.document_id)) [
  | inl e ↦ rw e (ap (λ l. item ∷ l) (mark_each-filter calls items))
  | inr e ↦ rw e (mark_each-filter calls items)
]

-- A pass with the lock marks, of the documents that it is to send, those whose mark is taken, and one
-- without it marks none. Of the marked, in their order, those whose send went through are the sent ones
-- and the others are noted as failed; of the failed ones, and of no others, the marks are cleared where
-- that call goes through.
pub run_pass-sends :
    (calls : PassCalls) (target cap : ℕ)
    → let (result, (marked, cleared)) = run_pass calls target cap in
      (marked ≡ (
        if calls.takes_lock
        then filter (λ r. calls.mark r.document_id) (to_send calls target cap)
        else []))
      × IsSettled calls marked (result.sent, (result.send_failed, cleared))
unfolding run_pass
run_pass-sends calls target cap = go calls.takes_lock
  where
    marked : List Ready
    marked = mark_each calls (to_send calls target cap)

    go :
        (b : Bool)
        → let (result, (marked', cleared)) =
            if b then pass_result calls marked (send_each calls marked) else (no_pass, ([], [])) in
          (marked'
            ≡ (if b then filter (λ r. calls.mark r.document_id) (to_send calls target cap) else []))
          × IsSettled calls marked' (result.sent, (result.send_failed, cleared))
    go true = (mark_each-filter calls _, send_each-IsSettled calls marked)
    go false = (refl, (refl, refl, refl))

-- While the provider is down a pass marks one document at most, and one only if the probe is due.
pub run_pass-probe :
    (calls : PassCalls) (target cap : ℕ)
    → calls.provider_down ≡ true
    → length (marked_by calls target cap) ≤ (if calls.takes_probe then 1 else 0)
unfolding to_send
run_pass-probe calls target cap down =
    let fewer : length (marked_by calls target cap) ≤ length (probes calls) =
      subst (λ l. length (marked_by calls target cap) ≤ length l)
        (to_send-provider calls target cap true down) (marked_by-to_send calls target cap) in
    let bound = due calls.takes_probe in omega (arith, fewer, bound)
  where
    at_most : (o : Option (ℕ × ℕ)) → length (probe_of o) ≤ 1
    at_most none = omega arith
    at_most (some (tenant, document)) = omega arith

    due :
        (b : Bool)
        → length (if b then probe_of calls.probe_candidate else []) ≤ (if b then 1 else 0)
    due true = at_most calls.probe_candidate
    due false = omega arith
