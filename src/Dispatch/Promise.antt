-- ===== src/Dispatch/Promise.antt =====
-- The turn-taking promise of `choose` (packages/core/docflow_core/dispatch.py), stated over the dict
-- of queues that it is given.
use doc_flow.Prelude.{
  ℕ, ◌+◌, ◌≤◌, ◌<◌, true, false, ◌≡◌, ◌≢◌, refl, ◌∙◌, ap, inl, inr, List, [], ◌∷◌, ◌++◌, All,
  length, min, ◌==◌, ==_iff, Bool-cases, arith, subst, if◌then◌else◌,
}
use doc_flow.Dispatch.Choose.{Ready, TenantQueue, Turn, turns, turn_of, add_turn, choose}
use doc_flow.Dispatch.Turns.{queued, load, total, Distinct, Tidy}
use doc_flow.Dispatch.Slots.{chosen_of, length-choose_loop, chosen_of-prefix, fair}

-- A dict has each key once, and `_read_queues` files a document under its own tenant.
abbrev pub HasKeys : List (ℕ × TenantQueue) → Type 0
HasKeys [] = Unit
HasKeys ((k, q) ∷ qs) = All (λ e. e.0 ≢ k) qs × All (λ r. r.tenant_id ≡ k) q.ready × HasKeys qs

-- `tenants[u].ready`, empty for an unknown tenant
abbrev pub ready_of : ℕ → List (ℕ × TenantQueue) → List Ready
ready_of u [] = []
ready_of u ((k, q) ∷ qs) = if k == u then q.ready else ready_of u qs

-- `tenants[u].in_flight`
abbrev pub in_flight_of : ℕ → List (ℕ × TenantQueue) → ℕ
in_flight_of u [] = 0
in_flight_of u ((k, q) ∷ qs) = if k == u then q.in_flight else in_flight_of u qs

abbrev pub total_ready : List (ℕ × TenantQueue) → ℕ
total_ready [] = 0
total_ready ((k, q) ∷ qs) = length q.ready + total_ready qs

-- One tenant of the dict, kept as a turn only if it has something ready.
add_turn-All :
    (P : Turn → Type 0) (k : ℕ) (q : TenantQueue) (l : List Ready) (ts : List Turn)
    → ((r : Ready) (rs : List Ready) → l ≡ r ∷ rs → P (turn_of k q r rs))
    → All P ts
    → All P (add_turn k q l ts)
add_turn-All P k q [] ts h hs = hs
add_turn-All P k q (r ∷ rs) ts h hs = (h r rs refl, hs)

turns-All :
    (k : ℕ) (qs : List (ℕ × TenantQueue))
    → All (λ e. e.0 ≢ k) qs
    → All (λ t. t.tenant ≢ k) (turns qs)
unfolding turns
turns-All k [] h = tt
turns-All k ((j, q) ∷ qs) (h, hs) =
    add_turn-All (λ t. t.tenant ≢ k) j q q.ready (turns qs) (λ r rs e. h) (turns-All k qs hs)

add_turn-Distinct :
    (k : ℕ) (q : TenantQueue) (l : List Ready) (ts : List Turn)
    → All (λ t. t.tenant ≢ k) ts
    → Distinct ts
    → Distinct (add_turn k q l ts)
add_turn-Distinct k q [] ts h d = d
add_turn-Distinct k q (r ∷ rs) ts h d = (h, d)

turns-Tidy : (qs : List (ℕ × TenantQueue)) → HasKeys qs → Tidy (turns qs)
unfolding turns
turns-Tidy [] h = record { distinct = tt; full = tt; owned = tt }
turns-Tidy ((k, q) ∷ qs) (fresh, own, h) =
    let ih = turns-Tidy qs h in
    record {
      distinct = add_turn-Distinct k q q.ready (turns qs) (turns-All k qs fresh) ih.distinct;
      full =
          add_turn-All (λ t. t.remaining ≢ []) k q q.ready (turns qs) (λ r rs e. λ empty. cc)
            ih.full;
      owned =
          add_turn-All (λ t. All (λ r. r.tenant_id ≡ t.tenant) t.remaining) k q q.ready (turns qs)
            (λ r rs e. subst (λ l. All (λ r. r.tenant_id ≡ k) l) e own) ih.owned;
    }

queued_absent : (u : ℕ) (qs : List (ℕ × TenantQueue)) → All (λ e. e.0 ≢ u) qs → ready_of u qs ≡ []
queued_absent u [] h = refl
queued_absent u ((k, q) ∷ qs) (h, hs) =
    let differ : (k == u) ≡ false = ground arith in rw differ (queued_absent u qs hs)

queued-turns :
    (u : ℕ) (qs : List (ℕ × TenantQueue)) → HasKeys qs → queued u (turns qs) ≡ ready_of u qs
unfolding turns
queued-turns u [] h = refl
queued-turns u ((k, q) ∷ qs) (fresh, own, h) = elim (Bool-cases (k == u)) [
  | inl e ↦
      let none_else : ready_of u qs ≡ [] =
        queued_absent u qs (subst (λ v. All (λ e. e.0 ≢ v) qs) ((==_iff k u).0 e) fresh) in
      rw e (head e (queued-turns u qs h ∙ none_else) q.ready)
  | inr e ↦ rw e (tail e (queued-turns u qs h) q.ready)
]
  where
    head :
        (k == u) ≡ true
        → queued u (turns qs) ≡ []
        → (l : List Ready) → queued u (add_turn k q l (turns qs)) ≡ l
    head e absent [] = absent
    head e absent (r ∷ rs) = rw e

    tail :
        (k == u) ≡ false
        → queued u (turns qs) ≡ ready_of u qs
        → (l : List Ready) → queued u (add_turn k q l (turns qs)) ≡ ready_of u qs
    tail e ih [] = ih
    tail e ih (r ∷ rs) = rw e ih

load-turns :
    (u : ℕ) (qs : List (ℕ × TenantQueue))
    → HasKeys qs
    → ready_of u qs ≢ []
    → load u (turns qs) ≡ in_flight_of u qs
unfolding turns
load-turns u [] h some_ready = absurd (some_ready refl)
load-turns u ((k, q) ∷ qs) (fresh, own, h) some_ready = elim (Bool-cases (k == u)) [
  | inl e ↦ rw e (head e q.ready (rw e at some_ready))
  | inr e ↦ rw e (tail e (load-turns u qs h (rw e at some_ready)) q.ready)
]
  where
    head :
        (k == u) ≡ true
        → (l : List Ready) → l ≢ []
        → load u (add_turn k q l (turns qs)) ≡ q.in_flight
    head e [] left = absurd (left refl)
    head e (r ∷ rs) left = rw e

    tail :
        (k == u) ≡ false
        → load u (turns qs) ≡ in_flight_of u qs
        → (l : List Ready) → load u (add_turn k q l (turns qs)) ≡ in_flight_of u qs
    tail e ih [] = ih
    tail e ih (r ∷ rs) = rw e ih

total-turns : (qs : List (ℕ × TenantQueue)) → total (turns qs) ≡ total_ready qs
unfolding turns
total-turns [] = refl
total-turns ((k, q) ∷ qs) = go q.ready (total-turns qs)
  where
    go :
        (l : List Ready)
        → total (turns qs) ≡ total_ready qs
        → total (add_turn k q l (turns qs)) ≡ length l + total_ready qs
    go [] ih = omega arith
    go (r ∷ rs) ih = omega arith

-- No slot is left idle while a document may go, and no more are given out than are free.
pub length-choose :
    (tenants : List (ℕ × TenantQueue)) (free_slots cap : ℕ)
    → HasKeys tenants
    → length (choose tenants free_slots cap) ≡ min free_slots (total_ready tenants)
unfolding choose
length-choose qs n cap h =
    length-choose_loop cap n 0 (turns qs) (turns-Tidy qs h) ∙ ap (min n) (total-turns qs)

-- What is chosen of a tenant is the front of its own queue, in its own order.
pub choose_in_order :
    (tenants : List (ℕ × TenantQueue)) (free_slots cap u : ℕ)
    → HasKeys tenants
    → (left : List Ready) × (chosen_of u (choose tenants free_slots cap) ++ left
        ≡ ready_of u tenants)
unfolding choose
choose_in_order qs n cap u h =
    let (left, e) = chosen_of-prefix cap n 0 u (turns qs) (turns-Tidy qs h) in
    (left, e ∙ queued-turns u qs h)

-- Slots are shared evenly: a tenant given a slot ends with at most one document more in flight than
-- any tenant that is left waiting with something ready.
pub choose_fair :
    (tenants : List (ℕ × TenantQueue)) (free_slots cap s t : ℕ)
    → HasKeys tenants
    → chosen_of s (choose tenants free_slots cap) ≢ []
    → length (chosen_of t (choose tenants free_slots cap)) < length (ready_of t tenants)
    → in_flight_of s tenants + length (chosen_of s (choose tenants free_slots cap))
      ≤ in_flight_of t tenants + length (chosen_of t (choose tenants free_slots cap)) + 1
unfolding choose
choose_fair qs n cap s t h got short =
    let tidy = turns-Tidy qs h in
    let (left, e) = chosen_of-prefix cap n 0 s (turns qs) tidy in
    let s_ready : ready_of s qs ≢ [] = nonempty _ _ _ got (e ∙ queued-turns s qs h) in
    let t_ready : ready_of t qs ≢ [] = nonempty_of_length _ _ short in
    rw (← load-turns s qs h s_ready) (
      rw (← load-turns t qs h t_ready)
        (fair cap n 0 s t (turns qs) tidy got (rw (queued-turns t qs h) short)))
  where
    nonempty : (xs ys zs : List Ready) → xs ≢ [] → xs ++ ys ≡ zs → zs ≢ []
    nonempty [] ys zs f e = absurd (f refl)
    nonempty (x ∷ xs) ys zs f e = λ empty. cc

    nonempty_of_length : (m : ℕ) (xs : List Ready) → m < length xs → xs ≢ []
    nonempty_of_length m [] f = absurd (omega arith)
    nonempty_of_length m (x ∷ xs) f = λ e. cc
