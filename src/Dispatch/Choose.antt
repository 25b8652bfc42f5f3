-- ===== src/Dispatch/Choose.antt =====
-- `Ready`, `TenantQueue` and `choose` of packages/core/docflow_core/dispatch.py. Ids are numbers in
-- the order of their hexadecimal text, and times are microseconds, so `<` on them is the source's.
use doc_flow.Prelude.{
  ℕ, zero, suc, ◌+◌, String, Bool, true, false, Option, none, some, List, [], ◌∷◌, min, filter, ltb,
  ◌==◌, if◌then◌else◌,
}

pub record Ready : Type 0 where
  pub tenant_id : ℕ
  pub document_id : ℕ
  pub lane : String
  pub arrived_at : ℕ

pub record TenantQueue : Type 0 where
  pub in_flight : ℕ
  pub ready : List Ready
  pub last_dispatched_at : Option ℕ

-- What the four dicts of `choose` hold of one tenant that has something ready.
pub record Turn : Type 0 where
  pub tenant : ℕ
  pub in_flight : ℕ
  pub served : ℕ × ℕ
  pub oldest : ℕ
  pub remaining : List Ready

abbrev pub served_of : Option ℕ → ℕ × ℕ
served_of none = (0, 0)
served_of (some t) = (1, t)

abbrev pub min_arrived : Ready → List Ready → ℕ
min_arrived r [] = r.arrived_at
min_arrived r (s ∷ rs) = min r.arrived_at (min_arrived s rs)

abbrev pub turn_of : ℕ → TenantQueue → Ready → List Ready → Turn
turn_of tenant q r rs = record {
  tenant = tenant;
  in_flight = q.in_flight;
  served = served_of q.last_dispatched_at;
  oldest = min_arrived r rs;
  remaining = r ∷ rs;
}

abbrev pub add_turn : ℕ → TenantQueue → List Ready → List Turn → List Turn
add_turn tenant q [] ts = ts
add_turn tenant q (r ∷ rs) ts = turn_of tenant q r rs ∷ ts

-- `... for t, q in tenants.items() if q.ready`
unfoldable pub turns : List (ℕ × TenantQueue) → List Turn
turns [] = []
turns ((tenant, q) ∷ qs) = add_turn tenant q q.ready (turns qs)

-- the comparison of two tuples, one component at a time
abbrev pub lex : ℕ → ℕ → Bool → Bool
lex a b rest = if ltb a b then true else if a == b then rest else false

-- `(in_flight[t], served[t], oldest[t], str(t))` of the first is less than that of the second
unfoldable pub goes_before : Turn → Turn → Bool
goes_before s t = lex s.in_flight t.in_flight (
    lex s.served.0 t.served.0
      (lex s.served.1 t.served.1 (lex s.oldest t.oldest (lex s.tenant t.tenant false))))

-- `min(pool, key=...)`: the first of the least
unfoldable pub first_min : Turn → List Turn → Turn
first_min best [] = best
first_min best (t ∷ ts) = first_min (if goes_before t best then t else best) ts

abbrev pub below_cap : ℕ → List Turn → List Turn
below_cap cap ts = filter (λ t. ltb t.in_flight cap) ts

-- `pool = below_cap or list(remaining)`, and its minimum
abbrev pub min_or : List Turn → Turn → List Turn → Turn
min_or [] t ts = first_min t ts
min_or (b ∷ bs) t ts = first_min b bs

unfoldable pub winner : ℕ → Turn → List Turn → Turn
winner cap t ts = min_or (below_cap cap (t ∷ ts)) t ts

-- the popped turn, or nothing when its list is empty (`del remaining[tenant]`)
abbrev pub popped : ℕ → Turn → List Ready → List Turn → List Turn
popped n t [] ts = ts
popped n t (r ∷ []) ts = ts
popped n t (r ∷ s ∷ rs) ts =
    record t { in_flight = t.in_flight + 1; served = (2, n); remaining = s ∷ rs } ∷ ts

-- the updates of one round, for the tenant that won it as the `n`th of this pass
unfoldable pub serve : ℕ → ℕ → List Turn → List Turn
serve n tenant [] = []
serve n tenant (t ∷ ts) =
    if t.tenant == tenant then popped n t t.remaining ts else t ∷ serve n tenant ts

-- One round for the winner: the document popped and what remains. `remaining` holds no empty list,
-- so the case `[]` is not reached.
abbrev pub round : ℕ → Turn → List Turn → Option (Ready × List Turn)
round n w ts = elim w.remaining [ [] ↦ none | r ∷ _ ↦ some (r, serve n w.tenant ts) ]

abbrev pub chosen_then : Option (Ready × List Turn) → (List Turn → List Ready) → List Ready
chosen_then none k = []
chosen_then (some (r, ts)) k = r ∷ k ts

-- The loop, with the number of slots left and the number chosen so far. A negative number of free
-- slots runs no round, as 0 does.
unfoldable pub choose_loop : ℕ → ℕ → ℕ → List Turn → List Ready
choose_loop zero cap n ts = []
choose_loop (suc slots) cap n [] = []
choose_loop (suc slots) cap n (t ∷ ts) =
    chosen_then (round (n + 1) (winner cap t ts) (t ∷ ts)) (choose_loop slots cap (n + 1))

unfoldable pub choose : List (ℕ × TenantQueue) → ℕ → ℕ → List Ready
unfolding turns choose_loop
choose tenants free_slots cap = choose_loop free_slots cap 0 (turns tenants)
