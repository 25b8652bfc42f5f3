-- ===== src/Dispatch/Cap.antt =====
-- The cap of `choose` (packages/core/docflow_core/dispatch.py) and the fewest-in-flight rule.
use doc_flow.Prelude.{
  ℕ, zero, suc, ◌+◌, Bool, true, false, ◌≡◌, refl, ◌∙◌, fun_ext, inl, inr, List, [], ◌∷◌, ltb,
  Bool-cases, arith, if◌then◌else◌,
}
use doc_flow.Dispatch.Choose.{
  TenantQueue, Turn, turns, goes_before, first_min, below_cap, min_or, winner, choose_loop, choose,
}

abbrev is_below : ℕ → Turn → Bool
is_below cap t = ltb t.in_flight cap

-- A tenant at the cap never goes before one below it.
at_cap_not_before :
    (cap : ℕ) (t best : Turn)
    → is_below cap best ≡ true
    → is_below cap t ≡ false
    → goes_before t best ≡ false
unfolding goes_before
at_cap_not_before cap t best b a = ground arith

below_before :
    (cap : ℕ) (t best : Turn)
    → is_below cap t ≡ true
    → is_below cap best ≡ false
    → goes_before t best ≡ true
unfolding goes_before
below_before cap t best a b = ground arith

first_min-below :
    (cap : ℕ) (best : Turn) (ts : List Turn)
    → is_below cap best ≡ true
    → first_min best (below_cap cap ts) ≡ first_min best ts
unfolding first_min
first_min-below cap best [] h = refl
first_min-below cap best (t ∷ ts) h = elim (Bool-cases (is_below cap t)) [
  | inl e ↦ rw e (
      first_min-below cap (if goes_before t best then t else best) ts
        (either e (goes_before t best)))
  | inr e ↦ rw (e, at_cap_not_before cap t best h e) (first_min-below cap best ts h)
]
  where
    either : is_below cap t ≡ true → (b : Bool) → is_below cap (if b then t else best) ≡ true
    either e true = e
    either e false = h

abbrev pick : List Turn → Turn → Turn
pick [] whole = whole
pick (b ∷ bs) whole = first_min b bs

min_or-pick :
    (xs : List Turn) (t : Turn) (ts : List Turn) → min_or xs t ts ≡ pick xs (first_min t ts)
min_or-pick [] t ts = refl
min_or-pick (x ∷ xs) t ts = refl

pick-below :
    (cap : ℕ) (best : Turn) (ts : List Turn)
    → is_below cap best ≡ false
    → pick (below_cap cap ts) (first_min best ts) ≡ first_min best ts
unfolding first_min
pick-below cap best [] h = refl
pick-below cap best (t ∷ ts) h = elim (Bool-cases (is_below cap t)) [
  | inl e ↦ rw (e, below_before cap t best e h) (first_min-below cap t ts e)
  | inr e ↦
      rw e
        (pick-below cap (if goes_before t best then t else best) ts (either e (goes_before t best)))
]
  where
    either : is_below cap t ≡ false → (b : Bool) → is_below cap (if b then t else best) ≡ false
    either e true = e
    either e false = h

-- The tenant that wins a slot is the least by `(in flight, served, oldest, id)` among all that have
-- something ready, whatever the cap.
pub winner-first_min : (cap : ℕ) (t : Turn) (ts : List Turn) → winner cap t ts ≡ first_min t ts
unfolding winner
winner-first_min cap t ts = elim (Bool-cases (is_below cap t)) [
  | inl e ↦ rw e (first_min-below cap t ts e)
  | inr e ↦ rw e (min_or-pick (below_cap cap ts) t ts ∙ pick-below cap t ts e)
]

choose_loop-cap :
    (slots cap cap' n : ℕ) (ts : List Turn)
    → choose_loop slots cap n ts ≡ choose_loop slots cap' n ts
unfolding choose_loop
choose_loop-cap zero cap cap' n ts = refl
choose_loop-cap (suc slots) cap cap' n [] = refl
choose_loop-cap (suc slots) cap cap' n (t ∷ ts) = rw (
  winner-first_min cap t ts,
  winner-first_min cap' t ts,
  fun_ext (choose_loop-cap slots cap cap' (n + 1)),
)

-- The cap never changes what is chosen: the tenant with the fewest in flight is below the cap
-- whenever any is, so passing over the tenants at the cap passes over no winner.
pub choose-cap :
    (tenants : List (ℕ × TenantQueue)) (free_slots cap cap' : ℕ)
    → choose tenants free_slots cap ≡ choose tenants free_slots cap'
unfolding choose
choose-cap tenants free_slots cap cap' = choose_loop-cap free_slots cap cap' 0 (turns tenants)
