-- ===== src/Allowance/Once.antt =====
-- Sequences of calls of `record_thresholds` of
-- packages/core/docflow_core/allowance.py.
use doc_flow.Prelude.{
  ℕ, suc, ◌+◌, ◌≤◌, ◌≡◌, true, false, List, [], ◌∷◌, ◌++◌, ◌==◌, if◌then◌else◌, inl, inr,
  Bool-cases, arith,
}
use doc_flow.Allowance.{
  Usage, Notice, notice_beq, noticed, is_below, notice_of, fire, fire_each, record_thresholds,
  allowance_thresholds,
}

-- How often a notice was sent.
abbrev pub times : Notice → List Notice → ℕ
times n [] = 0
times n (m ∷ ms) = let rest = times n ms in if notice_beq n m then suc rest else rest

abbrev seen : Notice → List Notice → ℕ
seen n notices = if noticed n notices then 1 else 0

-- Calls for any tenants, with whatever their usage is by then, in the order they are made.
unfoldable pub calls : List (ℕ × Usage) → List Notice → List Notice × List Notice
calls [] notices = (notices, [])
calls ((tenant, a) ∷ more) notices =
    let (now, fired) = record_thresholds tenant a notices in
    let (after, rest) = calls more now in (after, fired ++ rest)

seen_once : (n : Notice) (ns : List Notice) → seen n ns ≤ 1
seen_once n ns = elim (Bool-cases (noticed n ns)) [
  | inl e ↦ rw e (omega arith)
  | inr e ↦ rw e (omega arith)
]

times-append : (n : Notice) (xs ys : List Notice) → times n (xs ++ ys) ≡ times n xs + times n ys
times-append n [] ys = omega arith
times-append n (x ∷ xs) ys = elim (Bool-cases (notice_beq n x)) [
  | inl e ↦ rw e (omega (arith, times-append n xs ys))
  | inr e ↦ rw e (times-append n xs ys)
]

same_notice : (n m : Notice) → notice_beq n m ≡ true → n ≡ m
same_notice n m h =
    let t : n.tenant_id ≡ m.tenant_id = ground arith in
    let k : n.month ≡ m.month = ground arith in
    let p : n.threshold_pct ≡ m.threshold_pct = ground arith in
    λ i. record { tenant_id = t i; month = k i; threshold_pct = p i }

-- A table and what was sent on the way to the next table.
abbrev Fair : Notice → List Notice → List Notice × List Notice → Type 0
Fair n before (after, fired) = times n fired + seen n before ≤ seen n after

new_notice : (n m : Notice) (ns : List Notice) → noticed m ns ≡ false → Fair n ns (m ∷ ns, m ∷ [])
new_notice n m ns e = elim (Bool-cases (notice_beq n m)) [
  | inl h ↦
      let not_yet : noticed n ns ≡ false = rw (same_notice n m h) e in rw (h, not_yet) (omega arith)
  | inr h ↦ rw h (omega arith)
]

fire-Fair :
    (n : Notice) (tenant : ℕ) (a : Usage) (pct : ℕ) (ns : List Notice)
    → Fair n ns (fire tenant a pct ns)
unfolding fire
fire-Fair n tenant a pct ns = elim (Bool-cases (is_below pct a)) [
  | inl e ↦ rw e (omega arith)
  | inr e ↦ elim (Bool-cases (noticed (notice_of tenant a pct) ns)) [
    | inl e' ↦ rw (e, e') (omega arith)
    | inr e' ↦ rw (e, e') (new_notice n (notice_of tenant a pct) ns e')
  ]
]

fire_each-Fair :
    (n : Notice) (tenant : ℕ) (a : Usage) (pcts : List ℕ) (ns : List Notice)
    → Fair n ns (fire_each tenant a pcts ns)
unfolding fire_each
fire_each-Fair n tenant a [] ns = omega arith
fire_each-Fair n tenant a (pct ∷ pcts) ns = omega (
  arith,
  fire-Fair n tenant a pct ns,
  fire_each-Fair n tenant a pcts (fire tenant a pct ns).0,
  times-append n (fire tenant a pct ns).1 (fire_each tenant a pcts (fire tenant a pct ns).0).1,
)

record_thresholds-Fair :
    (n : Notice) (tenant : ℕ) (a : Usage) (ns : List Notice)
    → Fair n ns (record_thresholds tenant a ns)
unfolding record_thresholds
record_thresholds-Fair n tenant a ns = elim (Bool-cases (a.allowance == 0)) [
  | inl e ↦ rw e (omega arith)
  | inr e ↦ rw e (fire_each-Fair n tenant a allowance_thresholds ns)
]

calls-Fair : (n : Notice) (cs : List (ℕ × Usage)) (ns : List Notice) → Fair n ns (calls cs ns)
unfolding calls
calls-Fair n [] ns = omega arith
calls-Fair n ((tenant, a) ∷ cs) ns = omega (
  arith,
  record_thresholds-Fair n tenant a ns,
  calls-Fair n cs (record_thresholds tenant a ns).0,
  times-append n (record_thresholds tenant a ns).1 (calls cs (record_thresholds tenant a ns).0).1,
)

-- Over any calls, whatever the usage is at each and whatever was in the table before, the notice of a
-- threshold fires at most once for a tenant and a month.
pub calls_fire_once :
    (n : Notice) (cs : List (ℕ × Usage)) (ns : List Notice) → times n (calls cs ns).1 ≤ 1
calls_fire_once n cs ns = omega (arith, calls-Fair n cs ns, seen_once n (calls cs ns).0)
