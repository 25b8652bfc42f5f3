-- ===== src/Dispatch/Turns.antt =====
-- One round of `choose` (packages/core/docflow_core/dispatch.py): what the winner is, and what
-- serving it changes.
use doc_flow.Prelude.{
  ℕ, suc, ◌+◌, ◌≤◌, Bool, true, false, ◌≡◌, ◌≢◌, refl, sym, ◌∙◌, ap, ◌⊎◌, inl, inr, Option, none,
  some, List, [], ◌∷◌, All, length, ◌==◌, ==_iff, ==_refl, Bool-cases, arith, subst, if◌then◌else◌,
}
use doc_flow.Dispatch.Choose.{
  Ready, Turn, chosen_then, goes_before, first_min, popped, serve, choose_loop,
}
use doc_flow.Dispatch.Cap.{winner-first_min}

-- What a tenant still has ready, and how many it has in flight.
abbrev pub queued : ℕ → List Turn → List Ready
queued u [] = []
queued u (t ∷ ts) = if t.tenant == u then t.remaining else queued u ts

abbrev pub load : ℕ → List Turn → ℕ
load u [] = 0
load u (t ∷ ts) = if t.tenant == u then t.in_flight else load u ts

abbrev pub total : List Turn → ℕ
total [] = 0
total (t ∷ ts) = length t.remaining + total ts

abbrev pub Distinct : List Turn → Type 0
Distinct [] = Unit
Distinct (t ∷ ts) = All (λ x. x.tenant ≢ t.tenant) ts × Distinct ts

-- Every tenant stands once, has something ready, and owns what it has ready.
pub record Tidy (ts : List Turn) : Type 0 where
  pub distinct : Distinct ts
  pub full : All (λ t. t.remaining ≢ []) ts
  pub owned : All (λ t. All (λ r. r.tenant_id ≡ t.tenant) t.remaining) ts

abbrev Among : Turn → List Turn → Type 0
Among w [] = ⊥
Among w (t ∷ ts) = (w ≡ t) ⊎ Among w ts

All-Among {κ} : (P : Turn → Type κ) (w : Turn) (ts : List Turn) → All P ts → Among w ts → P w
All-Among P w (t ∷ ts) (p, ps) (inl e) = subst P (sym e) p
All-Among P w (t ∷ ts) (p, ps) (inr m) = All-Among P w ts ps m
All-Among P w [] h m = absurd m

first_min-cases :
    (best : Turn) (ts : List Turn) → (first_min best ts ≡ best) ⊎ Among (first_min best ts) ts
unfolding first_min
first_min-cases best [] = inl refl
first_min-cases best (t ∷ ts) =
    go (goes_before t best) (first_min-cases t ts) (first_min-cases best ts)
  where
    shift : {w : Turn} → (w ≡ best) ⊎ Among w ts → (w ≡ best) ⊎ ((w ≡ t) ⊎ Among w ts)
    shift (inl e) = inl e
    shift (inr m) = inr (inr m)

    go :
        (b : Bool)
        → (first_min t ts ≡ t) ⊎ Among (first_min t ts) ts
        → (first_min best ts ≡ best) ⊎ Among (first_min best ts) ts
        → let w = first_min (if b then t else best) ts in (w ≡ best) ⊎ ((w ≡ t) ⊎ Among w ts)
    go true h k = inr h
    go false h k = shift k

before-load : (s t : Turn) → goes_before s t ≡ true → s.in_flight ≤ t.in_flight
unfolding goes_before
before-load s t h = ground arith

not_before-load : (s t : Turn) → goes_before s t ≡ false → t.in_flight ≤ s.in_flight
unfolding goes_before
not_before-load s t h = ground arith

-- The winner has the fewest in flight.
first_min-least :
    (best : Turn) (ts : List Turn)
    → ((first_min best ts).in_flight ≤ best.in_flight)
      × All (λ x. (first_min best ts).in_flight ≤ x.in_flight) ts
unfolding first_min
first_min-least best [] = (omega arith, tt)
first_min-least best (t ∷ ts) =
    go (goes_before t best) refl (first_min-least t ts) (first_min-least best ts)
  where
    go :
        (b : Bool)
        → goes_before t best ≡ b
        → ((first_min t ts).in_flight ≤ t.in_flight)
          × All (λ x. (first_min t ts).in_flight ≤ x.in_flight) ts
        → ((first_min best ts).in_flight ≤ best.in_flight)
          × All (λ x. (first_min best ts).in_flight ≤ x.in_flight) ts
        → let w = first_min (if b then t else best) ts in
          (w.in_flight ≤ best.in_flight)
          × ((w.in_flight ≤ t.in_flight) × All (λ x. w.in_flight ≤ x.in_flight) ts)
    go true e (h, hs) k = (omega (arith, before-load t best e), (h, hs))
    go false e h (k, ks) = (k, (omega (arith, not_before-load t best e), ks))

load-least :
    (m u : ℕ) (ts : List Turn) → All (λ x. m ≤ x.in_flight) ts → queued u ts ≢ [] → m ≤ load u ts
load-least m u [] h q = absurd (q refl)
load-least m u (t ∷ ts) (h, hs) q = elim (Bool-cases (t.tenant == u)) [
  | inl e ↦ rw e h
  | inr e ↦ rw e (load-least m u ts hs (rw e at q))
]

of_Among :
    (w : Turn) (ts : List Turn)
    → Distinct ts
    → Among w ts
    → (queued w.tenant ts ≡ w.remaining) × (load w.tenant ts ≡ w.in_flight)
of_Among w [] d m = absurd m
of_Among w (t ∷ ts) (fresh, d) (inl e) =
    let same : (t.tenant == w.tenant) ≡ true = rw e (==_refl t.tenant) in rw same (cc, cc)
of_Among w (t ∷ ts) (fresh, d) (inr m) =
    let other : w.tenant ≢ t.tenant = All-Among (λ x. x.tenant ≢ t.tenant) w ts fresh m in
    let differ : (t.tenant == w.tenant) ≡ false = ground arith in rw differ (of_Among w ts d m)

queued_absent : (u : ℕ) (ts : List Turn) → All (λ x. x.tenant ≢ u) ts → queued u ts ≡ []
queued_absent u [] h = refl
queued_absent u (t ∷ ts) (h, hs) =
    let differ : (t.tenant == u) ≡ false = ground arith in rw differ (queued_absent u ts hs)

-- Serving one tenant leaves the others as they are.
pub serve_ne :
    (n w u : ℕ) (ts : List Turn)
    → u ≢ w
    → (queued u (serve n w ts) ≡ queued u ts) × (load u (serve n w ts) ≡ load u ts)
unfolding serve
serve_ne n w u [] h = (refl, refl)
serve_ne n w u (t ∷ ts) h = elim (Bool-cases (t.tenant == w)) [
  | inl e ↦ rw e (gone t.remaining (ground arith))
  | inr e ↦ rw e (let (q, l) = serve_ne n w u ts h in (rw q, rw l))
]
  where
    gone :
        (rs : List Ready)
        → (t.tenant == u) ≡ false
        → (queued u (popped n t rs ts) ≡ queued u (t ∷ ts))
          × (load u (popped n t rs ts) ≡ load u (t ∷ ts))
    gone [] e = (rw e, rw e)
    gone (r ∷ []) e = (rw e, rw e)
    gone (r ∷ s ∷ rs) e = (rw e, rw e)

-- The tenant served has lost its first document, and has one more in flight while it stays.
pub serve_self :
    (n w : ℕ) (ts : List Turn) {r : Ready} {rs : List Ready}
    → Distinct ts
    → queued w ts ≡ r ∷ rs
    → (queued w (serve n w ts) ≡ rs)
      × (rs ≢ [] → load w (serve n w ts) ≡ load w ts + 1)
      × (suc (total (serve n w ts)) ≡ total ts)
unfolding serve
serve_self n w [] d q = cc
serve_self n w (t ∷ ts) {r} {rs} (fresh, d) q = elim (Bool-cases (t.tenant == w)) [
  | inl e ↦ rw e (here t.remaining e (rw e at q))
  | inr e ↦ rw e (let (a, b, c) = serve_self n w ts d (rw e at q) in (rw e a, rw e b, omega arith))
]
  where
    absent : (t.tenant == w) ≡ true → queued w ts ≡ []
    absent e =
        queued_absent w ts (subst (λ k. All (λ x. x.tenant ≢ k) ts) ((==_iff t.tenant w).0 e) fresh)

    here :
        (l : List Ready)
        → (t.tenant == w) ≡ true
        → l ≡ r ∷ rs
        → (queued w (popped n t l ts) ≡ rs)
          × (rs ≢ [] → load w (popped n t l ts) ≡ t.in_flight + 1)
          × (suc (total (popped n t l ts)) ≡ length l + total ts)
    here [] e h = cc
    here (x ∷ []) e h =
        let empty : rs ≡ [] = cc in
        (absent e ∙ sym empty, λ some_left. absurd (some_left empty), omega arith)
    here (x ∷ y ∷ ys) e h = (rw e (cc), λ _. rw e, omega arith)

All-serve {κ} :
    (P : Turn → Type κ) (n w : ℕ) (ts : List Turn)
    → ((t : Turn) (l : List Ready)
        → P t
        → (r s : Ready) (rs : List Ready) → t.remaining ≡ r ∷ s ∷ rs
        → P (record t { in_flight = t.in_flight + 1; served = (2, n); remaining = s ∷ rs }))
    → All P ts
    → All P (serve n w ts)
unfolding serve
All-serve P n w [] keep h = tt
All-serve P n w (t ∷ ts) keep (h, hs) = go (t.tenant == w) (All-serve P n w ts keep hs)
  where
    pop : (l : List Ready) → t.remaining ≡ l → All P (popped n t l ts)
    pop [] e = hs
    pop (r ∷ []) e = hs
    pop (r ∷ s ∷ rs) e = (keep t [] h r s rs e, hs)

    go :
        (b : Bool)
        → All P (serve n w ts)
        → All P (if b then popped n t t.remaining ts else t ∷ serve n w ts)
    go true ih = pop t.remaining refl
    go false ih = (h, ih)

serve-Distinct : (n w : ℕ) (ts : List Turn) → Distinct ts → Distinct (serve n w ts)
unfolding serve
serve-Distinct n w [] d = tt
serve-Distinct n w (t ∷ ts) (fresh, d) = go (t.tenant == w) (serve-Distinct n w ts d)
  where
    pop : (l : List Ready) → Distinct (popped n t l ts)
    pop [] = d
    pop (r ∷ []) = d
    pop (r ∷ s ∷ rs) = (fresh, d)

    go :
        (b : Bool)
        → Distinct (serve n w ts)
        → Distinct (if b then popped n t t.remaining ts else t ∷ serve n w ts)
    go true ih = pop t.remaining
    go false ih = (All-serve (λ x. x.tenant ≢ t.tenant) n w ts (λ x l h r s rs e. h) fresh, ih)

pub serve-Tidy : (n w : ℕ) (ts : List Turn) → Tidy ts → Tidy (serve n w ts)
serve-Tidy n w ts h = record {
  distinct = serve-Distinct n w ts h.distinct;
  full = All-serve (λ t. t.remaining ≢ []) n w ts (λ t l f r s rs e. λ empty. cc) h.full;
  owned =
      All-serve (λ t. All (λ r. r.tenant_id ≡ t.tenant) t.remaining) n w ts
        (λ t l o r s rs e. (subst (λ l. All (λ r. r.tenant_id ≡ t.tenant) l) e o).1) h.owned;
}

-- A round of the loop: the winner has the fewest in flight of all, its first document is chosen, and
-- it is served.
pub record Round (slots cap n : ℕ) (ts : List Turn) : Type 0 where
  pub winner_id : ℕ
  pub first : Ready
  pub left : List Ready
  pub had : queued winner_id ts ≡ first ∷ left
  pub owns : first.tenant_id ≡ winner_id
  pub fewest : (u : ℕ) → queued u ts ≢ [] → load winner_id ts ≤ load u ts
  pub continues :
      choose_loop (suc slots) cap n ts
      ≡ first ∷ choose_loop slots cap (n + 1) (serve (n + 1) winner_id ts)

choose_loop-suc :
    (slots cap n : ℕ) (t : Turn) (ts : List Turn) {r : Ready} {rs : List Ready}
    → (first_min t ts).remaining ≡ r ∷ rs
    → choose_loop (suc slots) cap n (t ∷ ts)
      ≡ r ∷ choose_loop slots cap (n + 1) (serve (n + 1) (first_min t ts).tenant (t ∷ ts))
unfolding choose_loop
choose_loop-suc slots cap n t ts {r} {rs} e = rw (winner-first_min cap t ts) (
    ap
      (λ l.
        chosen_then
          (elim l as (λ _. Option (Ready × List Turn)) [
            | [] ↦ none
            | x ∷ _ ↦ some (x, serve (n + 1) (first_min t ts).tenant (t ∷ ts))
          ])
          (choose_loop slots cap (n + 1)))
      e)

pub choose_loop-Round :
    (slots cap n : ℕ) (t : Turn) (ts : List Turn) → Tidy (t ∷ ts) → Round slots cap n (t ∷ ts)
choose_loop-Round slots cap n t ts h = go (first_min t ts).remaining refl
  where
    w : Turn
    w = first_min t ts

    among : Among w (t ∷ ts)
    among = first_min-cases t ts

    go : (l : List Ready) → w.remaining ≡ l → Round slots cap n (t ∷ ts)
    go [] e = absurd (All-Among (λ x. x.remaining ≢ []) w (t ∷ ts) h.full among e)
    go (r ∷ rs) e =
        let (q, l) = of_Among w (t ∷ ts) h.distinct among in
        let own =
          All-Among (λ x. All (λ r. r.tenant_id ≡ x.tenant) x.remaining) w (t ∷ ts) h.owned among in
        record {
          winner_id = w.tenant;
          first = r;
          left = rs;
          had = q ∙ e;
          owns = (subst (λ l. All (λ r. r.tenant_id ≡ w.tenant) l) e own).0;
          fewest = λ u some_ready.
              rw l (load-least w.in_flight u (t ∷ ts) (first_min-least t ts) some_ready);
          continues = choose_loop-suc slots cap n t ts e;
        }
