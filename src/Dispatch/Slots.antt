-- ===== src/Dispatch/Slots.antt =====
-- The turn-taking promise of `choose` (packages/core/docflow_core/dispatch.py): no slot idle, each
-- tenant in its own order, and slots shared evenly.
use doc_flow.Prelude.{
  ℕ, zero, suc, ◌+◌, ◌≤◌, ◌<◌, ◌≡◌, ◌≢◌, refl, sym, ◌∙◌, ap, ◌⊎◌, inl, inr, List, [], ◌∷◌, ◌++◌,
  filter, length, min, ◌==◌, ==_iff, Bool-cases, arith, subst,
}
use doc_flow.Dispatch.Choose.{Ready, Turn, serve, choose_loop}
use doc_flow.Dispatch.Turns.{
  queued, load, total, Tidy, serve_ne, serve_self, serve-Tidy, Round, choose_loop-Round,
}

-- The documents of one tenant among those chosen, in the order they were chosen.
abbrev pub chosen_of : ℕ → List Ready → List Ready
chosen_of u rs = filter (λ r. r.tenant_id == u) rs

chosen_of_eq :
    (u : ℕ) (r : Ready) (rs : List Ready)
    → r.tenant_id ≡ u
    → chosen_of u (r ∷ rs) ≡ r ∷ chosen_of u rs
chosen_of_eq u r rs e = ground arith

chosen_of_ne :
    (u : ℕ) (r : Ready) (rs : List Ready) → r.tenant_id ≢ u → chosen_of u (r ∷ rs) ≡ chosen_of u rs
chosen_of_ne u r rs e = ground arith

module _ (cap : ℕ) where
  pub length-choose_loop :
      (slots n : ℕ) (ts : List Turn)
      → Tidy ts
      → length (choose_loop slots cap n ts) ≡ min slots (total ts)
  unfolding choose_loop
  length-choose_loop zero n ts h = omega arith
  length-choose_loop (suc slots) n [] h = omega arith
  length-choose_loop (suc slots) n (t ∷ ts) h =
      let round = choose_loop-Round slots cap n t ts h in
      let (_, _, smaller) = serve_self (n + 1) round.winner_id (t ∷ ts) h.distinct round.had in
      let ih =
        length-choose_loop slots (n + 1) (serve (n + 1) round.winner_id (t ∷ ts))
          (serve-Tidy _ _ _ h) in
      ap length round.continues ∙ omega (arith, ih, smaller)

  -- One round, seen by the tenant `u`: either its first document was chosen and the rest is left to
  -- the later rounds, or nothing of it has changed.
  record Seen (slots n u : ℕ) (ts after : List Turn) : Type 0 where
    tidy : Tidy after
    view :
        ((first : Ready) × (left : List Ready) × (chosen_of u (choose_loop (suc slots) cap n ts)
            ≡ first ∷ chosen_of u (choose_loop slots cap (n + 1) after))
          × (queued u ts ≡ first ∷ left)
          × (queued u after ≡ left)
          × (left ≢ [] → load u after ≡ load u ts + 1)
          × ((v : ℕ) → queued v ts ≢ [] → load u ts ≤ load v ts))
        ⊎ ((chosen_of u (choose_loop (suc slots) cap n ts)
              ≡ chosen_of u (choose_loop slots cap (n + 1) after))
            × (queued u after ≡ queued u ts)
            × (load u after ≡ load u ts))

  Round-Seen :
      (slots n u : ℕ) (ts : List Turn) (h : Tidy ts) (round : Round slots cap n ts)
      → Seen slots n u ts (serve (n + 1) round.winner_id ts)
  Round-Seen slots n u ts h round =
      let after = serve (n + 1) round.winner_id ts in
      let rest = choose_loop slots cap (n + 1) after in
      let (now, grown, _) = serve_self (n + 1) round.winner_id ts h.distinct round.had in
      record {
        tidy = serve-Tidy (n + 1) round.winner_id ts h;
        view = elim (Bool-cases (round.winner_id == u)) [
          | inl e ↦
              let same : round.winner_id ≡ u = (==_iff round.winner_id u).0 e in
              inl (
                round.first,
                round.left,
                ap (chosen_of u) round.continues
                    ∙ chosen_of_eq u round.first rest (round.owns ∙ same),
                rw (← same) round.had,
                subst (λ v. queued v after ≡ round.left) same now,
                subst (λ v. round.left ≢ [] → load v after ≡ load v ts + 1) same grown,
                subst (λ w. (v : ℕ) → queued v ts ≢ [] → load w ts ≤ load v ts) same round.fewest,
              )
          | inr e ↦
              let other : u ≢ round.winner_id = ground arith in
              let (q, l) = serve_ne (n + 1) round.winner_id u ts other in
              inr (
                ap (chosen_of u) round.continues
                    ∙ chosen_of_ne u round.first rest (λ own. other (sym own ∙ round.owns)),
                q,
                l,
              )
        ];
      }

  -- What is chosen of a tenant, with what is left, is what it had ready.
  pub chosen_of-prefix :
      (slots n u : ℕ) (ts : List Turn)
      → Tidy ts
      → (left : List Ready) × (chosen_of u (choose_loop slots cap n ts) ++ left ≡ queued u ts)
  chosen_of-prefix zero n u ts h = (queued u ts, unfold choose_loop in refl)
  chosen_of-prefix (suc slots) n u [] h = ([], unfold choose_loop in refl)
  chosen_of-prefix (suc slots) n u (t ∷ ts) h =
      let round = choose_loop-Round slots cap n t ts h in
      let seen = Round-Seen slots n u (t ∷ ts) h round in
      let (left, ih) =
        chosen_of-prefix slots (n + 1) u (serve (n + 1) round.winner_id (t ∷ ts)) seen.tidy in
      (
        left,
        elim seen.view [
          | inl (first, l, c, q, a, _, _) ↦
              ap (λ x. x ++ left) c ∙ ap (λ x. first ∷ x) (ih ∙ a) ∙ sym q
          | inr (c, q, _) ↦ ap (λ x. x ++ left) c ∙ ih ∙ q
        ],
      )

  nonempty_prefix : (xs ys zs : List Ready) → xs ≢ [] → xs ++ ys ≡ zs → zs ≢ []
  nonempty_prefix [] ys zs h e = absurd (h refl)
  nonempty_prefix (x ∷ xs) ys zs h e = λ empty. cc

  nonempty_of_length : (n : ℕ) (xs : List Ready) → n < length xs → xs ≢ []
  nonempty_of_length n [] h = absurd (omega arith)
  nonempty_of_length n (x ∷ xs) h = λ e. cc

  -- A tenant that is left with something ready: its share, and that the rest leaves it some too.
  waiting_share :
      (slots n u : ℕ) (ts after : List Turn)
      → Seen slots n u ts after
      → length (chosen_of u (choose_loop (suc slots) cap n ts)) < length (queued u ts)
      → (load u after + length (chosen_of u (choose_loop slots cap (n + 1) after))
          ≡ load u ts + length (chosen_of u (choose_loop (suc slots) cap n ts)))
        × (length (chosen_of u (choose_loop slots cap (n + 1) after)) < length (queued u after))
  waiting_share slots n u ts after seen short = elim seen.view [
    | inl (first, left, c, q, a, grown, _) ↦
        let lc = ap length c in
        let lq = ap length q in
        let la = ap length a in
        let some_left : left ≢ [] =
          nonempty_of_length (length (chosen_of u (choose_loop slots cap (n + 1) after))) left
            (omega arith) in
        let g = grown some_left in (omega arith, omega arith)
    | inr (c, q, l) ↦ let lc = ap length c in let lq = ap length q in (omega arith, omega arith)
  ]

  -- A tenant that is chosen from: its share carries over while more is chosen of it, and its last
  -- slot went to it as one with the fewest in flight.
  served_share :
      (slots n u : ℕ) (ts after : List Turn)
      → Seen slots n u ts after
      → chosen_of u (choose_loop (suc slots) cap n ts) ≢ []
      → ((chosen_of u (choose_loop slots cap (n + 1) after) ≢ [])
          × (load u after + length (chosen_of u (choose_loop slots cap (n + 1) after))
              ≡ load u ts + length (chosen_of u (choose_loop (suc slots) cap n ts))))
        ⊎ ((length (chosen_of u (choose_loop (suc slots) cap n ts)) ≡ 1)
            × ((v : ℕ) → queued v ts ≢ [] → load u ts ≤ load v ts))
  served_share slots n u ts after seen got =
      go (chosen_of u (choose_loop slots cap (n + 1) after)) refl seen.view
    where
      more : List Ready
      more = chosen_of u (choose_loop slots cap (n + 1) after)

      now : List Ready
      now = chosen_of u (choose_loop (suc slots) cap n ts)

      go :
          (l : List Ready)
          → more ≡ l
          → ((first : Ready) × (left : List Ready) × (now ≡ first ∷ more)
              × (queued u ts ≡ first ∷ left)
              × (queued u after ≡ left)
              × (left ≢ [] → load u after ≡ load u ts + 1)
              × ((v : ℕ) → queued v ts ≢ [] → load u ts ≤ load v ts))
            ⊎ ((now ≡ more) × (queued u after ≡ queued u ts) × (load u after ≡ load u ts))
          → ((more ≢ []) × (load u after + length more ≡ load u ts + length now))
            ⊎ ((length now ≡ 1) × ((v : ℕ) → queued v ts ≢ [] → load u ts ≤ load v ts))
      go [] e (inl (first, left, c, q, a, grown, fewest)) =
          inr (ap length (c ∙ ap (λ l. first ∷ l) e), fewest)
      go (m ∷ ms) e (inl (first, left, c, q, a, grown, fewest)) =
          let some_more : more ≢ [] = λ empty. cc in
          let (rest, pre) = chosen_of-prefix slots (n + 1) u after seen.tidy in
          let g = grown (nonempty_prefix more rest left some_more (pre ∙ a)) in
          let lc = ap length c in inl (some_more, omega arith)
      go [] e (inr (c, q, l)) = absurd (got (c ∙ e))
      go (m ∷ ms) e (inr (c, q, l)) = let lc = ap length c in inl ((λ empty. cc), omega arith)

  pub fair :
      (slots n s t : ℕ) (ts : List Turn)
      → Tidy ts
      → chosen_of s (choose_loop slots cap n ts) ≢ []
      → length (chosen_of t (choose_loop slots cap n ts)) < length (queued t ts)
      → load s ts + length (chosen_of s (choose_loop slots cap n ts))
        ≤ load t ts + length (chosen_of t (choose_loop slots cap n ts)) + 1
  fair zero n s t ts h got short = absurd (got (unfold choose_loop in refl))
  fair (suc slots) n s t [] h got short = absurd (got (unfold choose_loop in refl))
  fair (suc slots) n s t (x ∷ xs) h got short =
      let round = choose_loop-Round slots cap n x xs h in
      let after = serve (n + 1) round.winner_id (x ∷ xs) in
      let (share, short') =
        waiting_share slots n t (x ∷ xs) after (Round-Seen slots n t (x ∷ xs) h round) short in
      elim (served_share slots n s (x ∷ xs) after (Round-Seen slots n s (x ∷ xs) h round) got) [
        | inl (more, carried) ↦
            let ih =
              fair slots (n + 1) s t after (serve-Tidy (n + 1) round.winner_id (x ∷ xs) h) more
                short' in
            combine _ _ _ _ share carried ih
        | inr (one, fewest) ↦
            last _ _ _ _ one (fewest t (nonempty_of_length _ (queued t (x ∷ xs)) short))
      ]
    where
      combine :
          (now_s now_t later_s later_t : ℕ)
          → later_t ≡ now_t
          → later_s ≡ now_s
          → later_s ≤ later_t + 1
          → now_s ≤ now_t + 1
      combine now_s now_t later_s later_t p q r = omega arith

      last :
          (load_s load_t got_s got_t : ℕ)
          → got_s ≡ 1
          → load_s ≤ load_t
          → load_s + got_s ≤ load_t + got_t + 1
      last load_s load_t got_s got_t e h = omega arith
