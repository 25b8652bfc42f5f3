-- ===== src/Sweep/Settles.antt =====
-- The whole loop of the sweep, packages/core/docflow_core/stuck_documents.py, and what it leaves.
use mathlib.Core.List.{append_assoc, append-nil}
use doc_flow.Prelude.{
  ℕ, ◌≡◌, ◌≢◌, refl, sym, ap, subst, ◌∙◌, Bool, true, false, none, List, [], ◌∷◌, ◌++◌, map, filter,
  any, All, All-map, All-zip, ◌==◌, if◌then◌else◌, inl, inr, Bool-cases, arith,
}
use doc_flow.Prelude.Sort.{sort-All}
use doc_flow.Status.Table.{processing, same}
use doc_flow.Status.Row.{Document}
use doc_flow.Status.Ops.{ok, ◌>>=◌}
use doc_flow.Status.Claiming.{Unique}
use doc_flow.Retry.{Decision}
use doc_flow.Sweep.Visit.{Swept, is_left_behind, is_older, stale_rows, visit_rows}
use doc_flow.Sweep.Run.{nothing_swept}
use doc_flow.Sweep.Rows.{
  Agrees, filter-All, filter-holds, filter-found, any-sort, sort-filter-Unique, Unique-Agrees,
}
use doc_flow.Sweep.Loop.{decided, settled_row, swept_row, is_retried, touch, visit-Visited}

module _ (clock minutes max_attempts : ℕ) where
  -- What the sweep makes of one row, whatever the others.
  abbrev pub swept : Document → Document
  swept d = if is_left_behind clock minutes d then swept_row clock minutes max_attempts d else d

  abbrev pub touch_each : List Document → Document → Document
  touch_each [] d = d
  touch_each (r ∷ rows) d = touch_each rows (touch clock minutes max_attempts r d)

  swept_row-id : (d : Document) → (swept_row clock minutes max_attempts d).id ≡ d.id
  swept_row-id d = by_status (same d.status processing) (decided clock minutes max_attempts d)
    where
      by_status :
          (b : Bool) (decision : Decision)
          → (if b
              then settled_row clock minutes max_attempts decision d
              else record d { dispatched_at = none }).id
            ≡ d.id
      by_status true Decision.retry = refl
      by_status true (Decision.fail cause) = refl
      by_status false decision = refl

  touch-other : (r d : Document) → d.id ≢ r.id → touch clock minutes max_attempts r d ≡ d
  touch-other r d h = elim (Bool-cases (d.id == r.id)) [
    | inl e ↦ absurd (h (ground arith))
    | inr e ↦ rw e
  ]

  touch-own :
      (r d : Document)
      → d.id ≡ r.id
      → touch clock minutes max_attempts r d ≡ swept_row clock minutes max_attempts d
  touch-own r d h = let same_id : (d.id == r.id) ≡ true = ground arith in rw same_id

  -- the other rows still agree with the table after a turn
  Agrees-touch :
      (r r' : Document) (docs : List Document)
      → r'.id ≢ r.id
      → Agrees docs r'
      → Agrees (map (touch clock minutes max_attempts r) docs) r'
  Agrees-touch r r' [] h a = tt
  Agrees-touch r r' (d ∷ docs) h (a, rest) = (here, Agrees-touch r r' docs h rest)
    where
      here :
          (touch clock minutes max_attempts r d).id ≡ r'.id
          → touch clock minutes max_attempts r d ≡ r'
      here e = elim (Bool-cases (d.id == r.id)) [
        | inl i ↦
            let own : d.id ≡ r.id = ground arith in
            absurd (h (sym e ∙ ap (λ x. x.id) (touch-own r d own) ∙ swept_row-id d ∙ own))
        | inr i ↦
            let other : d.id ≢ r.id = ground arith in
            touch-other r d other ∙ a (sym (ap (λ x. x.id) (touch-other r d other)) ∙ e)
      ]

  abbrev pub retried_ids : List Document → List ℕ
  retried_ids rows = map (λ r. r.id) (filter (is_retried clock minutes max_attempts) rows)

  abbrev pub AllVisited : List Document → Swept → Swept → Type 0
  AllVisited rows s s' =
      (s'.documents ≡ map (touch_each rows) s.documents)
      × (s'.requeued ≡ s.requeued ++ retried_ids rows)

  map-id : (docs : List Document) → docs ≡ map (λ d. d) docs
  map-id [] = refl
  map-id (d ∷ docs) = ap (λ l. d ∷ l) (map-id docs)

  map-map :
      (f g : Document → Document) (docs : List Document)
      → map g (map f docs) ≡ map (λ d. g (f d)) docs
  map-map f g [] = refl
  map-map f g (d ∷ docs) = ap (λ l. g (f d) ∷ l) (map-map f g docs)

  retried_ids-cons :
      (r : Document) (rows : List Document)
      → retried_ids (r ∷ rows)
        ≡ (if is_retried clock minutes max_attempts r then r.id ∷ [] else []) ++ retried_ids rows
  retried_ids-cons r rows = elim (Bool-cases (is_retried clock minutes max_attempts r)) [
    | inl e ↦ rw e
    | inr e ↦ rw e
  ]

  pub visit_rows-AllVisited :
      (rows : List Document) (s : Swept)
      → All (λ r. is_left_behind clock minutes r ≡ true) rows
      → All (Agrees s.documents) rows
      → Unique rows
      → (s' : Swept) × (visit_rows clock max_attempts rows s ≡ ok s') × AllVisited rows s s'
  unfolding visit_rows
  visit_rows-AllVisited [] s left a u = (s, refl, (map-id s.documents, sym (append-nil s.requeued)))
  visit_rows-AllVisited (r ∷ rows) s (left, lefts) (a, as') (fresh, u) =
      let (s₁, turn, visited) = visit-Visited clock minutes max_attempts r s left a in
      let still : All (Agrees s₁.documents) rows =
        subst (λ docs. All (Agrees docs) rows) (sym visited.0)
          (All-map (λ r' h. Agrees-touch r r' s.documents h.0 h.1) rows
            (All-zip (λ e. e.id ≢ r.id) (Agrees s.documents) rows fresh as')) in
      let (s₂, rest, all) = visit_rows-AllVisited rows s₁ lefts still u in
      (
        s₂,
        ap (λ x. x >>= visit_rows clock max_attempts rows) turn ∙ rest,
        (
          all.0
              ∙ ap (map (touch_each rows)) visited.0
              ∙ map-map (touch clock minutes max_attempts r) (touch_each rows) s.documents,
          all.1
              ∙ ap (λ ids. ids ++ retried_ids rows) visited.1
              ∙ append_assoc s.requeued
                  (if is_retried clock minutes max_attempts r then r.id ∷ [] else [])
                  (retried_ids rows)
              ∙ ap (λ ids. s.requeued ++ ids) (sym (retried_ids-cons r rows)),
        ),
      )

  touch_each-elsewhere :
      (rows : List Document) (d : Document) → All (λ r. r.id ≢ d.id) rows → touch_each rows d ≡ d
  touch_each-elsewhere [] d h = refl
  touch_each-elsewhere (r ∷ rows) d (h, hs) =
      ap (touch_each rows) (touch-other r d (λ e. h (sym e))) ∙ touch_each-elsewhere rows d hs

  touch_each-once :
      (rows : List Document) (d : Document)
      → Unique rows
      → any (λ r. r.id == d.id) rows ≡ true
      → touch_each rows d ≡ swept_row clock minutes max_attempts d
  touch_each-once [] d u h = absurd (cc h)
  touch_each-once (r ∷ rows) d (fresh, u) h = elim (Bool-cases (r.id == d.id)) [
    | inl e ↦
        let own : d.id ≡ r.id = ground arith in
        ap (touch_each rows) (touch-own r d own)
        ∙ touch_each-elsewhere rows (swept_row clock minutes max_attempts d)
            (All-map (λ x other i. other (i ∙ swept_row-id d ∙ own)) rows fresh)
    | inr e ↦
        let other : d.id ≢ r.id = ground arith in
        ap (touch_each rows) (touch-other r d other) ∙ touch_each-once rows d u (rw e at h)
  ]

  -- no row is selected for a document that was not left behind
  not_selected :
      (rows docs : List Document)
      → All (λ r. is_left_behind clock minutes r ≡ true) rows
      → All (Agrees docs) rows
      → All (λ d. is_left_behind clock minutes d ≡ false → All (λ r. r.id ≢ d.id) rows) docs
  not_selected rows [] left a = tt
  not_selected rows (d ∷ docs) left a = (
    (λ e.
        All-map (λ r h i. absurd (cc (e, h.0, ap (is_left_behind clock minutes) (h.1.0 (sym i)))))
          rows
          (All-zip (λ r. is_left_behind clock minutes r ≡ true) (Agrees (d ∷ docs)) rows left a)),
    not_selected rows docs left (All-map (λ r h. h.1) rows a),
  )

  abbrev rows_of : List Document → List Document
  rows_of docs = stale_rows clock minutes docs

  pub row_swept :
      (docs : List Document) → Unique docs → All (λ d. touch_each (rows_of docs) d ≡ swept d) docs
  row_swept docs u = All-map each docs (
      All-zip _ _ docs (filter-found (is_left_behind clock minutes) docs)
        (not_selected (rows_of docs) docs rows_left rows_agree))
    where
      rows_left : All (λ r. is_left_behind clock minutes r ≡ true) (stale_rows clock minutes docs)
      rows_left =
          sort-All is_older (λ r. is_left_behind clock minutes r ≡ true) _
            (filter-holds (is_left_behind clock minutes) docs)

      rows_agree : All (Agrees docs) (stale_rows clock minutes docs)
      rows_agree =
          sort-All is_older (Agrees docs) _
            (filter-All (is_left_behind clock minutes) (Agrees docs) docs (Unique-Agrees docs u))

      each :
          (d : Document)
          → (is_left_behind clock minutes d ≡ true
              → any (λ r. r.id == d.id) (filter (is_left_behind clock minutes) docs) ≡ true)
            × (is_left_behind clock minutes d ≡ false
                → All (λ r. r.id ≢ d.id) (stale_rows clock minutes docs))
          → touch_each (stale_rows clock minutes docs) d ≡ swept d
      each d (found, none_of) = elim (Bool-cases (is_left_behind clock minutes d)) [
        | inl e ↦ rw e (
            touch_each-once (stale_rows clock minutes docs) d
              (sort-filter-Unique is_older (is_left_behind clock minutes) docs u)
              (any-sort is_older (λ r. r.id == d.id) (filter (is_left_behind clock minutes) docs)
                ∙ found e))
        | inr e ↦ rw e (touch_each-elsewhere (stale_rows clock minutes docs) d (none_of e))
      ]

  -- the loop over the selected rows, from the table that they were selected from
  pub stale_rows-AllSwept :
      (docs : List Document)
      → Unique docs
      → (s' : Swept) × (visit_rows clock max_attempts
            (stale_rows clock minutes docs)
            (nothing_swept docs)
          ≡ ok s')
        × (s'.documents ≡ map swept docs)
        × (s'.requeued ≡ retried_ids (stale_rows clock minutes docs))
  stale_rows-AllSwept docs u =
      let (s', ran, visited) =
        visit_rows-AllVisited (stale_rows clock minutes docs) (nothing_swept docs)
          (sort-All is_older (λ r. is_left_behind clock minutes r ≡ true) _
            (filter-holds (is_left_behind clock minutes) docs))
          (sort-All is_older (Agrees docs) _
            (filter-All (is_left_behind clock minutes) (Agrees docs) docs (Unique-Agrees docs u)))
          (sort-filter-Unique is_older (is_left_behind clock minutes) docs u) in
      (
        s',
        ran,
        visited.0
            ∙ map_same (touch_each (stale_rows clock minutes docs)) swept docs (row_swept docs u),
        visited.1,
      )
    where
      map_same :
          (f g : Document → Document) (ds : List Document)
          → All (λ d. f d ≡ g d) ds
          → map f ds ≡ map g ds
      map_same f g [] h = refl
      map_same f g (d ∷ ds) (h, hs) = λ i. h i ∷ map_same f g ds hs i
