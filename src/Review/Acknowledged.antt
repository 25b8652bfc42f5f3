-- ===== src/Review/Acknowledged.antt =====
-- The open warnings of a document before and after the UPDATEs of `approve_document`, of
-- packages/core/docflow_core/review.py, and the ids that its notes name.
use doc_flow.Prelude.{
  ℕ, Bool, true, false, ◌&&◌, Option, none, some, List, [], ◌∷◌, map, ◌≡◌, refl, ◌⊎◌, inl, inr,
  arith, sym, ap, ◌∙◌, filter, all, contains, ◌==◌, Bool-cases,
}
use doc_flow.Prelude.Sort.{insert, sort}
use doc_flow.Validation.Sync.{WarningRow}
use doc_flow.Review.Tables.{is_unacknowledged, unacknowledged_warnings}
use doc_flow.Review.Rows.{Server, WarningAcknowledgement}
use doc_flow.Review.Notes.{
  Notes, noted_ids, find_open, cons_recorded, recorded_of, all_known, all_noted, acknowledge_row,
  acknowledge_each,
}

module _ {A : Type 0} (le : A → A → Bool) (p : A → Bool) where
  all-insert : (x : A) (ys : List A) → all p (insert le x ys) ≡ (p x && all p ys)
  unfolding insert
  all-insert x [] = refl
  all-insert x (y ∷ ys) = elim (Bool-cases (le x y)) [
    | inl e ↦ rw e
    | inr e ↦ let ih = all-insert x ys in rw (e, ih) (swap (p y) (p x) (all p ys))
  ]
    where
      swap : (a b c : Bool) → (a && (b && c)) ≡ (b && (a && c))
      swap a b c = ground arith

  pub all-sort : (xs : List A) → all p (sort le xs) ≡ all p xs
  unfolding sort
  all-sort [] = refl
  all-sort (x ∷ xs) = all-insert x (sort le xs) ∙ ap (λ b. p x && b) (all-sort xs)

abbrev recorded_ids : List WarningAcknowledgement → List ℕ
recorded_ids acks = map (λ a. a.warning_id) acks

-- what is left of one row after all the UPDATEs
abbrev settle_row : ℕ → List WarningAcknowledgement → WarningRow → WarningRow
settle_row i [] w = w
settle_row i (a ∷ acks) w = settle_row i acks (acknowledge_row i a w)

map_compose :
    (f g : WarningRow → WarningRow) (rows : List WarningRow)
    → map f (map g rows) ≡ map (λ w. f (g w)) rows
map_compose f g [] = refl
map_compose f g (w ∷ rows) = ap (λ l. f (g w) ∷ l) (map_compose f g rows)

map_self : (rows : List WarningRow) → map (λ w. w) rows ≡ rows
map_self [] = refl
map_self (w ∷ rows) = ap (λ l. w ∷ l) (map_self rows)

acknowledge_each-rows :
    (i : ℕ) (acks : List WarningAcknowledgement) (rows : List WarningRow)
    → acknowledge_each i acks rows ≡ map (settle_row i acks) rows
unfolding acknowledge_each
acknowledge_each-rows i [] rows = rw (map_self rows)
acknowledge_each-rows i (a ∷ acks) rows =
    acknowledge_each-rows i acks (map (acknowledge_row i a) rows)
    ∙ map_compose (settle_row i acks) (acknowledge_row i a) rows

module _ (i : ℕ) (a : WarningAcknowledgement) (w : WarningRow) where
  acknowledge_row-id : (acknowledge_row i a w).id ≡ w.id
  acknowledge_row-id = elim (Bool-cases (w.id == a.warning_id && w.document_id == i)) [
    | inl e ↦ rw e refl
    | inr e ↦ rw e refl
  ]

  acknowledge_row-noted :
      (is_unacknowledged i w ≡ false) ⊎ ((w.id == a.warning_id) ≡ true)
      → is_unacknowledged i (acknowledge_row i a w) ≡ false
  acknowledge_row-noted h = elim (Bool-cases (w.id == a.warning_id && w.document_id == i)) [
    | inl e ↦ rw e (ground arith)
    | inr e ↦ rw e (other e h)
  ]
    where
      other :
          (w.id == a.warning_id && w.document_id == i) ≡ false
          → (is_unacknowledged i w ≡ false) ⊎ ((w.id == a.warning_id) ≡ true)
          → is_unacknowledged i w ≡ false
      other e (inl k) = k
      other e (inr k) = let apart : (w.document_id == i) ≡ false = rw k at e in rw apart refl

-- a row that one of the UPDATEs names, or that was not open, is not open after them
settle_row-settled :
    (i : ℕ) (acks : List WarningAcknowledgement) (w : WarningRow)
    → (is_unacknowledged i w ≡ false) ⊎ (contains w.id (recorded_ids acks) ≡ true)
    → is_unacknowledged i (settle_row i acks w) ≡ false
settle_row-settled i [] w (inl h) = h
settle_row-settled i [] w (inr h) = cc
settle_row-settled i (a ∷ acks) w (inl h) =
    settle_row-settled i acks (acknowledge_row i a w) (inl (acknowledge_row-noted i a w (inl h)))
settle_row-settled i (a ∷ acks) w (inr h) = elim (Bool-cases (w.id == a.warning_id)) [
  | inl e ↦
      settle_row-settled i acks (acknowledge_row i a w) (inl (acknowledge_row-noted i a w (inr e)))
  | inr e ↦
      let later : contains w.id (recorded_ids acks) ≡ true = rw e at h in
      settle_row-settled i acks (acknowledge_row i a w)
        (inr (ap (λ j. contains j (recorded_ids acks)) (acknowledge_row-id i a w) ∙ later))
]

find_open-id :
    (i : ℕ) (rows : List WarningRow) (w : WarningRow) → find_open i rows ≡ some w → w.id ≡ i
find_open-id i [] w h = cc
find_open-id i (v ∷ rows) w h = elim (Bool-cases (i == v.id)) [
  | inl e ↦ let same_row : w ≡ v = cc (rw e at h) in rw same_row (ground arith)
  | inr e ↦ find_open-id i rows w (rw e at h)
]

-- Every id of the notes is recorded, where all are known.
recorded_of-ids :
    (server : Server) (opens : List WarningRow) (notes : Notes) (j : ℕ)
    → all_known opens notes ≡ true
    → contains j (noted_ids notes) ≡ true
    → contains j (recorded_ids (recorded_of server opens notes)) ≡ true
unfolding recorded_of
recorded_of-ids server opens [] j known h = h
recorded_of-ids server opens ((i, v) ∷ notes) j known h =
    go (find_open i opens) refl (λ rest later. recorded_of-ids server opens notes j rest later)
  where
    go :
        (o : Option WarningRow)
        → find_open i opens ≡ o
        → (all_known opens notes ≡ true
            → contains j (noted_ids notes) ≡ true
            → contains j (recorded_ids (recorded_of server opens notes)) ≡ true)
        → contains j (recorded_ids (cons_recorded server v o (recorded_of server opens notes)))
          ≡ true
    go none e ih = cc (rw e at known)
    go (some w) e ih =
        let rest : all_known opens notes ≡ true = rw e at known in
        let at_i = find_open-id i opens w e in
        elim (Bool-cases (j == i)) [
          | inl q ↦ rw at_i (rw q refl)
          | inr q ↦ rw at_i (rw q (ih rest (rw q at h)))
        ]

both_of : (a b : Bool) → (a && b) ≡ true → (a ≡ true) × (b ≡ true)
both_of a b h = ground arith

-- Once every open warning has been noted, none is open after the UPDATEs.
pub none_unacknowledged :
    (server : Server) (i : ℕ) (notes : Notes) (rows : List WarningRow)
    → all_known (unacknowledged_warnings i rows) notes ≡ true
    → all_noted (unacknowledged_warnings i rows) notes ≡ true
    → unacknowledged_warnings i
        (acknowledge_each i (recorded_of server (unacknowledged_warnings i rows) notes) rows)
      ≡ []
unfolding unacknowledged_warnings sort
none_unacknowledged server i notes rows known noted =
    let acks = recorded_of server (unacknowledged_warnings i rows) notes in
    let each =
      all-sort _ (λ w. contains w.id (noted_ids notes)) (filter (is_unacknowledged i) rows) in
    ap (sort _) (
      ap (filter (is_unacknowledged i)) (acknowledge_each-rows i acks rows)
      ∙ none_left acks
          (λ j h. recorded_of-ids server (unacknowledged_warnings i rows) notes j known h) rows
          (sym each ∙ noted))
  where
    none_left :
        (acks : List WarningAcknowledgement)
        → ((j : ℕ) → contains j (noted_ids notes) ≡ true → contains j (recorded_ids acks) ≡ true)
        → (ws : List WarningRow)
        → all (λ w. contains w.id (noted_ids notes)) (filter (is_unacknowledged i) ws) ≡ true
        → filter (is_unacknowledged i) (map (settle_row i acks) ws) ≡ []
    none_left acks covers [] h = refl
    none_left acks covers (w ∷ ws) h = elim (Bool-cases (is_unacknowledged i w)) [
      | inl e ↦
          let (here, rest) = both_of (contains w.id (noted_ids notes)) _ (rw e at h) in
          rw (settle_row-settled i acks w (inr (covers w.id here))) (none_left acks covers ws rest)
      | inr e ↦ rw (settle_row-settled i acks w (inl e)) (none_left acks covers ws (rw e at h))
    ]
