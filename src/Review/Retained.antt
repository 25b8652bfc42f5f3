-- ===== src/Review/Retained.antt =====
-- What a call of packages/core/docflow_core/review.py leaves of the rows that were there: a snapshot is
-- frozen but for the time at which it is superseded, and a review action altogether.
use doc_flow.Prelude.{
  ℕ, true, Option, none, some, List, [], ◌∷◌, ◌++◌, ◌≡◌, refl, sym, ap, ◌∙◌, inl, inr, arith,
  Bool-cases,
}
use doc_flow.Review.Tables.{is_unset, is_live_snapshot, supersede}
use doc_flow.Review.Rows.{Tables, SnapshotRow, ActionRow}

-- Row by row, before and after; rows that were added come after them.
abbrev pub Extends : {A : Type 0} → (A → A → Type 0) → List A → List A → Type 0
Extends R [] ys = Unit
Extends R (x ∷ xs) [] = ⊥
Extends R (x ∷ xs) (y ∷ ys) = R x y × Extends R xs ys

module _ {A : Type 0} (R : A → A → Type 0) where
  pub Extends-append : (stay : (x : A) → R x x) (xs added : List A) → Extends R xs (xs ++ added)
  Extends-append stay [] added = tt
  Extends-append stay (x ∷ xs) added = (stay x, Extends-append stay xs added)

  pub Extends-self : (stay : (x : A) → R x x) (xs : List A) → Extends R xs xs
  Extends-self stay [] = tt
  Extends-self stay (x ∷ xs) = (stay x, Extends-self stay xs)

  pub Extends-trans :
      (chain : (x y z : A) → R x y → R y z → R x z) (xs ys zs : List A)
      → Extends R xs ys
      → Extends R ys zs
      → Extends R xs zs
  Extends-trans chain [] ys zs h k = tt
  Extends-trans chain (x ∷ xs) [] zs h k = absurd h
  Extends-trans chain (x ∷ xs) (y ∷ ys) [] h k = absurd k
  Extends-trans chain (x ∷ xs) (y ∷ ys) (z ∷ zs) (h, hs) (k, ks) =
      (chain x y z h k, Extends-trans chain xs ys zs hs ks)

-- the time of superseding, once it is set
abbrev pub first_time : Option ℕ → Option ℕ → Option ℕ
first_time none later = later
first_time (some time) later = some time

-- Only the time of superseding may be set, and once set it stays.
abbrev pub Frozen : SnapshotRow → SnapshotRow → Type 0
Frozen s s' = s' ≡ record s { superseded_at = first_time s.superseded_at s'.superseded_at }

abbrev at_time : Option ℕ → SnapshotRow → SnapshotRow
at_time o s = record s { superseded_at = o }

first_time_self : (o : Option ℕ) → first_time o o ≡ o
first_time_self none = refl
first_time_self (some time) = refl

Frozen-refl : (s : SnapshotRow) → Frozen s s
Frozen-refl s = sym (ap (λ o. at_time o s) (first_time_self s.superseded_at))

first_time_trans : (a b c : Option ℕ) → b ≡ first_time a b → c ≡ first_time b c → c ≡ first_time a c
first_time_trans none b c h k = refl
first_time_trans (some time) b c h k = k ∙ ap (λ o. first_time o c) h

Frozen-trans : (a b c : SnapshotRow) → Frozen a b → Frozen b c → Frozen a c
Frozen-trans a b c e f =
    let times : c.superseded_at ≡ first_time a.superseded_at c.superseded_at =
      first_time_trans a.superseded_at b.superseded_at c.superseded_at (ap (λ s. s.superseded_at) e)
        (ap (λ s. s.superseded_at) f) in
    f
    ∙ ap (at_time (first_time b.superseded_at c.superseded_at)) e
    ∙ ap (λ o. at_time o a) (sym (ap (λ s. s.superseded_at) f) ∙ times)

unset : (o : Option ℕ) → is_unset o ≡ true → o ≡ none
unset none h = refl
unset (some time) h = cc

supersede-Frozen :
    (now i : ℕ) (rows : List SnapshotRow) → Extends Frozen rows (supersede now i rows)
unfolding supersede
supersede-Frozen now i [] = tt
supersede-Frozen now i (s ∷ rows) = elim (Bool-cases (is_live_snapshot i s)) [
  | inl e ↦
      let live : s.superseded_at ≡ none = unset s.superseded_at (ground (arith, e)) in
      rw e (ap (λ o. at_time (first_time o (some now)) s) (sym live), supersede-Frozen now i rows)
  | inr e ↦ rw e (Frozen-refl s, supersede-Frozen now i rows)
]

abbrev SameRow : ActionRow → ActionRow → Type 0
SameRow a b = b ≡ a

-- Every snapshot is kept and frozen, and the trail only grows.
abbrev pub Retained : Tables → Tables → Type 0
Retained t after =
    Extends Frozen t.snapshots after.snapshots × Extends (λ a b. b ≡ a) t.actions after.actions

pub Retained-trans : (t u v : Tables) → Retained t u → Retained u v → Retained t v
Retained-trans t u v (s, a) (s', a') = (
  Extends-trans Frozen Frozen-trans t.snapshots u.snapshots v.snapshots s s',
  Extends-trans SameRow (λ x y z h k. k ∙ h) t.actions u.actions v.actions a a',
)

pub Retained-keeps :
    (t u : Tables) → u.snapshots ≡ t.snapshots → u.actions ≡ t.actions → Retained t u
Retained-keeps t u s a =
    rw (s, a)
      (Extends-self Frozen Frozen-refl t.snapshots, Extends-self SameRow (λ x. refl) t.actions)

-- an action row is added, and snapshots are superseded or added
pub Retained-grown :
    (now i : ℕ) (t u : Tables) (added : List SnapshotRow) (row : ActionRow)
    → u.snapshots ≡ supersede now i t.snapshots ++ added
    → u.actions ≡ t.actions ++ row ∷ []
    → Retained t u
Retained-grown now i t u added row s a =
    rw (s, a)
      (
        Extends-trans Frozen Frozen-trans t.snapshots (supersede now i t.snapshots) _
            (supersede-Frozen now i t.snapshots)
            (Extends-append Frozen Frozen-refl (supersede now i t.snapshots) added),
        Extends-append SameRow (λ x. refl) t.actions (row ∷ []),
      )

pub Retained-action :
    (t u : Tables) (row : ActionRow)
    → u.snapshots ≡ t.snapshots
    → u.actions ≡ t.actions ++ row ∷ []
    → Retained t u
Retained-action t u row s a =
    rw (s, a)
      (
        Extends-self Frozen Frozen-refl t.snapshots,
        Extends-append SameRow (λ x. refl) t.actions (row ∷ []),
      )

pub Retained-superseded :
    (now i : ℕ) (t u : Tables) (row : ActionRow)
    → u.snapshots ≡ supersede now i t.snapshots
    → u.actions ≡ t.actions ++ row ∷ []
    → Retained t u
Retained-superseded now i t u row s a =
    rw (s, a)
      (supersede-Frozen now i t.snapshots, Extends-append SameRow (λ x. refl) t.actions (row ∷ []))
