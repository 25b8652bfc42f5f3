-- ===== src/Status/Ops.antt =====
-- `_check`, `_assignments`, `transition` and `transition_many` of
-- packages/core/docflow_core/document_status.py. The table is what the caller's tenant session
-- sees; an exception is `illegal`, and then nothing is written.
use doc_flow.Prelude.{
  ℕ, Bool, true, false, not, ◌&&◌, List, [], ◌∷◌, ◌≡◌, refl, contains, any, ◌==◌,
}
use doc_flow.Status.Table.{Status, same, listed, member}
use doc_flow.Status.Row.{
  Document, Assign, column, column_now, settable_names, has_name, assign_all, update_where,
  returned,
}

pub data Result {ℓ} (A : Type ℓ) : Type ℓ where
  illegal : Result A  -- IllegalTransition
  ok : A → Result A

-- An exception ends the call.
infixl 5 ◌>>=◌ ◌>>◌
abbrev pub ◌>>=◌ {ℓ κ} : {X : Type ℓ} {Y : Type κ} → Result X → (X → Result Y) → Result Y
illegal >>= next = illegal
ok x >>= next = next x

abbrev pub ◌>>◌ {κ} : {Y : Type κ} → Result (Unit {0}) → Result Y → Result Y
illegal >> later = illegal
ok _ >> later = later

-- A chain that returned: its first step did, and so did the rest.
pub bind_returned {ℓ κ} :
    {X : Type ℓ} {Y : Type κ} (step : Result X) (next : X → Result Y) {y : Y}
    → (step >>= next) ≡ ok y
    → (x : X) × (step ≡ ok x) × (next x ≡ ok y)
bind_returned illegal next e = cc
bind_returned (ok x) next e = (x, refl, e)

abbrev pub refuse_if : Bool → Result (Unit {0})
refuse_if true = illegal
refuse_if false = ok tt

-- the loop of `_check`
unfoldable pub check_each : List Status → Status → Result (Unit {0})
check_each [] to = ok tt
check_each (source ∷ sources) to = do
  refuse_if (not (same source to) && not (listed source to))
  check_each sources to

unfoldable pub check : List Status → Status → Result (List Status)
unfolding check_each
check [] to = illegal
check (source ∷ sources) to = do check_each (source ∷ sources) to; ok (source ∷ sources)

-- `name not in _SETTABLE`
abbrev pub is_settable : Assign → Bool
is_settable (column name _) = has_name name settable_names
is_settable (column_now name) = has_name name settable_names
is_settable _ = true

unfoldable pub assignments : List Assign → Result (List Assign)
assignments [] = ok []
assignments (a ∷ as') = do refuse_if (not (is_settable a)); rest ← assignments as'; ok (a ∷ rest)

abbrev pub move_row : ℕ → Status → List Assign → Document → Document
move_row clock to values d = assign_all clock values (record d { status = to })

-- WHERE id = :id AND status = ANY(:from_statuses)
abbrev pub is_source : ℕ → List Status → Document → Bool
is_source document_id sources d = d.id == document_id && member d.status sources

unfoldable pub transition :
    ℕ → List Document → ℕ → List Status → Status → List Assign → Result (List Document × Bool)
transition clock docs document_id from_statuses to values = do
  sources ← check from_statuses to
  parts ← assignments values
  ok (
    update_where (is_source document_id sources) (move_row clock to parts) docs,
    any (is_source document_id sources) docs,
  )

-- WHERE tenant_id = :tenant_id AND id = ANY(:ids) AND status = ANY(:from_statuses)
abbrev pub is_source_of : ℕ → List ℕ → List Status → Document → Bool
is_source_of tenant_id ids sources d =
    d.tenant == tenant_id && (contains d.id ids && member d.status sources)

unfoldable pub transition_many :
    ℕ
    → List Document
    → ℕ
    → List ℕ
    → List Status
    → Status
    → List Assign
    → Result (List Document × List ℕ)
transition_many clock docs tenant_id [] from_statuses to values = ok (docs, [])
transition_many clock docs tenant_id (i ∷ ids) from_statuses to values = do
  sources ← check from_statuses to
  parts ← assignments values
  let chosen = is_source_of tenant_id (i ∷ ids) sources
  ok (update_where chosen (move_row clock to parts) docs, returned chosen docs)
