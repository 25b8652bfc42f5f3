-- ===== src/Status/Table.antt =====
-- `STATUSES` and `ALLOWED` of packages/core/docflow_core/document_status.py.
use doc_flow.Prelude.{Bool, true, false, ◌||◌, List, [], ◌∷◌, ◌≡◌, arith}

pub data Status : Type 0 where
  pending staged quarantined processing needs_review failed approved exported rejected : Status

-- `old == new`, on the enumeration
abbrev pub same : Status → Status → Bool
same pending pending = true
same staged staged = true
same quarantined quarantined = true
same processing processing = true
same needs_review needs_review = true
same failed failed = true
same approved approved = true
same exported exported = true
same rejected rejected = true
same _ _ = false

-- `(old, new) in ALLOWED`
abbrev pub listed : Status → Status → Bool
listed pending processing = true
listed pending quarantined = true
listed pending failed = true
listed staged pending = true
listed quarantined pending = true
listed processing pending = true
listed processing needs_review = true
listed processing failed = true
listed needs_review approved = true
listed needs_review rejected = true
listed approved exported = true
listed approved needs_review = true
listed exported needs_review = true
listed rejected needs_review = true
listed _ _ = false

unfoldable pub is_allowed : Status → Status → Bool
is_allowed old new = same old new || listed old new

-- `status = ANY(from_statuses)`
abbrev pub member : Status → List Status → Bool
member s [] = false
member s (t ∷ ts) = same s t || member s ts

pub same→eq : (a b : Status) → same a b ≡ true → a ≡ b
same→eq a b h = ground arith
