-- ===== src/Matching/Measures.antt =====
-- `measure_signature` and `measures_agree` of packages/core/docflow_core/matching.py. The search by
-- `_MEASURE`, `(\d+(?:\.\d+)?) *([a-z]*)`, is a walk with a state.
use doc_flow.Prelude.{
  ℕ, Bool, true, false, ◌&&◌, Option, none, some, List, [], ◌∷◌, ◌++◌, ◌==◌, if◌then◌else◌,
}
use doc_flow.Prelude.Sort.{Text, text_leb, text_beq, sort}
use doc_flow.Matching.Keys.{CaseTable, is_digit, is_letter, normalize_description}

-- Where the search stands in a match. The number and the unit read so far go with it.
pub data Scan : Type 0 where
  idle : Scan
  whole : Text → Scan  -- in \d+
  point : Text → Scan  -- after a period that a digit must follow
  fraction : Text → Scan  -- in \.\d+
  gap : Text → Scan  -- in the spaces
  unit : Text → Text → Scan  -- in [a-z]*

-- A character from which no match goes on: a digit starts the next one.
abbrev pub restart : ℕ → Scan
restart c = if is_digit c then whole (c ∷ []) else idle

abbrev pub after_number : Text → ℕ → Scan × List (Text × Text)
after_number n c =
    if c == 32
    then (gap n, [])
    else if is_letter c
    then (unit n (c ∷ []), [])
    else (restart c, (n, []) ∷ [])

-- One character: the next state, and a match that ended before it.
unfoldable pub scan : Scan → ℕ → Scan × List (Text × Text)
scan idle c = (restart c, [])
scan (whole n) c =
    if is_digit c
    then (whole (n ++ c ∷ []), [])
    else if c == b'.'
    then (point n, [])
    else after_number n c
scan (point n) c = if is_digit c then (fraction (n ++ b'.' ∷ c ∷ []), []) else (idle, (n, []) ∷ [])
scan (fraction n) c = if is_digit c then (fraction (n ++ c ∷ []), []) else after_number n c
scan (gap n) c =
    if c == 32
    then (gap n, [])
    else if is_letter c
    then (unit n (c ∷ []), [])
    else (restart c, (n, []) ∷ [])
scan (unit n u) c = if is_letter c then (unit n (u ++ c ∷ []), []) else (restart c, (n, u) ∷ [])

abbrev pub at_end : Scan → List (Text × Text)
at_end idle = []
at_end (whole n) = (n, []) ∷ []
at_end (point n) = (n, []) ∷ []
at_end (fraction n) = (n, []) ∷ []
at_end (gap n) = (n, []) ∷ []
at_end (unit n u) = (n, u) ∷ []

unfoldable pub find_measures : Scan → Text → List (Text × Text)
find_measures st [] = at_end st
find_measures st (c ∷ s) = let (st', found) = scan st c in found ++ find_measures st' s

abbrev pub measure_leb : Text × Text → Text × Text → Bool
measure_leb (n, u) (m, v) = if text_beq n m then text_leb u v else text_leb n m

unfoldable pub measure_signature : CaseTable → Option Text → List (Text × Text)
unfolding find_measures
measure_signature t none = []
measure_signature t (some []) = []
measure_signature t (some (c ∷ s)) =
    sort measure_leb (find_measures idle (normalize_description t (some (c ∷ s))))

-- the equality of two tuples of pairs
unfoldable pub signature_beq : List (Text × Text) → List (Text × Text) → Bool
signature_beq [] [] = true
signature_beq [] (y ∷ ys) = false
signature_beq (x ∷ xs) [] = false
signature_beq ((n, u) ∷ xs) ((m, v) ∷ ys) = text_beq n m && (text_beq u v && signature_beq xs ys)

unfoldable pub measures_agree : CaseTable → Option Text → Option Text → Bool
unfolding signature_beq
measures_agree t left right = signature_beq (measure_signature t left) (measure_signature t right)
