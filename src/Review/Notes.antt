-- ===== src/Review/Notes.antt =====
-- The text of an acknowledged warning, and the notes that an approval records on the warnings:
-- `acknowledgement_text` and the middle of `approve_document`, packages/core/docflow_core/review.py.
use doc_flow.Prelude.{
  ℕ, suc, ◌+◌, ◌/◌, ◌%◌, Bool, ◌&&◌, Option, none, some, List, [], ◌∷◌, ◌++◌, map, all, contains,
  ◌==◌, if◌then◌else◌, is_some,
}
use doc_flow.Prelude.Sort.{Text, text_leb, sort}
use doc_flow.Status.Table.{Status, needs_review, approved, exported, rejected}
use doc_flow.Validation.Numbers.{digits, non_empty}
use doc_flow.Validation.Sync.{WarningRow, acknowledged}
use doc_flow.Export.Csv.{codes}
use doc_flow.Review.Rows.{WarningAcknowledgement, AcknowledgedRow, Server}

abbrev pub reviewable_statuses : List Status
reviewable_statuses = needs_review ∷ []

abbrev pub reopenable_statuses : List Status
reopenable_statuses = approved ∷ exported ∷ rejected ∷ []

-- What a reviewer supplies when approving.
pub record Acknowledgement : Type 0 where
  pub warning_id : ℕ
  pub note_text : Option Text

-- `separator.join(parts)`
abbrev pub join_with : Text → List Text → Text
join_with separator [] = []
join_with separator (p ∷ []) = p
join_with separator (p ∷ q ∷ parts) = p ++ separator ++ join_with separator (q ∷ parts)

-- `.replace("_", " ")`
abbrev pub spaced : Text → Text
spaced s = map (λ c. if c == 95 then 32 else c) s

abbrev pub decimal : ℕ → Text
decimal n = digits (suc n) n

abbrev pub line_part : Option ℕ → List Text
line_part none = []
line_part (some n) = (codes "Line " ++ decimal n) ∷ []

abbrev pub field_part : Option Text → List Text
field_part none = []
field_part (some []) = []
field_part (some (c ∷ s)) = spaced (c ∷ s) ∷ []

abbrev pub specific_parts : List (Text × Text) → List Text
specific_parts [] = []
specific_parts ((key, value) ∷ rest) =
    let others = specific_parts rest in
    if non_empty value then (spaced key ++ codes ": " ++ value) ∷ others else others

abbrev pub key_leb : Text × Text → Text × Text → Bool
key_leb (a, _) (b, _) = text_leb a b

-- `VAL-` and the three digits of a code
abbrev pub warning_code : ℕ → Text
warning_code code =
    codes "VAL-" ++ (code / 100 % 10 + 48) ∷ (code / 10 % 10 + 48) ∷ (code % 10 + 48) ∷ []

-- the place in front of a colon, where there is one
abbrev pub after_place : List Text → Text → Text
after_place [] said = said
after_place (p ∷ places) said = join_with (codes " / ") (p ∷ places) ++ codes ": " ++ said

unfoldable pub acknowledgement_text :
    Server → ℕ → Option Text → Option ℕ → List (Text × Text) → Text
acknowledgement_text server code field_name line_number detail =
    let (title, message) = server.warning_entry code detail in
    let specifics = join_with (codes ", ") (specific_parts (sort key_leb detail)) in
    let said =
      after_place (line_part line_number ++ field_part field_name)
        (warning_code code ++ codes " " ++ title ++ codes ". " ++ message) in
    if non_empty specifics then said ++ codes " (" ++ specifics ++ codes ")" else said

-- `{a.warning_id: a.note for a in acknowledgements}`: a later note of the same warning replaces it
abbrev pub Notes : Type 0
Notes = List (ℕ × Option Text)

abbrev pub set_note : ℕ → Option Text → Notes → Notes
set_note i v [] = (i, v) ∷ []
set_note i v ((j, w) ∷ rest) = if i == j then (j, v) ∷ rest else (j, w) ∷ set_note i v rest

unfoldable pub collect_notes : List Acknowledgement → Notes → Notes
collect_notes [] found = found
collect_notes (a ∷ acks) found = collect_notes acks (set_note a.warning_id a.note_text found)

abbrev pub noted_ids : Notes → List ℕ
noted_ids [] = []
noted_ids ((i, v) ∷ rest) = i ∷ noted_ids rest

-- `open_by_id.get(warning_id)`
abbrev pub find_open : ℕ → List WarningRow → Option WarningRow
find_open i [] = none
find_open i (w ∷ rows) = if i == w.id then some w else find_open i rows

abbrev pub recorded_warning : Server → Option Text → WarningRow → WarningAcknowledgement
recorded_warning server v w = record {
  warning_id = w.id;
  code = w.content.code;
  text =
      acknowledgement_text server w.content.code w.content.field_name w.content.line_number
        w.content.detail;
  note_text = v;
}

abbrev pub cons_recorded :
    Server
    → Option Text
    → Option WarningRow
    → List WarningAcknowledgement
    → List WarningAcknowledgement
cons_recorded server v none rest = rest
cons_recorded server v (some w) rest = recorded_warning server v w ∷ rest

-- the list of `WarningAcknowledgement`; every id of `notes` is open by now
unfoldable pub recorded_of : Server → List WarningRow → Notes → List WarningAcknowledgement
recorded_of server opens [] = []
recorded_of server opens ((i, v) ∷ rest) =
    cons_recorded server v (find_open i opens) (recorded_of server opens rest)

-- no warning of `notes` is unknown, and no open one is outstanding
abbrev pub all_known : List WarningRow → Notes → Bool
all_known opens notes = all (λ i. is_some (find_open i opens)) (noted_ids notes)

abbrev pub all_noted : List WarningRow → Notes → Bool
all_noted opens notes = all (λ w. contains w.id (noted_ids notes)) opens

-- the UPDATE of one warning
abbrev pub acknowledge_row : ℕ → WarningAcknowledgement → WarningRow → WarningRow
acknowledge_row document_id a w =
    if w.id == a.warning_id && w.document_id == document_id
    then record w { status = acknowledged }
    else w

unfoldable pub acknowledge_each :
    ℕ → List WarningAcknowledgement → List WarningRow → List WarningRow
acknowledge_each document_id [] rows = rows
acknowledge_each document_id (a ∷ acks) rows =
    acknowledge_each document_id acks (map (acknowledge_row document_id a) rows)

abbrev pub acknowledged_row : ℕ → ℕ → ℕ → WarningAcknowledgement → AcknowledgedRow
acknowledged_row now user_id action_id a = record {
  warning_id = a.warning_id;
  acknowledged_by = user_id;
  acknowledged_at = now;
  acknowledgement_note = a.note_text;
  acknowledged_review_action_id = action_id;
}
