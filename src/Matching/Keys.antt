-- ===== src/Matching/Keys.antt =====
-- The comparison keys of packages/core/docflow_core/matching.py: the regular expressions as walks
-- over the code points of a text.
use doc_flow.Prelude.{
  ℕ, suc, Bool, true, false, not, ◌&&◌, ◌||◌, Option, none, some, List, [], ◌∷◌, ◌++◌, map, filter,
  contains, leb, ◌==◌, ◌≡◌, if◌then◌else◌,
}
use doc_flow.Prelude.Sort.{Text, text_leb, sort}

abbrev pub is_digit : ℕ → Bool
is_digit c = leb b'0' c && leb c b'9'

abbrev pub is_letter : ℕ → Bool
is_letter c = leb b'a' c && leb c b'z'

-- What the description key is made of, besides the space.
abbrev pub is_key_char : ℕ → Bool
is_key_char c = is_letter c || (is_digit c || c == b'.')

-- Python's Unicode tables: the lower and the upper case of a code point. (`str.lower` reads the
-- neighbours of a capital sigma only, and both of its answers there are not ASCII.)
pub record CaseTable : Type 0 where
  pub lower : ℕ → Text
  pub upper : ℕ → Text
  -- lower-case ASCII letters, digits and the period have no other lower case
  pub lower_key : (c : ℕ) → is_key_char c ≡ true → lower c ≡ c ∷ []
  pub lower_space : lower 32 ≡ 32 ∷ []

-- `str.isspace` and `\s`
abbrev pub is_space : ℕ → Bool
is_space c =
    (leb 9 c && leb c 13)
    || ((leb 28 c && leb c 32)
        || contains c (
            133 ∷ 160 ∷ 5760 ∷ 8192 ∷ 8193 ∷ 8194 ∷ 8195 ∷ 8196 ∷ 8197 ∷ 8198 ∷ 8199 ∷ 8200 ∷ 8201
            ∷ 8202 ∷ 8232 ∷ 8233 ∷ 8239 ∷ 8287 ∷ 12288 ∷ []))

-- `_APOSTROPHES`, `_INVISIBLE`, `_NBSP`
abbrev pub is_apostrophe : ℕ → Bool
is_apostrophe c = contains c (39 ∷ 8217 ∷ 700 ∷ 96 ∷ [])

abbrev pub is_invisible : ℕ → Bool
is_invisible c = contains c (8203 ∷ 8204 ∷ 8205 ∷ 65279 ∷ [])

abbrev pub is_nbsp : ℕ → Bool
is_nbsp c = contains c (160 ∷ 8199 ∷ 8239 ∷ [])

-- `re.sub` of one character by nothing, and by a space
abbrev pub without : (ℕ → Bool) → Text → Text
without p s = filter (λ c. not (p c)) s

unfoldable pub spaced_where : (ℕ → Bool) → Text → Text
spaced_where p s = map (λ c. if p c then 32 else c) s

-- `re.sub(r"[p]+", " ", s)`; `inside` says that the character before was in the run
unfoldable pub squeeze : (ℕ → Bool) → Bool → Text → Text
squeeze p inside [] = []
squeeze p inside (c ∷ s) =
    let rest = squeeze p (p c) s in if p c then (if inside then rest else 32 ∷ rest) else c ∷ rest

abbrev pub starts_with : (ℕ → Bool) → Text → Bool
starts_with p [] = false
starts_with p (c ∷ s) = p c

-- `_DESC_STRAY_PERIOD`: `(?<!\d)\.|\.(?!\d)`, with whether the character before is a digit
unfoldable pub drop_stray : Bool → Text → Text
drop_stray after_digit [] = []
drop_stray after_digit (c ∷ s) =
    let rest = drop_stray (is_digit c) s in
    if c == b'.' && not (after_digit && starts_with is_digit s) then rest else c ∷ rest

-- `s.strip()`
unfoldable pub lstrip : Text → Text
lstrip [] = []
lstrip (c ∷ s) = let rest = lstrip s in if is_space c then rest else c ∷ s

abbrev pub keep_or_end : ℕ → Text → Text
keep_or_end c [] = if is_space c then [] else c ∷ []
keep_or_end c (d ∷ s) = c ∷ d ∷ s

unfoldable pub rstrip : Text → Text
rstrip [] = []
rstrip (c ∷ s) = keep_or_end c (rstrip s)

abbrev pub strip : Text → Text
strip s = rstrip (lstrip s)

abbrev pub letters_run : Text → ℕ
letters_run [] = 0
letters_run (c ∷ s) = let rest = letters_run s in if is_letter c then suc rest else 0

-- `[a-z]{1,4}(?![a-z])` at the start, after the spaces of the run
abbrev pub unit_follows : Text → Bool
unit_follows [] = false
unit_follows (c ∷ s) =
    let rest = unit_follows s in
    if c == 32 then rest else leb 1 (letters_run (c ∷ s)) && leb (letters_run (c ∷ s)) 4

-- `_MEASURE_GLUE`: whether the character before is a digit, and whether the run of spaces that is
-- being read is dropped
unfoldable pub glue : Bool → Bool → Text → Text
glue after_digit dropping [] = []
glue after_digit dropping (c ∷ s) =
    let drop = c == 32 && (dropping || (after_digit && unit_follows s)) in
    let rest = glue (is_digit c) drop s in if drop then rest else c ∷ rest

abbrev pub lower_all : CaseTable → Text → Text
lower_all t [] = []
lower_all t (c ∷ s) = t.lower c ++ lower_all t s

abbrev pub upper_all : CaseTable → Text → Text
upper_all t [] = []
upper_all t (c ∷ s) = t.upper c ++ upper_all t s

-- The passes of `normalize_description` after `lower`.
unfoldable pub description_passes : Text → Text
description_passes s =
    let lowered = without is_apostrophe (without is_invisible (spaced_where is_nbsp s)) in
    let spaced = squeeze (λ c. not (is_key_char c)) false lowered in
    let without_periods = drop_stray false spaced in
    let collapsed = strip (squeeze is_space false without_periods) in glue false false collapsed

-- `None` and the empty text have the empty key
unfoldable pub normalize_description : CaseTable → Option Text → Text
normalize_description t none = []
normalize_description t (some []) = []
normalize_description t (some (c ∷ s)) = description_passes (lower_all t (c ∷ s))

unfoldable pub normalize_sku : CaseTable → Option Text → Text
normalize_sku t none = []
normalize_sku t (some []) = []
normalize_sku t (some (c ∷ s)) =
    let cleaned = without is_invisible (spaced_where is_nbsp (c ∷ s)) in
    upper_all t (strip (squeeze is_space false cleaned))

-- `_SKU_NON_ALNUM` is replaced by nothing, so its runs need no care.
unfoldable pub sku_comparison_key : CaseTable → Option Text → Text
unfolding normalize_sku
sku_comparison_key t value =
    filter (λ c. is_letter c || is_digit c) (lower_all t (normalize_sku t value))

-- `s.split()`, with the word that is being read, backwards
abbrev pub add_word : Text → List Text → List Text
add_word [] ws = ws
add_word (c ∷ w) ws = (c ∷ w) ∷ ws

-- the first word of the text, and the words after it
unfoldable pub split_words : Text → Text × List Text
split_words [] = ([], [])
split_words (c ∷ s) =
    let (w, ws) = split_words s in if is_space c then ([], add_word w ws) else (c ∷ w, ws)

unfoldable pub words : Text → List Text
unfolding split_words
words s = let (w, ws) = split_words s in add_word w ws

-- `" ".join(ws)`
unfoldable pub join : List Text → Text
join [] = []
join (w ∷ []) = w
join (w ∷ v ∷ ws) = w ++ (32 ∷ join (v ∷ ws))

unfoldable pub sorted_tokens : Text → Text
unfolding words join
sorted_tokens description_key = join (sort text_leb (words description_key))
