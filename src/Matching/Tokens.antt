-- ===== src/Matching/Tokens.antt =====
-- The tokens of a description key, packages/core/docflow_core/matching.py.
use doc_flow.Prelude.{
  ℕ, true, false, Option, none, some, List, [], ◌∷◌, ◌++◌, ◌==◌, ◌≡◌, inl, inr, refl, All,
  Bool-cases, arith,
}
use doc_flow.Prelude.Sort.{Text, text_leb, insert, sort, sort-All}
use doc_flow.Matching.Catalog.{is_empty}
use doc_flow.Matching.Keys.{
  CaseTable, is_space, lstrip, rstrip, keep_or_end, glue, description_passes, normalize_description,
  split_words, add_word, words, join, sorted_tokens, lower_all,
}

-- A text that is empty or starts with no space.
abbrev pub Tight : Text → Type 0
Tight [] = Unit
Tight (c ∷ s) = is_space c ≡ false

lstrip-Tight : (s : Text) → Tight (lstrip s)
unfolding lstrip
lstrip-Tight [] = tt
lstrip-Tight (c ∷ s) = elim (Bool-cases (is_space c)) [
  | inl e ↦ rw e (lstrip-Tight s)
  | inr e ↦ rw e e
]

keep_or_end-Tight : (c : ℕ) (s : Text) → is_space c ≡ false → Tight (keep_or_end c s)
keep_or_end-Tight c [] e = rw e e
keep_or_end-Tight c (d ∷ s) e = e

rstrip-Tight : (s : Text) → Tight s → Tight (rstrip s)
unfolding rstrip
rstrip-Tight [] h = tt
rstrip-Tight (c ∷ s) h = keep_or_end-Tight c (rstrip s) h

not_blank : (c : ℕ) → is_space c ≡ false → (c == 32) ≡ false
not_blank c h = ground arith

glue-Tight : (s : Text) → Tight s → Tight (glue false false s)
unfolding glue
glue-Tight [] h = tt
glue-Tight (c ∷ s) h = rw (not_blank c h) h

passes-Tight : (s : Text) → Tight (description_passes s)
unfolding description_passes
passes-Tight s = glue-Tight _ (rstrip-Tight _ (lstrip-Tight _))

pub normalize-Tight : (t : CaseTable) (v : Option Text) → Tight (normalize_description t v)
unfolding normalize_description
normalize-Tight t none = tt
normalize-Tight t (some []) = tt
normalize-Tight t (some (c ∷ s)) = passes-Tight (lower_all t (c ∷ s))

-- A text, or a list of words, with something in it.
abbrev Inhabited {ℓ} : {A : Type ℓ} → List A → Type 0
Inhabited [] = ⊥
Inhabited (x ∷ xs) = Unit

add_word-All : (w : Text) (ws : List Text) → All Inhabited ws → All Inhabited (add_word w ws)
add_word-All [] ws h = h
add_word-All (c ∷ w) ws h = (tt, h)

split_words-All : (s : Text) → All Inhabited (split_words s).1
unfolding split_words
split_words-All [] = tt
split_words-All (c ∷ s) = elim (Bool-cases (is_space c)) [
  | inl e ↦ rw e (add_word-All _ _ (split_words-All s))
  | inr e ↦ rw e (split_words-All s)
]

words-All : (s : Text) → All Inhabited (words s)
unfolding words
words-All s = add_word-All _ _ (split_words-All s)

words-Inhabited : (c : ℕ) (s : Text) → is_space c ≡ false → Inhabited (words (c ∷ s))
unfolding words split_words
words-Inhabited c s e = rw e tt

insert-Inhabited : (w : Text) (ws : List Text) → Inhabited (insert text_leb w ws)
unfolding insert
insert-Inhabited w [] = tt
insert-Inhabited w (v ∷ ws) = elim (Bool-cases (text_leb w v)) [ inl e ↦ rw e tt | inr e ↦ rw e tt ]

sort-Inhabited : (ws : List Text) → Inhabited ws → Inhabited (sort text_leb ws)
unfolding sort
sort-Inhabited [] h = absurd h
sort-Inhabited (w ∷ ws) h = insert-Inhabited w (sort text_leb ws)

append-Inhabited : (a b : Text) → Inhabited a → Inhabited (a ++ b)
append-Inhabited [] b h = absurd h
append-Inhabited (c ∷ a) b h = tt

join-Inhabited : (ws : List Text) → Inhabited ws → All Inhabited ws → Inhabited (join ws)
unfolding join
join-Inhabited [] h k = absurd h
join-Inhabited (w ∷ []) h (k, ks) = k
join-Inhabited (w ∷ v ∷ ws) h (k, ks) = append-Inhabited w _ k

tokens-Inhabited : (c : ℕ) (s : Text) → is_space c ≡ false → Inhabited (sorted_tokens (c ∷ s))
unfolding sorted_tokens
tokens-Inhabited c s e =
    join-Inhabited _ (sort-Inhabited _ (words-Inhabited c s e))
      (sort-All text_leb Inhabited _ (words-All (c ∷ s)))

not-Inhabited : (s : Text) → is_empty s ≡ true → Inhabited s → ⊥
not-Inhabited [] e h = h
not-Inhabited (c ∷ s) e h = absurd (cc e)

-- A tight text without tokens is empty.
pub empty_tokens : (s : Text) → Tight s → is_empty (sorted_tokens s) ≡ true → is_empty s ≡ true
empty_tokens [] h e = refl
empty_tokens (c ∷ s) h e = absurd (not-Inhabited _ e (tokens-Inhabited c s h))
