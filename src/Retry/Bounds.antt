-- ===== src/Retry/Bounds.antt =====
-- The guarantee of packages/core/docflow_core/retry_rules.py: whatever way its tries end, a
-- document gets a bounded number of them, and at most one after the first that timed out.
use doc_flow.Prelude.{
  ℕ, ◌+◌, ◌≤◌, ◌<◌, Bool, true, false, ◌&&◌, ◌||◌, ◌≡◌, refl, List, [], ◌∷◌, ◌++◌, length, any, leb,
  arith, if◌then◌else◌,
}
use doc_flow.Status.Row.{Document}
use doc_flow.Status.Claims.{claim_row, add_timeout, add_parse_lost}
use doc_flow.Retry.{Cause, timeout, worker_stopped, Decision, retry, fail, nonempty, least, decide}

-- How one try ended: at the task's hard time limit, with its parse request lost, or with its worker
-- gone.
pub data Ending : Type 0 where
  stopped timed_out parse_lost : Ending

-- A try: the claim at `clock`, and what is recorded of its end.
abbrev pub attempt : ℕ → Ending → Document → Document
attempt clock stopped d = claim_row clock d
attempt clock timed_out d = add_timeout (claim_row clock d)
attempt clock parse_lost d = add_parse_lost (claim_row clock d)

abbrev pub decide_row : ℕ → Document → Decision
decide_row max_attempts d =
    decide d.processing_attempts d.timeout_attempts max_attempts d.parse_lost_attempts

-- After each of these tries the decision was to try again.
abbrev pub Retried : ℕ → ℕ → Document → List Ending → Type 0
Retried max_attempts clock d [] = Unit
Retried max_attempts clock d (e ∷ es) =
    (decide_row max_attempts (attempt clock e d) ≡ retry)
    × Retried max_attempts clock (attempt clock e d) es

abbrev pub is_stopped : Ending → Bool
is_stopped stopped = true
is_stopped _ = false

-- Only the last of them is timeout-class.
abbrev pub timeouts_last : List Ending → Bool
timeouts_last [] = true
timeouts_last (e ∷ []) = true
timeouts_last (e ∷ f ∷ es) = is_stopped e && timeouts_last (f ∷ es)

-- The row as intake stores it.
abbrev pub IsFresh : Document → Type 0
IsFresh d = (d.processing_attempts ≡ 0) × (d.timeout_attempts ≡ []) × (d.parse_lost_attempts ≡ [])

least-le :
    (k : ℕ) (xs : List ℕ) → any (λ x. leb x k) xs ≡ true → (least xs ≤ k) × (nonempty xs ≡ true)
least-le k [] h = cc
least-le k (x ∷ []) h = ground arith
least-le k (x ∷ y ∷ ys) h = ground (arith, least-le k (y ∷ ys))

any-append {ℓ} :
    {A : Type ℓ} (p : A → Bool) (xs ys : List A) → any p (xs ++ ys) ≡ (any p xs || any p ys)
any-append p [] ys = refl
any-append p (x ∷ xs) ys = ground (arith, any-append p xs ys)

-- A try has ended timeout-class at or before the current one.
abbrev Suspect : Document → Type 0
Suspect d =
    any (λ x. leb x d.processing_attempts) (d.timeout_attempts ++ d.parse_lost_attempts) ≡ true

decide_suspect :
    (n k max_attempts : ℕ) (xs ys : List ℕ)
    → any (λ x. leb x k) (xs ++ ys) ≡ true
    → k < n
    → decide n xs max_attempts ys ≡ retry
    → ⊥
unfolding decide
decide_suspect n k max_attempts xs ys h lt e = ground (arith, least-le k (xs ++ ys) h)

any-append_left :
    (k : ℕ) (xs ys zs : List ℕ)
    → any (λ x. leb x k) (xs ++ zs) ≡ true
    → any (λ x. leb x k) ((xs ++ ys) ++ zs) ≡ true
any-append_left k [] ys zs h = rw (any-append (λ x. leb x k) ys zs) (ground (arith, h))
any-append_left k (x ∷ xs) ys zs h = ground (arith, any-append_left k xs ys zs)

any-append_right :
    (k : ℕ) (xs ys zs : List ℕ)
    → any (λ x. leb x k) (xs ++ ys) ≡ true
    → any (λ x. leb x k) (xs ++ (ys ++ zs)) ≡ true
any-append_right k [] ys zs h = rw (any-append (λ x. leb x k) ys zs) (ground (arith, h))
any-append_right k (x ∷ xs) ys zs h = ground (arith, any-append_right k xs ys zs)

if-any :
    (k : ℕ) (b : Bool) (xs ys zs : List ℕ)
    → any (λ x. leb x k) (xs ++ ys) ≡ true
    → any (λ x. leb x k) (xs ++ (if b then ys else ys ++ zs)) ≡ true
if-any k true xs ys zs h = h
if-any k false xs ys zs h = any-append_right k xs ys zs h

-- After a suspect try, one more try is never followed by a decision to retry.
Suspect-stops :
    (max_attempts clock : ℕ) (d : Document) (e : Ending) (es : List Ending)
    → Suspect d
    → Retried max_attempts clock d (e ∷ es)
    → ⊥
Suspect-stops m clock d stopped es s (h, _) =
    decide_suspect _ d.processing_attempts m d.timeout_attempts d.parse_lost_attempts s
      (omega arith) h
Suspect-stops m clock d timed_out es s (h, _) =
    decide_suspect _ d.processing_attempts m _ d.parse_lost_attempts
      (any-append_left d.processing_attempts d.timeout_attempts _ d.parse_lost_attempts s)
      (omega arith) h
Suspect-stops m clock d parse_lost es s (h, _) =
    decide_suspect _ d.processing_attempts m d.timeout_attempts _
      (if-any d.processing_attempts _ d.timeout_attempts d.parse_lost_attempts _ s) (omega arith) h

decide_retry_bound :
    (n max_attempts : ℕ) (xs ys : List ℕ) → decide n xs max_attempts ys ≡ retry → n < max_attempts
unfolding decide
decide_retry_bound n m xs ys h = ground arith

module _ (max_attempts clock : ℕ) where
  Retried-length :
      (d : Document) (es : List Ending)
      → d.timeout_attempts ≡ []
      → d.parse_lost_attempts ≡ []
      → d.processing_attempts < max_attempts
      → Retried max_attempts clock d es
      → (d.processing_attempts + length es < max_attempts) × (timeouts_last es ≡ true)
  Retried-length d [] t l lt r = (omega arith, refl)
  Retried-length d (stopped ∷ []) t l lt (h, r) =
      (omega (arith, decide_retry_bound _ max_attempts _ _ h), refl)
  Retried-length d (stopped ∷ e ∷ es) t l lt (h, r) =
      let (bound, last) =
        Retried-length (claim_row clock d) (e ∷ es) t l (decide_retry_bound _ max_attempts _ _ h)
          r in
      (omega arith, last)
  Retried-length d (timed_out ∷ []) t l lt (h, r) =
      (omega (arith, decide_retry_bound _ max_attempts _ _ h), refl)
  Retried-length d (timed_out ∷ e ∷ es) t l lt (h, r) =
      absurd
        (Suspect-stops max_attempts clock (attempt clock timed_out d) e es (rw t (ground arith)) r)
  Retried-length d (parse_lost ∷ []) t l lt (h, r) =
      (omega (arith, decide_retry_bound _ max_attempts _ _ h), refl)
  Retried-length d (parse_lost ∷ e ∷ es) t l lt (h, r) = absurd (
      Suspect-stops max_attempts clock (attempt clock parse_lost d) e es (rw (t, l) (ground arith))
        r)

-- From intake on, if every try so far was answered by "retry", there were fewer than
-- `max_attempts` of them, and only the last one hit the time limit or lost its parse request. So
-- a document gets at most `max_attempts` tries, and at most one after the first timeout-class try.
pub tries_bounded :
    (max_attempts clock : ℕ) (d : Document) (es : List Ending)
    → 0 < max_attempts
    → IsFresh d
    → Retried max_attempts clock d es
    → (length es < max_attempts) × (timeouts_last es ≡ true)
tries_bounded m clock d es pos (a, t, l) r =
    let (bound, last) = Retried-length m clock d es t l (omega arith) r in (omega arith, last)

-- A failure names a time limit exactly if some try was timeout-class, and otherwise the worker.
pub decide_cause :
    (n max_attempts : ℕ) (xs ys : List ℕ) (c : Cause)
    → decide n xs max_attempts ys ≡ fail c
    → c ≡ (if nonempty (xs ++ ys) then timeout else worker_stopped)
unfolding decide
decide_cause n m xs ys c h = ground arith
