-- ===== src/Display/Layout.antt =====
-- useDisplayLayout.ts: the state that the hook keeps, and what the answer to each poll of
-- `GET /api/display/{slug}` does to it. An answer that comes after the effect was cleaned up is
-- `cancelled`. Polls are numbered by their answers: a run is the list of answers in their order.
use mullet.Base.{
  ℕ, Text, Bool, true, false, Option, none, some, List, [], ◌∷◌, ◌++◌, All, ◌≡◌, ◌≢◌, ◌⊎◌, inl, inr,
  refl, ap, ◌∙◌, if◌then◌else◌,
}
use mullet.Theme.Tokens.{default_theme, resolve}
use mullet.Display.{DisplayLayout, RawLayout}

-- `setError`'s texts: `'not found'`, `status ${res.status}`, and an exception's message.
pub data LoadError : Type 0 where
  not_found : LoadError
  bad_status : ℕ → LoadError
  message : Text → LoadError

pub data Response (Number : Type 0) : Type 0 where
  found : RawLayout Number → Response Number
  missing : Response Number
  failed : ℕ → Response Number
  unreachable : Text → Response Number

pub record Answer (Number : Type 0) : Type 0 where
  pub cancelled : Bool
  pub response : Response Number

pub record Poll (Number : Type 0) : Type 0 where
  pub layout : Option (DisplayLayout Number)
  pub error : Option LoadError
  pub not_found : Bool

-- `{ ...raw, theme: { ...defaultTheme, ...raw.theme } }`; `one` is the number 1.
pub complete : {Number : Type 0} → Number → RawLayout Number → DisplayLayout Number
complete one raw = record (raw.display) { theme = resolve (default_theme one) raw.raw_theme }

module _ {Number : Type 0} (one : Number) where
  -- The hook's first state.
  abbrev pub start : Poll Number
  start = record { layout = none; error = none; not_found = false }

  unfoldable pub load : Poll Number → Response Number → Poll Number
  load p (found raw) = record { layout = some (complete one raw); error = none; not_found = false }
  load p missing = record p { error = some LoadError.not_found; not_found = true }
  load p (failed status) = record p { error = some (bad_status status) }
  load p (unreachable text) = record p { error = some (message text) }

  unfoldable pub receive : Poll Number → Answer Number → Poll Number
  receive p a = if a.cancelled then p else load p a.response

  unfoldable pub run : Poll Number → List (Answer Number) → Poll Number
  run p [] = p
  run p (a ∷ rest) = run (receive p a) rest

  run-append :
      (p : Poll Number) (xs ys : List (Answer Number)) → run p (xs ++ ys) ≡ run (run p xs) ys
  unfolding run
  run-append p [] ys = refl
  run-append p (a ∷ xs) ys = run-append (receive p a) xs ys

  -- Answers that bring no layout: cancelled ones and failures.
  abbrev pub BringsNone : Answer Number → Type 0
  BringsNone a = (a.cancelled ≡ true) ⊎ ((raw : RawLayout Number) → a.response ≢ found raw)

  abbrev pub live : Response Number → Answer Number
  live r = record { cancelled = false; response = r }

  load-layout :
      (p : Poll Number) (r : Response Number)
      → ((raw : RawLayout Number) → r ≢ found raw)
      → (load p r).layout ≡ p.layout
  unfolding load
  load-layout p (found raw) h = absurd (h raw refl)
  load-layout p missing h = refl
  load-layout p (failed status) h = refl
  load-layout p (unreachable text) h = refl

  receive-layout :
      (p : Poll Number) (a : Answer Number) → BringsNone a → (receive p a).layout ≡ p.layout
  unfolding receive
  receive-layout p a (inl c) = rw c
  receive-layout p a (inr h) = kept a.cancelled
    where
      kept : (c : Bool) → (if c then p else load p a.response).layout ≡ p.layout
      kept true = refl
      kept false = load-layout p a.response h

  run-layout :
      (p : Poll Number) (answers : List (Answer Number))
      → All BringsNone answers
      → (run p answers).layout ≡ p.layout
  unfolding run
  run-layout p [] _ = refl
  run-layout p (a ∷ rest) (h, hs) = run-layout (receive p a) rest hs ∙ receive-layout p a h

  -- The layout shown is the one that the latest live success brought, completed by the default
  -- theme, whatever happened before and whatever failures or stale answers came after it.
  pub run-layout_found :
      (p : Poll Number) (before after : List (Answer Number)) (raw : RawLayout Number)
      → All BringsNone after
      → (run p (before ++ live (found raw) ∷ after)).layout ≡ some (complete one raw)
  run-layout_found p before after raw h =
      ap (λ q. q.layout) (run-append p before (live (found raw) ∷ after))
      ∙ unfold run receive load in run-layout (load (run p before) (found raw)) after h

  abbrev pub error_of : Response Number → Option LoadError
  error_of (found raw) = none
  error_of missing = some LoadError.not_found
  error_of (failed status) = some (bad_status status)
  error_of (unreachable text) = some (message text)

  abbrev pub AreCancelled : List (Answer Number) → Type 0
  AreCancelled = All (λ a. a.cancelled ≡ true)

  run-cancelled :
      (p : Poll Number) (answers : List (Answer Number)) → AreCancelled answers → run p answers ≡ p
  unfolding run receive
  run-cancelled p [] _ = refl
  run-cancelled p (a ∷ rest) (h, hs) = rw h (run-cancelled p rest hs)

  load-error : (p : Poll Number) (r : Response Number) → (load p r).error ≡ error_of r
  unfolding load
  load-error p (found raw) = refl
  load-error p missing = refl
  load-error p (failed status) = refl
  load-error p (unreachable text) = refl

  -- The error is that of the latest live answer, and is cleared by a success: nothing earlier and no
  -- stale answer counts.
  pub run-error_last :
      (p : Poll Number) (before after : List (Answer Number)) (r : Response Number)
      → AreCancelled after
      → (run p (before ++ live r ∷ after)).error ≡ error_of r
  run-error_last p before after r h =
      ap (λ q. q.error) (run-append p before (live r ∷ after))
      ∙ unfold run receive in
        (ap (λ q. q.error) (run-cancelled (load (run p before) r) after h)
          ∙ load-error (run p before) r)

  -- A display that was reported missing has an error.
  pub IsConsistent : Poll Number → Type 0
  IsConsistent p = p.not_found ≡ true → p.error ≢ none

  load-IsConsistent : (p : Poll Number) (r : Response Number) → IsConsistent (load p r)
  unfolding IsConsistent load
  load-IsConsistent p (found raw) h = absurd (cc)
  load-IsConsistent p missing h = λ e. cc
  load-IsConsistent p (failed status) h = λ e. cc
  load-IsConsistent p (unreachable text) h = λ e. cc

  receive-IsConsistent :
      (p : Poll Number) (a : Answer Number) → IsConsistent p → IsConsistent (receive p a)
  unfolding receive
  receive-IsConsistent p a h = kept a.cancelled
    where
      kept : (c : Bool) → IsConsistent (if c then p else load p a.response)
      kept true = h
      kept false = load-IsConsistent p a.response

  pub run-IsConsistent :
      (p : Poll Number) (answers : List (Answer Number))
      → IsConsistent p
      → IsConsistent (run p answers)
  unfolding run
  run-IsConsistent p [] h = h
  run-IsConsistent p (a ∷ rest) h = run-IsConsistent (receive p a) rest (receive-IsConsistent p a h)
