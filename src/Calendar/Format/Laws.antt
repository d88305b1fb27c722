-- ===== src/Calendar/Format/Laws.antt =====
-- What any fuel above the length of a pattern gives, and the pattern that writes a day as its key.
use mathlib.Core.List.{append-nil}
use mullet.Base.{
  ℕ, zero, suc, ◌+◌, ◌≤◌, ◌<◌, Text, codes, strip, join, All, Option, none, some, List, [], ◌∷◌,
  ◌++◌, length, ◌≡◌, refl, ap, ◌∙◌, arith, Option-cases, inl, inr,
}
use mullet.Calendar.Dates.{date_of}
use mullet.Calendar.Decimal.{decimal, pad_2}
use mullet.Calendar.Keys.{local_day_key}
use mullet.Calendar.Format.{
  Token, tokens, match_token, token_text, prepend, format_step, format_from, format_custom_date,
}

strip-length : (p s r : Text) → strip p s ≡ some r → length p + length r ≡ length s
unfolding strip
strip-length [] s r h = ground arith
strip-length (c ∷ p) [] r h = absurd (cc)
strip-length (c ∷ p) (d ∷ s) r h = ground (arith, strip-length p s r)

abbrev matched_length : Option (Token × Text) → ℕ
matched_length none = 0
matched_length (some (_, r)) = length r

-- A match takes at least one unit.
match_token-shorter :
    (names : List (Text × Token)) (s : Text) (t : Token) (r : Text)
    → All (λ (a : Text × Token). 1 ≤ length a.0) names
    → match_token names s ≡ some (t, r)
    → length r < length s
unfolding match_token
match_token-shorter [] s t r _ h = absurd (cc)
match_token-shorter ((name, u) ∷ more) s t r (filled, fs) h = elim (Option-cases (strip name s)) [
  | inl e ↦ match_token-shorter more s t r fs (rw e at h)
  | inr (rest, e) ↦
      let same : length rest ≡ length r = ap matched_length (rw e at h) in
      omega (arith, strip-length name s rest e)
]

pub tokens_shorter :
    (s : Text) (t : Token) (r : Text) → match_token tokens s ≡ some (t, r) → length r < length s
tokens_shorter s t r h = match_token-shorter tokens s t r (omega arith) h

module _ (locale : Token → ℕ → Text) where
  -- What any fuel above the length of the pattern gives.
  abbrev pub Gives : ℕ → Text → Text → Type 0
  Gives n pattern r = (f : ℕ) → length pattern < f → format_from locale f n pattern ≡ some r

  pub nil-Gives : (n : ℕ) → Gives n [] []
  unfolding format_from
  nil-Gives n zero h = absurd (omega arith)
  nil-Gives n (suc f) h = refl

  pub unit-Gives :
      (n c : ℕ) (s r : Text)
      → match_token tokens (c ∷ s) ≡ none
      → Gives n s r
      → Gives n (c ∷ s) (c ∷ r)
  unfolding format_from
  unit-Gives n c s r e more zero h = absurd (omega arith)
  unit-Gives n c s r e more (suc f) h =
      ap (format_step locale n c s (λ rest. format_from locale f n rest)) e
      ∙ ap (prepend locale (c ∷ [])) (more f (omega arith))

  pub token-Gives :
      (n c : ℕ) (s : Text) (t : Token) (rest r : Text)
      → match_token tokens (c ∷ s) ≡ some (t, rest)
      → Gives n rest r
      → Gives n (c ∷ s) (token_text locale n t ++ r)
  unfolding format_from
  token-Gives n c s t rest r e more zero h = absurd (omega arith)
  token-Gives n c s t rest r e more (suc f) h =
      ap (format_step locale n c s (λ later. format_from locale f n later)) e
      ∙ ap (prepend locale (token_text locale n t))
          (more f (omega (arith, tokens_shorter (c ∷ s) t rest e)))

  -- The pattern YYYY-MM-DD writes a day as its key.
  pub format_custom_date-key :
      (n : ℕ) → format_custom_date locale n (codes "YYYY-MM-DD") ≡ some (local_day_key n)
  unfolding format_custom_date local_day_key join match_token strip
  format_custom_date-key n =
      let d = date_of n in
      ap (λ r. some (decimal d.year ++ (45 ∷ (pad_2 (decimal (d.month + 1)) ++ (45 ∷ r)))))
        (append-nil (pad_2 (decimal d.day)))
