-- ===== src/Calendar/Format/Longest.antt =====
-- ClockWidget.tsx: a pattern is read from the left, at each place by the longest token that stands there.
use mullet.Base.{
  ℕ, zero, suc, ◌+◌, ◌%◌, ◌/◌, ◌≤◌, ◌<◌, Text, some, [], ◌∷◌, ◌++◌, length, leb, if◌then◌else◌, ◌≡◌,
  refl, ap, sym, ◌∙◌, arith, Option-cases, inl, inr,
}
use mullet.Calendar.Dates.{Date, IsDate, day_of}
use mullet.Calendar.Dates.Order.{date_of-day_of}
use mullet.Calendar.Decimal.{decimal, pad_2, pad_2-decimal, decimal-last_digits}
use mullet.Calendar.Format.{
  Token, full_year, short_year, long_month, short_month, padded_month, month, long_weekday,
  short_weekday, padded_day, day, tokens, match_token, token_text, last_2, format_custom_date,
}
use mullet.Calendar.Format.Laws.{Gives, nil-Gives, unit-Gives, token-Gives, tokens_shorter}
use mullet.Calendar.Format.Matches.{
  spelling, Begins, match_token-longest, match_token-none, tokens-IsOrdered, tokens_spelled, each,
}

last_2-append : (s : Text) (c d : ℕ) → last_2 (s ++ (c ∷ d ∷ [])) ≡ c ∷ d ∷ []
last_2-append [] c d = refl
last_2-append (e ∷ s) c d = rw (last_2-append s c d) (two s)
  where
    two :
        (s : Text)
        → (if leb (length (s ++ (c ∷ d ∷ []))) 1 then e ∷ (s ++ (c ∷ d ∷ [])) else c ∷ d ∷ [])
          ≡ c ∷ d ∷ []
    two [] = refl
    two (x ∷ []) = refl
    two (x ∷ y ∷ s) = ground arith

-- `YY` of a year is the year of the century in two digits.
last_2-decimal : (y : ℕ) → 10 ≤ y → last_2 (decimal y) ≡ pad_2 (decimal (y % 100))
last_2-decimal y h =
    let (s, e) = decimal-last_digits y h in
    ap last_2 e
    ∙ last_2-append s (48 + y / 10 % 10) (48 + y % 10)
    ∙ sym (
        pad_2-decimal (y % 100) (omega arith)
        ∙ ap (λ c. c ∷ (48 + y % 100 % 10) ∷ []) (omega arith)
        ∙ ap (λ c. (48 + y / 10 % 10) ∷ c ∷ []) (omega arith))

module _ (locale : Token → ℕ → Text) where
  -- What a token is written as on this date.
  pub written : Date → Token → Text
  written d full_year = decimal d.year
  written d short_year = pad_2 (decimal (d.year % 100))
  written d long_month = locale long_month (day_of d)
  written d short_month = locale short_month (day_of d)
  written d padded_month = pad_2 (decimal (d.month + 1))
  written d month = decimal (d.month + 1)
  written d long_weekday = locale long_weekday (day_of d)
  written d short_weekday = locale short_weekday (day_of d)
  written d padded_day = pad_2 (decimal d.day)
  written d day = decimal d.day

  -- A pattern and what it is written as: from the left, the longest token that stands at the place by
  -- its text, and a unit where no token stands as it is.
  pub data Writes (d : Date) : Text → Text → Type 0 where
    ends : Writes d [] []
    token :
        (t : Token) {p rest r : Text}
        → p ≡ spelling t ++ rest
        → ((u : Token) → Begins p (spelling u) → length (spelling u) ≤ length (spelling t))
        → Writes d rest r
        → Writes d p (written d t ++ r)
    unit :
        {c : ℕ} {p r : Text}
        → ((u : Token) → ¬ Begins (c ∷ p) (spelling u))
        → Writes d p r
        → Writes d (c ∷ p) (c ∷ r)

  token_text-written :
      (d : Date) (t : Token) → IsDate d → token_text locale (day_of d) t ≡ written d t
  unfolding token_text written
  token_text-written d full_year h = rw (date_of-day_of d h) refl
  token_text-written d short_year h =
      rw (date_of-day_of d h) (last_2-decimal d.year (omega (arith, h.0)))
  token_text-written d padded_month h = rw (date_of-day_of d h) refl
  token_text-written d month h = rw (date_of-day_of d h) refl
  token_text-written d padded_day h = rw (date_of-day_of d h) refl
  token_text-written d day h = rw (date_of-day_of d h) refl
  token_text-written d long_month h = refl
  token_text-written d short_month h = refl
  token_text-written d long_weekday h = refl
  token_text-written d short_weekday h = refl

  token-Writes :
      (d : Date) (p : Text) (t : Token) (rest r : Text)
      → IsDate d
      → match_token tokens p ≡ some (t, rest)
      → Writes d rest r
      → Writes d p (token_text locale (day_of d) t ++ r)
  token-Writes d p t rest r h m more =
      let (begins, covers) =
        match_token-longest tokens p t rest tokens_spelled tokens-IsOrdered m in
      rw (token_text-written d t h)
        (token t begins (each (λ q. Begins p q → length q ≤ length (spelling t)) covers) more)

  below-Writes :
      (f : ℕ) (d : Date) (p : Text)
      → IsDate d
      → length p < f
      → (r : Text) × Gives locale (day_of d) p r × Writes d p r
  below-Writes zero d p h lt = absurd (omega arith)
  below-Writes (suc f) d [] h lt = ([], nil-Gives locale (day_of d), ends)
  below-Writes (suc f) d (c ∷ s) h lt = elim (Option-cases (match_token tokens (c ∷ s))) [
    | inl e ↦
        let (r, gives, more) = below-Writes f d s h (omega arith) in
        (
          c ∷ r,
          unit-Gives locale (day_of d) c s r e gives,
          unit (each (λ q. ¬ Begins (c ∷ s) q) (match_token-none tokens (c ∷ s) e)) more,
        )
    | inr ((t, rest), e) ↦
        let shorter = tokens_shorter (c ∷ s) t rest e in
        let (r, gives, more) = below-Writes f d rest h (omega (arith, shorter)) in
        (
          token_text locale (day_of d) t ++ r,
          token-Gives locale (day_of d) c s t rest r e gives,
          token-Writes d (c ∷ s) t rest r h e more,
        )
  ]

  -- On the day of any date from 1970 on, every pattern is written, as a text in which from the left
  -- on the longest token that stands at a place is replaced by its text for the date, and each unit at
  -- which no token stands is kept.
  pub format_custom_date-Writes :
      (d : Date) (pattern : Text)
      → IsDate d
      → (r : Text) × (format_custom_date locale (day_of d) pattern ≡ some r) × Writes d pattern r
  unfolding format_custom_date
  format_custom_date-Writes d pattern h =
      let (r, gives, more) = below-Writes (suc (length pattern)) d pattern h (omega arith) in
      (r, gives (suc (length pattern)) (omega arith), more)
