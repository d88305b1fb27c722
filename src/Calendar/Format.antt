-- ===== src/Calendar/Format.antt =====
-- plugins/clock/ClockWidget.tsx: the custom date of a clock. The names of months and weekdays by the
-- locale are a parameter.
pub mod Laws
pub mod Matches
pub mod Longest
use mullet.Base.{
  ℕ, zero, suc, ◌+◌, ◌-◌, ◌<◌, Text, codes, strip, join, Option, none, some, List, [], ◌∷◌, ◌++◌,
  length, leb, if◌then◌else◌, ◌==◌, ◌≡◌, refl, sym, ap, ◌∙◌, arith, Bool-cases, inl, inr,
}
use mullet.Calendar.Dates.{date_of}
use mullet.Calendar.Decimal.{decimal, pad_2}
use mullet.Calendar.Keys.{local_day_key}

pub data Token : Type 0 where
  full_year short_year long_month short_month padded_month month long_weekday : Token
  short_weekday padded_day day : Token

-- `CUSTOM_DATE_TOKENS`, its alternatives in order
abbrev pub tokens : List (Text × Token)
tokens =
    (codes "YYYY", full_year)
    ∷ (codes "YY", short_year)
    ∷ (codes "MMMM", long_month)
    ∷ (codes "MMM", short_month)
    ∷ (codes "MM", padded_month)
    ∷ (codes "M", month)
    ∷ (codes "dddd", long_weekday)
    ∷ (codes "ddd", short_weekday)
    ∷ (codes "DD", padded_day)
    ∷ (codes "D", day)
    ∷ []

abbrev or_match : Option Text → Token → Option (Token × Text) → Option (Token × Text)
or_match (some rest) t later = some (t, rest)
or_match none t later = later

-- The first alternative that a text begins with, and the text after it.
unfoldable pub match_token : List (Text × Token) → Text → Option (Token × Text)
match_token [] s = none
match_token ((name, t) ∷ more) s = or_match (strip name s) t (match_token more s)

-- `s.slice(-2)`
abbrev pub last_2 : Text → Text
last_2 [] = []
last_2 (c ∷ s) = let rest = last_2 s in if leb (length s) 1 then c ∷ s else rest

module _ (locale : Token → ℕ → Text) where
  -- `tokens[match]` on a day
  unfoldable pub token_text : ℕ → Token → Text
  token_text n full_year = decimal (date_of n).year
  token_text n short_year = last_2 (decimal (date_of n).year)
  token_text n padded_month = pad_2 (decimal ((date_of n).month + 1))
  token_text n month = decimal ((date_of n).month + 1)
  token_text n padded_day = pad_2 (decimal (date_of n).day)
  token_text n day = decimal (date_of n).day
  token_text n long_month = locale long_month n
  token_text n short_month = locale short_month n
  token_text n long_weekday = locale long_weekday n
  token_text n short_weekday = locale short_weekday n

  abbrev pub prepend : Text → Option Text → Option Text
  prepend s none = none
  prepend s (some t) = some (s ++ t)

  -- One step at a unit and the text after it: `later` goes on.
  abbrev pub format_step : ℕ → ℕ → Text → (Text → Option Text) → Option (Token × Text) → Option Text
  format_step n c s later none = prepend (c ∷ []) (later s)
  format_step n c s later (some (t, rest)) = prepend (token_text n t) (later rest)

  -- `pattern.replace(CUSTOM_DATE_TOKENS, …)` with fuel; none means that it ran out.
  unfoldable pub format_from : ℕ → ℕ → Text → Option Text
  unfolding match_token token_text
  format_from zero n pattern = none
  format_from (suc fuel) n [] = some []
  format_from (suc fuel) n (c ∷ s) =
      format_step n c s (λ rest. format_from fuel n rest) (match_token tokens (c ∷ s))

  unfoldable pub format_custom_date : ℕ → Text → Option Text
  unfolding format_from
  format_custom_date n pattern = format_from (suc (length pattern)) n pattern
