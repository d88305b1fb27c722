-- ===== src/Calendar/Between.antt =====
-- `daysBetween` of plugins/shared/dateMath.ts, and the widgets that show it:
-- plugins/countdown/CountdownWidget.tsx and plugins/birthdays/BirthdaysWidget.tsx. `zone` is how much
-- later than the midnight of UTC a day begins, in milliseconds, over a constant that keeps it from
-- being negative; it moves where the clocks change.
use mullet.Base.{
  ℕ, ◌+◌, ◌-◌, ◌*◌, ◌/◌, ◌<◌, Text, codes, trim, is_nil, Option, none, some, [], ltb, leb, ◌==◌,
  if◌then◌else◌, ◌≡◌, ◌≢◌, arith,
}
use mullet.Base.Ints.{ℤ, pos, negsuc}
use mullet.Calendar.Decimal.{IsDigits, value}
use mullet.Calendar.Keys.{
  local_day_key, local_day_key-filled, parse_local_date, parse_local_date-local_day_key,
}

abbrev pub day_ms : ℕ
day_ms = 86400000

-- a - b, as an integer
unfoldable pub sub_ℕ : ℕ → ℕ → ℤ
sub_ℕ a b = if leb b a then pos (a - b) else negsuc (b - a - 1)

-- `Math.round(x / 86_400_000)`: the floor of the quotient and a half.
unfoldable pub round_days : ℤ → ℤ
round_days (pos k) = pos ((2 * k + day_ms) / (2 * day_ms))
round_days (negsuc k) =
    let twice = 2 * (k + 1) in
    if leb twice day_ms
    then pos 0
    else negsuc ((twice - day_ms + (2 * day_ms - 1)) / (2 * day_ms) - 1)

round_exact :
    (f t a b : ℕ)
    → a < b + 43200000
    → b < a + 43200000
    → round_days (sub_ℕ (t * day_ms + b) (f * day_ms + a)) ≡ sub_ℕ t f
unfolding round_days sub_ℕ
round_exact f t a b h k = ground arith

-- What the card shows: that it has no target, NaN for a target that is no date, the day itself, or
-- a number of days with its caption and the label.
pub data CountdownView : Type 0 where
  unset not_a_number : CountdownView
  today : Text → CountdownView
  counts : ℕ → Text → Text → CountdownView

-- `cfg.label?.trim() || 'Countdown'`
unfoldable pub countdown_label : Option Text → Text
countdown_label none = codes "Countdown"
countdown_label (some s) = if is_nil (trim s) then codes "Countdown" else trim s

abbrev pub days_view : ℤ → Text → CountdownView
days_view (pos n) label = if n == 0 then today label else counts n (codes "days until") label
days_view (negsuc n) label = counts (n + 1) (codes "days since") label

days_view-sub :
    (target now : ℕ) (label : Text)
    → days_view (sub_ℕ target now) label ≡ (
        if target == now
        then today label
        else if ltb now target
        then counts (target - now) (codes "days until") label
        else counts (now - target) (codes "days since") label)
unfolding sub_ℕ
days_view-sub target now label = ground arith

module _ (zone : ℕ → ℕ) where
  -- The instant at which a day begins.
  abbrev pub midnight : ℕ → ℕ
  midnight n = n * day_ms + zone n

  -- The local days of the two arguments are given.
  unfoldable pub days_between : ℕ → ℕ → ℤ
  unfolding sub_ℕ round_days
  days_between from to = round_days (sub_ℕ (midnight to) (midnight from))

  -- Where the offset of the zone moves by less than half a day from one day to the other, the
  -- result is the number of days from the one to the other, though the days between them may be
  -- shorter or longer than 24 hours.
  pub days_between_exact :
      (from to : ℕ)
      → zone from < zone to + 43200000
      → zone to < zone from + 43200000
      → days_between from to ≡ sub_ℕ to from
  unfolding days_between
  days_between_exact from to h k = round_exact from to (zone from) (zone to) h k

  abbrev pub target_view : ℕ → Option ℕ → Text → CountdownView
  target_view now none label = not_a_number
  target_view now (some target) label = days_view (days_between now target) label

  -- `CountdownComponent`, on a day and with the settings of its card
  unfoldable pub countdown : (Text → Option ℕ) → ℕ → Option Text → Option Text → CountdownView
  countdown number now none label = unset
  countdown number now (some raw) label =
      if is_nil raw
      then unset
      else target_view now (parse_local_date number raw) (countdown_label label)

  -- A card whose target is the text of a day counts the days to it, or since it, exactly, where
  -- `Number` reads digits and the offset of the zone moves by less than half a day between the two.
  pub countdown-local_day_key :
      (number : Text → Option ℕ) (now target : ℕ) (label : Option Text)
      → ((s : Text) → IsDigits s → s ≢ [] → number s ≡ some (value s))
      → zone now < zone target + 43200000
      → zone target < zone now + 43200000
      → countdown number now (some (local_day_key target)) label ≡ (
          if target == now
          then today (countdown_label label)
          else if ltb now target
          then counts (target - now) (codes "days until") (countdown_label label)
          else counts (now - target) (codes "days since") (countdown_label label))
  unfolding countdown
  countdown-local_day_key number now target label reads h k =
      rw
        (
          local_day_key-filled target,
          parse_local_date-local_day_key number target reads,
          days_between_exact now target h k,
        )
        (days_view-sub target now (countdown_label label))
