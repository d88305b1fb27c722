-- ===== src/Calendar/Month/Laws.antt =====
-- The cells of a month's grid are the days that belong there, and each shows its events.
use mullet.Base.{ℕ, zero, suc, ◌+◌, ◌≤◌, ◌<◌, ltb, if◌then◌else◌, ◌≡◌, refl, ap, ◌∙◌, arith}
use mullet.Calendar.Dates.{
  is_leap, date_of, days_in_month, days_in_month_bounds, days_before_month, days_before_year,
  days_in_year, new_date-in_year, date_of-IsDate, day_of-date_of,
}
use mullet.Calendar.Dates.Order.{years_apart}
use mullet.Calendar.Month.{month_start}

abbrev leap_day : ℕ → ℕ → ℕ
leap_day y m = if ltb 1 m then (if is_leap y then 1 else 0) else 0

-- Two years have the same months but for the leap day.
months_alike :
    (y z m : ℕ) → days_before_month y m + leap_day z m ≡ days_before_month z m + leap_day y m
unfolding days_before_month days_in_month
months_alike y z zero = refl
months_alike y z (suc m) = ground (arith, months_alike y z m)

months_near : (y z m : ℕ) → days_before_month y m ≤ days_before_month z m + 1
months_near y z m = ground (arith, months_alike y z m)

year_length : (y : ℕ) → 365 ≤ days_before_month y 12
year_length y = ground (arith, days_in_year y)

-- Of two years, no day of a month in the one is within a grid of the same month in the other.
not_later :
    (y z m d a : ℕ)
    → 1970 ≤ y
    → d + 1 ≡ days_before_year z + days_before_month z m + a
    → 1 ≤ a
    → d < days_before_year y + days_before_month y m + 42
    → y < z
    → ⊥
not_later y z m d a h at low near l =
    omega (arith, years_apart y z h l, year_length y, months_near y z m)

not_earlier :
    (y z m d a : ℕ)
    → 1970 ≤ z
    → d + 1 ≡ days_before_year z + days_before_month z m + a
    → a ≤ 31
    → days_before_year y + days_before_month y m ≤ d + 6
    → z < y
    → ⊥
not_earlier y z m d a h at high near l =
    omega (arith, years_apart z y h l, year_length z, months_near z y m)

month_start-first :
    (n : ℕ)
    → month_start n
      ≡ days_before_year (date_of n).year + days_before_month (date_of n).year (date_of n).month
unfolding month_start
month_start-first n =
    let d = date_of n in
    let (_, late, _, _) = date_of-IsDate n in new_date-in_year d.year d.month 1 late ∙ omega arith

-- A day, from the first of its month on.
day-within :
    (n : ℕ)
    → n + 1
      ≡ days_before_year (date_of n).year
        + days_before_month (date_of n).year (date_of n).month
        + (date_of n).day
day-within n =
    let d = date_of n in
    let (_, late, low, _) = date_of-IsDate n in
    omega (arith, day_of-date_of n, new_date-in_year d.year d.month d.day late)

abbrev pub IsNear : ℕ → ℕ → Type 0
IsNear start d = (start ≤ d + 6) × (d < start + 42)

pub near-same_year :
    (today d : ℕ)
    → IsNear (month_start today) d
    → (date_of d).month ≡ (date_of today).month
    → (date_of d).year ≡ (date_of today).year
near-same_year today d (low, high) same =
    let t = date_of today in
    let e = date_of d in
    let (y, _, _, _) = date_of-IsDate today in
    let (z, _, first, last) = date_of-IsDate d in
    let (_, month) = days_in_month_bounds e.year e.month in
    let at =
      day-within d ∙ ap (λ r. days_before_year e.year + days_before_month e.year r + e.day) same in
    let start = month_start-first today in
    grind (
      arith,
      λ (l : t.year < e.year).
          not_later t.year e.year t.month d e.day y at first (omega (arith, start)) l,
      λ (l : e.year < t.year).
          not_earlier t.year e.year t.month d e.day z at (omega arith) (omega (arith, start)) l,
    )

pub same_month-near :
    (today d : ℕ)
    → (date_of d).month ≡ (date_of today).month
    → (date_of d).year ≡ (date_of today).year
    → (month_start today ≤ d) × (d < month_start today + 31)
same_month-near today d month year =
    let e = date_of d in
    let (_, _, first, last) = date_of-IsDate d in
    let (_, most) = days_in_month_bounds e.year e.month in
    let start = month_start-first today in
    let at =
      day-within d
      ∙ ap (λ r. days_before_year e.year + days_before_month e.year r + e.day) month
      ∙ ap (λ r. days_before_year r + days_before_month r (date_of today).month + e.day) year in
    (omega arith, omega arith)
