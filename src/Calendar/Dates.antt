-- ===== src/Calendar/Dates.antt =====
-- The local calendar of `Date`, as plugins/shared/dateMath.ts and the calendar widgets use it. A day
-- is the number of days since 1 January 1970; earlier days are not modelled. Months count from 0.
pub mod Order
use mullet.Base.{
  ℕ, zero, suc, ◌+◌, ◌-◌, ◌*◌, ◌/◌, ◌%◌, ◌≤◌, ◌<◌, Bool, true, false, not, ◌&&◌, ◌||◌, ◌==◌, ltb,
  if◌then◌else◌, ◌≡◌, ◌↔◌, ◌⊎◌, refl, sym, ap, ◌∙◌, arith, tests, Bool-cases, inl, inr,
}

pub record Date : Type 0 where
  pub year : ℕ
  pub month : ℕ
  pub day : ℕ

pub is_leap : ℕ → Bool
is_leap y = y % 4 == 0 && (not (y % 100 == 0) || y % 400 == 0)

unfoldable pub days_in_month : ℕ → ℕ → ℕ
unfolding is_leap
days_in_month y m =
    if m == 1
    then (if is_leap y then 29 else 28)
    else if m == 3 || m == 5 || m == 8 || m == 10
    then 30
    else 31

unfoldable pub next_day : Date → Date
unfolding days_in_month
next_day d =
    if ltb d.day (days_in_month d.year d.month)
    then record d { day = d.day + 1 }
    else if ltb d.month 11
    then record d { month = d.month + 1; day = 1 }
    else record { year = d.year + 1; month = 0; day = 1 }

-- `getFullYear()`, `getMonth()` and `getDate()` of a day
unfoldable pub date_of : ℕ → Date
unfolding next_day
date_of zero = record { year = 1970; month = 0; day = 1 }
date_of (suc n) = next_day (date_of n)

-- `getDay()`: 0 is a Sunday, and 1 January 1970 was a Thursday.
unfoldable pub get_day : ℕ → ℕ
get_day n = (n + 4) % 7

unfoldable pub days_before_year : ℕ → ℕ
days_before_year y = 365 * (y - 1970) + (y - 1969) / 4 + (y - 1601) / 400 - (y - 1901) / 100

unfoldable pub days_before_month : ℕ → ℕ → ℕ
unfolding days_in_month
days_before_month y zero = 0
days_before_month y (suc m) = days_before_month y m + days_in_month y m

-- `new Date(y, m, d)`, where m may be beyond December, and d beyond the month.
unfoldable pub new_date : ℕ → ℕ → ℕ → ℕ
unfolding days_before_year days_before_month
new_date y m d = days_before_year (y + m / 12) + days_before_month (y + m / 12) (m % 12) + d - 1

-- The fields are those of a day from 1970 on.
abbrev pub IsDate : Date → Type 0
IsDate d = (1970 ≤ d.year) × (d.month < 12) × (1 ≤ d.day) × (d.day ≤ days_in_month d.year d.month)

pub days_in_month_bounds : (y m : ℕ) → (28 ≤ days_in_month y m) × (days_in_month y m ≤ 31)
unfolding days_in_month
days_in_month_bounds y m = ground arith

next_day-IsDate : (d : Date) → IsDate d → IsDate (next_day d)
unfolding next_day
next_day-IsDate d (y, m, b, e) =
    let (next, _) = days_in_month_bounds d.year (d.month + 1) in
    let (first, _) = days_in_month_bounds (d.year + 1) 0 in
    elim (Bool-cases (ltb d.day (days_in_month d.year d.month))) [
      | inl inside ↦ rw inside (y, m, omega arith, omega tests)
      | inr last ↦ elim (Bool-cases (ltb d.month 11)) [
        | inl more ↦ rw (last, more) (y, omega tests, omega arith, omega arith)
        | inr december ↦ rw (last, december) (omega arith, omega arith, omega arith, omega arith)
      ]
    ]

pub date_of-IsDate : (n : ℕ) → IsDate (date_of n)
unfolding date_of days_in_month
date_of-IsDate zero = omega arith
date_of-IsDate (suc n) = next_day-IsDate (date_of n) (date_of-IsDate n)

pub days_in_year : (y : ℕ) → days_before_month y 12 ≡ (if is_leap y then 366 else 365)
unfolding days_before_month days_in_month
days_in_year y = ground arith

days_before_next_year :
    (y : ℕ) → 1970 ≤ y → days_before_year (y + 1) ≡ days_before_year y + days_before_month y 12
unfolding days_before_year is_leap
days_before_next_year y h = rw (days_in_year y) (elim (Bool-cases (y % 4 == 0)) [
  | inl four ↦ elim (Bool-cases (y % 100 == 0)) [
    | inl hundred ↦ elim (Bool-cases (y % 400 == 0)) [
      | inl e ↦ rw (four, hundred, e) (ground arith)
      | inr e ↦ rw (four, hundred, e) (ground arith)
    ]
    | inr hundred ↦ rw (four, hundred) (ground arith)
  ]
  | inr four ↦ rw four (ground arith)
])

abbrev pub day_of : Date → ℕ
day_of d = new_date d.year d.month d.day

pub new_date-in_year :
    (y m d : ℕ) → m < 12 → new_date y m d ≡ days_before_year y + days_before_month y m + d - 1
unfolding new_date
new_date-in_year y m d h =
    ap (λ r. days_before_year r + days_before_month r (m % 12) + d - 1) same_year
    ∙ ap (λ r. days_before_year y + days_before_month y r + d - 1) same_month
  where
    same_year : y + m / 12 ≡ y
    same_year = omega arith

    same_month : m % 12 ≡ m
    same_month = omega arith

january : (y : ℕ) → days_before_month y 0 ≡ 0
unfolding days_before_month
january y = refl

next_month : (y m : ℕ) → days_before_month y (m + 1) ≡ days_before_month y m + days_in_month y m
unfolding days_before_month
next_month y m = ground arith

day_of-next_day : (d : Date) → IsDate d → day_of (next_day d) ≡ day_of d + 1
unfolding next_day
day_of-next_day d (y, m, b, e) =
    let here = new_date-in_year d.year d.month d.day m in
    elim (Bool-cases (ltb d.day (days_in_month d.year d.month))) [
      | inl inside ↦ rw inside (omega (arith, here, new_date-in_year d.year d.month (d.day + 1) m))
      | inr last ↦
          let full : days_in_month d.year d.month ≤ d.day = ground arith in
          elim (Bool-cases (ltb d.month 11)) [
            | inl more ↦
                let fits : d.month + 1 < 12 = omega tests in
                rw (last, more)
                  (omega (
                    arith,
                    here,
                    next_month d.year d.month,
                    new_date-in_year d.year (d.month + 1) 1 fits,
                  ))
            | inr december ↦
                let eleven : d.month ≡ 11 = ground arith in
                rw (last, december)
                  (omega (
                    arith,
                    here,
                    ap (λ r. days_before_month d.year r + days_in_month d.year r) eleven,
                    next_month d.year 11,
                    days_before_next_year d.year y,
                    new_date-in_year (d.year + 1) 0 1 (omega arith),
                    january (d.year + 1),
                  ))
          ]
    ]

pub day_of-date_of : (n : ℕ) → day_of (date_of n) ≡ n
unfolding date_of new_date
day_of-date_of zero = refl
day_of-date_of (suc n) =
    day_of-next_day (date_of n) (date_of-IsDate n) ∙ omega (arith, day_of-date_of n)
