-- ===== src/Calendar/Dates/Order.antt =====
-- The order of the days, and the day that a date names (`new Date(y, m, d)`).
use mullet.Base.{ℕ, zero, suc, ◌+◌, ◌-◌, ◌≤◌, ◌<◌, ◌≡◌, sym, ap, arith}
use mullet.Calendar.Dates.{
  Date, IsDate, date_of, day_of, days_in_month, days_before_month, days_before_year, date_of-IsDate,
  day_of-date_of, new_date-in_year, next_month, days_before_next_year,
}

add_suc : (m k : ℕ) → m + suc k ≡ m + k + 1
add_suc m k = omega arith

gap : (m l : ℕ) → m < l → m + 1 + (l - (m + 1)) ≡ l
gap m l h = omega arith

months_mono : (y m k : ℕ) → days_before_month y m ≤ days_before_month y (m + k)
months_mono y m zero = omega (arith, ap (days_before_month y) (add_zero m))
  where
    add_zero : (m : ℕ) → m + 0 ≡ m
    add_zero m = omega arith
months_mono y m (suc k) =
    omega (arith, months_mono y m k, next_month y (m + k), ap (days_before_month y) (add_suc m k))

before_month :
    (y m l : ℕ) → m < l → days_before_month y m + days_in_month y m ≤ days_before_month y l
before_month y m l h = omega (
  arith,
  next_month y m,
  months_mono y (m + 1) (l - (m + 1)),
  ap (days_before_month y) (gap m l h),
)

years_mono : (y k : ℕ) → 1970 ≤ y → days_before_year y ≤ days_before_year (y + k)
years_mono y zero h = omega (arith, ap days_before_year (add_zero y))
  where
    add_zero : (m : ℕ) → m + 0 ≡ m
    add_zero m = omega arith
years_mono y (suc k) h = omega (
  arith,
  years_mono y k h,
  days_before_next_year (y + k) (omega arith),
  ap days_before_year (add_suc y k),
)

pub years_apart :
    (y z : ℕ) → 1970 ≤ y → y < z → days_before_year y + days_before_month y 12 ≤ days_before_year z
years_apart y z h l = omega (
  arith,
  days_before_next_year y h,
  years_mono (y + 1) (z - (y + 1)) (omega arith),
  ap days_before_year (gap y z l),
)

earlier_year : (d e : Date) → IsDate d → IsDate e → d.year < e.year → day_of d < day_of e
earlier_year d e (y, m, b, f) (_, l, c, _) h = omega (
  arith,
  new_date-in_year d.year d.month d.day m,
  new_date-in_year e.year e.month e.day l,
  before_month d.year d.month 12 m,
  years_apart d.year e.year y h,
)

earlier_month :
    (d e : Date) → IsDate d → IsDate e → d.year ≡ e.year → d.month < e.month → day_of d < day_of e
earlier_month d e (y, m, b, f) (_, l, c, _) same h = omega (
  arith,
  new_date-in_year d.year d.month d.day m,
  new_date-in_year e.year e.month e.day l,
  before_month d.year d.month e.month h,
  ap days_before_year same,
  ap (λ r. days_before_month r e.month) same,
)

same_year : (d e : Date) → IsDate d → IsDate e → day_of d ≡ day_of e → d.year ≡ e.year
same_year d e h k same = grind (
  arith,
  λ (l : d.year < e.year). earlier_year d e h k l,
  λ (l : e.year < d.year). earlier_year e d k h l,
)

same_month : (d e : Date) → IsDate d → IsDate e → day_of d ≡ day_of e → d.month ≡ e.month
same_month d e h k same =
    let year = same_year d e h k same in
    grind (
      arith,
      λ (l : d.month < e.month). earlier_month d e h k year l,
      λ (l : e.month < d.month). earlier_month e d k h (sym year) l,
    )

-- A date names one day.
pub day_of-inj : (d e : Date) → IsDate d → IsDate e → day_of d ≡ day_of e → d ≡ e
day_of-inj d e h k same = ground (arith, same_year d e h k same, same_month d e h k same, same_day)
  where
    same_day : d.day ≡ e.day
    same_day = omega (
      arith,
      new_date-in_year d.year d.month d.day h.1,
      new_date-in_year e.year e.month e.day k.1,
      h.2,
      k.2,
      same,
      ap days_before_year (same_year d e h k same),
      ap (λ r. days_before_month r e.month) (same_year d e h k same),
      ap (λ r. days_before_month d.year r) (same_month d e h k same),
    )

-- The day that a date names has that date.
pub date_of-day_of : (d : Date) → IsDate d → date_of (day_of d) ≡ d
date_of-day_of d h =
    day_of-inj (date_of (day_of d)) d (date_of-IsDate (day_of d)) h (day_of-date_of (day_of d))
