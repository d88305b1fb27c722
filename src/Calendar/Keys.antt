-- ===== src/Calendar/Keys.antt =====
-- plugins/shared/dateMath.ts: `localDayKey` and `parseLocalDate`. `Number` on a text is a
-- parameter.
use mullet.Base.{
  ℕ, ◌+◌, ◌-◌, ◌/◌, ◌%◌, ◌≤◌, ◌<◌, Text, Lacks, All-map, split, join, split-join, false, is_nil,
  Option, none, some, List, [], ◌∷◌, ◌≡◌, ◌≢◌, refl, codes, subst, sym, ap, ◌∙◌, arith, some_inj,
}
use mullet.Calendar.Decimal.{decimal, pad_2, IsDigits, value, Shows, decimal-Shows, pad_2-Shows}
use mullet.Calendar.Dates.{
  date_of, new_date, days_before_year, days_before_month, date_of-IsDate, day_of-date_of,
}

unfoldable pub local_day_key : ℕ → Text
unfolding decimal pad_2
local_day_key n =
    let d = date_of n in
    join 45 (decimal d.year ∷ pad_2 (decimal (d.month + 1)) ∷ pad_2 (decimal d.day) ∷ [])

abbrev pub date_parts : Option ℕ → Option ℕ → Option ℕ → Option ℕ
date_parts (some y) (some m) (some d) = some (new_date (y - 1) (m + 11) d)
date_parts _ _ _ = none

-- A part that is missing or that is no number makes an invalid date, which is none. `new Date(y,
-- m - 1, d)` is written with the year before, so that the month is not below 0.
abbrev pub date_of_parts : (Text → Option ℕ) → List Text → Option ℕ
date_of_parts number (y ∷ m ∷ d ∷ _) = date_parts (number y) (number m) (number d)
date_of_parts number _ = none

unfoldable pub parse_local_date : (Text → Option ℕ) → Text → Option ℕ
parse_local_date number raw = date_of_parts number (split 45 raw)

no_dash : (n : ℕ) (s : Text) → Shows n s → Lacks 45 s
no_dash n s h = All-map (λ c (low, _) e. omega arith) s h.digits

local_day_key-split :
    (n : ℕ)
    → split 45 (local_day_key n)
      ≡ decimal (date_of n).year
        ∷ pad_2 (decimal ((date_of n).month + 1))
        ∷ pad_2 (decimal (date_of n).day)
        ∷ []
unfolding local_day_key
local_day_key-split n =
    let d = date_of n in
    split-join 45 (decimal d.year) (pad_2 (decimal (d.month + 1)) ∷ pad_2 (decimal d.day) ∷ []) (
      no_dash d.year (decimal d.year) (decimal-Shows d.year),
      (
        no_dash (d.month + 1) (pad_2 (decimal (d.month + 1))) (pad_2-Shows (d.month + 1)),
        (no_dash d.day (pad_2 (decimal d.day)) (pad_2-Shows d.day), tt),
      ),
    )

split-filled : (s a b : Text) (parts : List Text) → split 45 s ≡ a ∷ b ∷ parts → is_nil s ≡ false
unfolding split
split-filled [] a b parts e = absurd (cc)
split-filled (c ∷ s) a b parts e = refl

pub local_day_key-filled : (n : ℕ) → is_nil (local_day_key n) ≡ false
local_day_key-filled n = split-filled (local_day_key n) _ _ _ (local_day_key-split n)

-- The month of the year before, eleven months on.
same_month : (y m d : ℕ) → 1970 ≤ y → m < 12 → new_date (y - 1) (m + 1 + 11) d ≡ new_date y m d
unfolding new_date
same_month y m d h k =
    ap (λ r. days_before_year r + days_before_month r ((m + 1 + 11) % 12) + d - 1) year
    ∙ ap (λ r. days_before_year (y + m / 12) + days_before_month (y + m / 12) r + d - 1) month
  where
    year : y - 1 + (m + 1 + 11) / 12 ≡ y + m / 12
    year = omega arith

    month : (m + 1 + 11) % 12 ≡ m % 12
    month = omega arith

-- The key of a day, read as a date, gives back the day, where `Number` reads digits; so days that
-- differ have keys that differ.
pub parse_local_date-local_day_key :
    (number : Text → Option ℕ) (n : ℕ)
    → ((s : Text) → IsDigits s → s ≢ [] → number s ≡ some (value s))
    → parse_local_date number (local_day_key n) ≡ some n
unfolding parse_local_date
parse_local_date-local_day_key number n reads =
    let d = date_of n in
    let (early, late, _, _) = date_of-IsDate n in
    let y = decimal-Shows d.year in
    let m = pad_2-Shows (d.month + 1) in
    let a = pad_2-Shows d.day in
    rw
      (
        local_day_key-split n,
        reads (decimal d.year) y.digits y.filled,
        reads (pad_2 (decimal (d.month + 1))) m.digits m.filled,
        reads (pad_2 (decimal d.day)) a.digits a.filled,
        y.stands,
        m.stands,
        a.stands,
      )
      (ap some (same_month d.year d.month d.day early late ∙ day_of-date_of n))

abbrev number_of : Text → Option ℕ
number_of s = some (value s)

pub local_day_key-inj : (m n : ℕ) → local_day_key m ≡ local_day_key n → m ≡ n
local_day_key-inj m n e = some_inj m n (
    sym (parse_local_date-local_day_key number_of m (λ s _ _. refl))
    ∙ ap (parse_local_date number_of) e
    ∙ parse_local_date-local_day_key number_of n (λ s _ _. refl))

first_part : (s t : Text) (parts others : List Text) → s ∷ parts ≡ t ∷ others → s ≡ t
first_part s t parts others e = cc

-- An invalid date has a key that no day has.
pub local_day_key-ne_invalid : (n : ℕ) → codes "NaN-NaN-NaN" ≢ local_day_key n
unfolding split
local_day_key-ne_invalid n e =
    let same : codes "NaN" ≡ decimal (date_of n).year =
      first_part _ _ _ _ (ap (split 45) e ∙ local_day_key-split n) in
    let digits : IsDigits (codes "NaN") =
      subst IsDigits (sym same) (decimal-Shows (date_of n).year).digits in
    absurd (omega (arith, digits.0))
