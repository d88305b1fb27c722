-- ===== src/Calendar/Birthdays.antt =====
-- plugins/birthdays/BirthdaysWidget.tsx: the next events of a source, from today on.
use mathlib.Core.Path.{fun_ext}
use mullet.Base.{
  ℕ, ◌+◌, ◌<◌, max, Text, codes, Bool, true, false, Option, none, some, or_else, List, [], ◌∷◌,
  ◌++◌, filter, take, leb, ◌==◌, if◌then◌else◌, ◌≡◌, ap, ◌∙◌, arith,
}
use mullet.Base.Ints.{ℤ, pos, negsuc}
use mullet.Calendar.Between.{days_between, days_between_exact, sub_ℕ}
use mullet.Calendar.Events.{EventRow, sql_text}
use mullet.Calendar.Decimal.{decimal}
use mullet.Widgets.Groups.{sort}

unfoldable pub relative_day_label : ℕ → Text
relative_day_label n =
    if n == 0
    then codes "Today"
    else if n == 1
    then codes "Tomorrow"
    else codes "In " ++ (decimal n ++ codes " days")

-- An event with the instant at which it starts.
pub record Upcoming : Type 0 where
  pub event : EventRow
  pub time : ℕ

-- `n >= 0`
abbrev pub is_natural : ℤ → Bool
is_natural (pos n) = true
is_natural (negsuc n) = false

module _ (date_parse : Text → Option ℕ) (local_day : ℕ → ℕ) (zone : ℕ → ℕ) where
  abbrev with_time : EventRow → Option ℕ → List Upcoming → List Upcoming
  with_time e none rest = rest
  with_time e (some t) rest = record { event = e; time = t } ∷ rest

  -- A start that is no date is NaN, which passes no test.
  unfoldable pub dated : List EventRow → List Upcoming
  dated [] = []
  dated (e ∷ rows) = with_time e (date_parse (sql_text e.start)) (dated rows)

  unfoldable pub upcoming : Option ℕ → ℕ → List EventRow → List Upcoming
  unfolding dated
  upcoming count now rows = take (max 1 (or_else count 5)) (
      sort (λ (u : Upcoming). pos u.time)
        (filter
          (λ (u : Upcoming). is_natural (days_between zone (local_day now) (local_day u.time)))
          (dated rows)))

  is_natural-sub : (a b : ℕ) → is_natural (sub_ℕ a b) ≡ leb b a
  unfolding sub_ℕ
  is_natural-sub a b = ground arith

  -- Where the offset of the zone never moves by half a day: the list is of the first events by their
  -- start, at least one and as many as the settings say or 5, among those whose local day is not
  -- before that of now; one that has begun today is among them.
  pub upcoming_correct :
      (count : Option ℕ) (now : ℕ) (rows : List EventRow)
      → ((a b : ℕ) → zone a < zone b + 43200000)
      → upcoming count now rows
        ≡ take (max 1 (or_else count 5)) (
            sort
              (λ (u : Upcoming). pos u.time)
              (filter (λ (u : Upcoming). leb (local_day now) (local_day u.time)) (dated rows)))
  unfolding upcoming
  upcoming_correct count now rows close =
      ap
        (λ p.
          take (max 1 (or_else count 5))
            (sort (λ (u : Upcoming). pos u.time) (filter p (dated rows))))
        (fun_ext (λ (u : Upcoming).
          let from = local_day now in
          let to = local_day u.time in
          ap is_natural (days_between_exact zone from to (close from to) (close to from))
          ∙ is_natural-sub to from))
