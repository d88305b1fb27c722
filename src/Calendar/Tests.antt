-- ===== src/Calendar/Tests.antt =====
-- The days, keys and lists of the calendar widgets at concrete inputs.
use mullet.Base.{
  ℕ, is_space, ◌+◌, ◌-◌, ◌/◌, text_eq, strip, Text, codes, join, Bool, true, any, Option, none,
  some, or_else, List, [], ◌∷◌, map, filter, length, take, ltb, leb, ◌==◌, if◌then◌else◌, ◌≡◌, ◌↔◌,
  ◌≤◌, ◌<◌, max, refl, arith, trim,
}
use mullet.Base.Ints.{pos}
use mullet.Base.Sorts.{sort_by}
use mullet.Calendar.Dates.{Date, IsDate, day_of, days_in_month, date_of, new_date, get_day}
use mullet.Calendar.Decimal.{decimal, value}
use mullet.Calendar.Keys.{local_day_key, parse_local_date, parse_local_date-local_day_key}
use mullet.Calendar.Between.{
  today, counts, countdown, countdown_label, countdown-local_day_key, days_between, round_days,
  sub_ℕ,
}
use mullet.Calendar.Events.{
  EventRow, days_from, agenda_days, week_start, agenda, week, event_before, start_day, event_key,
  sql_text, by_day,
}
use mullet.Calendar.Events.Laws.{events_on, starts_on, week_correct, agenda_correct}
use mullet.Calendar.Month.{month_start, day_cell, build_month_grid, month_cell, month_groups}
use mullet.Calendar.Month.Grid.{build_month_grid_correct, shows_day, dates, month_cell_correct}
use mullet.Calendar.Birthdays.{Upcoming, dated, upcoming, upcoming_correct}
use mullet.Calendar.Meals.{meal_plan, strip_keyword}
use mullet.Calendar.Meals.Plan.{IsCap, IsCount, Keeps, IsMeal, meal_plan_correct}
use mullet.Calendar.Format.{Token, format_custom_date}
use mullet.Calendar.Format.Longest.{Writes, format_custom_date-Writes}
use mullet.Widgets.Groups.{sort, group_by}

-- 29 February 1972 is day 789, a Tuesday.
leap_day : date_of 789 ≡ record { year = 1972; month = 1; day = 29 }
unfolding date_of
leap_day = refl

tuesday : get_day 789 ≡ 2
unfolding get_day
tuesday = refl

next_year : new_date 1972 12 1 ≡ 1096
unfolding new_date
next_year = refl

leap_key : local_day_key 789 ≡ codes "1972-02-29"
unfolding local_day_key date_of join
leap_key = refl

abbrev number_of : Text → Option ℕ
number_of s = some (value s)

parse_local_date-local_day_key_example : parse_local_date number_of (local_day_key 789) ≡ some 789
parse_local_date-local_day_key_example =
    parse_local_date-local_day_key number_of 789 (λ s _ _. refl)

-- The clocks go forward by an hour on day 800.
abbrev zone : ℕ → ℕ
zone n = if ltb n 800 then 3600000 else 0

countdown-local_day_key_example : countdown zone number_of 789 (some (local_day_key 803)) none ≡ (
    if 803 == 789
    then today (countdown_label none)
    else if ltb 789 803
    then counts (803 - 789) (codes "days until") (countdown_label none)
    else counts (789 - 803) (codes "days since") (countdown_label none))
countdown-local_day_key_example =
    countdown-local_day_key zone number_of 789 803 none (λ s _ _. refl) (omega arith) (omega arith)

-- Between the two midnights lie an hour less than 14 days.
over_the_change : days_between zone 789 803 ≡ sub_ℕ 803 789
unfolding days_between sub_ℕ round_days
over_the_change = refl

abbrev event : Text → ℕ → Text → ℕ → EventRow
event id calendar start all_day = record {
  id = id;
  calendar_id = calendar;
  title = codes "Dinner: Tacos";
  start = start;
  end_at = none;
  all_day = all_day;
  location = none;
  description = none;
}

-- Two instants of 29 February and one of 1 March 1972.
abbrev date_parse : Text → Option ℕ
date_parse s =
    if text_eq s (codes "1972-02-29T10:00:00Z")
    then some 68205600000
    else if text_eq s (codes "1972-02-29T00:00:00Z")
    then some 68169600000
    else if text_eq s (codes "1972-03-01T08:00:00Z")
    then some 68284800000
    else none

abbrev local_day : ℕ → ℕ
local_day t = t / 86400000

abbrev collates : Text → Text → Bool
collates s t = ltb (length s) (length t)

abbrev events : List EventRow
events =
    event (codes "a") 1 (codes "1972-02-29 10:00:00") 0
    ∷ event (codes "b") 2 (codes "1972-03-01 08:00:00") 0
    ∷ event (codes "c") 1 (codes "1972-02-29 00:00:00") 1
    ∷ event (codes "d") 3 (codes "soon") 0
    ∷ []

abbrev ids_of : List EventRow → List Text
ids_of = map (λ (e : EventRow). e.id)

abbrev ids_found : ℕ × Option (List EventRow) → List Text
ids_found (_, rows) = ids_of (or_else rows [])

lists_two_days :
    map ids_found (agenda date_parse local_day collates (some 2) 789 events)
    ≡ (codes "c" ∷ codes "a" ∷ []) ∷ (codes "b" ∷ []) ∷ []
unfolding agenda agenda_days days_from by_day local_day_key date_of start_day event_key sql_text
    event_before sort_by join
lists_two_days = refl

agenda_correct_example :
    agenda date_parse local_day collates (some 2) 789 events
    ≡ map
        (λ n. (n, some (events_on date_parse local_day collates n events)))
        (days_from 789 (agenda_days (some 2)))
agenda_correct_example = agenda_correct date_parse local_day collates (some 2) 789 events

week_correct_example :
    (get_day (week_start true 789) ≡ (if true then 1 else 0))
    × (week_start true 789 ≤ 789)
    × (789 < week_start true 789 + 7)
    × (week date_parse local_day collates true 789 events
        ≡ map
            (λ n. (n, some (events_on date_parse local_day collates n events)))
            (days_from (week_start true 789) 7))
week_correct_example = week_correct date_parse local_day collates true 789 events (omega arith)

build_month_grid_correct_example :
    (dates (build_month_grid 789 true) ≡ days_from (week_start true (month_start 789)) 42)
    × (get_day (week_start true (month_start 789)) ≡ (if true then 1 else 0))
    × ((any (shows_day 790) (build_month_grid 789 true) ≡ true)
        ↔ (((date_of 790).month ≡ (date_of 789).month) × ((date_of 790).year ≡ (date_of 789).year)))
build_month_grid_correct_example = build_month_grid_correct true 789 790 (omega arith)

month_cell_correct_example :
    let c = month_cell date_parse local_day collates (some 1) 789 events (day_cell 789 789) in
    let rows = events_on date_parse local_day collates 789 events in
    (c.shown ≡ take (or_else (some 1) 3) rows)
    × (length c.shown + c.overflow ≡ length rows)
    × ((c.is_today ≡ true) ↔ (◌≡◌ {A = ℕ} 789 789))
month_cell_correct_example =
    month_cell_correct date_parse local_day collates (some 1) 789 789 events

one_more :
    (month_cell date_parse local_day collates (some 1) 789 events (day_cell 789 789)).overflow ≡ 1
unfolding month_cell day_cell month_groups local_day_key date_of start_day event_key sql_text
    event_before sort_by join group_by
one_more = refl

upcoming_correct_example :
    upcoming date_parse local_day (λ _. 0) (some 2) 68205600000 events
    ≡ take (max 1 (or_else (some 2) 5)) (
        sort
          (λ (u : Upcoming). pos u.time)
          (filter
            (λ (u : Upcoming). leb (local_day 68205600000) (local_day u.time))
            (dated date_parse local_day (λ _. 0) events)))
upcoming_correct_example =
    upcoming_correct date_parse local_day (λ _. 0) (some 2) 68205600000 events (λ a b. omega arith)

-- The event that began this morning is listed, after the one of the whole day.
still_listed :
    map
      (λ (u : Upcoming). u.event.id)
      (upcoming date_parse local_day (λ _. 0) (some 2) 68205600000 events)
    ≡ codes "c" ∷ codes "a" ∷ []
unfolding upcoming dated sql_text days_between sub_ℕ round_days sort
still_listed = refl

abbrev keep_text : Text → Text
keep_text s = s

abbrev keep_unit : ℕ → ℕ
keep_unit c = c

meal_plan_correct_example :
    (cap count : ℕ) × (meals : List EventRow) × IsCap 4 cap
    × IsCount 7 cap count
    × Keeps (IsMeal keep_text keep_unit (trim (codes "Dinner"))) events meals
    × (meal_plan keep_text keep_unit date_parse local_day collates
          (some (codes "Dinner"))
          none
          4
          789
          events
        ≡ map
            (λ n. (n, some (filter (starts_on date_parse local_day collates n) meals)))
            (days_from 789 count))
meal_plan_correct_example =
    meal_plan_correct keep_text keep_unit date_parse local_day collates (some (codes "Dinner")) none
      4 789 events

strips : strip_keyword keep_text keep_unit (codes "Dinner: Tacos") (codes "Dinner") ≡ codes "Tacos"
unfolding strip_keyword is_space
strips = refl

abbrev locale : Token → ℕ → Text
locale t n = codes "March"

abbrev spring : Date
spring = record { year = 1972; month = 2; day = 1 }

spring-IsDate : IsDate spring
unfolding days_in_month
spring-IsDate = omega arith

format_custom_date-Writes_example :
    (r : Text) × (format_custom_date locale (day_of spring) (codes "D MMMM YY") ≡ some r)
    × Writes locale spring (codes "D MMMM YY") r
format_custom_date-Writes_example =
    format_custom_date-Writes locale spring (codes "D MMMM YY") spring-IsDate

writes_date : format_custom_date locale 790 (codes "D MMMM YY") ≡ some (codes "1 March 72")
unfolding format_custom_date date_of strip decimal
writes_date = refl
