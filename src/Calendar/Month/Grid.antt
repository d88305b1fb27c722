-- ===== src/Calendar/Month/Grid.antt =====
-- The grid of a month as a whole, and what its cells show.
use mathlib.Core.Path.{fun_ext}
use mullet.Base.{
  ℕ, zero, suc, ◌+◌, ◌≤◌, ◌<◌, Text, text_eq, text_eq_iff, Bool, true, ◌&&◌, any, Option, or_else,
  List, [], ◌∷◌, map, filter, length, take, ◌==◌, if◌then◌else◌, ◌≡◌, ◌↔◌, refl, sym, ap, ◌∙◌,
  arith, Bool-cases, inl, inr,
}
use mullet.Base.Sorts.{sort_by}
use mullet.Calendar.Dates.{date_of, get_day}
use mullet.Calendar.Keys.{local_day_key}
use mullet.Calendar.Events.{EventRow, days_from, week_start, start_day, event_key, event_before}
use mullet.Calendar.Events.Laws.{week_start-bounds, events_on, key_is_on, same_key, text_eq-sym}
use mullet.Calendar.Month.{
  DayCell, month_start, day_cell, build_month_grid, month_groups, month_cell,
}
use mullet.Calendar.Month.Laws.{near-same_year, same_month-near}
use mullet.Widgets.Groups.{group_by, rows_at, group_by_correct}

abbrev pub dates : List DayCell → List ℕ
dates = map (λ (c : DayCell). c.date)

dates-cells :
    (today first count : ℕ)
    → dates (map (day_cell today) (days_from first count)) ≡ days_from first count
unfolding days_from day_cell
dates-cells today first zero = refl
dates-cells today first (suc count) = ap (λ r. first ∷ r) (dates-cells today (first + 1) count)

-- A cell of the month shows the day.
abbrev pub shows_day : ℕ → DayCell → Bool
shows_day d c = c.in_month && c.date == d

any-cells_iff :
    (today d first count : ℕ)
    → (any (shows_day d) (map (day_cell today) (days_from first count)) ≡ true)
      ↔ ((first ≤ d) × (d < first + count) × ((date_of d).month ≡ (date_of today).month))
unfolding days_from day_cell
any-cells_iff today d first zero = ((λ e. cc), (λ (a, b, _). absurd (omega arith)))
any-cells_iff today d first (suc count) =
    let later = any-cells_iff today d (first + 1) count in
    (
      ground (arith, later.0, λ (e : first ≡ d). ap (λ r. (date_of r).month) e),
      ground (arith, later.1, λ (e : first ≡ d). ap (λ r. (date_of r).month) e),
    )

-- From 7 February 1970 on: the grid is 42 days in a row from a Sunday or a Monday on, and its cells of
-- the month are exactly the days with the month and the year of today, whichever month it is.
pub build_month_grid_correct :
    (start_monday : Bool) (today d : ℕ)
    → 37 ≤ today
    → (dates (build_month_grid today start_monday)
        ≡ days_from (week_start start_monday (month_start today)) 42)
      × (get_day (week_start start_monday (month_start today)) ≡ (if start_monday then 1 else 0))
      × ((any (shows_day d) (build_month_grid today start_monday) ≡ true) ↔ (
          ((date_of d).month ≡ (date_of today).month) × ((date_of d).year ≡ (date_of today).year)))
unfolding build_month_grid
build_month_grid_correct start_monday today d h =
    let first = week_start start_monday (month_start today) in
    let (_, here) = same_month-near today today refl refl in
    let (day, early, late) = week_start-bounds start_monday (month_start today) (omega arith) in
    let cells = any-cells_iff today d first 42 in
    (
      dates-cells today first 42,
      day,
      (
        λ e.
            let (low, high, month) = cells.0 e in
            (month, near-same_year today d (omega arith, omega arith) month),
        λ (month, year).
            let (low, high) = same_month-near today d month year in
            cells.1 (omega arith, omega arith, month),
      ),
    )

sort_by-nil : (less : EventRow → EventRow → Bool) → sort_by less [] ≡ []
unfolding sort_by
sort_by-nil less = refl

length-take-le : (n : ℕ) (xs : List EventRow) → length (take n xs) ≤ length xs
length-take-le zero xs = omega arith
length-take-le (suc n) [] = omega arith
length-take-le (suc n) (x ∷ xs) = omega (arith, length-take-le n xs)

key_is_today :
    (d today : ℕ) → (text_eq (local_day_key d) (local_day_key today) ≡ true) ↔ (d ≡ today)
key_is_today d today = rw (same_key d today) ((λ e. ground arith), (λ e. ground arith))

module _ (date_parse : Text → Option ℕ) (local_day : ℕ → ℕ) (collates : Text → Text → Bool) where
  rows_at-sorted :
      (sorted : List EventRow → List EventRow) (k : Text) (groups : List (Text × List EventRow))
      → sorted [] ≡ []
      → rows_at text_eq
          (event_key date_parse local_day collates)
          k
          (map (λ (g : Text × List EventRow). (g.0, sorted g.1)) groups)
        ≡ sorted (rows_at text_eq (event_key date_parse local_day collates) k groups)
  rows_at-sorted sorted k [] nil = sym nil
  rows_at-sorted sorted k ((l, rows) ∷ groups) nil = elim (Bool-cases (text_eq l k)) [
    | inl e ↦ rw e refl
    | inr e ↦ rw e (rows_at-sorted sorted k groups nil)
  ]

  rows_at-month_groups :
      (d : ℕ) (rows : List EventRow)
      → rows_at text_eq
          (event_key date_parse local_day collates)
          (local_day_key d)
          (month_groups date_parse local_day collates rows)
        ≡ events_on date_parse local_day collates d rows
  unfolding month_groups event_key
  rows_at-month_groups d rows =
      let key = event_key date_parse local_day collates in
      let sorted = sort_by (event_before date_parse local_day collates) in
      rows_at-sorted sorted (local_day_key d) (group_by text_eq key rows)
        (sort_by-nil (event_before date_parse local_day collates))
      ∙ ap sorted (
          (group_by_correct text_eq key text_eq_iff rows (local_day_key d)).0
          ∙ ap (λ p. filter p rows)
              (fun_ext (λ e.
                text_eq-sym (key e) (local_day_key d)
                ∙ key_is_on date_parse local_day collates d
                    (start_day date_parse local_day collates e))))

  -- A cell shows the first events, up to the number of the settings or 3, of those that begin on its
  -- local day, sorted; those it does not show are the number that it gives; it is marked as today
  -- exactly if it is.
  pub month_cell_correct :
      (max_per_day : Option ℕ) (today d : ℕ) (rows : List EventRow)
      → let c =
          month_cell date_parse local_day collates max_per_day today rows (day_cell today d) in
        let events = events_on date_parse local_day collates d rows in
        (c.shown ≡ take (or_else max_per_day 3) events)
        × (length c.shown + c.overflow ≡ length events)
        × ((c.is_today ≡ true) ↔ (d ≡ today))
  unfolding month_cell day_cell
  month_cell_correct max_per_day today d rows = rw (rows_at-month_groups d rows) (
    refl,
    omega (
      arith,
      length-take-le (or_else max_per_day 3) (events_on date_parse local_day collates d rows),
    ),
    key_is_today d today,
  )
