-- ===== src/Calendar/Month.antt =====
-- plugins/calendar-month/CalendarMonthWidget.tsx: the grid of a month, and the events of its cells.
pub mod Laws
pub mod Grid
use mullet.Base.{ℕ, ◌-◌, Text, text_eq, Bool, Option, List, map, length, take, or_else, ◌==◌}
use mullet.Base.Sorts.{sort_by}
use mullet.Calendar.Dates.{date_of, new_date}
use mullet.Calendar.Keys.{local_day_key}
use mullet.Calendar.Events.{EventRow, days_from, week_start, event_key, event_before}
use mullet.Widgets.Groups.{group_by, rows_at}

pub record DayCell : Type 0 where
  pub date : ℕ
  pub key : Text
  pub in_month : Bool

-- `monthStart`
unfoldable pub month_start : ℕ → ℕ
month_start today = let d = date_of today in new_date d.year d.month 1

unfoldable pub day_cell : ℕ → ℕ → DayCell
day_cell today d = record {
  date = d;
  key = local_day_key d;
  in_month = (date_of d).month == (date_of today).month;
}

unfoldable pub build_month_grid : ℕ → Bool → List DayCell
unfolding day_cell month_start
build_month_grid today start_monday =
    map (day_cell today) (days_from (week_start start_monday (month_start today)) 42)

-- What a cell shows: its events up to a number, how many more there are, and whether it is today.
pub record MonthCell : Type 0 where
  pub cell : DayCell
  pub shown : List EventRow
  pub overflow : ℕ
  pub is_today : Bool

module _ (date_parse : Text → Option ℕ) (local_day : ℕ → ℕ) (collates : Text → Text → Bool) where
  -- `byDay`, with each of its lists sorted
  unfoldable pub month_groups : List EventRow → List (Text × List EventRow)
  month_groups rows =
      map
        (λ (g : Text × List EventRow).
          (g.0, sort_by (event_before date_parse local_day collates) g.1))
        (group_by text_eq (event_key date_parse local_day collates) rows)

  unfoldable pub month_cell : Option ℕ → ℕ → List EventRow → DayCell → MonthCell
  month_cell max_per_day today rows c =
      let events =
        rows_at text_eq (event_key date_parse local_day collates) c.key (month_groups rows) in
      let shown = take (or_else max_per_day 3) events in
      record {
        cell = c;
        shown = shown;
        overflow = length events - length shown;
        is_today = text_eq c.key (local_day_key today);
      }

  unfoldable pub month_view : Bool → Option ℕ → ℕ → List EventRow → List MonthCell
  month_view start_monday max_per_day today rows =
      map (month_cell max_per_day today rows) (build_month_grid today start_monday)
