-- ===== src/Calendar/Events.antt =====
-- The rows of the events shape, and their lists by local day as the agenda and the week view make
-- them: plugins/calendar-agenda/CalendarAgendaWidget.tsx and
-- plugins/calendar-week/CalendarWeekWidget.tsx, with plugins/shared/sqlDateTime.ts. The parser of
-- dates, the local day of an instant and the comparison of texts by the locale are parameters.
pub mod Laws
pub mod Order
use mullet.Base.{
  ℕ, zero, suc, ◌+◌, ◌-◌, ◌<◌, max, Text, codes, text_eq, Bool, true, false, not, ◌&&◌, ◌||◌, any,
  Option, none, some, or_else, is_nil, List, [], ◌∷◌, ◌++◌, map, filter, length, find, ltb, ◌==◌,
  if◌then◌else◌,
}
use mullet.Base.Sorts.{sort_by}
use mullet.Calendar.Dates.{get_day}
use mullet.Calendar.Keys.{local_day_key}
use mullet.Widgets.Hashes.{color_for_id}

-- A row, without the time at which it was fetched.
pub record EventRow : Type 0 where
  pub id : Text
  pub calendar_id : ℕ
  pub title : Text
  pub start : Text
  pub end_at : Option Text
  pub all_day : ℕ
  pub location : Option Text
  pub description : Option Text

-- `raw.replace(' ', 'T')`, which replaces the first space
abbrev pub with_t : Text → Text
with_t [] = []
with_t (c ∷ s) = let rest = with_t s in if c == 32 then 84 ∷ s else c ∷ rest

unfoldable pub sql_text : Text → Text
sql_text raw = with_t raw ++ 90 ∷ []

-- `count` days in a row, of which d is the first
unfoldable pub days_from : ℕ → ℕ → List ℕ
days_from d zero = []
days_from d (suc count) = d ∷ days_from (d + 1) count

-- `days` of the agenda
unfoldable pub agenda_days : Option ℕ → ℕ
agenda_days days = max 1 (or_else days 5)

-- How far back the week of a day begins.
unfoldable pub back_to_start : Bool → ℕ → ℕ
unfolding get_day
back_to_start start_monday today =
    let dow = get_day today in if start_monday then (if dow == 0 then 6 else dow - 1) else dow

unfoldable pub week_start : Bool → ℕ → ℕ
week_start start_monday today = today - back_to_start start_monday today

-- `byDay.get(key)`
abbrev pub get : Text → List (Text × List EventRow) → Option (List EventRow)
get k [] = none
get k ((l, rows) ∷ groups) = if text_eq l k then some rows else get k groups

-- `new Set<number>()` with each value added in turn
abbrev pub add_id : ℕ → List ℕ → List ℕ
add_id i ids = if any (λ j. j == i) ids then ids else ids ++ i ∷ []

abbrev pub add_ids : List EventRow → List ℕ → List ℕ
add_ids [] ids = ids
add_ids (e ∷ rows) ids = add_ids rows (add_id e.calendar_id ids)

unfoldable pub visible_ids : List ℕ → List (Text × List EventRow) → List ℕ
visible_ids ids [] = ids
visible_ids ids ((k, rows) ∷ groups) = visible_ids (add_ids rows ids) groups

module _ (date_parse : Text → Option ℕ) (local_day : ℕ → ℕ) (collates : Text → Text → Bool) where
  -- The local day on which an event begins; none for a start that is no date.
  abbrev pub day_at : Option ℕ → Option ℕ
  day_at none = none
  day_at (some t) = some (local_day t)

  unfoldable pub start_day : EventRow → Option ℕ
  start_day e = day_at (date_parse (sql_text e.start))

  abbrev pub key_of : Option ℕ → Text
  key_of none = codes "NaN-NaN-NaN"
  key_of (some d) = local_day_key d

  unfoldable pub event_key : EventRow → Text
  event_key e = key_of (start_day e)

  -- The comparison of the sort: events of the whole day first, then by their start.
  unfoldable pub event_before : EventRow → EventRow → Bool
  event_before a b =
      if a.all_day == b.all_day then collates a.start b.start else ltb b.all_day a.all_day

  -- `if (byDay.has(key)) byDay.get(key).push(e)`
  abbrev pub place : EventRow → List (Text × List EventRow) → List (Text × List EventRow)
  place e [] = []
  place e ((k, rows) ∷ groups) =
      let rest = place e groups in
      if text_eq k (event_key e) then (k, rows ++ e ∷ []) ∷ groups else (k, rows) ∷ rest

  abbrev pub place_all : List EventRow → List (Text × List EventRow) → List (Text × List EventRow)
  place_all [] groups = groups
  place_all (e ∷ rows) groups = place_all rows (place e groups)

  abbrev pub open_groups : List ℕ → List (Text × List EventRow)
  open_groups = map (λ d. (local_day_key d, []))

  abbrev pub sort_groups : List (Text × List EventRow) → List (Text × List EventRow)
  sort_groups = map (λ (g : Text × List EventRow). (g.0, sort_by event_before g.1))

  unfoldable pub by_day : List ℕ → List EventRow → List (Text × List EventRow)
  by_day days rows = sort_groups (place_all rows (open_groups days))

  -- Each day that is shown, with the list found for it.
  abbrev pub shown_days : List ℕ → List (Text × List EventRow) → List (ℕ × Option (List EventRow))
  shown_days days groups = map (λ d. (d, get (local_day_key d) groups)) days

  unfoldable pub agenda : Option ℕ → ℕ → List EventRow → List (ℕ × Option (List EventRow))
  agenda days today rows =
      let list = days_from today (agenda_days days) in shown_days list (by_day list rows)

  unfoldable pub week : Bool → ℕ → List EventRow → List (ℕ × Option (List EventRow))
  week start_monday today rows =
      let list = days_from (week_start start_monday today) 7 in shown_days list (by_day list rows)

  -- `isPastEvent`, at the instant now on the day today
  abbrev pub is_before : Option ℕ → ℕ → Bool
  is_before none now = false
  is_before (some t) now = ltb t now

  unfoldable pub is_past_event : ℕ → EventRow → ℕ → Bool
  is_past_event now e day =
      if not (text_eq (local_day_key day) (local_day_key (local_day now))) || not (e.all_day == 0)
      then false
      else is_before (date_parse (sql_text (or_else e.end_at e.start))) now
