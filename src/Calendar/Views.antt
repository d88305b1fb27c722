-- ===== src/Calendar/Views.antt =====
-- What the agenda, the week view and the month view show of one event.
use mullet.Base.{
  ℕ, Text, codes, is_nil, Bool, true, not, ◌&&◌, Option, none, some, or_else, List, ◌++◌, leb, ◌==◌,
  if◌then◌else◌,
}
use mullet.Calendar.Events.{EventRow, is_past_event, sql_text}
use mullet.Calendar.Legend.{CalendarRow, calendar_by_id, calendar_color, calendar_initial}

-- The name of the calendar, if it has one
abbrev name_of : Option CalendarRow → Option Text
name_of none = none
name_of (some c) = some c.name

-- An event of the agenda: a badge for the whole day, or its time.
pub record AgendaEvent : Type 0 where
  pub past : Bool
  pub color : Option Text
  pub initial : Text
  -- none where the badge stands for the whole day; else the instant to format, NaN being none
  pub time : Option (Option ℕ)
  pub title : Text
  pub location : Option Text

-- `showLocation && !compact && e.location`
abbrev shown_location : Bool → Option Text → Option Text
shown_location shows none = none
shown_location shows (some place) = if shows && not (is_nil place) then some place else none

-- An event of the week view or of a cell of the month view: its tooltip names the calendar.
unfoldable pub event_tooltip : Option CalendarRow → EventRow → Text
event_tooltip none e = e.title
event_tooltip (some c) e =
    if is_nil c.name then e.title else e.title ++ (codes " (" ++ (c.name ++ codes ")"))

module _ (date_parse : Text → Option ℕ) (local_day : ℕ → ℕ) (collates : Text → Text → Bool)
    (upper : Text → Text) where
  abbrev event_time : EventRow → Option (Option ℕ)
  event_time e = if e.all_day == 0 then some (date_parse (sql_text e.start)) else none

  -- An event under the heading of a day, for the calendars, the setting of the location, the width
  -- of the card and the instant now
  unfoldable pub agenda_event : List CalendarRow → Option Bool → ℕ → ℕ → ℕ → EventRow → AgendaEvent
  agenda_event calendars show_location w now day e =
      let cal = calendar_by_id e.calendar_id calendars in
      record {
        past = is_past_event date_parse local_day collates now e day;
        color = calendar_color cal e.calendar_id;
        initial = calendar_initial upper (name_of cal);
        time = event_time e;
        title = e.title;
        location = shown_location (or_else show_location true && not (leb w 4)) e.location;
      }
