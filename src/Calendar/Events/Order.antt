-- ===== src/Calendar/Events/Order.antt =====
-- The order of the events of a day.
use mullet.Base.{ℕ, Text, Bool, true, false, Option, List, filter, ◌≡◌, arith}
use mullet.Base.Sorts.{IsSortedBy, sort_by-IsSortedBy}
use mullet.Calendar.Events.{EventRow, event_before}
use mullet.Calendar.Events.Laws.{events_on, starts_on}

module _ (date_parse : Text → Option ℕ) (local_day : ℕ → ℕ) (collates : Text → Text → Bool)
    (asym : (s t : Text) → collates s t ≡ true → collates t s ≡ false)
    (trans : (s t u : Text)
      → collates t s ≡ false
      → collates u t ≡ false
      → collates u s ≡ false) where
  before : EventRow → EventRow → Bool
  before = event_before date_parse local_day collates

  before_asym : (a b : EventRow) → before a b ≡ true → before b a ≡ false
  unfolding before event_before
  before_asym a b h = ground (arith, asym a.start b.start)

  before_trans : (a b c : EventRow) → before b a ≡ false → before c b ≡ false → before c a ≡ false
  unfolding before event_before
  before_trans a b c h k = ground (arith, trans a.start b.start c.start)

  -- Where the comparison by the locale is a strict weak order, no event of a day stands after one
  -- that is to stand after it.
  pub events_on-IsSorted :
      (day : ℕ) (rows : List EventRow)
      → IsSortedBy
          (event_before date_parse local_day collates)
          (events_on date_parse local_day collates day rows)
  unfolding before
  events_on-IsSorted day rows =
      sort_by-IsSortedBy before before_asym before_trans
        (filter (starts_on date_parse local_day collates day) rows)
