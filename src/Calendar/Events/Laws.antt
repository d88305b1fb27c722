-- ===== src/Calendar/Events/Laws.antt =====
-- What each day of the agenda and of the week view shows.
use mathlib.Core.List.{append_assoc, append-nil}
use mullet.Base.{
  ℕ, zero, suc, ◌+◌, ◌≤◌, ◌<◌, Text, codes, text_eq, text_eq_iff, Bool, true, false, Option, none,
  some, List, [], ◌∷◌, ◌++◌, map, filter, ◌==◌, if◌then◌else◌, ◌≡◌, refl, sym, ap, ◌∙◌, arith,
  Bool-cases, inl, inr,
}
use mathlib.Core.Path.{fun_ext}
use mullet.Base.Sorts.{sort_by}
use mullet.Calendar.Dates.{get_day}
use mullet.Calendar.Keys.{local_day_key, local_day_key-inj, local_day_key-ne_invalid}
use mullet.Calendar.Events.{
  EventRow, days_from, agenda_days, week_start, back_to_start, get, start_day, key_of, event_key,
  event_before, place, place_all, open_groups, by_day, shown_days, agenda, week,
}

-- An option of a day is this day.
abbrev pub is_on : ℕ → Option ℕ → Bool
is_on d none = false
is_on d (some n) = n == d

pub same_key : (d n : ℕ) → text_eq (local_day_key d) (local_day_key n) ≡ (n == d)
same_key d n = ground (
  arith,
  text_eq_iff (local_day_key d) (local_day_key n),
  local_day_key-inj d n,
  λ (e : d ≡ n). ap local_day_key e,
)

invalid_key : (d : ℕ) → text_eq (local_day_key d) (codes "NaN-NaN-NaN") ≡ false
invalid_key d = elim (Bool-cases (text_eq (local_day_key d) (codes "NaN-NaN-NaN"))) [
  | inl e ↦
      absurd (
        local_day_key-ne_invalid d
          (sym ((text_eq_iff (local_day_key d) (codes "NaN-NaN-NaN")).0 e)))
  | inr e ↦ e
]

pub text_eq-sym : (k l : Text) → text_eq k l ≡ text_eq l k
text_eq-sym k l =
    ground (arith, text_eq_iff k l, text_eq_iff l k, λ (e : k ≡ l). sym e, λ (e : l ≡ k). sym e)

-- Of two texts, the one equal to a third is compared as the third.
text_eq-same : (k l m : Text) → text_eq l m ≡ true → text_eq k m ≡ text_eq l k
text_eq-same k l m h = ap (text_eq k) (sym ((text_eq_iff l m).0 h)) ∙ text_eq-sym k l

text_eq-other : (k l m : Text) → text_eq l k ≡ true → text_eq l m ≡ false → text_eq k m ≡ false
text_eq-other k l m h n = ap (λ r. text_eq r m) (sym ((text_eq_iff l k).0 h)) ∙ n

abbrev append_rows : List EventRow → Option (List EventRow) → Option (List EventRow)
append_rows more none = none
append_rows more (some rows) = some (rows ++ more)

append_rows-nil : (o : Option (List EventRow)) → append_rows [] o ≡ o
append_rows-nil none = refl
append_rows-nil (some rows) = ap some (append-nil rows)

append_rows-append :
    (xs ys : List EventRow) (o : Option (List EventRow))
    → append_rows ys (append_rows xs o) ≡ append_rows (xs ++ ys) o
append_rows-append xs ys none = refl
append_rows-append xs ys (some rows) = ap some (append_assoc rows xs ys)

abbrev map_rows : (List EventRow → List EventRow) → Option (List EventRow) → Option (List EventRow)
map_rows f none = none
map_rows f (some rows) = some (f rows)

get-sort_groups :
    (sorted : List EventRow → List EventRow) (k : Text) (groups : List (Text × List EventRow))
    → get k (map (λ (g : Text × List EventRow). (g.0, sorted g.1)) groups)
      ≡ map_rows sorted (get k groups)
get-sort_groups sorted k [] = refl
get-sort_groups sorted k ((l, rows) ∷ groups) = elim (Bool-cases (text_eq l k)) [
  | inl e ↦ rw e refl
  | inr e ↦ rw e (get-sort_groups sorted k groups)
]

pub week_start-bounds :
    (start_monday : Bool) (today : ℕ)
    → 6 ≤ today
    → (get_day (week_start start_monday today) ≡ (if start_monday then 1 else 0))
      × (week_start start_monday today ≤ today)
      × (today < week_start start_monday today + 7)
unfolding week_start back_to_start get_day
week_start-bounds true today h = (ground arith, ground arith, ground arith)
week_start-bounds false today h = (ground arith, ground arith, ground arith)

module _ (date_parse : Text → Option ℕ) (local_day : ℕ → ℕ) (collates : Text → Text → Bool) where
  pub key_is_on :
      (d : ℕ) (o : Option ℕ)
      → text_eq (local_day_key d) (key_of date_parse local_day collates o) ≡ is_on d o
  key_is_on d none = invalid_key d
  key_is_on d (some n) = same_key d n

  -- The event begins on the day.
  abbrev pub starts_on : ℕ → EventRow → Bool
  starts_on d e = is_on d (start_day date_parse local_day collates e)

  abbrev only : Text → EventRow → List EventRow
  only k e = if text_eq k (event_key date_parse local_day collates e) then e ∷ [] else []

  get-place :
      (k : Text) (e : EventRow) (groups : List (Text × List EventRow))
      → get k (place date_parse local_day collates e groups) ≡ append_rows (only k e) (get k groups)
  get-place k e [] = refl
  get-place k e ((l, rows) ∷ groups) =
      let m = event_key date_parse local_day collates e in
      elim (Bool-cases (text_eq l m)) [
        | inl h ↦ elim (Bool-cases (text_eq l k)) [
          | inl g ↦ rw (h, g, text_eq-same k l m h ∙ g) refl
          | inr g ↦ rw (h, g, text_eq-same k l m h ∙ g) (sym (append_rows-nil (get k groups)))
        ]
        | inr h ↦ elim (Bool-cases (text_eq l k)) [
          | inl g ↦ rw (h, g, text_eq-other k l m g h) (sym (append_rows-nil (some rows)))
          | inr g ↦ rw (h, g) (get-place k e groups)
        ]
      ]

  abbrev matching : Text → List EventRow → List EventRow
  matching k = filter (λ e. text_eq k (event_key date_parse local_day collates e))

  only-matching :
      (k : Text) (e : EventRow) (rows : List EventRow)
      → only k e ++ matching k rows ≡ matching k (e ∷ rows)
  only-matching k e rows =
      elim (Bool-cases (text_eq k (event_key date_parse local_day collates e))) [
        | inl h ↦ rw h refl
        | inr h ↦ rw h refl
      ]

  get-place_all :
      (k : Text) (rows : List EventRow) (groups : List (Text × List EventRow))
      → get k (place_all date_parse local_day collates rows groups)
        ≡ append_rows (matching k rows) (get k groups)
  get-place_all k [] groups = sym (append_rows-nil (get k groups))
  get-place_all k (e ∷ rows) groups =
      get-place_all k rows (place date_parse local_day collates e groups)
      ∙ ap (append_rows (matching k rows)) (get-place k e groups)
      ∙ append_rows-append (only k e) (matching k rows) (get k groups)
      ∙ ap (λ r. append_rows r (get k groups)) (only-matching k e rows)

  -- The events that begin on the day, in the order of the sort.
  abbrev pub events_on : ℕ → List EventRow → List EventRow
  events_on d rows =
      sort_by (event_before date_parse local_day collates) (filter (starts_on d) rows)

  get-open_groups :
      (d n count : ℕ)
      → d ≤ n
      → n < d + count
      → get (local_day_key n) (open_groups date_parse local_day collates (days_from d count))
        ≡ some []
  unfolding days_from
  get-open_groups d n zero h k = absurd (omega arith)
  get-open_groups d n (suc count) h k = elim (Bool-cases (n == d)) [
    | inl e ↦ rw (same_key d n, e) refl
    | inr e ↦ rw (same_key d n, e) (get-open_groups (d + 1) n count (ground arith) (omega arith))
  ]

  -- What the Map holds for a day that it was opened with.
  pub get-placed :
      (d n count : ℕ) (rows : List EventRow)
      → d ≤ n
      → n < d + count
      → get (local_day_key n) (
          place_all date_parse local_day collates rows
            (open_groups date_parse local_day collates (days_from d count)))
        ≡ some (filter (starts_on n) rows)
  unfolding event_key
  get-placed d n count rows h k =
      get-place_all (local_day_key n) rows
        (open_groups date_parse local_day collates (days_from d count))
      ∙ ap (append_rows (matching (local_day_key n) rows)) (get-open_groups d n count h k)
      ∙ ap (λ p. some (filter p rows))
          (fun_ext (λ e. key_is_on n (start_day date_parse local_day collates e)))

  get-by_day :
      (d n count : ℕ) (rows : List EventRow)
      → d ≤ n
      → n < d + count
      → get (local_day_key n) (by_day date_parse local_day collates (days_from d count) rows)
        ≡ some (events_on n rows)
  unfolding by_day
  get-by_day d n count rows h k =
      let sorted = sort_by (event_before date_parse local_day collates) in
      get-sort_groups sorted (local_day_key n) (
        place_all date_parse local_day collates rows
          (open_groups date_parse local_day collates (days_from d count)))
      ∙ ap (map_rows sorted) (get-placed d n count rows h k)

  pub shown_days-found :
      (found : ℕ → List EventRow) (groups : List (Text × List EventRow)) (d count : ℕ)
      → ((n : ℕ) → d ≤ n → n < d + count → get (local_day_key n) groups ≡ some (found n))
      → shown_days date_parse local_day collates (days_from d count) groups
        ≡ map (λ n. (n, some (found n))) (days_from d count)
  unfolding days_from
  shown_days-found found groups d zero h = refl
  shown_days-found found groups d (suc count) h =
      rw
        (
          h d (omega arith) (omega arith),
          shown_days-found found groups (d + 1) count (λ n l k. h n (omega arith) (omega arith)),
        )
        refl

  shown_days-by_day :
      (d count : ℕ) (rows : List EventRow)
      → shown_days date_parse local_day collates
          (days_from d count)
          (by_day date_parse local_day collates (days_from d count) rows)
        ≡ map (λ n. (n, some (events_on n rows))) (days_from d count)
  shown_days-by_day d count rows =
      shown_days-found (λ n. events_on n rows)
        (by_day date_parse local_day collates (days_from d count) rows) d count
        (λ n h k. get-by_day d n count rows h k)

  -- The agenda shows the days from today on, and under each of them exactly the events that begin on
  -- that local day, those of the whole day first and then by their start; an event whose start is no
  -- date is shown nowhere.
  pub agenda_correct :
      (days : Option ℕ) (today : ℕ) (rows : List EventRow)
      → agenda date_parse local_day collates days today rows
        ≡ map (λ n. (n, some (events_on n rows))) (days_from today (agenda_days days))
  unfolding agenda
  agenda_correct days today rows = shown_days-by_day today (agenda_days days) rows

  -- From 7 January 1970 on: the week view shows seven days from a Sunday or a Monday on, today among
  -- them, and under each exactly the events that begin on that local day, sorted as in the agenda.
  pub week_correct :
      (start_monday : Bool) (today : ℕ) (rows : List EventRow)
      → 6 ≤ today
      → (get_day (week_start start_monday today) ≡ (if start_monday then 1 else 0))
        × (week_start start_monday today ≤ today)
        × (today < week_start start_monday today + 7)
        × (week date_parse local_day collates start_monday today rows
            ≡ map (λ n. (n, some (events_on n rows))) (days_from (week_start start_monday today) 7))
  unfolding week
  week_correct start_monday today rows h =
      let first = week_start start_monday today in
      let (day, early, late) = week_start-bounds start_monday today h in
      (day, early, late, shown_days-by_day first 7 rows)
