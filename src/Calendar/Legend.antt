-- ===== src/Calendar/Legend.antt =====
-- The colours and the legend of the calendars in the agenda and the week view, with what both make of
-- the calendars shape. `upper` is `toUpperCase`.
use mullet.Base.{
  ℕ, Text, codes, trim, is_nil, Bool, true, false, any, Option, none, some, or_else, List, [], ◌∷◌,
  ◌++◌, map, length, ltb, ◌==◌, ◌||◌, if◌then◌else◌, ◌≡◌, refl, sym, ap, ◌∙◌, arith, Bool-cases,
  inl, inr,
}
use mullet.Calendar.Decimal.{decimal}
use mullet.Calendar.Events.{EventRow, add_id, add_ids, visible_ids}
use mullet.Widgets.Hashes.{color_for_id}

pub record CalendarRow : Type 0 where
  pub id : ℕ
  pub name : Text
  pub color : Option Text

abbrev or_this : Option CalendarRow → Option CalendarRow → Option CalendarRow
or_this (some c) _ = some c
or_this none d = d

-- `calendarByID.get(id)`: of rows with one id the last is kept.
unfoldable pub calendar_by_id : ℕ → List CalendarRow → Option CalendarRow
calendar_by_id id [] = none
calendar_by_id id (c ∷ calendars) =
    or_this (calendar_by_id id calendars) (if c.id == id then some c else none)

abbrev or_color : Option Text → Option Text → Option Text
or_color none d = d
or_color (some s) d = if is_nil s then d else some s

abbrev own_color : Option CalendarRow → Option Text
own_color none = none
own_color (some c) = c.color

-- `cal?.color || colorForID(id)`
unfoldable pub calendar_color : Option CalendarRow → ℕ → Option Text
calendar_color cal id = or_color (own_color cal) (color_for_id (decimal id))

abbrev own_name : Option CalendarRow → Option Text
own_name none = none
own_name (some c) = some c.name

-- `name?.trim()?.[0] ?? '?'`
abbrev first_unit : Option Text → Text
first_unit none = codes "?"
first_unit (some []) = codes "?"
first_unit (some (c ∷ _)) = c ∷ []

abbrev trimmed : Option Text → Option Text
trimmed none = none
trimmed (some s) = some (trim s)

unfoldable pub calendar_initial : (Text → Text) → Option Text → Text
calendar_initial upper name = upper (first_unit (trimmed name))

pub record LegendEntry : Type 0 where
  pub id : ℕ
  pub name : Text
  pub color : Option Text

unfoldable pub legend_entry : List CalendarRow → ℕ → LegendEntry
legend_entry calendars id =
    let cal = calendar_by_id id calendars in
    record {
      id = id;
      name = or_else (own_name cal) (codes "Calendar " ++ decimal id);
      color = calendar_color cal id;
    }

-- What is shown of the legend: nothing for a single calendar.
unfoldable pub legend : List CalendarRow → List (Text × List EventRow) → List LegendEntry
legend calendars groups =
    let entries = map (legend_entry calendars) (visible_ids [] groups) in
    if ltb 1 (length entries) then entries else []

abbrev pub holds : List ℕ → ℕ → Bool
holds ids i = any (λ j. j == i) ids

-- An event of the calendar is in the list.
abbrev pub has_event : ℕ → List EventRow → Bool
has_event i = any (λ (e : EventRow). e.calendar_id == i)

abbrev pub is_visible : ℕ → List (Text × List EventRow) → Bool
is_visible i = any (λ (g : Text × List EventRow). has_event i g.1)

abbrev pub AreDistinct : List ℕ → Type 0
AreDistinct [] = Unit
AreDistinct (i ∷ ids) = (holds ids i ≡ false) × AreDistinct ids

holds-snoc : (ids : List ℕ) (i j : ℕ) → holds (ids ++ i ∷ []) j ≡ (holds ids j || i == j)
holds-snoc [] i j = ground arith
holds-snoc (k ∷ ids) i j = ground (arith, holds-snoc ids i j)

AreDistinct-snoc :
    (ids : List ℕ) (i : ℕ) → AreDistinct ids → holds ids i ≡ false → AreDistinct (ids ++ i ∷ [])
AreDistinct-snoc [] i _ _ = (refl, tt)
AreDistinct-snoc (k ∷ ids) i (new, rest) h =
    (ground (arith, holds-snoc ids i k), AreDistinct-snoc ids i rest (ground arith))

or_assoc : (a b c : Bool) → ((a || b) || c) ≡ (a || (b || c))
or_assoc true b c = refl
or_assoc false b c = refl

or_nil : (a : Bool) → a ≡ (a || false)
or_nil true = refl
or_nil false = refl

holds-add_id : (i j : ℕ) (ids : List ℕ) → holds (add_id i ids) j ≡ (holds ids j || i == j)
holds-add_id i j ids = elim (Bool-cases (holds ids i)) [
  | inl h ↦ elim (Bool-cases (i == j)) [
    | inl e ↦
        let same : i ≡ j = ground arith in
        let both : holds ids j ≡ true = ap (holds ids) (sym same) ∙ h in rw (h, both) refl
    | inr e ↦ rw (h, e) (or_nil (holds ids j))
  ]
  | inr h ↦ rw h (holds-snoc ids i j)
]

add_id-AreDistinct : (i : ℕ) (ids : List ℕ) → AreDistinct ids → AreDistinct (add_id i ids)
add_id-AreDistinct i ids d = elim (Bool-cases (holds ids i)) [
  | inl h ↦ rw h d
  | inr h ↦ rw h (AreDistinct-snoc ids i d h)
]

holds-add_ids :
    (rows : List EventRow) (ids : List ℕ) (i : ℕ)
    → holds (add_ids rows ids) i ≡ (holds ids i || has_event i rows)
holds-add_ids [] ids i = or_nil (holds ids i)
holds-add_ids (e ∷ rows) ids i =
    holds-add_ids rows (add_id e.calendar_id ids) i
    ∙ ap (λ b. b || has_event i rows) (holds-add_id e.calendar_id i ids)
    ∙ or_assoc (holds ids i) (e.calendar_id == i) (has_event i rows)

add_ids-AreDistinct :
    (rows : List EventRow) (ids : List ℕ) → AreDistinct ids → AreDistinct (add_ids rows ids)
add_ids-AreDistinct [] ids d = d
add_ids-AreDistinct (e ∷ rows) ids d =
    add_ids-AreDistinct rows (add_id e.calendar_id ids) (add_id-AreDistinct e.calendar_id ids d)

visible_ids-lem :
    (groups : List (Text × List EventRow)) (ids : List ℕ) (i : ℕ)
    → AreDistinct ids
    → AreDistinct (visible_ids ids groups)
      × (holds (visible_ids ids groups) i ≡ (holds ids i || is_visible i groups))
unfolding visible_ids
visible_ids-lem [] ids i d = (d, or_nil (holds ids i))
visible_ids-lem ((k, rows) ∷ groups) ids i d =
    let (distinct, held) =
      visible_ids-lem groups (add_ids rows ids) i (add_ids-AreDistinct rows ids d) in
    (
      distinct,
      held
          ∙ ap (λ b. b || is_visible i groups) (holds-add_ids rows ids i)
          ∙ or_assoc (holds ids i) (has_event i rows) (is_visible i groups),
    )

-- The legend is drawn from each calendar once that has an event in one of the lists, and from no other.
pub visible_ids_correct :
    (groups : List (Text × List EventRow)) (i : ℕ)
    → AreDistinct (visible_ids [] groups) × (holds (visible_ids [] groups) i ≡ is_visible i groups)
visible_ids_correct groups i = visible_ids-lem groups [] i tt
