-- ===== src/Calendar/Meals.antt =====
-- plugins/meal-plan/MealPlanWidget.tsx: the events of a keyword by day, and their titles without it.
-- `toLowerCase` of a text and the folding of a unit by the flag i of a regular expression are
-- parameters.
pub mod Plan
use mullet.Base.{
  ℕ, ◌≤◌, min, max, Text, codes, trim, trim_start, is_nil, is_space, StartsClean,
  trim_start_of_StartsClean, Bool, true, false, ◌&&◌, ◌||◌, Option, none, some, or_else, List, [],
  ◌∷◌, ◌++◌, map, filter, leb, ◌==◌, if◌then◌else◌, ◌≡◌, refl, arith,
}
use mullet.Calendar.Events.{EventRow, days_from, place_all, open_groups, shown_days}

-- `days`, for the setting and the width of the card
unfoldable pub meal_days : Option ℕ → ℕ → ℕ
meal_days days w =
    let cap : ℕ = if leb w 5 then 3 else if leb w 8 then 5 else 7 in
    max 1 (min (or_else days 7) cap)

abbrev pub starts_with : Text → Text → Bool
starts_with [] s = true
starts_with (c ∷ p) [] = false
starts_with (c ∷ p) (d ∷ s) = c == d && starts_with p s

-- `s.includes(p)`
unfoldable pub includes : Text → Text → Bool
includes p [] = is_nil p
includes p (c ∷ s) = starts_with p (c ∷ s) || includes p s

trim_start-append :
    (s : Text) (c : ℕ) (t : Text)
    → StartsClean s
    → is_space c ≡ false
    → trim_start (s ++ c ∷ t) ≡ s ++ c ∷ t
trim_start-append [] c t _ h = trim_start_of_StartsClean (c ∷ t) h
trim_start-append (d ∷ s) c t h _ = trim_start_of_StartsClean (d ∷ (s ++ c ∷ t)) h

module _ (lower : Text → Text) (fold : ℕ → ℕ) where
  -- `(cfg.keyword ?? 'meal').trim()`
  unfoldable pub meal_keyword : Option Text → Text
  meal_keyword keyword = trim (or_else keyword (codes "meal"))

  unfoldable pub names_keyword : Text → EventRow → Bool
  unfolding includes
  names_keyword keyword e =
      includes (lower keyword) (lower e.title)
      || includes (lower keyword) (lower (or_else e.description []))

  unfoldable pub meal_matches : Text → List EventRow → List EventRow
  unfolding names_keyword
  meal_matches keyword rows = if is_nil keyword then rows else filter (names_keyword keyword) rows

  -- The text after the keyword, in whatever case.
  abbrev pub after_keyword : Text → Text → Option Text
  after_keyword [] s = some s
  after_keyword (c ∷ p) [] = none
  after_keyword (c ∷ p) (d ∷ s) =
      let rest = after_keyword p s in if fold c == fold d then rest else none

  -- `[:\-]\s*`
  abbrev pub after_mark : Text → Option Text
  after_mark [] = none
  after_mark (c ∷ s) = if c == 58 || c == 45 then some (trim_start s) else none

  abbrev pub then_mark : Option Text → Option Text
  then_mark none = none
  then_mark (some s) = after_mark (trim_start s)

  abbrev pub or_title : Option Text → Text → Text
  or_title none title = title
  or_title (some s) title = if is_nil s then title else s

  unfoldable pub strip_keyword : Text → Text → Text
  unfolding trim_start
  strip_keyword title keyword =
      or_title (then_mark (after_keyword keyword (trim_start title))) title

  module _ (date_parse : Text → Option ℕ) (local_day : ℕ → ℕ) (collates : Text → Text → Bool) where
    unfoldable pub meal_plan :
        Option Text → Option ℕ → ℕ → ℕ → List EventRow → List (ℕ × Option (List EventRow))
    unfolding meal_keyword meal_matches meal_days
    meal_plan keyword days w today rows =
        let list = days_from today (meal_days days w) in
        shown_days date_parse local_day collates list (
          place_all date_parse local_day collates (meal_matches (meal_keyword keyword) rows)
            (open_groups date_parse local_day collates list))

  after_keyword-append : (p s : Text) → after_keyword p (p ++ s) ≡ some s
  after_keyword-append [] s = refl
  after_keyword-append (c ∷ p) s = ground (arith, after_keyword-append p s)

  -- A title of the keyword, a colon, a space and a dish is shown as the dish, where neither the
  -- keyword nor the dish begins with a space.
  pub strip_keyword-append :
      (keyword dish : Text)
      → StartsClean keyword
      → StartsClean dish
      → is_nil dish ≡ false
      → strip_keyword (keyword ++ 58 ∷ 32 ∷ dish) keyword ≡ dish
  unfolding strip_keyword is_space
  strip_keyword-append keyword dish k d filled =
      rw
        (
          trim_start-append keyword 58 (32 ∷ dish) k refl,
          after_keyword-append keyword (58 ∷ 32 ∷ dish),
          trim_start_of_StartsClean dish d,
          filled,
        )
        refl
