-- ===== src/Calendar/Meals/Plan.antt =====
-- MealPlanWidget.tsx: the days of the plan and the meals under them.
use mullet.Base.{
  ℕ, ◌≤◌, ◌<◌, Text, codes, trim, Bool, true, Option, some, or_else, List, [], ◌∷◌, ◌++◌, map,
  filter, leb, ◌==◌, ==_iff, Bool-cases, ◌≡◌, ◌↔◌, ◌⊎◌, inl, inr, refl, sym, ap, ◌∙◌, arith,
}
use mullet.Calendar.Events.{EventRow, days_from, place_all, open_groups}
use mullet.Calendar.Events.Laws.{starts_on, shown_days-found, get-placed}
use mullet.Calendar.Meals.{
  meal_days, starts_with, includes, meal_keyword, names_keyword, meal_matches, meal_plan,
}

-- The most days that a card of this width shows.
abbrev pub IsCap : ℕ → ℕ → Type 0
IsCap w cap = ((w ≤ 5) × (cap ≡ 3)) ⊎ ((5 < w) × (w ≤ 8) × (cap ≡ 5)) ⊎ ((8 < w) × (cap ≡ 7))

-- As many days as are asked for, but at least one and no more than the cap.
abbrev pub IsCount : ℕ → ℕ → ℕ → Type 0
IsCount asked cap count =
    ((asked ≡ 0) × (count ≡ 1))
    ⊎ ((1 ≤ asked) × (asked ≤ cap) × (count ≡ asked))
    ⊎ ((cap < asked) × (count ≡ cap))

meal_days-IsCount :
    (days : Option ℕ) (w : ℕ)
    → (cap : ℕ) × IsCap w cap × IsCount (or_else days 7) cap (meal_days days w)
unfolding meal_days
meal_days-IsCount days w = elim (Bool-cases (leb w 5)) [
  | inl narrow ↦ rw narrow (3, ground arith, ground arith)
  | inr wider ↦ elim (Bool-cases (leb w 8)) [
    | inl middle ↦ rw (wider, middle) (5, ground arith, ground arith)
    | inr wide ↦ rw (wider, wide) (7, ground arith, ground arith)
  ]
]

-- The text stands somewhere within the other.
abbrev pub Contains : Text → Text → Type 0
Contains p s = (before after : Text) × (s ≡ before ++ (p ++ after))

starts_with-append : (p s : Text) → starts_with p (p ++ s) ≡ true
starts_with-append [] s = refl
starts_with-append (c ∷ p) s = ground (arith, starts_with-append p s)

starts_with-rest : (p s : Text) → starts_with p s ≡ true → (after : Text) × (s ≡ p ++ after)
starts_with-rest [] s h = (s, refl)
starts_with-rest (c ∷ p) [] h = absurd (cc)
starts_with-rest (c ∷ p) (d ∷ s) h = elim (Bool-cases (c == d)) [
  | inl e ↦
      let (after, rest) = starts_with-rest p s (rw e at h) in
      (after, ap (λ x. x ∷ s) (sym ((==_iff c d).0 e)) ∙ ap (λ r. c ∷ r) rest)
  | inr e ↦ absurd (ground arith)
]

includes-Contains : (p s : Text) → includes p s ≡ true → Contains p s
unfolding includes
includes-Contains [] [] h = ([], [], refl)
includes-Contains (c ∷ p) [] h = absurd (cc)
includes-Contains p (d ∷ s) h = elim (Bool-cases (starts_with p (d ∷ s))) [
  | inl e ↦ let (after, rest) = starts_with-rest p (d ∷ s) e in ([], after, rest)
  | inr e ↦
      let (before, after, rest) = includes-Contains p s (rw e at h) in
      (d ∷ before, after, ap (λ r. d ∷ r) rest)
]

includes-append : (before p after : Text) → includes p (before ++ (p ++ after)) ≡ true
unfolding includes
includes-append [] [] [] = refl
includes-append [] [] (d ∷ after) = refl
includes-append [] (c ∷ p) after = rw (starts_with-append (c ∷ p) after) refl
includes-append (d ∷ before) p after = ground (arith, includes-append before p after)

includes_iff : (p s : Text) → (includes p s ≡ true) ↔ Contains p s
includes_iff p s = (
  includes-Contains p s,
  λ (before, after, e). ap (includes p) e ∙ includes-append before p after,
)

-- The list of those that have the property, each as often as before and in the same order.
pub data Keeps {A : Type 0} (P : A → Type 0) : List A → List A → Type 0 where
  nothing : Keeps P [] []
  keep : {x : A} {xs ys : List A} → P x → Keeps P xs ys → Keeps P (x ∷ xs) (x ∷ ys)
  leave : {x : A} {xs ys : List A} → ¬ P x → Keeps P xs ys → Keeps P (x ∷ xs) ys

filter-Keeps :
    {A : Type 0} (P : A → Type 0) (p : A → Bool) (iff : (x : A) → (p x ≡ true) ↔ P x) (xs : List A)
    → Keeps P xs (filter p xs)
filter-Keeps P p iff [] = nothing
filter-Keeps P p iff (x ∷ xs) = elim (Bool-cases (p x)) [
  | inl e ↦ rw e (keep ((iff x).0 e) (filter-Keeps P p iff xs))
  | inr e ↦ rw e (leave (λ h. absurd (cc ((iff x).1 h))) (filter-Keeps P p iff xs))
]

all-Keeps : {A : Type 0} (P : A → Type 0) (all : (x : A) → P x) (xs : List A) → Keeps P xs xs
all-Keeps P all [] = nothing
all-Keeps P all (x ∷ xs) = keep (all x) (all-Keeps P all xs)

module _ (lower : Text → Text) (fold : ℕ → ℕ) where
  -- The keyword is empty, or stands within the title or the description, in whatever case.
  abbrev pub IsMeal : Text → EventRow → Type 0
  IsMeal keyword e =
      (keyword ≡ [])
      ⊎ Contains (lower keyword) (lower e.title)
      ⊎ Contains (lower keyword) (lower (or_else e.description []))

  named_iff :
      (c : ℕ) (k : Text) (e : EventRow)
      → (names_keyword lower fold (c ∷ k) e ≡ true) ↔ IsMeal (c ∷ k) e
  unfolding names_keyword
  named_iff c k e =
      let (to, from) = includes_iff (lower (c ∷ k)) (lower e.title) in
      let (to', from') = includes_iff (lower (c ∷ k)) (lower (or_else e.description [])) in
      (
        λ h. elim (Bool-cases (includes (lower (c ∷ k)) (lower e.title))) [
          | inl t ↦ inr (inl (to t))
          | inr f ↦ inr (inr (to' (rw f at h)))
        ],
        λ m. elim m [
          | inl n ↦ absurd (cc)
          | inr (inl h) ↦ rw (from h) refl
          | inr (inr h) ↦ let found = from' h in ground arith
        ],
      )

  meal_matches-Keeps :
      (keyword : Text) (rows : List EventRow)
      → Keeps (IsMeal keyword) rows (meal_matches lower fold keyword rows)
  unfolding meal_matches
  meal_matches-Keeps [] rows = all-Keeps (IsMeal []) (λ e. inl refl) rows
  meal_matches-Keeps (c ∷ k) rows =
      filter-Keeps (IsMeal (c ∷ k)) (names_keyword lower fold (c ∷ k)) (named_iff c k) rows

  -- The plan shows as many days from today on as are asked for, or 7, but at least one and no more
  -- than the width of the card allows: 3 up to a width of 5, 5 up to one of 8, and else 7. Under each
  -- day it has exactly those rows, in their order, that begin on that local day and have the trimmed
  -- keyword, or meal, in their title or description; with an empty keyword it has all.
  pub meal_plan_correct :
      (date_parse : Text → Option ℕ) (local_day : ℕ → ℕ) (collates : Text → Text → Bool)
      (keyword : Option Text) (days : Option ℕ) (w today : ℕ) (rows : List EventRow)
      → (cap count : ℕ) × (meals : List EventRow) × IsCap w cap
        × IsCount (or_else days 7) cap count
        × Keeps (IsMeal (trim (or_else keyword (codes "meal")))) rows meals
        × (meal_plan lower fold date_parse local_day collates keyword days w today rows
            ≡ map
                (λ n. (n, some (filter (starts_on date_parse local_day collates n) meals)))
                (days_from today count))
  unfolding meal_plan meal_keyword
  meal_plan_correct date_parse local_day collates keyword days w today rows =
      let matches = meal_matches lower fold (trim (or_else keyword (codes "meal"))) rows in
      let count = meal_days days w in
      let (cap, is_cap, is_count) = meal_days-IsCount days w in
      (
        cap,
        count,
        matches,
        is_cap,
        is_count,
        meal_matches-Keeps (trim (or_else keyword (codes "meal"))) rows,
        shown_days-found date_parse local_day collates
            (λ n. filter (starts_on date_parse local_day collates n) matches)
            (place_all date_parse local_day collates matches
              (open_groups date_parse local_day collates (days_from today count)))
            today count
            (λ n h k. get-placed date_parse local_day collates today n count matches h k),
      )
