-- ===== src/Designer/Positions/Idempotent.antt =====
-- The optimistic update of `persistPositions` agrees with the layout that it was made from.
use mathlib.Core.Option
use mullet.Base.{
  ℕ, true, false, not, Option, none, some, List, [], ◌∷◌, map, filter, find, All, All-map, ◌≡◌, ◌≢◌,
  inl, inr, refl, sym, ap, ◌∙◌, arith, ◌==◌, ==_iff, Bool-cases, find-holds,
}
use mullet.Designer.{Card}
use mullet.Designer.Positions.{
  LayoutItem, card_of, at_item, differs, is_changed, place, place_at, moved, persist_positions,
}

-- No two items name the same card.
abbrev pub DistinctIds : List LayoutItem → Type 0
DistinctIds [] = Unit
DistinctIds (item ∷ items) = All (λ l. l.i ≢ item.i) items × DistinctIds items

-- In a layout of distinct items each item is the first that names its card.
abbrev IsFirst : List LayoutItem → LayoutItem → Type 0
IsFirst layout item = (id : ℕ) → (item.i == id) ≡ true → find (λ l. l.i == id) layout ≡ some item

skip :
    (x item : LayoutItem) (xs : List LayoutItem)
    → item.i ≢ x.i
    → IsFirst xs item
    → IsFirst (x ∷ xs) item
skip x item xs ne first id e = elim (Bool-cases (x.i == id)) [
  | inl h ↦ absurd (ne ((==_iff _ _).0 e ∙ sym ((==_iff _ _).0 h)))
  | inr h ↦ rw h (first id e)
]

both :
    (x : LayoutItem) (xs ys : List LayoutItem)
    → All (λ l. l.i ≢ x.i) ys
    → All (IsFirst xs) ys
    → All (IsFirst (x ∷ xs)) ys
both x xs [] _ _ = tt
both x xs (y ∷ ys) (n, ns) (f, fs) = (skip x y xs n f, both x xs ys ns fs)

All-IsFirst : (layout : List LayoutItem) → DistinctIds layout → All (IsFirst layout) layout
All-IsFirst [] _ = tt
All-IsFirst (x ∷ xs) (n, ds) = (λ id e. rw e, both x xs xs n (All-IsFirst xs ds))

module _ {Number : Type 0} where
  place_at-id : (c : Card Number) (o : Option LayoutItem) → (place_at c o).id ≡ c.id
  place_at-id c none = refl
  place_at-id c (some item) = refl

  card_of-moved :
      (layout : List LayoutItem) (cards : List (Card Number)) (item : LayoutItem)
      → card_of (map (moved layout) cards) item ≡ Option.map (moved layout) (card_of cards item)
  unfolding card_of moved
  card_of-moved layout [] item = refl
  card_of-moved layout (c ∷ cards) item =
      let same = place_at-id c (find (λ l. l.i == c.id) layout) in
      elim (Bool-cases (c.id == item.i)) [
        | inl e ↦ rw same (rw e)
        | inr e ↦ rw same (rw e (card_of-moved layout cards item))
      ]

  at_item-place : (c : Card Number) (item : LayoutItem) → at_item (place c item) item ≡ true
  at_item-place c item = ground arith

  settled :
      (layout : List LayoutItem) (item : LayoutItem) (c : Card Number)
      → find (λ l. l.i == c.id) layout ≡ some item
      → at_item (moved layout c) item ≡ true
  unfolding moved
  settled layout item c e = rw e (at_item-place c item)

  unchanged :
      (layout : List LayoutItem) (cards : List (Card Number)) (item : LayoutItem)
      → IsFirst layout item
      → is_changed (map (moved layout) cards) item ≡ false
  unfolding is_changed
  unchanged layout cards item first =
      ap (λ o. differs o item) (card_of-moved layout cards item) ∙ known (card_of cards item) refl
    where
      known :
          (o : Option (Card Number))
          → card_of cards item ≡ o
          → differs (Option.map (moved layout) o) item ≡ false
      known none e = refl
      known (some c) e = ap not (
          settled layout item c (
            first c.id (
              (==_iff _ _).1 (
                sym (
                  (==_iff _ _).0
                    (find-holds (λ d. d.id == item.i) cards c (unfold card_of in e)))))))

  filter-none :
      (cards : List (Card Number)) (items : List LayoutItem)
      → All (λ item. is_changed cards item ≡ false) items
      → filter (is_changed cards) items ≡ []
  filter-none cards [] _ = refl
  filter-none cards (item ∷ items) (h, hs) = rw h (filter-none cards items hs)

  kept_rest :
      (c : Card Number) (o : Option LayoutItem) (there : LayoutItem)
      → place (place_at c o) there ≡ place c there
  kept_rest c none there = refl
  kept_rest c (some item) there = refl

  -- Where no two items of a layout name the same card: after the optimistic update the same layout
  -- asks for no further request, and of each card only the place and the size have changed.
  pub persist_positions_settles :
      (cards : List (Card Number)) (layout : List LayoutItem)
      → DistinctIds layout
      → (persist_positions (map (moved layout) cards) layout ≡ none)
        × ((c : Card Number) (there : LayoutItem) → place (moved layout c) there ≡ place c there)
  unfolding persist_positions moved
  persist_positions_settles cards layout distinct = (
    rw (
        filter-none (map (moved layout) cards) layout
          (All-map (unchanged layout cards) layout (All-IsFirst layout distinct))),
    λ c there. kept_rest c (find (λ l. l.i == c.id) layout) there,
  )
