-- ===== src/Base/Sorts.antt =====
-- `Array.prototype.sort`, which is stable, with a comparison that says whether one value stands
-- before another.
use mathlib.Core.Path.{◌≡◌, refl, ap, ◌∙◌}
use mathlib.Core.Bool.{Bool, true, false}
use mathlib.Core.List.{List, [], ◌∷◌}
use mathlib.Core.Logic.{inl, inr}
use mullet.Base.Tests.{if◌then◌else◌, Bool-cases}
use Prim.Native.Nat.{◌+◌}
use native.Mathlib.Omega.{arith}
use mullet.Base.Lists.{All, All-map, filter, length}

module _ {A : Type 0} (less : A → A → Bool) where
  abbrev pub insert_by : A → List A → List A
  insert_by a [] = a ∷ []
  insert_by a (b ∷ rows) =
      let rest = insert_by a rows in if less b a then b ∷ rest else a ∷ b ∷ rows

  unfoldable pub sort_by : List A → List A
  sort_by [] = []
  sort_by (a ∷ rows) = insert_by a (sort_by rows)

  -- Each value stands after no value that is to stand after it.
  abbrev pub IsSortedBy : List A → Type 0
  IsSortedBy [] = Unit
  IsSortedBy (a ∷ rows) = All (λ b. less b a ≡ false) rows × IsSortedBy rows

  module _ (asym : (a b : A) → less a b ≡ true → less b a ≡ false)
      (trans : (a b c : A) → less b a ≡ false → less c b ≡ false → less c a ≡ false) where
    insert_by-above :
        (b a : A) (rows : List A)
        → less a b ≡ false
        → All (λ c. less c b ≡ false) rows
        → All (λ c. less c b ≡ false) (insert_by a rows)
    insert_by-above b a [] p _ = (p, tt)
    insert_by-above b a (c ∷ rows) p (q, qs) = elim (Bool-cases (less c a)) [
      | inl h ↦ rw h (q, insert_by-above b a rows p qs)
      | inr h ↦ rw h (p, (q, qs))
    ]

    insert_by-IsSortedBy : (a : A) (rows : List A) → IsSortedBy rows → IsSortedBy (insert_by a rows)
    insert_by-IsSortedBy a [] _ = (tt, tt)
    insert_by-IsSortedBy a (b ∷ rows) (q, s) = elim (Bool-cases (less b a)) [
      | inl h ↦ rw h (insert_by-above b a rows (asym b a h) q, insert_by-IsSortedBy a rows s)
      | inr h ↦ rw h ((h, All-map (λ c g. trans a b c h g) rows q), (q, s))
    ]

    pub sort_by-IsSortedBy : (rows : List A) → IsSortedBy (sort_by rows)
    unfolding sort_by
    sort_by-IsSortedBy [] = tt
    sort_by-IsSortedBy (a ∷ rows) = insert_by-IsSortedBy a (sort_by rows) (sort_by-IsSortedBy rows)

  -- Values of one class stand in no order to one another.
  module _ (p : A → Bool) (apart : (a b : A) → less b a ≡ true → p a ≡ true → p b ≡ false) where
    insert_by-filter : (a : A) (rows : List A) → filter p (insert_by a rows) ≡ filter p (a ∷ rows)
    insert_by-filter a [] = refl
    insert_by-filter a (b ∷ rows) = elim (Bool-cases (less b a)) [
      | inl h ↦ elim (Bool-cases (p a)) [
        | inl e ↦ rw (h, insert_by-filter a rows, e, apart a b h e) refl
        | inr e ↦ rw (h, insert_by-filter a rows, e) refl
      ]
      | inr h ↦ rw h refl
    ]

    pub sort_by-filter : (rows : List A) → filter p (sort_by rows) ≡ filter p rows
    unfolding sort_by
    sort_by-filter [] = refl
    sort_by-filter (a ∷ rows) =
        insert_by-filter a (sort_by rows) ∙ ap (λ r. if p a then a ∷ r else r) (sort_by-filter rows)

  length-insert_by : (a : A) (rows : List A) → length (insert_by a rows) ≡ length rows + 1
  length-insert_by a [] = refl
  length-insert_by a (b ∷ rows) = ground (arith, length-insert_by a rows)

  pub length-sort_by : (rows : List A) → length (sort_by rows) ≡ length rows
  unfolding sort_by
  length-sort_by [] = refl
  length-sort_by (a ∷ rows) = length-insert_by a (sort_by rows) ∙ omega (arith, length-sort_by rows)

  -- What holds of each value holds of each sorted value.
  module _ (P : A → Type 0) where
    insert_by-All : (a : A) (rows : List A) → P a → All P rows → All P (insert_by a rows)
    insert_by-All a [] p _ = (p, tt)
    insert_by-All a (b ∷ rows) p (q, qs) = elim (Bool-cases (less b a)) [
      | inl h ↦ rw h (q, insert_by-All a rows p qs)
      | inr h ↦ rw h (p, (q, qs))
    ]

    pub sort_by-All : (rows : List A) → All P rows → All P (sort_by rows)
    unfolding sort_by
    sort_by-All [] _ = tt
    sort_by-All (a ∷ rows) (p, ps) = insert_by-All a (sort_by rows) p (sort_by-All rows ps)
