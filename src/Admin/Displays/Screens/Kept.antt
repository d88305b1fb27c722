-- ===== src/Admin/Displays/Screens/Kept.antt =====
-- DisplaysPage.tsx: what renaming and moving a screen change of it, and moves that change nothing.
use mullet.Base.{
  ℕ, ◌≤◌, ◌==◌, Text, none, List, [], ◌∷◌, ◌++◌, map, length, All, ◌≡◌, refl, ap, ◌∙◌, sym, subst,
  arith, false,
}
use mullet.Base.Ints.{pos}
use mullet.Widgets.Groups.{sort, insert}
use mullet.Designer.{Screen}
use mullet.Designer.Server.{put_screen}
use mullet.Admin.Displays.Screens.{later, load_screens, screen_body, move_screen}
use mullet.Admin.Displays.Screens.Order.{AreDistinct, ids, positions, moved, move_at, put_both}

abbrev pub IsOrdered : List ℕ → Type 0
IsOrdered [] = Unit
IsOrdered (n ∷ ns) = All (λ m. n ≤ m) ns × IsOrdered ns

insert_least :
    {A : Type 0} (rank : A → ℕ) (a : A) (xs : List A)
    → All (λ m. rank a ≤ m) (map rank xs)
    → insert (λ b. pos (rank b)) a xs ≡ a ∷ xs
insert_least rank a [] _ = refl
insert_least rank a (b ∷ xs) (h, _) = ground arith

sort_ordered :
    {A : Type 0} (rank : A → ℕ) (xs : List A)
    → IsOrdered (map rank xs)
    → sort (λ b. pos (rank b)) xs ≡ xs
unfolding sort
sort_ordered rank [] _ = refl
sort_ordered rank (a ∷ xs) (h, hs) = rw (sort_ordered rank xs hs) (insert_least rank a xs h)

not_zero : (n : ℕ) → 1 ≤ n → (n == 0) ≡ false
not_zero n h = ground arith

module _ {Number : Type 0} where
  -- Renaming or moving a screen with a usable grid clears its aspect ratio, and keeps the rest of it.
  pub put-screen_body :
      (name : Text) (position : ℕ) (s : Screen Number)
      → 1 ≤ s.columns
      → 1 ≤ s.row_height
      → put_screen (screen_body name position s) s
        ≡ record s { name = name; position = position; aspect_ratio = none }
  unfolding put_screen screen_body
  put-screen_body name position s c r = rw (not_zero s.columns c, not_zero s.row_height r) refl

  moved_in_place :
      (before : List (Screen Number)) (a b : Screen Number) (after : List (Screen Number))
      → a.position ≡ b.position
      → (positions (before ++ moved b.position a ∷ moved a.position b ∷ after)
          ≡ positions (before ++ a ∷ b ∷ after))
        × (ids (before ++ moved b.position a ∷ moved a.position b ∷ after)
            ≡ ids (before ++ a ∷ b ∷ after))
  unfolding moved put_screen screen_body
  moved_in_place [] a b after e = (rw e refl, refl)
  moved_in_place (s ∷ before) a b after e =
      let (p, i) = moved_in_place before a b after e in
      (ap (λ r. s.position ∷ r) p, ap (λ r. s.id ∷ r) i)

  -- Where two neighbours stand at one position, moving the first later leaves the order as it is.
  pub move_screen_stuck :
      (before : List (Screen Number)) (a b : Screen Number) (after : List (Screen Number))
      → AreDistinct (ids (before ++ a ∷ b ∷ after))
      → IsOrdered (positions (before ++ a ∷ b ∷ after))
      → a.position ≡ b.position
      → ids (load_screens (move_screen (length before) later (before ++ a ∷ b ∷ after)))
        ≡ ids (load_screens (before ++ a ∷ b ∷ after))
  unfolding load_screens
  move_screen_stuck before a b after d o e =
      let (p, i) = moved_in_place before a b after e in
      let (first, _) = move_at before a b after in
      let still = sort_ordered (λ s. s.position) (before ++ a ∷ b ∷ after) o in
      let again =
        sort_ordered (λ s. s.position) (before ++ moved b.position a ∷ moved a.position b ∷ after)
          (subst IsOrdered (sym p) o) in
      ap (λ r. ids (load_screens r)) (first ∙ put_both before a b after d)
      ∙ ap ids again
      ∙ i
      ∙ sym (ap ids still)
