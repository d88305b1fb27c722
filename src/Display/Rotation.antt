-- ===== src/Display/Rotation.antt =====
-- DisplayApp.tsx: rotation through the screens, the screen that is shown, and the dots by which
-- BottomBar.tsx says which screen is up.
use mullet.Base.{
  ℕ, zero, suc, ◌+◌, ◌-◌, ◌*◌, ◌%◌, ◌≤◌, ◌<◌, min, Bool, false, Option, none, some, List, [], ◌∷◌,
  length, get_elem?, get_elem?_total, ◌≡◌, ◌≢◌, ◌↔◌, refl, ap, ◌∙◌, arith, ltb, leb, ◌==◌,
  if◌then◌else◌, map, any, ◌⊎◌, inr,
}
use mullet.Base.Ints.{ℤ, pos, negsuc, ltb_ℤ, pos_part}
use mullet.Base.Cycles.{next, spin, spin_reaches}
use native.Mathlib.Nat.{mod-lt}
use mullet.Display.{DisplayLayout, ScreenLayout}

module _ {Number : Type 0} where
  -- The interval between two rotations, in milliseconds; `none` is no interval.
  unfoldable pub rotation_ms : DisplayLayout Number → Option ℕ
  rotation_ms layout =
      if leb (length layout.screens) 1
      then none
      else some (
          (if ltb_ℤ (pos 0) layout.rotation_seconds then pos_part layout.rotation_seconds else 30)
          * 1000)

  -- `setActiveScreen((i) => (i + 1) % layout.screens.length)`, at a tick of that interval
  unfoldable pub rotate : DisplayLayout Number → ℕ → ℕ
  rotate layout active =
      if leb (length layout.screens) 1 then active else (active + 1) % length layout.screens

  unfoldable pub rotate_times : DisplayLayout Number → ℕ → ℕ → ℕ
  rotate_times layout zero active = active
  rotate_times layout (suc k) active = rotate_times layout k (rotate layout active)

  -- `layout.screens[Math.min(activeScreen, layout.screens.length - 1)]`. With no screens the index
  -- is -1 and the result undefined, as it is here at index 0.
  unfoldable pub shown_screen : DisplayLayout Number → ℕ → Option (ScreenLayout Number)
  shown_screen layout active = get_elem? layout.screens (min active (length layout.screens - 1))

-- `Array.from({ length: n }, (_, i) => …)`
abbrev pub range_from : ℕ → ℕ → List ℕ
range_from i zero = []
range_from i (suc n) = i ∷ range_from (suc i) n

-- The dots of the bottom bar, `true` where a dot has the accent colour; none for a single screen.
unfoldable pub screen_dots : ℕ → ℕ → List Bool
screen_dots screen_count active =
    if ltb 1 screen_count then map (λ i. i == active) (range_from 0 screen_count) else []

-- The interval is never zero, so the rotation cannot spin.
pub rotation_ms_pos :
    {Number : Type 0} (layout : DisplayLayout Number) (ms : ℕ)
    → rotation_ms layout ≡ some ms
    → (1000 ≤ ms) × (1 < length layout.screens)
unfolding rotation_ms
rotation_ms_pos layout ms h = positive layout.rotation_seconds h
  where
    positive :
        (s : ℤ)
        → (if leb (length layout.screens) 1
            then none
            else some ((if ltb_ℤ (pos 0) s then pos_part s else 30) * 1000))
          ≡ some ms
        → (1000 ≤ ms) × (1 < length layout.screens)
    positive (pos n) e = ground arith
    positive (negsuc n) e = ground arith

module _ {Number : Type 0} (layout : DisplayLayout Number) where
  rotate_times-spin :
      (k active : ℕ)
      → 1 < length layout.screens
      → rotate_times layout k active ≡ spin (length layout.screens) k active
  unfolding rotate_times rotate spin
  rotate_times-spin zero active h = refl
  rotate_times-spin (suc k) active h =
      ap (rotate_times layout k) (ground arith)
      ∙ rotate_times-spin k (next (length layout.screens) active) h

  rotate-lt :
      (active : ℕ) → 1 < length layout.screens → rotate layout active < length layout.screens
  unfolding rotate
  rotate-lt active h = ground (arith, mod-lt (active + 1) {m = length layout.screens})

  shown-get_elem? :
      (active : ℕ)
      → active < length layout.screens
      → shown_screen layout active ≡ get_elem? layout.screens active
  unfolding shown_screen
  shown-get_elem? active h = ap (get_elem? layout.screens) (omega arith)

  -- A kiosk shows a screen exactly if its display has one, wherever the rotation stands: also if
  -- an edit has just shortened the list of screens.
  pub shown_screen_iff :
      (active : ℕ)
      → ((s : ScreenLayout Number) × (shown_screen layout active ≡ some s)) ↔ (layout.screens ≢ [])
  unfolding shown_screen
  shown_screen_iff active = (there layout.screens, here layout.screens)
    where
      there :
          (screens : List (ScreenLayout Number))
          → (s : ScreenLayout Number) × (get_elem? screens (min active (length screens - 1))
              ≡ some s)
          → screens ≢ []
      there [] (s, e) = absurd (cc)
      there (x ∷ xs) (s, e) = λ n. cc

      here :
          (screens : List (ScreenLayout Number))
          → screens ≢ []
          → (s : ScreenLayout Number) × (get_elem? screens (min active (length screens - 1))
              ≡ some s)
      here [] h = absurd (h refl)
      here (x ∷ xs) h = get_elem?_total (x ∷ xs) _ (omega arith)

  -- On a display with more than one screen a kiosk shows a screen wherever the rotation stands, also
  -- beyond a list that an edit has shortened, and within one round each screen is shown.
  pub rotation_shows_all :
      (active j : ℕ)
      → 1 < length layout.screens
      → j < length layout.screens
      → ((s : ScreenLayout Number) × (shown_screen layout active ≡ some s))
        × ((k : ℕ) × (k ≤ length layout.screens)
            × (shown_screen layout (rotate_times layout k active) ≡ get_elem? layout.screens j))
  unfolding rotate_times
  rotation_shows_all active j h b =
      let first = rotate layout active in
      let (k, lt, e) = spin_reaches (length layout.screens) first j (rotate-lt active h) b in
      let at_j = rotate_times-spin k first h ∙ e in
      (
        (shown_screen_iff active).1 (λ n. absurd (omega (arith, ap length n))),
        (suc k, omega arith, ap (shown_screen layout) at_j ∙ shown-get_elem? j b),
      )

lit_none :
    (active i n : ℕ)
    → (active < i) ⊎ (i + n ≤ active)
    → any (λ d. d) (map (λ j. j == active) (range_from i n)) ≡ false
lit_none active i zero h = refl
lit_none active i (suc n) h = ground (arith, lit_none active (suc i) n (omega arith))

lit_one :
    (active i n k : ℕ)
    → k < n
    → get_elem? (map (λ j. j == active) (range_from i n)) k ≡ some (i + k == active)
lit_one active i zero k h = absurd (omega arith)
lit_one active i (suc n) zero h = ap (λ m. some (m == active)) (omega arith)
lit_one active i (suc n) (suc k) h =
    lit_one active (suc i) n k (omega arith) ∙ ap (λ m. some (m == active)) (omega arith)

-- With more than one screen there is a dot for each, and dot `k` is lit exactly if `k` is the
-- rotation's index.
pub screen_dots_lit :
    (n active k : ℕ) → 1 < n → k < n → get_elem? (screen_dots n active) k ≡ some (k == active)
unfolding screen_dots
screen_dots_lit n active k h lt = ground (arith, lit_one active 0 n k lt)

-- Once the rotation's index lies beyond a shortened list of two screens or more, the last screen is
-- shown and no dot is lit: the bar is given the index before the clamp.
pub dots_dark_beyond :
    {Number : Type 0} (layout : DisplayLayout Number) (active : ℕ)
    → 1 < length layout.screens
    → length layout.screens ≤ active
    → (shown_screen layout active ≡ get_elem? layout.screens (length layout.screens - 1))
      × (any (λ d. d) (screen_dots (length layout.screens) active) ≡ false)
unfolding shown_screen screen_dots
dots_dark_beyond layout active h b = (
  ap (get_elem? layout.screens) (omega arith),
  ground (arith, lit_none active 0 (length layout.screens) (inr (omega arith))),
)
