-- ===== src/Designer/Presets.antt =====
-- DesignerPage.tsx: the S, M and L sizes of simple mode, the preset that a placed card has, and the
-- count of cards at their smallest size.
use mullet.Base.{
  ℕ, ◌≤◌, min, String, Bool, true, false, ◌&&◌, Option, none, some, or_else, List, [], ◌∷◌, find,
  filter, length, ◌≡◌, inl, inr, Bool-cases, arith, leb, ◌==◌, if◌then◌else◌, Text,
}
use mullet.Plugins.Contract.{GridSize, UiPlugin}
use mullet.Plugins.Registry.{get_ui_plugin}
use mullet.Plugins.Registry.Laws.{LeSize, get_ui_plugin-HasSizes}
use mullet.Designer.{Card, LayoutMode}

pub data SizePreset : Type 0 where
  small medium large : SizePreset

abbrev pub size_presets : List SizePreset
size_presets = small ∷ medium ∷ large ∷ []

abbrev pub default_card_size : GridSize
default_card_size = record { w = 4; h = 3 }

unfoldable pub clamp_to_grid : GridSize → ℕ → GridSize
clamp_to_grid size cols = record { w = min size.w cols; h = size.h }

-- `screen?.aspect_ratio` is there and not empty.
abbrev has_ratio : Option Text → Bool
has_ratio none = false
has_ratio (some []) = false
has_ratio (some (c ∷ s)) = true

abbrev same_size : GridSize → ℕ → ℕ → Bool
same_size s w h = s.w == w && s.h == h

module _ {Number : Type 0} where
  abbrev raw_size : UiPlugin Number → SizePreset → GridSize
  raw_size plugin small = plugin.min_size
  raw_size plugin medium = plugin.default_size
  raw_size plugin large = or_else plugin.max_size plugin.default_size

  unfoldable pub preset_size : Option (UiPlugin Number) → SizePreset → ℕ → GridSize
  preset_size none preset cols = default_card_size
  preset_size (some plugin) preset cols = clamp_to_grid (raw_size plugin preset) cols

  -- The preset whose button is marked on a card, in simple mode.
  unfoldable pub active_preset :
      LayoutMode → Option (UiPlugin Number) → ℕ → ℕ → ℕ → Option SizePreset
  active_preset LayoutMode.simple plugin cols w h =
      find (λ p. same_size (preset_size plugin p cols) w h) size_presets
  active_preset LayoutMode.freeform plugin cols w h = none

  -- At or below the plugin's smallest size on both axes; never so for an unknown plugin.
  unfoldable pub is_undersized : Option (UiPlugin Number) → ℕ → ℕ → Bool
  is_undersized none w h = false
  is_undersized (some plugin) w h = leb w plugin.min_size.w && leb h plugin.min_size.h

  unfoldable pub undersized_card_count : (ℕ → Number) → Option Text → Bool → List (Card Number) → ℕ
  undersized_card_count number aspect_ratio dismissed cards =
      if has_ratio aspect_ratio
      then if dismissed
        then 0
        else length
            (filter (λ c. is_undersized (get_ui_plugin number c.ui_plugin_id) c.w c.h) cards)
      else 0

-- Sizes that a registered plugin can take on a grid, from small to large.
pub record ArePresets (cols : ℕ) (s m l : GridSize) : Type 0 where
  pub fits : (s.w ≤ cols) × (m.w ≤ cols) × (l.w ≤ cols)
  pub small_medium : LeSize s m
  pub medium_large : LeSize m l

-- For every registered plugin and every grid the three sizes fit the grid's columns and grow from S
-- to M to L in both directions.
pub preset_size-ArePresets :
    {Number : Type 0} (number : ℕ → Number) (id : String) (p : UiPlugin Number) (cols : ℕ)
    → get_ui_plugin number id ≡ some p
    → ArePresets cols
        (preset_size (some p) small cols)
        (preset_size (some p) medium cols)
        (preset_size (some p) large cols)
unfolding preset_size clamp_to_grid
preset_size-ArePresets number id p cols h =
    let sizes = get_ui_plugin-HasSizes number id p h in
    record {
      fits = (omega arith, omega arith, omega arith);
      small_medium = (omega (arith, sizes.small.0), sizes.small.1);
      medium_large = (omega (arith, sizes.large.0), sizes.large.1);
    }

find_preset :
    (t : SizePreset → Bool) (p : SizePreset)
    → t p ≡ true
    → (q : SizePreset) × (find t size_presets ≡ some q) × (t q ≡ true)
find_preset t small h = (small, rw h, h)
find_preset t medium h = elim (Bool-cases (t small)) [
  | inl s ↦ (small, rw s, s)
  | inr s ↦ (medium, rw s (rw h), h)
]
find_preset t large h = elim (Bool-cases (t small)) [
  | inl s ↦ (small, rw s, s)
  | inr s ↦ elim (Bool-cases (t medium)) [
    | inl m ↦ (medium, rw s (rw m), m)
    | inr m ↦ (large, rw s (rw m (rw h)), h)
  ]
]

same_size_refl : (s : GridSize) → same_size s s.w s.h ≡ true
same_size_refl s = ground arith

same_size_sound : (s : GridSize) (w h : ℕ) → same_size s w h ≡ true → (s.w ≡ w) × (s.h ≡ h)
same_size_sound s w h e = ground arith

module _ {Number : Type 0} (plugin : Option (UiPlugin Number)) (cols : ℕ) where
  abbrev size_at : SizePreset → GridSize
  size_at p = preset_size plugin p cols

  -- After a resize to a preset the page marks a preset, and the card has the marked preset's size.
  -- (It may be a smaller one, where the grid clamps two presets to the same size.)
  pub active_preset_after_resize :
      (preset : SizePreset)
      → (q : SizePreset) × (active_preset LayoutMode.simple plugin cols
            (size_at preset).w
            (size_at preset).h
          ≡ some q)
        × ((size_at q).w ≡ (size_at preset).w)
        × ((size_at q).h ≡ (size_at preset).h)
  unfolding active_preset
  active_preset_after_resize preset =
      let (q, found, same) =
        find_preset (λ p. same_size (size_at p) (size_at preset).w (size_at preset).h) preset
          (same_size_refl (size_at preset)) in
      let (w, h) = same_size_sound (size_at q) _ _ same in (q, found, w, h)
