-- ===== src/Designer/Screens.antt =====
-- DesignerPage.tsx: the requests that change a screen (`handleToggleLayoutMode`,
-- `handleChangeAspectRatio`, `handleGridDraftBlur`, `handleSaveScreenSettings`). Each sends the
-- whole screen, since the server's PUT has no partial update.
use mullet.Base.{
  ℕ, ◌≤◌, max, Text, Bool, true, false, ◌&&◌, Option, none, some, [], ◌∷◌, ◌≡◌, refl, arith, ◌==◌,
  if◌then◌else◌, ==_iff, some_inj, subst,
}
use mullet.Base.Ints.{ℤ, pos, negsuc}
use mullet.Theme.Tokens.{PartialTokens}
use mullet.Designer.{Screen, ScreenBody, LayoutMode}
use mullet.Designer.Server.{put_screen}

pub record GridConfig : Type 0 where
  pub columns : ℕ
  pub row_height : ℕ
  pub gap : ℕ

-- `SIMPLE_GRID` and `FREEFORM_GRID`
abbrev pub simple_grid : GridConfig
simple_grid = record { columns = 4; row_height = 90; gap = 12 }

abbrev pub freeform_grid : GridConfig
freeform_grid = record { columns = 8; row_height = 60; gap = 10 }

abbrev pub other_mode : LayoutMode → LayoutMode
other_mode LayoutMode.simple = LayoutMode.freeform
other_mode LayoutMode.freeform = LayoutMode.simple

abbrev pub grid_of : LayoutMode → GridConfig
grid_of LayoutMode.simple = simple_grid
grid_of LayoutMode.freeform = freeform_grid

-- What a number field of the grid editor holds: `Number(e.target.value)`, where it is whole, or
-- not a number. Values with a fraction are not modelled.
pub data DraftNumber : Type 0 where
  nan : DraftNumber
  whole : ℤ → DraftNumber

pub record GridDraft : Type 0 where
  pub columns : DraftNumber
  pub row_height : DraftNumber
  pub gap : DraftNumber

-- `draft === n` for a stored number
abbrev pub same_number : DraftNumber → ℕ → Bool
same_number nan n = false
same_number (whole (pos d)) n = d == n
same_number (whole (negsuc d)) n = false

-- `Math.max(least, draft || least)`
abbrev pub at_least : ℕ → DraftNumber → ℕ
at_least least nan = least
at_least least (whole (pos d)) = max least (if d == 0 then least else d)
at_least least (whole (negsuc d)) = least

-- `value === '' ? null : value`
abbrev pub chosen_ratio : Text → Option Text
chosen_ratio [] = none
chosen_ratio (c ∷ value) = some (c ∷ value)

usable : (n d : ℕ) → 1 ≤ n → (if n == 0 then d else n) ≡ n
usable n d h = ground arith

at_least_le : (d : DraftNumber) → 1 ≤ at_least 1 d
at_least_le nan = omega arith
at_least_le (whole (pos d)) = ground arith
at_least_le (whole (negsuc d)) = omega arith

module _ {Number : Type 0} where
  -- The screen as the page sends it back, unchanged.
  abbrev pub echo : Screen Number → ScreenBody Number
  echo s = record {
    name = s.name;
    position = s.position;
    layout_mode = s.layout_mode;
    columns = s.columns;
    row_height = s.row_height;
    gap = s.gap;
    theme_override = s.theme_override;
    aspect_ratio = s.aspect_ratio;
  }

  unfoldable pub toggle_layout_mode : Screen Number → ScreenBody Number
  toggle_layout_mode s =
      let mode = other_mode s.layout_mode in
      record (echo s) {
        layout_mode = mode;
        columns = (grid_of mode).columns;
        row_height = (grid_of mode).row_height;
        gap = (grid_of mode).gap;
      }

  unfoldable pub change_aspect_ratio : Text → Screen Number → ScreenBody Number
  change_aspect_ratio value s = record (echo s) { aspect_ratio = chosen_ratio value }

  abbrev pub is_same_grid : GridDraft → Screen Number → Bool
  is_same_grid d s =
      same_number d.columns s.columns
      && same_number d.row_height s.row_height
      && same_number d.gap s.gap

  -- `none` where nothing is sent
  unfoldable pub grid_draft_blur : GridDraft → Screen Number → Option (ScreenBody Number)
  grid_draft_blur d s =
      if is_same_grid d s
      then none
      else some (record (echo s) {
        columns = at_least 1 d.columns;
        row_height = at_least 1 d.row_height;
        gap = at_least 0 d.gap;
      })

  unfoldable pub save_screen_settings :
      Option (PartialTokens Number) → Screen Number → ScreenBody Number
  save_screen_settings override s = record (echo s) { theme_override = override }

  -- The grid of a stored screen that the server did not fill in.
  abbrev pub HasGrid : Screen Number → Type 0
  HasGrid s = (1 ≤ s.columns) × (1 ≤ s.row_height)

  -- The re-sync of the draft whenever the loaded screen's values change.
  unfoldable pub draft_of : Screen Number → GridDraft
  draft_of s = record {
    columns = whole (pos s.columns);
    row_height = whole (pos s.row_height);
    gap = whole (pos s.gap);
  }

  -- The screen that the server stores for a switch.
  abbrev pub toggled : Screen Number → Screen Number
  toggled s = put_screen (toggle_layout_mode s) s

  -- Switching the layout mode twice leaves the mode, but the grid becomes the mode's own, whatever it
  -- was before; name, position, theme override and aspect ratio stay.
  pub toggle_twice :
      (s : Screen Number)
      → toggled (toggled s) ≡ record s {
        columns = (grid_of s.layout_mode).columns;
        row_height = (grid_of s.layout_mode).row_height;
        gap = (grid_of s.layout_mode).gap;
      }
  unfolding toggle_layout_mode put_screen
  toggle_twice s = by_case s.layout_mode refl
    where
      by_case :
          (m : LayoutMode)
          → s.layout_mode ≡ m
          → toggled (toggled s) ≡ record s {
            columns = (grid_of s.layout_mode).columns;
            row_height = (grid_of s.layout_mode).row_height;
            gap = (grid_of s.layout_mode).gap;
          }
      by_case LayoutMode.simple e = rw (e) refl
      by_case LayoutMode.freeform e = rw (e) refl

  -- The aspect ratio and the theme override change nothing else of a screen whose grid is usable.
  pub settings_keep :
      (s : Screen Number) (value : Text) (override : Option (PartialTokens Number))
      → HasGrid s
      → (put_screen (change_aspect_ratio value s) s
          ≡ record s { aspect_ratio = chosen_ratio value })
        × (put_screen (save_screen_settings override s) s ≡ record s { theme_override = override })
  unfolding put_screen change_aspect_ratio save_screen_settings
  settings_keep s value override (c, r) = (
    rw (usable s.columns _ c, usable s.row_height _ r) refl,
    rw (usable s.columns _ c, usable s.row_height _ r) refl,
  )

  -- A screen with the grid that a draft stands for.
  abbrev pub regridded : GridDraft → Screen Number → Screen Number
  regridded d s = record s {
    columns = at_least 1 d.columns;
    row_height = at_least 1 d.row_height;
    gap = at_least 0 d.gap;
  }

  -- What leaving a field of the grid editor sends, the server stores as it is: the grid has at least
  -- one column and a row height of at least one, and nothing else of the screen changes.
  pub grid_draft_blur_stored :
      (d : GridDraft) (s : Screen Number) (b : ScreenBody Number)
      → grid_draft_blur d s ≡ some b
      → (put_screen b s ≡ regridded d s) × HasGrid (put_screen b s)
  unfolding grid_draft_blur put_screen
  grid_draft_blur_stored d s b e = by_case (is_same_grid d s) e
    where
      full : ScreenBody Number
      full = echo (regridded d s)

      by_case :
          (same : Bool)
          → (if same then none else some full) ≡ some b
          → (put_screen b s ≡ regridded d s) × HasGrid (put_screen b s)
      by_case true h = absurd (cc)
      by_case false h =
          subst (λ b. (put_screen b s ≡ regridded d s) × HasGrid (put_screen b s))
            (some_inj full b h)
            (rw (usable (at_least 1 d.columns) _ c, usable (at_least 1 d.row_height) _ r)
              (refl, (c, r)))
        where
          c : 1 ≤ at_least 1 d.columns
          c = at_least_le d.columns

          r : 1 ≤ at_least 1 d.row_height
          r = at_least_le d.row_height

  -- Nothing is sent once the editor shows the stored grid.
  pub grid_draft_blur-draft_of : (s : Screen Number) → grid_draft_blur (draft_of s) s ≡ none
  unfolding grid_draft_blur draft_of
  grid_draft_blur-draft_of s =
      rw
        (
          (==_iff s.columns s.columns).1 refl,
          (==_iff s.row_height s.row_height).1 refl,
          (==_iff s.gap s.gap).1 refl,
        )
        refl
