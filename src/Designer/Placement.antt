-- ===== src/Designer/Placement.antt =====
-- DesignerPage.tsx: where a double click on a palette item, and a drop, place a new card.
use mullet.Base.{
  ℕ, ◌+◌, ◌≤◌, max, String, Option, none, some, List, [], ◌∷◌, All, All-map, ◌≡◌, ◌⊎◌, inr, arith,
}
use mullet.Plugins.Contract.{GridSize, UiPlugin}
use mullet.Plugins.Registry.{get_ui_plugin}
use mullet.Designer.{Card, Screen, LayoutMode}
use mullet.Designer.Presets.{SizePreset, preset_size, default_card_size}

-- The place in a `POST` of a card: its plugin, position and size.
pub record NewCard : Type 0 where
  pub ui_plugin_id : String
  pub x : ℕ
  pub y : ℕ
  pub w : ℕ
  pub h : ℕ

module _ {Number : Type 0} where
  -- `cards.reduce((max, c) => Math.max(max, c.y + c.h), 0)`
  unfoldable pub bottom_from : ℕ → List (Card Number) → ℕ
  bottom_from top [] = top
  bottom_from top (c ∷ cards) = bottom_from (max top (c.y + c.h)) cards

  unfoldable pub size_for : LayoutMode → Option (UiPlugin Number) → ℕ → GridSize
  size_for LayoutMode.simple plugin cols = preset_size plugin SizePreset.medium cols
  size_for LayoutMode.freeform plugin cols = default_card_size

  -- `handlePaletteDoubleClick`, up to the request of `createCard`
  unfoldable pub palette_double_click :
      (ℕ → Number) → Option (Screen Number) → List (Card Number) → String → Option NewCard
  unfolding bottom_from size_for
  palette_double_click number none cards id = none
  palette_double_click number (some screen) cards id =
      let size = size_for screen.layout_mode (get_ui_plugin number id) screen.columns in
      some (record { ui_plugin_id = id; x = 0; y = bottom_from 0 cards; w = size.w; h = size.h })

  -- `onDragOver`: the size of the placeholder, where the page does not leave it to the grid.
  unfoldable pub drag_size : (ℕ → Number) → Screen Number → Option String → Option GridSize
  drag_size number screen none = none
  drag_size number screen (some id) = elim screen.layout_mode [
    | LayoutMode.simple ↦
        some (preset_size (get_ui_plugin number id) SizePreset.medium screen.columns)
    | LayoutMode.freeform ↦ none
  ]

  -- Two rectangles of the grid are apart: one ends before the other begins, on one of the axes.
  abbrev pub IsApart : NewCard → Card Number → Type 0
  IsApart n c = ((n.x + n.w ≤ c.x) ⊎ (c.x + c.w ≤ n.x)) ⊎ ((n.y + n.h ≤ c.y) ⊎ (c.y + c.h ≤ n.y))

  bottom_from-ge : (top : ℕ) (cards : List (Card Number)) → top ≤ bottom_from top cards
  unfolding bottom_from
  bottom_from-ge top [] = omega arith
  bottom_from-ge top (c ∷ cards) = omega (arith, bottom_from-ge (max top (c.y + c.h)) cards)

  bottom_from-All :
      (top : ℕ) (cards : List (Card Number)) → All (λ c. c.y + c.h ≤ bottom_from top cards) cards
  unfolding bottom_from
  bottom_from-All top [] = tt
  bottom_from-All top (c ∷ cards) = (
    omega (arith, bottom_from-ge (max top (c.y + c.h)) cards),
    bottom_from-All (max top (c.y + c.h)) cards,
  )

  bottom_from-least :
      (top n : ℕ) (cards : List (Card Number))
      → top ≤ n
      → All (λ c. c.y + c.h ≤ n) cards
      → bottom_from top cards ≤ n
  unfolding bottom_from
  bottom_from-least top n [] h _ = h
  bottom_from-least top n (c ∷ cards) h (p, ps) =
      bottom_from-least (max top (c.y + c.h)) n cards (omega arith) ps

  -- A double click places the new card at the left edge, apart from every card of the screen, and no
  -- lower than any row `n` below all cards.
  pub palette_double_click-IsApart :
      (number : ℕ → Number) (screen : Screen Number) (cards : List (Card Number)) (id : String)
      (new : NewCard) (n : ℕ)
      → palette_double_click number (some screen) cards id ≡ some new
      → All (λ c. c.y + c.h ≤ n) cards
      → (new.x ≡ 0) × All (IsApart new) cards × (new.y ≤ n)
  unfolding palette_double_click
  palette_double_click-IsApart number screen cards id new n e h =
      let at_bottom : new.y ≡ bottom_from 0 cards = ground arith in
      (
        ground arith,
        All-map (λ c h. inr (inr (omega arith))) cards (bottom_from-All 0 cards),
        omega (arith, bottom_from-least 0 n cards (omega arith) h),
      )
