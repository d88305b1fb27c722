-- ===== src/Designer/Positions.antt =====
-- DesignerPage.tsx: `persistPositions`, `handleResizeCardPreset` and what their requests do to a
-- card. An item of a layout names its card by id (the page uses `String(card.id)`).
pub mod Idempotent
use mullet.Base.{
  ℕ, Bool, true, false, not, ◌&&◌, ◌||◌, Option, none, some, or_else, List, [], ◌∷◌, map, filter,
  find, any, is_nil, All, ◌≡◌, ◌≢◌, ◌⊎◌, inl, inr, refl, sym, ap, ◌∙◌, arith, ◌==◌, ==_iff,
  if◌then◌else◌, Bool-cases, find-holds,
}
use mullet.Plugins.Contract.{UiPlugin, GridSize}
use mullet.Designer.{Card, CardBody, Screen}
use mullet.Designer.Server.{put_card}
use mullet.Designer.Presets.{SizePreset, preset_size}

pub record LayoutItem : Type 0 where
  pub i : ℕ
  pub x : ℕ
  pub y : ℕ
  pub w : ℕ
  pub h : ℕ

module _ {Number : Type 0} where
  -- The `layout` memo.
  unfoldable pub layout_of : List (Card Number) → List LayoutItem
  layout_of cards = map (λ c. record { i = c.id; x = c.x; y = c.y; w = c.w; h = c.h }) cards

  unfoldable pub card_of : List (Card Number) → LayoutItem → Option (Card Number)
  card_of cards item = find (λ c. c.id == item.i) cards

  abbrev pub at_item : Card Number → LayoutItem → Bool
  at_item c item = c.x == item.x && c.y == item.y && c.w == item.w && c.h == item.h

  -- The test of `changed`: the item's card is known, and stands elsewhere.
  abbrev differs : Option (Card Number) → LayoutItem → Bool
  differs none item = false
  differs (some c) item = not (at_item c item)

  unfoldable pub is_changed : List (Card Number) → LayoutItem → Bool
  is_changed cards item = differs (card_of cards item) item

  abbrev pub place : Card Number → LayoutItem → Card Number
  place c item = record c { x = item.x; y = item.y; w = item.w; h = item.h }

  abbrev place_at : Card Number → Option LayoutItem → Card Number
  place_at c none = c
  place_at c (some item) = place c item

  -- The optimistic update of one card, and of all.
  unfoldable pub moved : List LayoutItem → Card Number → Card Number
  moved layout c = place_at c (find (λ l. l.i == c.id) layout)

  -- The bodies of the two requests that send a card with another position or size.
  unfoldable pub position_body : Card Number → LayoutItem → CardBody Number
  position_body c item = record {
    ui_plugin_id = c.ui_plugin_id;
    data_plugin_instance_id = c.data_plugin_instance_id;
    data_plugin_instance_ids = none;
    x = item.x;
    y = item.y;
    w = item.w;
    h = item.h;
    config = c.config;
    theme_override = c.theme_override;
    header_text = none;
    header_halign = none;
    content_halign = none;
    content_valign = none;
  }

  unfoldable pub resize_body :
      Option (UiPlugin Number) → ℕ → Card Number → SizePreset → CardBody Number
  resize_body plugin cols c preset =
      let size = preset_size plugin preset cols in
      record {
        ui_plugin_id = c.ui_plugin_id;
        data_plugin_instance_id = c.data_plugin_instance_id;
        data_plugin_instance_ids = none;
        x = c.x;
        y = c.y;
        w = size.w;
        h = size.h;
        config = c.config;
        theme_override = c.theme_override;
        header_text = none;
        header_halign = none;
        content_halign = none;
        content_valign = none;
      }

  -- A request: the card's id and the body.
  unfoldable pub requests : List (Card Number) → List LayoutItem → List (ℕ × CardBody Number)
  requests cards [] = []
  requests cards (item ∷ items) = elim (card_of cards item) [
    | none ↦ requests cards items
    | some c ↦ (c.id, position_body c item) ∷ requests cards items
  ]

  -- `none` where nothing is sent; else the cards shown meanwhile, and the requests.
  unfoldable pub persist_positions :
      List (Card Number)
      → List LayoutItem
      → Option (List (Card Number) × List (ℕ × CardBody Number))
  unfolding requests
  persist_positions cards final_layout =
      let changed = filter (is_changed cards) final_layout in
      if is_nil changed then none else some (map (moved final_layout) cards, requests cards changed)

  -- What the server stores for a dragged card: the new place, everything else as it was but the
  -- header and the content alignment, which the body leaves out and the server therefore clears.
  abbrev pub cleared : Card Number → Card Number
  cleared c = record c {
    header_text = none;
    header_halign = none;
    content_halign = none;
    content_valign = none;
  }

  -- Dragging a card, or picking S, M or L for it, stores the new place and size but erases the card's
  -- header and content alignment; plugin, sources, config and theme override stay.
  pub move_clears :
      (c : Card Number) (item : LayoutItem) (plugin : Option (UiPlugin Number)) (cols : ℕ)
      (preset : SizePreset)
      → (put_card (position_body c item) c ≡ place (cleared c) item)
        × (put_card (resize_body plugin cols c preset) c ≡ record (cleared c) {
          w = (preset_size plugin preset cols).w;
          h = (preset_size plugin preset cols).h;
        })
  unfolding put_card position_body resize_body
  move_clears c item plugin cols preset = (refl, refl)
