-- ===== src/Display/Card.antt =====
-- DisplayCard.tsx: what a card renders as. The widget itself is a React component; its body is here
-- the props that it is given.
use mullet.Base.{
  ℕ, Text, String, Bool, true, false, ◌||◌, Option, none, some, or_else, List, [], ◌∷◌, ◌≡◌, ◌↔◌,
  ◌⊎◌, arith, if◌then◌else◌, is_nil,
}
use mullet.Theme.Tokens.{ThemeTokens, resolve}
use mullet.Theme.Json.{Fields}
use mullet.Plugins.Contract.{GridSize}
use mullet.Plugins.Registry.{get_ui_plugin}
use mullet.Display.{Halign, Valign, CardLayout}
use mullet.Display.Grid.{GridArea, grid_style}

-- The flex values that the alignments become.
pub data Flex : Type 0 where
  flex_start flex_center flex_end : Flex

abbrev pub halign_to_justify : Halign → Flex
halign_to_justify Halign.left = flex_start
halign_to_justify Halign.center = flex_center
halign_to_justify Halign.right = flex_end

abbrev pub valign_to_align : Valign → Flex
valign_to_align Valign.top = flex_start
valign_to_align Valign.center = flex_center
valign_to_align Valign.bottom = flex_end

-- `card.content_halign && card.content_halign !== 'center'`, and so for the other axis
abbrev pub off_center_h : Option Halign → Bool
off_center_h none = false
off_center_h (some Halign.center) = false
off_center_h (some h) = true

abbrev pub off_center_v : Option Valign → Bool
off_center_v none = false
off_center_v (some Valign.center) = false
off_center_v (some v) = true

pub record BodyStyle : Type 0 where
  pub justify_content : Flex
  pub align_items : Flex

pub record Header : Type 0 where
  pub text : Text
  pub justify_content : Flex
  pub color : Text
  pub font_family : Text

-- `card.data_plugin_instance_ids` if it has an element, else the single id.
pub data Source : Type 0 where
  no_source : Source
  single : ℕ → Source
  several : List ℕ → Source

pub record WidgetProps (Number : Type 0) : Type 0 where
  pub config : Fields Number
  pub size : GridSize
  pub theme : ThemeTokens Number
  pub plugin_instance_id : Source

pub data CardView (Number : Type 0) : Type 0 where
  unknown : GridArea → Option ℕ → String → CardView Number
  card_view :
      GridArea → Option ℕ → Option Header → Option BodyStyle → WidgetProps Number → CardView Number

-- `enterDelay ? { '--card-enter-delay': … } : {}`
abbrev delay_style : ℕ → Option ℕ
delay_style ℕ.zero = none
delay_style (ℕ.suc n) = some (ℕ.suc n)

abbrev first_source : Option ℕ → Source
first_source none = no_source
first_source (some id) = single id

unfoldable pub source_of : Option (List ℕ) → Option ℕ → Source
source_of (some (id ∷ ids)) one = several (id ∷ ids)
source_of (some []) one = first_source one
source_of none one = first_source one

unfoldable pub body_style : Option Halign → Option Valign → Option BodyStyle
body_style h v =
    if off_center_h h || off_center_v v
    then some (record {
      justify_content = halign_to_justify (or_else h Halign.center);
      align_items = valign_to_align (or_else v Valign.center);
    })
    else none

module _ {Number : Type 0} (number : ℕ → Number) where
  -- `CardHeader`, rendered only for a header text that is not empty
  unfoldable pub card_header : CardLayout Number → ThemeTokens Number → Option Header
  card_header card theme = elim card.header_text [
    | none ↦ none
    | some text ↦
        if is_nil text
        then none
        else some (record {
          text = text;
          justify_content = halign_to_justify (or_else card.header_halign Halign.left);
          color = theme.text_color;
          font_family = theme.heading_font_family;
        })
  ]

  -- The theme of the card's widget and header.
  unfoldable pub card_theme : ThemeTokens Number → CardLayout Number → ThemeTokens Number
  card_theme theme card = resolve theme card.theme_override

  unfoldable pub display_card : CardLayout Number → ThemeTokens Number → ℕ → CardView Number
  display_card card theme enter_delay = elim (get_ui_plugin number card.ui_plugin_id) [
    | none ↦ unknown (grid_style card) (delay_style enter_delay) card.ui_plugin_id
    | some plugin ↦
        card_view (grid_style card) (delay_style enter_delay)
          (card_header card (card_theme theme card))
          (body_style card.content_halign card.content_valign)
          (record {
            config = card.config;
            size = record { w = card.w; h = card.h };
            theme = card_theme theme card;
            plugin_instance_id =
                source_of card.data_plugin_instance_ids card.data_plugin_instance_id;
          })
  ]

-- A card is drawn as before alignment existed exactly if neither axis is set off the centre.
pub body_style-none_iff :
    (h : Option Halign) (v : Option Valign)
    → (body_style h v ≡ none)
      ↔ (((h ≡ none) ⊎ (h ≡ some Halign.center)) × ((v ≡ none) ⊎ (v ≡ some Valign.center)))
unfolding body_style
body_style-none_iff h v = ground arith
