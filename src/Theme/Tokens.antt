-- ===== src/Theme/Tokens.antt =====
-- tokens.ts: `ThemeTokens` and its default, and the merge `{ ...theme, ...override }` by which
-- ScreenGrid, DisplayCard and the Designer apply a `Partial<ThemeTokens>`. A key that is absent from
-- the partial object is `none`. `Number` is the type of the program's numbers.
pub mod Overrides
pub mod Panels
use mullet.Base.{
  Text, codes, Option, none, some, or_else, Bool, true, false, text_eq, if◌then◌else◌,
}

pub data BackgroundType : Type 0 where
  solid gradient image : BackgroundType

pub record Background : Type 0 where
  pub type : BackgroundType
  pub value : Text

pub data CardStyle : Type 0 where
  glass solid : CardStyle

pub record ThemeTokens (Number : Type 0) : Type 0 where
  pub background : Background
  pub card_background : Text
  pub card_border : Text
  pub card_style : CardStyle
  pub text_color : Text
  pub accent_color : Text
  pub success_color : Text
  pub warning_color : Text
  pub error_color : Text
  pub info_color : Text
  pub font_family : Text
  pub font_size : Text
  pub heading_font_family : Text
  pub font_size_small : Text
  pub font_size_large : Text
  pub border_radius : Text
  pub opacity : Number
  pub blur : Text

pub record PartialTokens (Number : Type 0) : Type 0 where
  pub background : Option Background
  pub card_background : Option Text
  pub card_border : Option Text
  pub card_style : Option CardStyle
  pub text_color : Option Text
  pub accent_color : Option Text
  pub success_color : Option Text
  pub warning_color : Option Text
  pub error_color : Option Text
  pub info_color : Option Text
  pub font_family : Option Text
  pub font_size : Option Text
  pub heading_font_family : Option Text
  pub font_size_small : Option Text
  pub font_size_large : Option Text
  pub border_radius : Option Text
  pub opacity : Option Number
  pub blur : Option Text

abbrev pub default_theme : {Number : Type 0} → Number → ThemeTokens Number
default_theme one = record {
  background = record {
    type = BackgroundType.gradient;
    value = codes "linear-gradient(160deg, #0b0f14 0%, #131a2b 60%, #1b2740 100%)";
  };
  card_background = codes "rgba(255, 255, 255, 0.06)";
  card_border = codes "rgba(255, 255, 255, 0.12)";
  card_style = CardStyle.glass;
  text_color = codes "#e6e9ee";
  accent_color = codes "#4f9dff";
  success_color = codes "#2ecc71";
  warning_color = codes "#f1c40f";
  error_color = codes "#e74c3c";
  info_color = codes "#4f9dff";
  font_family = codes "system-ui, sans-serif";
  font_size = codes "16px";
  heading_font_family = codes "system-ui, sans-serif";
  font_size_small = codes "13px";
  font_size_large = codes "28px";
  border_radius = codes "12px";
  opacity = one;
  blur = codes "16px";
}

-- `b ?? a` for keys: the later object wins where it has the key.
abbrev pub later {ℓ} : {A : Type ℓ} → Option A → Option A → Option A
later a none = a
later a (some v) = some v

module _ {Number : Type 0} where
  -- `{ ...theme, ...override }`
  unfoldable pub merge : ThemeTokens Number → PartialTokens Number → ThemeTokens Number
  merge t o = record {
    background = or_else o.background t.background;
    card_background = or_else o.card_background t.card_background;
    card_border = or_else o.card_border t.card_border;
    card_style = or_else o.card_style t.card_style;
    text_color = or_else o.text_color t.text_color;
    accent_color = or_else o.accent_color t.accent_color;
    success_color = or_else o.success_color t.success_color;
    warning_color = or_else o.warning_color t.warning_color;
    error_color = or_else o.error_color t.error_color;
    info_color = or_else o.info_color t.info_color;
    font_family = or_else o.font_family t.font_family;
    font_size = or_else o.font_size t.font_size;
    heading_font_family = or_else o.heading_font_family t.heading_font_family;
    font_size_small = or_else o.font_size_small t.font_size_small;
    font_size_large = or_else o.font_size_large t.font_size_large;
    border_radius = or_else o.border_radius t.border_radius;
    opacity = or_else o.opacity t.opacity;
    blur = or_else o.blur t.blur;
  }

  -- `{ ...prev, ...next }` on two partial objects
  unfoldable pub merge_partial : PartialTokens Number → PartialTokens Number → PartialTokens Number
  merge_partial a b = record {
    background = later a.background b.background;
    card_background = later a.card_background b.card_background;
    card_border = later a.card_border b.card_border;
    card_style = later a.card_style b.card_style;
    text_color = later a.text_color b.text_color;
    accent_color = later a.accent_color b.accent_color;
    success_color = later a.success_color b.success_color;
    warning_color = later a.warning_color b.warning_color;
    error_color = later a.error_color b.error_color;
    info_color = later a.info_color b.info_color;
    font_family = later a.font_family b.font_family;
    font_size = later a.font_size b.font_size;
    heading_font_family = later a.heading_font_family b.heading_font_family;
    font_size_small = later a.font_size_small b.font_size_small;
    font_size_large = later a.font_size_large b.font_size_large;
    border_radius = later a.border_radius b.border_radius;
    opacity = later a.opacity b.opacity;
    blur = later a.blur b.blur;
  }

  -- `{}`
  abbrev pub no_tokens : PartialTokens Number
  no_tokens = record {
    background = none;
    card_background = none;
    card_border = none;
    card_style = none;
    text_color = none;
    accent_color = none;
    success_color = none;
    warning_color = none;
    error_color = none;
    info_color = none;
    font_family = none;
    font_size = none;
    heading_font_family = none;
    font_size_small = none;
    font_size_large = none;
    border_radius = none;
    opacity = none;
    blur = none;
  }

  -- `{ ...theme, ...(o ?? {}) }`
  abbrev pub resolve : ThemeTokens Number → Option (PartialTokens Number) → ThemeTokens Number
  resolve t o = merge t (or_else o no_tokens)
