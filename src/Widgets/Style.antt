-- ===== src/Widgets/Style.antt =====
-- plugins/shared/cardStyle.ts: the style of a widget's root element.
use mullet.Base.{Text, codes, Bool, true, false, is_nil, if◌then◌else◌}
use mullet.Theme.Tokens.{ThemeTokens, CardStyle}

pub record CardCss (Number : Type 0) : Type 0 where
  pub border_radius : Text
  pub color : Text
  pub font_family : Text
  pub font_size : Text
  pub card_background : Text
  pub card_border : Text
  pub card_blur : Text
  pub card_opacity : Number
  pub card_shadow : Text
  pub card_highlight : Text
  pub heading_font : Text
  pub font_sm : Text
  pub font_lg : Text
  pub success : Text
  pub warning : Text
  pub error : Text
  pub info : Text

abbrev is_solid : CardStyle → Bool
is_solid CardStyle.solid = true
is_solid CardStyle.glass = false

unfoldable pub card_style : {Number : Type 0} → ThemeTokens Number → CardCss Number
card_style theme = record {
  border_radius = theme.border_radius;
  color = theme.text_color;
  font_family = theme.font_family;
  font_size = theme.font_size;
  card_background = theme.card_background;
  card_border = theme.card_border;
  card_blur = if is_solid theme.card_style then codes "0px" else theme.blur;
  card_opacity = theme.opacity;
  card_shadow =
      if is_solid theme.card_style
      then codes "0 1px 2px rgba(0, 0, 0, 0.12)"
      else codes "0 10px 30px rgba(0, 0, 0, 0.22)";
  card_highlight =
      if is_solid theme.card_style then codes "transparent" else codes "rgba(255, 255, 255, 0.16)";
  heading_font =
      if is_nil theme.heading_font_family then theme.font_family else theme.heading_font_family;
  font_sm = theme.font_size_small;
  font_lg = theme.font_size_large;
  success = theme.success_color;
  warning = theme.warning_color;
  error = theme.error_color;
  info = theme.info_color;
}
