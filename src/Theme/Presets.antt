-- ===== src/Theme/Presets.antt =====
-- shared/themes/presets.ts: the bundled themes; `one` is the number 1.
use mullet.Base.{Text, String, codes, true, List, [], ◌∷◌, All, ◌≡◌, refl}
use mullet.Theme.Tokens.{ThemeTokens, BackgroundType, CardStyle, default_theme}
use mullet.Theme.Json.{obj, Floats}
use mullet.Theme.Validate.{
  ok, in_range, required, backfilled, opacity_of, card_style_or_default, validate_theme_tokens,
}
use mullet.Theme.Validate.RoundTrip.{exported}

pub record ThemePreset (Number : Type 0) : Type 0 where
  pub name : Text
  pub tokens : ThemeTokens Number

module _ {Number : Type 0} (one : Number) where
  abbrev solid_dark : ThemeTokens Number
  solid_dark = record {
    background = record {
      type = BackgroundType.gradient;
      value = codes "linear-gradient(160deg, #14181f 0%, #1c2230 100%)";
    };
    card_background = codes "#1f2530";
    card_border = codes "#2c3341";
    card_style = CardStyle.solid;
    text_color = codes "#e6e9ee";
    accent_color = codes "#4f9dff";
    success_color = codes "#2ecc71";
    warning_color = codes "#f1c40f";
    error_color = codes "#e74c3c";
    info_color = codes "#4f9dff";
    font_family = codes "system-ui, sans-serif";
    font_size = codes "16px";
    heading_font_family = codes "system-ui, sans-serif";
    font_size_small = codes "13px";
    font_size_large = codes "28px";
    border_radius = codes "12px";
    opacity = one;
    blur = codes "0px";
  }

  abbrev glass_light : ThemeTokens Number
  glass_light = record {
    background = record {
      type = BackgroundType.gradient;
      value = codes "linear-gradient(160deg, #f4f1ea 0%, #e8eef7 100%)";
    };
    card_background = codes "rgba(255, 255, 255, 0.55)";
    card_border = codes "rgba(0, 0, 0, 0.08)";
    card_style = CardStyle.glass;
    text_color = codes "#2a2320";
    accent_color = codes "#2f6fd6";
    success_color = codes "#3d9a6f";
    warning_color = codes "#c08a2e";
    error_color = codes "#b5493c";
    info_color = codes "#2f6fd6";
    font_family = codes "system-ui, sans-serif";
    font_size = codes "16px";
    heading_font_family = codes "system-ui, sans-serif";
    font_size_small = codes "13px";
    font_size_large = codes "28px";
    border_radius = codes "12px";
    opacity = one;
    blur = codes "16px";
  }

  abbrev solid_light : ThemeTokens Number
  solid_light = record {
    background = record {
      type = BackgroundType.gradient;
      value = codes "linear-gradient(160deg, #f4f1ea 0%, #ece6da 100%)";
    };
    card_background = codes "#ffffff";
    card_border = codes "#e2ddd2";
    card_style = CardStyle.solid;
    text_color = codes "#2a2320";
    accent_color = codes "#2f6fd6";
    success_color = codes "#3d9a6f";
    warning_color = codes "#c08a2e";
    error_color = codes "#b5493c";
    info_color = codes "#2f6fd6";
    font_family = codes "system-ui, sans-serif";
    font_size = codes "16px";
    heading_font_family = codes "system-ui, sans-serif";
    font_size_small = codes "13px";
    font_size_large = codes "28px";
    border_radius = codes "12px";
    opacity = one;
    blur = codes "0px";
  }

  abbrev mullet_brand : ThemeTokens Number
  mullet_brand = record {
    background = record {
      type = BackgroundType.gradient;
      value = codes "linear-gradient(160deg, #011D4C 0%, #050b1a 100%)";
    };
    card_background = codes "rgba(255, 255, 255, 0.07)";
    card_border = codes "rgba(1, 190, 252, 0.25)";
    card_style = CardStyle.glass;
    text_color = codes "#eef6ff";
    accent_color = codes "#01BEFC";
    success_color = codes "#2ecc71";
    warning_color = codes "#f1c40f";
    error_color = codes "#FB4460";
    info_color = codes "#01BEFC";
    font_family = codes "system-ui, sans-serif";
    font_size = codes "16px";
    heading_font_family = codes "system-ui, sans-serif";
    font_size_small = codes "13px";
    font_size_large = codes "28px";
    border_radius = codes "14px";
    opacity = one;
    blur = codes "20px";
  }

  abbrev preset : String → ThemeTokens Number → ThemePreset Number
  preset name tokens = record { name = codes name; tokens = tokens }

  abbrev pub theme_presets : List (ThemePreset Number)
  theme_presets =
      preset "Dark Glass" (default_theme one)
      ∷ preset "Solid Dark" solid_dark
      ∷ preset "Glass Light" glass_light
      ∷ preset "Solid Light" solid_light
      ∷ preset "Mullet Brand" mullet_brand
      ∷ []

-- Each bundled theme can be exported and imported again without a change, if the number 1 is in the
-- range of an opacity.
pub theme_presets_import :
    (floats : Floats)
    → in_range floats floats.one ≡ true
    → All
        (λ p. validate_theme_tokens floats (obj (exported floats p.tokens)) ≡ ok p.tokens)
        (theme_presets floats.one)
unfolding validate_theme_tokens exported required backfilled opacity_of card_style_or_default
theme_presets_import floats h = (rw h refl, (rw h refl, (rw h refl, (rw h refl, (rw h refl, tt)))))
