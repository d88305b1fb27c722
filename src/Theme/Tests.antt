-- ===== src/Theme/Tests.antt =====
-- Runs of the theme's functions at concrete inputs.
use mullet.Base.{ℕ, false, ltb, codes, Text, some, List, [], ◌∷◌, ◌≡◌, ◌↔◌, refl, split, trim}
use mullet.Theme.Tokens.{ThemeTokens, PartialTokens, default_theme, no_tokens}
use mullet.Theme.Tokens.Overrides.{TokenKey, card_override_fields, screen_override_fields}
use mullet.Theme.Tokens.Panels.{Within}
use mullet.Theme.Backgrounds.{parse_background_images}
use mullet.Theme.Fonts.{
  initial_fonts, google_font_of, href, ensure_font_loaded, request, font_options,
}
use mullet.Theme.Json.{num, obj, end, field, Floats}
use mullet.Theme.Validate.{ok, error, ImportError, in_range, validate_theme_tokens}
use mullet.Theme.Validate.Laws.{IsImported, validate_iff}
use mullet.Theme.Validate.RoundTrip.{exported, IsComplete, validate-exported}

-- Whole numbers stand for the opacity.
abbrev wholes : Floats
wholes = record { Number = ℕ; zero = 0; one = 1; is_nan = λ x. false; lt = ltb }

abbrev base : ThemeTokens ℕ
base = default_theme 1

base-IsComplete : IsComplete wholes base
unfolding in_range
base-IsComplete = record {
  value = λ e. cc;
  card_background = λ e. cc;
  card_border = λ e. cc;
  text_color = λ e. cc;
  accent_color = λ e. cc;
  success = λ e. cc;
  warning = λ e. cc;
  errors = λ e. cc;
  info = λ e. cc;
  font_family = λ e. cc;
  font_size = λ e. cc;
  heading = λ e. cc;
  small = λ e. cc;
  large = λ e. cc;
  border_radius = λ e. cc;
  blur = λ e. cc;
  opacity = refl;
}

validate-exported_example : validate_theme_tokens wholes (obj (exported wholes base)) ≡ ok base
validate-exported_example = validate-exported wholes base base-IsComplete

validate_iff_example :
    (validate_theme_tokens wholes (obj (exported wholes base)) ≡ ok base)
    ↔ IsImported wholes (exported wholes base) base
validate_iff_example = validate_iff wholes (exported wholes base) base

refuses_no_background :
    validate_theme_tokens wholes (obj (field "opacity" (num 1) end))
    ≡ error ImportError.background_missing
unfolding validate_theme_tokens
refuses_no_background = refl

abbrev two_lines : Text
two_lines = codes " a.jpg \n\n b.jpg"

abbrev two_urls : List Text
two_urls = codes "a.jpg" ∷ codes "b.jpg" ∷ []

parses_two : parse_background_images two_lines ≡ two_urls
unfolding parse_background_images split trim
parses_two = refl

abbrev inter : Text
inter = codes "'Inter', sans-serif"

fetches_inter :
    (ensure_font_loaded initial_fonts inter).links ≡ href (codes "Inter:wght@400;600;700") ∷ []
unfolding ensure_font_loaded request href initial_fonts google_font_of font_options
fetches_inter = refl

abbrev fonts_only : PartialTokens ℕ
fonts_only = record (no_tokens {Number = ℕ}) { font_family = some inter }

abbrev accent_only : PartialTokens ℕ
accent_only = record (no_tokens {Number = ℕ}) { accent_color = some (codes "#fff") }

fonts_only-Within : Within screen_override_fields fonts_only
fonts_only-Within TokenKey.font_family h = absurd (cc)
fonts_only-Within TokenKey.background h = refl
fonts_only-Within TokenKey.card_background h = refl
fonts_only-Within TokenKey.card_border h = refl
fonts_only-Within TokenKey.card_style h = refl
fonts_only-Within TokenKey.text_color h = refl
fonts_only-Within TokenKey.accent_color h = refl
fonts_only-Within TokenKey.success_color h = refl
fonts_only-Within TokenKey.warning_color h = refl
fonts_only-Within TokenKey.error_color h = refl
fonts_only-Within TokenKey.info_color h = refl
fonts_only-Within TokenKey.font_size h = refl
fonts_only-Within TokenKey.heading_font_family h = refl
fonts_only-Within TokenKey.font_size_small h = refl
fonts_only-Within TokenKey.font_size_large h = refl
fonts_only-Within TokenKey.border_radius h = refl
fonts_only-Within TokenKey.opacity h = refl
fonts_only-Within TokenKey.blur h = refl

accent_only-Within : Within card_override_fields accent_only
accent_only-Within TokenKey.accent_color h = absurd (cc)
accent_only-Within TokenKey.background h = refl
accent_only-Within TokenKey.card_background h = refl
accent_only-Within TokenKey.card_border h = refl
accent_only-Within TokenKey.card_style h = refl
accent_only-Within TokenKey.text_color h = refl
accent_only-Within TokenKey.font_family h = refl
accent_only-Within TokenKey.success_color h = refl
accent_only-Within TokenKey.warning_color h = refl
accent_only-Within TokenKey.error_color h = refl
accent_only-Within TokenKey.info_color h = refl
accent_only-Within TokenKey.font_size h = refl
accent_only-Within TokenKey.heading_font_family h = refl
accent_only-Within TokenKey.font_size_small h = refl
accent_only-Within TokenKey.font_size_large h = refl
accent_only-Within TokenKey.border_radius h = refl
accent_only-Within TokenKey.opacity h = refl
accent_only-Within TokenKey.blur h = refl
