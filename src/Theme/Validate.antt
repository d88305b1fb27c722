-- ===== src/Theme/Validate.antt =====
-- validateTokens.ts: the strict check of an imported theme. An error is a constructor, and
-- `message` is the text that the editor shows.
pub mod Keys
pub mod Laws
pub mod RoundTrip
use mullet.Base.{
  Text, codes, text_eq, is_nil, not, String, Bool, true, false, ◌&&◌, ◌||◌, Option, none, some,
  List, [], ◌∷◌, ◌++◌, if◌then◌else◌, ◌≡◌,
}
use mullet.Theme.Tokens.{ThemeTokens, BackgroundType, CardStyle, default_theme}
use mullet.Theme.Json.{Json, Fields, get, as_object, as_string, as_number, Floats}

pub data ImportError : Type 0 where
  not_object background_missing background_type background_value opacity_range : ImportError
  empty_field : String → ImportError

abbrev pub message : ImportError → Text
message ImportError.not_object = codes "Expected a JSON object with theme token fields."
message ImportError.background_missing = codes "\"background\" is missing or not an object."
message ImportError.background_type =
    codes "\"background.type\" must be one of: solid, gradient, image."
message ImportError.background_value = codes "\"background.value\" must be a non-empty string."
message ImportError.opacity_range = codes "\"opacity\" must be a number between 0 and 1."
message (ImportError.empty_field key) =
    codes "\"" ++ (codes key ++ codes "\" must be a non-empty string.")

pub data Validated {ℓ} (A : Type ℓ) : Type ℓ where
  ok : A → Validated A
  error : ImportError → Validated A

infixl 5 ◌>>=◌
abbrev pub ◌>>=◌ {ℓ κ} : {A : Type ℓ} {B : Type κ} → Validated A → (A → Validated B) → Validated B
ok a >>= f = f a
error e >>= f = error e

abbrev pub or_error {ℓ} : {A : Type ℓ} → Option A → ImportError → Validated A
or_error none e = error e
or_error (some a) e = ok a

abbrev pub background_type_of : Text → Option BackgroundType
background_type_of s =
    if text_eq s (codes "solid")
    then some BackgroundType.solid
    else if text_eq s (codes "gradient")
    then some BackgroundType.gradient
    else if text_eq s (codes "image")
    then some BackgroundType.image
    else none

abbrev pub card_style_of : Text → Option CardStyle
card_style_of s =
    if text_eq s (codes "glass")
    then some CardStyle.glass
    else if text_eq s (codes "solid")
    then some CardStyle.solid
    else none

-- `raw` where it is a string other than `''`
abbrev pub non_empty : Option Text → Option Text
non_empty none = none
non_empty (some []) = none
non_empty (some (c ∷ s)) = some (c ∷ s)

abbrev bind {ℓ κ} : {A : Type ℓ} {B : Type κ} → Option A → (A → Option B) → Option B
bind none f = none
bind (some a) f = f a

abbrev or_default : Option Text → Text → Text
or_default none d = d
or_default (some s) d = s

module _ (floats : Floats) where
  open floats use {Number, zero, one, is_nan, lt}

  -- A field of `STRING_FIELDS`, and one of `BACKFILLED_STRING_FIELDS`.
  unfoldable pub required : Fields Number → String → Validated Text
  required o key = or_error (non_empty (as_string (get key o))) (ImportError.empty_field key)

  unfoldable pub backfilled : Fields Number → String → Text → Text
  backfilled o key d = or_default (non_empty (as_string (get key o))) d

  unfoldable pub card_style_or_default : Fields Number → CardStyle
  card_style_or_default o = elim (bind (as_string (get "cardStyle" o)) card_style_of) [
    | none ↦ CardStyle.glass
    | some s ↦ s
  ]

  unfoldable pub in_range : Number → Bool
  in_range x = not (is_nan x || lt x zero || lt one x)

  unfoldable pub opacity_of : Fields Number → Validated Number
  opacity_of o = elim (as_number (get "opacity" o)) [
    | none ↦ error ImportError.opacity_range
    | some x ↦ if in_range x then ok x else error ImportError.opacity_range
  ]

  unfoldable pub validate_theme_tokens : Json Number → Validated (ThemeTokens Number)
  validate_theme_tokens input = do
    o ← or_error (as_object (some input)) ImportError.not_object
    bg ← or_error (as_object (get "background" o)) ImportError.background_missing
    kind ←
        or_error (bind (as_string (get "type" bg)) background_type_of) ImportError.background_type
    value ← or_error (non_empty (as_string (get "value" bg))) ImportError.background_value
    card_bg ← required o "cardBackground"
    border ← required o "cardBorder"
    text ← required o "textColor"
    accent ← required o "accentColor"
    family ← required o "fontFamily"
    size ← required o "fontSize"
    radius ← required o "borderRadius"
    blurred ← required o "blur"
    opaque ← opacity_of o
    ok (record {
      background = record { type = kind; value = value };
      card_background = card_bg;
      card_border = border;
      card_style = card_style_or_default o;
      text_color = text;
      accent_color = accent;
      success_color = backfilled o "successColor" (default_theme one).success_color;
      warning_color = backfilled o "warningColor" (default_theme one).warning_color;
      error_color = backfilled o "errorColor" (default_theme one).error_color;
      info_color = backfilled o "infoColor" (default_theme one).info_color;
      font_family = family;
      font_size = size;
      heading_font_family =
          backfilled o "headingFontFamily" (default_theme one).heading_font_family;
      font_size_small = backfilled o "fontSizeSmall" (default_theme one).font_size_small;
      font_size_large = backfilled o "fontSizeLarge" (default_theme one).font_size_large;
      border_radius = radius;
      opacity = opaque;
      blur = blurred;
    })
