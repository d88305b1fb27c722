-- ===== src/Admin/ThemeEditor.antt =====
-- admin/pages/ThemeEditorPage.tsx and admin/components/ThemeTokenFields.tsx: which fields of a theme
-- the editor shows, the changes of the background, and loading, saving and importing a theme.
use mullet.Base.{
  ℕ, Text, codes, Bool, true, false, not, ◌&&◌, Option, none, some, List, [], ◌∷◌, ◌++◌, filter,
  any, is_nil, or_else, trim, join, text_eq, take, map, ◌==◌, if◌then◌else◌,
}
use mullet.Theme.Tokens.{
  ThemeTokens, PartialTokens, Background, BackgroundType, default_theme, resolve,
}
use mullet.Theme.Json.{Json, Floats}
use mullet.Theme.Validate.{Validated, ok, error, validate_theme_tokens, message}
use mullet.Theme.Presets.{ThemePreset}
pub mod Laws

pub data TokenKey : Type 0 where
  background card_background card_border card_style text_color accent_color success_color : TokenKey
  warning_color error_color info_color font_family heading_font_family font_size : TokenKey
  font_size_small font_size_large border_radius opacity blur : TokenKey

-- `ALL_FIELDS`
unfoldable pub all_fields : List TokenKey
all_fields =
    background ∷ card_background ∷ card_border ∷ card_style ∷ text_color ∷ accent_color
    ∷ success_color ∷ warning_color ∷ error_color ∷ info_color ∷ font_family ∷ heading_font_family
    ∷ font_size ∷ font_size_small ∷ font_size_large ∷ border_radius ∷ opacity ∷ blur ∷ []

unfoldable pub primary_fields : List TokenKey
primary_fields =
    background ∷ card_background ∷ card_border ∷ card_style ∷ text_color ∷ accent_color
    ∷ border_radius ∷ opacity ∷ blur ∷ []

unfoldable pub secondary_fields : List TokenKey
secondary_fields =
    success_color ∷ warning_color ∷ error_color ∷ info_color ∷ font_family ∷ heading_font_family
    ∷ font_size ∷ font_size_small ∷ font_size_large ∷ []

-- The text of the images after an upload: the one before, if the background is an image, and the
-- URLs, each on a line, without blank ones.
abbrev existing_images : Option Background → Text
existing_images none = []
existing_images (some b) = elim b.type [ BackgroundType.image ↦ b.value | _ ↦ [] ]

abbrev pub is_blank : Text → Bool
is_blank v = is_nil (trim v)

unfoldable pub images_with : Text → List Text → Text
images_with existing urls = join 10 (filter (λ v. not (is_blank v)) (existing ∷ urls))

unfoldable pub add_images : Option Background → List Text → Background
add_images b urls = record {
  type = BackgroundType.image;
  value = images_with (existing_images b) urls;
}

abbrev prefix : Text
prefix = codes "linear-gradient("

abbrev or_color : Text → Text
or_color [] = codes "#0b0f14"
or_color (c ∷ t) = c ∷ t

abbrev is_gradient : BackgroundType → Bool
is_gradient BackgroundType.gradient = true
is_gradient BackgroundType.solid = false
is_gradient BackgroundType.image = false

abbrev value_of : Option Background → Text
value_of none = []
value_of (some b) = b.value

-- The background once another type is chosen for it.
unfoldable pub change_type : BackgroundType → Option Background → Background
change_type type b =
    let current = value_of b in
    record {
      type = type;
      value =
          if is_gradient type && not (text_eq (take 16 current) prefix)
          then codes "linear-gradient(160deg, " ++ (or_color current ++ codes " 0%, #1b2740 100%)")
          else current;
    }

pub record Editor (Number : Type 0) : Type 0 where
  pub name : Text
  pub is_default : Bool
  pub tokens : ThemeTokens Number
  pub loading : Bool
  pub error : Option Text
  pub submitting : Bool
  -- Whether the page went back to the list of themes.
  pub left : Bool

pub record StoredTheme (Number : Type 0) : Type 0 where
  pub name : Text
  pub tokens : Option (PartialTokens Number)
  pub is_default : Bool

-- What a save settles with: ok, not ok with the text of the answer, or an exception.
pub data SaveReply : Type 0 where
  accepted : SaveReply
  refused unreachable : Text → SaveReply

abbrev or_failed : Text → Text
or_failed [] = codes "Save failed"
or_failed (c ∷ t) = c ∷ t

module _ (floats : Floats) where
  open floats use {Number, one}

  -- The editor as it opens: a new theme, or one that is loaded.
  unfoldable pub open_editor : Bool → Editor Number
  open_editor is_new = record {
    name = [];
    is_default = false;
    tokens = default_theme one;
    loading = not is_new;
    error = none;
    submitting = false;
    left = false;
  }

  unfoldable pub load_theme : StoredTheme Number → Editor Number → Editor Number
  load_theme t e = record e {
    name = t.name;
    is_default = t.is_default;
    tokens = resolve (default_theme one) t.tokens;
    loading = false;
  }

  unfoldable pub pick_preset : ThemePreset Number → Editor Number → Editor Number
  pick_preset p e = record e { tokens = p.tokens; name = p.name }

  -- `{ name, tokens, is_default: isDefault }`
  unfoldable pub sent_theme : Editor Number → StoredTheme Number
  sent_theme e = record {
    name = e.name;
    tokens = some (record {
      background = some e.tokens.background;
      card_background = some e.tokens.card_background;
      card_border = some e.tokens.card_border;
      card_style = some e.tokens.card_style;
      text_color = some e.tokens.text_color;
      accent_color = some e.tokens.accent_color;
      success_color = some e.tokens.success_color;
      warning_color = some e.tokens.warning_color;
      error_color = some e.tokens.error_color;
      info_color = some e.tokens.info_color;
      font_family = some e.tokens.font_family;
      font_size = some e.tokens.font_size;
      heading_font_family = some e.tokens.heading_font_family;
      font_size_small = some e.tokens.font_size_small;
      font_size_large = some e.tokens.font_size_large;
      border_radius = some e.tokens.border_radius;
      opacity = some e.tokens.opacity;
      blur = some e.tokens.blur;
    });
    is_default = e.is_default;
  }

  settle_save : SaveReply → Editor Number → Editor Number
  settle_save accepted e = record e { left = true; error = none; submitting = false }
  settle_save (refused m) e = record e { error = some (or_failed m); submitting = false }
  settle_save (unreachable m) e = record e { error = some m; submitting = false }

  -- `handleSubmit`: what is sent, and the page once the request has settled.
  unfoldable pub save_theme :
      SaveReply → Editor Number → Option (StoredTheme Number) × Editor Number
  unfolding settle_save
  save_theme reply e =
      if is_blank e.name
      then (none, record e { error = some (codes "Name is required") })
      else (some (sent_theme e), settle_save reply e)

  -- `applyText` of the import, on what `JSON.parse` makes of the text: the error to show, or the
  -- tokens to take.
  imported : Validated (ThemeTokens Number) → Editor Number → Option Text × Editor Number
  imported (ok tokens) e = (none, record e { tokens = tokens })
  imported (error m) e = (some (message m), e)

  unfoldable pub apply_text : Option (Json Number) → Editor Number → Option Text × Editor Number
  unfolding imported
  apply_text none e = (some (codes "Not valid JSON."), e)
  apply_text (some v) e = imported (validate_theme_tokens floats v) e
