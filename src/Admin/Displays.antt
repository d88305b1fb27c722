-- ===== src/Admin/Displays.antt =====
-- admin/pages/DisplaysPage.tsx: a display, the form that adds or edits it, and what the form sends;
-- with what internal/api/display_handlers.go (`handleUpdateDisplay`) stores of it.
use mullet.Base.{
  ℕ, Text, codes, Bool, true, false, ◌&&◌, not, Option, none, some, List, [], ◌∷◌, find, is_nil,
  or_else, if◌then◌else◌, ◌==◌, ◌||◌,
}
use mullet.Base.Ints.{ℤ, pos, negsuc}
pub mod Laws
pub mod Screens

-- `Number` is the type of the night brightness, a number between 0 and 1.
pub record Display (Number : Type 0) : Type 0 where
  pub id : ℕ
  pub name : Text
  pub slug : Text
  pub theme_id : Option ℕ
  pub rotation_seconds : ℤ
  pub show_top_bar : Bool
  pub show_bottom_bar : Bool
  pub night_mode_enabled : Bool
  pub night_start : Option Text
  pub night_end : Option Text
  pub night_brightness : Number
  pub transitions_enabled : Bool

pub record DisplayFormValues (Number : Type 0) : Type 0 where
  pub name : Text
  pub slug : Text
  pub theme_id : Option ℕ
  pub rotation_seconds : ℤ
  pub show_top_bar : Bool
  pub show_bottom_bar : Bool
  pub night_mode_enabled : Bool
  pub night_start : Text
  pub night_end : Text
  pub night_brightness : Number
  pub transitions_enabled : Bool

-- The body of a POST or PUT of a display.
pub record DisplayBody (Number : Type 0) : Type 0 where
  pub name : Text
  pub slug : Text
  pub theme_id : Option ℕ
  pub rotation_seconds : ℤ
  pub show_top_bar : Bool
  pub show_bottom_bar : Bool
  pub night_mode_enabled : Bool
  pub night_start : Option Text
  pub night_end : Option Text
  pub night_brightness : Number
  pub transitions_enabled : Bool

pub record DisplayTheme : Type 0 where
  pub id : ℕ
  pub name : Text
  pub is_default : Bool

abbrev pub default_start : Text
default_start = codes "22:00"

abbrev pub default_end : Text
default_end = codes "07:00"

abbrev id_of : Option DisplayTheme → Option ℕ
id_of none = none
id_of (some t) = some t.id

abbrev name_of : Text → Option DisplayTheme → Text
name_of d none = d
name_of d (some t) = t.name

-- `enabled && time !== '' ? time : null`
abbrev pub sent_time : Bool → Text → Option Text
sent_time enabled time = if enabled && not (is_nil time) then some time else none

-- `if rotation <= 0 { rotation = 30 }`
abbrev pub rotation_or_default : ℤ → ℤ
rotation_or_default (pos n) = if n == 0 then pos 30 else pos n
rotation_or_default (negsuc n) = pos 30

module _ {Number : Type 0} where
  -- The values of the form that adds a display; `dim` is the number 0.4.
  unfoldable pub add_values : Number → List DisplayTheme → DisplayFormValues Number
  add_values dim themes = record {
    name = [];
    slug = [];
    theme_id = id_of (find (λ t. t.is_default) themes);
    rotation_seconds = pos 30;
    show_top_bar = true;
    show_bottom_bar = true;
    night_mode_enabled = false;
    night_start = default_start;
    night_end = default_end;
    night_brightness = dim;
    transitions_enabled = true;
  }

  unfoldable pub edit_values : Display Number → DisplayFormValues Number
  edit_values d = record {
    name = d.name;
    slug = d.slug;
    theme_id = d.theme_id;
    rotation_seconds = d.rotation_seconds;
    show_top_bar = d.show_top_bar;
    show_bottom_bar = d.show_bottom_bar;
    night_mode_enabled = d.night_mode_enabled;
    night_start = or_else d.night_start default_start;
    night_end = or_else d.night_end default_end;
    night_brightness = d.night_brightness;
    transitions_enabled = d.transitions_enabled;
  }

  unfoldable pub display_body : DisplayFormValues Number → DisplayBody Number
  display_body v = record {
    name = v.name;
    slug = v.slug;
    theme_id = v.theme_id;
    rotation_seconds = v.rotation_seconds;
    show_top_bar = v.show_top_bar;
    show_bottom_bar = v.show_bottom_bar;
    night_mode_enabled = v.night_mode_enabled;
    night_start = sent_time v.night_mode_enabled v.night_start;
    night_end = sent_time v.night_mode_enabled v.night_end;
    night_brightness = v.night_brightness;
    transitions_enabled = v.transitions_enabled;
  }

  -- `handleUpdateDisplay` of a display that is there: none is a 400.
  unfoldable pub put_display : DisplayBody Number → Display Number → Option (Display Number)
  put_display b d =
      if is_nil b.name || is_nil b.slug
      then none
      else some (record d {
        name = b.name;
        slug = b.slug;
        theme_id = b.theme_id;
        rotation_seconds = rotation_or_default b.rotation_seconds;
        show_top_bar = b.show_top_bar;
        show_bottom_bar = b.show_bottom_bar;
        night_mode_enabled = b.night_mode_enabled;
        night_start = b.night_start;
        night_end = b.night_end;
        night_brightness = b.night_brightness;
        transitions_enabled = b.transitions_enabled;
      })

-- `themeName`; `numbered` writes `Theme #` and the id.
unfoldable pub theme_name : (ℕ → Text) → List DisplayTheme → Option ℕ → Text
theme_name numbered themes none = codes "None"
theme_name numbered themes (some id) = name_of (numbered id) (find (λ t. t.id == id) themes)
