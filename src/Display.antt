-- ===== src/Display.antt =====
-- web/src/display: the kiosk renderer. This file has the layout as the server sends it
-- (useDisplayLayout.ts); the modules below have the polling, the rotation, the night window, the
-- grid, the image slides and the data polling. `Number` is the type of the program's numbers.
pub mod Layout
pub mod Night
pub mod Rotation
pub mod Grid
pub mod Card
pub mod Slides
pub mod ShapeData
pub mod App
mod Tests
use mullet.Base.{ℕ, Text, String, Bool, Option, List}
use mullet.Base.Ints.{ℤ}
use mullet.Theme.Tokens.{ThemeTokens, PartialTokens}
use mullet.Theme.Json.{Fields}

pub data Halign : Type 0 where
  left center right : Halign

pub data Valign : Type 0 where
  top center bottom : Valign

-- A key that may be absent, or null, is an `Option`.
pub record CardLayout (Number : Type 0) : Type 0 where
  pub id : ℕ
  pub ui_plugin_id : String
  pub data_plugin_instance_id : Option ℕ
  pub data_plugin_instance_ids : Option (List ℕ)
  pub x : ℕ
  pub y : ℕ
  pub w : ℕ
  pub h : ℕ
  pub config : Fields Number
  pub theme_override : Option (PartialTokens Number)
  pub header_text : Option Text
  pub header_halign : Option Halign
  pub content_halign : Option Halign
  pub content_valign : Option Valign

pub record ScreenLayout (Number : Type 0) : Type 0 where
  pub id : ℕ
  pub name : Text
  pub position : ℕ
  pub columns : ℕ
  pub row_height : ℕ
  pub gap : ℕ
  pub cards : List (CardLayout Number)
  pub theme_override : Option (PartialTokens Number)

pub record DisplayLayout (Number : Type 0) : Type 0 where
  pub id : ℕ
  pub name : Text
  pub slug : Text
  pub rotation_seconds : ℤ
  pub show_top_bar : Bool
  pub show_bottom_bar : Bool
  pub theme : ThemeTokens Number
  pub screens : List (ScreenLayout Number)
  pub night_mode_enabled : Bool
  pub night_start : Option Text
  pub night_end : Option Text
  pub night_brightness : Number
  pub transitions_enabled : Bool

-- `RawLayout`: a display whose theme may be partial or absent.
pub record RawLayout (Number : Type 0) : Type 0 where
  pub display : DisplayLayout Number
  pub raw_theme : Option (PartialTokens Number)
