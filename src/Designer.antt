-- ===== src/Designer.antt =====
-- web/src/admin/pages/DesignerPage.tsx: the screen designer. This file has the data that the page
-- loads and the bodies that it sends; the modules below have the size presets, the placement of
-- cards, the save status, the screen settings and the card settings.
pub mod Presets
pub mod Positions
pub mod Server
pub mod Placement
pub mod SaveStatus
pub mod Screens
pub mod Settings
pub mod Saves
pub mod Discovery
mod Tests
use mullet.Base.{ℕ, Text, String, Option, List}
use mullet.Theme.Tokens.{PartialTokens}
use mullet.Theme.Json.{Fields}
use mullet.Display.{Halign, Valign}

pub data LayoutMode : Type 0 where
  simple freeform : LayoutMode

pub record Screen (Number : Type 0) : Type 0 where
  pub id : ℕ
  pub display_id : ℕ
  pub name : Text
  pub position : ℕ
  pub columns : ℕ
  pub row_height : ℕ
  pub gap : ℕ
  pub layout_mode : LayoutMode
  pub theme_override : Option (PartialTokens Number)
  pub aspect_ratio : Option Text

pub record Card (Number : Type 0) : Type 0 where
  pub id : ℕ
  pub screen_id : ℕ
  pub ui_plugin_id : String
  pub data_plugin_instance_id : Option ℕ
  pub data_plugin_instance_ids : Option (List ℕ)
  pub x : ℕ
  pub y : ℕ
  pub w : ℕ
  pub h : ℕ
  pub config : Fields Number
  pub theme_override : Option (PartialTokens Number)
  pub header_text : Option Text
  pub header_halign : Option Halign
  pub content_halign : Option Halign
  pub content_valign : Option Valign

pub record PluginManifest : Type 0 where
  pub id : String
  pub name : Text
  pub data_shapes : Option (List String)

pub record PluginInstance : Type 0 where
  pub id : ℕ
  pub plugin_id : String
  pub instance_name : Text

-- The body of a `PUT /api/admin/cards/{id}`. A key that the page leaves out, or sends as null, is
-- `none`: the server decodes both to a nil pointer.
pub record CardBody (Number : Type 0) : Type 0 where
  pub ui_plugin_id : String
  pub data_plugin_instance_id : Option ℕ
  pub data_plugin_instance_ids : Option (List ℕ)
  pub x : ℕ
  pub y : ℕ
  pub w : ℕ
  pub h : ℕ
  pub config : Fields Number
  pub theme_override : Option (PartialTokens Number)
  pub header_text : Option Text
  pub header_halign : Option Halign
  pub content_halign : Option Halign
  pub content_valign : Option Valign

-- The body of a `PUT /api/admin/screens/{id}`.
pub record ScreenBody (Number : Type 0) : Type 0 where
  pub name : Text
  pub position : ℕ
  pub layout_mode : LayoutMode
  pub columns : ℕ
  pub row_height : ℕ
  pub gap : ℕ
  pub theme_override : Option (PartialTokens Number)
  pub aspect_ratio : Option Text
