-- ===== src/Designer/Settings.antt =====
-- DesignerPage.tsx: `CardSettingsPanel` and `handleSaveCardSettings`. The form's fields, what it
-- starts with, and what saving it sends.
pub mod Laws
pub mod Again
use mullet.Base.{
  ℕ, Text, trim, String, str_eq, Bool, true, false, ◌||◌, Option, none, some, or_else, is_some,
  List, [], ◌∷◌, filter, if◌then◌else◌,
}
use mullet.Theme.Json.{Json, null, Fields, end, field, get}
use mullet.Theme.Tokens.{PartialTokens, no_tokens}
use mullet.Plugins.Contract.{UiPlugin, ConfigField}
use mullet.Display.{Halign, Valign}
use mullet.Designer.{Card, CardBody, PluginManifest, PluginInstance}

abbrev pub includes : String → List String → Bool
includes s [] = false
includes s (t ∷ ts) = str_eq t s || includes s ts

-- `manifestsById.get(id)`: of two manifests with one id the later one counts.
abbrev pub manifest_of : List PluginManifest → String → Option PluginManifest
manifest_of [] id = none
manifest_of (m ∷ ms) id =
    let later = manifest_of ms id in
    if is_some later then later else if str_eq m.id id then some m else none

abbrev provides : String → Option PluginManifest → Bool
provides shape none = false
provides shape (some m) = includes shape (or_else m.data_shapes [])

-- `existing ?? field.default`, for a value that the card's config may not have
abbrev pub or_default :
    {Number : Type 0} → Option (Json Number) → Option (Json Number) → Option (Json Number)
or_default none d = d
or_default (some null) d = d
or_default (some v) d = some v

-- A key whose value is undefined is left out when the values are sent.
abbrev pub with_key :
    {Number : Type 0} → String → Option (Json Number) → Fields Number → Fields Number
with_key key none fs = fs
with_key key (some v) fs = field key v fs

abbrev pub first_id : List ℕ → Option ℕ
first_id [] = none
first_id (id ∷ ids) = some id

abbrev pub ids_of_one : Option ℕ → List ℕ
ids_of_one none = []
ids_of_one (some id) = id ∷ []

-- `'center'` is sent as null.
abbrev pub off_center_h : Halign → Option Halign
off_center_h Halign.center = none
off_center_h h = some h

abbrev pub off_center_v : Valign → Option Valign
off_center_v Valign.center = none
off_center_v v = some v

-- A blank header is sent as null.
abbrev pub sent_text : Text → Option Text
sent_text [] = none
sent_text (c ∷ text) = some (c ∷ text)

abbrev pub sent_halign : Text → Halign → Option Halign
sent_halign [] h = none
sent_halign (c ∷ text) h = some h

-- The form's fields.
pub record CardForm (Number : Type 0) : Type 0 where
  pub data_plugin_instance_id : Option ℕ
  pub data_plugin_instance_ids : List ℕ
  pub config_values : Fields Number
  pub override_enabled : Bool
  pub theme_override : PartialTokens Number
  pub header_text : Text
  pub header_halign : Halign
  pub content_halign : Halign
  pub content_valign : Valign

module _ {Number : Type 0} where
  unfoldable pub compatible_instances :
      Option (UiPlugin Number) → List PluginInstance → List PluginManifest → List PluginInstance
  compatible_instances none instances manifests = []
  compatible_instances (some p) instances manifests =
      if str_eq p.data_shape ""
      then []
      else filter (λ i. provides p.data_shape (manifest_of manifests i.plugin_id)) instances

  -- `supportsMulti` and `configSchema` of a plugin that the registry may not have
  abbrev pub supports_multi : Option (UiPlugin Number) → Bool
  supports_multi none = false
  supports_multi (some p) = p.supports_multi_data_source

  abbrev pub schema_of : Option (UiPlugin Number) → List (String × ConfigField Number)
  schema_of none = []
  schema_of (some p) = p.config_schema

  abbrev pub initial_config : List (String × ConfigField Number) → Fields Number → Fields Number
  initial_config [] config = end
  initial_config ((key, f) ∷ schema) config =
      with_key key (or_default (get key config) f.default) (initial_config schema config)

  -- The form's first values.
  unfoldable pub open_settings : Option (UiPlugin Number) → Card Number → CardForm Number
  open_settings plugin c = record {
    data_plugin_instance_id = c.data_plugin_instance_id;
    data_plugin_instance_ids =
        or_else c.data_plugin_instance_ids (ids_of_one c.data_plugin_instance_id);
    config_values = initial_config (schema_of plugin) c.config;
    override_enabled = is_some c.theme_override;
    theme_override = or_else c.theme_override no_tokens;
    header_text = or_else c.header_text [];
    header_halign = or_else c.header_halign Halign.left;
    content_halign = or_else c.content_halign Halign.center;
    content_valign = or_else c.content_valign Valign.center;
  }

  -- `handleSubmit` and the body that `handleSaveCardSettings` makes of its values
  unfoldable pub settings_body : Bool → CardForm Number → Card Number → CardBody Number
  settings_body multi f c = record {
    ui_plugin_id = c.ui_plugin_id;
    data_plugin_instance_id =
        if multi then first_id f.data_plugin_instance_ids else f.data_plugin_instance_id;
    data_plugin_instance_ids = if multi then some f.data_plugin_instance_ids else none;
    x = c.x;
    y = c.y;
    w = c.w;
    h = c.h;
    config = f.config_values;
    theme_override = if f.override_enabled then some f.theme_override else none;
    header_text = sent_text (trim f.header_text);
    header_halign = sent_halign (trim f.header_text) f.header_halign;
    content_halign = off_center_h f.content_halign;
    content_valign = off_center_v f.content_valign;
  }
