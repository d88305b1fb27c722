-- ===== src/Admin/Manifest.antt =====
-- admin/components/ManifestForm.tsx: the form that a plugin's manifest describes, the discovery of
-- the options of its dynamic fields, and what is shown for a field.
use mullet.Base.{
  ℕ, String, str_eq, Text, codes, Bool, true, false, ◌&&◌, ◌||◌, not, Option, none, some, List, [],
  ◌∷◌, filter, find, any, is_nil, or_else, text_eq, if◌then◌else◌, ◌==◌,
}
use mullet.Theme.Json.{Json, str, Fields, end, field}
pub mod Laws

pub record FieldOption : Type 0 where
  pub value : Text
  pub label : Text

pub data FieldType : Type 0 where
  text select multi_select toggle password number color : FieldType

pub record SetupField : Type 0 where
  pub key : String
  pub label : Text
  pub type : FieldType
  pub required : Bool
  pub placeholder : Option Text
  pub help_text : Option Text
  pub options : Option (List FieldOption)
  pub dynamic : Bool

pub record PluginManifest : Type 0 where
  pub id : String
  pub name : Text
  pub setup_fields : List SetupField
  pub auth_type : String
  pub recommended_interval_seconds : ℕ
  pub min_interval_seconds : ℕ

pub record ManifestFormValues (Number : Type 0) : Type 0 where
  pub instance_name : Text
  pub refresh_seconds : ℕ
  pub enabled : Bool
  pub config : Fields Number

-- `{ ...config, [key]: value }`
abbrev pub set_key : {Number : Type 0} → String → Json Number → Fields Number → Fields Number
set_key key v end = field key v end
set_key key v (field k w fs) =
    let rest = set_key key v fs in if str_eq k key then field k v fs else field k w rest

-- `setField`
unfoldable pub set_field :
    {Number : Type 0} → String → Json Number → ManifestFormValues Number → ManifestFormValues Number
set_field key v form = record form { config = set_key key v form.config }

-- `Boolean(instanceId && (!requiresAuthorize || oauthAuthorized) && apiFetch)`, where the pages that
-- use the form give an `apiFetch`.
abbrev is_id : Option ℕ → Bool
is_id none = false
is_id (some id) = not (id == 0)

unfoldable pub can_discover : String → Option ℕ → Option Bool → Bool
can_discover auth_type instance_id oauth_authorized =
    is_id instance_id && (not (str_eq auth_type "oauth2") || or_else oauth_authorized false)

-- `discovered` and `discovering`, by the key of a field.
pub record Discovery : Type 0 where
  pub discovered : String → Option (List FieldOption)
  pub discovering : String → Bool

unfoldable pub no_discovery : Discovery
no_discovery = record { discovered = λ key. none; discovering = λ key. false }

abbrev pub set_at {ℓ} : {A : Type ℓ} → String → A → (String → A) → String → A
set_at key a f = λ k. if str_eq k key then a else f k

unfoldable pub ask : String → Discovery → Discovery
ask key d = record d { discovering = set_at key true d.discovering }

-- What a discovery request settles with.
pub data DiscoverReply : Type 0 where
  listed : List FieldOption → DiscoverReply
  failed : DiscoverReply

abbrev pub options_of : DiscoverReply → List FieldOption
options_of (listed options) = options
options_of failed = []

-- `.then` or `.catch`, and then `.finally`
unfoldable pub settle : String → DiscoverReply → Discovery → Discovery
settle key reply d = record {
  discovered = set_at key (some (options_of reply)) d.discovered;
  discovering = set_at key false d.discovering;
}

abbrev pub dynamic_keys : List SetupField → List String
dynamic_keys [] = []
dynamic_keys (f ∷ fields) =
    let rest = dynamic_keys fields in if f.dynamic then f.key ∷ rest else rest

abbrev pub ask_all : List String → Discovery → Discovery
ask_all [] d = d
ask_all (key ∷ keys) d = ask_all keys (ask key d)

-- The effect that starts the discovery of each dynamic field.
unfoldable pub discover : Bool → List SetupField → Discovery → Discovery
discover can fields d = if can then ask_all (dynamic_keys fields) d else d

-- The answers, in the order in which they come.
unfoldable pub settle_all : List (String × DiscoverReply) → Discovery → Discovery
settle_all [] d = d
settle_all ((key, reply) ∷ replies) d = settle_all replies (settle key reply d)

-- What `SetupFieldInput` shows: for a field with discovered options it is given `multi_select`, the
-- options and no help text.
pub data FieldView : Type 0 where
  loading no_options : FieldView
  note : Text → FieldView
  input : FieldType → List FieldOption → Option Text → FieldView

-- `help_text || …`
abbrev note_text : Option Text → Text
note_text none =
    codes
      "Save this instance first (and authorize it, if it needs that), then edit it to choose specific values."
note_text (some []) =
    codes
      "Save this instance first (and authorize it, if it needs that), then edit it to choose specific values."
note_text (some (c ∷ t)) = c ∷ t

discovered_input : List FieldOption → FieldView
discovered_input [] = no_options
discovered_input (o ∷ options) = input multi_select (o ∷ options) none

-- `help_text && <span>…`
abbrev shown_help : Option Text → Option Text
shown_help none = none
shown_help (some []) = none
shown_help (some (c ∷ t)) = some (c ∷ t)

unfoldable pub field_view : Bool → Discovery → SetupField → FieldView
unfolding discovered_input
field_view can d f =
    if f.dynamic
    then if d.discovering f.key
      then loading
      else if not can
      then note (note_text f.help_text)
      else discovered_input (or_else (d.discovered f.key) [])
    else input f.type (or_else f.options []) (shown_help f.help_text)

-- `labelFor`
abbrev label_or : Text → Option FieldOption → Text
label_or v none = v
label_or v (some o) = o.label

unfoldable pub label_for : List FieldOption → Text → Text
label_for options v = label_or v (find (λ o. text_eq o.value v) options)

-- The removal of a chip.
unfoldable pub remove_chip : Text → List Text → List Text
remove_chip v selected = filter (λ s. not (text_eq s v)) selected
