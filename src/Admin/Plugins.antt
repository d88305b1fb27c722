-- ===== src/Admin/Plugins.antt =====
-- admin/pages/PluginsPage.tsx: the instances of plugins, and the requests that add, edit, switch and
-- authorize one. A PUT replaces the fields that its body has (internal/api/plugin_handlers.go).
use mullet.Base.{
  ℕ, String, str_eq, Text, codes, Bool, true, false, ◌&&◌, not, Option, none, some, List, [], ◌∷◌,
  find, if◌then◌else◌,
}
use mullet.Theme.Json.{Fields, end}
use mullet.Admin.Manifest.{PluginManifest, ManifestFormValues}

pub data InstanceStatus : Type 0 where
  synced retrying pending disabled : InstanceStatus

pub record Instance (Number : Type 0) : Type 0 where
  pub id : ℕ
  pub plugin_id : String
  pub instance_name : Text
  pub config : Fields Number
  pub refresh_seconds : ℕ
  pub enabled : Bool
  pub status : InstanceStatus
  pub last_error : Option Text
  pub oauth_authorized : Bool

pub record InstanceBody (Number : Type 0) : Type 0 where
  pub plugin_id : String
  pub instance_name : Text
  pub refresh_seconds : ℕ
  pub enabled : Bool
  pub config : Fields Number

pub data Notice : Type 0 where
  success error : Text → Notice

-- `params.get('message') || fallback`, and an answer's text or a fallback
abbrev pub text_or : Text → Option Text → Text
text_or d none = d
text_or d (some []) = d
text_or d (some (c ∷ t)) = c ∷ t

-- The notice that the address asks for, and whether the address is scrubbed.
unfoldable pub oauth_notice : Option String → Option Text → Option Notice × Bool
oauth_notice none message = (none, false)
oauth_notice (some kind) message =
    if str_eq kind "success"
    then (some (success (codes "Plugin authorized.")), true)
    else if str_eq kind "error"
    then (some (error (text_or (codes "Authorization failed.") message)), true)
    else (none, not (str_eq kind ""))

-- What the request for an address to authorize at settles with: the address, or not ok with a text.
pub data AuthorizeReply : Type 0 where
  authorize_url : Text → AuthorizeReply
  refused : Text → AuthorizeReply

-- `handleAuthorize`: where the browser goes, or the notice.
pub data Authorized : Type 0 where
  goes : Text → Authorized
  says : Notice → Authorized

unfoldable pub handle_authorize : AuthorizeReply → Authorized
handle_authorize (authorize_url url) = goes url
handle_authorize (refused message) =
    says (error (text_or (codes "Could not start authorization") (some message)))

pub data Method : Type 0 where
  post put : Method

abbrev auth_type_of : Option PluginManifest → String
auth_type_of none = ""
auth_type_of (some m) = m.auth_type

unfoldable pub is_oauth2 : List PluginManifest → String → Bool
is_oauth2 manifests id = str_eq (auth_type_of (find (λ m. str_eq m.id id) manifests)) "oauth2"

abbrev is_post : Method → Bool
is_post post = true
is_post put = false

-- What `submitInstance` does after an answer: an error with its text; or the panel closes, and a new
-- instance of an OAuth2 plugin is authorized.
pub data Submitted : Type 0 where
  fails : Text → Submitted
  closes authorizes : Submitted

unfoldable pub submit_instance : List PluginManifest → String → Method → Option Text → Submitted
submit_instance manifests id method (some refusal) =
    fails (text_or (codes "Save failed") (some refusal))
submit_instance manifests id method none =
    if is_post method && is_oauth2 manifests id then authorizes else closes

module _ {Number : Type 0} where
  unfoldable pub instance_body : String → ManifestFormValues Number → InstanceBody Number
  instance_body id v = record {
    plugin_id = id;
    instance_name = v.instance_name;
    refresh_seconds = v.refresh_seconds;
    enabled = v.enabled;
    config = v.config;
  }

  -- The values of the form for a new instance and for one that is there.
  unfoldable pub add_values : PluginManifest → ManifestFormValues Number
  add_values m = record {
    instance_name = [];
    refresh_seconds = m.recommended_interval_seconds;
    enabled = true;
    config = end;
  }

  unfoldable pub edit_values : Instance Number → ManifestFormValues Number
  edit_values i = record {
    instance_name = i.instance_name;
    refresh_seconds = i.refresh_seconds;
    enabled = i.enabled;
    config = i.config;
  }

  -- `handleToggleEnabled`
  unfoldable pub toggle_body : Instance Number → InstanceBody Number
  toggle_body i = record {
    plugin_id = i.plugin_id;
    instance_name = i.instance_name;
    refresh_seconds = i.refresh_seconds;
    enabled = not i.enabled;
    config = i.config;
  }
