-- ===== src/Admin/Tests/Forms.antt =====
-- The forms of plugins and accounts at concrete inputs.
use mullet.Base.{ℕ, codes, true, false, none, some, [], ◌∷◌, ◌≡◌, ◌↔◌, refl}
use mullet.Theme.Json.{str, end, field}
use mullet.Admin.Session.{Session, Access}
use mullet.Admin.Shell.{SetupStatus, complete_setup}
use mullet.Admin.Accounts.{
  WizardPage, SetupReply, handle_setup, needs_setup, TextReply, ResetPage, handle_reset,
  handle_forgot, Result,
}
use mullet.Admin.Manifest.{
  FieldOption, FieldType, multi_select, SetupField, PluginManifest, set_field, can_discover,
  no_discovery, ask, discover, listed, failed, settle, settle_all, loading, no_options, input,
  field_view, label_for, remove_chip,
}
use mullet.Admin.Manifest.Laws.{replied, latest, discovery_loads}
use mullet.Admin.Plugins.{
  Instance, synced, success, oauth_notice, AuthorizeReply, handle_authorize, goes, post, is_oauth2,
  submit_instance, authorizes, instance_body, add_values, edit_values, toggle_body,
}

abbrev entity : SetupField
entity = record {
  key = "entity";
  label = codes "Entity";
  type = FieldType.text;
  required = false;
  placeholder = none;
  help_text = none;
  options = none;
  dynamic = true;
}

abbrev lamp : FieldOption
lamp = record { value = codes "light.a"; label = codes "Lamp" }

discovery_loads_example :
    ((field_view true
          (settle_all
            (("entity", listed (lamp ∷ [])) ∷ [])
            (discover true (entity ∷ []) no_discovery))
          entity
        ≡ loading)
      ↔ ((true ≡ true) × (replied "entity" (("entity", listed (lamp ∷ [])) ∷ []) ≡ false)))
    × ((settle_all
            (("entity", listed (lamp ∷ [])) ∷ [])
            (discover true (entity ∷ []) no_discovery)).discovered
          "entity"
        ≡ latest "entity" none (("entity", listed (lamp ∷ [])) ∷ []))
discovery_loads_example =
    discovery_loads (entity ∷ []) (("entity", listed (lamp ∷ [])) ∷ []) entity refl

waits : field_view true (discover true (entity ∷ []) no_discovery) entity ≡ loading
unfolding field_view discover ask no_discovery
waits = refl

shows_none : field_view true (settle "entity" failed no_discovery) entity ≡ no_options
unfolding field_view settle no_discovery
shows_none = refl

shows_options :
    field_view true (settle "entity" (listed (lamp ∷ [])) no_discovery) entity
    ≡ input multi_select (lamp ∷ []) none
unfolding field_view settle no_discovery
shows_options = refl

needs_authorization : can_discover "oauth2" (some 3) none ≡ false
unfolding can_discover
needs_authorization = refl

removes : remove_chip (codes "a") (codes "a" ∷ codes "b" ∷ []) ≡ codes "b" ∷ []
unfolding remove_chip
removes = refl

labels : label_for (lamp ∷ []) (codes "light.a") ≡ codes "Lamp"
unfolding label_for
labels = refl

abbrev manifest : PluginManifest
manifest = record {
  id = "outlook";
  name = codes "Outlook";
  setup_fields = entity ∷ [];
  auth_type = "oauth2";
  recommended_interval_seconds = 300;
  min_interval_seconds = 60;
}

sets_field :
    (set_field {Number = ℕ} "entity" (str (codes "a")) (add_values manifest)).config
    ≡ field "entity" (str (codes "a")) end
unfolding set_field add_values
sets_field = refl

authorizes_new : submit_instance (manifest ∷ []) "outlook" post none ≡ authorizes
unfolding submit_instance is_oauth2
authorizes_new = refl

notices : oauth_notice (some "success") none ≡ (some (success (codes "Plugin authorized.")), true)
unfolding oauth_notice
notices = refl

goes_to_provider :
    handle_authorize (AuthorizeReply.authorize_url (codes "https://a")) ≡ goes (codes "https://a")
unfolding handle_authorize
goes_to_provider = refl

abbrev instance_1 : Instance ℕ
instance_1 = record {
  id = 1;
  plugin_id = "outlook";
  instance_name = codes "Work";
  config = end;
  refresh_seconds = 300;
  enabled = true;
  status = synced;
  last_error = none;
  oauth_authorized = true;
}

switches_off :
    toggle_body instance_1
    ≡ record (instance_body "outlook" (edit_values instance_1)) { enabled = false }
unfolding toggle_body instance_body edit_values
switches_off = refl

abbrev signed_out : Session ℕ
signed_out = record { token = none; username = none; item = none }

abbrev first_run : SetupStatus
first_run = record { required = true; auth_disabled = none }

abbrev wizard : WizardPage
wizard = record {
  username = codes "ann";
  password = codes "secret12";
  confirm_password = codes "secret12";
  error = none;
  submitting = false;
}

sets_up :
    needs_setup
      (handle_setup Access.works (SetupReply.created (codes "t")) first_run wizard signed_out).2
    ≡ false
unfolding handle_setup complete_setup
sets_up = refl

abbrev reset : ResetPage
reset = record {
  new_password = codes "a";
  confirm_password = codes "b";
  error = none;
  submitting = false;
  done = false;
  disable_mfa = false;
}

keeps_reset :
    (handle_reset (codes "t") TextReply.ok reset).1.error ≡ some (codes "Passwords do not match.")
unfolding handle_reset
keeps_reset = refl

sends_link :
    (handle_forgot TextReply.ok
      (record { username = codes "a"; submitting = true; result = none })).result
    ≡ some Result.sent
unfolding handle_forgot
sends_link = refl
