-- ===== src/Admin/Settings.antt =====
-- admin/pages/SettingsPage.tsx: the tabs, the forms that save a part of the settings, and the
-- switches of the notifications.
use mullet.Base.{
  ℕ, String, str_eq, Text, codes, Bool, true, false, not, Option, none, some, List, [], ◌∷◌, is_nil,
  any, text_eq, if◌then◌else◌,
}
pub mod TwoFactor
pub mod Secrets
pub mod Webhooks

abbrev tabs : List String
tabs = "general" ∷ "account" ∷ "users" ∷ "notifications" ∷ []

named_tab : Option String → String
named_tab none = "general"
named_tab (some tab) = if any (λ t. str_eq t tab) tabs then tab else "general"

-- `activeTab`, for the parameter `tab` of the address.
unfoldable pub active_tab : Option String → String
unfolding named_tab
active_tab requested = named_tab requested

-- `selectTab`: the parameter that the address gets.
unfoldable pub select_tab : String → Option String
select_tab tab = if str_eq tab "general" then none else some tab

pub data SaveStatus : Type 0 where
  idle saving saved error : SaveStatus

-- What a request that saves settles with: ok, not ok with the text of the answer, or an exception.
pub data Reply : Type 0 where
  ok unreachable : Reply
  refused : Text → Reply

-- `(await res.text()) || fallback`
abbrev pub or_text : Text → Text → Text
or_text [] d = d
or_text (c ∷ m) d = c ∷ m

abbrev pub no_server : Text
no_server = codes "Could not reach the server."

-- A form with a status and an error, as `SettingsPage` and the webhook section have it.
pub record SaveForm : Type 0 where
  pub status : SaveStatus
  pub error : Option Text

unfoldable pub begin_save : SaveForm → SaveForm
begin_save f = record { status = saving; error = none }

-- `SettingsPage.handleSubmit` after its request.
unfoldable pub settle_save : Text → Reply → SaveForm → SaveForm
settle_save fallback ok f = record f { status = saved }
settle_save fallback (refused m) f = record { status = error; error = some (or_text m fallback) }
settle_save fallback unreachable f = record { status = error; error = some no_server }

-- `AccountSection.handleSubmit` and `handleToggle`, which keep no text of the error.
unfoldable pub settle_status : Reply → SaveStatus
settle_status ok = saved
settle_status (refused m) = error
settle_status unreachable = error

pub record PasswordForm : Type 0 where
  pub current_password : Text
  pub new_password : Text
  pub confirm_password : Text
  pub status : SaveStatus
  pub error : Option Text

settle_password : Reply → PasswordForm → PasswordForm
settle_password ok p = record {
  current_password = [];
  new_password = [];
  confirm_password = [];
  status = saved;
  error = none;
}
settle_password (refused m) p = record p {
  status = error;
  error = some (or_text m (codes "Failed to change password."));
}
settle_password unreachable p = record p { status = error; error = some no_server }

-- `PasswordChangeForm.handleSubmit`: whether a request is sent, and the form after it.
unfoldable pub change_password : Reply → PasswordForm → Bool × PasswordForm
unfolding settle_password
change_password reply p =
    if not (text_eq p.new_password p.confirm_password)
    then (false, record p { status = error; error = some (codes "New passwords do not match.") })
    else (true, settle_password reply p)

pub record AdminUser : Type 0 where
  pub id : ℕ
  pub username : Text
  pub email : Option Text

pub record UsersForm : Type 0 where
  pub users : Option (List AdminUser)
  pub username : Text
  pub password : Text
  pub status : SaveStatus
  pub error : Option Text

-- The list that `loadUsers` gets after a change, or an exception.
abbrev reload : Option (List AdminUser) → UsersForm → UsersForm
reload none f = record f { status = error; error = some no_server }
reload (some users) f = record f { users = some users }

-- `handleAdd`
unfoldable pub handle_add : Reply → Option (List AdminUser) → UsersForm → UsersForm
handle_add ok users f =
    reload users (record f { username = []; password = []; status = saved; error = none })
handle_add (refused m) users f = record f {
  status = error;
  error = some (or_text m (codes "Failed to add account."));
}
handle_add unreachable users f = record f { status = error; error = some no_server }

-- `handleRemove`, which leaves the status as it is.
abbrev reload_only : Option (List AdminUser) → UsersForm → UsersForm
reload_only none f = record f { error = some no_server }
reload_only (some users) f = record f { users = some users; error = none }

unfoldable pub handle_remove : Reply → Option (List AdminUser) → UsersForm → UsersForm
handle_remove ok users f = reload_only users f
handle_remove (refused m) users f = record f {
  error = some (or_text m (codes "Failed to remove account."));
}
handle_remove unreachable users f = record f { error = some no_server }

pub record NotificationPreferences : Type 0 where
  pub new_user : Bool
  pub password_reset_requested : Bool
  pub password_reset_completed : Bool
  pub client_registered : Bool
  pub client_approved : Bool

pub data NotificationEvent : Type 0 where
  new_user password_reset_requested password_reset_completed client_registered client_approved :
      NotificationEvent

-- `NOTIFICATION_EVENTS`, without the labels.
unfoldable pub notification_events : List NotificationEvent
notification_events =
    new_user ∷ password_reset_requested ∷ password_reset_completed ∷ client_registered
    ∷ client_approved ∷ []

-- `{ ...prefs, [key]: value }` and `prefs[key]`
unfoldable pub set_preference :
    NotificationEvent → Bool → NotificationPreferences → NotificationPreferences
set_preference new_user v p = record p { new_user = v }
set_preference password_reset_requested v p = record p { password_reset_requested = v }
set_preference password_reset_completed v p = record p { password_reset_completed = v }
set_preference client_registered v p = record p { client_registered = v }
set_preference client_approved v p = record p { client_approved = v }

unfoldable pub preference : NotificationEvent → NotificationPreferences → Bool
preference new_user p = p.new_user
preference password_reset_requested p = p.password_reset_requested
preference password_reset_completed p = p.password_reset_completed
preference client_registered p = p.client_registered
preference client_approved p = p.client_approved

-- `handleToggle` once its request has settled: what the page shows, and what the server has stored,
-- which is the whole body if it accepts it.
unfoldable pub handle_toggle :
    NotificationEvent
    → Bool
    → Reply
    → NotificationPreferences
    → NotificationPreferences
    → NotificationPreferences × NotificationPreferences × SaveStatus
handle_toggle key v ok prefs stored =
    (set_preference key v prefs, set_preference key v prefs, saved)
handle_toggle key v (refused m) prefs stored = (set_preference key v prefs, stored, error)
handle_toggle key v unreachable prefs stored = (set_preference key v prefs, stored, error)
