-- ===== src/Admin/Tests/SettingsForms.antt =====
-- The forms of the settings page at concrete inputs.
use mullet.Base.{
  ℕ, Text, codes, true, false, not, is_nil, none, some, Option, List, [], ◌∷◌, ◌≡◌, ◌⊎◌, any, refl,
}
use mullet.Admin.Settings.{
  active_tab, select_tab, ok, refused, saved, begin_save, settle_save, settle_status, PasswordForm,
  change_password, UsersForm, handle_add, handle_remove, NotificationPreferences, client_approved,
  set_preference, preference, handle_toggle,
}
use mullet.Admin.Settings.TwoFactor.{
  TwoFactor, TotpStatus, first_state, Step, EnrollReply, ConfirmReply, accepted, start_enroll,
  settle_enroll, confirm_enroll, submit_password_confirm, cancel_step, enable, confirm, cancel,
  keep_codes, buttons,
}
use mullet.Admin.Settings.Secrets.{
  saved_secret, store_secret, PutReply, lost, open_smtp, save_smtp, smtp_body, put_smtp, SmtpConfig,
}
use mullet.Admin.Settings.Webhooks.{
  WebhookConfig, WebhookSave, open_webhook, webhook_saves, save_webhook, put_webhook,
  store_signing_secret, is_lost, webhook_secret_known,
}

falls_back : active_tab (some "billing") ≡ "general"
unfolding active_tab
falls_back = refl

selects : select_tab "users" ≡ some "users"
unfolding select_tab
selects = refl

saves :
    (settle_save
      (codes "Failed to save.")
      (refused [])
      (begin_save (record { status = saved; error = none }))).error
    ≡ some (codes "Failed to save.")
unfolding settle_save begin_save
saves = refl

tells_status : settle_status ok ≡ saved
unfolding settle_status
tells_status = refl

abbrev passwords : PasswordForm
passwords = record {
  current_password = codes "a";
  new_password = codes "b";
  confirm_password = codes "c";
  status = saved;
  error = none;
}

keeps_passwords : (change_password ok passwords).0 ≡ false
unfolding change_password
keeps_passwords = refl

abbrev users : UsersForm
users = record {
  users = none;
  username = codes "bob";
  password = codes "b";
  status = saved;
  error = none;
}

adds_user : (handle_add ok (some []) users).users ≡ some []
unfolding handle_add
adds_user = refl

keeps_user : (handle_remove (refused (codes "no")) none users).error ≡ some (codes "no")
unfolding handle_remove
keeps_user = refl

abbrev prefs : NotificationPreferences
prefs = record {
  new_user = false;
  password_reset_requested = false;
  password_reset_completed = false;
  client_registered = false;
  client_approved = false;
}

toggles :
    preference client_approved (handle_toggle client_approved true (refused []) prefs prefs).0
    ≡ true
unfolding preference handle_toggle set_preference
toggles = refl

abbrev off : TotpStatus
off = record { enabled = false; backup_codes_remaining = 0 }

abbrev section : TwoFactor
section = record first_state { totp_status = some off }

enrolls :
    buttons (settle_enroll (EnrollReply.started (codes "s") (codes "u")) (start_enroll section))
    ≡ confirm ∷ cancel ∷ []
unfolding buttons settle_enroll start_enroll
enrolls = refl

refuses : buttons (settle_enroll (EnrollReply.refused []) (start_enroll section)) ≡ []
unfolding buttons settle_enroll start_enroll
refuses = refl

confirms :
    buttons (confirm_enroll (accepted (codes "c" ∷ []) (some off)) (start_enroll section))
    ≡ keep_codes ∷ []
unfolding buttons confirm_enroll start_enroll
confirms = refl

cancels :
    buttons (
      cancel_step
        (submit_password_confirm ConfirmReply.unreachable (record section { step = Step.disable })))
    ≡ enable ∷ []
unfolding buttons cancel_step submit_password_confirm
cancels = refl

abbrev hook : WebhookConfig
hook = record { url = codes "https://a"; secret = []; payload_template = [] }

abbrev hook_saves : List WebhookSave
hook_saves =
    record {
      url = codes "https://b";
      typed = codes "s";
      payload_template = [];
      reply = PutReply.ok;
    }
    ∷ record { url = codes "https://b"; typed = []; payload_template = []; reply = PutReply.ok }
    ∷ []

webhook_secret_known_example :
    ((webhook_saves hook_saves (open_webhook hook, hook)).0.secret.has_secret
      ≡ not (is_nil (webhook_saves hook_saves (open_webhook hook, hook)).1.secret))
    ⊎ ((any (λ e. is_lost e.reply) hook_saves ≡ true)
        × ((webhook_saves hook_saves (open_webhook hook, hook)).0.secret.has_secret ≡ false)
        × (is_nil (webhook_saves hook_saves (open_webhook hook, hook)).1.secret ≡ false))
webhook_secret_known_example = webhook_secret_known hook_saves hook

-- An exception after the server has stored the secret: the page goes on saying that none is set.
abbrev hook_lost : List WebhookSave
hook_lost =
    record { url = codes "https://b"; typed = codes "s"; payload_template = []; reply = lost true }
    ∷ []

says_none : (webhook_saves hook_lost (open_webhook hook, hook)).0.secret.has_secret ≡ false
unfolding webhook_saves open_webhook save_webhook
says_none = refl

has_one : (webhook_saves hook_lost (open_webhook hook, hook)).1.secret ≡ codes "s"
unfolding webhook_saves open_webhook save_webhook put_webhook store_signing_secret
has_one = refl

keeps_secret : (webhook_saves hook_saves (open_webhook hook, hook)).1.secret ≡ codes "s"
unfolding webhook_saves open_webhook save_webhook put_webhook store_signing_secret saved_secret
keeps_secret = refl

abbrev mail : SmtpConfig ℕ
mail = record {
  host = codes "h";
  port = 25;
  username = codes "u";
  password = codes "p";
  from_address = codes "f";
  tls_mode = codes "tls";
}

abbrev number_of : Text → ℕ
number_of t = 25

abbrev text_of : ℕ → Option Text
text_of n = some (codes "25")

mail_kept :
    (save_smtp number_of text_of PutReply.ok (open_smtp number_of text_of mail) mail).1 ≡ mail
unfolding save_smtp open_smtp smtp_body put_smtp store_secret
mail_kept = refl
