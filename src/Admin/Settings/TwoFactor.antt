-- ===== src/Admin/Settings/TwoFactor.antt =====
-- admin/pages/SettingsPage.tsx: `TwoFactorSection`, a state machine of four steps, with the buttons
-- that each state offers.
pub mod Laws
use mullet.Base.{
  ℕ, Text, codes, Bool, true, false, ◌&&◌, ◌||◌, not, Option, none, some, List, [], ◌∷◌, is_nil,
  is_some, if◌then◌else◌, ◌≡◌, ◌≢◌, ◌↔◌, ◌⊎◌, inl, inr, refl, Bool-cases,
}
use mullet.Admin.Settings.{or_text, no_server}

pub record TotpStatus : Type 0 where
  pub enabled : Bool
  pub backup_codes_remaining : ℕ

pub data Step : Type 0 where
  status enroll disable regenerate : Step

pub record TwoFactor : Type 0 where
  pub totp_status : Option TotpStatus
  pub step : Step
  pub backup_codes : Option (List Text)
  pub secret : Text
  pub auth_url : Text
  pub enroll_loaded : Bool
  pub code : Text
  pub enroll_error : Option Text
  pub enroll_submitting : Bool
  pub password : Text
  pub password_error : Option Text
  pub password_submitting : Bool

abbrev pub first_state : TwoFactor
first_state = record {
  totp_status = none;
  step = status;
  backup_codes = none;
  secret = [];
  auth_url = [];
  enroll_loaded = false;
  code = [];
  enroll_error = none;
  enroll_submitting = false;
  password = [];
  password_error = none;
  password_submitting = false;
}

-- What `POST …/totp/enroll` settles with; an exception is not caught, and leaves the state as it is.
pub data EnrollReply : Type 0 where
  started : Text → Text → EnrollReply
  refused : Text → EnrollReply
  unreachable : EnrollReply

-- What the other requests settle with: the backup codes (none for a DELETE), with the status that the
-- page then loads, or none where that fails.
pub data ConfirmReply : Type 0 where
  accepted : List Text → Option TotpStatus → ConfirmReply
  refused : Text → ConfirmReply
  unreachable : ConfirmReply

-- `startEnroll` before and after its request.
unfoldable pub start_enroll : TwoFactor → TwoFactor
start_enroll t = record t { step = enroll; enroll_loaded = false; enroll_error = none; code = [] }

unfoldable pub settle_enroll : EnrollReply → TwoFactor → TwoFactor
settle_enroll (started secret url) t = record t {
  secret = secret;
  auth_url = url;
  enroll_loaded = true;
}
settle_enroll (refused m) t = record t {
  enroll_error = some (or_text m (codes "Failed to start enrollment."));
  enroll_loaded = true;
}
settle_enroll unreachable t = t

-- `confirmEnroll`
unfoldable pub confirm_enroll : ConfirmReply → TwoFactor → TwoFactor
confirm_enroll (accepted backup_codes (some s)) t = record t {
  backup_codes = some backup_codes;
  totp_status = some s;
  step = status;
  enroll_error = none;
  enroll_submitting = false;
}
confirm_enroll (accepted backup_codes none) t = record t {
  backup_codes = some backup_codes;
  enroll_error = some no_server;
  enroll_submitting = false;
}
confirm_enroll (refused m) t = record t {
  enroll_error = some (or_text m (codes "That code didn’t match."));
  enroll_submitting = false;
}
confirm_enroll unreachable t = record t { enroll_error = some no_server; enroll_submitting = false }

abbrev finish : TwoFactor → TwoFactor
finish t = record t {
  password = [];
  step = status;
  password_error = none;
  password_submitting = false;
}

abbrev fail_password : Text → TwoFactor → TwoFactor
fail_password m t = record t { password_error = some m; password_submitting = false }

settle_disable : ConfirmReply → TwoFactor → TwoFactor
settle_disable (accepted backup_codes (some s)) t = finish (record t { totp_status = some s })
settle_disable (accepted backup_codes none) t = fail_password no_server t
settle_disable (refused m) t = fail_password (or_text m (codes "Failed to disable.")) t
settle_disable unreachable t = fail_password no_server t

settle_regenerate : ConfirmReply → TwoFactor → TwoFactor
settle_regenerate (accepted backup_codes s) t =
    finish (record t { backup_codes = some backup_codes })
settle_regenerate (refused m) t = fail_password (or_text m (codes "Failed to regenerate.")) t
settle_regenerate unreachable t = fail_password no_server t

confirm_at : Step → ConfirmReply → TwoFactor → TwoFactor
unfolding settle_disable settle_regenerate
confirm_at disable reply t = settle_disable reply t
confirm_at regenerate reply t = settle_regenerate reply t
confirm_at status reply t = finish t
confirm_at enroll reply t = finish t

-- `submitPasswordConfirm`
unfoldable pub submit_password_confirm : ConfirmReply → TwoFactor → TwoFactor
unfolding confirm_at
submit_password_confirm reply t = confirm_at t.step reply t

unfoldable pub cancel_step : TwoFactor → TwoFactor
cancel_step t = record t {
  step = status;
  password = [];
  password_error = none;
  enroll_error = none;
}

-- The buttons that the section offers.
pub data Button : Type 0 where
  keep_codes enable to_regenerate to_disable confirm cancel submit : Button

codes_buttons : Option (List Text) → List Button
codes_buttons none = []
codes_buttons (some backup_codes) = keep_codes ∷ []

status_buttons : Option (List Text) → TotpStatus → List Button
status_buttons none s = if s.enabled then to_regenerate ∷ to_disable ∷ [] else enable ∷ []
status_buttons (some backup_codes) s = []

step_buttons : Step → TotpStatus → TwoFactor → List Button
unfolding status_buttons
step_buttons status s t = status_buttons t.backup_codes s
step_buttons enroll s t =
    if t.enroll_loaded && not (is_nil t.secret) then confirm ∷ cancel ∷ [] else []
step_buttons disable s t = submit ∷ cancel ∷ []
step_buttons regenerate s t = submit ∷ cancel ∷ []

abbrev pub joined : List Button → List Button → List Button
joined [] bs = bs
joined (a ∷ as') bs = a ∷ joined as' bs

offered : Option TotpStatus → TwoFactor → List Button
unfolding codes_buttons step_buttons
offered none t = []
offered (some s) t = joined (codes_buttons t.backup_codes) (step_buttons t.step s t)

unfoldable pub buttons : TwoFactor → List Button
unfolding offered
buttons t = offered t.totp_status t
