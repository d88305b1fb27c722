-- ===== src/Admin/Tests.antt =====
-- The session and the pages around it at concrete inputs.
mod Pages
mod Themes
mod Forms
mod SettingsForms
mod OfflinePage
use mullet.Base.{
  ℕ, Text, String, codes, true, false, none, some, List, [], ◌∷◌, ◌≡◌, ◌≢◌, ◌↔◌, ◌⊎◌, refl,
}
use mullet.Theme.Json.{str, obj, end, field}
use mullet.Admin.Session.{
  Item, parsed, Access, works, full, denied, StoredSession, Session, LoginAnswer, VerifyAnswer,
  LoginResult, SessionEvent, logs_in, verifies, receives, signs_out, reloads, sets_up,
  read_stored_session, write_stored_session, open_session, set_session, logout, login, verify_mfa,
  receive_status, is_authenticated, authorization, session_step, session_run,
}
use mullet.Admin.Session.Laws.{account_step, account_run, Holds, session_run-Holds}
use mullet.Admin.Shell.{
  SetupStatus, SetupAnswer, load_status, complete_setup, ShellPage, sign_in, is_layout, is_disabled,
  is_recovery, admin_shell, admin_shell_iff, unauthorized_signs_in, status_after, IsSetUp, IsOff,
  loading,
}
use mullet.Admin.SignIn.{
  LoginPage, empty_page, submit, settle_login, settle_verify, back, login_view, password_form,
  code_form, handle_submit, handle_verify_mfa, IsTold, handle_submit-IsTold,
}

abbrev stored : Item ℕ
stored = parsed (obj (field "token" (str (codes "t")) (field "username" (str (codes "ann")) end)))

abbrev ann : Session ℕ
ann = record { token = some (codes "t"); username = some (codes "ann"); item = some stored }

abbrev opened : Session ℕ
opened = open_session Access.works (some stored)

opens_stored : opened ≡ ann
unfolding open_session read_stored_session
opens_stored = refl

abbrev events : List SessionEvent
events = receives 401 ∷ logs_in (codes "bob") (LoginAnswer.issued (codes "u")) ∷ reloads ∷ []

session_run-Holds_example :
    Holds
      (account_run events (read_stored_session Access.works (some stored)))
      (session_run Access.works events (open_session Access.works (some stored)))
session_run-Holds_example = session_run-Holds events (some stored)

ends_as_bob : account_run events none ≡ some (record { token = codes "u"; username = codes "bob" })
unfolding account_run account_step
ends_as_bob = refl

-- Where the quota of the storage is exhausted, a session does not survive a reload.
lost_when_full : (session_run Access.full events opened).token ≡ none
unfolding session_run session_step login set_session write_stored_session receive_status logout
    open_session read_stored_session
lost_when_full = refl

sends_bearer : authorization ann ≡ some (codes "Bearer t")
unfolding authorization
sends_bearer = refl

verifies_wrong :
    (verify_mfa Access.works (codes "ann") VerifyAnswer.wrong ann).1
    ≡ LoginResult.error (codes "Invalid code")
unfolding verify_mfa
verifies_wrong = refl

abbrev ready : SetupStatus
ready = record { required = false; auth_disabled = none }

abbrev home : String
home = "/admin/displays"

not_recovery : is_recovery home ≡ false
unfolding is_recovery
not_recovery = refl

abbrev fresh : SetupStatus
fresh = record { required = true; auth_disabled = none }

admin_shell_iff_example :
    ((is_layout (admin_shell home (status_after (some (SetupAnswer.answered fresh)) true) ann)
        ≡ true)
      ↔ ((a : SetupAnswer) × (some (SetupAnswer.answered fresh) ≡ some a)
          × IsSetUp a true
          × ((is_authenticated ann ≡ true) ⊎ IsOff a)))
    × ((admin_shell home (status_after (some (SetupAnswer.answered fresh)) true) ann ≡ loading)
        ↔ (some (SetupAnswer.answered fresh) ≡ none))
admin_shell_iff_example =
    admin_shell_iff home (some (SetupAnswer.answered fresh)) true ann not_recovery

loads_ready : load_status SetupAnswer.failed ≡ some ready
unfolding load_status
loads_ready = refl

completes : complete_setup (record { required = true; auth_disabled = none }) ≡ some ready
unfolding complete_setup
completes = refl

abbrev nobody : Session ℕ
nobody = record { token = none; username = none; item = none }

abbrev answered : LoginPage × Session ℕ
answered = handle_submit Access.works LoginAnswer.refused (empty_page, nobody)

form_shown : login_view empty_page ≡ password_form
unfolding login_view
form_shown = refl

no_session : is_authenticated nobody ≡ false
unfolding is_authenticated
no_session = refl

handle_submit-IsTold_example :
    (answered.0.submitting ≡ false)
    × (IsTold Access.works answered ↔ (
        (LoginAnswer.refused ≢ LoginAnswer.mfa_required none)
        × (LoginAnswer.refused ≢ LoginAnswer.mfa_required (some []))
        × (LoginAnswer.refused ≢ LoginAnswer.unreachable [])))
    × ((login_view answered.0 ≡ code_form)
        ↔ ((t : Text) × (LoginAnswer.refused ≡ LoginAnswer.mfa_required (some t)) × (t ≢ [])))
    × ((is_authenticated answered.1 ≡ true) ↔ (
        (t : Text) × (LoginAnswer.refused ≡ LoginAnswer.issued t)
        × (answered.1.token ≡ some t)
        × (answered.1.username ≡ some empty_page.username)))
handle_submit-IsTold_example =
    handle_submit-IsTold Access.works LoginAnswer.refused empty_page nobody form_shown no_session

abbrev asked : LoginPage × Session ℕ
asked = handle_submit Access.works (LoginAnswer.mfa_required (some (codes "p"))) (empty_page, ann)

asks_code : login_view asked.0 ≡ code_form
unfolding login_view handle_submit login settle_login submit
asks_code = refl

goes_back : login_view (back asked.0) ≡ password_form
unfolding login_view back
goes_back = refl

takes_code :
    (handle_verify_mfa Access.works (VerifyAnswer.issued (codes "v")) asked).1.token
    ≡ some (codes "v")
unfolding handle_verify_mfa handle_submit login settle_login settle_verify submit verify_mfa
    set_session
takes_code = refl
