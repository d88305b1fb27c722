-- ===== src/Admin/Accounts.antt =====
-- admin/pages/SetupWizard.tsx and admin/pages/ResetPasswordPage.tsx: the two forms that set a
-- password.
use mullet.Base.{
  Text, codes, Bool, true, false, Option, none, some, [], ◌∷◌, is_some, text_eq, not, ◌≡◌, refl,
  arith, or_else, if◌then◌else◌, text_eq_iff, ◌↔◌, ◌≢◌,
}
use mullet.Admin.Session.{Access, Session, set_session}
use mullet.Admin.Shell.{SetupStatus, complete_setup}

-- What `POST /api/admin/setup` settles with: a token; not ok, with the `error` of the body where it
-- is JSON with one; or an exception of `fetch`.
pub data SetupReply : Type 0 where
  created : Text → SetupReply
  refused : Option Text → SetupReply
  unreachable : Text → SetupReply

pub record WizardPage : Type 0 where
  pub username : Text
  pub password : Text
  pub confirm_password : Text
  pub error : Option Text
  pub submitting : Bool

abbrev finish : WizardPage → Option Text → WizardPage
finish p e = record p { error = e; submitting = false }

abbrev pub needs_setup : Option SetupStatus → Bool
needs_setup none = false
needs_setup (some status) = status.required

module _ {Number : Type 0} (access : Access) where
  settle_setup :
      SetupReply
      → SetupStatus
      → WizardPage
      → Session Number
      → WizardPage × Session Number × Option SetupStatus
  settle_setup (created token) status p s =
      (finish p none, set_session access token p.username s, complete_setup status)
  settle_setup (refused message) status p s =
      (finish p (some (or_else message (codes "Setup failed"))), s, some status)
  settle_setup (unreachable message) status p s = (finish p (some message), s, some status)

  -- `handleSubmit` of the wizard: the page, the session and the status of the shell after it.
  unfoldable pub handle_setup :
      SetupReply
      → SetupStatus
      → WizardPage
      → Session Number
      → WizardPage × Session Number × Option SetupStatus
  unfolding settle_setup
  handle_setup reply status p s =
      if not (text_eq p.password p.confirm_password)
      then (record p { error = some (codes "Passwords do not match") }, s, some status)
      else settle_setup reply status p s

  -- The wizard ends exactly if the two passwords agree and the server creates the account.
  pub handle_setup_iff :
      (reply : SetupReply) (status : SetupStatus) (p : WizardPage) (s : Session Number)
      → status.required ≡ true
      → (needs_setup (handle_setup reply status p s).2 ≡ false)
        ↔ ((p.password ≡ p.confirm_password) × ((token : Text) × (reply ≡ created token)))
  unfolding handle_setup complete_setup settle_setup
  handle_setup_iff (created token) status p s h =
      let agree = text_eq_iff p.password p.confirm_password in
      (λ e. (ground (arith, agree), (token, refl)), λ e. ground (arith, agree))
  handle_setup_iff (refused message) status p s h = ground arith
  handle_setup_iff (unreachable message) status p s h = ground arith

-- What `POST /api/admin/reset-password` and `POST /api/admin/forgot-password` settle with: ok, not ok
-- with the text of the body, or an exception.
pub data TextReply : Type 0 where
  ok : TextReply
  refused : Text → TextReply
  unreachable : TextReply

-- `message || fallback`
abbrev pub or_text : Text → Text → Text
or_text [] d = d
or_text (c ∷ m) d = c ∷ m

abbrev pub no_server : Text
no_server = codes "Could not reach the server. Please try again."

pub record ResetPage : Type 0 where
  pub new_password : Text
  pub confirm_password : Text
  pub error : Option Text
  pub submitting : Bool
  pub done : Bool
  pub disable_mfa : Bool

settle_reset : TextReply → ResetPage → ResetPage
settle_reset ok p = record p { error = none; submitting = false; done = true }
settle_reset (refused m) p = record p {
  error = some (or_text m (codes "Could not reset your password. The link may have expired."));
  submitting = false;
}
settle_reset unreachable p = record p { error = some no_server; submitting = false }

-- `handleSubmit`, with the address's `token` or the empty text: what is sent, and the page after it.
pub record ResetRequest : Type 0 where
  pub token : Text
  pub new_password : Text
  pub disable_mfa : Bool

unfoldable pub handle_reset : Text → TextReply → ResetPage → Option ResetRequest × ResetPage
unfolding settle_reset
handle_reset [] reply p = (
  none,
  record p {
    error = some (codes "This reset link is missing its token. Please request a new one.");
  },
)
handle_reset (c ∷ token) reply p =
    if not (text_eq p.new_password p.confirm_password)
    then (none, record p { error = some (codes "Passwords do not match.") })
    else (
      some (record {
        token = c ∷ token;
        new_password = p.new_password;
        disable_mfa = p.disable_mfa;
      }),
      settle_reset reply p,
    )

-- The form for a new password sends a request exactly if the link has a token and the two passwords
-- agree; otherwise, and if the server does not accept it, the form stays and shows an error.
pub handle_reset_errors :
    (token : Text) (reply : TextReply) (p : ResetPage)
    → p.done ≡ false
    → ((is_some (handle_reset token reply p).0 ≡ true)
        ↔ ((token ≢ []) × (p.new_password ≡ p.confirm_password)))
      × ((is_some (handle_reset token reply p).1.error ≡ true)
          ↔ ((handle_reset token reply p).1.done ≡ false))
unfolding handle_reset settle_reset
handle_reset_errors [] reply p h = ground arith
handle_reset_errors (c ∷ token) ok p h =
    ground (arith, text_eq_iff p.new_password p.confirm_password)
handle_reset_errors (c ∷ token) (refused m) p h =
    ground (arith, text_eq_iff p.new_password p.confirm_password)
handle_reset_errors (c ∷ token) unreachable p h =
    ground (arith, text_eq_iff p.new_password p.confirm_password)

pub data Result : Type 0 where
  sent : Result
  error : Text → Result

pub record ForgotPage : Type 0 where
  pub username : Text
  pub submitting : Bool
  pub result : Option Result

result_of : TextReply → Result
result_of ok = sent
result_of (refused m) = error (or_text m (codes "Something went wrong. Please try again."))
result_of unreachable = error no_server

unfoldable pub handle_forgot : TextReply → ForgotPage → ForgotPage
unfolding result_of
handle_forgot reply p = record p { submitting = false; result = some (result_of reply) }
