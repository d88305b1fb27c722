-- ===== src/Admin/SignIn.antt =====
-- admin/pages/LoginPage.tsx: the form that asks for a name and password, and then for a code.
use mullet.Base.{
  Text, Bool, true, false, Option, none, some, [], ◌∷◌, ◌≡◌, ◌≢◌, ◌↔◌, ◌⊎◌, refl, arith,
}
use mullet.Admin.Session.{
  Access, Session, LoginAnswer, VerifyAnswer, LoginResult, login, verify_mfa, set_session,
  is_authenticated,
}

pub record LoginPage : Type 0 where
  pub username : Text
  pub password : Text
  pub error : Option Text
  pub submitting : Bool
  pub pending_token : Option Text
  pub code : Text

abbrev pub empty_page : LoginPage
empty_page = record {
  username = [];
  password = [];
  error = none;
  submitting = false;
  pending_token = none;
  code = [];
}

-- The start of `handleSubmit` and `handleVerifyMFA`.
unfoldable pub submit : LoginPage → LoginPage
submit p = record p { error = none; submitting = true }

unfoldable pub settle_login : LoginPage → LoginResult → LoginPage
settle_login p LoginResult.signed_in = record p { submitting = false }
settle_login p (LoginResult.needs_code none) = record p { submitting = false }
settle_login p (LoginResult.needs_code (some [])) = record p { submitting = false }
settle_login p (LoginResult.needs_code (some (c ∷ t))) = record p {
  submitting = false;
  pending_token = some (c ∷ t);
}
settle_login p (LoginResult.error m) = record p { submitting = false; error = some m }

unfoldable pub settle_verify : LoginPage → LoginResult → LoginPage
settle_verify p LoginResult.signed_in = record p { submitting = false }
settle_verify p (LoginResult.needs_code t) = record p { submitting = false }
settle_verify p (LoginResult.error m) = record p { submitting = false; error = some m }

-- "Back to sign in"
unfoldable pub back : LoginPage → LoginPage
back p = record p { pending_token = none; code = []; error = none }

-- The two forms: `if (pendingToken)`.
pub data LoginView : Type 0 where
  password_form code_form : LoginView

abbrev view_of : Option Text → LoginView
view_of none = password_form
view_of (some []) = password_form
view_of (some (c ∷ t)) = code_form

-- `{error && …}`
abbrev pub shown_error : Option Text → Option Text
shown_error none = none
shown_error (some []) = none
shown_error (some (c ∷ m)) = some (c ∷ m)

unfoldable pub login_view : LoginPage → LoginView
login_view p = view_of p.pending_token

module _ {Number : Type 0} (access : Access) where
  -- `handleSubmit`, from the click to the answer.
  unfoldable pub handle_submit :
      LoginAnswer → LoginPage × Session Number → LoginPage × Session Number
  handle_submit a (p, s) =
      let (s', r) = login access p.username a s in (settle_login (submit p) r, s')

  verify_when : Option Text → VerifyAnswer → LoginPage × Session Number → LoginPage × Session Number
  verify_when none a (p, s) = (p, s)
  verify_when (some []) a (p, s) = (p, s)
  verify_when (some (c ∷ t)) a (p, s) =
      let (s', r) = verify_mfa access p.username a s in (settle_verify (submit p) r, s')

  unfoldable pub handle_verify_mfa :
      VerifyAnswer → LoginPage × Session Number → LoginPage × Session Number
  unfolding verify_when
  handle_verify_mfa a (p, s) = verify_when p.pending_token a (p, s)

  -- Something on the page says how it went: an error, the form for a code, or, once the tab has a
  -- session, the admin pages.
  abbrev pub IsTold : LoginPage × Session Number → Type 0
  IsTold (p, s) =
      (shown_error p.error ≢ none) ⊎ (login_view p ≡ code_form) ⊎ (is_authenticated s ≡ true)

  -- An answer to a password that is given on the form for it, with no session: afterwards the form can
  -- be used again, and the user is told how it went unless the answer asks for a code without a token
  -- or with an empty one, or is an exception with an empty message. The form for a code is shown
  -- exactly if the answer asks for one with a token, and there is a session exactly if it brings a
  -- token, and then the session has the token and the name.
  pub handle_submit-IsTold :
      (a : LoginAnswer) (p : LoginPage) (s : Session Number)
      → login_view p ≡ password_form
      → is_authenticated s ≡ false
      → ((handle_submit a (p, s)).0.submitting ≡ false)
        × (IsTold (handle_submit a (p, s)) ↔ (
            (a ≢ LoginAnswer.mfa_required none)
            × (a ≢ LoginAnswer.mfa_required (some []))
            × (a ≢ LoginAnswer.unreachable [])))
        × ((login_view (handle_submit a (p, s)).0 ≡ code_form)
            ↔ ((t : Text) × (a ≡ LoginAnswer.mfa_required (some t)) × (t ≢ [])))
        × ((is_authenticated (handle_submit a (p, s)).1 ≡ true) ↔ (
            (t : Text) × (a ≡ LoginAnswer.issued t)
            × ((handle_submit a (p, s)).1.token ≡ some t)
            × ((handle_submit a (p, s)).1.username ≡ some p.username)))
  unfolding handle_submit settle_login submit login set_session login_view is_authenticated
  handle_submit-IsTold LoginAnswer.refused p s h k = (
    refl,
    ground arith,
    ((λ e. absurd (cc)), λ (t, e, _). absurd (cc)),
    ((λ e. absurd (cc)), λ (t, e, _, _). absurd (cc)),
  )
  handle_submit-IsTold (LoginAnswer.mfa_required none) p s h k = (
    refl,
    ground arith,
    ((λ e. absurd (cc)), λ (t, e, _). absurd (cc)),
    ((λ e. absurd (cc)), λ (t, e, _, _). absurd (cc)),
  )
  handle_submit-IsTold (LoginAnswer.mfa_required (some [])) p s h k = (
    refl,
    ground arith,
    ((λ e. absurd (cc)), λ (t, e, filled). absurd (filled (cc))),
    ((λ e. absurd (cc)), λ (t, e, _, _). absurd (cc)),
  )
  handle_submit-IsTold (LoginAnswer.mfa_required (some (c ∷ t))) p s h k = (
    refl,
    ground arith,
    ((λ e. (c ∷ t, refl, λ n. cc)), λ _. refl),
    ((λ e. absurd (cc)), λ (t, e, _, _). absurd (cc)),
  )
  handle_submit-IsTold (LoginAnswer.issued t) p s h k = (
    refl,
    ground arith,
    ((λ e. absurd (cc)), λ (t, e, _). absurd (cc)),
    ((λ e. (t, refl, refl, refl)), λ _. refl),
  )
  handle_submit-IsTold (LoginAnswer.unreachable []) p s h k = (
    refl,
    ground arith,
    ((λ e. absurd (cc)), λ (t, e, _). absurd (cc)),
    ((λ e. absurd (cc)), λ (t, e, _, _). absurd (cc)),
  )
  handle_submit-IsTold (LoginAnswer.unreachable (c ∷ m)) p s h k = (
    refl,
    ground arith,
    ((λ e. absurd (cc)), λ (t, e, _). absurd (cc)),
    ((λ e. absurd (cc)), λ (t, e, _, _). absurd (cc)),
  )

  -- A request for a code that brings no token leaves the form for the password, with no error.
  pub handle_submit_lost :
      (p : LoginPage) (s : Session Number)
      → p.pending_token ≡ none
      → (login_view (handle_submit (LoginAnswer.mfa_required none) (p, s)).0 ≡ password_form)
        × ((handle_submit (LoginAnswer.mfa_required none) (p, s)).0.error ≡ none)
  unfolding handle_submit settle_login submit login login_view
  handle_submit_lost p s h = rw h (refl, refl)
