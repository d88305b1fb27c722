-- ===== src/Admin/Session.antt =====
-- admin/auth/AuthContext.tsx and admin/auth/useApiFetch.ts: the session that the admin pages keep in
-- memory and in `sessionStorage`, and the requests that change it.
pub mod Laws
use mullet.Base.{
  Text, codes, Bool, true, false, Option, none, some, List, [], ◌∷◌, is_nil, is_some, not, ◌≡◌,
  refl, ap, ◌∙◌, if◌then◌else◌, ◌++◌, ◌==◌, ℕ,
}
use mullet.Theme.Json.{Json, str, obj, Fields, end, field, get, as_object, as_string}

-- The text under `mullet-admin-session`, as `JSON.parse` reads it.
pub data Item (Number : Type 0) : Type 0 where
  blank : Item Number
  broken : Item Number
  parsed : Json Number → Item Number

-- `sessionStorage`: it works, its quota is exhausted, or every access throws.
pub data Access : Type 0 where
  works full denied : Access

pub record StoredSession : Type 0 where
  pub token : Text
  pub username : Text

pub record Session (Number : Type 0) : Type 0 where
  pub token : Option Text
  pub username : Option Text
  pub item : Option (Item Number)

-- What comes back from `POST /api/admin/login`: not ok, a request for a code with the body's
-- `pending_token`, a token, or an exception of `fetch` with its message.
pub data LoginAnswer : Type 0 where
  refused : LoginAnswer
  mfa_required : Option Text → LoginAnswer
  issued : Text → LoginAnswer
  unreachable : Text → LoginAnswer

-- From `POST /api/admin/mfa/verify`.
pub data VerifyAnswer : Type 0 where
  wrong : VerifyAnswer
  issued : Text → VerifyAnswer
  unreachable : Text → VerifyAnswer

-- What a promise of `login` or `verifyMFA` settles with: `mfaRequired: false`, `mfaRequired: true`
-- with the pending token, or an error with its message.
pub data LoginResult : Type 0 where
  signed_in : LoginResult
  needs_code : Option Text → LoginResult
  error : Text → LoginResult

both : Option Text → Option Text → Option StoredSession
both (some t) (some u) = some (record { token = t; username = u })
both (some t) none = none
both none u = none

abbrev token_of : Option StoredSession → Option Text
token_of none = none
token_of (some s) = some s.token

abbrev username_of : Option StoredSession → Option Text
username_of none = none
username_of (some s) = some s.username

header_of : Option Text → Option Text
header_of none = none
header_of (some t) = if is_nil t then none else some (codes "Bearer " ++ t)

module _ {Number : Type 0} where
  strings : Option (Fields Number) → Option StoredSession
  unfolding both
  strings none = none
  strings (some fs) = both (as_string (get "token" fs)) (as_string (get "username" fs))

  parsed_session : Option (Item Number) → Option StoredSession
  unfolding strings
  parsed_session none = none
  parsed_session (some blank) = none
  parsed_session (some broken) = none
  parsed_session (some (parsed v)) = strings (as_object (some v))

  unfoldable pub read_stored_session : Access → Option (Item Number) → Option StoredSession
  unfolding parsed_session
  read_stored_session works i = parsed_session i
  read_stored_session full i = parsed_session i
  read_stored_session denied i = none

  abbrev to_json : StoredSession → Json Number
  to_json s = obj (field "token" (str s.token) (field "username" (str s.username) end))

  unfoldable pub write_stored_session :
      Access → Option StoredSession → Option (Item Number) → Option (Item Number)
  write_stored_session denied s i = i
  write_stored_session full (some s) i = i
  write_stored_session full none i = none
  write_stored_session works (some s) i = some (parsed (to_json s))
  write_stored_session works none i = none

  module _ (access : Access) where
    -- The first state of `AuthProvider`, on what the storage holds.
    unfoldable pub open_session : Option (Item Number) → Session Number
    open_session i = record {
      token = token_of (read_stored_session access i);
      username = username_of (read_stored_session access i);
      item = i;
    }

    unfoldable pub set_session : Text → Text → Session Number → Session Number
    set_session t u s = record {
      token = some t;
      username = some u;
      item = write_stored_session access (some (record { token = t; username = u })) s.item;
    }

    unfoldable pub logout : Session Number → Session Number
    logout s = record {
      token = none;
      username = none;
      item = write_stored_session access none s.item;
    }

    unfoldable pub login : Text → LoginAnswer → Session Number → Session Number × LoginResult
    login u refused s = (s, error (codes "Invalid username or password"))
    login u (mfa_required p) s = (s, needs_code p)
    login u (issued t) s = (set_session t u s, signed_in)
    login u (unreachable m) s = (s, error m)

    unfoldable pub verify_mfa : Text → VerifyAnswer → Session Number → Session Number × LoginResult
    verify_mfa u wrong s = (s, error (codes "Invalid code"))
    verify_mfa u (issued t) s = (set_session t u s, signed_in)
    verify_mfa u (unreachable m) s = (s, error m)

    -- `useApiFetch`: what an answer with this status does to the session.
    unfoldable pub receive_status : ℕ → Session Number → Session Number
    receive_status status s = if status == 401 then logout s else s

  -- `token !== null`
  unfoldable pub is_authenticated : Session Number → Bool
  is_authenticated s = is_some s.token

  -- The `Authorization` header of `useApiFetch`.
  unfoldable pub authorization : Session Number → Option Text
  unfolding header_of
  authorization s = header_of s.token

-- What happens to a tab: an answer to a form, an answer to a request of a page, signing out, and
-- loading the page again.
pub data SessionEvent : Type 0 where
  logs_in : Text → LoginAnswer → SessionEvent
  verifies : Text → VerifyAnswer → SessionEvent
  sets_up : Text → Text → SessionEvent
  receives : ℕ → SessionEvent
  signs_out : SessionEvent
  reloads : SessionEvent

module _ {Number : Type 0} (access : Access) where
  unfoldable pub session_step : SessionEvent → Session Number → Session Number
  session_step (logs_in u a) s = (login access u a s).0
  session_step (verifies u a) s = (verify_mfa access u a s).0
  session_step (sets_up t u) s = set_session access t u s
  session_step (receives status) s = receive_status access status s
  session_step signs_out s = logout access s
  session_step reloads s = open_session access s.item

  unfoldable pub session_run : List SessionEvent → Session Number → Session Number
  session_run [] s = s
  session_run (e ∷ es) s = session_run es (session_step e s)
