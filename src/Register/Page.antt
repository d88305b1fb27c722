-- ===== src/Register/Page.antt =====
-- register/RegisterPage.tsx: the state of the page and the two cookies of the browser, and what the
-- requests and the buttons do to them. A cookie is what `getCookie` gives: the text that `setCookie`
-- was given last, or none once `deleteCookie` was called.
pub mod Laws
use mullet.Base.{
  Text, codes, Bool, true, false, not, Option, none, some, List, [], ◌∷◌, is_nil, or_else, trim,
  ◌≡◌, ◌≢◌, refl, ap, ◌∙◌, sym, if◌then◌else◌, Bool-cases, inl, inr,
}
use mullet.Register.Pairing.{Bytes, generate_client_id}

pub data ClientStatus : Type 0 where
  pending approved rejected : ClientStatus

pub record Cookies : Type 0 where
  pub client_id : Option Text
  pub client_name : Option Text

pub record RegisterPage : Type 0 where
  pub client_id : Option Text
  pub name : Text
  pub registering : Bool
  pub error : Option Text
  pub status : Option ClientStatus
  pub cookies : Cookies
  -- Where `navigate` went.
  pub display_slug : Option Text

abbrev no_cookies : Cookies
no_cookies = record { client_id = none; client_name = none }

unfoldable pub open_page : Cookies → RegisterPage
open_page k = record {
  client_id = k.client_id;
  name = or_else k.client_name [];
  registering = false;
  error = none;
  status = none;
  cookies = k;
  display_slug = none;
}

pub record Registration : Type 0 where
  pub id : Text
  pub display_name : Text

pub data RegisterReply : Type 0 where
  accepted : RegisterReply
  refused : Text → RegisterReply
  unreachable : Text → RegisterReply

-- The texts of the errors that `register` throws and catches.
abbrev or_failed : Text → Text
or_failed [] = codes "Registration failed"
or_failed (c ∷ m) = c ∷ m

-- `register` before and after its request.
unfoldable pub begin_register : RegisterPage → RegisterPage
begin_register p = record p { error = none }

unfoldable pub settle_register : Registration → RegisterReply → RegisterPage → RegisterPage
settle_register r accepted p = record p {
  cookies = record { client_id = some r.id; client_name = some r.display_name };
  client_id = some r.id;
}
settle_register r (refused m) p = record p { error = some (or_failed m) }
settle_register r (unreachable m) p = record p { error = some m }

returning : Option Text → Text → Option Registration
returning none name = none
returning (some []) name = none
returning (some (c ∷ id)) [] = none
returning (some (c ∷ id)) (d ∷ name) = some (record { id = c ∷ id; display_name = d ∷ name })

-- The first effect: the registration that a returning visit sends again.
unfoldable pub first_request : RegisterPage → Option Registration
unfolding returning
first_request p = returning p.client_id p.name

unfoldable pub submit_unless :
    Bool → Text → Bytes → RegisterPage → Option Registration × RegisterPage
unfolding begin_register
submit_unless true name bytes p = (none, p)
submit_unless false name bytes p = (
  some (record { id = generate_client_id bytes; display_name = name }),
  begin_register (record p { registering = true }),
)

-- `handleSubmit`: the registration that it sends, with the page after the click.
unfoldable pub handle_submit : Bytes → RegisterPage → Option Registration × RegisterPage
handle_submit bytes p = submit_unless (is_nil (trim p.name)) (trim p.name) bytes p

-- `.finally(() => setRegistering(false))`
unfoldable pub settle_submit : Registration → RegisterReply → RegisterPage → RegisterPage
settle_submit r reply p = record (settle_register r reply p) { registering = false }

-- An answer to `GET /api/clients/{id}/config`.
pub data ConfigReply : Type 0 where
  missing failed : ConfigReply
  config : ClientStatus → Option Text → ConfigReply

unfoldable pub goes_to : ClientStatus → Option Text → Option Text → Option Text
goes_to ClientStatus.approved (some (c ∷ slug)) before = some (c ∷ slug)
goes_to ClientStatus.approved (some []) before = before
goes_to ClientStatus.approved none before = before
goes_to ClientStatus.pending slug before = before
goes_to ClientStatus.rejected slug before = before

unfoldable pub answer : ConfigReply → RegisterPage → RegisterPage
unfolding goes_to
answer missing p = record p { client_id = none; status = none; cookies = no_cookies }
answer failed p = p
answer (config status slug) p = record p {
  status = some status;
  display_slug = goes_to status slug p.display_slug;
}

-- `poll`, once its answer is there; `cancelled` after the effect was cleaned up.
unfoldable pub poll : Bool → ConfigReply → RegisterPage → RegisterPage
unfolding answer
poll cancelled reply p = if cancelled then p else answer reply p

unfoldable pub handle_forget : RegisterPage → RegisterPage
handle_forget p = record p { client_id = none; status = none; name = []; cookies = no_cookies }

-- What is shown: the form with its error, the name in it and whether it is registering, or the card
-- with the pairing code, the name and whether the registration was rejected.
pub data RegisterView : Type 0 where
  name_form : Option Text → Text → Bool → RegisterView
  code_card : Text → Text → Bool → RegisterView

abbrev is_rejected : Option ClientStatus → Bool
is_rejected (some ClientStatus.rejected) = true
is_rejected (some _) = false
is_rejected none = false

-- `{error && …}`
abbrev shown_error : Option Text → Option Text
shown_error none = none
shown_error (some []) = none
shown_error (some (c ∷ m)) = some (c ∷ m)

unfoldable pub view_of : Option Text → RegisterPage → RegisterView
view_of none p = name_form (shown_error p.error) p.name p.registering
view_of (some []) p = name_form (shown_error p.error) p.name p.registering
view_of (some (c ∷ id)) p = code_card (c ∷ id) p.name (is_rejected p.status)

unfoldable pub register_view : RegisterPage → RegisterView
unfolding view_of
register_view p = view_of p.client_id p

pub data RegisterEvent : Type 0 where
  edits : Text → RegisterEvent
  -- The request of the first effect is sent, or answered.
  returns : RegisterEvent
  returned : Registration → RegisterReply → RegisterEvent
  submits : Bytes → RegisterEvent
  submitted : Registration → RegisterReply → RegisterEvent
  polls : Bool → ConfigReply → RegisterEvent
  forgets : RegisterEvent

unfoldable pub register_step : RegisterEvent → RegisterPage → RegisterPage
register_step (edits name) p = record p { name = name }
register_step returns p = begin_register p
register_step (returned r reply) p = settle_register r reply p
register_step (submits bytes) p = (handle_submit bytes p).1
register_step (submitted r reply) p = settle_submit r reply p
register_step (polls cancelled reply) p = poll cancelled reply p
register_step forgets p = handle_forget p

unfoldable pub register_run : List RegisterEvent → RegisterPage → RegisterPage
register_run [] p = p
register_run (e ∷ es) p = register_run es (register_step e p)
