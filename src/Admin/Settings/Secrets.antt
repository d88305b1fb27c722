-- ===== src/Admin/Settings/Secrets.antt =====
-- admin/pages/SettingsPage.tsx: `SMTPSection`, whose form has a password that the server never sends
-- back, with what internal/db/smtp_settings.go stores; the secret field is also the webhook form's.
use mullet.Base.{
  Text, codes, Bool, true, false, not, Option, some, [], ◌∷◌, is_nil, or_else, ◌≡◌, ◌≢◌, refl,
}
use mullet.Admin.Settings.{SaveStatus, idle, saved, error}

-- The password or signing secret of a form: what is typed, and whether one is set.
pub record SecretField : Type 0 where
  pub typed : Text
  pub has_secret : Bool

-- `if (password) { setHasPassword(true); setPassword(''); }`
abbrev saved_field : Text → Bool → SecretField
saved_field [] has = record { typed = []; has_secret = has }
saved_field (c ∷ t) has = record { typed = []; has_secret = true }

unfoldable pub saved_secret : SecretField → SecretField
saved_secret f = saved_field f.typed f.has_secret

-- How a request that saves settles: ok, not ok with the text of the answer, or an exception, which may
-- also come after the server has stored the body; `lost true` is such a one.
pub data PutReply : Type 0 where
  ok : PutReply
  refused : Text → PutReply
  lost : Bool → PutReply

-- `SaveSMTPConfig`: an empty password in the body leaves the stored one.
unfoldable pub store_secret : Text → Text → Text
store_secret [] stored = stored
store_secret (c ∷ t) stored = c ∷ t

pub record SmtpConfig (Port : Type 0) : Type 0 where
  pub host : Text
  pub port : Port
  pub username : Text
  pub password : Text
  pub from_address : Text
  pub tls_mode : Text

pub record SmtpForm : Type 0 where
  pub host : Text
  pub port : Text
  pub username : Text
  pub from_address : Text
  pub tls_mode : Text
  pub secret : SecretField
  pub status : SaveStatus

pub record SmtpBody (Port : Type 0) : Type 0 where
  pub host : Text
  pub port : Port
  pub username : Text
  pub password : Text
  pub from_address : Text
  pub tls_mode : Text

abbrev pub tls_or_default : Text → Text
tls_or_default [] = codes "starttls"
tls_or_default (c ∷ t) = c ∷ t

-- `Port` is the type of the port's number: `Number(port)`, and `String(port)` unless it is 0.
module _ {Port : Type 0} (number_of : Text → Port) (text_of : Port → Option Text) where
  -- The form once the settings are loaded.
  unfoldable pub open_smtp : SmtpConfig Port → SmtpForm
  open_smtp s = record {
    host = s.host;
    port = or_else (text_of s.port) (codes "587");
    username = s.username;
    from_address = s.from_address;
    tls_mode = tls_or_default s.tls_mode;
    secret = record { typed = []; has_secret = not (is_nil s.password) };
    status = idle;
  }

  unfoldable pub smtp_body : SmtpForm → SmtpBody Port
  smtp_body f = record {
    host = f.host;
    port = number_of f.port;
    username = f.username;
    password = f.secret.typed;
    from_address = f.from_address;
    tls_mode = f.tls_mode;
  }

  -- `handlePutSMTPConfig` of a body that it accepts.
  unfoldable pub put_smtp : SmtpBody Port → SmtpConfig Port → SmtpConfig Port
  put_smtp b s = record {
    host = b.host;
    port = b.port;
    username = b.username;
    password = store_secret b.password s.password;
    from_address = b.from_address;
    tls_mode = tls_or_default b.tls_mode;
  }

  -- `handleSubmit` once its request has settled: the form, and what is stored.
  unfoldable pub save_smtp : PutReply → SmtpForm → SmtpConfig Port → SmtpForm × SmtpConfig Port
  save_smtp ok f s =
      (record f { secret = saved_secret f.secret; status = saved }, put_smtp (smtp_body f) s)
  save_smtp (refused m) f s = (record f { status = error }, s)
  save_smtp (lost false) f s = (record f { status = error }, s)
  save_smtp (lost true) f s = (record f { status = error }, put_smtp (smtp_body f) s)

  tls_kept : (t : Text) → t ≢ [] → tls_or_default (tls_or_default t) ≡ t
  tls_kept [] h = absurd (h refl)
  tls_kept (c ∷ t) h = refl

  -- Saving the mail settings as they are loaded keeps all of them, the password included, if the text
  -- of the port is read as the port.
  pub save_smtp_untouched :
      (s : SmtpConfig Port) (port : Text)
      → s.tls_mode ≢ []
      → text_of s.port ≡ some port
      → number_of port ≡ s.port
      → (save_smtp ok (open_smtp s) s).1 ≡ s
  unfolding save_smtp open_smtp smtp_body put_smtp store_secret
  save_smtp_untouched s port t p n = rw (p, n, tls_kept s.tls_mode t) refl
