-- ===== src/Admin/Settings/Webhooks.antt =====
-- admin/pages/SettingsPage.tsx: `WebhooksSection`, with what internal/api/webhook_handlers.go and
-- internal/db/webhook_settings.go store of its form and read.
use mullet.Base.{
  Text, codes, Bool, true, false, not, ◌||◌, any, join, ◌⊎◌, inl, arith, Option, none, some, List,
  [], ◌∷◌, is_nil, ◌≡◌, refl,
}
use mullet.Admin.Settings.{SaveStatus, idle, saved, error, or_text, no_server}
use mullet.Admin.Settings.Secrets.{SecretField, saved_secret, PutReply, ok, refused, lost}

pub record WebhookConfig : Type 0 where
  pub url : Text
  pub secret : Text
  pub payload_template : Text

pub record WebhookForm : Type 0 where
  pub url : Text
  pub secret : SecretField
  pub payload_template : Text
  pub status : SaveStatus
  pub error : Option Text

unfoldable pub open_webhook : WebhookConfig → WebhookForm
open_webhook w = record {
  url = w.url;
  secret = record { typed = []; has_secret = not (is_nil w.secret) };
  payload_template = w.payload_template;
  status = idle;
  error = none;
}

-- `SaveWebhookConfig`: an empty secret in the body leaves the stored one.
unfoldable pub store_signing_secret : Text → Text → Text
store_signing_secret [] stored = stored
store_signing_secret (c ∷ t) stored = c ∷ t

-- The lines of `DefaultWebhookPayloadTemplate`.
abbrev default_lines : List Text
default_lines =
    codes "{"
    ∷ codes "  \"event\": \"{event}\","
    ∷ codes "  \"subject\": \"{subject}\","
    ∷ codes "  \"message\": \"{message}\","
    ∷ codes "  \"timestamp\": \"{timestamp}\""
    ∷ codes "}"
    ∷ []

-- `GetWebhookConfig`: an empty template is read as the default one.
unfoldable pub read_template : Text → Text
read_template [] = join 10 default_lines
read_template (c ∷ t) = c ∷ t

-- `handlePutWebhookConfig` of a body that it accepts: the settings as they are read from then on.
unfoldable pub put_webhook : WebhookForm → WebhookConfig → WebhookConfig
put_webhook f w = record {
  url = f.url;
  secret = store_signing_secret f.secret.typed w.secret;
  payload_template = read_template f.payload_template;
}

unfoldable pub save_webhook : PutReply → WebhookForm → WebhookConfig → WebhookForm × WebhookConfig
save_webhook ok f w =
    (record f { secret = saved_secret f.secret; status = saved; error = none }, put_webhook f w)
save_webhook (refused m) f w =
    (record f { status = error; error = some (or_text m (codes "Failed to save.")) }, w)
save_webhook (lost false) f w = (record f { status = error; error = some no_server }, w)
save_webhook (lost true) f w =
    (record f { status = error; error = some no_server }, put_webhook f w)

-- One save of the webhook form: what was typed into it, and how the request settled.
pub record WebhookSave : Type 0 where
  pub url : Text
  pub typed : Text
  pub payload_template : Text
  pub reply : PutReply

-- The page after what was typed for a save.
abbrev pub typed_in : WebhookSave → WebhookForm → WebhookForm
typed_in e f = record f {
  url = e.url;
  secret = record { typed = e.typed; has_secret = f.secret.has_secret };
  payload_template = e.payload_template;
}

unfoldable pub webhook_saves :
    List WebhookSave → WebhookForm × WebhookConfig → WebhookForm × WebhookConfig
webhook_saves [] s = s
webhook_saves (e ∷ es) (f, w) = webhook_saves es (save_webhook e.reply (typed_in e f) w)

-- A save whose answer was lost after the server had stored it.
abbrev pub is_lost : PutReply → Bool
is_lost ok = false
is_lost (refused m) = false
is_lost (lost stored) = stored

-- The page says that a secret is set exactly if there is one; or else an answer was lost, there is
-- one, and the page says that there is none.
abbrev Knows : Bool → Bool → Text → Type 0
Knows some_lost has secret =
    (has ≡ not (is_nil secret)) ⊎ ((some_lost ≡ true) × (has ≡ false) × (is_nil secret ≡ false))

save_webhook-Knows :
    (b : Bool) (reply : PutReply) (typed : Text) (f : WebhookForm) (w : WebhookConfig)
    → f.secret.typed ≡ typed
    → Knows b f.secret.has_secret w.secret
    → Knows
        (b || is_lost reply)
        (save_webhook reply f w).0.secret.has_secret
        (save_webhook reply f w).1.secret
unfolding save_webhook put_webhook saved_secret store_signing_secret
save_webhook-Knows b ok [] f w e h = rw e (ground arith)
save_webhook-Knows b ok (c ∷ t) f w e h = rw e (ground arith)
save_webhook-Knows b (refused m) typed f w e h = ground arith
save_webhook-Knows b (lost false) typed f w e h = ground arith
save_webhook-Knows b (lost true) [] f w e h = rw e (ground arith)
save_webhook-Knows b (lost true) (c ∷ t) f w e h = rw e (ground arith)

or_assoc : (a b c : Bool) → ((a || b) || c) ≡ (a || (b || c))
or_assoc true b c = refl
or_assoc false b c = refl

webhook_saves-Knows :
    (b : Bool) (es : List WebhookSave) (f : WebhookForm) (w : WebhookConfig)
    → Knows b f.secret.has_secret w.secret
    → Knows
        (b || any (λ e. is_lost e.reply) es)
        (webhook_saves es (f, w)).0.secret.has_secret
        (webhook_saves es (f, w)).1.secret
unfolding webhook_saves
webhook_saves-Knows b [] f w h = ground arith
webhook_saves-Knows b (e ∷ es) f w h =
    let (f', w') = save_webhook e.reply (typed_in e f) w in
    rw (← or_assoc b (is_lost e.reply) (any (λ x. is_lost x.reply) es)) (
      webhook_saves-Knows (b || is_lost e.reply) es f' w'
        (save_webhook-Knows b e.reply e.typed (typed_in e f) w refl h))

-- Through any saves of the webhook's settings, accepted or not, the page says that a signing secret is
-- set exactly while the server has one, but after a save that the server stored and whose answer was
-- lost: then it may say that none is set while the server has one.
pub webhook_secret_known :
    (es : List WebhookSave) (w : WebhookConfig)
    → ((webhook_saves es (open_webhook w, w)).0.secret.has_secret
        ≡ not (is_nil (webhook_saves es (open_webhook w, w)).1.secret))
      ⊎ ((any (λ e. is_lost e.reply) es ≡ true)
          × ((webhook_saves es (open_webhook w, w)).0.secret.has_secret ≡ false)
          × (is_nil (webhook_saves es (open_webhook w, w)).1.secret ≡ false))
unfolding open_webhook
webhook_secret_known es w = webhook_saves-Knows false es (open_webhook w) w (inl refl)
