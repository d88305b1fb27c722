-- ===== src/Admin/Clients.antt =====
-- admin/pages/ClientsPage.tsx: the clients that ask for approval, and the requests that approve,
-- reject, revoke and edit one; with what internal/api/client_handlers.go does with them
-- (`handleApproveClient`, `handleUpdateClient`, `handleClientConfig`).
use mullet.Base.{
  ℕ, ◌-◌, ◌/◌, Text, codes, Bool, true, false, ◌&&◌, not, Option, none, some, List, [], ◌∷◌, filter,
  find, any, is_nil, or_else, if◌then◌else◌, ◌==◌, ltb,
}
use mullet.Register.Page.{ClientStatus, ConfigReply}
pub mod Laws
pub mod Offline

pub data OfflineMode : Type 0 where
  offline_screen screen_off last_screenshot : OfflineMode

pub record Client : Type 0 where
  pub id : ℕ
  pub client_id : Text
  pub name : Text
  pub display_id : Option ℕ
  pub status : ClientStatus
  pub offline_mode : OfflineMode

-- The fields of a display that the page and the server use here.
pub record ClientDisplay : Type 0 where
  pub id : ℕ
  pub name : Text
  pub slug : Text

-- A patch of `updateClient`: a field that is none is not in it, and a `display_id` that is in it may
-- be null.
pub record ClientPatch : Type 0 where
  pub name : Option Text
  pub display_id : Option (Option ℕ)
  pub status : Option ClientStatus
  pub offline_mode : Option OfflineMode

pub record ClientBody : Type 0 where
  pub name : Text
  pub display_id : Option ℕ
  pub status : ClientStatus
  pub offline_mode : OfflineMode

-- The body that `updateClient` sends.
unfoldable pub client_body : Client → ClientPatch → ClientBody
client_body c p = record {
  name = or_else p.name c.name;
  display_id = or_else p.display_id c.display_id;
  status = or_else p.status c.status;
  offline_mode = or_else p.offline_mode c.offline_mode;
}

abbrev pub no_patch : ClientPatch
no_patch = record { name = none; display_id = none; status = none; offline_mode = none }

-- `handleReject` and `handleRevoke`
unfoldable pub reject_body : Client → ClientBody
reject_body c = client_body c (record no_patch { status = some ClientStatus.rejected })

unfoldable pub revoke_body : Client → ClientBody
revoke_body c =
    client_body c (record no_patch { status = some ClientStatus.pending; display_id = some none })

-- `EditClientForm`: its fields as it opens, and what it submits.
pub record EditForm : Type 0 where
  pub name : Text
  pub display_id : Option ℕ
  pub offline_mode : OfflineMode

unfoldable pub open_edit : Client → EditForm
open_edit c = record { name = c.name; display_id = c.display_id; offline_mode = c.offline_mode }

unfoldable pub edit_body : Client → EditForm → ClientBody
edit_body c f = client_body c (record no_patch {
  name = some f.name;
  display_id = some f.display_id;
  offline_mode = some f.offline_mode;
})

-- `ApproveForm`: the display that is chosen as it opens.
abbrev first_id : List ClientDisplay → Option ℕ
first_id [] = none
first_id (d ∷ displays) = some d.id

unfoldable pub open_approve : List ClientDisplay → Option ℕ
open_approve displays = first_id displays

abbrev pub exists : ℕ → List ClientDisplay → Bool
exists id displays = any (λ d. d.id == id) displays

-- A foreign key of the table of clients.
abbrev pub refers : Option ℕ → List ClientDisplay → Bool
refers none displays = true
refers (some id) displays = exists id displays

-- `handleUpdateClient` of a client that is there: none is a 400.
unfoldable pub update_client : List ClientDisplay → ClientBody → Client → Option Client
update_client displays b c =
    if not (is_nil b.name) && refers b.display_id displays
    then some (record c {
      name = b.name;
      display_id = b.display_id;
      status = b.status;
      offline_mode = b.offline_mode;
    })
    else none

-- `handleApproveClient`, also with the id 0 that stands for a missing one.
unfoldable pub approve_client : List ClientDisplay → ℕ → Client → Option Client
approve_client displays id c =
    if not (id == 0) && exists id displays
    then some (record c { display_id = some id; status = ClientStatus.approved })
    else none

slug_of : Option ClientDisplay → Option Text
slug_of none = none
slug_of (some d) = some d.slug

display_slug : List ClientDisplay → ClientStatus → Option ℕ → Option Text
unfolding slug_of
display_slug displays ClientStatus.approved (some id) = slug_of (find (λ d. d.id == id) displays)
display_slug displays ClientStatus.approved none = none
display_slug displays ClientStatus.pending id = none
display_slug displays ClientStatus.rejected id = none

-- `handleClientConfig` of a client that is registered.
unfoldable pub client_config : List ClientDisplay → Client → ConfigReply
unfolding display_slug
client_config displays c = ConfigReply.config c.status (display_slug displays c.status c.display_id)

abbrev pub is_pending : ClientStatus → Bool
is_pending ClientStatus.pending = true
is_pending ClientStatus.approved = false
is_pending ClientStatus.rejected = false

-- The two lists of the page.
unfoldable pub pending_clients : List Client → List Client
pending_clients clients = filter (λ c. is_pending c.status) clients

unfoldable pub other_clients : List Client → List Client
other_clients clients = filter (λ c. not (is_pending c.status)) clients

-- The buttons of a row.
pub data Button : Type 0 where
  approve reject edit revoke delete : Button

unfoldable pub client_buttons : ClientStatus → List Button
client_buttons ClientStatus.pending = approve ∷ reject ∷ delete ∷ []
client_buttons ClientStatus.approved = edit ∷ revoke ∷ delete ∷ []
client_buttons ClientStatus.rejected = approve ∷ delete ∷ []

-- When a client was last seen: the time is in milliseconds, and none where `new Date` cannot read
-- the text.
pub record Seen : Type 0 where
  pub text : Text
  pub time : Option ℕ

pub data LastSeen : Type 0 where
  never just_now : LastSeen
  verbatim : Text → LastSeen
  minutes hours : ℕ → LastSeen
  -- `toLocaleDateString` of the time
  on_date : ℕ → LastSeen

ago : ℕ → ℕ → LastSeen
ago time ms =
    if ltb ms 60000
    then just_now
    else if ltb ms 3600000
    then minutes (ms / 60000)
    else if ltb ms 86400000
    then hours (ms / 3600000)
    else on_date time

seen_text : ℕ → Seen → Option ℕ → LastSeen
unfolding ago
seen_text now s none = verbatim s.text
seen_text now s (some time) = ago time (now - time)

seen_at : ℕ → Option Seen → LastSeen
unfolding seen_text
seen_at now none = never
seen_at now (some s) = if is_nil s.text then never else seen_text now s s.time

-- `formatLastSeen` at a time `now`; the difference stops at 0, as `Math.max(0, …)` does.
unfoldable pub format_last_seen : ℕ → Option Seen → LastSeen
unfolding seen_at
format_last_seen now seen = seen_at now seen
