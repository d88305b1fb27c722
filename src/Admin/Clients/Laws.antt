-- ===== src/Admin/Clients/Laws.antt =====
-- ClientsPage.tsx, the server and RegisterPage.tsx together: what the admin does to a client and what
-- the browser of that client shows after its next poll.
use mullet.Base.{
  ℕ, ◌≤◌, ◌<◌, ◌-◌, Text, true, false, not, ◌&&◌, Option, none, some, List, [], ◌∷◌, find, is_nil,
  ◌≡◌, ◌≢◌, refl, some_inj, ◌==◌, arith, ltb, find-All, All, Bool-cases, inl, inr,
}
use mullet.Register.Page.{ClientStatus, RegisterPage, poll, answer, goes_to}
use mullet.Admin.Clients.{
  Client, ClientDisplay, ClientBody, client_body, reject_body, revoke_body, edit_body, open_edit,
  update_client, approve_client, client_config, display_slug, slug_of, exists, refers,
  format_last_seen, seen_at, seen_text, ago, Seen, LastSeen,
}

-- The display with an id, where ids are those of distinct displays.
found-exists :
    (id : ℕ) (displays : List ClientDisplay)
    → exists id displays ≡ true
    → (d : ClientDisplay) × (find (λ e. e.id == id) displays ≡ some d)
found-exists id [] h = absurd (cc)
found-exists id (e ∷ displays) h = elim (Bool-cases (e.id == id)) [
  | inl t ↦ (e, rw t refl)
  | inr t ↦ let (d, f) = found-exists id displays (ground arith) in (d, rw t f)
]

approved_as :
    (displays : List ClientDisplay) (id : ℕ) (c approved : Client)
    → approve_client displays id c ≡ some approved
    → (exists id displays ≡ true)
      × (record c { display_id = some id; status = ClientStatus.approved } ≡ approved)
unfolding approve_client
approved_as displays id c approved h = elim (Bool-cases (not (id == 0) && exists id displays)) [
  | inl t ↦ (ground arith, some_inj _ approved (rw t at h))
  | inr t ↦ absurd (cc (rw t at h))
]

goes_there :
    (slug : Text) (before : Option Text)
    → slug ≢ []
    → goes_to ClientStatus.approved (some slug) before ≡ some slug
unfolding goes_to
goes_there [] before h = absurd (h refl)
goes_there (c ∷ slug) before h = refl

-- At the first poll after the admin has approved a client, its browser goes to the display that was
-- chosen, if each display has an address.
pub approve-poll :
    (displays : List ClientDisplay) (id : ℕ) (c approved : Client) (p : RegisterPage)
    → approve_client displays id c ≡ some approved
    → All (λ d. d.slug ≢ []) displays
    → (d : ClientDisplay) × (find (λ e. e.id == id) displays ≡ some d)
      × ((poll false (client_config displays approved) p).display_slug ≡ some d.slug)
unfolding client_config display_slug slug_of poll answer
approve-poll displays id c approved p h s =
    let (there, same) = approved_as displays id c approved h in
    let (d, found) = found-exists id displays there in
    (
      d,
      found,
      rw (← same, found)
          (goes_there d.slug p.display_slug
            (find-All (λ d. d.slug ≢ []) (λ e. e.id == id) displays d s found)),
    )

updated_as :
    (displays : List ClientDisplay) (b : ClientBody) (c updated : Client)
    → update_client displays b c ≡ some updated
    → record c {
      name = b.name;
      display_id = b.display_id;
      status = b.status;
      offline_mode = b.offline_mode;
    }
      ≡ updated
unfolding update_client
updated_as displays b c updated h =
    elim (Bool-cases (not (is_nil b.name) && refers b.display_id displays)) [
      | inl t ↦ some_inj _ updated (rw t at h)
      | inr t ↦ absurd (cc (rw t at h))
    ]

-- At the first poll after a client is rejected or revoked, its browser says so and goes nowhere; a
-- revoked client has lost its display, a rejected one keeps it.
pub refuse-poll :
    (displays : List ClientDisplay) (c rejected revoked : Client) (p : RegisterPage)
    → update_client displays (reject_body c) c ≡ some rejected
    → update_client displays (revoke_body c) c ≡ some revoked
    → (poll false (client_config displays rejected) p
        ≡ record p { status = some ClientStatus.rejected })
      × (poll false (client_config displays revoked) p
          ≡ record p { status = some ClientStatus.pending })
      × (rejected.display_id ≡ c.display_id)
      × (revoked.display_id ≡ none)
unfolding client_config display_slug poll answer goes_to reject_body revoke_body client_body
refuse-poll displays c rejected revoked p h k =
    let r = updated_as displays (reject_body c) c rejected h in
    let v = updated_as displays (revoke_body c) c revoked k in
    (rw (← r) refl, rw (← v) refl, rw (← r) refl, rw (← v) refl)

-- Submitting the form that edits a client as it opens changes nothing, if the client has a name and
-- its display is there.
pub edit-update :
    (displays : List ClientDisplay) (c : Client)
    → c.name ≢ []
    → refers c.display_id displays ≡ true
    → update_client displays (edit_body c (open_edit c)) c ≡ some c
unfolding update_client edit_body open_edit client_body
edit-update displays c n r = rw (named c.name n, r) refl
  where
    named : (t : Text) → t ≢ [] → is_nil t ≡ false
    named [] h = absurd (h refl)
    named (b ∷ t) h = refl

-- A count of minutes or hours that is not 0 and does not reach the next unit.
pub IsShort : LastSeen → Type 0
IsShort (LastSeen.minutes n) = (1 ≤ n) × (n < 60)
IsShort (LastSeen.hours n) = (1 ≤ n) × (n < 24)
IsShort _ = Unit

ago-IsShort : (time ms : ℕ) → IsShort (ago time ms)
unfolding ago IsShort
ago-IsShort time ms = elim (Bool-cases (ltb ms 60000)) [
  | inl h ↦ rw h tt
  | inr h ↦ elim (Bool-cases (ltb ms 3600000)) [
    | inl k ↦
        let least : 60000 ≤ ms = ground arith in
        let most : ms < 3600000 = ground arith in rw (h, k) (omega arith, omega arith)
    | inr k ↦ elim (Bool-cases (ltb ms 86400000)) [
      | inl l ↦
          let least : 3600000 ≤ ms = ground arith in
          let most : ms < 86400000 = ground arith in rw (h, k, l) (omega arith, omega arith)
      | inr l ↦ rw (h, k, l) tt
    ]
  ]
]

-- The minutes and hours since a client was last seen are never 0, and less than an hour and a day.
pub format_last_seen-IsShort : (now : ℕ) (seen : Option Seen) → IsShort (format_last_seen now seen)
unfolding format_last_seen seen_at seen_text IsShort
format_last_seen-IsShort now none = tt
format_last_seen-IsShort now (some s) = elim (Bool-cases (is_nil s.text)) [
  | inl h ↦ rw h tt
  | inr h ↦ rw h (seen_text-IsShort s.time)
]
  where
    seen_text-IsShort : (time : Option ℕ) → IsShort (seen_text now s time)
    seen_text-IsShort none = tt
    seen_text-IsShort (some time) = ago-IsShort time (now - time)
