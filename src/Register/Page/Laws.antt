-- ===== src/Register/Page/Laws.antt =====
-- RegisterPage.tsx: the page against the cookies of the browser, and registrations under way.
use mullet.Base.{
  Text, Bool, true, false, Option, some, List, [], ◌∷◌, is_nil, none, or_else, trim, ◌≡◌, ◌≢◌, ◌∙◌,
  refl, ap, sym,
}
use mullet.Register.Pairing.{Bytes}
use mullet.Register.Page.{
  Cookies, RegisterPage, Registration, accepted, refused, unreachable, missing, failed, config,
  RegisterEvent, edits, returns, returned, submits, submitted, polls, forgets, RegisterView,
  name_form, code_card, open_page, begin_register, settle_register, settle_submit, submit_unless,
  handle_submit, poll, answer, handle_forget, register_view, view_of, register_step, register_run,
}

-- What the browser keeps of the registration: the last one that the server accepted, and nothing once
-- the device was forgotten or a live poll found no record of it.
pub kept_after : RegisterEvent → Cookies → Cookies
kept_after (returned r accepted) k = record {
  client_id = some r.id;
  client_name = some r.display_name;
}
kept_after (submitted r accepted) k = record {
  client_id = some r.id;
  client_name = some r.display_name;
}
kept_after (polls false missing) k = record { client_id = none; client_name = none }
kept_after forgets k = record { client_id = none; client_name = none }
kept_after e k = k

pub kept : List RegisterEvent → Cookies → Cookies
kept [] k = k
kept (e ∷ es) k = kept es (kept_after e k)

-- The page of a browser that keeps this: no error, nothing under way, and the code as not rejected.
pub first_view : Option Text → Text → RegisterView
first_view none name = name_form none name false
first_view (some []) name = name_form none name false
first_view (some (c ∷ id)) name = code_card (c ∷ id) name false

-- The pairing code that is shown.
abbrev pub shown_code : RegisterView → Option Text
shown_code (name_form e name r) = none
shown_code (code_card id name r) = some id

-- The page has the client id of the cookies, and they are as `k` says.
record Keeps (k : Cookies) (p : RegisterPage) : Type 0 where
  same_id : p.client_id ≡ k.client_id
  cookies : p.cookies ≡ k

unless-Keeps :
    (b : Bool) (name : Text) (bytes : Bytes) {k : Cookies} {p : RegisterPage}
    → Keeps k p
    → Keeps k (submit_unless b name bytes p).1
unfolding submit_unless begin_register
unless-Keeps true name bytes h = h
unless-Keeps false name bytes h = record { same_id = h.same_id; cookies = h.cookies }

step-Keeps :
    (e : RegisterEvent) {k : Cookies} {p : RegisterPage}
    → Keeps k p
    → Keeps (kept_after e k) (register_step e p)
unfolding register_step settle_submit settle_register handle_submit poll handle_forget
    begin_register answer kept_after
step-Keeps (edits name) h = record { same_id = h.same_id; cookies = h.cookies }
step-Keeps returns h = record { same_id = h.same_id; cookies = h.cookies }
step-Keeps (returned r accepted) h = record { same_id = refl; cookies = refl }
step-Keeps (returned r (refused m)) h = record { same_id = h.same_id; cookies = h.cookies }
step-Keeps (returned r (unreachable m)) h = record { same_id = h.same_id; cookies = h.cookies }
step-Keeps (submits bytes) {p} h = unless-Keeps (is_nil (trim p.name)) (trim p.name) bytes h
step-Keeps (submitted r accepted) h = record { same_id = refl; cookies = refl }
step-Keeps (submitted r (refused m)) h = record { same_id = h.same_id; cookies = h.cookies }
step-Keeps (submitted r (unreachable m)) h = record { same_id = h.same_id; cookies = h.cookies }
step-Keeps (polls true missing) h = h
step-Keeps (polls true failed) h = h
step-Keeps (polls true (config status slug)) h = h
step-Keeps (polls false missing) h = record { same_id = refl; cookies = refl }
step-Keeps (polls false failed) h = h
step-Keeps (polls false (config status slug)) h = record {
  same_id = h.same_id;
  cookies = h.cookies;
}
step-Keeps forgets h = record { same_id = refl; cookies = refl }

run-Keeps :
    (es : List RegisterEvent) {k : Cookies} {p : RegisterPage}
    → Keeps k p
    → Keeps (kept es k) (register_run es p)
unfolding register_run kept
run-Keeps [] h = h
run-Keeps (e ∷ es) h = run-Keeps es (step-Keeps e h)

opened : (k : Cookies) → Keeps k (open_page k)
unfolding open_page
opened k = record { same_id = refl; cookies = refl }

opens :
    (k : Cookies) → register_view (open_page k) ≡ first_view k.client_id (or_else k.client_name [])
unfolding open_page register_view first_view
opens k = view k.client_id
  where
    view : (id : Option Text) → view_of id (open_page k) ≡ first_view id (or_else k.client_name [])
    view none = refl
    view (some []) = refl
    view (some (c ∷ id)) = refl

same_code :
    (id : Option Text) (name : Text) (p : RegisterPage)
    → shown_code (view_of id p) ≡ shown_code (first_view id name)
unfolding view_of first_view
same_code none name p = refl
same_code (some []) name p = refl
same_code (some (c ∷ id)) name p = refl

-- Whatever happens on the page, and in whatever order, loading it again shows the form for a name or
-- the pairing code as it did before, with the name of the last registration that was accepted and not
-- forgotten or found missing since, with no error, and with the code as not rejected until the next
-- poll.
pub reload-register_view :
    (es : List RegisterEvent) (k : Cookies)
    → (register_view (open_page (register_run es (open_page k)).cookies)
        ≡ first_view (kept es k).client_id (or_else (kept es k).client_name []))
      × (shown_code (register_view (register_run es (open_page k)))
          ≡ shown_code (register_view (open_page (register_run es (open_page k)).cookies)))
unfolding register_view
reload-register_view es k =
    let p = register_run es (open_page k) in
    let h = run-Keeps es (opened k) in
    let again = ap (λ c. register_view (open_page c)) h.cookies ∙ opens (kept es k) in
    (
      again,
      ap (λ id. shown_code (view_of id p)) h.same_id
          ∙ same_code (kept es k).client_id (or_else (kept es k).client_name []) p
          ∙ sym (ap shown_code again),
    )

-- Forgetting the device while a registration is under way does not last: when the server then accepts
-- it, the page shows its pairing code again, with no name, and the cookies have it.
pub forget_undone :
    (r : Registration) (p : RegisterPage)
    → r.id ≢ []
    → (register_view (settle_register r accepted (handle_forget p)) ≡ code_card r.id [] false)
      × ((settle_register r accepted (handle_forget p)).cookies.client_id ≡ some r.id)
unfolding register_view settle_register handle_forget
forget_undone r p h = (shown r.id h, refl)
  where
    shown :
        (id : Text)
        → id ≢ []
        → view_of (some id) (settle_register r accepted (handle_forget p)) ≡ code_card id [] false
    shown [] h = absurd (h refl)
    shown (c ∷ id) h = refl
