-- ===== src/Register/Tests.antt =====
-- The registration page at concrete inputs.
use mullet.Base.{codes, or_else, true, false, none, some, List, [], ◌∷◌, ◌≡◌, ◌≢◌, refl, trim}
use mullet.Register.Pairing.{Bytes, generate_client_id, pairing_char, pairing_charset}
use mullet.Register.Page.{
  Cookies, Registration, ClientStatus, accepted, missing, config, RegisterEvent, edits, submits,
  submitted, polls, code_card, name_form, open_page, first_request, handle_submit, submit_unless,
  begin_register, settle_submit, settle_register, poll, answer, goes_to, register_view, view_of,
  register_step, register_run,
}
use mullet.Register.Page.Laws.{kept, first_view, shown_code, reload-register_view}

abbrev zeros : Bytes
zeros = record { b0 = 0; b1 = 31; b2 = 62; b3 = 1; b4 = 30; b5 = 255 }

makes_id : generate_client_id zeros ≡ codes "AAA-B9H"
unfolding generate_client_id pairing_char pairing_charset
makes_id = refl

abbrev no_cookies : Cookies
no_cookies = record { client_id = none; client_name = none }

abbrev kitchen : Registration
kitchen = record { id = codes "AAA-B9H"; display_name = codes "Kitchen" }

abbrev events : List RegisterEvent
events =
    edits (codes " Kitchen ")
    ∷ submits zeros
    ∷ submitted kitchen accepted
    ∷ polls false (config ClientStatus.rejected none)
    ∷ []

sends_trimmed :
    (handle_submit zeros (register_step (edits (codes " Kitchen ")) (open_page no_cookies))).0
    ≡ some kitchen
unfolding handle_submit submit_unless register_step open_page generate_client_id pairing_char
    pairing_charset trim
sends_trimmed = refl

ends_rejected :
    register_view (register_run events (open_page no_cookies))
    ≡ code_card (codes "AAA-B9H") (codes " Kitchen ") true
unfolding register_run register_step open_page handle_submit submit_unless begin_register
    settle_submit settle_register poll answer goes_to register_view view_of trim
ends_rejected = refl

goes_to_display :
    (poll false
      (config ClientStatus.approved (some (codes "hall")))
      (open_page no_cookies)).display_slug
    ≡ some (codes "hall")
unfolding poll answer goes_to open_page
goes_to_display = refl

asks_name_again :
    register_view (poll false missing (register_run events (open_page no_cookies)))
    ≡ name_form none (codes " Kitchen ") false
unfolding register_run register_step open_page handle_submit submit_unless begin_register
    settle_submit settle_register poll answer goes_to register_view view_of trim
asks_name_again = refl

sends_again :
    first_request
      (open_page (record { client_id = some (codes "A"); client_name = some (codes "K") }))
    ≡ some (record { id = codes "A"; display_name = codes "K" })
unfolding first_request open_page
sends_again = refl

reload-register_view_example :
    (register_view (open_page (register_run events (open_page no_cookies)).cookies)
      ≡ first_view
          (kept events no_cookies).client_id
          (or_else (kept events no_cookies).client_name []))
    × (shown_code (register_view (register_run events (open_page no_cookies)))
        ≡ shown_code
            (register_view (open_page (register_run events (open_page no_cookies)).cookies)))
reload-register_view_example = reload-register_view events no_cookies

kitchen_id : kitchen.id ≢ []
kitchen_id = λ e. cc
