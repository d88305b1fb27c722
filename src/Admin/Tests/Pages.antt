-- ===== src/Admin/Tests/Pages.antt =====
-- The pages of displays and clients at concrete inputs.
use mullet.Base.{
  some_inj, ℕ, codes, true, false, none, some, [], ◌∷◌, length, find, All, ◌==◌, is_some, ◌≡◌, ◌≢◌,
  ◌↔◌, refl, arith,
}
use mullet.Base.Ints.{pos}
use mullet.Designer.{Screen, LayoutMode}
use mullet.Designer.Server.{put_screen}
use mullet.Register.Page.{ClientStatus, open_page, poll, RegisterPage}
use mullet.Admin.Displays.{
  Display, DisplayTheme, add_values, edit_values, display_body, put_display, theme_name,
}
use mullet.Admin.Displays.Laws.{save_display, IsStored, save_display_iff}
use mullet.Admin.Displays.Screens.{
  earlier, later, load_screens, screen_body, rename_screen, move_screen, new_position,
}
use mullet.Admin.Displays.Screens.Order.{
  AreDistinct, IsIncreasing, ids, positions, moved, move_screen_swaps,
}
use mullet.Admin.Displays.Screens.Kept.{put-screen_body}
use mullet.Admin.Clients.{
  Client, ClientDisplay, screen_off, approve_client, client_config, open_approve, reject_body,
  revoke_body, open_edit, edit_body, client_body, update_client, pending_clients, other_clients,
  client_buttons, format_last_seen, LastSeen,
}
use mullet.Admin.Clients.Laws.{approve-poll}

abbrev hall : Display ℕ
hall = record {
  id = 1;
  name = codes "Hall";
  slug = codes "hall";
  theme_id = none;
  rotation_seconds = pos 30;
  show_top_bar = true;
  show_bottom_bar = true;
  night_mode_enabled = false;
  night_start = some (codes "21:00");
  night_end = some (codes "06:00");
  night_brightness = 4;
  transitions_enabled = true;
}

hall-IsStored : IsStored hall
hall-IsStored = record {
  named = λ e. cc;
  addressed = λ e. cc;
  rotation = 29;
  rotates = refl;
  start = λ e. absurd (empty_time e);
  end = λ e. absurd (empty_end e);
}
  where
    empty_time : some (codes "21:00") ≢ some []
    empty_time = λ e. absurd (cc (some_inj (codes "21:00") [] e))

    empty_end : some (codes "06:00") ≢ some []
    empty_end = λ e. absurd (cc (some_inj (codes "06:00") [] e))

save_display_iff_example :
    (save_display hall ≡ some hall)
    ↔ ((is_some hall.night_start ≡ false) × (is_some hall.night_end ≡ false))
save_display_iff_example = save_display_iff hall hall-IsStored

erases_night : save_display hall ≡ some (record hall { night_start = none; night_end = none })
unfolding save_display put_display display_body edit_values
erases_night = refl

abbrev dark : DisplayTheme
dark = record { id = 3; name = codes "Dark"; is_default = true }

picks_default : (add_values {Number = ℕ} 4 (dark ∷ [])).theme_id ≡ some 3
unfolding add_values
picks_default = refl

names_theme : theme_name (λ n. codes "Theme") (dark ∷ []) (some 3) ≡ codes "Dark"
unfolding theme_name
names_theme = refl

abbrev screen : ℕ → ℕ → Screen ℕ
screen id position = record {
  id = id;
  display_id = 1;
  name = codes "Hall";
  position = position;
  columns = 4;
  row_height = 90;
  gap = 12;
  layout_mode = LayoutMode.simple;
  theme_override = none;
  aspect_ratio = some (codes "16:9");
}

one_two_three : AreDistinct (ids (screen 1 0 ∷ screen 2 1 ∷ screen 3 2 ∷ []))
one_two_three = ((λ e. cc, (λ e. cc, tt)), ((λ e. cc, tt), (tt, tt)))

zero_one_two : IsIncreasing (positions (screen 1 0 ∷ screen 2 1 ∷ screen 3 2 ∷ []))
zero_one_two = ((omega arith, (omega arith, tt)), ((omega arith, tt), (tt, tt)))

move_screen_swaps_example :
    (load_screens (move_screen 1 later (screen 1 0 ∷ screen 2 1 ∷ screen 3 2 ∷ []))
      ≡ screen 1 0 ∷ moved 1 (screen 3 2) ∷ moved 2 (screen 2 1) ∷ [])
    × (load_screens (move_screen 2 earlier (screen 1 0 ∷ screen 2 1 ∷ screen 3 2 ∷ []))
        ≡ screen 1 0 ∷ moved 1 (screen 3 2) ∷ moved 2 (screen 2 1) ∷ [])
move_screen_swaps_example =
    move_screen_swaps (screen 1 0 ∷ []) (screen 2 1) (screen 3 2) [] one_two_three zero_one_two

put-screen_body_example :
    put_screen (screen_body (codes "Attic") 5 (screen 1 0)) (screen 1 0)
    ≡ record (screen 1 0) { name = codes "Attic"; position = 5; aspect_ratio = none }
put-screen_body_example = put-screen_body (codes "Attic") 5 (screen 1 0) (omega arith) (omega arith)

renames :
    (rename_screen (codes "Attic") (screen 1 0) (screen 1 0 ∷ []))
    ≡ record (screen 1 0) { name = codes "Attic"; aspect_ratio = none } ∷ []
unfolding rename_screen screen_body put_screen
renames = refl

-- A screen is added to a display from which the first of three was deleted.
collides : new_position (screen 2 1 ∷ screen 3 2 ∷ []) ≡ 2
unfolding new_position
collides = refl

abbrev attic : ClientDisplay
attic = record { id = 4; name = codes "Attic"; slug = codes "attic" }

abbrev client : Client
client = record {
  id = 9;
  client_id = codes "AAA-B9H";
  name = codes "Kitchen";
  display_id = none;
  status = ClientStatus.pending;
  offline_mode = screen_off;
}

abbrev approved : Client
approved = record client { display_id = some 4; status = ClientStatus.approved }

approves : approve_client (attic ∷ []) 4 client ≡ some approved
unfolding approve_client
approves = refl

abbrev page : RegisterPage
page =
    open_page (record { client_id = some (codes "AAA-B9H"); client_name = some (codes "Kitchen") })

addressed : All (λ (d : ClientDisplay). d.slug ≢ []) (attic ∷ [])
addressed = (λ e. cc, tt)

approve-poll_example :
    (d : ClientDisplay) × (find (λ e. e.id == 4) (attic ∷ []) ≡ some d)
    × ((poll false (client_config (attic ∷ []) approved) page).display_slug ≡ some d.slug)
approve-poll_example = approve-poll (attic ∷ []) 4 client approved page approves addressed

revokes : update_client (attic ∷ []) (revoke_body approved) approved ≡ some client
unfolding update_client revoke_body client_body
revokes = refl

rejects :
    update_client [] (reject_body client) client
    ≡ some (record client { status = ClientStatus.rejected })
unfolding update_client reject_body client_body
rejects = refl

edits :
    update_client (attic ∷ []) (edit_body approved (open_edit approved)) approved ≡ some approved
unfolding update_client edit_body open_edit client_body
edits = refl

offers_first : open_approve (attic ∷ []) ≡ some 4
unfolding open_approve
offers_first = refl

splits_clients :
    (pending_clients (client ∷ approved ∷ []) ≡ client ∷ [])
    × (other_clients (client ∷ approved ∷ []) ≡ approved ∷ [])
unfolding pending_clients other_clients
splits_clients = (refl, refl)

seen_hours :
    format_last_seen 7300000 (some (record { text = codes "t"; time = some 0 })) ≡ LastSeen.hours 2
unfolding format_last_seen
seen_hours = refl

two_buttons : length (client_buttons ClientStatus.rejected) ≡ 2
unfolding client_buttons
two_buttons = refl
