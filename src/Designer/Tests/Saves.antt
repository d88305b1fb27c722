-- ===== src/Designer/Tests/Saves.antt =====
-- The designer's actions and the discovery of options at concrete inputs.
use mullet.Base.{
  ℕ, ◌≤◌, codes, true, false, none, some, List, [], ◌∷◌, All, ◌≡◌, ◌≢◌, ◌↔◌, ◌⊎◌, refl, arith,
}
use mullet.Theme.Json.{end}
use mullet.Designer.{Card, Screen, LayoutMode, PluginInstance}
use mullet.Designer.SaveStatus.{saved, error, first_saving, fail}
use mullet.Designer.Saves.{
  Reply, refused, Loaded, Page, load, handle_delete_card, data_source_label, done, page_of,
  create_card, handle_save_card_settings, with_save_status, api_fetch, or_throw, reload,
  actions_saved_iff,
}
use mullet.Designer.Discovery.{no_options, choose, Answer, receive, receive_all}

abbrev screen : Screen ℕ
screen = record {
  id = 1;
  display_id = 1;
  name = codes "Hall";
  position = 0;
  columns = 4;
  row_height = 90;
  gap = 12;
  layout_mode = LayoutMode.simple;
  theme_override = none;
  aspect_ratio = none;
}

abbrev card : Card ℕ
card = record {
  id = 5;
  screen_id = 1;
  ui_plugin_id = "mullet-clock";
  data_plugin_instance_id = some 4;
  data_plugin_instance_ids = some (4 ∷ 7 ∷ []);
  x = 0;
  y = 0;
  w = 3;
  h = 2;
  config = end;
  theme_override = none;
  header_text = none;
  header_halign = none;
  content_halign = none;
  content_valign = none;
}

abbrev loaded : Loaded ℕ
loaded = record { screens = screen ∷ []; screen = screen; cards = card ∷ [] }

abbrev page : Page ℕ
page = record {
  saving = first_saving;
  screens = screen ∷ [];
  screen = some screen;
  cards = card ∷ [];
  loading = false;
  selected_card_id = some 5;
}

actions_saved_iff_example :
    (((page_of (create_card (refused (codes "no")) (some loaded) page)).saving.status ≡ saved)
      ↔ ((refused (codes "no") ≢ Reply.lost) × (some loaded ≢ none)))
    × (((page_of
            (handle_delete_card true 5 (refused (codes "no")) (some loaded) page)).saving.status
          ≡ saved)
        ↔ ((refused (codes "no") ≢ Reply.lost) × (some loaded ≢ none)))
    × (((page_of
            (handle_save_card_settings (refused (codes "no")) (some loaded) page)).saving.status
          ≡ saved)
        ↔ ((refused (codes "no") ≡ Reply.ok) × (some loaded ≢ none)))
    × ((refused (codes "no") ≡ Reply.ok)
        ⊎ ((page_of (
              handle_save_card_settings (refused (codes "no")) (some loaded) page)).selected_card_id
            ≡ page.selected_card_id))
actions_saved_iff_example = actions_saved_iff 5 (refused (codes "no")) (some loaded) page

deletes : (page_of (handle_delete_card true 5 Reply.ok (some loaded) page)).selected_card_id ≡ none
unfolding handle_delete_card with_save_status api_fetch reload load
deletes = refl

says_error :
    (page_of (handle_save_card_settings (refused (codes "no")) (some loaded) page)).saving.status
    ≡ error
unfolding handle_save_card_settings with_save_status api_fetch or_throw fail
says_error = refl

asks_first : handle_delete_card false 5 Reply.ok (some loaded) page ≡ done page
unfolding handle_delete_card
asks_first = refl

abbrev weather : PluginInstance
weather = record { id = 4; plugin_id = "weather"; instance_name = codes "Weather" }

labels_sources : data_source_label card (weather ∷ []) ≡ codes "Weather, Unknown source"
unfolding data_source_label
labels_sources = refl

abbrev answers : List Answer
answers = record { run = 1; key = "entity"; options = some [] } ∷ []

sent_before : All (λ (a : Answer). a.run ≤ (choose ("entity" ∷ []) (some 4) no_options).run) answers
unfolding choose
sent_before = (omega arith, tt)

settles :
    (receive_all (choose ("entity" ∷ []) (some 4) no_options) answers).loading "entity" ≡ false
unfolding receive_all receive choose
settles = refl
