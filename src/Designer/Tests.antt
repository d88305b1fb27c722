-- ===== src/Designer/Tests.antt =====
-- Runs of the designer's functions at concrete inputs.
mod Saves
use mullet.Base.{
  ℕ, ◌≤◌, true, false, codes, none, some, List, [], ◌∷◌, map, any, All, ◌≡◌, ◌↔◌, refl, arith, ◌==◌,
}
use mullet.Base.Ints.{pos, negsuc}
use mullet.Theme.Tokens.{no_tokens}
use mullet.Theme.Json.{end}
use mullet.Plugins.Contract.{UiPlugin}
use mullet.Plugins.Registry.{get_ui_plugin}
use mullet.Plugins.Registry.Time.{clock_plugin, countdown_plugin}
use mullet.Display.{Halign, Valign}
use mullet.Display.Card.{body_style}
use mullet.Designer.{Card, Screen, ScreenBody, LayoutMode}
use mullet.Designer.Presets.{
  SizePreset, small, medium, large, ArePresets, preset_size, preset_size-ArePresets, active_preset,
  is_undersized, undersized_card_count, clamp_to_grid, active_preset_after_resize,
}
use mullet.Designer.Positions.{
  LayoutItem, layout_of, card_of, is_changed, moved, place, position_body, resize_body,
  persist_positions, requests, cleared, move_clears,
}
use mullet.Designer.Positions.Idempotent.{DistinctIds, persist_positions_settles}
use mullet.Designer.Server.{put_card, put_screen}
use mullet.Designer.Placement.{
  NewCard, palette_double_click, drag_size, bottom_from, size_for, IsApart,
  palette_double_click-IsApart,
}
use mullet.Designer.SaveStatus.{
  Status, idle, saving, Saving, begin, succeed, fail, expire, clear, first_saving, Step, Reach,
  saving_iff_in_flight, overlapped, overlap_hides_saving,
}
use mullet.Designer.Screens.{
  GridDraft, nan, whole, toggle_layout_mode, change_aspect_ratio, grid_draft_blur,
  save_screen_settings, draft_of, HasGrid, toggled, regridded, toggle_twice, settings_keep,
  grid_draft_blur_stored, grid_draft_blur-draft_of,
}
use mullet.Designer.Settings.{CardForm, open_settings, compatible_instances, schema_of}
use mullet.Designer.Settings.Laws
use mullet.Designer.Settings.Again.{HasDistinctKeys, untouched, save_settles}

abbrev the : ℕ → ℕ
the n = n

abbrev clock : UiPlugin ℕ
clock = clock_plugin the

abbrev card : ℕ → ℕ → Card ℕ
card id y = record {
  id = id;
  screen_id = 1;
  ui_plugin_id = "mullet-clock";
  data_plugin_instance_id = some 4;
  data_plugin_instance_ids = none;
  x = 0;
  y = y;
  w = 3;
  h = 2;
  config = end;
  theme_override = none;
  header_text = some (codes "Hall");
  header_halign = none;
  content_halign = some Halign.left;
  content_valign = none;
}

abbrev cards : List (Card ℕ)
cards = card 1 0 ∷ card 2 2 ∷ []

abbrev screen : Screen ℕ
screen = record {
  id = 1;
  display_id = 1;
  name = codes "Hall";
  position = 0;
  columns = 4;
  row_height = 90;
  gap = 12;
  layout_mode = LayoutMode.simple;
  theme_override = none;
  aspect_ratio = none;
}

abbrev item : ℕ → ℕ → LayoutItem
item id y = record { i = id; x = 1; y = y; w = 3; h = 2 }

-- The first card below the second.
abbrev dragged : List LayoutItem
dragged = item 1 2 ∷ item 2 0 ∷ []

finds_clock : get_ui_plugin the "mullet-clock" ≡ some clock
unfolding get_ui_plugin
finds_clock = refl

not_undersized : is_undersized (some clock) 3 2 ≡ false
unfolding is_undersized
not_undersized = refl

counts_undersized : undersized_card_count the (some (codes "16:9")) false (card 1 0 ∷ []) ≡ 0
unfolding undersized_card_count is_undersized get_ui_plugin
counts_undersized = refl

dragged-DistinctIds : DistinctIds dragged
dragged-DistinctIds = ((λ e. cc, tt), (tt, tt))

persist_positions_settles_example :
    (persist_positions (map (moved dragged) cards) dragged ≡ none)
    × ((c : Card ℕ) (there : LayoutItem) → place (moved dragged c) there ≡ place c there)
persist_positions_settles_example = persist_positions_settles cards dragged dragged-DistinctIds

sends_both :
    persist_positions cards dragged
    ≡ some (
      map (moved dragged) cards,
      (1, position_body (card 1 0) (item 1 2)) ∷ (2, position_body (card 2 2) (item 2 0)) ∷ [],
    )
unfolding persist_positions requests is_changed card_of moved
sends_both = refl

keeps_layout : layout_of (card 1 0 ∷ []) ≡ record { i = 1; x = 0; y = 0; w = 3; h = 2 } ∷ []
unfolding layout_of
keeps_layout = refl

abbrev new_clock : NewCard
new_clock = record { ui_plugin_id = "mullet-clock"; x = 0; y = 4; w = 3; h = 2 }

places : palette_double_click the (some screen) cards "mullet-clock" ≡ some new_clock
unfolding palette_double_click bottom_from size_for preset_size clamp_to_grid get_ui_plugin
places = refl

palette_double_click-IsApart_example :
    (new_clock.x ≡ 0) × All (IsApart new_clock) cards × (new_clock.y ≤ 9)
palette_double_click-IsApart_example =
    palette_double_click-IsApart the screen cards "mullet-clock" new_clock 9 places
      (omega arith, (omega arith, tt))

leaves_size :
    drag_size the (record screen { layout_mode = LayoutMode.freeform }) (some "mullet-clock") ≡ none
unfolding drag_size
leaves_size = refl

abbrev one_save : Saving
one_save = begin first_saving

one_save-Reach : Reach one_save
one_save-Reach = Reach.next Reach.here (Step.begins refl)

saving_iff_in_flight_example : (one_save.status ≡ saving) ↔ (one_save.in_flight ≡ 1)
saving_iff_in_flight_example = saving_iff_in_flight one_save one_save-Reach

fails_visibly : (fail (begin first_saving)).status ≡ Status.error
unfolding fail begin clear
fails_visibly = refl

succeeds_then_idle : (expire 0 (succeed (begin first_saving))).running ≡ []
unfolding expire succeed begin clear
succeeds_then_idle = refl

abbrev draft : GridDraft
draft = record { columns = nan; row_height = whole (negsuc 4); gap = whole (pos 0) }

abbrev least : ScreenBody ℕ
least = record {
  name = codes "Hall";
  position = 0;
  layout_mode = LayoutMode.simple;
  columns = 1;
  row_height = 1;
  gap = 0;
  theme_override = none;
  aspect_ratio = none;
}

commits : grid_draft_blur draft screen ≡ some least
unfolding grid_draft_blur
commits = refl

switches : (toggle_layout_mode screen).columns ≡ 8
unfolding toggle_layout_mode
switches = refl

abbrev form : CardForm ℕ
form = record {
  data_plugin_instance_id = some 7;
  data_plugin_instance_ids = [];
  config_values = end;
  override_enabled = false;
  theme_override = no_tokens;
  header_text = codes " Hall ";
  header_halign = Halign.left;
  content_halign = Halign.center;
  content_valign = Valign.top;
}

save_untouched_example :
    Laws.KeepsShown
      (card 1 0)
      (Laws.saved (some clock) (open_settings (some clock) (card 1 0)) (card 1 0))
save_untouched_example = Laws.save_untouched (some clock) (card 1 0) tt

abbrev countdown : UiPlugin ℕ
countdown = countdown_plugin the

countdown-HasDistinctKeys : HasDistinctKeys (schema_of (some countdown))
countdown-HasDistinctKeys = ((λ e. cc, tt), (tt, tt))

save_settles_example :
    untouched (some countdown) (untouched (some countdown) (card 1 0))
    ≡ untouched (some countdown) (card 1 0)
save_settles_example = save_settles (some countdown) (card 1 0) countdown-HasDistinctKeys tt

none_for_clock : compatible_instances (some clock) [] [] ≡ []
unfolding compatible_instances
none_for_clock = refl
