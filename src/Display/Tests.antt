-- ===== src/Display/Tests.antt =====
-- Runs of the display's functions at concrete inputs.
use mullet.Base.{
  ℕ, ◌+◌, ◌*◌, ◌≤◌, true, false, codes, Text, none, some, List, [], ◌∷◌, ◌++◌, All, ◌≡◌, ◌≢◌, ◌↔◌,
  refl, inr, arith, split, trim, join,
}
use mullet.Base.Ints.{pos}
use mullet.Theme.Tokens.{default_theme, merge}
use mullet.Theme.Backgrounds.{parse_background_images, images_key}
use mullet.Theme.Json.{end}
use mullet.Plugins.Registry.{get_ui_plugin}
use mullet.Display.{CardLayout, ScreenLayout, DisplayLayout, RawLayout}
use mullet.Display.Layout.{
  Poll, Answer, Response, LoadError, found, failed, missing, complete, BringsNone, run-layout_found,
  live,
}
use mullet.Display.Layout
use mullet.Display.Night.{
  parse_hhmm, minutes_of, print_hhmm, is_night_mode_active, within, night_active, InNight,
  night_iff,
}
use mullet.Display.Rotation.{rotation_ms, rotate, rotate_times, shown_screen, rotation_shows_all}
use mullet.Display.Grid.{
  row_count, rows_from, grid_style, grid_template, screen_theme, FitsRows, row_count_exact,
}
use mullet.Display.Card.{display_card, card_header, card_theme, unknown}
use mullet.Display.Slides.{
  SlideEvent, slides, play, open_slideshow, change, advance, active_slide, layer_images,
  play-active,
}
use mullet.Display.ShapeData.{
  Reply, rows, refused, lost, stale, query_ids, ShapeState, run-latest, load_same,
}
use mullet.Display.ShapeData
use mullet.Display.App.{
  Kiosk, answer, rotation, clock, showing, view, view_of, step, steps, first_kiosk, view_stays,
  banner_iff_failed, Overlay, Screen, with_layout,
}

abbrev card_at : ℕ → ℕ → CardLayout ℕ
card_at y h = record {
  id = y;
  ui_plugin_id = "mullet-clock";
  data_plugin_instance_id = none;
  data_plugin_instance_ids = none;
  x = 0;
  y = y;
  w = 4;
  h = h;
  config = end;
  theme_override = none;
  header_text = none;
  header_halign = none;
  content_halign = none;
  content_valign = none;
}

abbrev screen : ℕ → ScreenLayout ℕ
screen id = record {
  id = id;
  name = [];
  position = id;
  columns = 8;
  row_height = 60;
  gap = 10;
  cards = card_at 0 3 ∷ card_at 3 2 ∷ [];
  theme_override = none;
}

abbrev layout : DisplayLayout ℕ
layout = record {
  id = 1;
  name = [];
  slug = codes "hall";
  rotation_seconds = pos 15;
  show_top_bar = false;
  show_bottom_bar = true;
  theme = default_theme 1;
  screens = screen 1 ∷ screen 2 ∷ screen 3 ∷ [];
  night_mode_enabled = true;
  night_start = some (codes "22:00");
  night_end = some (codes "07:00");
  night_brightness = 0;
  transitions_enabled = true;
}

abbrev raw : RawLayout ℕ
raw = record { display = layout; raw_theme = none }

abbrev got : Answer ℕ
got = record { cancelled = false; response = found raw }

abbrev down : Answer ℕ
down = record { cancelled = false; response = failed 500 }

night_iff_example : (is_night_mode_active layout 23 30 ≡ true) ↔ InNight layout (23 * 60 + 30)
night_iff_example = night_iff layout 23 30 (omega arith) (omega arith)

wraps_midnight : is_night_mode_active layout 6 59 ≡ true
unfolding is_night_mode_active night_active within parse_hhmm minutes_of
wraps_midnight = refl

prints : print_hhmm 425 ≡ codes "07:05"
unfolding print_hhmm
prints = refl

run-layout_found_example :
    (Layout.run 1 (Layout.start 1) ([] ++ live 1 (found raw) ∷ down ∷ [])).layout
    ≡ some (complete 1 raw)
run-layout_found_example =
    run-layout_found 1 (Layout.start 1) [] (down ∷ []) raw (inr (λ r e. cc), tt)

abbrev kiosk : Kiosk ℕ
kiosk = steps 1 (first_kiosk 1) (answer got ∷ [])

shows : (s : Screen ℕ) × (view kiosk ≡ showing s)
unfolding view view_of steps step with_layout Layout.receive Layout.load
shows = (_, refl)

view_stays_example :
    (t : Screen ℕ) × (view (steps 1 kiosk (answer down ∷ rotation ∷ clock 23 0 ∷ [])) ≡ showing t)
view_stays_example = view_stays 1 kiosk shows.0 (answer down ∷ rotation ∷ clock 23 0 ∷ []) shows.1

shows_down : (s : Screen ℕ) × (view (steps 1 kiosk (answer down ∷ rotation ∷ [])) ≡ showing s)
unfolding view view_of steps step with_layout Layout.receive Layout.load
shows_down = (_, refl)

banner_iff_failed_example : shows_down.0.overlay ≡ some Overlay.reconnecting
banner_iff_failed_example =
    banner_iff_failed 1 kiosk (answer down ∷ rotation ∷ []) shows_down.0 [] [] (failed 500) refl tt
      shows_down.1

rotation_shows_all_example :
    ((s : ScreenLayout ℕ) × (shown_screen layout 4 ≡ some s))
    × ((k : ℕ) × (k ≤ 3) × (shown_screen layout (rotate_times layout k 4) ≡ some (screen 2)))
rotation_shows_all_example = rotation_shows_all layout 4 1 (omega arith) (omega arith)

rotates : rotate_times layout 2 2 ≡ 1
unfolding rotate_times rotate
rotates = refl

interval : rotation_ms layout ≡ some 15000
unfolding rotation_ms
interval = refl

row_count_exact_example :
    (1 ≤ row_count (screen 1))
    × All (FitsRows (grid_template (screen 1))) (screen 1).cards
    × (row_count (screen 1) ≤ 9)
row_count_exact_example =
    row_count_exact (screen 1) 9 (omega arith) (omega arith, (omega arith, tt))

five_rows : (grid_template (screen 1)).rows ≡ 5
unfolding grid_template row_count rows_from
five_rows = refl

unknown_card :
    display_card (λ n. n) (record (card_at 0 2) { ui_plugin_id = "gone" }) (default_theme 1) 60
    ≡ unknown (grid_style (card_at 0 2)) (some 60) "gone"
unfolding display_card get_ui_plugin grid_style
unknown_card = refl

no_header :
    card_header (λ n. n) (card_at 0 2) (card_theme (λ n. n) (default_theme 1) (card_at 0 2)) ≡ none
unfolding card_header card_theme
no_header = refl

inherits : screen_theme (default_theme 1) (screen 1) ≡ default_theme 1
unfolding screen_theme merge
inherits = refl

abbrev edits : List SlideEvent
edits = SlideEvent.tick ∷ SlideEvent.tick ∷ SlideEvent.render (codes "c.jpg") ∷ SlideEvent.tick ∷ []

shows_last :
    active_slide (play (open_slideshow (codes "a.jpg\nb.jpg")) edits) ≡ some (codes "c.jpg")
unfolding active_slide play open_slideshow change advance slides layer_images
    parse_background_images images_key split trim join
shows_last = refl

has_slides : slides (play (open_slideshow (codes "a.jpg\nb.jpg")) edits) ≢ []
unfolding play open_slideshow change advance slides parse_background_images images_key split trim
    join
has_slides e = cc

play-active_example :
    (url : Text) × (active_slide (play (open_slideshow (codes "a.jpg\nb.jpg")) edits) ≡ some url)
play-active_example = play-active (codes "a.jpg\nb.jpg") edits has_slides

-- A row is its own text in brackets.
abbrev write : Text → Text
write t = 91 ∷ t

run-latest_example :
    write
      (ShapeData.run write []
        (ShapeData.start write [])
        ((rows (some (codes "1")) ∷ []) ++ rows (some (codes "2")) ∷ lost ∷ [])).data_rows
    ≡ write (codes "2")
run-latest_example =
    run-latest write [] (rows (some (codes "1")) ∷ []) (lost ∷ []) (some (codes "2")) (λ a e. cc)
      (tt, tt)
