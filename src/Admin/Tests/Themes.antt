-- ===== src/Admin/Tests/Themes.antt =====
-- The theme editor, its gradients and its colours at concrete inputs.
use mullet.Base.{
  ℕ, ◌≤◌, codes, none, some, List, [], ◌∷◌, ◌++◌, map, length, trim, join, ◌≡◌, refl, arith, ◌-◌,
}
use mullet.Base.Ints.{pos, negsuc}
use mullet.Widgets.Groups.{sort}
use mullet.Theme.Tokens.{BackgroundType}
use mullet.Admin.Gradient.{
  Stop, split_top_level, sort_stops, stop_text, compose_gradient, fallback_stops, update_stop,
  widest_gap, new_stop_position, add_stop, remove_stop,
}
use mullet.Base.{is_space, strip, trim_start, trim_end}
use mullet.Base.Patterns.{is_line_end, lazy, span_digits}
use mullet.Calendar.Decimal.{value, decimal, decimal-Shows}
use mullet.Admin.Gradient.Parse.{
  parse_gradient, shown_gradient, gradient_match, body_match, before_close, stop_match, stop_tail,
  percent, read_stop, read_stops,
}
use mullet.Admin.Gradient.Parse.Laws.{IsColor}
use mullet.Admin.Gradient.Parse.RoundTrip.{parse_gradient-compose_gradient}
use mullet.Admin.Gradient.Gaps.{AreNeighbours, HasGaps, new_stop_position-between}
use mullet.Admin.ThemeEditor.{
  all_fields, primary_fields, secondary_fields, images_with, add_images, change_type,
}
use mullet.Admin.Colors.{rgb_to_hex, hex_to_rgb}

abbrev stops : List Stop
stops =
    record { color = codes "#fff"; position = 100 }
    ∷ record { color = codes "rgba(0, 0, 0, 0.5)"; position = 0 }
    ∷ record { color = codes "#888"; position = 30 }
    ∷ []

new_stop_position-between_example :
    (a b : ℕ) × AreNeighbours a b (map (λ s. s.position) (sort_stops stops))
    × HasGaps (some (b - a)) (map (λ s. s.position) (sort_stops stops))
    × ((a ≤ new_stop_position stops) × (new_stop_position stops ≤ b))
new_stop_position-between_example = new_stop_position-between stops (omega arith)

adds_at_65 : new_stop_position stops ≡ 65
unfolding new_stop_position widest_gap sort_stops sort
adds_at_65 = refl

adds_fourth : length (add_stop stops) ≡ 4
unfolding add_stop
adds_fourth = refl

keeps_two : remove_stop 0 fallback_stops ≡ fallback_stops
unfolding remove_stop fallback_stops
keeps_two = refl

moves_first :
    map
      (λ (s : Stop). s.position)
      (update_stop 0 (record { color = none; position = some 90 }) stops)
    ≡ 90 ∷ 0 ∷ 30 ∷ []
unfolding update_stop
moves_first = refl

abbrev number_reads : (n : ℕ) → value (decimal n) ≡ n
number_reads n = (decimal-Shows n).stands

white : IsColor (codes "#fff")
unfolding is_space is_line_end
white = record { closed = refl; starts = refl; ends = refl; line = refl; filled = λ e. cc }

black : IsColor (codes "rgba(0, 0, 0, 0.5)")
unfolding is_space is_line_end
black = record { closed = refl; starts = refl; ends = refl; line = refl; filled = λ e. cc }

gray : IsColor (codes "#888")
unfolding is_space is_line_end
gray = record { closed = refl; starts = refl; ends = refl; line = refl; filled = λ e. cc }

parse_gradient-compose_gradient_example :
    parse_gradient value (compose_gradient decimal 160 stops)
    ≡ some (record {
      angle = 160;
      stops =
          record { color = codes "rgba(0, 0, 0, 0.5)"; position = 0 }
          ∷ record { color = codes "#888"; position = 30 }
          ∷ record { color = codes "#fff"; position = 100 }
          ∷ [];
    })
unfolding sort_stops sort
parse_gradient-compose_gradient_example =
    parse_gradient-compose_gradient value (λ n. n) number_reads 160 stops (omega arith)
      (white, (black, (gray, tt)))

-- A color that is cleared leaves a text that is not read, and the fallback is shown in its place.
cleared_color :
    (shown_gradient value (
      compose_gradient decimal 90
        (update_stop 0 (record { color = some []; position = none }) stops))).angle
    ≡ 160
unfolding shown_gradient parse_gradient gradient_match strip compose_gradient span_digits trim_start
    decimal body_match before_close trim_end sort update_stop is_line_end read_stops split_top_level
    read_stop stop_match trim percent stop_tail fallback_stops sort_stops stop_text lazy is_space
cleared_color = refl

composes :
    compose_gradient (λ n. codes "9") 160 fallback_stops
    ≡ codes "linear-gradient(9deg, #0b0f14 9%, #1b2740 9%)"
unfolding compose_gradient stop_text sort_stops fallback_stops sort
composes = refl

replaces_solid :
    (add_images
      (some (record { type = BackgroundType.solid; value = codes "#000" }))
      (codes "/b.png" ∷ [])).value
    ≡ codes "/b.png"
unfolding add_images images_with join trim
replaces_solid = refl

starts_gradient :
    (change_type BackgroundType.gradient
      (some (record { type = BackgroundType.solid; value = codes "#000" }))).value
    ≡ codes "linear-gradient(160deg, #000 0%, #1b2740 100%)"
unfolding change_type
starts_gradient = refl

counts_fields : length all_fields ≡ length (primary_fields ++ secondary_fields)
unfolding all_fields primary_fields secondary_fields
counts_fields = refl

writes_hex : rgb_to_hex (pos 255) (negsuc 4) (pos 10) ≡ codes "#ff000a"
unfolding rgb_to_hex
writes_hex = refl

reads_hex : hex_to_rgb (codes "#Ff000a") ≡ (some 255, some 0, some 10)
unfolding hex_to_rgb
reads_hex = refl
