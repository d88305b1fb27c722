-- ===== src/Admin/Gradient/Parse/RoundTrip.antt =====
-- `parseGradient` against `composeGradient` of GradientStopEditor.tsx.
use mullet.Base.{
  ℕ, Text, codes, true, some, List, [], ◌∷◌, ◌++◌, map, length, leb, All, All-append, strip,
  trim_start, is_space, StartsClean, trim_start_of_StartsClean, trim_end_of_EndsClean,
  EndsClean-append, ◌≡◌, ◌≢◌, ◌≤◌, refl, arith,
}
use mullet.Base.Sorts.{sort_by-All, length-sort_by}
use mullet.Base.Patterns.{is_line_end, span_digits-append, is_digit_or_dot}
use mullet.Calendar.Decimal.{decimal, decimal-Shows}
use mullet.Widgets.Groups.{sort}
use mullet.Admin.Gradient.{Stop, sort_stops, stop_text, join_parts, compose_gradient}
use mullet.Admin.Gradient.Split.{IsPart, split_top_level-join}
use mullet.Admin.Gradient.Parse.{
  filled_run, before_close, body_match, gradient_match, ReadStop, read_stop, read_stops,
  parse_gradient,
}
use mullet.Admin.Gradient.Parse.Laws.{
  IsLine, IsColor, any-IsLine, StartsClean-append, digits-StartsClean, digits-read, color-trimmed,
  stop_match-stop_text, stop_text-Starts, stop_text-IsPart, stop_text-IsLine, append-filled,
}

before_close-found : (s : Text) → before_close (s ++ codes ")") ≡ some s
unfolding before_close
before_close-found [] = refl
before_close-found (c ∷ []) = refl
before_close-found (c ∷ d ∷ s) = rw (before_close-found (d ∷ s)) refl

body_match-found : (body : Text) → IsLine body → body_match (body ++ codes ")") ≡ some body
unfolding body_match is_space
body_match-found body h =
    rw
      (
        trim_end_of_EndsClean (body ++ codes ")") (EndsClean-append body 41 [] refl),
        before_close-found body,
        any-IsLine body h,
      )
      refl

filled_run-found : (d rest : Text) → d ≢ [] → filled_run (d, rest) ≡ some (d, rest)
filled_run-found [] rest n = absurd (n refl)
filled_run-found (c ∷ d) rest n = refl

gradient_match-found :
    (angle : ℕ) (body : Text)
    → IsLine body
    → StartsClean (body ++ codes ")")
    → gradient_match
        (codes "linear-gradient(" ++ (decimal angle ++ (codes "deg, " ++ (body ++ codes ")"))))
      ≡ some (decimal angle, body)
unfolding gradient_match strip trim_start is_space is_digit_or_dot
gradient_match-found angle body h k =
    let shows = decimal-Shows angle in
    let d = decimal angle in
    let rest = codes "deg, " ++ (body ++ codes ")") in
    rw
      (
        trim_start_of_StartsClean (d ++ rest)
            (StartsClean-append d rest shows.filled (digits-StartsClean d shows.digits)),
        span_digits-append d 100 (codes "eg, " ++ (body ++ codes ")")) (digits-read d shows.digits)
            refl,
        filled_run-found d rest shows.filled,
        trim_start_of_StartsClean (body ++ codes ")") k,
        body_match-found body h,
      )
      refl

join_parts-IsLine : (ps : List Text) → All IsLine ps → IsLine (join_parts ps)
unfolding is_line_end
join_parts-IsLine [] _ = tt
join_parts-IsLine (p ∷ []) (h, _) = h
join_parts-IsLine (p ∷ q ∷ ps) (h, hs) =
    All-append _ p (codes ", " ++ join_parts (q ∷ ps)) h
      (refl, (refl, join_parts-IsLine (q ∷ ps) hs))

-- A text that is not empty and starts with no white space.
abbrev Starts : Text → Type 0
Starts p = (p ≢ []) × StartsClean p

join_parts-Starts : (p : Text) (ps : List Text) → Starts p → Starts (join_parts (p ∷ ps))
join_parts-Starts p [] h = h
join_parts-Starts p (q ∷ ps) (n, h) =
    let rest = codes ", " ++ join_parts (q ∷ ps) in
    (append-filled p rest n, StartsClean-append p rest n h)

closed-StartsClean : (ps : List Text) → All Starts ps → StartsClean (join_parts ps ++ codes ")")
unfolding is_space
closed-StartsClean [] _ = refl
closed-StartsClean (p ∷ ps) (h, _) =
    let (n, k) = join_parts-Starts p ps h in
    StartsClean-append (join_parts (p ∷ ps)) (codes ")") n k

-- The texts of stops.
abbrev HasColor : Stop → Type 0
HasColor s = IsColor s.color

texts-All :
    (P : Text → Type 0)
    → ((s : Stop) → HasColor s → P (stop_text decimal s))
    → (stops : List Stop) → All HasColor stops
    → All P (map (stop_text decimal) stops)
texts-All P f [] _ = tt
texts-All P f (s ∷ stops) (h, hs) = (f s h, texts-All P f stops hs)

module _ {N : Type 0} (number : Text → N) (of : ℕ → N)
    (reads : (n : ℕ) → number (decimal n) ≡ of n) where
  abbrev pub as_read : Stop → ReadStop N
  as_read s = record { color = s.color; position = of s.position }

  read_stop-stop_text :
      (s : Stop) → HasColor s → read_stop number (stop_text decimal s) ≡ some (as_read s)
  unfolding read_stop
  read_stop-stop_text s h =
      rw (stop_match-stop_text s h, color-trimmed s.color h, reads s.position) refl

  read_stops-texts :
      (stops : List Stop)
      → All HasColor stops
      → read_stops number (map (stop_text decimal) stops) ≡ some (map as_read stops)
  unfolding read_stops
  read_stops-texts [] _ = refl
  read_stops-texts (s ∷ stops) (h, hs) =
      rw (read_stop-stop_text s h, read_stops-texts stops hs) refl

  length-as_read : (stops : List Stop) → length (map as_read stops) ≡ length stops
  length-as_read [] = refl
  length-as_read (s ∷ stops) = omega (arith, length-as_read stops)

  -- A gradient that the editor has composed of two or more stops is read back as its angle and its
  -- stops, sorted by their positions, where each color is trimmed, not empty, on one line and with its
  -- commas in parentheses that close, and `Number` reads the text of a whole number as that number.
  pub parse_gradient-compose_gradient :
      (angle : ℕ) (stops : List Stop)
      → 2 ≤ length stops
      → All HasColor stops
      → parse_gradient number (compose_gradient decimal angle stops)
        ≡ some (record { angle = of angle; stops = map as_read (sort_stops stops) })
  unfolding parse_gradient compose_gradient sort_stops sort
  parse_gradient-compose_gradient angle stops two colors =
      let sorted = sort_stops stops in
      let kept : All HasColor sorted = sort_by-All _ HasColor stops colors in
      let texts = map (stop_text decimal) sorted in
      let count : length sorted ≡ length stops = length-sort_by _ stops in
      let enough : leb 2 (length (map as_read sorted)) ≡ true =
        ground (arith, length-as_read sorted, count) in
      rw
        (
          gradient_match-found angle (join_parts texts)
              (join_parts-IsLine texts (texts-All IsLine stop_text-IsLine sorted kept))
              (closed-StartsClean texts (texts-All Starts stop_text-Starts sorted kept)),
          split_top_level-join texts (texts-All IsPart stop_text-IsPart sorted kept),
          read_stops-texts sorted kept,
          enough,
          reads angle,
        )
        refl
