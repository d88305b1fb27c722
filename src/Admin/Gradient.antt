-- ===== src/Admin/Gradient.antt =====
-- admin/components/GradientStopEditor.tsx: the stops of a gradient, what the buttons do to them, and
-- the text that is composed of them. Positions are whole numbers, as the sliders give them.
use mullet.Base.{
  ℕ, zero, suc, ◌+◌, ◌-◌, ◌/◌, Text, codes, Bool, true, false, not, ◌&&◌, Option, none, some, List,
  [], ◌∷◌, ◌++◌, map, length, is_nil, leb, ltb, trim, if◌then◌else◌, ◌==◌,
}
use mullet.Base.Ints.{ℤ, pos, negsuc}
use mullet.Widgets.Groups.{sort}
pub mod Split
pub mod Gaps
pub mod Parse

pub record Stop : Type 0 where
  pub color : Text
  pub position : ℕ

abbrev inc : ℤ → ℤ
inc (pos n) = pos (suc n)
inc (negsuc zero) = pos 0
inc (negsuc (suc n)) = negsuc n

abbrev dec : ℤ → ℤ
dec (pos zero) = negsuc 0
dec (pos (suc n)) = pos n
dec (negsuc n) = negsuc (suc n)

abbrev is_zero : ℤ → Bool
is_zero (pos n) = n == 0
is_zero (negsuc n) = false

-- The depth after a unit: `(` and `)` are 40 and 41.
abbrev deepen : ℤ → ℕ → ℤ
deepen d c = if c == 40 then inc d else if c == 41 then dec d else d

-- Whether a unit is a comma outside every pair of parentheses.
abbrev cuts : ℤ → ℕ → Bool
cuts d c = c == 44 && is_zero d

last_part : Text → List Text
last_part [] = []
last_part (c ∷ t) = (c ∷ t) ∷ []

-- The loop, with the depth and the part that is read.
split_from : ℤ → Text → Text → List Text
unfolding last_part
split_from d current [] = last_part (trim current)
split_from d current (c ∷ value) =
    let cut = split_from (deepen d c) [] value in
    let rest = split_from (deepen d c) (current ++ c ∷ []) value in
    if cuts (deepen d c) c then trim current ∷ cut else rest

unfoldable pub split_top_level : Text → List Text
unfolding split_from
split_top_level value = split_from (pos 0) [] value

-- `[...stops].sort((a, b) => a.position - b.position)`
unfoldable pub sort_stops : List Stop → List Stop
sort_stops stops = sort (λ s. pos s.position) stops

-- `parts.join(', ')`
abbrev pub join_parts : List Text → Text
join_parts [] = []
join_parts (p ∷ []) = p
join_parts (p ∷ q ∷ ps) = p ++ (codes ", " ++ join_parts (q ∷ ps))

-- `digits` writes a number, as a template literal does.
unfoldable pub stop_text : (ℕ → Text) → Stop → Text
stop_text digits s = s.color ++ (codes " " ++ (digits s.position ++ codes "%"))

unfoldable pub compose_gradient : (ℕ → Text) → ℕ → List Stop → Text
unfolding sort_stops stop_text
compose_gradient digits angle stops =
    codes "linear-gradient("
    ++ (digits angle
        ++ (codes "deg, " ++ (join_parts (map (stop_text digits) (sort_stops stops)) ++ codes ")")))

unfoldable pub fallback_stops : List Stop
fallback_stops =
    record { color = codes "#0b0f14"; position = 0 }
    ∷ record { color = codes "#1b2740"; position = 100 }
    ∷ []

-- `updateStop`, where a field of the patch that is none is not in it.
pub record StopPatch : Type 0 where
  pub color : Option Text
  pub position : Option ℕ

patched : Option Text → Option ℕ → Stop → Stop
patched none none s = s
patched (some c) none s = record s { color = c }
patched none (some p) s = record s { position = p }
patched (some c) (some p) s = record { color = c; position = p }

unfoldable pub update_stop : ℕ → StopPatch → List Stop → List Stop
unfolding patched
update_stop i p [] = []
update_stop zero p (s ∷ stops) = patched p.color p.position s ∷ stops
update_stop (suc i) p (s ∷ stops) = s ∷ update_stop i p stops

-- `gapStart`, `gapEnd` and `widest`; none is the -1 that any gap is wider than.
pub record Gap : Type 0 where
  pub from : ℕ
  pub to : ℕ
  pub widest : Option ℕ

abbrev is_wider : ℕ → Option ℕ → Bool
is_wider gap none = true
is_wider gap (some widest) = ltb widest gap

abbrev widen : ℕ → ℕ → Gap → Gap
widen a b g =
    if is_wider (b - a) g.widest then record { from = a; to = b; widest = some (b - a) } else g

-- The loop over the sorted positions, which do not decrease.
unfoldable pub widest_gap : Gap → List ℕ → Gap
widest_gap g [] = g
widest_gap g (a ∷ []) = g
widest_gap g (a ∷ b ∷ ns) = widest_gap (widen a b g) (b ∷ ns)

abbrev first_gap : Gap
first_gap = record { from = 0; to = 100; widest = none }

-- `Math.round((gapStart + gapEnd) / 2)`
unfoldable pub new_stop_position : List Stop → ℕ
unfolding widest_gap sort_stops
new_stop_position stops =
    let g = widest_gap first_gap (map (λ s. s.position) (sort_stops stops)) in
    (g.from + g.to + 1) / 2

unfoldable pub add_stop : List Stop → List Stop
add_stop stops =
    stops ++ record { color = codes "#ffffff"; position = new_stop_position stops } ∷ []

abbrev without : ℕ → List Stop → List Stop
without i [] = []
without zero (s ∷ stops) = stops
without (suc i) (s ∷ stops) = s ∷ without i stops

unfoldable pub remove_stop : ℕ → List Stop → List Stop
remove_stop i stops = if leb (length stops) 2 then stops else without i stops
