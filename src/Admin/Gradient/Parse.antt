-- ===== src/Admin/Gradient/Parse.antt =====
-- `parseGradient` of GradientStopEditor.tsx and its two regular expressions. `number` is the
-- language's `Number`, whose result may be no number or a fraction.
use mullet.Base.{
  ℕ, Text, codes, Bool, Option, none, some, or_else, List, [], ◌∷◌, ◌++◌, map, length, leb, ◌==◌,
  ltb, if◌then◌else◌, is_nil, is_space, strip, text_eq, trim, trim_start, trim_end, any, ◌&&◌, not,
}
use mullet.Base.Patterns.{is_line_end, longer, lazy, span_digits}
use mullet.Admin.Gradient.{Stop, split_top_level, fallback_stops}
pub mod Laws
pub mod RoundTrip

infixl 5 ◌>>=◌
abbrev pub ◌>>=◌ : {A B : Type 0} → Option A → (A → Option B) → Option B
some a >>= f = f a
none >>= f = none

-- A value, where a test holds.
abbrev pub when : {A : Type 0} → Bool → A → Option A
when b a = if b then some a else none

-- `([\d.]+)` and the text after it
abbrev pub filled_run : Text × Text → Option (Text × Text)
filled_run ([], rest) = none
filled_run (c ∷ d, rest) = some (c ∷ d, rest)

-- `([\d.]+)%$`
abbrev pub percent_of : Text × Text → Option Text
percent_of (d, rest) = when (text_eq rest (codes "%")) d

unfoldable pub percent : Text → Option Text
percent s = do run ← filled_run (span_digits s); percent_of run

-- `\s+([\d.]+)%$`
unfoldable pub stop_tail : Text → Option Text
stop_tail [] = none
stop_tail (c ∷ s) = if is_space c then percent (trim_start s) else none

-- `part.match(/^(.+?)\s+([\d.]+)%$/)`, whose first group has a unit at least.
unfoldable pub stop_match : Text → Option (Text × Text)
stop_match [] = none
stop_match (c ∷ s) = if is_line_end c then none else longer c (lazy stop_tail s)

-- The text in front of the `)` that stands last.
unfoldable pub before_close : Text → Option Text
before_close [] = none
before_close (c ∷ []) = when (c == 41) []
before_close (c ∷ d ∷ s) = do rest ← before_close (d ∷ s); some (c ∷ rest)

-- `(.+)\)\s*$`: only white space stands after the `)`, and no line end in front of it. An empty group
-- is let through, which the program refuses here and this model by its having no stops.
unfoldable pub body_match : Text → Option Text
body_match s = do body ← before_close (trim_end s); when (not (any is_line_end body)) body

-- `value.match(/^linear-gradient\(\s*([\d.]+)deg\s*,\s*(.+)\)\s*$/)`
unfoldable pub gradient_match : Text → Option (Text × Text)
gradient_match value = do
  s ← strip (codes "linear-gradient(") value
  (angle, t) ← filled_run (span_digits (trim_start s))
  u ← strip (codes "deg") t
  v ← strip (codes ",") (trim_start u)
  body ← body_match (trim_start v)
  some (angle, body)

-- A stop as it is read, and what a gradient is read as.
pub record ReadStop (N : Type 0) : Type 0 where
  pub color : Text
  pub position : N

pub record ReadGradient (N : Type 0) : Type 0 where
  pub angle : N
  pub stops : List (ReadStop N)

module _ {N : Type 0} (number : Text → N) where
  unfoldable pub read_stop : Text → Option (ReadStop N)
  read_stop part = do
    (color, position) ← stop_match part
    some (record { color = trim color; position = number position })

  -- The loop, which ends with null at the first part that is no stop.
  unfoldable pub read_stops : List Text → Option (List (ReadStop N))
  read_stops [] = some []
  read_stops (part ∷ parts) = do
    stop ← read_stop part
    stops ← read_stops parts
    some (stop ∷ stops)

  unfoldable pub parse_gradient : Text → Option (ReadGradient N)
  parse_gradient value = do
    (angle, body) ← gradient_match value
    stops ← read_stops (split_top_level body)
    when (leb 2 (length stops)) (record { angle = number angle; stops = stops })

abbrev unread : Stop → ReadStop ℕ
unread s = record { color = s.color; position = s.position }

-- `parseGradient(value) ?? FALLBACK`, where what `Number` reads is whole.
unfoldable pub shown_gradient : (Text → ℕ) → Text → ReadGradient ℕ
shown_gradient number value =
    or_else (parse_gradient number value)
      (record { angle = 160; stops = map unread fallback_stops })
