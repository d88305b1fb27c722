-- ===== src/Display/Night.antt =====
-- DisplayApp.tsx: `parseHHMM` and `isNightModeActive`. A moment is the hour and minute that the
-- kiosk's clock shows.
use mullet.Base.{
  ℕ, ◌+◌, ◌-◌, ◌*◌, ◌/◌, ◌%◌, ◌<◌, Text, Bool, true, false, ◌&&◌, ◌||◌, Option, none, some, [], ◌∷◌,
  ◌≡◌, ◌↔◌, refl, ap, ◌∙◌, arith, ltb, leb, ◌==◌, if◌then◌else◌, some_inj,
}
use mathlib.Core.Bool.{and-eq-true_iff}
use mullet.Display.{DisplayLayout}

abbrev is_digit : ℕ → Bool
is_digit c = leb b'0' c && leb c b'9'

-- `Number(m[1])` and `Number(m[2])` for one and two digits
abbrev two_digits : ℕ → ℕ → ℕ
two_digits a b = 10 * (a - b'0') + (b - b'0')

unfoldable pub minutes_of : ℕ → ℕ → Option ℕ
minutes_of h min = if ltb 23 h || ltb 59 min then none else some (h * 60 + min)

-- The expression `^(\d{1,2}):(\d{2})$` matches texts of four or five units only.
unfoldable pub parse_hhmm : Text → Option ℕ
parse_hhmm (a ∷ b ∷ c ∷ d ∷ []) =
    if is_digit a && b == b':' && is_digit c && is_digit d
    then minutes_of (a - b'0') (two_digits c d)
    else none
parse_hhmm (a ∷ b ∷ c ∷ d ∷ e ∷ []) =
    if is_digit a && is_digit b && c == b':' && is_digit d && is_digit e
    then minutes_of (two_digits a b) (two_digits d e)
    else none
parse_hhmm _ = none

-- `!s` for an optional string
abbrev truthy : Option Text → Option Text
truthy none = none
truthy (some []) = none
truthy (some (c ∷ s)) = some (c ∷ s)

abbrev bind {ℓ κ} : {A : Type ℓ} {B : Type κ} → Option A → (A → Option B) → Option B
bind none f = none
bind (some a) f = f a

-- The last line of `isNightModeActive`.
unfoldable pub within : ℕ → ℕ → ℕ → Bool
within start end now =
    if leb start end then leb start now && ltb now end else leb start now || ltb now end

unfoldable pub night_active : Option ℕ → Option ℕ → ℕ → Bool
night_active (some start) (some end) now = within start end now
night_active _ _ now = false

unfoldable pub is_night_mode_active : {Number : Type 0} → DisplayLayout Number → ℕ → ℕ → Bool
is_night_mode_active layout hours minutes =
    layout.night_mode_enabled
    && night_active (bind (truthy layout.night_start) parse_hhmm)
        (bind (truthy layout.night_end) parse_hhmm) (hours * 60 + minutes)

-- "HH:MM" of a minute of the day, as the admin's time input and the server write it.
unfoldable pub print_hhmm : ℕ → Text
print_hhmm m =
    (b'0' + m / 60 / 10)
    ∷ (b'0' + m / 60 % 10)
    ∷ b':'
    ∷ (b'0' + m % 60 / 10)
    ∷ (b'0' + m % 60 % 10)
    ∷ []

minutes_of-lt : (h min m : ℕ) → minutes_of h min ≡ some m → m < 1440
unfolding minutes_of
minutes_of-lt h min m e = ground arith

-- A time that is read is a minute of the day.
pub parse_hhmm-lt : (s : Text) (m : ℕ) → parse_hhmm s ≡ some m → m < 1440
unfolding parse_hhmm
parse_hhmm-lt (a ∷ b ∷ c ∷ d ∷ []) m e = ground (arith, minutes_of-lt (a - b'0') (two_digits c d) m)
parse_hhmm-lt (a ∷ b ∷ c ∷ d ∷ e' ∷ []) m e =
    ground (arith, minutes_of-lt (two_digits a b) (two_digits d e') m)
parse_hhmm-lt _ m e = cc

-- Each minute of the day, written "HH:MM", is read back.
pub parse-print_hhmm : (m : ℕ) → m < 1440 → parse_hhmm (print_hhmm m) ≡ some m
unfolding parse_hhmm print_hhmm minutes_of
parse-print_hhmm m h = ground arith

-- The minutes from `start` on, going round the clock, until `now`.
abbrev since : ℕ → ℕ → ℕ
since start now = (now + 1440 - start) % 1440

within_iff :
    (start end now : ℕ)
    → start < 1440
    → end < 1440
    → now < 1440
    → (within start end now ≡ true) ↔ (since start now < since start end)
unfolding within
within_iff start end now p q r = (λ h. ground arith, λ h. ground arith)

-- The optional time is there and reads as this minute of the day.
abbrev Reads : Option Text → ℕ → Type 0
Reads o m = (t : Text) × (o ≡ some t) × (parse_hhmm t ≡ some m)

no_time : (m : ℕ) → parse_hhmm [] ≡ some m → ⊥
unfolding parse_hhmm
no_time m h = cc

Reads-sound : (o : Option Text) (m : ℕ) → bind (truthy o) parse_hhmm ≡ some m → Reads o m
Reads-sound none m h = absurd (cc)
Reads-sound (some []) m h = absurd (cc)
Reads-sound (some (c ∷ s)) m h = (c ∷ s, refl, h)

Reads-complete : (o : Option Text) (m : ℕ) → Reads o m → bind (truthy o) parse_hhmm ≡ some m
Reads-complete none m (t, e, p) = absurd (cc)
Reads-complete (some []) m (t, e, p) = absurd (no_time m (ap parse_hhmm (some_inj _ _ e) ∙ p))
Reads-complete (some (c ∷ s)) m (t, e, p) = ap parse_hhmm (some_inj _ _ e) ∙ p

-- The window, read as an interval on a clock face of 1440 minutes.
pub record InNight {Number : Type 0} (layout : DisplayLayout Number) (now : ℕ) : Type 0 where
  pub enabled : layout.night_mode_enabled ≡ true
  pub start : ℕ
  pub end : ℕ
  pub reads_start : Reads layout.night_start start
  pub reads_end : Reads layout.night_end end
  pub inside : since start now < since start end

night_active_sound :
    (s e : Option ℕ) (now : ℕ)
    → night_active s e now ≡ true
    → (a : ℕ) × (b : ℕ) × (s ≡ some a) × (e ≡ some b) × (within a b now ≡ true)
unfolding night_active
night_active_sound (some a) (some b) now h = (a, b, refl, refl, h)
night_active_sound (some a) none now h = absurd (cc)
night_active_sound none e now h = absurd (cc)

module _ {Number : Type 0} (layout : DisplayLayout Number) (hours minutes : ℕ) where
  night_sound :
      hours < 24
      → minutes < 60
      → is_night_mode_active layout hours minutes ≡ true
      → InNight layout (hours * 60 + minutes)
  unfolding is_night_mode_active
  night_sound p q h =
      let (on, active) = (and-eq-true_iff _ _).0 h in
      let (a, b, ha, hb, w) = night_active_sound _ _ _ active in
      let (ta, ea, ra) = Reads-sound layout.night_start a ha in
      let (tb, eb, rb) = Reads-sound layout.night_end b hb in
      record {
        enabled = on;
        start = a;
        end = b;
        reads_start = (ta, ea, ra);
        reads_end = (tb, eb, rb);
        inside =
            (within_iff a b _ (parse_hhmm-lt ta a ra) (parse_hhmm-lt tb b rb) (omega arith)).0 w;
      }

  night_complete :
      hours < 24
      → minutes < 60
      → InNight layout (hours * 60 + minutes)
      → is_night_mode_active layout hours minutes ≡ true
  unfolding is_night_mode_active night_active
  night_complete p q n =
      let (ta, ea, ra) = n.reads_start in
      let (tb, eb, rb) = n.reads_end in
      let w : within n.start n.end (hours * 60 + minutes) ≡ true =
        (within_iff n.start n.end _ (parse_hhmm-lt ta _ ra) (parse_hhmm-lt tb _ rb) (omega arith)).1
          n.inside in
      rw (n.enabled, night_active)
        (rw
          (
            Reads-complete layout.night_start n.start n.reads_start,
            Reads-complete layout.night_end n.end n.reads_end,
            night_active,
          )
          w)

  -- At a valid time of day the screen is dimmed exactly if night mode is on, both times are there
  -- and well formed, and the minutes since the start, counted round the clock, are fewer than the
  -- window is long. So a window that wraps past midnight works, and an empty one is never active.
  pub night_iff :
      hours < 24
      → minutes < 60
      → (is_night_mode_active layout hours minutes ≡ true) ↔ InNight layout (hours * 60 + minutes)
  night_iff p q = (night_sound p q, night_complete p q)
