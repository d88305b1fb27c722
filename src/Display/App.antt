-- ===== src/Display/App.antt =====
-- DisplayApp.tsx, with ConnectOverlay.tsx and BottomBar.tsx: the state of a kiosk, the events that
-- change it, and what it shows. The top bar and the widgets are not part of the view.
use mullet.Base.{
  ℕ, Text, Bool, true, false, not, Option, none, some, is_some, List, [], ◌∷◌, ◌++◌, length, ◌≡◌,
  refl, sym, ap, ◌∙◌, if◌then◌else◌,
}
use mullet.Theme.Tokens.{Background, BackgroundType}
use mullet.Theme.Backgrounds.{background_css}
use mullet.Display.{DisplayLayout, ScreenLayout}
use mullet.Display.Layout.{Poll, Answer, Response, LoadError, receive, complete}
use mullet.Display.Layout
use mullet.Display.Night.{is_night_mode_active}
use mullet.Display.Rotation.{rotate, shown_screen, screen_dots}

pub record Kiosk (Number : Type 0) : Type 0 where
  pub poll : Poll Number
  pub active_screen : ℕ
  pub night_mode_active : Bool

-- An answer to a layout poll, a tick of the rotation, or a look at the clock.
pub data Event (Number : Type 0) : Type 0 where
  answer : Answer Number → Event Number
  rotation : Event Number
  clock : ℕ → ℕ → Event Number

pub data Overlay : Type 0 where
  connecting reconnecting not_found : Overlay

pub record BottomBar : Type 0 where
  pub dots : List Bool
  pub reconnecting : Bool

pub record Screen (Number : Type 0) : Type 0 where
  pub no_transitions : Bool
  pub background : Option Text
  pub brightness : Option Number
  pub layer : Option Background
  pub top_bar : Bool
  pub shown : Option (ScreenLayout Number)
  pub bottom_bar : Option BottomBar
  pub overlay : Option Overlay

pub data View (Number : Type 0) : Type 0 where
  blocked : Overlay → View Number
  showing : Screen Number → View Number

abbrev is_image : BackgroundType → Bool
is_image BackgroundType.image = true
is_image _ = false

module _ {Number : Type 0} (one : Number) where
  abbrev pub first_kiosk : Kiosk Number
  first_kiosk = record { poll = Layout.start one; active_screen = 0; night_mode_active = false }

  -- The effects on `[layout]` make intervals only for a layout that is there.
  unfoldable pub with_layout :
      Option (DisplayLayout Number) → Kiosk Number → Event Number → Kiosk Number
  with_layout layout k (answer a) = record k { poll = receive one k.poll a }
  with_layout (some layout) k rotation = record k { active_screen = rotate layout k.active_screen }
  with_layout (some layout) k (clock hours minutes) = record k {
    night_mode_active = is_night_mode_active layout hours minutes;
  }
  with_layout none k rotation = k
  with_layout none k (clock hours minutes) = k

  unfoldable pub step : Kiosk Number → Event Number → Kiosk Number
  unfolding with_layout
  step k e = with_layout k.poll.layout k e

  unfoldable pub steps : Kiosk Number → List (Event Number) → Kiosk Number
  steps k [] = k
  steps k (e ∷ events) = steps (step k e) events

-- `error && …`: an exception may have an empty message.
abbrev pub truthy : Option LoadError → Bool
truthy none = false
truthy (some LoadError.not_found) = true
truthy (some (LoadError.bad_status status)) = true
truthy (some (LoadError.message [])) = false
truthy (some (LoadError.message (c ∷ text))) = true

-- The screen for a layout that is there.
abbrev screen_of :
    {Number : Type 0} → DisplayLayout Number → Option LoadError → ℕ → Bool → Screen Number
screen_of layout error active night = record {
  no_transitions = not layout.transitions_enabled;
  background =
      if is_image layout.theme.background.type
      then none
      else some (background_css layout.theme.background);
  brightness = if night then some layout.night_brightness else none;
  layer = if is_image layout.theme.background.type then some layout.theme.background else none;
  top_bar = layout.show_top_bar;
  shown = shown_screen layout active;
  bottom_bar =
      if layout.show_bottom_bar
      then some (record {
        dots = screen_dots (length layout.screens) active;
        reconnecting = is_some error;
      })
      else none;
  overlay = if truthy error then some Overlay.reconnecting else none;
}

unfoldable pub view_of :
    {Number : Type 0} → Option (DisplayLayout Number) → Kiosk Number → View Number
view_of none k = blocked (if k.poll.not_found then Overlay.not_found else Overlay.connecting)
view_of (some layout) k =
    showing (screen_of layout k.poll.error k.active_screen k.night_mode_active)

unfoldable pub view : {Number : Type 0} → Kiosk Number → View Number
unfolding view_of
view k = view_of k.poll.layout k

module _ {Number : Type 0} (one : Number) where
  -- The answers among the events.
  abbrev answers : List (Event Number) → List (Answer Number)
  answers [] = []
  answers (answer a ∷ events) = a ∷ answers events
  answers (rotation ∷ events) = answers events
  answers (clock h m ∷ events) = answers events

  step-poll :
      (k : Kiosk Number) (layout : Option (DisplayLayout Number)) (e : Event Number)
      → (with_layout one layout k e).poll ≡ Layout.run one k.poll (answers (e ∷ []))
  unfolding with_layout Layout.run
  step-poll k layout (answer a) = refl
  step-poll k (some layout) rotation = refl
  step-poll k (some layout) (clock h m) = refl
  step-poll k none rotation = refl
  step-poll k none (clock h m) = refl

  -- Rotation and the clock leave the polling alone.
  steps-poll :
      (k : Kiosk Number) (events : List (Event Number))
      → (steps one k events).poll ≡ Layout.run one k.poll (answers events)
  unfolding steps step Layout.run
  steps-poll k [] = refl
  steps-poll k (e ∷ events) =
      steps-poll (with_layout one k.poll.layout k e) events
      ∙ ap (λ p. Layout.run one p (answers events)) (step-poll k k.poll.layout e)
      ∙ joined e
    where
      joined :
          (e : Event Number)
          → Layout.run one (Layout.run one k.poll (answers (e ∷ []))) (answers events)
            ≡ Layout.run one k.poll (answers (e ∷ events))
      joined (answer a) = refl
      joined rotation = refl
      joined (clock h m) = refl

  load_has :
      (p : Poll Number) (r : Response Number)
      → is_some p.layout ≡ true
      → is_some (Layout.load one p r).layout ≡ true
  unfolding Layout.load
  load_has p (Response.found raw) h = refl
  load_has p Response.missing h = h
  load_has p (Response.failed status) h = h
  load_has p (Response.unreachable text) h = h

  run_has :
      (p : Poll Number) (got : List (Answer Number))
      → is_some p.layout ≡ true
      → is_some (Layout.run one p got).layout ≡ true
  unfolding Layout.run Layout.receive
  run_has p [] h = h
  run_has p (a ∷ got) h = run_has (Layout.receive one p a) got (kept a.cancelled)
    where
      kept : (c : Bool) → is_some (if c then p else Layout.load one p a.response).layout ≡ true
      kept true = h
      kept false = load_has p a.response h

module _ {Number : Type 0} (one : Number) where
  shows_of :
      (layout : Option (DisplayLayout Number)) (k : Kiosk Number)
      → is_some layout ≡ true
      → (s : Screen Number) × (view_of layout k ≡ showing s)
  unfolding view_of
  shows_of none k h = absurd (cc)
  shows_of (some layout) k h = (_, refl)

  has_of :
      (layout : Option (DisplayLayout Number)) (k : Kiosk Number) (s : Screen Number)
      → view_of layout k ≡ showing s
      → (is_some layout ≡ true)
        × (s.overlay ≡ (if truthy k.poll.error then some Overlay.reconnecting else none))
  unfolding view_of
  has_of none k s h = absurd (cc)
  has_of (some layout) k s h = (refl, ap overlay_of (sym h))
    where
      overlay_of : View Number → Option Overlay
      overlay_of (blocked o) = none
      overlay_of (showing t) = t.overlay

  -- Once a kiosk shows its screens it goes on showing screens, whatever answers, ticks and clock
  -- readings follow: no failure, not even a 404, brings the blocking overlay back.
  pub view_stays :
      (k : Kiosk Number) (s : Screen Number) (events : List (Event Number))
      → view k ≡ showing s
      → (t : Screen Number) × (view (steps one k events) ≡ showing t)
  unfolding view
  view_stays k s events h = shows_of (steps one k events).poll.layout (steps one k events) (
      ap (λ p. is_some p.layout) (steps-poll one k events)
      ∙ run_has one k.poll (answers one events) (has_of k.poll.layout k s h).0)

  -- Over the screens of a kiosk the reconnecting banner lies exactly if the latest live answer was
  -- not a layout, and not a failure whose message is empty; stale answers, ticks and clock readings
  -- since then do not count.
  pub banner_iff_failed :
      (k : Kiosk Number) (events : List (Event Number)) (s : Screen Number)
      (before after : List (Answer Number)) (r : Response Number)
      → answers one events ≡ before ++ Layout.live one r ∷ after
      → Layout.AreCancelled one after
      → view (steps one k events) ≡ showing s
      → s.overlay ≡ (if truthy (Layout.error_of one r) then some Overlay.reconnecting else none)
  unfolding view
  banner_iff_failed k events s before after r split stale h =
      (has_of (steps one k events).poll.layout (steps one k events) s h).1
      ∙ ap (λ e. if truthy e then some Overlay.reconnecting else none)
          (ap (λ p. p.error) (steps-poll one k events)
            ∙ ap (λ got. (Layout.run one k.poll got).error) split
            ∙ Layout.run-error_last one k.poll before after r stale)
