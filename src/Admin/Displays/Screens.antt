-- ===== src/Admin/Displays/Screens.antt =====
-- admin/pages/DisplaysPage.tsx: the screens of the selected display, how they are ordered, and the
-- requests that rename one or move it. The server lists screens by position, and by id where
-- positions are equal; the lists here stand in the order in which the page got them.
use mullet.Base.{
  ℕ, zero, suc, Text, Bool, true, false, Option, none, some, List, [], ◌∷◌, map, length, get_elem?,
  if◌then◌else◌, ◌==◌,
}
use mullet.Base.Ints.{pos}
use mullet.Widgets.Groups.{sort}
use mullet.Designer.{Screen, ScreenBody, LayoutMode}
use mullet.Designer.Server.{put_screen}
pub mod Order
pub mod Kept

pub data Direction : Type 0 where
  earlier later : Direction

abbrev pub target : Direction → ℕ → Option ℕ
target earlier zero = none
target earlier (suc i) = some i
target later i = some (suc i)

module _ {Number : Type 0} where
  -- `loadScreens`: what the page holds of the list that it gets.
  unfoldable pub load_screens : List (Screen Number) → List (Screen Number)
  load_screens screens = sort (λ s. pos s.position) screens

  -- The body of the PUTs of this page, which leaves `aspect_ratio` out.
  unfoldable pub screen_body : Text → ℕ → Screen Number → ScreenBody Number
  screen_body name position s = record {
    name = name;
    position = position;
    layout_mode = s.layout_mode;
    columns = s.columns;
    row_height = s.row_height;
    gap = s.gap;
    theme_override = s.theme_override;
    aspect_ratio = none;
  }

  -- The server's PUT of the screen with an id.
  abbrev pub put_at : ℕ → ScreenBody Number → List (Screen Number) → List (Screen Number)
  put_at id b [] = []
  put_at id b (s ∷ screens) = (if s.id == id then put_screen b s else s) ∷ put_at id b screens

  -- `submitScreen` of an existing screen.
  unfoldable pub rename_screen : Text → Screen Number → List (Screen Number) → List (Screen Number)
  unfolding screen_body
  rename_screen name s screens = put_at s.id (screen_body name s.position s) screens

  element : List (Screen Number) → Option ℕ → Option (Screen Number)
  element screens none = none
  element screens (some i) = get_elem? screens i

  swap_positions :
      Option (Screen Number) → Option (Screen Number) → List (Screen Number) → List (Screen Number)
  unfolding screen_body
  swap_positions none b screens = screens
  swap_positions (some a) none screens = screens
  swap_positions (some a) (some b) screens =
      put_at b.id (screen_body b.name a.position b)
        (put_at a.id (screen_body a.name b.position a) screens)

  -- `moveScreen`: what the server has stored after its two requests, in which the page holds
  -- `screens`.
  unfoldable pub move_screen : ℕ → Direction → List (Screen Number) → List (Screen Number)
  unfolding swap_positions element
  move_screen index d screens =
      swap_positions (get_elem? screens index) (element screens (target d index)) screens

  -- The position that a new screen is given.
  unfoldable pub new_position : List (Screen Number) → ℕ
  new_position screens = length screens
