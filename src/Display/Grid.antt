-- ===== src/Display/Grid.antt =====
-- ScreenGrid.tsx: the rows of the grid, the place of each card (the grid style of DisplayCard.tsx)
-- and the stagger of the cards' entrances. Delays are in milliseconds; the program has seconds.
use mullet.Base.{ℕ, ◌+◌, ◌*◌, ◌≤◌, min, max, List, [], ◌∷◌, All, All-map, arith}
use mullet.Theme.Tokens.{ThemeTokens, resolve}
use mullet.Display.{CardLayout, ScreenLayout}

-- CSS grid lines are numbered from 1: a start line and a span.
pub record GridArea : Type 0 where
  pub column : ℕ
  pub column_span : ℕ
  pub row : ℕ
  pub row_span : ℕ

pub record GridTemplate : Type 0 where
  pub columns : ℕ
  pub rows : ℕ
  pub gap : ℕ

-- `enterDelay={Math.min(i, 10) * 0.06}`
unfoldable pub enter_delay : ℕ → ℕ
enter_delay i = min i 10 * 60

module _ {Number : Type 0} where
  -- The loop of `rowCount`.
  unfoldable pub rows_from : ℕ → List (CardLayout Number) → ℕ
  rows_from top [] = top
  rows_from top (card ∷ cards) = rows_from (max top (card.y + card.h)) cards

  unfoldable pub row_count : ScreenLayout Number → ℕ
  row_count screen = rows_from 1 screen.cards

  unfoldable pub grid_style : CardLayout Number → GridArea
  grid_style card = record {
    column = card.x + 1;
    column_span = card.w;
    row = card.y + 1;
    row_span = card.h;
  }

  unfoldable pub grid_template : ScreenLayout Number → GridTemplate
  grid_template screen = record {
    columns = screen.columns;
    rows = row_count screen;
    gap = screen.gap;
  }

  -- The theme that the screen's cards inherit.
  unfoldable pub screen_theme : ThemeTokens Number → ScreenLayout Number → ThemeTokens Number
  screen_theme theme screen = resolve theme screen.theme_override

  -- The card ends above the line, or on it.
  abbrev pub EndsBy : ℕ → CardLayout Number → Type 0
  EndsBy n card = card.y + card.h ≤ n

  rows_from-ge : (top : ℕ) (cards : List (CardLayout Number)) → top ≤ rows_from top cards
  unfolding rows_from
  rows_from-ge top [] = omega arith
  rows_from-ge top (card ∷ cards) = omega (arith, rows_from-ge (max top (card.y + card.h)) cards)

  rows_from-All :
      (top : ℕ) (cards : List (CardLayout Number)) → All (EndsBy (rows_from top cards)) cards
  unfolding rows_from
  rows_from-All top [] = tt
  rows_from-All top (card ∷ cards) = (
    omega (arith, rows_from-ge (max top (card.y + card.h)) cards),
    rows_from-All (max top (card.y + card.h)) cards,
  )

  rows_from-least :
      (top n : ℕ) (cards : List (CardLayout Number))
      → top ≤ n
      → All (EndsBy n) cards
      → rows_from top cards ≤ n
  unfolding rows_from
  rows_from-least top n [] h _ = h
  rows_from-least top n (card ∷ cards) h (c, cs) =
      rows_from-least (max top (card.y + card.h)) n cards (omega arith) cs

  -- The area lies within the rows of the template: its last grid line is one of the template's.
  abbrev pub FitsRows : GridTemplate → CardLayout Number → Type 0
  FitsRows t card = (grid_style card).row + (grid_style card).row_span ≤ t.rows + 1

  -- The grid has a row, no card reaches below its rows, and it has no more rows than any positive
  -- number `n` of rows that all cards end within.
  pub row_count_exact :
      (screen : ScreenLayout Number) (n : ℕ)
      → 1 ≤ n
      → All (EndsBy n) screen.cards
      → (1 ≤ row_count screen)
        × All (FitsRows (grid_template screen)) screen.cards
        × (row_count screen ≤ n)
  unfolding row_count grid_template grid_style
  row_count_exact screen n h cs = (
    rows_from-ge 1 screen.cards,
    All-map (λ card h. omega arith) screen.cards (rows_from-All 1 screen.cards),
    rows_from-least 1 n screen.cards h cs,
  )

-- Entrances are staggered in the cards' order, and the last is at most 600 milliseconds late.
pub enter_delay_bounds : (i j : ℕ) → i ≤ j → (enter_delay i ≤ enter_delay j) × (enter_delay j ≤ 600)
unfolding enter_delay
enter_delay_bounds i j h = (omega arith, omega arith)
