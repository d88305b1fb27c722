-- ===== src/Display/ShapeData.antt =====
-- useShapeData.ts: the rows that a widget keeps between polls of `GET /api/data/{shape}`.
-- `stringify` stands for `JSON.stringify`, and `Rows` for the parsed rows that it is given.
use mullet.Base.{
  ℕ, Text, text_eq, text_eq_iff, Option, or_else, List, [], ◌∷◌, ◌++◌, All, ◌≡◌, ◌≢◌, ◌⊎◌, inl, inr,
  refl, sym, ap, ◌∙◌, if◌then◌else◌, Bool-cases,
}
use mullet.Display.Card.{Source, no_source, single, several}

-- The ids of the query string: `?plugin=1&plugin=2`, or none at all.
unfoldable pub query_ids : Source → List ℕ
query_ids no_source = []
query_ids (single id) = id ∷ []
query_ids (several ids) = ids

-- An answer: rows (`body.data`, absent or null as `none`), a status that is not ok, or a failure of
-- the request. A stale one comes after the effect was cleaned up.
pub data Reply (Rows : Type 0) : Type 0 where
  rows : Option Rows → Reply Rows
  refused : Reply Rows
  lost : Reply Rows
  stale : Reply Rows

pub record ShapeState (Rows : Type 0) : Type 0 where
  pub data_rows : Rows
  pub last_json : Text

module _ {Rows : Type 0} (stringify : Rows → Text) (no_rows : Rows) where
  -- `useState([])` and `useRef('')`
  unfoldable pub start : ShapeState Rows
  start = record { data_rows = no_rows; last_json = [] }

  abbrev accept : ShapeState Rows → Rows → ShapeState Rows
  accept s new =
      if text_eq (stringify new) s.last_json
      then s
      else record { data_rows = new; last_json = stringify new }

  unfoldable pub load : ShapeState Rows → Reply Rows → ShapeState Rows
  load s (rows body) = accept s (or_else body no_rows)
  load s refused = s
  load s lost = s
  load s stale = s

  unfoldable pub run : ShapeState Rows → List (Reply Rows) → ShapeState Rows
  run s [] = s
  run s (r ∷ replies) = run (load s r) replies

  run-append :
      (s : ShapeState Rows) (xs ys : List (Reply Rows)) → run s (xs ++ ys) ≡ run (run s xs) ys
  unfolding run
  run-append s [] ys = refl
  run-append s (r ∷ xs) ys = run-append (load s r) xs ys

  -- The kept text is that of the kept rows, or nothing has been kept yet.
  pub IsKept : ShapeState Rows → Type 0
  IsKept s = (s.last_json ≡ stringify s.data_rows) ⊎ (s.last_json ≡ [])

  accept-IsKept : (s : ShapeState Rows) (new : Rows) → IsKept s → IsKept (accept s new)
  unfolding IsKept
  accept-IsKept s new k = elim (Bool-cases (text_eq (stringify new) s.last_json)) [
    | inl same ↦ rw same k
    | inr other ↦ rw other (inl refl)
  ]

  load-IsKept : (s : ShapeState Rows) (r : Reply Rows) → IsKept s → IsKept (load s r)
  unfolding load
  load-IsKept s (rows body) k = accept-IsKept s (or_else body no_rows) k
  load-IsKept s refused k = k
  load-IsKept s lost k = k
  load-IsKept s stale k = k

  run-IsKept :
      (s : ShapeState Rows) (replies : List (Reply Rows)) → IsKept s → IsKept (run s replies)
  unfolding run
  run-IsKept s [] k = k
  run-IsKept s (r ∷ replies) k = run-IsKept (load s r) replies (load-IsKept s r k)

  accept-stringify :
      (s : ShapeState Rows) (new : Rows)
      → IsKept s
      → ((a : Rows) → stringify a ≢ [])
      → stringify (accept s new).data_rows ≡ stringify new
  unfolding IsKept
  accept-stringify s new k ne = elim (Bool-cases (text_eq (stringify new) s.last_json)) [
    | inl same ↦ rw same (kept k ((text_eq_iff _ _).0 same))
    | inr other ↦ rw other
  ]
    where
      kept :
          (s.last_json ≡ stringify s.data_rows) ⊎ (s.last_json ≡ [])
          → stringify new ≡ s.last_json
          → stringify s.data_rows ≡ stringify new
      kept (inl e) same = sym e ∙ sym same
      kept (inr e) same = absurd (ne new (same ∙ e))

  -- Replies that change nothing.
  abbrev pub IsFailure : Reply Rows → Type 0
  IsFailure (rows body) = ⊥
  IsFailure refused = Unit
  IsFailure lost = Unit
  IsFailure stale = Unit

  run-failures :
      (s : ShapeState Rows) (replies : List (Reply Rows))
      → All IsFailure replies
      → run s replies ≡ s
  unfolding run load
  run-failures s [] _ = refl
  run-failures s (rows body ∷ replies) (h, _) = absurd h
  run-failures s (refused ∷ replies) (_, hs) = run-failures s replies hs
  run-failures s (lost ∷ replies) (_, hs) = run-failures s replies hs
  run-failures s (stale ∷ replies) (_, hs) = run-failures s replies hs

  run-rows :
      (s : ShapeState Rows) (body : Option Rows) (after : List (Reply Rows))
      → All IsFailure after
      → run s (rows body ∷ after) ≡ accept s (or_else body no_rows)
  unfolding run load
  run-rows s body after h = run-failures (accept s (or_else body no_rows)) after h

  start-IsKept : IsKept start
  unfolding start IsKept
  start-IsKept = inr refl

  -- If no rows are written as the empty text (`JSON.stringify` writes at least two brackets), a
  -- widget shows rows that are written like those of the latest successful poll: what came before
  -- does not matter, and failures and stale answers after it blank nothing.
  pub run-latest :
      (before after : List (Reply Rows)) (body : Option Rows)
      → ((a : Rows) → stringify a ≢ [])
      → All IsFailure after
      → stringify (run start (before ++ rows body ∷ after)).data_rows
        ≡ stringify (or_else body no_rows)
  run-latest before after body ne h =
      ap (λ s. stringify s.data_rows)
        (run-append start before (rows body ∷ after) ∙ run-rows (run start before) body after h)
      ∙ accept-stringify (run start before) (or_else body no_rows)
          (run-IsKept start before start-IsKept) ne

  -- A poll that brings rows written like the kept ones leaves the state as it is, so the array that
  -- the widget was given stays the same and nothing renders again.
  pub load_same :
      (s : ShapeState Rows) (body : Option Rows)
      → s.last_json ≡ stringify (or_else body no_rows)
      → load s (rows body) ≡ s
  unfolding load
  load_same s body e = rw ((text_eq_iff _ _).1 (sym e))
