-- ===== src/Admin/Displays/Screens/Order.antt =====
-- `moveScreen` of DisplaysPage.tsx and the list that is loaded after it.
use mullet.Base.{
  ℕ, suc, ◌<◌, true, false, some, List, [], ◌∷◌, ◌++◌, map, length, get_elem?, ◌==◌, ==_iff, All,
  ◌≡◌, ◌≢◌, refl, ap, ◌∙◌, sym, arith, Bool-cases, inl, inr, subst,
}
use mullet.Base.Ints.{pos}
use mullet.Widgets.Groups.{sort, insert}
use mullet.Designer.{Screen, ScreenBody}
use mullet.Designer.Server.{put_screen}
use mullet.Admin.Displays.Screens.{
  earlier, later, load_screens, screen_body, put_at, move_screen, swap_positions, element,
}

abbrev pub IsIncreasing : List ℕ → Type 0
IsIncreasing [] = Unit
IsIncreasing (n ∷ ns) = All (λ m. n < m) ns × IsIncreasing ns

abbrev pub AreDistinct : List ℕ → Type 0
AreDistinct [] = Unit
AreDistinct (n ∷ ns) = All (λ m. m ≢ n) ns × AreDistinct ns

module _ {A : Type 0} (rank : A → ℕ) where
  pub insert_first :
      (a : A) (xs : List A)
      → All (λ m. rank a < m) (map rank xs)
      → insert (λ b. pos (rank b)) a xs ≡ a ∷ xs
  insert_first a [] _ = refl
  insert_first a (b ∷ xs) (h, _) = ground arith

  sort_increasing : (xs : List A) → IsIncreasing (map rank xs) → sort (λ b. pos (rank b)) xs ≡ xs
  unfolding sort
  sort_increasing [] _ = refl
  sort_increasing (a ∷ xs) (h, hs) = rw (sort_increasing xs hs) (insert_first a xs h)

  insert_second :
      (a b : A) (xs : List A)
      → rank b < rank a
      → All (λ m. rank a < m) (map rank xs)
      → insert (λ c. pos (rank c)) a (b ∷ xs) ≡ b ∷ a ∷ xs
  insert_second a b xs l h = ground (arith, insert_first a xs h)

  -- Two neighbours in the wrong order are swapped.
  pub sort_swaps :
      (before : List A) (a b : A) (after : List A)
      → IsIncreasing (map rank (before ++ b ∷ a ∷ after))
      → sort (λ c. pos (rank c)) (before ++ a ∷ b ∷ after) ≡ before ++ b ∷ a ∷ after
  unfolding sort
  sort_swaps [] a b after ((l, hb), (ha, h)) =
      rw (sort_increasing after h, insert_first b after hb) (insert_second a b after l ha)
  sort_swaps (c ∷ before) a b after (h, hs) =
      rw (sort_swaps before a b after hs) (insert_first c (before ++ b ∷ a ∷ after) h)

  pub map-append : (xs ys : List A) → map rank (xs ++ ys) ≡ map rank xs ++ map rank ys
  map-append [] ys = refl
  map-append (x ∷ xs) ys = ap (λ r. rank x ∷ r) (map-append xs ys)

  get_elem?-append :
      (xs : List A) (y : A) (ys : List A) → get_elem? (xs ++ y ∷ ys) (length xs) ≡ some y
  get_elem?-append [] y ys = refl
  get_elem?-append (x ∷ xs) y ys = get_elem?-append xs y ys

  get_elem?-append_next :
      (xs : List A) (y z : A) (ys : List A)
      → get_elem? (xs ++ y ∷ z ∷ ys) (suc (length xs)) ≡ some z
  get_elem?-append_next [] y z ys = refl
  get_elem?-append_next (x ∷ xs) y z ys = get_elem?-append_next xs y z ys

  All-middle :
      (P : ℕ → Type 0) (xs : List A) (y z : A) (ys : List A)
      → All P (map rank (xs ++ y ∷ z ∷ ys))
      → P (rank y) × P (rank z)
  All-middle P [] y z ys (py, (pz, _)) = (py, pz)
  All-middle P (x ∷ xs) y z ys (_, h) = All-middle P xs y z ys h

==_self : (n : ℕ) → (n == n) ≡ true
==_self n = (==_iff n n).1 refl

==_apart : (m n : ℕ) → m ≢ n → (m == n) ≡ false
==_apart m n h = ground arith

module _ {Number : Type 0} where
  abbrev pub ids : List (Screen Number) → List ℕ
  ids screens = map (λ s. s.id) screens

  abbrev pub positions : List (Screen Number) → List ℕ
  positions screens = map (λ s. s.position) screens

  -- A screen as it is stored after a PUT that gives it another position.
  unfoldable pub moved : ℕ → Screen Number → Screen Number
  moved position s = put_screen (screen_body s.name position s) s

  put_at_absent :
      (id : ℕ) (b : ScreenBody Number) (screens : List (Screen Number))
      → All (λ i. i ≢ id) (ids screens)
      → put_at id b screens ≡ screens
  put_at_absent id b [] _ = refl
  put_at_absent id b (s ∷ screens) (h, hs) =
      rw (==_apart s.id id h, put_at_absent id b screens hs) refl

  pub put_both :
      (before : List (Screen Number)) (a b : Screen Number) (after : List (Screen Number))
      → AreDistinct (ids (before ++ a ∷ b ∷ after))
      → put_at b.id
          (screen_body b.name a.position b)
          (put_at a.id (screen_body a.name b.position a) (before ++ a ∷ b ∷ after))
        ≡ before ++ moved b.position a ∷ moved a.position b ∷ after
  unfolding moved put_screen
  put_both [] a b after ((ab, ha), (hb, _)) =
      rw
        (
          ==_self a.id,
          ==_apart b.id a.id ab,
          ==_apart a.id b.id (λ e. ab (sym e)),
          ==_self b.id,
          put_at_absent a.id (screen_body a.name b.position a) after ha,
          put_at_absent b.id (screen_body b.name a.position b) after hb,
        )
        refl
  put_both (s ∷ before) a b after (h, hs) =
      let (na, nb) = All-middle (λ t. t.id) (λ m. m ≢ s.id) before a b after h in
      rw (==_apart s.id a.id (λ e. na (sym e)), ==_apart s.id b.id (λ e. nb (sym e)))
        (ap (λ r. s ∷ r) (put_both before a b after hs))

  pub move_at :
      (before : List (Screen Number)) (a b : Screen Number) (after : List (Screen Number))
      → (move_screen (length before) later (before ++ a ∷ b ∷ after)
          ≡ put_at b.id
              (screen_body b.name a.position b)
              (put_at a.id (screen_body a.name b.position a) (before ++ a ∷ b ∷ after)))
        × (move_screen (suc (length before)) earlier (before ++ a ∷ b ∷ after)
            ≡ put_at a.id
                (screen_body a.name b.position a)
                (put_at b.id (screen_body b.name a.position b) (before ++ a ∷ b ∷ after)))
  unfolding move_screen swap_positions element
  move_at before a b after =
      let first = get_elem?-append (λ s. s.id) before a (b ∷ after) in
      let second = get_elem?-append_next (λ s. s.id) before a b after in
      (rw (first, second) refl, rw (second, first) refl)

  -- The two requests of a move may arrive in either order.
  put_at_commute :
      (i j : ℕ) (b c : ScreenBody Number) (screens : List (Screen Number))
      → i ≢ j
      → put_at i b (put_at j c screens) ≡ put_at j c (put_at i b screens)
  unfolding put_screen
  put_at_commute i j b c [] h = refl
  put_at_commute i j b c (s ∷ screens) h =
      let rest = put_at_commute i j b c screens h in
      elim (Bool-cases (s.id == i)) [
        | inl e ↦
            let n = ==_apart s.id j (λ f. h (sym ((==_iff s.id i).0 e) ∙ f)) in
            rw (n, e, n) (ap (λ r. put_screen b s ∷ r) rest)
        | inr e ↦ elim (Bool-cases (s.id == j)) [
          | inl f ↦ rw (f, e, f) (ap (λ r. put_screen c s ∷ r) rest)
          | inr f ↦ rw (f, e, f) (ap (λ r. s ∷ r) rest)
        ]
      ]

  ids_apart :
      (before : List (Screen Number)) (a b : Screen Number) (after : List (Screen Number))
      → AreDistinct (ids (before ++ a ∷ b ∷ after))
      → a.id ≢ b.id
  ids_apart [] a b after ((h, _), _) = λ e. h (sym e)
  ids_apart (s ∷ before) a b after (_, h) = ids_apart before a b after h

  moved-positions :
      (before : List (Screen Number)) (a b : Screen Number) (after : List (Screen Number))
      → positions (before ++ moved a.position b ∷ moved b.position a ∷ after)
        ≡ positions (before ++ a ∷ b ∷ after)
  unfolding moved put_screen screen_body
  moved-positions [] a b after = refl
  moved-positions (s ∷ before) a b after =
      ap (λ r. s.position ∷ r) (moved-positions before a b after)

  -- Moving a screen later, or the screen after it earlier, and loading the list again swaps the two
  -- and moves no other, if the screens have distinct ids and stand at increasing positions.
  pub move_screen_swaps :
      (before : List (Screen Number)) (a b : Screen Number) (after : List (Screen Number))
      → AreDistinct (ids (before ++ a ∷ b ∷ after))
      → IsIncreasing (positions (before ++ a ∷ b ∷ after))
      → (load_screens (move_screen (length before) later (before ++ a ∷ b ∷ after))
          ≡ before ++ moved a.position b ∷ moved b.position a ∷ after)
        × (load_screens (move_screen (suc (length before)) earlier (before ++ a ∷ b ∷ after))
            ≡ before ++ moved a.position b ∷ moved b.position a ∷ after)
  unfolding load_screens
  move_screen_swaps before a b after d i =
      let (first, second) = move_at before a b after in
      let both = put_both before a b after d in
      let apart = ids_apart before a b after d in
      let sorted =
        sort_swaps (λ s. s.position) before (moved b.position a) (moved a.position b) after
          (subst IsIncreasing (sym (moved-positions before a b after)) i) in
      (
        ap load_screens (first ∙ both) ∙ sorted,
        ap load_screens (
              second
              ∙ put_at_commute a.id b.id (screen_body a.name b.position a)
                  (screen_body b.name a.position b) (before ++ a ∷ b ∷ after) apart
              ∙ both)
            ∙ sorted,
      )
