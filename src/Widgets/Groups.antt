-- ===== src/Widgets/Groups.antt =====
-- The grouping of rows by a Map that keeps the order in which keys are first set, as TaskListWidget.tsx
-- and HomeStatusWidget.tsx do it, and the stable sort by a number (`Array.prototype.sort`).
pub mod Keys
use mathlib.Core.List.{append_assoc, append-nil}
use mullet.Base.{
  Bool, true, false, List, [], ◌∷◌, ◌++◌, filter, All, ◌≡◌, ◌≢◌, ◌↔◌, refl, sym, ap, ◌∙◌, arith,
  if◌then◌else◌, not, ◌||◌, Bool-cases, inl, inr,
}
use mullet.Base.Ints.{ℤ, ltb_ℤ}
use mullet.Base.Sorts.{insert_by, sort_by, IsSortedBy, sort_by-IsSortedBy, sort_by-filter}

module _ {A K : Type 0} (same : K → K → Bool) (key : A → K) where
  -- `if (!m.has(key)) m.set(key, []); m.get(key).push(a)`
  abbrev pub push : A → List (K × List A) → List (K × List A)
  push a [] = (key a, a ∷ []) ∷ []
  push a ((k, rows) ∷ groups) =
      let rest = push a groups in
      if same k (key a) then (k, rows ++ a ∷ []) ∷ groups else (k, rows) ∷ rest

  abbrev pub group_from : List (K × List A) → List A → List (K × List A)
  group_from groups [] = groups
  group_from groups (a ∷ rows) = group_from (push a groups) rows

  unfoldable pub group_by : List A → List (K × List A)
  group_by rows = group_from [] rows

  -- `m.get(k)`, and no rows for a key that is not set
  abbrev pub rows_at : K → List (K × List A) → List A
  rows_at k [] = []
  rows_at k ((l, rows) ∷ groups) = if same l k then rows else rows_at k groups

  -- No group is empty.
  abbrev pub AreFilled : List (K × List A) → Type 0
  AreFilled groups = All (λ g. g.1 ≢ []) groups

  snoc_filled : (rows : List A) (a : A) → rows ++ a ∷ [] ≢ []
  snoc_filled [] a = λ e. cc
  snoc_filled (x ∷ rows) a = λ e. cc

  push-AreFilled :
      (a : A) (groups : List (K × List A)) → AreFilled groups → AreFilled (push a groups)
  push-AreFilled a [] _ = (λ e. cc, tt)
  push-AreFilled a ((k, rows) ∷ groups) (f, fs) = elim (Bool-cases (same k (key a))) [
    | inl e ↦ rw (e) (snoc_filled rows a, fs)
    | inr e ↦ rw (e) (f, push-AreFilled a groups fs)
  ]

  group_from-AreFilled :
      (groups : List (K × List A)) (rows : List A)
      → AreFilled groups
      → AreFilled (group_from groups rows)
  group_from-AreFilled groups [] f = f
  group_from-AreFilled groups (a ∷ rows) f =
      group_from-AreFilled (push a groups) rows (push-AreFilled a groups f)

module _ {A K : Type 0} (same : K → K → Bool) (key : A → K)
    (same_iff : (k l : K) → (same k l ≡ true) ↔ (k ≡ l)) where
  abbrev only : K → A → List A
  only k a = if same (key a) k then a ∷ [] else []

  -- The test cannot both hold and fail at equal keys.
  clash : (k l : K) → k ≡ l → same k l ≡ false → ⊥
  clash k l e n = absurd (cc ((same_iff k l).1 e))

  push-rows_at :
      (k : K) (a : A) (groups : List (K × List A))
      → rows_at same key k (push same key a groups) ≡ rows_at same key k groups ++ only k a
  push-rows_at k a [] = refl
  push-rows_at k a ((l, rows) ∷ groups) = elim (Bool-cases (same l (key a))) [
    | inl e ↦
        let at : l ≡ key a = (same_iff l (key a)).0 e in
        elim (Bool-cases (same l k)) [
          | inl h ↦ rw (e, h, (same_iff (key a) k).1 (sym at ∙ (same_iff l k).0 h)) refl
          | inr h ↦
              rw (e, h, ap (λ m. same m k) (sym at) ∙ h)
                (sym (append-nil (rows_at same key k groups)))
        ]
    | inr e ↦ elim (Bool-cases (same l k)) [
      | inl h ↦ elim (Bool-cases (same (key a) k)) [
        | inl both ↦
            absurd (clash l (key a) ((same_iff l k).0 h ∙ sym ((same_iff (key a) k).0 both)) e)
        | inr apart ↦ rw (e, h, apart) (sym (append-nil rows))
      ]
      | inr h ↦ rw (e, h) (push-rows_at k a groups)
    ]
  ]

  only-filter :
      (k : K) (a : A) (rows : List A)
      → only k a ++ filter (λ b. same (key b) k) rows ≡ filter (λ b. same (key b) k) (a ∷ rows)
  only-filter k a rows = elim (Bool-cases (same (key a) k)) [
    | inl h ↦ rw h refl
    | inr h ↦ rw h refl
  ]

  group_from-rows_at :
      (k : K) (groups : List (K × List A)) (rows : List A)
      → rows_at same key k (group_from same key groups rows)
        ≡ rows_at same key k groups ++ filter (λ a. same (key a) k) rows
  group_from-rows_at k groups [] = sym (append-nil (rows_at same key k groups))
  group_from-rows_at k groups (a ∷ rows) =
      group_from-rows_at k (push same key a groups) rows
      ∙ ap (λ r. r ++ filter (λ b. same (key b) k) rows) (push-rows_at k a groups)
      ∙ append_assoc (rows_at same key k groups) (only k a) (filter (λ b. same (key b) k) rows)
      ∙ ap (λ r. rows_at same key k groups ++ r) (only-filter k a rows)

  -- Grouping loses, repeats and reorders no row: under each key stand exactly the rows with that key,
  -- in their order, and a group is there only if it has a row.
  pub group_by_correct :
      (rows : List A) (k : K)
      → (rows_at same key k (group_by same key rows) ≡ filter (λ a. same (key a) k) rows)
        × AreFilled same key (group_by same key rows)
  unfolding group_by
  group_by_correct rows k = (group_from-rows_at k [] rows, group_from-AreFilled same key [] rows tt)

ltb_asym : (a b : ℤ) → ltb_ℤ a b ≡ true → ltb_ℤ b a ≡ false
ltb_asym a b h = ground arith

ltb_trans : (a b c : ℤ) → ltb_ℤ b a ≡ false → ltb_ℤ c b ≡ false → ltb_ℤ c a ≡ false
ltb_trans a b c h g = ground arith

not_both :
    (a b n : ℤ)
    → ltb_ℤ b a ≡ true
    → not (ltb_ℤ a n || ltb_ℤ n a) ≡ true
    → not (ltb_ℤ b n || ltb_ℤ n b) ≡ false
not_both a b n h p = ground arith

-- `rows.sort((a, b) => rank(a) - rank(b))`
module _ {A : Type 0} (rank : A → ℤ) where
  abbrev pub lower : A → A → Bool
  lower a b = ltb_ℤ (rank a) (rank b)

  abbrev pub insert : A → List A → List A
  insert = insert_by lower

  unfoldable pub sort : List A → List A
  unfolding sort_by
  sort rows = sort_by lower rows

  -- Each row stands before no row of smaller rank.
  abbrev pub IsSorted : List A → Type 0
  IsSorted = IsSortedBy lower

  abbrev pub at_rank : ℤ → A → Bool
  at_rank n a = not (ltb_ℤ (rank a) n || ltb_ℤ n (rank a))

  -- The sort orders the rows by rank, and the rows of each rank are the same ones in the same order
  -- as before.
  pub sort_correct :
      (rows : List A) (n : ℤ)
      → IsSorted (sort rows) × (filter (at_rank n) (sort rows) ≡ filter (at_rank n) rows)
  unfolding sort
  sort_correct rows n = (
    sort_by-IsSortedBy lower (λ a b. ltb_asym (rank a) (rank b))
        (λ a b c. ltb_trans (rank a) (rank b) (rank c)) rows,
    sort_by-filter lower (at_rank n) (λ a b. not_both (rank a) (rank b) n) rows,
  )
