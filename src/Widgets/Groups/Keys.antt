-- ===== src/Widgets/Groups/Keys.antt =====
-- The keys of a grouping by a Map: which there are, how often, and the rows under each.
use mullet.Base.{
  ℕ, suc, max, ◌≤◌, Bool, true, false, List, [], ◌∷◌, filter, is_nil, map, All, All-map, ◌≡◌, ◌↔◌,
  refl, sym, ap, ◌∙◌, arith, if◌then◌else◌, Bool-cases, inl, inr,
}
use mullet.Widgets.Groups.{push, group_from, group_by, rows_at, group_by_correct}

module _ {A K : Type 0} (same : K → K → Bool) where
  -- How often a key is there.
  abbrev pub count : K → List (K × List A) → ℕ
  count k [] = 0
  count k ((l, rows) ∷ groups) = let rest = count k groups in if same l k then suc rest else rest

  pub count-map :
      (f : List A → List A) (k : K) (groups : List (K × List A))
      → count k (map (λ g. (g.0, f g.1)) groups) ≡ count k groups
  count-map f k [] = refl
  count-map f k ((l, rows) ∷ groups) =
      ap (λ n. if same l k then suc n else n) (count-map f k groups)

module _ {A K : Type 0} (same : K → K → Bool) (key : A → K)
    (same_iff : (k l : K) → (same k l ≡ true) ↔ (k ≡ l)) where
  push-count :
      (k : K) (a : A) (groups : List (K × List A))
      → count same k (push same key a groups)
        ≡ (if same (key a) k then max 1 (count same k groups) else count same k groups)
  push-count k a [] = refl
  push-count k a ((l, rows) ∷ groups) = elim (Bool-cases (same l (key a))) [
    | inl e ↦
        rw (e, ap (λ m. same m k) (sym ((same_iff l (key a)).0 e)))
          (elim (Bool-cases (same l k)) [ inl h ↦ rw h (omega arith) | inr h ↦ rw h refl ])
    | inr e ↦ rw e (elim (Bool-cases (same l k)) [
      | inl h ↦ elim (Bool-cases (same (key a) k)) [
        | inl both ↦
            let at : l ≡ key a = (same_iff l k).0 h ∙ sym ((same_iff (key a) k).0 both) in
            absurd (cc ((same_iff l (key a)).1 at))
        | inr apart ↦ let ih = push-count k a groups in rw (h, apart) (ap suc (rw apart at ih))
      ]
      | inr h ↦ rw h (push-count k a groups)
    ])
  ]

  group_from-count :
      (k : K) (groups : List (K × List A)) (rows : List A)
      → count same k (group_from same key groups rows) ≡ (
          if is_nil (filter (λ a. same (key a) k) rows)
          then count same k groups
          else max 1 (count same k groups))
  group_from-count k groups [] = refl
  group_from-count k groups (a ∷ rows) =
      let ih = group_from-count k (push same key a groups) rows in
      elim (Bool-cases (same (key a) k)) [
        | inl h ↦ rw h (ground (arith, ih, push-count k a groups))
        | inr h ↦ rw h (ground (arith, ih, push-count k a groups))
      ]

  -- A key is there once if a row has it, and else not at all.
  pub group_by-count :
      (k : K) (rows : List A)
      → count same k (group_by same key rows)
        ≡ (if is_nil (filter (λ a. same (key a) k) rows) then 0 else 1)
  unfolding group_by
  group_by-count k rows = group_from-count k [] rows

  absent :
      (l : K) (groups : List (K × List A))
      → count same l groups ≡ 0
      → All (λ g. same l g.0 ≡ false) groups
  absent l [] _ = tt
  absent l ((k, rows) ∷ groups) h = elim (Bool-cases (same k l)) [
    | inl e ↦ absurd (ground arith)
    | inr e ↦ elim (Bool-cases (same l k)) [
      | inl both ↦ absurd (cc ((same_iff k l).1 (sym ((same_iff l k).0 both))))
      | inr apart ↦ (apart, absent l groups (rw e at h))
    ]
  ]

  skip :
      (l : K) (rows : List A) (groups rest : List (K × List A))
      → All (λ g. same l g.0 ≡ false) rest
      → All (λ g. rows_at same key g.0 groups ≡ g.1) rest
      → All (λ g. rows_at same key g.0 ((l, rows) ∷ groups) ≡ g.1) rest
  skip l rows groups [] _ _ = tt
  skip l rows groups (g ∷ rest) (n, ns) (h, hs) = (rw n h, skip l rows groups rest ns hs)

  rows_at_self :
      (groups : List (K × List A))
      → ((k : K) → count same k groups ≤ 1)
      → All (λ g. rows_at same key g.0 groups ≡ g.1) groups
  rows_at_self [] _ = tt
  rows_at_self ((l, rows) ∷ groups) h =
      let here = (same_iff l l).1 refl in
      let tail : (k : K) → count same k groups ≤ 1 = λ k. ground (arith, h k) in
      (
        rw here refl,
        skip l rows groups groups (absent l groups (ground (arith, h l)))
            (rows_at_self groups tail),
      )

  -- Under each key of the grouping stand exactly the rows with that key, in their order.
  pub group_by-rows :
      (rows : List A)
      → All (λ g. g.1 ≡ filter (λ a. same (key a) g.0) rows) (group_by same key rows)
  group_by-rows rows =
      All-map (λ g e. sym e ∙ (group_by_correct same key same_iff rows g.0).0)
        (group_by same key rows)
        (rows_at_self (group_by same key rows) (λ k. ground (arith, group_by-count k rows)))
