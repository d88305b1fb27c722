-- ===== src/Admin/Gradient/Gaps.antt =====
-- `addStop` and `removeStop` of GradientStopEditor.tsx.
use mullet.Base.{
  ℕ, zero, suc, ◌-◌, ◌≤◌, ◌<◌, Option, none, some, List, [], ◌∷◌, map, length, leb, ltb, ltb→lt,
  ◌≡◌, ◌⊎◌, inl, inr, refl, ap, sym, ◌∙◌, Bool-cases, arith, subst,
}
use mullet.Base.Ints.{ℤ, pos, ltb_ℤ}
use mullet.Widgets.Groups.{sort, insert, IsSorted, sort_correct}
use mullet.Admin.Gradient.{
  Stop, Gap, sort_stops, widest_gap, widen, is_wider, first_gap, new_stop_position, remove_stop,
  without,
}

-- Two neighbours of a list.
abbrev pub AreNeighbours : ℕ → ℕ → List ℕ → Type 0
AreNeighbours a b [] = ⊥
AreNeighbours a b (x ∷ []) = ⊥
AreNeighbours a b (x ∷ y ∷ ns) = ((a ≡ x) × (b ≡ y)) ⊎ AreNeighbours a b (y ∷ ns)

abbrev IsAtMost : Option ℕ → Option ℕ → Type 0
IsAtMost none o = Unit
IsAtMost (some v) none = ⊥
IsAtMost (some v) (some w) = v ≤ w

-- No two neighbours are further apart.
abbrev pub HasGaps : Option ℕ → List ℕ → Type 0
HasGaps o [] = Unit
HasGaps o (x ∷ []) = Unit
HasGaps o (x ∷ y ∷ ns) = IsAtMost (some (y - x)) o × HasGaps o (y ∷ ns)

IsAtMost-trans : (u v w : Option ℕ) → IsAtMost u v → IsAtMost v w → IsAtMost u w
IsAtMost-trans none v w h k = tt
IsAtMost-trans (some u) none w h k = elim h [ ]
IsAtMost-trans (some u) (some v) none h k = elim k [ ]
IsAtMost-trans (some u) (some v) (some w) h k = omega arith

IsAtMost-refl : (u : Option ℕ) → IsAtMost u u
IsAtMost-refl none = tt
IsAtMost-refl (some u) = omega arith

widen_ge :
    (a b from to : ℕ) (o : Option ℕ)
    → IsAtMost o (widen a b (record { from = from; to = to; widest = o })).widest
      × IsAtMost (some (b - a)) (widen a b (record { from = from; to = to; widest = o })).widest
widen_ge a b from to none = (tt, omega arith)
widen_ge a b from to (some w) = elim (Bool-cases (ltb w (b - a))) [
  | inl h ↦ let l = ltb→lt w (b - a) h in rw h (omega arith, omega arith)
  | inr h ↦ let l : b - a ≤ w = ground arith in rw h (omega arith, l)
]

widest_ge :
    (g : Gap) (ns : List ℕ)
    → IsAtMost g.widest (widest_gap g ns).widest × HasGaps (widest_gap g ns).widest ns
unfolding widest_gap
widest_ge g [] = (IsAtMost-refl g.widest, tt)
widest_ge g (a ∷ []) = (IsAtMost-refl g.widest, tt)
widest_ge g (a ∷ b ∷ ns) =
    let (before, here) = widen_ge a b g.from g.to g.widest in
    let (later, rest) = widest_ge (widen a b g) (b ∷ ns) in
    let last = (widest_gap (widen a b g) (b ∷ ns)).widest in
    (
      IsAtMost-trans g.widest (widen a b g).widest last before later,
      (IsAtMost-trans (some (b - a)) (widen a b g).widest last here later, rest),
    )

-- A gap that the loop has taken.
abbrev IsTaken : Gap → List ℕ → Type 0
IsTaken g ns = (g.widest ≡ some (g.to - g.from)) × AreNeighbours g.from g.to ns

widen-cases :
    (a b : ℕ) (g : Gap)
    → (widen a b g ≡ g) ⊎ (widen a b g ≡ record { from = a; to = b; widest = some (b - a) })
widen-cases a b g = elim (Bool-cases (is_wider (b - a) g.widest)) [
  | inl h ↦ rw h (inr refl)
  | inr h ↦ rw h (inl refl)
]

widest-IsTaken : (g : Gap) (ns : List ℕ) → (widest_gap g ns ≡ g) ⊎ IsTaken (widest_gap g ns) ns
unfolding widest_gap
widest-IsTaken g [] = inl refl
widest-IsTaken g (a ∷ []) = inl refl
widest-IsTaken g (a ∷ b ∷ ns) = elim (widest-IsTaken (widen a b g) (b ∷ ns)) [
  | inr (w, n) ↦ inr (w, inr n)
  | inl e ↦ elim (widen-cases a b g) [
    | inl k ↦ inl (e ∙ k)
    | inr k ↦ inr (subst (λ r. IsTaken r (a ∷ b ∷ ns)) (sym (e ∙ k)) (refl, inl (refl, refl)))
  ]
]

neighbours_le :
    (a b : ℕ) (stops : List Stop)
    → IsSorted (λ s. pos s.position) stops
    → AreNeighbours a b (map (λ s. s.position) stops)
    → a ≤ b
neighbours_le a b [] _ n = elim n [ ]
neighbours_le a b (s ∷ []) _ n = elim n [ ]
neighbours_le a b (s ∷ t ∷ stops) ((l, _), _) (inl (x, y)) = ground arith
neighbours_le a b (s ∷ t ∷ stops) (_, h) (inr n) = neighbours_le a b (t ∷ stops) h n

length-insert :
    (rank : Stop → ℤ) (s : Stop) (stops : List Stop)
    → length (insert rank s stops) ≡ suc (length stops)
length-insert rank s [] = refl
length-insert rank s (t ∷ stops) = elim (Bool-cases (ltb_ℤ (rank t) (rank s))) [
  | inl h ↦ rw h (ap suc (length-insert rank s stops))
  | inr h ↦ rw h refl
]

length-sort : (rank : Stop → ℤ) (stops : List Stop) → length (sort rank stops) ≡ length stops
unfolding sort
length-sort rank [] = refl
length-sort rank (s ∷ stops) =
    length-insert rank s (sort rank stops) ∙ ap suc (length-sort rank stops)

-- With two stops, a gap is taken.
taken :
    (stops : List Stop)
    → 2 ≤ length stops
    → IsTaken (widest_gap first_gap (map (λ s. s.position) stops)) (map (λ s. s.position) stops)
taken [] h = absurd (omega arith)
taken (s ∷ []) h = absurd (omega arith)
taken (s ∷ t ∷ stops) h =
    let ns = map (λ r. r.position) (s ∷ t ∷ stops) in
    elim (widest-IsTaken first_gap ns) [
      | inr k ↦ k
      | inl e ↦
          let (_, (most, _)) = widest_ge first_gap ns in
          absurd (subst (λ g. IsAtMost (some (t.position - s.position)) g.widest) e most)
    ]

-- The stop that is added to two or more stands between two neighbours of the sorted stops, or at one
-- of them, and no two neighbours are further apart.
pub new_stop_position-between :
    (stops : List Stop)
    → 2 ≤ length stops
    → (a b : ℕ) × AreNeighbours a b (map (λ s. s.position) (sort_stops stops))
      × HasGaps (some (b - a)) (map (λ s. s.position) (sort_stops stops))
      × ((a ≤ new_stop_position stops) × (new_stop_position stops ≤ b))
unfolding new_stop_position sort_stops
new_stop_position-between stops two =
    let rank : Stop → ℤ = λ s. pos s.position in
    let sorted = sort rank stops in
    let ns = map (λ s. s.position) sorted in
    let g = widest_gap first_gap ns in
    let (widest, neighbours) = taken sorted (rw (length-sort rank stops) two) in
    let (_, gaps) = widest_ge first_gap ns in
    let le = neighbours_le g.from g.to sorted ((sort_correct rank stops (pos 0)).0) neighbours in
    (
      g.from,
      g.to,
      neighbours,
      subst (λ o. HasGaps o ns) widest gaps,
      (omega (arith, le), omega (arith, le)),
    )

length-without : (i : ℕ) (stops : List Stop) → length stops ≤ suc (length (without i stops))
length-without i [] = omega arith
length-without zero (s ∷ stops) = omega arith
length-without (suc i) (s ∷ stops) = omega (arith, length-without i stops)

-- Removing stops leaves at least two.
pub remove_stop-le :
    (i : ℕ) (stops : List Stop) → 2 ≤ length stops → 2 ≤ length (remove_stop i stops)
unfolding remove_stop
remove_stop-le i stops h = elim (Bool-cases (leb (length stops) 2)) [
  | inl e ↦ rw e h
  | inr e ↦ let l : 2 < length stops = ground arith in rw e (omega (arith, length-without i stops))
]
