-- ===== src/Base/Trims.antt =====
-- `s.trim()`: white space and line ends of the language are cut at both ends.
use Prim.Native.Nat.{ℕ}
use mathlib.Core.Path.{◌≡◌, refl, ap, ◌∙◌}
use mathlib.Core.Bool.{Bool, true, false, ◌&&◌, ◌||◌}
use native.Mathlib.Omega.{arith}
use mathlib.Core.Logic.{inl, inr}
use mathlib.Core.List.{[], ◌∷◌, ◌++◌}
use mullet.Base.Tests.{leb, ◌==◌, if◌then◌else◌, Bool-cases}
use mullet.Base.Lists.{is_nil}
use mullet.Base.Texts.{Text, Lacks}

unfoldable pub is_space : ℕ → Bool
is_space c =
    leb 9 c && leb c 13
    || c == 32
    || c == 160
    || c == 0x1680
    || leb 0x2000 c && leb c 0x200A
    || c == 0x2028
    || c == 0x2029
    || c == 0x202F
    || c == 0x205F
    || c == 0x3000
    || c == 0xFEFF

unfoldable pub trim_start : Text → Text
unfolding is_space
trim_start [] = []
trim_start (c ∷ s) = let rest = trim_start s in if is_space c then rest else c ∷ s

unfoldable pub trim_end : Text → Text
trim_end [] = []
trim_end (c ∷ s) = let rest = trim_end s in if is_space c && is_nil rest then [] else c ∷ rest

unfoldable pub trim : Text → Text
unfolding trim_start trim_end is_space
trim s = trim_end (trim_start s)

abbrev pub StartsClean : Text → Type 0
StartsClean [] = Unit
StartsClean (c ∷ s) = is_space c ≡ false

pub trim_start-StartsClean : (s : Text) → StartsClean (trim_start s)
unfolding trim_start
trim_start-StartsClean [] = tt
trim_start-StartsClean (c ∷ s) = elim (Bool-cases (is_space c)) [
  | inl e ↦ rw e (trim_start-StartsClean s)
  | inr e ↦ rw e e
]

pub trim_start_of_StartsClean : (s : Text) → StartsClean s → trim_start s ≡ s
unfolding trim_start
trim_start_of_StartsClean [] _ = refl
trim_start_of_StartsClean (c ∷ s) h = rw h

trim_end-StartsClean : (s : Text) → StartsClean s → StartsClean (trim_end s)
unfolding trim_end
trim_end-StartsClean [] _ = tt
trim_end-StartsClean (c ∷ s) h = rw h h

trim_end_idempotent : (s : Text) → trim_end (trim_end s) ≡ trim_end s
unfolding trim_end
trim_end_idempotent [] = refl
trim_end_idempotent (c ∷ s) = elim (Bool-cases (is_space c && is_nil (trim_end s))) [
  | inl e ↦ rw e
  | inr e ↦ rw e (rw (trim_end_idempotent s, e))
]

-- A trimmed text has nothing left to trim.
pub trim_idempotent : (s : Text) → trim (trim s) ≡ trim s
unfolding trim
trim_idempotent s =
    ap trim_end
      (trim_start_of_StartsClean _ (trim_end-StartsClean (trim_start s) (trim_start-StartsClean s)))
    ∙ trim_end_idempotent (trim_start s)

abbrev pub EndsClean : Text → Type 0
EndsClean [] = Unit
EndsClean (c ∷ []) = is_space c ≡ false
EndsClean (c ∷ d ∷ s) = EndsClean (d ∷ s)

-- A text that ends clean is kept, and is not nil where it was not.
pub trim_end_of_EndsClean : (s : Text) → EndsClean s → trim_end s ≡ s
unfolding trim_end
trim_end_of_EndsClean [] _ = refl
trim_end_of_EndsClean (c ∷ []) h = rw h refl
trim_end_of_EndsClean (c ∷ d ∷ s) h = rw (trim_end_of_EndsClean (d ∷ s) h) (ground arith)

pub EndsClean-append : (s : Text) (c : ℕ) (t : Text) → EndsClean (c ∷ t) → EndsClean (s ++ (c ∷ t))
EndsClean-append [] c t h = h
EndsClean-append (d ∷ []) c t h = h
EndsClean-append (d ∷ e ∷ s) c t h = EndsClean-append (e ∷ s) c t h

pub EndsClean-tail : (c : ℕ) (s : Text) → EndsClean (c ∷ s) → EndsClean s
EndsClean-tail c [] h = tt
EndsClean-tail c (d ∷ s) h = h

-- Something is left of a text that ends clean, in front of a further text.
pub trim_start-append :
    (s : Text) (c : ℕ) (t : Text)
    → EndsClean (c ∷ s)
    → is_space c ≡ true
    → (d : ℕ) × (r : Text) × (trim_start (s ++ t) ≡ d ∷ (r ++ t))
unfolding trim_start
trim_start-append [] c t h e = absurd (cc)
trim_start-append (b ∷ s) c t h e = elim (Bool-cases (is_space b)) [
  | inl k ↦ let (d, r, g) = trim_start-append s b t h k in (d, r, rw k g)
  | inr k ↦ (b, s, rw k refl)
]

module _ (b : ℕ) where
  trim_start-Lacks : (s : Text) → Lacks b s → Lacks b (trim_start s)
  unfolding trim_start
  trim_start-Lacks [] _ = tt
  trim_start-Lacks (c ∷ s) (h, hs) = elim (Bool-cases (is_space c)) [
    | inl e ↦ rw e (trim_start-Lacks s hs)
    | inr e ↦ rw e (h, hs)
  ]

  trim_end-Lacks : (s : Text) → Lacks b s → Lacks b (trim_end s)
  unfolding trim_end
  trim_end-Lacks [] _ = tt
  trim_end-Lacks (c ∷ s) (h, hs) = elim (Bool-cases (is_space c && is_nil (trim_end s))) [
    | inl e ↦ rw e tt
    | inr e ↦ rw e (h, trim_end-Lacks s hs)
  ]

  -- Trimming brings in no new unit.
  pub trim-Lacks : (s : Text) → Lacks b s → Lacks b (trim s)
  unfolding trim
  trim-Lacks s h = trim_end-Lacks _ (trim_start-Lacks s h)
