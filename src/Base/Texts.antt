-- ===== src/Base/Texts.antt =====
-- A string of the program is the list of its UTF-16 code units, where the code walks it, cuts it or
-- compares it with a literal. (Keys and identifiers that are only compared are native strings.)
-- `s.split(sep)` and `ps.join(sep)` are given for a separator of one unit.
use Prim.Native.Nat.{ℕ}
use Prim.Native.Char.{code}
use Prim.Native.String.{String}
use mathlib.Core.Path.{◌≡◌, refl, ap, ◌∙◌}
use mathlib.Core.Bool.{Bool, true, false, ◌&&◌}
use mathlib.Core.Logic.{◌≢◌, ◌↔◌, inl, inr}
use mathlib.Core.Option.{Option, none, some}
use mathlib.Core.List.{List, [], ◌∷◌, ◌++◌}
use native.Mathlib.Omega.{arith}
use mullet.Base.Tests.{◌==◌, Bool-cases, if◌then◌else◌}
use mullet.Base.Lists.{All}

abbrev pub Text : Type 0
Text = List ℕ

-- The units of a literal, which has no character beyond the basic plane.
abbrev pub codes : String → Text
codes String.[] = []
codes (String.◌∷◌ c s) = code c ∷ codes s

abbrev pub text_eq : Text → Text → Bool
text_eq [] [] = true
text_eq [] (d ∷ t) = false
text_eq (c ∷ s) [] = false
text_eq (c ∷ s) (d ∷ t) = c == d && text_eq s t

pub text_eq_iff : (s t : Text) → (text_eq s t ≡ true) ↔ (s ≡ t)
text_eq_iff [] [] = (λ _. refl, λ _. refl)
text_eq_iff [] (d ∷ t) = ground arith
text_eq_iff (c ∷ s) [] = ground arith
text_eq_iff (c ∷ s) (d ∷ t) = ground (arith, text_eq_iff s t)

-- The rest of the text after a prefix.
unfoldable pub strip : Text → Text → Option Text
strip [] s = some s
strip (c ∷ p) [] = none
strip (c ∷ p) (d ∷ s) = if d == c then strip p s else none

abbrev pub Lacks : ℕ → Text → Type 0
Lacks b = All (λ c. c ≢ b)

-- A unit in front of the first part.
abbrev extend : ℕ → List Text → List Text
extend c [] = (c ∷ []) ∷ []
extend c (p ∷ ps) = (c ∷ p) ∷ ps

unfoldable pub split : ℕ → Text → List Text
split sep [] = [] ∷ []
split sep (c ∷ s) = let rest = split sep s in if c == sep then [] ∷ rest else extend c rest

unfoldable pub join : ℕ → List Text → Text
join sep [] = []
join sep (p ∷ []) = p
join sep (p ∷ q ∷ ps) = p ++ (sep ∷ join sep (q ∷ ps))

extend-Lacks :
    (sep c : ℕ) (ps : List Text) → c ≢ sep → All (Lacks sep) ps → All (Lacks sep) (extend c ps)
extend-Lacks sep c [] h _ = ((h, tt), tt)
extend-Lacks sep c (p ∷ ps) h (hp, hs) = ((h, hp), hs)

pub split-Lacks : (sep : ℕ) (s : Text) → All (Lacks sep) (split sep s)
unfolding split
split-Lacks sep [] = (tt, tt)
split-Lacks sep (c ∷ s) = ground (arith, split-Lacks sep s, extend-Lacks sep c (split sep s))

split_last : (sep : ℕ) (p : Text) → Lacks sep p → split sep p ≡ p ∷ []
unfolding split
split_last sep [] _ = refl
split_last sep (c ∷ p) (h, hs) = ground (arith, split_last sep p hs)

split_first : (sep : ℕ) (p s : Text) → Lacks sep p → split sep (p ++ (sep ∷ s)) ≡ p ∷ split sep s
unfolding split
split_first sep [] s _ = ground arith
split_first sep (c ∷ p) s (h, hs) = ground (arith, split_first sep p s hs)

pub split-join :
    (sep : ℕ) (p : Text) (ps : List Text)
    → All (Lacks sep) (p ∷ ps)
    → split sep (join sep (p ∷ ps)) ≡ p ∷ ps
unfolding join
split-join sep p [] (h, _) = split_last sep p h
split-join sep p (q ∷ ps) (h, hs) = split_first sep p _ h ∙ ap (λ r. p ∷ r) (split-join sep q ps hs)

extend-append : (c : ℕ) (ps qs : List Text) → ps ≢ [] → extend c (ps ++ qs) ≡ extend c ps ++ qs
extend-append c [] qs h = absurd (h refl)
extend-append c (p ∷ ps) qs h = refl

split_some : (sep : ℕ) (s : Text) → split sep s ≢ []
unfolding split
split_some sep [] = λ e. cc
split_some sep (c ∷ s) = elim (Bool-cases (c == sep)) [
  | inl h ↦ rw h (λ e. cc)
  | inr h ↦ rw h (extend_some (split sep s))
]
  where
    extend_some : (ps : List Text) → extend c ps ≢ []
    extend_some [] = λ e. cc
    extend_some (p ∷ ps) = λ e. cc

-- Two texts that are joined by the separator are split as each is alone.
pub split-append : (sep : ℕ) (s t : Text) → split sep (s ++ (sep ∷ t)) ≡ split sep s ++ split sep t
unfolding split
split-append sep [] t = ground arith
split-append sep (c ∷ s) t = elim (Bool-cases (c == sep)) [
  | inl h ↦ rw h (ap (λ r. [] ∷ r) (split-append sep s t))
  | inr h ↦ rw h (
      ap (extend c) (split-append sep s t)
      ∙ extend-append c (split sep s) (split sep t) (split_some sep s))
]
