-- ===== src/Admin/Gradient/Split.antt =====
-- `splitTopLevel` of GradientStopEditor.tsx against the join that `composeGradient` writes.
use mathlib.Core.List.{append_assoc, append-nil}
use mullet.Base.{
  Text, codes, Option, none, some, List, [], ◌∷◌, ◌++◌, All, trim, if◌then◌else◌, ◌≡◌, ◌≢◌, refl,
  ap, ◌∙◌, sym, Bool-cases, inl, inr, some_inj,
}
use mullet.Base.Ints.{ℤ, pos}
use mullet.Admin.Gradient.{split_top_level, split_from, last_part, join_parts, deepen, cuts}

-- The depth after a text with no comma to cut at.
abbrev pub depth_after : ℤ → Text → Option ℤ
depth_after d [] = some d
depth_after d (c ∷ t) =
    let rest = depth_after (deepen d c) t in if cuts (deepen d c) c then none else rest

-- A part that is trimmed and not empty, and in which each comma stands in parentheses that close.
pub record IsPart (p : Text) : Type 0 where
  pub closed : depth_after (pos 0) p ≡ some (pos 0)
  pub trimmed : trim p ≡ p
  pub some_text : p ≢ []

split_through :
    (d e : ℤ) (current p rest : Text)
    → depth_after d p ≡ some e
    → split_from d current (p ++ rest) ≡ split_from e (current ++ p) rest
unfolding split_from
split_through d e current [] rest h = rw (append-nil current, some_inj d e h) refl
split_through d e current (c ∷ p) rest h = elim (Bool-cases (cuts (deepen d c) c)) [
  | inl k ↦ absurd (cc (rw k at h))
  | inr k ↦ rw k (
      split_through (deepen d c) e (current ++ c ∷ []) p rest (rw k at h)
      ∙ ap (λ r. split_from e r rest) (append_assoc current (c ∷ []) p))
]

space_trim : (p : Text) → trim (32 ∷ p) ≡ trim p
unfolding trim
space_trim p = refl

-- A part that is read alone or after the space that follows a comma.
pub data Lead : Type 0 where
  start comma : Lead

abbrev lead_text : Lead → Text
lead_text start = []
lead_text comma = 32 ∷ []

lead_trim : (l : Lead) (p : Text) → IsPart p → trim (lead_text l ++ p) ≡ p
lead_trim start p h = h.trimmed
lead_trim comma p h = space_trim p ∙ h.trimmed

last_part_kept : (p : Text) → p ≢ [] → last_part p ≡ p ∷ []
unfolding last_part
last_part_kept [] h = absurd (h refl)
last_part_kept (c ∷ p) h = refl

split_parts :
    (l : Lead) (p : Text) (ps : List Text)
    → All IsPart (p ∷ ps)
    → split_from (pos 0) (lead_text l) (join_parts (p ∷ ps)) ≡ p ∷ ps
unfolding split_from
split_parts l p [] (h, _) =
    ap (split_from (pos 0) (lead_text l)) (sym (append-nil p))
    ∙ split_through (pos 0) (pos 0) (lead_text l) p [] h.closed
    ∙ ap last_part (lead_trim l p h)
    ∙ last_part_kept p h.some_text
split_parts l p (q ∷ ps) (h, hs) =
    split_through (pos 0) (pos 0) (lead_text l) p (codes ", " ++ join_parts (q ∷ ps)) h.closed
    ∙ rw (lead_trim l p h) (ap (λ r. p ∷ r) (split_parts comma q ps hs))

-- Parts that are joined by a comma and a space are split again into the same parts, if each is
-- trimmed, not empty, and has its commas in parentheses that close.
pub split_top_level-join : (ps : List Text) → All IsPart ps → split_top_level (join_parts ps) ≡ ps
unfolding split_top_level split_from last_part trim
split_top_level-join [] _ = refl
split_top_level-join (p ∷ ps) h = split_parts start p ps h
