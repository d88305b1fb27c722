-- ===== src/Admin/Gradient/Parse/Laws.antt =====
-- What `parseGradient` reads of the text that `composeGradient` writes.
use mullet.Base.{
  ℕ, some_inj, ◌==◌, Text, codes, true, false, none, some, [], ◌∷◌, ◌++◌, text_eq, All, All-append,
  All-map, any, is_space, trim, trim_end, StartsClean, EndsClean, trim_start_of_StartsClean,
  trim_end_of_EndsClean, EndsClean-append, EndsClean-tail, trim_start-append, ◌≡◌, ◌≢◌, refl, ap,
  ◌∙◌, arith, Bool-cases, inl, inr,
}
use mullet.Base.Ints.{ℤ, pos}
use mullet.Base.Patterns.{
  is_line_end, lazy-append, FailsWithin, is_digit_or_dot, span_digits, span_digits-append,
}
use mullet.Calendar.Decimal.{decimal, IsDigits, decimal-Shows}
use mullet.Admin.Gradient.{Stop, stop_text, deepen, cuts}
use mullet.Admin.Gradient.Split.{IsPart, depth_after}
use mullet.Admin.Gradient.Parse.{◌>>=◌, filled_run, percent_of, percent, stop_tail, stop_match}

abbrev pub IsLine : Text → Type 0
IsLine = All (λ c. is_line_end c ≡ false)

-- A color that is trimmed, not empty and on one line, and in which each comma stands in parentheses
-- that close.
pub record IsColor (c : Text) : Type 0 where
  pub closed : depth_after (pos 0) c ≡ some (pos 0)
  pub starts : StartsClean c
  pub ends : EndsClean c
  pub line : any is_line_end c ≡ false
  pub filled : c ≢ []

pub digits-read : (d : Text) → IsDigits d → All (λ e. is_digit_or_dot e ≡ true) d
unfolding is_digit_or_dot
digits-read = All-map (λ c h. ground arith)

digits-IsLine : (d : Text) → IsDigits d → IsLine d
unfolding is_line_end
digits-IsLine = All-map (λ c h. ground arith)

pub any-IsLine : (s : Text) → IsLine s → any is_line_end s ≡ false
any-IsLine [] _ = refl
any-IsLine (c ∷ s) (h, hs) = rw (h, any-IsLine s hs) refl

IsLine-any : (s : Text) → any is_line_end s ≡ false → IsLine s
IsLine-any [] _ = tt
IsLine-any (c ∷ s) h = elim (Bool-cases (is_line_end c)) [
  | inl e ↦ absurd (cc (rw e at h))
  | inr e ↦ (e, IsLine-any s (rw e at h))
]

pub StartsClean-append : (s t : Text) → s ≢ [] → StartsClean s → StartsClean (s ++ t)
StartsClean-append [] t n _ = absurd (n refl)
StartsClean-append (c ∷ s) t _ h = h

pub digits-StartsClean : (d : Text) → IsDigits d → StartsClean d
unfolding is_space
digits-StartsClean [] _ = tt
digits-StartsClean (c ∷ d) (h, _) = ground arith

text_eq-filled : (u r : Text) (c : ℕ) → text_eq (u ++ c ∷ r) [] ≡ false
text_eq-filled [] r c = refl
text_eq-filled (d ∷ u) r c = refl

-- A run of digits that a space follows is not the number of a stop.
span-space : (u r : Text) → text_eq (span_digits (u ++ 32 ∷ r)).1 (codes "%") ≡ false
unfolding span_digits is_digit_or_dot
span-space [] r = refl
span-space (c ∷ u) r = elim (Bool-cases (is_digit_or_dot c)) [
  | inl e ↦ rw e (span-space u r)
  | inr e ↦ rw (e, text_eq-filled u r 32) (ground arith)
]

percent_of-fails :
    (m : Text × Text) → text_eq m.1 (codes "%") ≡ false → (filled_run m >>= percent_of) ≡ none
percent_of-fails ([], rest) _ = refl
percent_of-fails (c ∷ d, rest) h = rw h refl

percent_of-found : (d : Text) → d ≢ [] → (filled_run (d, codes "%") >>= percent_of) ≡ some d
percent_of-found [] h = absurd (h refl)
percent_of-found (c ∷ d) _ = refl

percent-digits : (d : Text) → IsDigits d → d ≢ [] → percent (d ++ codes "%") ≡ some d
unfolding percent is_digit_or_dot
percent-digits d h n =
    ap (λ m. filled_run m >>= percent_of) (span_digits-append d 37 [] (digits-read d h) refl)
    ∙ percent_of-found d n

stop_tail-digits : (d : Text) → IsDigits d → d ≢ [] → stop_tail (32 ∷ (d ++ codes "%")) ≡ some d
unfolding stop_tail is_space
stop_tail-digits d h n =
    ap percent (
      trim_start_of_StartsClean (d ++ codes "%")
        (StartsClean-append d (codes "%") n (digits-StartsClean d h)))
    ∙ percent-digits d h n

-- What follows a color is not found within it.
stop_tail-fails : (c : ℕ) (s r : Text) → EndsClean (c ∷ s) → stop_tail (c ∷ (s ++ 32 ∷ r)) ≡ none
unfolding stop_tail percent
stop_tail-fails c s r h = elim (Bool-cases (is_space c)) [
  | inl e ↦
      let (d, u, g) = trim_start-append s c (32 ∷ r) h e in
      rw (e, g) (percent_of-fails (span_digits (d ∷ (u ++ 32 ∷ r))) (span-space (d ∷ u) r))
  | inr e ↦ rw e refl
]

color-FailsWithin : (s r : Text) → EndsClean s → IsLine s → FailsWithin stop_tail s (32 ∷ r)
color-FailsWithin [] r _ _ = tt
color-FailsWithin (c ∷ s) r h (l, ls) =
    (stop_tail-fails c s r h, l, color-FailsWithin s r (EndsClean-tail c s h) ls)

stop_match-found :
    (c d : Text)
    → IsColor c
    → IsDigits d
    → d ≢ []
    → stop_match (c ++ 32 ∷ (d ++ codes "%")) ≡ some (c, d)
unfolding stop_match
stop_match-found [] d h _ _ = absurd (h.filled refl)
stop_match-found (b ∷ c) d h k n =
    let (l, ls) = IsLine-any (b ∷ c) h.line in
    let later = color-FailsWithin c (d ++ codes "%") (EndsClean-tail b c h.ends) ls in
    rw (l, lazy-append stop_tail c (32 ∷ (d ++ codes "%")) d later (stop_tail-digits d k n)) refl

pub color-trimmed : (c : Text) → IsColor c → trim c ≡ c
unfolding trim
color-trimmed c h =
    ap trim_end (trim_start_of_StartsClean c h.starts) ∙ trim_end_of_EndsClean c h.ends

-- The text of a stop whose color is one is read as the color and the position, whatever the position.
pub stop_match-stop_text :
    (s : Stop)
    → IsColor s.color
    → stop_match (stop_text decimal s) ≡ some (s.color, decimal s.position)
unfolding stop_text
stop_match-stop_text s h =
    let shows = decimal-Shows s.position in
    stop_match-found s.color (decimal s.position) h shows.digits shows.filled

depth_after-append :
    (d e : ℤ) (p q : Text) → depth_after d p ≡ some e → depth_after d (p ++ q) ≡ depth_after e q
depth_after-append d e [] q h = ap (λ x. depth_after x q) (some_inj d e h)
depth_after-append d e (c ∷ p) q h = elim (Bool-cases (cuts (deepen d c) c)) [
  | inl k ↦ absurd (cc (rw k at h))
  | inr k ↦ rw k (depth_after-append (deepen d c) e p q (rw k at h))
]

-- Digits open and close nothing.
depth_after-digits :
    (d : Text) (q : Text) → IsDigits d → depth_after (pos 0) (d ++ q) ≡ depth_after (pos 0) q
depth_after-digits [] q _ = refl
depth_after-digits (c ∷ d) q (h, hs) =
    let opens : (c == 40) ≡ false = ground arith in
    let closes : (c == 41) ≡ false = ground arith in
    let comma : (c == 44) ≡ false = ground arith in
    rw (opens, closes, comma) (depth_after-digits d q hs)

percent_text-EndsClean : (d : Text) → EndsClean (32 ∷ (d ++ codes "%"))
unfolding is_space
percent_text-EndsClean d = EndsClean-append (32 ∷ d) 37 [] refl

pub append-filled : (s t : Text) → s ≢ [] → s ++ t ≢ []
append-filled [] t h = absurd (h refl)
append-filled (c ∷ s) t h = λ e. cc

pub stop_text-Starts :
    (s : Stop) → IsColor s.color → (stop_text decimal s ≢ []) × StartsClean (stop_text decimal s)
unfolding stop_text
stop_text-Starts s h =
    let end = 32 ∷ (decimal s.position ++ codes "%") in
    (append-filled s.color end h.filled, StartsClean-append s.color end h.filled h.starts)

pub stop_text-IsPart : (s : Stop) → IsColor s.color → IsPart (stop_text decimal s)
unfolding stop_text trim
stop_text-IsPart s h =
    let d = decimal s.position in
    let end = 32 ∷ (d ++ codes "%") in
    record {
      closed =
          depth_after-append (pos 0) (pos 0) s.color end h.closed
          ∙ depth_after-digits d (codes "%") (decimal-Shows s.position).digits;
      trimmed =
          ap trim_end (
            trim_start_of_StartsClean (s.color ++ end)
              (StartsClean-append s.color end h.filled h.starts))
          ∙ trim_end_of_EndsClean (s.color ++ end)
              (EndsClean-append s.color 32 (d ++ codes "%") (percent_text-EndsClean d));
      some_text = append-filled s.color end h.filled;
    }

pub stop_text-IsLine : (s : Stop) → IsColor s.color → IsLine (stop_text decimal s)
unfolding stop_text is_line_end
stop_text-IsLine s h =
    let d = decimal s.position in
    All-append _ s.color (32 ∷ (d ++ codes "%")) (IsLine-any s.color h.line) (
      refl,
      All-append _ d (codes "%") (digits-IsLine d (decimal-Shows s.position).digits) (refl, tt),
    )
