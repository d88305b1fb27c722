-- ===== src/Base/Patterns.antt =====
-- What the program's regular expressions are made of: `.`, lazy groups, and runs of digits and dots.
use mullet.Base.{
  ℕ, Text, Bool, true, false, ◌&&◌, ◌||◌, Option, none, some, [], ◌∷◌, ◌++◌, All, leb, ◌==◌, ◌≡◌,
  if◌then◌else◌, refl,
}

-- The units that `.` does not match.
unfoldable pub is_line_end : ℕ → Bool
is_line_end c = c == 10 || c == 13 || c == 8232 || c == 8233

-- `(.*?)` in front of `rest`: the shortest text in front of which `rest` matches, with no line end.
abbrev pub longer : {A : Type 0} → ℕ → Option (Text × A) → Option (Text × A)
longer c none = none
longer c (some (s, a)) = some (c ∷ s, a)

abbrev pub first_of : {A : Type 0} → Option A → Option (Text × A) → Option (Text × A)
first_of (some a) _ = some ([], a)
first_of none m = m

unfoldable pub lazy : {A : Type 0} → (Text → Option A) → Text → Option (Text × A)
lazy rest [] = first_of (rest []) none
lazy rest (c ∷ s) =
    let later = lazy rest s in
    first_of (rest (c ∷ s)) (if is_line_end c then none else longer c later)

-- `rest` matches nowhere within the text in front of the tail, which has no line end.
abbrev pub FailsWithin : {A : Type 0} → (Text → Option A) → Text → Text → Type 0
FailsWithin rest [] tail = Unit
FailsWithin rest (c ∷ s) tail =
    (rest (c ∷ (s ++ tail)) ≡ none) × (is_line_end c ≡ false) × FailsWithin rest s tail

pub lazy-append :
    {A : Type 0} (rest : Text → Option A) (s tail : Text) (a : A)
    → FailsWithin rest s tail
    → rest tail ≡ some a
    → lazy rest (s ++ tail) ≡ some (s, a)
unfolding lazy
lazy-append rest [] [] a _ h = rw h refl
lazy-append rest [] (c ∷ tail) a _ h = rw h refl
lazy-append rest (c ∷ s) tail a (fails, no_end, hs) h =
    rw (fails, no_end, lazy-append rest s tail a hs h) refl

-- `[\d.]`
unfoldable pub is_digit_or_dot : ℕ → Bool
is_digit_or_dot c = leb 48 c && leb c 57 || c == 46

abbrev after_unit : ℕ → Text × Text → Text × Text
after_unit c (d, rest) = (c ∷ d, rest)

-- The longest run of digits and dots, and the text after it.
unfoldable pub span_digits : Text → Text × Text
unfolding is_digit_or_dot
span_digits [] = ([], [])
span_digits (c ∷ s) =
    let later = span_digits s in if is_digit_or_dot c then after_unit c later else ([], c ∷ s)

pub span_digits-append :
    (d : Text) (c : ℕ) (s : Text)
    → All (λ e. is_digit_or_dot e ≡ true) d
    → is_digit_or_dot c ≡ false
    → span_digits (d ++ c ∷ s) ≡ (d, c ∷ s)
unfolding span_digits
span_digits-append [] c s _ h = rw h refl
span_digits-append (e ∷ d) c s (g, gs) h = rw (g, span_digits-append d c s gs h) refl
