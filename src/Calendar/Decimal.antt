-- ===== src/Calendar/Decimal.antt =====
-- The decimal text of a number (`String(n)`, `padStart`), and the number that digits stand for.
use mathlib.Core.List.{append_assoc}
use mullet.Base.{
  ℕ, zero, suc, ◌+◌, ◌-◌, ◌*◌, ◌/◌, ◌%◌, ◌≤◌, ◌<◌, Text, All, All-append, false, [], ◌∷◌, ◌++◌,
  length, ltb, ltb→lt, lt→ltb, if◌then◌else◌, ◌≡◌, ◌≢◌, refl, ap, ◌∙◌, arith, Bool-cases, inl, inr,
}

-- The digits of a number, with fuel that the number is below.
decimal_from : ℕ → ℕ → Text
decimal_from zero n = []
decimal_from (suc fuel) n =
    let rest = decimal_from fuel (n / 10) ++ (48 + n % 10) ∷ [] in
    if ltb n 10 then (48 + n) ∷ [] else rest

unfoldable pub decimal : ℕ → Text
unfolding decimal_from
decimal n = decimal_from (suc n) n

zeros : ℕ → Text → Text
zeros zero s = s
zeros (suc k) s = 48 ∷ zeros k s

-- `s.padStart(2, '0')`
unfoldable pub pad_2 : Text → Text
unfolding zeros
pad_2 s = zeros (2 - length s) s

abbrev pub IsDigit : ℕ → Type 0
IsDigit c = (48 ≤ c) × (c < 58)

abbrev pub IsDigits : Text → Type 0
IsDigits = All IsDigit

abbrev pub value_from : ℕ → Text → ℕ
value_from acc [] = acc
value_from acc (c ∷ s) = value_from (acc * 10 + (c - 48)) s

-- The number that digits stand for.
abbrev pub value : Text → ℕ
value = value_from 0

decimal_from-IsDigits : (f n : ℕ) → IsDigits (decimal_from f n)
unfolding decimal_from
decimal_from-IsDigits zero n = tt
decimal_from-IsDigits (suc f) n = elim (Bool-cases (ltb n 10)) [
  | inl e ↦ rw e ((omega arith, ground arith), tt)
  | inr e ↦ rw e (
      All-append IsDigit (decimal_from f (n / 10)) ((48 + n % 10) ∷ [])
        (decimal_from-IsDigits f (n / 10)) ((omega arith, omega arith), tt))
]

value_from-append :
    (acc : ℕ) (s t : Text) → value_from acc (s ++ t) ≡ value_from (value_from acc s) t
value_from-append acc [] t = refl
value_from-append acc (c ∷ s) t = value_from-append (acc * 10 + (c - 48)) s t

value-decimal_from : (f n : ℕ) → n < f → value (decimal_from f n) ≡ n
unfolding decimal_from
value-decimal_from zero n h = absurd (omega arith)
value-decimal_from (suc f) n h = elim (Bool-cases (ltb n 10)) [
  | inl e ↦ rw e (omega arith)
  | inr e ↦
      let smaller : n / 10 < f = ground arith in
      rw e (
        value_from-append 0 (decimal_from f (n / 10)) ((48 + n % 10) ∷ [])
        ∙ omega (arith, value-decimal_from f (n / 10) smaller))
]

one_digit : (f n : ℕ) → n < 10 → decimal_from (suc f) n ≡ (48 + n) ∷ []
unfolding decimal_from
one_digit f n h = rw (lt→ltb n 10 h)

two_digits :
    (f n : ℕ) → 10 ≤ n → n < 100 → decimal_from (suc (suc f)) n ≡ (48 + n / 10) ∷ (48 + n % 10) ∷ []
unfolding decimal_from
two_digits f n h k =
    let tens : ltb n 10 ≡ false = ground arith in rw (tens, one_digit f (n / 10) (omega arith)) refl

decimal-small : (n : ℕ) → n < 10 → decimal n ≡ (48 + n) ∷ []
unfolding decimal
decimal-small n h = one_digit n n h

decimal-large : (n : ℕ) → 10 ≤ n → n < 100 → decimal n ≡ (48 + n / 10) ∷ (48 + n % 10) ∷ []
unfolding decimal
decimal-large n h k = ap (λ f. decimal_from f n) fuel ∙ two_digits (n - 1) n h k
  where
    fuel : suc n ≡ suc (suc (n - 1))
    fuel = omega arith

pub pad_2-decimal : (n : ℕ) → n < 100 → pad_2 (decimal n) ≡ (48 + n / 10) ∷ (48 + n % 10) ∷ []
unfolding pad_2
pad_2-decimal n h = elim (Bool-cases (ltb n 10)) [
  | inl e ↦ rw (decimal-small n (ltb→lt n 10 e)) (ground arith)
  | inr e ↦ rw (decimal-large n (ground arith) h) refl
]

snoc_filled : (s : Text) (c : ℕ) → s ++ c ∷ [] ≢ []
snoc_filled [] c = λ e. cc
snoc_filled (d ∷ s) c = λ e. cc

decimal_from-filled : (f n : ℕ) → decimal_from (suc f) n ≢ []
unfolding decimal_from
decimal_from-filled f n = elim (Bool-cases (ltb n 10)) [
  | inl e ↦ rw e (λ h. cc)
  | inr e ↦ rw e (snoc_filled (decimal_from f (n / 10)) (48 + n % 10))
]

-- A text that stands for a number.
pub record Shows (n : ℕ) (s : Text) : Type 0 where
  pub digits : IsDigits s
  pub filled : s ≢ []
  pub stands : value s ≡ n

pub decimal-Shows : (n : ℕ) → Shows n (decimal n)
unfolding decimal
decimal-Shows n = record {
  digits = decimal_from-IsDigits (suc n) n;
  filled = decimal_from-filled n n;
  stands = value-decimal_from (suc n) n (omega arith);
}

zeros-Shows : (k n : ℕ) (s : Text) → Shows n s → Shows n (zeros k s)
unfolding zeros
zeros-Shows zero n s h = h
zeros-Shows (suc k) n s h =
    let rest = zeros-Shows k n s h in
    record {
      digits = ((omega arith, omega arith), rest.digits);
      filled = λ e. cc;
      stands = rest.stands;
    }

pub pad_2-Shows : (n : ℕ) → Shows n (pad_2 (decimal n))
unfolding pad_2
pad_2-Shows n = zeros-Shows (2 - length (decimal n)) n (decimal n) (decimal-Shows n)

-- What stands in front of the last two digits.
front : ℕ → ℕ → Text
front f n = if ltb (n / 10) 10 then [] else decimal_from f (n / 10 / 10)

abbrev pub last_digits : ℕ → Text
last_digits n = (48 + n / 10 % 10) ∷ (48 + n % 10) ∷ []

two : (f n : ℕ) → 10 ≤ n → decimal_from (suc (suc f)) n ≡ front f n ++ last_digits n
unfolding decimal_from front
two f n h =
    let many : ltb n 10 ≡ false = ground arith in
    elim (Bool-cases (ltb (n / 10) 10)) [
      | inl e ↦
          let tens : n / 10 < 10 = ltb→lt (n / 10) 10 e in
          rw (many, e) (ap (λ d. (48 + d) ∷ (48 + n % 10) ∷ []) (omega arith))
      | inr e ↦ rw (many, e) (append_assoc (decimal_from f (n / 10 / 10)) _ _)
    ]

-- The last two digits of a number that has two.
pub decimal-last_digits : (n : ℕ) → 10 ≤ n → (s : Text) × (decimal n ≡ s ++ last_digits n)
unfolding decimal
decimal-last_digits n h = (front (n - 1) n, ap (λ f. decimal_from f n) fuel ∙ two (n - 1) n h)
  where
    fuel : suc n ≡ suc (suc (n - 1))
    fuel = omega arith
