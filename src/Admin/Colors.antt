-- ===== src/Admin/Colors.antt =====
-- admin/components/ThemeTokenFields.tsx: `rgbToHex` and `hexToRgb`, for channels that are whole
-- numbers. `parseInt(s, 16)` reads the digits at the front of the text; its white space, sign and `0x`
-- are not modelled, since the texts here are cut out of a `#rrggbb`.
use mullet.Base.{
  ℕ, zero, suc, ◌+◌, ◌-◌, ◌*◌, ◌/◌, ◌%◌, ◌≤◌, ◌<◌, min, Text, ◌&&◌, Option, none, some, [], ◌∷◌,
  ◌++◌, take, leb, ltb, ltb→lt, if◌then◌else◌, ◌≡◌, refl, ap, arith, Bool-cases, inl, inr,
}
use mullet.Base.Ints.{ℤ, pos, negsuc}

abbrev hex_digit : ℕ → ℕ
hex_digit n = if ltb n 10 then 48 + n else 87 + n

-- `n.toString(16)` of a number up to 255
abbrev to_hex : ℕ → Text
to_hex n = if ltb n 16 then hex_digit n ∷ [] else hex_digit (n / 16) ∷ hex_digit (n % 16) ∷ []

-- `padStart(2, '0')`
abbrev pad : Text → Text
pad [] = 48 ∷ 48 ∷ []
pad (c ∷ []) = 48 ∷ c ∷ []
pad (c ∷ d ∷ t) = c ∷ d ∷ t

-- `Math.min(255, Math.max(0, n))`
abbrev pub clamp : ℤ → ℕ
clamp (pos n) = min 255 n
clamp (negsuc n) = 0

unfoldable pub rgb_to_hex : ℤ → ℤ → ℤ → Text
rgb_to_hex r g b =
    35 ∷ (pad (to_hex (clamp r)) ++ (pad (to_hex (clamp g)) ++ pad (to_hex (clamp b))))

-- The value of a digit, in lower or upper case.
abbrev hex_value : ℕ → Option ℕ
hex_value c =
    if leb 48 c && leb c 57
    then some (c - 48)
    else if leb 97 c && leb c 102
    then some (c - 87)
    else if leb 65 c && leb c 70
    then some (c - 55)
    else none

abbrev shift : Option ℕ → ℕ → ℕ
shift none v = v
shift (some n) v = n * 16 + v

abbrev next : Option ℕ → Option ℕ → (ℕ → Option ℕ) → Option ℕ
next acc none rest = acc
next acc (some v) rest = rest (shift acc v)

-- none is `NaN`.
parse_from : Option ℕ → Text → Option ℕ
parse_from acc [] = acc
parse_from acc (c ∷ t) = next acc (hex_value c) (λ n. parse_from (some n) t)

abbrev drop : ℕ → Text → Text
drop zero t = t
drop (suc n) [] = []
drop (suc n) (c ∷ t) = drop n t

unfoldable pub hex_to_rgb : Text → Option ℕ × Option ℕ × Option ℕ
unfolding parse_from
hex_to_rgb hex = (
  parse_from none (take 2 (drop 1 hex)),
  parse_from none (take 2 (drop 3 hex)),
  parse_from none (take 2 (drop 5 hex)),
)

pad-to_hex : (n : ℕ) → n ≤ 255 → pad (to_hex n) ≡ hex_digit (n / 16) ∷ hex_digit (n % 16) ∷ []
pad-to_hex n h = elim (Bool-cases (ltb n 16)) [
  | inl e ↦
      let l = ltb→lt n 16 e in
      let high : n / 16 ≡ 0 = omega arith in
      let low : n % 16 ≡ n = omega arith in rw (e, high, low) refl
  | inr e ↦ rw e refl
]

digit_read : (d : ℕ) → d < 16 → hex_value (hex_digit d) ≡ some d
digit_read d h = ground arith

byte_read :
    (n : ℕ) → n ≤ 255 → parse_from none (hex_digit (n / 16) ∷ hex_digit (n % 16) ∷ []) ≡ some n
unfolding parse_from
byte_read n h =
    let high = digit_read (n / 16) (omega arith) in
    let low = digit_read (n % 16) (omega arith) in rw (high, low) (ap some (omega arith))

clamp_le : (x : ℤ) → clamp x ≤ 255
clamp_le (pos n) = omega arith
clamp_le (negsuc n) = omega arith

-- The channels of a colour that is written as `#rrggbb` are read back, each cut to 0 to 255.
pub hex_to_rgb-rgb_to_hex :
    (r g b : ℤ) → hex_to_rgb (rgb_to_hex r g b) ≡ (some (clamp r), some (clamp g), some (clamp b))
unfolding hex_to_rgb rgb_to_hex
hex_to_rgb-rgb_to_hex r g b =
    rw
      (
        pad-to_hex (clamp r) (clamp_le r),
        pad-to_hex (clamp g) (clamp_le g),
        pad-to_hex (clamp b) (clamp_le b),
        byte_read (clamp r) (clamp_le r),
        byte_read (clamp g) (clamp_le g),
        byte_read (clamp b) (clamp_le b),
      )
      refl
