-- ===== src/Widgets/Hashes.antt =====
-- plugins/shared/idColor.ts: a colour of a fixed palette for an identifier, by a hash in signed
-- 32-bit numbers.
use mullet.Base.{
  ℕ, ◌+◌, ◌-◌, ◌*◌, ◌%◌, ◌<◌, ◌≤◌, Text, codes, Option, some, List, [], ◌∷◌, length, get_elem?,
  get_elem?_total, ltb, ltb→lt, if◌then◌else◌, ◌≡◌, refl, ap, ◌∙◌, arith, Bool-cases, inl, inr,
}
use mullet.Base.Ints.{ℤ, pos, negsuc}

abbrev pub two_31 : ℕ
two_31 = 2147483648

abbrev pub two_32 : ℕ
two_32 = 4294967296

-- The signed number that 32 bits stand for.
abbrev pub signed : ℕ → ℤ
signed m = if ltb m two_31 then pos m else negsuc (two_32 - m - 1)

-- `x | 0`
unfoldable pub to_int32 : ℤ → ℤ
to_int32 (pos n) = signed (n % two_32)
to_int32 (negsuc n) = signed (two_32 - 1 - n % two_32)

-- `hash * 31 + c`: where the hash is -(n + 1), the sum is c - 31 (n + 1).
unfoldable pub times_31_plus : ℤ → ℕ → ℤ
times_31_plus (pos n) c = pos (n * 31 + c)
times_31_plus (negsuc n) c =
    if ltb c ((n + 1) * 31) then negsuc ((n + 1) * 31 - c - 1) else pos (c - (n + 1) * 31)

unfoldable pub hash_from : ℤ → Text → ℤ
hash_from hash [] = hash
hash_from hash (c ∷ s) = hash_from (to_int32 (times_31_plus hash c)) s

unfoldable pub palette : List Text
palette =
    codes "#4285F4"
    ∷ codes "#EA4335"
    ∷ codes "#34A853"
    ∷ codes "#FBBC04"
    ∷ codes "#A142F4"
    ∷ codes "#00ACC1"
    ∷ codes "#FF7043"
    ∷ codes "#9E9D24"
    ∷ []

abbrev abs : ℤ → ℕ
abs (pos n) = n
abs (negsuc n) = n + 1

-- `colorForID`, for the text of the identifier; none would be `undefined`.
unfoldable pub color_for_id : Text → Option Text
color_for_id id = get_elem? palette (abs (hash_from (pos 0) id) % length palette)

-- A signed 32-bit number.
abbrev pub IsInt32 : ℤ → Type 0
IsInt32 (pos n) = n < two_31
IsInt32 (negsuc n) = n < two_31

signed-IsInt32 : (m : ℕ) → m < two_32 → IsInt32 (signed m)
signed-IsInt32 m h = elim (Bool-cases (ltb m two_31)) [
  | inl e ↦ let l = ltb→lt m two_31 e in rw e l
  | inr e ↦ let l : two_31 ≤ m = ground arith in rw e (omega arith)
]

to_int32-IsInt32 : (x : ℤ) → IsInt32 (to_int32 x)
unfolding to_int32
to_int32-IsInt32 (pos n) = signed-IsInt32 (n % two_32) (omega arith)
to_int32-IsInt32 (negsuc n) = signed-IsInt32 (two_32 - 1 - n % two_32) (omega arith)

hash_from-IsInt32 : (hash : ℤ) (s : Text) → IsInt32 hash → IsInt32 (hash_from hash s)
unfolding hash_from
hash_from-IsInt32 hash [] h = h
hash_from-IsInt32 hash (c ∷ s) h =
    hash_from-IsInt32 (to_int32 (times_31_plus hash c)) s (to_int32-IsInt32 (times_31_plus hash c))

-- The same hash in unsigned 32-bit numbers, as the loop of plugins/quote-of-the-day keeps it.
unfoldable pub unsigned_from : ℕ → Text → ℕ
unsigned_from u [] = u
unsigned_from u (c ∷ s) = unsigned_from ((u * 31 + c) % two_32) s

step_signed :
    (u c : ℕ) → u < two_32 → to_int32 (times_31_plus (signed u) c) ≡ signed ((u * 31 + c) % two_32)
unfolding to_int32 times_31_plus
step_signed u c h = elim (Bool-cases (ltb u two_31)) [
  | inl e ↦ rw e refl
  | inr e ↦ elim (Bool-cases (ltb c ((two_32 - u - 1 + 1) * 31))) [
    | inl k ↦ let l = ltb→lt c ((two_32 - u - 1 + 1) * 31) k in rw (e, k) (ap signed (omega arith))
    | inr k ↦
        let l : (two_32 - u - 1 + 1) * 31 ≤ c = ground arith in rw (e, k) (ap signed (omega arith))
  ]
]

below : (n : ℕ) → n % two_32 < two_32
below n = omega arith

-- The hash of a text is the signed reading of the hash in unsigned 32-bit numbers, and so a signed
-- 32-bit number.
pub hash_from-signed :
    (u : ℕ) (s : Text)
    → u < two_32
    → (hash_from (signed u) s ≡ signed (unsigned_from u s)) × IsInt32 (hash_from (signed u) s)
unfolding hash_from unsigned_from
hash_from-signed u s h = (reads u s h, hash_from-IsInt32 (signed u) s (signed-IsInt32 u h))
  where
    reads : (u : ℕ) (s : Text) → u < two_32 → hash_from (signed u) s ≡ signed (unsigned_from u s)
    reads u [] h = refl
    reads u (c ∷ s) h =
        ap (λ x. hash_from x s) (step_signed u c h)
        ∙ reads ((u * 31 + c) % two_32) s (below (u * 31 + c))

color_index : (n l : ℕ) → l ≡ 8 → n % l < l
color_index n l e = rw e (omega arith)

length-palette : length palette ≡ 8
unfolding palette
length-palette = refl

-- Every identifier has a colour of the palette.
pub color_for_id-found : (id : Text) → (c : Text) × (color_for_id id ≡ some c)
unfolding color_for_id
color_for_id-found id =
    get_elem?_total palette (abs (hash_from (pos 0) id) % length palette)
      (color_index (abs (hash_from (pos 0) id)) (length palette) length-palette)
