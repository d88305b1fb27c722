-- ===== src/Register/Pairing.antt =====
-- `generateClientId`: six random bytes as letters and digits, three and three around a dash.
use mullet.Base.{
  ℕ, zero, suc, ◌%◌, ◌<◌, Text, codes, some, List, [], ◌∷◌, ◌++◌, map, length, take, get_elem?,
  get_elem?_total, All, or_else, ◌≡◌, refl, arith, get_elem?-lt, ◌↔◌, subst,
}

unfoldable pub pairing_charset : Text
pairing_charset = codes "ABCDEFGHJKMNPQRSTUVWXYZ23456789"

-- `PAIRING_CHARSET[b % PAIRING_CHARSET.length]`
unfoldable pub pairing_char : ℕ → ℕ
pairing_char b = or_else (get_elem? pairing_charset (b % length pairing_charset)) 0

-- The six bytes that `crypto.getRandomValues` fills in.
pub record Bytes : Type 0 where
  pub b0 : ℕ
  pub b1 : ℕ
  pub b2 : ℕ
  pub b3 : ℕ
  pub b4 : ℕ
  pub b5 : ℕ

abbrev pub bytes : Bytes → List ℕ
bytes r = r.b0 ∷ r.b1 ∷ r.b2 ∷ r.b3 ∷ r.b4 ∷ r.b5 ∷ []

abbrev drop : ℕ → Text → Text
drop zero t = t
drop (suc n) [] = []
drop (suc n) (c ∷ t) = drop n t

unfoldable pub generate_client_id : Bytes → Text
generate_client_id r =
    let chars = map pairing_char (bytes r) in take 3 chars ++ (codes "-" ++ take 3 (drop 3 chars))

-- A unit of the alphabet.
abbrev pub InCharset : ℕ → Type 0
InCharset c = (i : ℕ) × (get_elem? pairing_charset i ≡ some c)

pub record IsPairingCode (t : Text) : Type 0 where
  pub c0 : ℕ
  pub c1 : ℕ
  pub c2 : ℕ
  pub c3 : ℕ
  pub c4 : ℕ
  pub c5 : ℕ
  pub shape : t ≡ c0 ∷ c1 ∷ c2 ∷ 45 ∷ c3 ∷ c4 ∷ c5 ∷ []
  pub from_charset : All InCharset (c0 ∷ c1 ∷ c2 ∷ c3 ∷ c4 ∷ c5 ∷ [])

length_charset : length pairing_charset ≡ 31
unfolding pairing_charset
length_charset = refl

index_kept : (b n : ℕ) → n ≡ 31 → b < n → b % n ≡ b
index_kept b n e h = let h' : b < 31 = omega arith in rw e (omega arith)

index_bound : (b n : ℕ) → n ≡ 31 → b % n < n
index_bound b n e = omega arith

-- A byte for the character at an index.
pairing_char_found : (b c : ℕ) → get_elem? pairing_charset b ≡ some c → pairing_char b ≡ c
unfolding pairing_char
pairing_char_found b c h =
    rw
      (index_kept b (length pairing_charset) length_charset (get_elem?-lt pairing_charset b c h), h)
      refl

pairing_char-InCharset : (b : ℕ) → InCharset (pairing_char b)
unfolding pairing_char
pairing_char-InCharset b =
    let (c, e) =
      get_elem?_total pairing_charset (b % length pairing_charset)
        (index_bound b (length pairing_charset) length_charset) in
    (b % length pairing_charset, rw e refl)

-- Such a byte exists.
pairing_byte : (c : ℕ) → InCharset c → (b : ℕ) × (b < 256) × (pairing_char b ≡ c)
pairing_byte c (b, h) =
    let small = get_elem?-lt pairing_charset b c h in
    let length_31 = length_charset in (b, omega arith, pairing_char_found b c h)

generate_client_id-IsPairingCode : (r : Bytes) → IsPairingCode (generate_client_id r)
unfolding generate_client_id
generate_client_id-IsPairingCode r = record {
  c0 = pairing_char r.b0;
  c1 = pairing_char r.b1;
  c2 = pairing_char r.b2;
  c3 = pairing_char r.b3;
  c4 = pairing_char r.b4;
  c5 = pairing_char r.b5;
  shape = refl;
  from_charset = All-of-chars (bytes r);
}
  where
    All-of-chars : (bs : List ℕ) → All InCharset (map pairing_char bs)
    All-of-chars [] = tt
    All-of-chars (b ∷ bs) = (pairing_char-InCharset b, All-of-chars bs)

generate_client_id_onto :
    (t : Text)
    → IsPairingCode t
    → (r : Bytes) × All (λ b. b < 256) (bytes r) × (generate_client_id r ≡ t)
unfolding generate_client_id
generate_client_id_onto t p =
    let (h0, (h1, (h2, (h3, (h4, (h5, _)))))) = p.from_charset in
    let (b0, l0, e0) = pairing_byte p.c0 h0 in
    let (b1, l1, e1) = pairing_byte p.c1 h1 in
    let (b2, l2, e2) = pairing_byte p.c2 h2 in
    let (b3, l3, e3) = pairing_byte p.c3 h3 in
    let (b4, l4, e4) = pairing_byte p.c4 h4 in
    let (b5, l5, e5) = pairing_byte p.c5 h5 in
    (
      record { b0 = b0; b1 = b1; b2 = b2; b3 = b3; b4 = b4; b5 = b5 },
      (l0, (l1, (l2, (l3, (l4, (l5, tt)))))),
      rw (p.shape, e0, e1, e2, e3, e4, e5) refl,
    )

-- An identifier is made from six bytes exactly if it is a pairing code: three characters of the
-- alphabet, a dash and three more.
pub generate_client_id_iff :
    (t : Text)
    → IsPairingCode t ↔ ((r : Bytes) × All (λ b. b < 256) (bytes r) × (generate_client_id r ≡ t))
generate_client_id_iff t = (
  generate_client_id_onto t,
  λ (r, _, e). subst IsPairingCode e (generate_client_id-IsPairingCode r),
)
