-- ===== src/Theme/Validate/Keys.antt =====
-- What the validator asks of one key, as a relation between the object and the value it reads.
use mullet.Base.{
  Text, codes, String, true, Option, none, some, [], ◌∷◌, ◌≡◌, ◌≢◌, ◌⊎◌, inl, inr, refl, sym, ap,
  ◌∙◌, arith, text_eq_iff, Bool-cases, if◌then◌else◌,
}
use mullet.Theme.Tokens.{BackgroundType, CardStyle}
use mullet.Theme.Json.{
  Json, null, bool, num, str, arr, obj, Fields, get, as_object, as_string, as_number, Floats,
}
use mullet.Theme.Validate.{
  ok, error, ImportError, non_empty, required, backfilled, or_error, or_default, background_type_of,
  in_range, opacity_of,
}

-- The key holds the non-empty string `s`.
abbrev pub Given : {Number : Type 0} → Fields Number → String → Text → Type 0
Given o key s = (get key o ≡ some (str s)) × (s ≢ [])

-- The key holds `s`, or holds no non-empty string and `s` is the default.
abbrev pub Backfills : {Number : Type 0} → Fields Number → String → Text → Text → Type 0
Backfills o key d s = Given o key s ⊎ (((r : Text) → ¬ (Given o key r)) × (s ≡ d))

abbrev pub type_text : BackgroundType → Text
type_text BackgroundType.solid = codes "solid"
type_text BackgroundType.gradient = codes "gradient"
type_text BackgroundType.image = codes "image"

abbrev pub style_text : CardStyle → Text
style_text CardStyle.glass = codes "glass"
style_text CardStyle.solid = codes "solid"

pub background_type_of_sound :
    (s : Text) (k : BackgroundType) → background_type_of s ≡ some k → s ≡ type_text k
background_type_of_sound s k h = ground (
  arith,
  text_eq_iff s (codes "solid"),
  text_eq_iff s (codes "gradient"),
  text_eq_iff s (codes "image"),
)

pub background_type_of-type_text : (k : BackgroundType) → background_type_of (type_text k) ≡ some k
background_type_of-type_text BackgroundType.solid = refl
background_type_of-type_text BackgroundType.gradient = refl
background_type_of-type_text BackgroundType.image = refl

module _ {Number : Type 0} where
  pub as_string_sound :
      (v : Option (Json Number)) (s : Text) → as_string v ≡ some s → v ≡ some (str s)
  as_string_sound none s h = cc
  as_string_sound (some null) s h = cc
  as_string_sound (some (bool b)) s h = cc
  as_string_sound (some (num x)) s h = cc
  as_string_sound (some (str t)) s h = cc
  as_string_sound (some (arr xs)) s h = cc
  as_string_sound (some (obj fs)) s h = cc

  pub as_object_sound :
      (v : Option (Json Number)) (fs : Fields Number) → as_object v ≡ some fs → v ≡ some (obj fs)
  as_object_sound none s h = cc
  as_object_sound (some null) s h = cc
  as_object_sound (some (bool b)) s h = cc
  as_object_sound (some (num x)) s h = cc
  as_object_sound (some (str t)) s h = cc
  as_object_sound (some (arr xs)) s h = cc
  as_object_sound (some (obj fs)) s h = cc

  as_number_sound :
      (v : Option (Json Number)) (x : Number) → as_number v ≡ some x → v ≡ some (num x)
  as_number_sound none s h = cc
  as_number_sound (some null) s h = cc
  as_number_sound (some (bool b)) s h = cc
  as_number_sound (some (num x)) s h = cc
  as_number_sound (some (str t)) s h = cc
  as_number_sound (some (arr xs)) s h = cc
  as_number_sound (some (obj fs)) s h = cc

non_empty_sound : (o : Option Text) (s : Text) → non_empty o ≡ some s → (o ≡ some s) × (s ≢ [])
non_empty_sound none s h = absurd (cc)
non_empty_sound (some []) s h = absurd (cc)
non_empty_sound (some (c ∷ t)) s h = (h, λ e. cc)

non_empty_complete : (s : Text) → s ≢ [] → non_empty (some s) ≡ some s
non_empty_complete [] h = absurd (h refl)
non_empty_complete (c ∷ s) h = refl

pub or_error_sound {ℓ} :
    {A : Type ℓ} (o : Option A) (e : ImportError) (a : A) → or_error o e ≡ ok a → o ≡ some a
or_error_sound none e a h = cc
or_error_sound (some b) e a h = cc

module _ {Number : Type 0} (o : Fields Number) (key : String) where
  -- `non_empty` of the key's string is exactly a given value.
  pub Given-sound : (s : Text) → non_empty (as_string (get key o)) ≡ some s → Given o key s
  Given-sound s h =
      let (e, n) = non_empty_sound (as_string (get key o)) s h in
      (as_string_sound (get key o) s e, n)

  pub Given-complete : (s : Text) → Given o key s → non_empty (as_string (get key o)) ≡ some s
  Given-complete s (e, n) = ap (λ v. non_empty (as_string v)) e ∙ non_empty_complete s n

module _ (floats : Floats) (o : Fields (Floats.Number floats)) (key : String) where
  pub required_sound : (s : Text) → required floats o key ≡ ok s → Given o key s
  unfolding required
  required_sound s h = Given-sound o key s (or_error_sound _ _ s h)

  pub required_complete : (s : Text) → Given o key s → required floats o key ≡ ok s
  unfolding required
  required_complete s g =
      ap (λ v. or_error v (ImportError.empty_field key)) (Given-complete o key s g)

  backfilled_cases :
      (d : Text) (v : Option Text)
      → non_empty (as_string (get key o)) ≡ v
      → Backfills o key d (or_default v d)
  backfilled_cases d none h = inr (λ r g. let e = sym (Given-complete o key r g) ∙ h in cc, refl)
  backfilled_cases d (some s) h = inl (Given-sound o key s h)

  pub backfilled_sound : (d : Text) → Backfills o key d (backfilled floats o key d)
  unfolding backfilled
  backfilled_sound d = backfilled_cases d (non_empty (as_string (get key o))) refl

  pub backfilled_complete : (d s : Text) → Backfills o key d s → backfilled floats o key d ≡ s
  backfilled_complete d s b = agree (backfilled_sound d) b
    where
      agree : {r : Text} → Backfills o key d r → Backfills o key d s → r ≡ s
      agree (inl (e, _)) (inl (e', _)) = cc
      agree (inl g) (inr (n, _)) = absurd (n _ g)
      agree (inr (n, _)) (inl g) = absurd (n _ g)
      agree (inr (_, p)) (inr (_, q)) = p ∙ sym q

module _ (floats : Floats) (o : Fields (Floats.Number floats)) where
  pub opacity_sound :
      (x : Floats.Number floats)
      → opacity_of floats o ≡ ok x
      → (get "opacity" o ≡ some (num x)) × (in_range floats x ≡ true)
  unfolding opacity_of
  opacity_sound x h = found (as_number (get "opacity" o)) refl h
    where
      found :
          (v : Option (Floats.Number floats))
          → as_number (get "opacity" o) ≡ v
          → (elim v [
            | none ↦ error ImportError.opacity_range
            | some y ↦ if in_range floats y then ok y else error ImportError.opacity_range
          ])
            ≡ ok x
          → (get "opacity" o ≡ some (num x)) × (in_range floats x ≡ true)
      found none e h = absurd (cc)
      found (some y) e h = elim (Bool-cases (in_range floats y)) [
        | inl t ↦ let y-x : y ≡ x = ground arith in (as_number_sound _ x (rw y-x at e), rw y-x at t)
        | inr f ↦ absurd (ground arith)
      ]

  pub opacity_complete :
      (x : Floats.Number floats)
      → get "opacity" o ≡ some (num x)
      → in_range floats x ≡ true
      → opacity_of floats o ≡ ok x
  unfolding opacity_of
  opacity_complete x e t = rw (e, opacity_of) (rw t)
