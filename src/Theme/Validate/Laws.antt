-- ===== src/Theme/Validate/Laws.antt =====
-- The validator as a relation between the imported value and the theme.
use mullet.Base.{Text, String, true, Option, none, some, ◌≡◌, ◌↔◌, refl, ap, ◌∙◌, subst}
use mullet.Theme.Tokens.{ThemeTokens, BackgroundType, Background, default_theme}
use mullet.Theme.Json.{str, num, obj, Fields, get, as_object, as_string, Floats}
use mullet.Theme.Validate.{
  Validated, ok, error, ImportError, ◌>>=◌, or_error, bind, background_type_of, non_empty,
  card_style_or_default, in_range, validate_theme_tokens, required, opacity_of,
}
use mullet.Theme.Validate.Keys.{
  Given, Backfills, type_text, background_type_of_sound, background_type_of-type_text,
  as_object_sound, as_string_sound, or_error_sound, Given-sound, Given-complete, required_sound,
  required_complete, backfilled_sound, backfilled_complete, opacity_sound, opacity_complete,
}

-- A property of every theme that a run of the validator returns.
Ensures {ℓ} : {A : Type ℓ} → (A → Type 0) → Validated A → Type 0
Ensures P (ok a) = P a
Ensures P (error e) = Unit

Ensures-bind {ℓ κ} :
    {A : Type ℓ} {B : Type κ} (P : B → Type 0) (m : Validated A) (f : A → Validated B)
    → ((a : A) → m ≡ ok a → Ensures P (f a))
    → Ensures P (m >>= f)
unfolding Ensures
Ensures-bind P (ok a) f k = k a refl
Ensures-bind P (error e) f k = tt

Ensures-ok {ℓ} : {A : Type ℓ} (P : A → Type 0) (a : A) → P a → Ensures P (ok a)
unfolding Ensures
Ensures-ok P a h = h

Ensures-eq {ℓ} :
    {A : Type ℓ} (P : A → Type 0) (m : Validated A) (a : A) → Ensures P m → m ≡ ok a → P a
unfolding Ensures
Ensures-eq P m a h e = subst (Ensures P) e h

bind-some {ℓ κ} :
    {A : Type ℓ} {B : Type κ} (o : Option A) (f : A → Option B) (b : B)
    → bind o f ≡ some b
    → (a : A) × (o ≡ some a) × (f a ≡ some b)
bind-some none f b h = cc
bind-some (some a) f b h = (a, refl, h)

module _ (floats : Floats) where
  open floats use {Number, one}

  -- The background object holds this type and this non-empty value.
  pub record HasBackground (bg : Fields Number) (b : Background) : Type 0 where
    pub type : get "type" bg ≡ some (str (type_text b.type))
    pub value : Given bg "value" b.value

  -- The theme is what the object says: every field of the original schema is there and non-empty,
  -- the opacity is in range, and the later fields are there or have their defaults.
  pub record IsImported (o : Fields Number) (t : ThemeTokens Number) : Type 0 where
    pub bg : Fields Number
    pub has_background : get "background" o ≡ some (obj bg)
    pub background : HasBackground bg t.background
    pub card_background : Given o "cardBackground" t.card_background
    pub card_border : Given o "cardBorder" t.card_border
    pub text_color : Given o "textColor" t.text_color
    pub accent_color : Given o "accentColor" t.accent_color
    pub font_family : Given o "fontFamily" t.font_family
    pub font_size : Given o "fontSize" t.font_size
    pub border_radius : Given o "borderRadius" t.border_radius
    pub blur : Given o "blur" t.blur
    pub opacity : (get "opacity" o ≡ some (num t.opacity)) × (in_range floats t.opacity ≡ true)
    pub card_style : card_style_or_default floats o ≡ t.card_style
    pub success : Backfills o "successColor" (default_theme one).success_color t.success_color
    pub warning : Backfills o "warningColor" (default_theme one).warning_color t.warning_color
    pub errors : Backfills o "errorColor" (default_theme one).error_color t.error_color
    pub info : Backfills o "infoColor" (default_theme one).info_color t.info_color
    pub heading :
        Backfills o "headingFontFamily"
          (default_theme one).heading_font_family
          t.heading_font_family
    pub small : Backfills o "fontSizeSmall" (default_theme one).font_size_small t.font_size_small
    pub large : Backfills o "fontSizeLarge" (default_theme one).font_size_large t.font_size_large

  abbrev type_of : Fields Number → Validated BackgroundType
  type_of bg =
      or_error (bind (as_string (get "type" bg)) background_type_of) ImportError.background_type

  abbrev value_of : Fields Number → Validated Text
  value_of bg = or_error (non_empty (as_string (get "value" bg))) ImportError.background_value

  type_sound :
      (bg : Fields Number) (k : BackgroundType)
      → type_of bg ≡ ok k
      → get "type" bg ≡ some (str (type_text k))
  type_sound bg k h =
      let (s, hs, hk) =
        bind-some (as_string (get "type" bg)) background_type_of k
          (or_error_sound _ ImportError.background_type k h) in
      as_string_sound _ s hs ∙ ap (λ r. some (str r)) (background_type_of_sound s k hk)

  validate-Ensures :
      (o : Fields Number) → Ensures (IsImported o) (validate_theme_tokens floats (obj o))
  unfolding validate_theme_tokens
  validate-Ensures o =
      Ensures-bind (IsImported o)
        (or_error (as_object (get "background" o)) ImportError.background_missing) _
        λ bg hbg. Ensures-bind (IsImported o) (type_of bg) _ λ kind hkind.
          Ensures-bind (IsImported o) (value_of bg) _ λ value hvalue.
            Ensures-bind (IsImported o) (req "cardBackground") _ λ card_bg hcard_bg.
              Ensures-bind (IsImported o) (req "cardBorder") _ λ border hborder.
                Ensures-bind (IsImported o) (req "textColor") _ λ text htext.
                  Ensures-bind (IsImported o) (req "accentColor") _ λ accent haccent.
                    Ensures-bind (IsImported o) (req "fontFamily") _ λ family hfamily.
                      Ensures-bind (IsImported o) (req "fontSize") _ λ size hsize.
                        Ensures-bind (IsImported o) (req "borderRadius") _ λ radius hradius.
                          Ensures-bind (IsImported o) (req "blur") _ λ blurred hblurred.
                            Ensures-bind (IsImported o) (opacity_of floats o) _ λ opaque hopaque.
                              Ensures-ok (IsImported o) _ (record {
                                bg = bg;
                                has_background =
                                    as_object_sound _ bg
                                      (or_error_sound _ ImportError.background_missing bg hbg);
                                background = record {
                                  type = type_sound bg kind hkind;
                                  value =
                                      Given-sound bg "value" value (
                                        or_error_sound _ ImportError.background_value value hvalue);
                                };
                                card_background = required_sound floats o _ card_bg hcard_bg;
                                card_border = required_sound floats o _ border hborder;
                                text_color = required_sound floats o _ text htext;
                                accent_color = required_sound floats o _ accent haccent;
                                font_family = required_sound floats o _ family hfamily;
                                font_size = required_sound floats o _ size hsize;
                                border_radius = required_sound floats o _ radius hradius;
                                blur = required_sound floats o _ blurred hblurred;
                                opacity = opacity_sound floats o opaque hopaque;
                                card_style = refl;
                                success = backfilled_sound floats o _ _;
                                warning = backfilled_sound floats o _ _;
                                errors = backfilled_sound floats o _ _;
                                info = backfilled_sound floats o _ _;
                                heading = backfilled_sound floats o _ _;
                                small = backfilled_sound floats o _ _;
                                large = backfilled_sound floats o _ _;
                              })
    where
      req : String → Validated Text
      req = required floats o

  validate_complete :
      (o : Fields Number) (t : ThemeTokens Number)
      → IsImported o t
      → validate_theme_tokens floats (obj o) ≡ ok t
  unfolding validate_theme_tokens
  validate_complete o t i = simp (
    ap as_object i.has_background,
    ap (λ v. bind (as_string v) background_type_of) i.background.type,
    background_type_of-type_text,
    Given-complete i.bg "value" _ i.background.value,
    required_complete floats o "cardBackground" _ i.card_background,
    required_complete floats o "cardBorder" _ i.card_border,
    required_complete floats o "textColor" _ i.text_color,
    required_complete floats o "accentColor" _ i.accent_color,
    required_complete floats o "fontFamily" _ i.font_family,
    required_complete floats o "fontSize" _ i.font_size,
    required_complete floats o "borderRadius" _ i.border_radius,
    required_complete floats o "blur" _ i.blur,
    opacity_complete floats o _ i.opacity.0 i.opacity.1,
    i.card_style,
    backfilled_complete floats o "successColor" _ _ i.success,
    backfilled_complete floats o "warningColor" _ _ i.warning,
    backfilled_complete floats o "errorColor" _ _ i.errors,
    backfilled_complete floats o "infoColor" _ _ i.info,
    backfilled_complete floats o "headingFontFamily" _ _ i.heading,
    backfilled_complete floats o "fontSizeSmall" _ _ i.small,
    backfilled_complete floats o "fontSizeLarge" _ _ i.large,
  )

  -- An object is imported as a theme exactly if each field of the original schema is a non-empty
  -- string of the object and so in the theme, the background and the opacity are valid, and each
  -- later field is the object's non-empty string or, where there is none, the default.
  pub validate_iff :
      (o : Fields Number) (t : ThemeTokens Number)
      → (validate_theme_tokens floats (obj o) ≡ ok t) ↔ IsImported o t
  validate_iff o t = (Ensures-eq (IsImported o) _ t (validate-Ensures o), validate_complete o t)
