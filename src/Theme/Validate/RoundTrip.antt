-- ===== src/Theme/Validate/RoundTrip.antt =====
-- Export and import: ThemeEditorPage.tsx writes the tokens as a JSON object (downloadJSON.ts), and
-- its import reads such an object back.
use mullet.Base.{true, ◌≡◌, ◌≢◌, refl, [], inl}
use mullet.Theme.Tokens.{ThemeTokens, CardStyle}
use mullet.Theme.Json.{str, num, obj, Fields, end, field, Floats}
use mullet.Theme.Validate.{ok, in_range, card_style_or_default, validate_theme_tokens}
use mullet.Theme.Validate.Keys.{type_text, style_text}
use mullet.Theme.Validate.Laws.{IsImported, validate_iff}

module _ (floats : Floats) where
  open floats use {Number}

  -- The object that `JSON.stringify(tokens)` writes and `JSON.parse` reads back.
  unfoldable pub exported : ThemeTokens Number → Fields Number
  exported t =
      field "background"
        (obj (
          field "type" (str (type_text t.background.type))
            (field "value" (str t.background.value) end)))
        (field "cardBackground" (str t.card_background) (
          field "cardBorder" (str t.card_border) (
            field "cardStyle" (str (style_text t.card_style)) (
              field "textColor" (str t.text_color) (
                field "accentColor" (str t.accent_color) (
                  field "successColor" (str t.success_color) (
                    field "warningColor" (str t.warning_color) (
                      field "errorColor" (str t.error_color) (
                        field "infoColor" (str t.info_color) (
                          field "fontFamily" (str t.font_family) (
                            field "fontSize" (str t.font_size) (
                              field "headingFontFamily" (str t.heading_font_family) (
                                field "fontSizeSmall" (str t.font_size_small) (
                                  field "fontSizeLarge" (str t.font_size_large) (
                                    field "borderRadius" (str t.border_radius) (
                                      field "opacity" (num t.opacity)
                                        (field "blur" (str t.blur) end)))))))))))))))))

  -- A theme with no empty string and an opacity in range.
  pub record IsComplete (t : ThemeTokens Number) : Type 0 where
    pub value : t.background.value ≢ []
    pub card_background : t.card_background ≢ []
    pub card_border : t.card_border ≢ []
    pub text_color : t.text_color ≢ []
    pub accent_color : t.accent_color ≢ []
    pub success : t.success_color ≢ []
    pub warning : t.warning_color ≢ []
    pub errors : t.error_color ≢ []
    pub info : t.info_color ≢ []
    pub font_family : t.font_family ≢ []
    pub font_size : t.font_size ≢ []
    pub heading : t.heading_font_family ≢ []
    pub small : t.font_size_small ≢ []
    pub large : t.font_size_large ≢ []
    pub border_radius : t.border_radius ≢ []
    pub blur : t.blur ≢ []
    pub opacity : in_range floats t.opacity ≡ true

  exported-card_style :
      (t : ThemeTokens Number) → card_style_or_default floats (exported t) ≡ t.card_style
  unfolding exported card_style_or_default
  exported-card_style t = known t.card_style
    where
      known :
          (s : CardStyle)
          → card_style_or_default floats (exported (record t { card_style = s })) ≡ s
      known CardStyle.glass = refl
      known CardStyle.solid = refl

  exported-IsImported : (t : ThemeTokens Number) → IsComplete t → IsImported floats (exported t) t
  unfolding exported
  exported-IsImported t c = record {
    bg =
        field "type" (str (type_text t.background.type))
          (field "value" (str t.background.value) end);
    has_background = refl;
    background = record { type = refl; value = (refl, c.value) };
    card_background = (refl, c.card_background);
    card_border = (refl, c.card_border);
    text_color = (refl, c.text_color);
    accent_color = (refl, c.accent_color);
    font_family = (refl, c.font_family);
    font_size = (refl, c.font_size);
    border_radius = (refl, c.border_radius);
    blur = (refl, c.blur);
    opacity = (refl, c.opacity);
    card_style = exported-card_style t;
    success = inl (refl, c.success);
    warning = inl (refl, c.warning);
    errors = inl (refl, c.errors);
    info = inl (refl, c.info);
    heading = inl (refl, c.heading);
    small = inl (refl, c.small);
    large = inl (refl, c.large);
  }

  -- Importing an exported theme gives the theme back, if none of its strings is empty and its
  -- opacity is a number between 0 and 1.
  pub validate-exported :
      (t : ThemeTokens Number)
      → IsComplete t
      → validate_theme_tokens floats (obj (exported t)) ≡ ok t
  validate-exported t c = (validate_iff floats (exported t) t).1 (exported-IsImported t c)
