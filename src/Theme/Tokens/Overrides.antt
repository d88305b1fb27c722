-- ===== src/Theme/Tokens/Overrides.antt =====
-- The cascade of overrides: display theme, screen override (ScreenGrid.tsx), card override
-- (DisplayCard.tsx), and the keys that the Designer's two panels let an admin override.
use mullet.Base.{
  Bool, false, Option, none, some, or_else, is_some, List, [], ◌∷◌, ◌≡◌, ◌⊎◌, inl, inr, refl,
}
use mullet.Theme.Tokens.{ThemeTokens, PartialTokens, merge, merge_partial, later}

-- `keyof ThemeTokens`
pub data TokenKey : Type 0 where
  background card_background card_border card_style text_color accent_color : TokenKey
  success_color warning_color error_color info_color font_family font_size : TokenKey
  heading_font_family font_size_small font_size_large border_radius opacity blur : TokenKey

-- DesignerPage.tsx, `CARD_OVERRIDE_FIELDS` and `SCREEN_OVERRIDE_FIELDS`
abbrev pub card_override_fields : List TokenKey
card_override_fields = TokenKey.card_background ∷ TokenKey.accent_color ∷ TokenKey.opacity ∷ []

abbrev pub screen_override_fields : List TokenKey
screen_override_fields = TokenKey.font_family ∷ TokenKey.heading_font_family ∷ []

module _ {Number : Type 0} where
  -- Whether a partial object has the key.
  abbrev pub has : PartialTokens Number → TokenKey → Bool
  has o TokenKey.background = is_some o.background
  has o TokenKey.card_background = is_some o.card_background
  has o TokenKey.card_border = is_some o.card_border
  has o TokenKey.card_style = is_some o.card_style
  has o TokenKey.text_color = is_some o.text_color
  has o TokenKey.accent_color = is_some o.accent_color
  has o TokenKey.success_color = is_some o.success_color
  has o TokenKey.warning_color = is_some o.warning_color
  has o TokenKey.error_color = is_some o.error_color
  has o TokenKey.info_color = is_some o.info_color
  has o TokenKey.font_family = is_some o.font_family
  has o TokenKey.font_size = is_some o.font_size
  has o TokenKey.heading_font_family = is_some o.heading_font_family
  has o TokenKey.font_size_small = is_some o.font_size_small
  has o TokenKey.font_size_large = is_some o.font_size_large
  has o TokenKey.border_radius = is_some o.border_radius
  has o TokenKey.opacity = is_some o.opacity
  has o TokenKey.blur = is_some o.blur

  -- No key stands in both.
  abbrev pub AreDisjoint : PartialTokens Number → PartialTokens Number → Type 0
  AreDisjoint a b = (k : TokenKey) → (has a k ≡ false) ⊎ (has b k ≡ false)

or_else-later {ℓ} :
    {A : Type ℓ} (a b : Option A) (d : A) → or_else (later a b) d ≡ or_else b (or_else a d)
or_else-later a none d = refl
or_else-later a (some v) d = refl

or_else_comm {ℓ} :
    {A : Type ℓ} (a b : Option A) (d : A)
    → (is_some a ≡ false) ⊎ (is_some b ≡ false)
    → or_else b (or_else a d) ≡ or_else a (or_else b d)
or_else_comm none b d h = refl
or_else_comm (some u) none d h = refl
or_else_comm (some u) (some v) d (inl h) = absurd (cc)
or_else_comm (some u) (some v) d (inr h) = absurd (cc)

module _ {Number : Type 0} where
  -- Building an override step by step, each edit spread over the earlier ones, and applying it once
  -- gives the theme that applying the edits one after the other gives.
  pub merge-merge_partial :
      (t : ThemeTokens Number) (a b : PartialTokens Number)
      → merge t (merge_partial a b) ≡ merge (merge t a) b
  unfolding merge merge_partial
  merge-merge_partial t a b = simp or_else-later

  -- Two overrides with no key in common may be applied in either order.
  pub merge_comm :
      (t : ThemeTokens Number) (a b : PartialTokens Number)
      → AreDisjoint a b
      → merge (merge t a) b ≡ merge (merge t b) a
  unfolding merge
  merge_comm t a b d = λ i. record {
    background = or_else_comm a.background b.background t.background (d TokenKey.background) i;
    card_background =
        or_else_comm a.card_background b.card_background t.card_background
          (d TokenKey.card_background) i;
    card_border = or_else_comm a.card_border b.card_border t.card_border (d TokenKey.card_border) i;
    card_style = or_else_comm a.card_style b.card_style t.card_style (d TokenKey.card_style) i;
    text_color = or_else_comm a.text_color b.text_color t.text_color (d TokenKey.text_color) i;
    accent_color =
        or_else_comm a.accent_color b.accent_color t.accent_color (d TokenKey.accent_color) i;
    success_color =
        or_else_comm a.success_color b.success_color t.success_color (d TokenKey.success_color) i;
    warning_color =
        or_else_comm a.warning_color b.warning_color t.warning_color (d TokenKey.warning_color) i;
    error_color = or_else_comm a.error_color b.error_color t.error_color (d TokenKey.error_color) i;
    info_color = or_else_comm a.info_color b.info_color t.info_color (d TokenKey.info_color) i;
    font_family = or_else_comm a.font_family b.font_family t.font_family (d TokenKey.font_family) i;
    font_size = or_else_comm a.font_size b.font_size t.font_size (d TokenKey.font_size) i;
    heading_font_family =
        or_else_comm a.heading_font_family b.heading_font_family t.heading_font_family
          (d TokenKey.heading_font_family) i;
    font_size_small =
        or_else_comm a.font_size_small b.font_size_small t.font_size_small
          (d TokenKey.font_size_small) i;
    font_size_large =
        or_else_comm a.font_size_large b.font_size_large t.font_size_large
          (d TokenKey.font_size_large) i;
    border_radius =
        or_else_comm a.border_radius b.border_radius t.border_radius (d TokenKey.border_radius) i;
    opacity = or_else_comm a.opacity b.opacity t.opacity (d TokenKey.opacity) i;
    blur = or_else_comm a.blur b.blur t.blur (d TokenKey.blur) i;
  }
