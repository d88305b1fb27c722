-- ===== src/Theme/Tokens/Panels.antt =====
-- The overrides that the Designer's panels can build, and their cascade on a kiosk.
use mullet.Base.{Bool, false, List, ◌≡◌, ◌⊎◌, inl, inr, refl, any, ℕ, ◌==◌}
use mullet.Theme.Tokens.{ThemeTokens, PartialTokens, merge}
use mullet.Theme.Tokens.Overrides.{
  TokenKey, card_override_fields, screen_override_fields, has, AreDisjoint, merge_comm,
}

-- The place of a key in `ThemeTokens`, by which keys are compared.
abbrev place : TokenKey → ℕ
place TokenKey.background = 0
place TokenKey.card_background = 1
place TokenKey.card_border = 2
place TokenKey.card_style = 3
place TokenKey.text_color = 4
place TokenKey.accent_color = 5
place TokenKey.success_color = 6
place TokenKey.warning_color = 7
place TokenKey.error_color = 8
place TokenKey.info_color = 9
place TokenKey.font_family = 10
place TokenKey.font_size = 11
place TokenKey.heading_font_family = 12
place TokenKey.font_size_small = 13
place TokenKey.font_size_large = 14
place TokenKey.border_radius = 15
place TokenKey.opacity = 16
place TokenKey.blur = 17

abbrev pub listed : List TokenKey → TokenKey → Bool
listed ks k = any (λ j. place j == place k) ks

-- The partial object has listed keys only.
abbrev pub Within : {Number : Type 0} → List TokenKey → PartialTokens Number → Type 0
Within ks o = (k : TokenKey) → listed ks k ≡ false → has o k ≡ false

-- No key is offered by both panels.
panels_disjoint :
    (k : TokenKey)
    → (listed screen_override_fields k ≡ false) ⊎ (listed card_override_fields k ≡ false)
panels_disjoint TokenKey.card_background = inl refl
panels_disjoint TokenKey.accent_color = inl refl
panels_disjoint TokenKey.opacity = inl refl
panels_disjoint _ = inr refl

-- An override that the screen panel can build (font only) and one that the card panel can build
-- (background, accent, opacity) may be applied in either order: the card's look and the screen's
-- font do not depend on which is merged first.
pub panels_commute :
    {Number : Type 0} (t : ThemeTokens Number) (screen card : PartialTokens Number)
    → Within screen_override_fields screen
    → Within card_override_fields card
    → merge (merge t screen) card ≡ merge (merge t card) screen
panels_commute t screen card s c = merge_comm t screen card apart
  where
    apart : AreDisjoint screen card
    apart k = elim (panels_disjoint k) [ inl h ↦ inl (s k h) | inr h ↦ inr (c k h) ]
