-- ===== src/Theme.antt =====
-- web/src/shared/themes: the theme tokens, their overrides, image backgrounds, the import
-- validator and the curated fonts.
pub mod Tokens
pub mod Backgrounds
pub mod Fonts
pub mod Json
pub mod Validate
pub mod Presets
mod Tests
