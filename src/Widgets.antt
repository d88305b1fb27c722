-- ===== src/Widgets.antt =====
-- web/src/plugins: what the widgets make of the rows and the theme that they are given.
pub mod Hashes
pub mod Quotes
pub mod Weather
pub mod Status
pub mod Groups
pub mod Style
pub mod Tasks
pub mod Home
mod Tests
