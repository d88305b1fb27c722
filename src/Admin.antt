-- ===== src/Admin.antt =====
-- The admin pages other than the designer: src/web/src/admin.
pub mod Session
pub mod Shell
pub mod SignIn
pub mod Accounts
pub mod Displays
pub mod Clients
pub mod Manifest
pub mod Plugins
pub mod Settings
pub mod Gradient
pub mod ThemeEditor
pub mod Colors
mod Tests
