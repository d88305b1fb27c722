-- ===== src/Plugins.antt =====
-- web/src/plugins and shared/types: the UI plugin contract, the registry, and the widgets.
pub mod Contract
pub mod Registry
mod Tests
