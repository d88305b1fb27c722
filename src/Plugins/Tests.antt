-- ===== src/Plugins/Tests.antt =====
-- The registry at concrete ids.
use mullet.Base.{ℕ, some, ◌≡◌, refl}
use mullet.Plugins.Registry.{get_ui_plugin}
use mullet.Plugins.Registry.Time.{clock_plugin}

abbrev the : ℕ → ℕ
the n = n

finds_clock : get_ui_plugin the "mullet-clock" ≡ some (clock_plugin the)
unfolding get_ui_plugin
finds_clock = refl
