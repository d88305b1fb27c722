-- ===== src/Plugins/Registry.antt =====
-- registry.ts: the compiled-in UI plugins in their order, and the lookup by id.
pub mod Weather
pub mod Time
pub mod Calendars
pub mod Home
pub mod Media
pub mod Laws
use mullet.Base.{ℕ, String, str_eq, Option, List, [], ◌∷◌, find}
use mullet.Plugins.Contract.{UiPlugin}
use Weather.{weather_current_plugin, weather_forecast_plugin}
use Time.{clock_plugin, moon_phase_plugin, countdown_plugin, birthdays_plugin}
use Calendars.{
  calendar_agenda_plugin, calendar_week_plugin, calendar_month_plugin, meal_plan_plugin,
  task_list_plugin,
}
use Home.{home_status_plugin, home_entity_plugin, server_health_plugin, package_tracker_plugin}
use Media.{media_now_playing_plugin, notes_plugin, quote_of_the_day_plugin, photo_album_plugin}

module _ {Number : Type 0} (number : ℕ → Number) where
  abbrev pub ui_plugins : List (UiPlugin Number)
  ui_plugins =
      weather_current_plugin number
      ∷ weather_forecast_plugin number
      ∷ calendar_agenda_plugin number
      ∷ task_list_plugin number
      ∷ meal_plan_plugin number
      ∷ clock_plugin number
      ∷ home_status_plugin number
      ∷ home_entity_plugin number
      ∷ server_health_plugin number
      ∷ media_now_playing_plugin number
      ∷ package_tracker_plugin number
      ∷ notes_plugin number
      ∷ birthdays_plugin number
      ∷ countdown_plugin number
      ∷ quote_of_the_day_plugin number
      ∷ moon_phase_plugin number
      ∷ calendar_week_plugin number
      ∷ calendar_month_plugin number
      ∷ photo_album_plugin number
      ∷ []

  unfoldable pub get_ui_plugin : String → Option (UiPlugin Number)
  get_ui_plugin id = find (λ p. str_eq p.id id) ui_plugins
