-- ===== src/Plugins/Registry/Weather.antt =====
-- The plugin objects of the weather widgets (web/src/plugins), without their components. Numbers
-- of a default are made by `number`.
use mullet.Base.{ℕ, codes, true, false, none, some, [], ◌∷◌}
use mullet.Theme.Json.{str, bool, num}
use mullet.Plugins.Contract.{UiPlugin, FieldType, option}

module _ {Number : Type 0} (number : ℕ → Number) where
  abbrev pub weather_current_plugin : UiPlugin Number
  weather_current_plugin = record {
    id = "mullet-weather-current";
    name = codes "Weather (Current)";
    data_shape = "weather_current";
    default_size = record { w = 4; h = 3 };
    min_size = record { w = 2; h = 2 };
    max_size = some (record { w = 8; h = 6 });
    config_schema =
        (
          "unit",
          record {
            type = FieldType.select;
            label = codes "Temperature unit";
            default = some (str (codes "°F"));
            options = some (option "°F" "Fahrenheit" ∷ option "°C" "Celsius" ∷ []);
            help_text = none;
            dynamic = false;
            dynamic_field = none;
          },
        )
        ∷ (
          "showHumidity",
          record {
            type = FieldType.toggle;
            label = codes "Show humidity";
            default = some (bool true);
            options = none;
            help_text = none;
            dynamic = false;
            dynamic_field = none;
          },
        )
        ∷ (
          "showWind",
          record {
            type = FieldType.toggle;
            label = codes "Show wind";
            default = some (bool true);
            options = none;
            help_text = none;
            dynamic = false;
            dynamic_field = none;
          },
        )
        ∷ (
          "iconSize",
          record {
            type = FieldType.select;
            label = codes "Icon size";
            default = some (str (codes "medium"));
            options =
                some
                  (option "small" "Small" ∷ option "medium" "Medium" ∷ option "large" "Large" ∷ []);
            help_text = none;
            dynamic = false;
            dynamic_field = none;
          },
        )
        ∷ (
          "iconStyle",
          record {
            type = FieldType.select;
            label = codes "Icon style";
            default = some (str (codes "outline"));
            options = some (option "outline" "Outline" ∷ option "filled" "Filled / colored" ∷ []);
            help_text = none;
            dynamic = false;
            dynamic_field = none;
          },
        )
        ∷ [];
    supports_multi_data_source = false;
  }

  abbrev pub weather_forecast_plugin : UiPlugin Number
  weather_forecast_plugin = record {
    id = "mullet-weather-forecast";
    name = codes "Weather (Forecast)";
    data_shape = "weather_forecast";
    default_size = record { w = 8; h = 3 };
    min_size = record { w = 4; h = 2 };
    max_size = some (record { w = 16; h = 4 });
    config_schema =
        (
          "unit",
          record {
            type = FieldType.select;
            label = codes "Temperature unit";
            default = some (str (codes "°F"));
            options = some (option "°F" "Fahrenheit" ∷ option "°C" "Celsius" ∷ []);
            help_text = none;
            dynamic = false;
            dynamic_field = none;
          },
        )
        ∷ (
          "days",
          record {
            type = FieldType.number;
            label = codes "Days to show";
            default = some (num (number 5));
            options = none;
            help_text = none;
            dynamic = false;
            dynamic_field = none;
          },
        )
        ∷ (
          "layout",
          record {
            type = FieldType.select;
            label = codes "Layout";
            default = some (str (codes "stacked"));
            options = some (
                option "stacked" "Stacked (icon above)"
                ∷ option "horizontal" "Horizontal (icon left)"
                ∷ []);
            help_text = none;
            dynamic = false;
            dynamic_field = none;
          },
        )
        ∷ (
          "iconSize",
          record {
            type = FieldType.select;
            label = codes "Icon size";
            default = some (str (codes "medium"));
            options =
                some
                  (option "small" "Small" ∷ option "medium" "Medium" ∷ option "large" "Large" ∷ []);
            help_text = none;
            dynamic = false;
            dynamic_field = none;
          },
        )
        ∷ (
          "iconStyle",
          record {
            type = FieldType.select;
            label = codes "Icon style";
            default = some (str (codes "outline"));
            options = some (option "outline" "Outline" ∷ option "filled" "Filled / colored" ∷ []);
            help_text = none;
            dynamic = false;
            dynamic_field = none;
          },
        )
        ∷ [];
    supports_multi_data_source = false;
  }
