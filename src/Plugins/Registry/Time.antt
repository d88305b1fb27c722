-- ===== src/Plugins/Registry/Time.antt =====
-- The plugin objects of the time widgets (web/src/plugins), without their components. Numbers
-- of a default are made by `number`.
use mullet.Base.{ℕ, codes, true, false, none, some, [], ◌∷◌}
use mullet.Theme.Json.{str, bool, num}
use mullet.Plugins.Contract.{UiPlugin, FieldType, option}

module _ {Number : Type 0} (number : ℕ → Number) where
  abbrev pub clock_plugin : UiPlugin Number
  clock_plugin = record {
    id = "mullet-clock";
    name = codes "Clock";
    data_shape = "";
    default_size = record { w = 3; h = 2 };
    min_size = record { w = 2; h = 1 };
    max_size = some (record { w = 6; h = 4 });
    config_schema =
        (
          "displayMode",
          record {
            type = FieldType.select;
            label = codes "Display";
            default = some (str (codes "digital"));
            options = some (option "digital" "Digital" ∷ option "analog" "Analog" ∷ []);
            help_text = none;
            dynamic = false;
            dynamic_field = none;
          },
        )
        ∷ (
          "format",
          record {
            type = FieldType.select;
            label = codes "Time format";
            default = some (str (codes "12h"));
            options = some (option "12h" "12-hour" ∷ option "24h" "24-hour (military)" ∷ []);
            help_text = some (codes "Digital display only");
            dynamic = false;
            dynamic_field = none;
          },
        )
        ∷ (
          "showSeconds",
          record {
            type = FieldType.toggle;
            label = codes "Show seconds";
            default = some (bool false);
            options = none;
            help_text = none;
            dynamic = false;
            dynamic_field = none;
          },
        )
        ∷ (
          "showDate",
          record {
            type = FieldType.toggle;
            label = codes "Show date";
            default = some (bool true);
            options = none;
            help_text = none;
            dynamic = false;
            dynamic_field = none;
          },
        )
        ∷ (
          "dateFormat",
          record {
            type = FieldType.select;
            label = codes "Date format";
            default = some (str (codes "long"));
            options = some (
                option "short" "Mon, Jan 5"
                ∷ option "long" "January 5, 2026"
                ∷ option "numeric" "1/5/2026"
                ∷ option "custom" "Custom..."
                ∷ []);
            help_text = none;
            dynamic = false;
            dynamic_field = none;
          },
        )
        ∷ (
          "customDateFormat",
          record {
            type = FieldType.text;
            label = codes "Custom date format";
            default = some (str (codes "MM/DD/YY"));
            options = none;
            help_text = some (
                codes
                  "Used when Date format is \"Custom...\". Tokens: YYYY, YY, MMMM, MMM, MM, M, dddd, ddd, DD, D");
            dynamic = false;
            dynamic_field = none;
          },
        )
        ∷ [];
    supports_multi_data_source = false;
  }

  abbrev pub moon_phase_plugin : UiPlugin Number
  moon_phase_plugin = record {
    id = "mullet-moon-phase";
    name = codes "Moon Phase";
    data_shape = "";
    default_size = record { w = 2; h = 2 };
    min_size = record { w = 2; h = 2 };
    max_size = some (record { w = 4; h = 4 });
    config_schema = [];
    supports_multi_data_source = false;
  }

  abbrev pub countdown_plugin : UiPlugin Number
  countdown_plugin = record {
    id = "mullet-countdown";
    name = codes "Countdown";
    data_shape = "";
    default_size = record { w = 2; h = 2 };
    min_size = record { w = 2; h = 2 };
    max_size = some (record { w = 4; h = 4 });
    config_schema =
        (
          "targetDate",
          record {
            type = FieldType.date;
            label = codes "Target date";
            default = none;
            options = none;
            help_text = none;
            dynamic = false;
            dynamic_field = none;
          },
        )
        ∷ (
          "label",
          record {
            type = FieldType.text;
            label = codes "Label";
            default = some (str (codes "Countdown"));
            options = none;
            help_text = some (codes "e.g. \"Summer Trip\" or \"Grandma's Birthday\".");
            dynamic = false;
            dynamic_field = none;
          },
        )
        ∷ [];
    supports_multi_data_source = false;
  }

  abbrev pub birthdays_plugin : UiPlugin Number
  birthdays_plugin = record {
    id = "mullet-birthdays";
    name = codes "Upcoming Birthdays";
    data_shape = "events";
    default_size = record { w = 3; h = 4 };
    min_size = record { w = 2; h = 2 };
    max_size = some (record { w = 5; h = 8 });
    config_schema =
        (
          "count",
          record {
            type = FieldType.number;
            label = codes "Number to show";
            default = some (num (number 5));
            options = none;
            help_text = some (codes "How many upcoming birthdays to list.");
            dynamic = false;
            dynamic_field = none;
          },
        )
        ∷ [];
    supports_multi_data_source = false;
  }
