-- ===== src/Plugins/Registry/Calendars.antt =====
-- The plugin objects of the calendars widgets (web/src/plugins), without their components. Numbers
-- of a default are made by `number`.
use mullet.Base.{ℕ, codes, true, false, none, some, [], ◌∷◌}
use mullet.Theme.Json.{str, bool, num}
use mullet.Plugins.Contract.{UiPlugin, FieldType}

module _ {Number : Type 0} (number : ℕ → Number) where
  abbrev pub calendar_agenda_plugin : UiPlugin Number
  calendar_agenda_plugin = record {
    id = "mullet-calendar-agenda";
    name = codes "Calendar Agenda";
    data_shape = "events";
    default_size = record { w = 6; h = 8 };
    min_size = record { w = 3; h = 4 };
    max_size = some (record { w = 10; h = 16 });
    config_schema =
        (
          "days",
          record {
            type = FieldType.number;
            label = codes "Days to show";
            default = some (num (number 5));
            options = none;
            help_text = none;
            dynamic = false;
            dynamic_field = none;
          },
        )
        ∷ (
          "showLocation",
          record {
            type = FieldType.toggle;
            label = codes "Show location";
            default = some (bool true);
            options = none;
            help_text = none;
            dynamic = false;
            dynamic_field = none;
          },
        )
        ∷ [];
    supports_multi_data_source = true;
  }

  abbrev pub calendar_week_plugin : UiPlugin Number
  calendar_week_plugin = record {
    id = "mullet-calendar-week";
    name = codes "Week View";
    data_shape = "events";
    default_size = record { w = 8; h = 6 };
    min_size = record { w = 6; h = 4 };
    max_size = some (record { w = 16; h = 10 });
    config_schema =
        (
          "startMonday",
          record {
            type = FieldType.toggle;
            label = codes "Week starts Monday";
            default = some (bool false);
            options = none;
            help_text = none;
            dynamic = false;
            dynamic_field = none;
          },
        )
        ∷ [];
    supports_multi_data_source = true;
  }

  abbrev pub calendar_month_plugin : UiPlugin Number
  calendar_month_plugin = record {
    id = "mullet-calendar-month";
    name = codes "Month View";
    data_shape = "events";
    default_size = record { w = 10; h = 8 };
    min_size = record { w = 8; h = 6 };
    max_size = some (record { w = 16; h = 12 });
    config_schema =
        (
          "startMonday",
          record {
            type = FieldType.toggle;
            label = codes "Week starts Monday";
            default = some (bool false);
            options = none;
            help_text = none;
            dynamic = false;
            dynamic_field = none;
          },
        )
        ∷ (
          "maxPerDay",
          record {
            type = FieldType.number;
            label = codes "Max events shown per day";
            default = some (num (number 3));
            options = none;
            help_text = none;
            dynamic = false;
            dynamic_field = none;
          },
        )
        ∷ [];
    supports_multi_data_source = true;
  }

  abbrev pub meal_plan_plugin : UiPlugin Number
  meal_plan_plugin = record {
    id = "mullet-meal-plan";
    name = codes "Meal Plan";
    data_shape = "events";
    default_size = record { w = 10; h = 4 };
    min_size = record { w = 4; h = 3 };
    max_size = some (record { w = 16; h = 6 });
    config_schema =
        (
          "keyword",
          record {
            type = FieldType.text;
            label = codes "Keyword filter";
            default = some (str (codes "meal"));
            options = none;
            help_text = some (
                codes
                  "Only events whose title or description contains this word show up (e.g. \"Dinner\").");
            dynamic = false;
            dynamic_field = none;
          },
        )
        ∷ (
          "days",
          record {
            type = FieldType.number;
            label = codes "Days to show";
            default = some (num (number 7));
            options = none;
            help_text = none;
            dynamic = false;
            dynamic_field = none;
          },
        )
        ∷ [];
    supports_multi_data_source = false;
  }

  abbrev pub task_list_plugin : UiPlugin Number
  task_list_plugin = record {
    id = "mullet-task-list";
    name = codes "Task List";
    data_shape = "tasks";
    default_size = record { w = 4; h = 6 };
    min_size = record { w = 2; h = 3 };
    max_size = some (record { w = 8; h = 16 });
    config_schema =
        (
          "showCompleted",
          record {
            type = FieldType.toggle;
            label = codes "Show completed tasks";
            default = some (bool false);
            options = none;
            help_text = none;
            dynamic = false;
            dynamic_field = none;
          },
        )
        ∷ [];
    supports_multi_data_source = false;
  }
