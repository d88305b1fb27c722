-- ===== src/Plugins/Registry/Home.antt =====
-- The plugin objects of the home widgets (web/src/plugins), without their components. Numbers
-- of a default are made by `number`.
use mullet.Base.{ℕ, codes, true, false, none, some, [], ◌∷◌}
use mullet.Theme.Json.{str, bool}
use mullet.Plugins.Contract.{UiPlugin, FieldType}

module _ {Number : Type 0} (number : ℕ → Number) where
  abbrev pub home_status_plugin : UiPlugin Number
  home_status_plugin = record {
    id = "mullet-home-status";
    name = codes "Home Status";
    data_shape = "home_devices";
    default_size = record { w = 4; h = 4 };
    min_size = record { w = 2; h = 2 };
    max_size = some (record { w = 8; h = 8 });
    config_schema =
        (
          "showState",
          record {
            type = FieldType.toggle;
            label = codes "Show state text";
            default = some (bool true);
            options = none;
            help_text = none;
            dynamic = false;
            dynamic_field = none;
          },
        )
        ∷ [];
    supports_multi_data_source = false;
  }

  abbrev pub home_entity_plugin : UiPlugin Number
  home_entity_plugin = record {
    id = "mullet-home-entity";
    name = codes "Home Assistant Entity";
    data_shape = "home_devices";
    default_size = record { w = 3; h = 2 };
    min_size = record { w = 2; h = 1 };
    max_size = some (record { w = 6; h = 4 });
    config_schema =
        (
          "entity",
          record {
            type = FieldType.select;
            label = codes "Entity";
            default = none;
            options = none;
            help_text = some (
                codes
                  "Save a Home Assistant data source on this card first, then pick which entity to show here.");
            dynamic = true;
            dynamic_field = some "entities";
          },
        )
        ∷ (
          "showState",
          record {
            type = FieldType.toggle;
            label = codes "Show state text";
            default = some (bool true);
            options = none;
            help_text = none;
            dynamic = false;
            dynamic_field = none;
          },
        )
        ∷ (
          "customIcon",
          record {
            type = FieldType.image;
            label = codes "Custom icon";
            default = some (str (codes ""));
            options = none;
            help_text = some (
                codes
                  "Overrides the automatic icon for this entity. Leave unset to keep the automatic one.");
            dynamic = false;
            dynamic_field = none;
          },
        )
        ∷ [];
    supports_multi_data_source = false;
  }

  abbrev pub server_health_plugin : UiPlugin Number
  server_health_plugin = record {
    id = "mullet-server-health";
    name = codes "Server Health";
    data_shape = "infrastructure";
    default_size = record { w = 4; h = 5 };
    min_size = record { w = 2; h = 2 };
    max_size = some (record { w = 8; h = 10 });
    config_schema =
        (
          "showBars",
          record {
            type = FieldType.toggle;
            label = codes "Show resource bars";
            default = some (bool true);
            options = none;
            help_text = none;
            dynamic = false;
            dynamic_field = none;
          },
        )
        ∷ [];
    supports_multi_data_source = false;
  }

  abbrev pub package_tracker_plugin : UiPlugin Number
  package_tracker_plugin = record {
    id = "mullet-package-tracker";
    name = codes "Package Tracker";
    data_shape = "packages";
    default_size = record { w = 4; h = 5 };
    min_size = record { w = 2; h = 2 };
    max_size = some (record { w = 8; h = 10 });
    config_schema =
        (
          "showDelivered",
          record {
            type = FieldType.toggle;
            label = codes "Show delivered packages";
            default = some (bool false);
            options = none;
            help_text = none;
            dynamic = false;
            dynamic_field = none;
          },
        )
        ∷ [];
    supports_multi_data_source = false;
  }
