-- ===== src/Plugins/Registry/Media.antt =====
-- The plugin objects of the media widgets (web/src/plugins), without their components. Numbers
-- of a default are made by `number`.
use mullet.Base.{ℕ, codes, true, false, none, some, [], ◌∷◌, map}
use mullet.Theme.Json.{str, bool, num}
use mullet.Theme.Fonts.{font_options, default_font}
use mullet.Plugins.Contract.{UiPlugin, FieldType, option}

module _ {Number : Type 0} (number : ℕ → Number) where
  abbrev pub media_now_playing_plugin : UiPlugin Number
  media_now_playing_plugin = record {
    id = "mullet-media-now-playing";
    name = codes "Media (Now Playing)";
    data_shape = "media_status";
    default_size = record { w = 4; h = 3 };
    min_size = record { w = 2; h = 2 };
    max_size = some (record { w = 6; h = 6 });
    config_schema =
        (
          "showAlbumArt",
          record {
            type = FieldType.toggle;
            label = codes "Show album art";
            default = some (bool true);
            options = none;
            help_text = none;
            dynamic = false;
            dynamic_field = none;
          },
        )
        ∷ [];
    supports_multi_data_source = false;
  }

  abbrev pub notes_plugin : UiPlugin Number
  notes_plugin = record {
    id = "mullet-notes";
    name = codes "Text / Notes";
    data_shape = "";
    default_size = record { w = 3; h = 2 };
    min_size = record { w = 2; h = 1 };
    max_size = some (record { w = 6; h = 6 });
    config_schema =
        (
          "text",
          record {
            type = FieldType.textarea;
            label = codes "Note text";
            default = some (str (codes ""));
            options = none;
            help_text = some (
                codes
                  "Shown as-is, line breaks included -- e.g. \"Don't forget your lunch money!\"");
            dynamic = false;
            dynamic_field = none;
          },
        )
        ∷ (
          "fontFamily",
          record {
            type = FieldType.select;
            label = codes "Font";
            default = some (str default_font);
            options = some (map (λ f. record { value = f.value; label = f.label }) font_options);
            help_text = some (codes "Independent of the screen/theme font.");
            dynamic = false;
            dynamic_field = none;
          },
        )
        ∷ (
          "fontSize",
          record {
            type = FieldType.select;
            label = codes "Text size";
            default = some (str (codes "medium"));
            options = some (
                option "small" "Small"
                ∷ option "medium" "Medium"
                ∷ option "large" "Large"
                ∷ option "xlarge" "Extra large"
                ∷ []);
            help_text = none;
            dynamic = false;
            dynamic_field = none;
          },
        )
        ∷ (
          "align",
          record {
            type = FieldType.select;
            label = codes "Alignment";
            default = some (str (codes "center"));
            options =
                some
                  (option "left" "Left" ∷ option "center" "Center" ∷ option "right" "Right" ∷ []);
            help_text = none;
            dynamic = false;
            dynamic_field = none;
          },
        )
        ∷ [];
    supports_multi_data_source = false;
  }

  abbrev pub quote_of_the_day_plugin : UiPlugin Number
  quote_of_the_day_plugin = record {
    id = "mullet-quote-of-the-day";
    name = codes "Quote of the Day";
    data_shape = "";
    default_size = record { w = 4; h = 2 };
    min_size = record { w = 2; h = 2 };
    max_size = some (record { w = 8; h = 4 });
    config_schema = [];
    supports_multi_data_source = false;
  }

  abbrev pub photo_album_plugin : UiPlugin Number
  photo_album_plugin = record {
    id = "mullet-photo-album";
    name = codes "Photo Album";
    data_shape = "";
    default_size = record { w = 6; h = 5 };
    min_size = record { w = 2; h = 2 };
    max_size = some (record { w = 16; h = 12 });
    config_schema =
        (
          "images",
          record {
            type = FieldType.textarea;
            label = codes "Image URLs";
            default = some (str (codes ""));
            options = none;
            help_text = some (
                codes
                  "One image URL per line. Upload images via Themes → Background → Add image(s) to get a URL, or paste any direct image link.");
            dynamic = false;
            dynamic_field = none;
          },
        )
        ∷ (
          "intervalSeconds",
          record {
            type = FieldType.number;
            label = codes "Seconds per photo";
            default = some (num (number 10));
            options = none;
            help_text = none;
            dynamic = false;
            dynamic_field = none;
          },
        )
        ∷ (
          "kenBurns",
          record {
            type = FieldType.toggle;
            label = codes "Slow pan/zoom effect";
            default = some (bool true);
            options = none;
            help_text = none;
            dynamic = false;
            dynamic_field = none;
          },
        )
        ∷ [];
    supports_multi_data_source = false;
  }
