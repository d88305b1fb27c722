-- ===== src/Designer/Server.antt =====
-- internal/api/display_handlers.go and internal/db/displays.go: what a PUT that the server accepts
-- does to a card or screen as it is read back. The refusals (400, 404) are not modelled.
use mullet.Base.{ℕ, ltb, Option, none, some, List, [], ◌∷◌, if◌then◌else◌, ◌==◌}
use mullet.Designer.{Card, CardBody, Screen, ScreenBody, LayoutMode}

abbrev pub head_of : List ℕ → Option ℕ
head_of [] = none
head_of (id ∷ ids) = some id

-- `ListCardDataSources`: `ORDER BY data_plugin_instance_id`, of rows that are distinct
abbrev pub place_id : ℕ → List ℕ → List ℕ
place_id id [] = id ∷ []
place_id id (i ∷ ids) = let rest = place_id id ids in if ltb i id then i ∷ rest else id ∷ i ∷ ids

abbrev pub in_order : List ℕ → List ℕ
in_order [] = []
in_order (id ∷ ids) = place_id id (in_order ids)

-- `data_plugin_instance_ids` of a response, with `omitempty`
abbrev pub listed_ids : List ℕ → Option (List ℕ)
listed_ids [] = none
listed_ids (id ∷ ids) = some (id ∷ ids)

abbrev or_default : ℕ → ℕ → ℕ
or_default n d = if n == 0 then d else n

abbrev default_columns : LayoutMode → ℕ
default_columns LayoutMode.simple = 4
default_columns LayoutMode.freeform = 8

abbrev default_row_height : LayoutMode → ℕ
default_row_height LayoutMode.simple = 90
default_row_height LayoutMode.freeform = 60

module _ {Number : Type 0} where
  -- `UpdateCard`: each column is set from the body, also where the body leaves the key out.
  abbrev update_card : CardBody Number → Card Number → Card Number
  update_card b c = record c {
    ui_plugin_id = b.ui_plugin_id;
    data_plugin_instance_id = b.data_plugin_instance_id;
    x = b.x;
    y = b.y;
    w = b.w;
    h = b.h;
    config = b.config;
    theme_override = b.theme_override;
    header_text = b.header_text;
    header_halign = b.header_halign;
    content_halign = b.content_halign;
    content_valign = b.content_valign;
  }

  -- `SetCardDataSources`, only if the body has the key
  abbrev set_sources : Option (List ℕ) → Card Number → Card Number
  set_sources none c = c
  set_sources (some ids) c = record c {
    data_plugin_instance_id = head_of ids;
    data_plugin_instance_ids = listed_ids (in_order ids);
  }

  unfoldable pub put_card : CardBody Number → Card Number → Card Number
  put_card b c = set_sources b.data_plugin_instance_ids (update_card b c)

  -- `screenDefaults` on an update: an unusable 0 falls back to the mode's default, a gap of 0 stays.
  unfoldable pub put_screen : ScreenBody Number → Screen Number → Screen Number
  put_screen b s = record s {
    name = b.name;
    position = b.position;
    layout_mode = b.layout_mode;
    columns = or_default b.columns (default_columns b.layout_mode);
    row_height = or_default b.row_height (default_row_height b.layout_mode);
    gap = b.gap;
    theme_override = b.theme_override;
    aspect_ratio = b.aspect_ratio;
  }
