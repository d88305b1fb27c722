-- ===== src/Widgets/Home.antt =====
-- home-status/HomeStatusWidget.tsx, with `statusClass` of deviceIcons.tsx: the areas and devices that
-- the widget shows. `lower` stands for `toLowerCase`; an icon is the URL of the row or the device type.
use mullet.Base.{
  ℕ, leb, String, Bool, not, ◌&&◌, ◌||◌, codes, Text, text_eq, text_eq_iff, is_nil, Option, none,
  some, or_else, List, map, filter, if◌then◌else◌, ◌≡◌,
}
use mullet.Widgets.Groups.{group_by, rows_at, AreFilled, group_by_correct}

pub record HomeDeviceRow : Type 0 where
  pub id : Text
  pub name : Text
  pub area : Option Text
  pub device_type : Text
  pub state : Text
  pub icon : Option Text

pub data StatusClass : Type 0 where
  good warn bad neutral : StatusClass

pub data Icon : Type 0 where
  url : Text → Icon
  device : Text → Icon

pub record DeviceView : Type 0 where
  pub icon : Icon
  pub name : Text
  pub dot : StatusClass
  pub state : Option Text

pub record AreaView : Type 0 where
  pub header : Option Text
  pub devices : List DeviceView

abbrev is : String → Text → Bool
is s t = text_eq t (codes s)

-- `d.area ?? 'Other'`, the key of a device's group
abbrev pub area_of : HomeDeviceRow → Text
area_of d = or_else d.area (codes "Other")

abbrev pub area_groups : List HomeDeviceRow → List (Text × List HomeDeviceRow)
area_groups rows = group_by text_eq area_of rows

abbrev icon_of : Option Text → Text → Icon
icon_of none kind = device kind
icon_of (some u) kind = if is_nil u then device kind else url u

module _ (lower : Text → Text) where
  unfoldable pub status_class : Text → Text → StatusClass
  status_class kind state =
      let s = lower state in
      if is "lock" kind
      then if is "locked" s
        then StatusClass.good
        else if is "unlocked" s
        then StatusClass.bad
        else StatusClass.neutral
      else if is "door" kind || is "garage" kind
      then if is "closed" s
        then StatusClass.good
        else if is "open" s
        then StatusClass.warn
        else StatusClass.neutral
      else if is "light" kind
      then if is "on" s then StatusClass.good else StatusClass.neutral
      else if is "person" kind || is "device_tracker" kind
      then if is "home" s then StatusClass.good else StatusClass.neutral
      else StatusClass.neutral

  abbrev device_view : Bool → Bool → HomeDeviceRow → DeviceView
  device_view show_state compact d = record {
    icon = icon_of d.icon d.device_type;
    name = d.name;
    dot = status_class d.device_type d.state;
    state = if show_state && not compact then some d.state else none;
  }

  -- The areas shown, in order; with none the widget says that there are no devices. `height` is the
  -- card's.
  unfoldable pub home_status : Bool → ℕ → List HomeDeviceRow → List AreaView
  home_status show_state height rows =
      let compact = leb height 2 in
      map
        (λ g. record {
          header = if compact then none else some g.0;
          devices = map (device_view show_state compact) g.1;
        })
        (area_groups rows)

-- Under each area the widget has exactly the devices of that area, in the order of the rows, where a
-- device without an area counts to the one called Other; an area without a device is not shown.
pub area_groups_correct :
    (rows : List HomeDeviceRow) (area : Text)
    → (rows_at text_eq area_of area (area_groups rows)
        ≡ filter (λ d. text_eq (area_of d) area) rows)
      × AreFilled text_eq area_of (area_groups rows)
area_groups_correct rows area = group_by_correct text_eq area_of text_eq_iff rows area
