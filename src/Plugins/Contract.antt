-- ===== src/Plugins/Contract.antt =====
-- shared/types/plugin.ts: what a UI plugin declares. The React component is not modelled.
use mullet.Base.{ℕ, Text, codes, String, Bool, Option, List}
use mullet.Theme.Json.{Json}

pub record GridSize : Type 0 where
  pub w : ℕ
  pub h : ℕ

pub data FieldType : Type 0 where
  text textarea number select multi_select toggle color date image : FieldType

pub record Choice : Type 0 where
  pub value : Text
  pub label : Text

abbrev pub option : String → String → Choice
option v l = record { value = codes v; label = codes l }

pub record ConfigField (Number : Type 0) : Type 0 where
  pub type : FieldType
  pub label : Text
  pub default : Option (Json Number)
  pub options : Option (List Choice)
  pub help_text : Option Text
  pub dynamic : Bool
  pub dynamic_field : Option String

pub record UiPlugin (Number : Type 0) : Type 0 where
  pub id : String
  pub name : Text
  pub data_shape : String
  pub default_size : GridSize
  pub min_size : GridSize
  pub max_size : Option GridSize
  pub config_schema : List (String × ConfigField Number)
  pub supports_multi_data_source : Bool
