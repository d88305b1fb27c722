-- ===== src/Theme/Json.antt =====
-- Parsed JSON values, as `JSON.parse` and `res.json()` hand them over: an object has each key once.
-- `Number` is the type of the program's numbers, with the tests that the code makes on them.
use mullet.Base.{Text, String, str_eq, Bool, Option, none, some, if◌then◌else◌}

mutual
  pub data Json (Number : Type 0) : Type 0 where
    null : Json Number
    bool : Bool → Json Number
    num : Number → Json Number
    str : Text → Json Number
    arr : Items Number → Json Number
    obj : Fields Number → Json Number

  pub data Items (Number : Type 0) : Type 0 where
    nil : Items Number
    cons : Json Number → Items Number → Items Number

  pub data Fields (Number : Type 0) : Type 0 where
    end : Fields Number
    field : String → Json Number → Fields Number → Fields Number

-- `o[key]`; `none` is `undefined`.
abbrev pub get : {Number : Type 0} → String → Fields Number → Option (Json Number)
get key end = none
get key (field k v fs) = if str_eq k key then some v else get key fs

-- `typeof v === 'object' && v !== null && !Array.isArray(v)`
abbrev pub as_object : {Number : Type 0} → Option (Json Number) → Option (Fields Number)
as_object (some (obj fs)) = some fs
as_object (some v) = none
as_object none = none

-- The value of `typeof v === 'string'`, and the string.
abbrev pub as_string : {Number : Type 0} → Option (Json Number) → Option Text
as_string (some (str s)) = some s
as_string (some v) = none
as_string none = none

abbrev pub as_number : {Number : Type 0} → Option (Json Number) → Option Number
as_number (some (num x)) = some x
as_number (some v) = none
as_number none = none

-- The program's floating point numbers: a type that is not modelled further.
pub record Floats : Type 1 where
  pub Number : Type 0
  pub zero : Number
  pub one : Number
  pub is_nan : Number → Bool
  pub lt : Number → Number → Bool
