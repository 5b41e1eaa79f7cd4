-- ===== src/Util/Json.antt =====
-- A value that `encoding/json` decodes into Go's `interface{}`. An object is a map: `field` reads
-- the one entry of a key.
use cirrina.Prelude.{ℕ, String, Option, none, some, Bool, str_eq, if◌then◌else◌}

mutual
  pub data Json : Type 0 where
    null : Json
    bool : Bool → Json
    number : ℕ → Json
    text : String → Json
    array : Items → Json
    object : Fields → Json

  pub data Items : Type 0 where
    nil : Items
    cons : Json → Items → Items

  pub data Fields : Type 0 where
    end : Fields
    entry : String → Json → Fields → Fields

-- `m[key]`; `none` for a key that is not there.
unfoldable pub field : String → Fields → Option Json
field key end = none
field key (entry k v rest) = if str_eq k key then some v else field key rest

-- The type assertions `v.(string)`, `v.([]interface{})` and `v.(map[string]interface{})`.
abbrev pub as_text : Option Json → Option String
as_text (some (text s)) = some s
as_text _ = none

abbrev pub as_array : Option Json → Option Items
as_array (some (array items)) = some items
as_array _ = none

abbrev pub as_object : Option Json → Option Fields
as_object (some (object fields)) = some fields
as_object _ = none
