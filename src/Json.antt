-- ===== src/Json.antt =====
-- `serde_json::Value` and its map, as far as the program uses them: a map answers a key by its
-- value, and an insertion replaces. A number is kept as the text that it prints as.
pub mod Laws
use act_api_server_rs.Prelude.{Bool, Option, none, some, if◌then◌else◌}
use act_api_server_rs.Text.{Text, text_eq}

mutual
  pub data Value : Type 0 where
    null : Value
    bool : Bool → Value
    number : Text → Value
    string : Text → Value
    array : Items → Value
    object : Fields → Value

  pub data Items : Type 0 where
    nil : Items
    cons : Value → Items → Items

  pub data Fields : Type 0 where
    end : Fields
    field : Text → Value → Fields → Fields

-- `map.get(key)`
unfoldable pub get : Text → Fields → Option Value
get key end = none
get key (field k v rest) = if text_eq k key then some v else get key rest

-- `map.insert(key, value)`
unfoldable pub insert : Text → Value → Fields → Fields
insert key value end = field key value end
insert key value (field k v rest) =
    if text_eq k key then field key value rest else field k v (insert key value rest)

-- `map.remove(key)`
unfoldable pub remove : Text → Fields → Fields
remove key end = end
remove key (field k v rest) = if text_eq k key then remove key rest else field k v (remove key rest)

-- `value.as_object()`
abbrev pub as_object : Value → Option Fields
as_object (object fields) = some fields
as_object _ = none
