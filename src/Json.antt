-- ===== src/Json.antt =====
-- encoding/json: decoded values. An object is the list of its fields in the order of their keys, each
-- key once, so that two equal Go maps are one list.
use proxystack_go.Prelude.{
  Text, Text_eq, if◌then◌else◌, Bool, true, false, ◌&&◌, ◌==◌, Option, none, some,
}

mutual
  pub data Json : Type 0 where
    json_null : Json
    json_bool : Bool → Json
    json_number : Text → Json
    json_string : Text → Json
    json_array : JsonItems → Json
    json_object : JsonFields → Json

  pub data JsonItems : Type 0 where
    no_item : JsonItems
    item : Json → JsonItems → JsonItems

  pub data JsonFields : Type 0 where
    no_field : JsonFields
    field : Text → Json → JsonFields → JsonFields

abbrev bool_eq : Bool → Bool → Bool
bool_eq true b = b
bool_eq false true = false
bool_eq false false = true

-- `reflect.DeepEqual` of two decoded values.
unfoldable mutual
  pub deep_equal : Json → Json → Bool
  deep_equal json_null json_null = true
  deep_equal (json_bool a) (json_bool b) = bool_eq a b
  deep_equal (json_number a) (json_number b) = a == b
  deep_equal (json_string a) (json_string b) = a == b
  deep_equal (json_array a) (json_array b) = items_equal a b
  deep_equal (json_object a) (json_object b) = fields_equal a b
  deep_equal _ _ = false

  pub items_equal : JsonItems → JsonItems → Bool
  items_equal no_item no_item = true
  items_equal (item a as_) (item b bs) = deep_equal a b && items_equal as_ bs
  items_equal _ _ = false

  pub fields_equal : JsonFields → JsonFields → Bool
  fields_equal no_field no_field = true
  fields_equal (field k a as_) (field l b bs) = k == l && deep_equal a b && fields_equal as_ bs
  fields_equal _ _ = false

-- `object[key]`
unfoldable pub get : JsonFields → Text → Option Json
get no_field key = none
get (field k value fields) key = let rest = get fields key in if k == key then some value else rest

-- `delete(object, key)`
unfoldable pub remove : Text → JsonFields → JsonFields
remove key no_field = no_field
remove key (field k value fields) =
    let rest = remove key fields in if k == key then rest else field k value rest
