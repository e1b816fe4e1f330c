-- ===== src/Runtime/UsersOnly.antt =====
-- internal/runtime/usersdiff.go: whether a plan only adds and removes the users of a switch. `decode`
-- is json.Unmarshal into a value, `read` is os.ReadFile.
pub mod Right
use proxystack_go.Prelude.{
  nat_eq, length, Text, Text_eq, codes, text_lt, is_empty, strip_prefix, if◌then◌else◌, Bool, true,
  false, not, ◌&&◌, ◌==◌, keep, contains, add, lookup, put, map, List, [], ◌∷◌, ◌++◌, Option, none,
  some, Map, Answer, ok, error, ◌>>=◌,
}
use proxystack_go.Prelude.Sort.{sort_by}
use proxystack_go.Json.{
  Json, json_string, json_array, json_object, JsonItems, no_item, item, JsonFields, no_field, field,
  deep_equal, get, remove,
}
use proxystack_go.Runtime.{create, update, delete, no_change, FileChange}

-- UserChange: for each stack the keys of the clients that are to go and to come.
pub record UserChange : Type 0 where
  pub removed : Map Text (List Text)
  pub added : Map Text (List Text)

unfoldable pub new_user_change : UserChange
new_user_change = record { removed = []; added = [] }

-- `m[stack]`, nil read as the empty set.
unfoldable pub keys_of : Map Text (List Text) → Text → List Text
keys_of m stack = elim (lookup m stack) [ none ↦ [] | some keys ↦ keys ]

-- `inboundTag+"\x00"+email`
unfoldable pub client_key : Text → Text → Text
client_key inbound_tag email = inbound_tag ++ 0 ∷ email

unfoldable pub add_key : Text → Text → Map Text (List Text) → Map Text (List Text)
add_key stack key m = put stack (add key (keys_of m stack)) m

unfoldable pub add_change : UserChange → Bool → Text → Text → Text → UserChange
add_change c removing stack inbound_tag email =
    if removing
    then record c { removed = add_key stack (client_key inbound_tag email) c.removed }
    else record c { added = add_key stack (client_key inbound_tag email) c.added }

-- `value, _ := x.(string)` of a field.
unfoldable pub string_of : Option Json → Text
string_of (some (json_string t)) = t
string_of _ = []

-- The key of an entry of `clients`, nothing for one that is not an object.
unfoldable pub entry_key : Text → Json → Option Text
entry_key tag (json_object client) = some (client_key tag (string_of (get client (codes "email"))))
entry_key tag _ = none

unfoldable pub add_entry : Option Text → List Text → List Text
add_entry none clients = clients
add_entry (some key) clients = add key clients

-- The loop over `clients`.
unfoldable pub add_entries : Text → JsonItems → List Text → List Text
add_entries tag no_item clients = clients
add_entries tag (item entry entries) clients =
    add_entries tag entries (add_entry (entry_key tag entry) clients)

unfoldable pub add_list : Text → Option Json → List Text → List Text
add_list tag (some (json_array entries)) clients = add_entries tag entries clients
add_list tag _ clients = clients

unfoldable pub add_settings : Text → Option Json → List Text → List Text
add_settings tag (some (json_object settings)) clients =
    add_list tag (get settings (codes "clients")) clients
add_settings tag _ clients = clients

unfoldable pub add_inbound : Json → List Text → List Text
add_inbound (json_object inbound) clients =
    add_settings (string_of (get inbound (codes "tag"))) (get inbound (codes "settings")) clients
add_inbound _ clients = clients

-- The loop over the inbounds.
unfoldable pub add_inbounds : JsonItems → List Text → List Text
add_inbounds no_item clients = clients
add_inbounds (item inbound inbounds) clients = add_inbounds inbounds (add_inbound inbound clients)

unfoldable pub clients_of_inbounds : Option Json → List Text
clients_of_inbounds (some (json_array inbounds)) = add_inbounds inbounds []
clients_of_inbounds _ = []

unfoldable pub clients_of : Json → List Text
clients_of (json_object root) = clients_of_inbounds (get root (codes "inbounds"))
clients_of _ = []

-- `delete(settings, "clients")` where the settings are an object.
unfoldable pub strip_settings : Json → Json
strip_settings (json_object settings) = json_object (remove (codes "clients") settings)
strip_settings other = other

unfoldable pub strip_inbound_fields : JsonFields → JsonFields
strip_inbound_fields no_field = no_field
strip_inbound_fields (field key value fields) =
    field key (if key == codes "settings" then strip_settings value else value)
      (strip_inbound_fields fields)

unfoldable pub strip_inbound : Json → Json
strip_inbound (json_object inbound) = json_object (strip_inbound_fields inbound)
strip_inbound other = other

unfoldable pub strip_items : JsonItems → JsonItems
strip_items no_item = no_item
strip_items (item inbound inbounds) = item (strip_inbound inbound) (strip_items inbounds)

unfoldable pub strip_inbounds : Json → Json
strip_inbounds (json_array inbounds) = json_array (strip_items inbounds)
strip_inbounds other = other

unfoldable pub strip_root : JsonFields → JsonFields
strip_root no_field = no_field
strip_root (field key value fields) =
    field key (if key == codes "inbounds" then strip_inbounds value else value) (strip_root fields)

-- The value without the clients of its inbounds.
unfoldable pub skeleton : Json → Json
skeleton (json_object root) = json_object (strip_root root)
skeleton other = other

unfoldable pub diff_clients : List Text → List Text → List Text
diff_clients left right = keep (λ key. not (contains right key)) left

-- The loop of sameKeySet.
unfoldable pub all_in : List Text → List Text → Bool
all_in [] right = true
all_in (key ∷ left) right = contains right key && all_in left right

unfoldable pub same_key_set : List Text → List Text → Bool
same_key_set left right = nat_eq (length left) (length right) && all_in left right

unfoldable pub users_only : Json → Json → List Text → List Text → Bool
users_only old_value new_value removed added =
    if not (deep_equal (skeleton old_value) (skeleton new_value))
    then false
    else same_key_set (diff_clients (clients_of old_value) (clients_of new_value)) removed
      && same_key_set (diff_clients (clients_of new_value) (clients_of old_value)) added

-- `service` without the prefix and the suffix of an Xray service, empty for another service.
unfoldable pub strip_suffix : Text → Text → Option Text
strip_suffix suffix [] = if is_empty suffix then some [] else none
strip_suffix suffix (c ∷ s) =
    let rest = strip_suffix suffix s in
    if c ∷ s == suffix then some [] else (elim rest [ none ↦ none | some t ↦ some (c ∷ t) ])

unfoldable pub text_or_empty : Option Text → Text
text_or_empty none = []
text_or_empty (some t) = t

unfoldable pub xray_stack_from_service : Text → Text
xray_stack_from_service service = elim (strip_prefix (codes "proxystack-xray@") service) [
  | none ↦ []
  | some rest ↦ text_or_empty (strip_suffix (codes ".service") rest)
]

-- `strings.Replace(key, "\x00", "/", 1)`
unfoldable pub describe_key : Text → Text
describe_key [] = []
describe_key (c ∷ key) = let rest = describe_key key in if nat_eq c 0 then b'/' ∷ key else c ∷ rest

unfoldable pub describe_user_change : List Text → List Text
describe_user_change entries = sort_by text_lt (map describe_key entries)

-- The result of UsersOnlyPlan: the flag, the path of the first file that is refused, and the error.
pub record Verdict : Type 0 where
  pub users_only : Bool
  pub relative_path : Text
  pub cause : Option Text

unfoldable pub refused_at : FileChange → Verdict
refused_at change = record {
  users_only = false;
  relative_path = change.relative_path;
  cause = none;
}

unfoldable pub judged : FileChange → Answer Bool → Verdict → Verdict
judged change (error e) rest = record {
  users_only = false;
  relative_path = change.relative_path;
  cause = some e;
}
judged change (ok false) rest = refused_at change
judged change (ok true) rest = rest

module _ (decode : Text → Answer Json) where
  unfoldable pub decoded_config : Text → Answer Json
  decoded_config content = elim (decode content) [
    | error e ↦ error (codes "xray config contains invalid JSON: " ++ e)
    | ok value ↦ ok value
  ]

  unfoldable pub users_only_change : Text → Text → Text → UserChange → Answer Bool
  users_only_change old_content new_content stack change =
      decoded_config old_content >>= λ old_value. decoded_config new_content >>= λ new_value.
      ok
        (users_only old_value new_value (keys_of change.removed stack) (keys_of change.added stack))

module _ (decode : Text → Answer Json) (read : Text → Answer Text) where
  -- One file that is updated.
  unfoldable pub check_update : FileChange → UserChange → Answer Bool
  check_update change expected = elim (read change.path) [
    | error e ↦
        error (
          codes "generated file could not be read: " ++ change.path ++ codes " (" ++ e ++ codes ")")
    | ok current ↦
        users_only_change decode current change.content (xray_stack_from_service change.service)
          expected
  ]

  unfoldable pub judge : FileChange → UserChange → Verdict → Verdict
  judge change expected rest =
      if is_empty (xray_stack_from_service change.service)
      then refused_at change
      else judged change (check_update change expected) rest

  unfoldable pub users_only_plan : List FileChange → UserChange → Verdict
  users_only_plan [] expected = record { users_only = true; relative_path = []; cause = none }
  users_only_plan (change ∷ changes) expected =
      let rest = users_only_plan changes expected in
      elim change.action [
        | no_change ↦ rest
        | create ↦ rest
        | delete ↦ refused_at change
        | update ↦ judge change expected rest
      ]
