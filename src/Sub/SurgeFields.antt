-- ===== src/Sub/SurgeFields.antt =====
-- internal/generator/sub/render.go: the parts of a Surge line that a node gives.
use proxystack_go.Prelude.{
  Text, Text_eq, codes, is_empty, if◌then◌else◌, Bool, true, false, ◌&&◌, ◌==◌, map, List, [], ◌∷◌,
  ◌++◌, Option, none, some,
}
use proxystack_go.Yaml.{Yaml, scalar, quoted, sequence, mapping, YamlPairs, no_pair, pair}
use proxystack_go.Domain.{WebSocketOptions}
use proxystack_go.Sub.{Auth, Node}
use proxystack_go.Sub.Encode.{header_value, sorted_keys}
use proxystack_go.Sub.ClashProxy.{raw_field, scalar_text}

-- `strings.Join`
unfoldable pub join_with : Text → List Text → Text
join_with separator [] = []
join_with separator (part ∷ []) = part
join_with separator (part ∷ next ∷ parts) = part ++ separator ++ join_with separator (next ∷ parts)

unfoldable pub comma_joined : List Text → Text
comma_joined parts = join_with (codes ", ") parts

-- A part of a line that is left out where the value is empty.
unfoldable pub part_if : Text → Text → List Text
part_if key value = if is_empty value then [] else (key ++ value) ∷ []

unfoldable pub flag_if : Bool → Text → List Text
flag_if set part = if set then part ∷ [] else []

unfoldable pub surge_auth_of : Option Auth → Text
surge_auth_of none = []
surge_auth_of (some auth) =
    if auth.type == codes "password"
    then codes ", " ++ auth.username ++ codes ", " ++ auth.password
    else []

unfoldable pub surge_auth : Node → Text
surge_auth node = surge_auth_of node.auth

unfoldable pub ws_path_of : Option WebSocketOptions → Text
ws_path_of none = []
ws_path_of (some options) = options.path

unfoldable pub node_ws_path : Node → Text
node_ws_path node = ws_path_of node.ws_opts

unfoldable pub ws_headers_of : Option WebSocketOptions → Text
ws_headers_of none = []
ws_headers_of (some options) = join_with (codes "|") (
    map (λ key. key ++ codes ":" ++ header_value options.headers key) (sorted_keys options.headers))

unfoldable pub node_ws_headers : Node → Text
node_ws_headers node = ws_headers_of node.ws_opts

-- The first of two fields that is there.
unfoldable pub either_field : Option Yaml → Option Yaml → Option Yaml
either_field none other = other
either_field (some value) other = some value

unfoldable pub direct_ws_opts : Node → Option Yaml
direct_ws_opts node =
    either_field (raw_field node (codes "ws-opts")) (raw_field node (codes "ws_opts"))

unfoldable pub is_scalar : Yaml → Bool
is_scalar (scalar tag value) = true
is_scalar (quoted value) = true
is_scalar (sequence items) = false
is_scalar (mapping pairs) = false

-- The first field "path" that is a scalar.
unfoldable pub path_in : YamlPairs → Text
path_in no_pair = []
path_in (pair key value pairs) =
    let rest = path_in pairs in
    if key == codes "path" && is_scalar value then scalar_text (some value) else rest

unfoldable pub path_of_options : Option Yaml → Text
path_of_options (some (mapping pairs)) = path_in pairs
path_of_options _ = []

unfoldable pub direct_node_ws_path : Node → Text
direct_node_ws_path node = path_of_options (direct_ws_opts node)

unfoldable pub header_texts : YamlPairs → List Text
header_texts no_pair = []
header_texts (pair key value pairs) =
    let rest = header_texts pairs in
    if is_scalar value then (key ++ codes ":" ++ scalar_text (some value)) ∷ rest else rest

-- What a field "headers" gives; a sequence is passed over.
unfoldable pub headers_value : Yaml → Option Text
headers_value (scalar tag value) = some value
headers_value (quoted value) = some value
headers_value (sequence items) = none
headers_value (mapping pairs) = some (join_with (codes "|") (header_texts pairs))

unfoldable pub text_or : Option Text → Text → Text
text_or none other = other
text_or (some t) other = t

unfoldable pub headers_in : YamlPairs → Text
headers_in no_pair = []
headers_in (pair key value pairs) =
    let rest = headers_in pairs in
    if key == codes "headers" then text_or (headers_value value) rest else rest

unfoldable pub headers_of_options : Option Yaml → Text
headers_of_options (some (mapping pairs)) = headers_in pairs
headers_of_options _ = []

unfoldable pub direct_node_ws_headers : Node → Text
direct_node_ws_headers node = headers_of_options (direct_ws_opts node)
