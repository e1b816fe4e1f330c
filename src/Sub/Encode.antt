-- ===== src/Sub/Encode.antt =====
-- internal/generator/sub/types.go: the YAML tree of an input, as InputToYAML builds it.
use proxystack_go.Prelude.{
  Text, Text_eq, codes, text_lt, is_empty, if◌then◌else◌, true, ◌||◌, ◌==◌, contains, lookup, map,
  List, [], ◌∷◌, ◌++◌, Option, none, some, Map,
}
use proxystack_go.Prelude.Sort.{sort_by}
use proxystack_go.Yaml.{
  Yaml, quoted, YamlField, string_scalar, int_scalar, bool_scalar, mapping_of, sequence_of,
}
use proxystack_go.Domain.{WebSocketOptions, GrpcOptions}
use proxystack_go.Sub.{input_schema_name, current_input_version, Auth, Node, Input}

-- `if value != "" { pairs = append(pairs, …) }`
unfoldable pub text_pair : Text → Text → List YamlField
text_pair key value = if is_empty value then [] else (key, string_scalar value) ∷ []

unfoldable pub optional_pair {ℓ} : {A : Type ℓ} → Text → (A → Yaml) → Option A → List YamlField
optional_pair key encode none = []
optional_pair key encode (some value) = (key, encode value) ∷ []

unfoldable pub header_value : Map Text Text → Text → Text
header_value headers key = elim (lookup headers key) [ none ↦ [] | some value ↦ value ]

unfoldable pub sorted_keys : Map Text Text → List Text
sorted_keys headers = sort_by text_lt (map (λ header. header.0) headers)

unfoldable pub websocket_options_to_yaml : WebSocketOptions → Yaml
websocket_options_to_yaml options = mapping_of (
    text_pair (codes "path") options.path
    ++ (if is_empty options.headers
        then []
        else (
          codes "headers",
          mapping_of (
              map (λ key. (key, string_scalar (header_value options.headers key)))
                (sorted_keys options.headers)),
        )
          ∷ []))

unfoldable pub grpc_options_to_yaml : GrpcOptions → Yaml
grpc_options_to_yaml options =
    mapping_of (text_pair (codes "grpc_service_name") options.service_name)

unfoldable pub grpc_options_to_clash_yaml : GrpcOptions → Yaml
grpc_options_to_clash_yaml options =
    mapping_of (text_pair (codes "grpc-service-name") options.service_name)

unfoldable pub auth_to_yaml : Auth → Yaml
auth_to_yaml auth = mapping_of (
    (codes "type", string_scalar auth.type)
    ∷ (text_pair (codes "username") auth.username ++ text_pair (codes "password") auth.password))

-- The fields that a node that is not direct writes behind its remark.
unfoldable pub optional_fields : Node → List YamlField
optional_fields node =
    text_pair (codes "region") node.region
    ++ text_pair (codes "uuid") node.uuid
    ++ text_pair (codes "network") node.network
    ++ optional_pair (codes "ws_opts") websocket_options_to_yaml node.ws_opts
    ++ optional_pair (codes "grpc_opts") grpc_options_to_yaml node.grpc_opts
    ++ text_pair (codes "method") node.method
    ++ text_pair (codes "cipher") node.cipher
    ++ text_pair (codes "password") node.password
    ++ optional_pair (codes "udp") bool_scalar node.udp
    ++ optional_pair (codes "auth") auth_to_yaml node.auth

unfoldable pub rendered_node_to_yaml : Node → Yaml
rendered_node_to_yaml node = mapping_of (
    ((codes "id", string_scalar node.id)
      ∷ (codes "user", string_scalar node.user)
      ∷ (codes "protocol", string_scalar node.protocol)
      ∷ (codes "server", string_scalar node.server)
      ∷ (codes "port", int_scalar node.port)
      ∷ (codes "tag", string_scalar node.tag)
      ∷ (codes "remark", string_scalar node.remark)
      ∷ [])
    ++ optional_fields node)

-- The fields that directNodeToYAML writes in front of the raw ones.
unfoldable pub direct_fields : Node → List YamlField
direct_fields node =
    ((codes "id", string_scalar node.id)
      ∷ (codes "user", string_scalar node.user)
      ∷ (codes "direct", bool_scalar true)
      ∷ (codes "protocol", string_scalar node.protocol)
      ∷ (codes "server", string_scalar node.server)
      ∷ (codes "port", int_scalar node.port)
      ∷ [])
    ++ text_pair (codes "tag") node.tag
    ++ ((codes "remark", string_scalar node.remark) ∷ [])
    ++ text_pair (codes "region") node.region
    ++ text_pair (codes "uuid") node.uuid
    ++ text_pair (codes "network") node.network
    ++ text_pair (codes "method") node.method
    ++ text_pair (codes "cipher") node.cipher
    ++ text_pair (codes "password") node.password
    ++ optional_pair (codes "udp") bool_scalar node.udp

unfoldable pub field_keys : List YamlField → List Text
field_keys fields = map (λ pair. pair.0) fields

-- The loop over the raw fields, with `seen`: those that are new and no "type" or "name".
unfoldable pub raw_pairs : List Text → List YamlField → List YamlField
raw_pairs seen [] = []
raw_pairs seen ((key, value) ∷ fields) =
    let skip = raw_pairs seen fields in
    let rest = raw_pairs (key ∷ seen) fields in
    if contains seen key || key == codes "type" || key == codes "name"
    then skip
    else (key, value) ∷ rest

unfoldable pub direct_node_to_yaml : Node → Yaml
direct_node_to_yaml node =
    mapping_of (direct_fields node ++ raw_pairs (field_keys (direct_fields node)) node.raw_fields)

unfoldable pub node_to_yaml : Node → Yaml
node_to_yaml node = if node.direct then direct_node_to_yaml node else rendered_node_to_yaml node

unfoldable pub nodes_to_yaml : List Node → Yaml
nodes_to_yaml nodes = sequence_of (map node_to_yaml nodes)

-- The root that InputToYAML encodes.
unfoldable pub input_to_yaml : Input → Yaml
input_to_yaml input = mapping_of (
    ((codes "input_schema", string_scalar input_schema_name)
      ∷ (codes "input_version", int_scalar current_input_version)
      ∷ (codes "source", string_scalar input.source)
      ∷ (codes "generated_at", quoted input.generated_at)
      ∷ [])
    ++ text_pair (codes "external_host") input.external_host
    ++ ((codes "nodes", nodes_to_yaml input.nodes) ∷ []))
