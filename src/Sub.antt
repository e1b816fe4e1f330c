-- ===== src/Sub.antt =====
-- internal/generator/sub/types.go: the nodes, inputs and the index of the subscription side, and
-- their Validate. `raw_fields` are the YAML fields that a direct node keeps, by the text of the key.
pub mod Merge
pub mod Load
pub mod Nodes
pub mod Encode
pub mod ClashProxy
pub mod SurgeFields
pub mod Regions
pub mod RegionOrder
pub mod Grouped
pub mod Surge
pub mod SurgeContext
use proxystack_go.Prelude.{
  ℕ, nat_eq, Text, Text_eq, codes, ltb, decimal, is_empty, is_some, if◌then◌else◌, Bool, not, ◌&&◌,
  ◌||◌, ◌==◌, contains, lookup, put, map, List, [], ◌∷◌, ◌++◌, Option, none, some, Map,
}
use proxystack_go.Yaml.{YamlField}
use proxystack_go.Domain.{WebSocketOptions, GrpcOptions}
use proxystack_go.Config.Values.{◌then◌, refuse_if, matches_region}

abbrev pub input_schema_name : Text
input_schema_name = codes "proxystack.subscription-input"

abbrev pub current_input_version : ℕ
current_input_version = 1

abbrev pub current_index_version : ℕ
current_index_version = 1

pub record Auth : Type 0 where
  pub type : Text
  pub username : Text
  pub password : Text

unfoldable pub validate_node_auth : Auth → Option Text
validate_node_auth a =
    if a.type == codes "noauth"
    then none
    else if a.type == codes "password"
    then refuse_if (is_empty a.username || is_empty a.password)
        (codes "username and password are required for password auth")
    else some (codes "auth.type must be noauth or password")

pub record Node : Type 0 where
  pub id : Text
  pub user : Text
  pub direct : Bool
  pub protocol : Text
  pub server : Text
  pub port : ℕ
  pub tag : Text
  pub remark : Text
  pub uuid : Text
  pub network : Text
  pub ws_opts : Option WebSocketOptions
  pub grpc_opts : Option GrpcOptions
  pub method : Text
  pub cipher : Text
  pub password : Text
  pub udp : Option Bool
  pub auth : Option Auth
  pub region : Text
  pub raw_fields : List YamlField

unfoldable pub supports_subscription_udp_protocol : Text → Bool
supports_subscription_udp_protocol protocol =
    contains (codes "vmess" ∷ codes "shadowsocks" ∷ codes "socks5" ∷ []) protocol

unfoldable pub normalize_direct_protocol : Text → Text
normalize_direct_protocol value = if value == codes "ss" then codes "shadowsocks" else value

unfoldable pub apply_direct_aliases : Node → Text → Text → Node
apply_direct_aliases n proxy_type proxy_name = record n {
  protocol = if is_empty n.protocol then normalize_direct_protocol proxy_type else n.protocol;
  remark = if is_empty n.remark then proxy_name else n.remark;
  tag = if is_empty n.tag then n.id else n.tag;
}

unfoldable pub bad_region : Text → Bool
bad_region region = not (is_empty region) && not (matches_region region)

unfoldable pub validate_direct : Node → Option Text
validate_direct n =
    refuse_if (is_empty n.remark) (codes "node.remark is required")
    then refuse_if (bad_region n.region) (codes "node.region must use two uppercase letters")
    then (if n.protocol == codes "vmess"
        then refuse_if (is_empty n.uuid) (codes "uuid is required for vmess node")
        else if n.protocol == codes "shadowsocks"
        then (refuse_if (is_empty n.password) (codes "password is required for shadowsocks node")
            then refuse_if (is_empty n.method && is_empty n.cipher)
                (codes "method or cipher is required for shadowsocks node"))
        else none)

-- The switch over the protocols of Validate.
unfoldable pub validate_node_protocol : Node → Option Text
validate_node_protocol n =
    if n.protocol == codes "vmess"
    then (refuse_if (is_empty n.uuid) (codes "uuid is required for vmess node")
        then refuse_if (is_empty n.network) (codes "network is required for vmess node"))
    else if n.protocol == codes "shadowsocks"
    then (refuse_if (is_empty n.password) (codes "password is required for shadowsocks node")
        then refuse_if (is_empty n.method && is_empty n.cipher)
            (codes "method or cipher is required for shadowsocks node"))
    else if n.protocol == codes "socks5" || n.protocol == codes "http"
    then none
    else some (codes "unsupported subscription node protocol: " ++ n.protocol)

unfoldable pub check_node_auth : Option Auth → Option Text
check_node_auth none = none
check_node_auth (some auth) = validate_node_auth auth

-- Validate behind the test for a direct node.
unfoldable pub validate_rendered : Node → Option Text
validate_rendered n =
    refuse_if (is_empty n.tag) (codes "node.tag is required")
    then refuse_if (is_empty n.remark) (codes "node.remark is required")
    then refuse_if (bad_region n.region) (codes "node.region must use two uppercase letters")
    then check_node_auth n.auth
    then validate_node_protocol n
    then refuse_if (is_some n.udp && not (supports_subscription_udp_protocol n.protocol))
        (codes "udp is not supported for " ++ n.protocol ++ codes " node")

unfoldable pub validate_node : Node → Option Text
validate_node n =
    refuse_if (is_empty n.id) (codes "node.id is required")
    then refuse_if (is_empty n.user) (codes "node.user is required")
    then refuse_if (is_empty n.server) (codes "node.server is required")
    then refuse_if (ltb n.port 1 || ltb 65535 n.port)
        (codes "node.port must be between 1 and 65535")
    then (if n.direct then validate_direct n else validate_rendered n)

pub record Input : Type 0 where
  pub input_schema : Text
  pub input_version : ℕ
  pub source : Text
  pub generated_at : Text
  pub external_host : Text
  pub nodes : List Node

unfoldable pub with_server : Text → Node → Node
with_server host n = record n { server = if is_empty n.server then host else n.server }

unfoldable pub resolve_external_host_default : Input → Input
resolve_external_host_default i = record i {
  nodes = if is_empty i.external_host then i.nodes else map (with_server i.external_host) i.nodes;
}

-- The key of `proxyNames`: the user, a zero byte, the remark.
unfoldable pub proxy_name_key : Node → Text
proxy_name_key n = n.user ++ 0 ∷ n.remark

-- The loop of Validate, with `seen` and `proxyNames`.
unfoldable pub validate_nodes : List Text → Map Text Text → List Node → Option Text
validate_nodes seen proxy_names [] = none
validate_nodes seen proxy_names (node ∷ nodes) =
    let rest =
      validate_nodes (node.id ∷ seen) (put (proxy_name_key node) node.id proxy_names) nodes in
    validate_node node
    then refuse_if (contains seen node.id) (codes "duplicate node id in input: " ++ node.id)
    then elim (lookup proxy_names (proxy_name_key node)) [
      | some first ↦ some (
          codes "duplicate proxy name for user: user="
          ++ node.user
          ++ codes " name="
          ++ node.remark
          ++ codes ", first seen at "
          ++ first
          ++ codes ", repeated at "
          ++ node.id)
      | none ↦ rest
    ]

unfoldable pub validate_input : Input → Option Text
validate_input i =
    let input = resolve_external_host_default i in
    refuse_if (not (is_empty input.input_schema) && not (input.input_schema == input_schema_name))
      (codes "unsupported subscription input schema: " ++ input.input_schema)
    then refuse_if (not (nat_eq input.input_version current_input_version))
        (codes "unsupported subscription input version: " ++ decimal input.input_version)
    then refuse_if (is_empty input.source) (codes "input.source is required")
    then refuse_if (is_empty input.generated_at) (codes "input.generated_at is required")
    then validate_nodes [] [] input.nodes

pub record Access : Type 0 where
  pub type : Text
  pub token : Text

unfoldable pub validate_access : Access → Option Text
validate_access a =
    if is_empty a.type || a.type == codes "none"
    then none
    else if a.type == codes "token"
    then refuse_if (is_empty a.token) (codes "token is required when access type is token")
    else some (codes "access.type must be none or token")

unfoldable pub normalized_access : Access → Access
normalized_access a = record a { type = if is_empty a.type then codes "none" else a.type }

pub record Index : Type 0 where
  pub index_version : ℕ
  pub generated_at : Text
  pub sources : List Text
  pub nodes : List Node
  pub users : Map Text (List Node)
  pub access : Access

unfoldable pub first_invalid : List Node → Option Text
first_invalid [] = none
first_invalid (node ∷ nodes) = validate_node node then first_invalid nodes

unfoldable pub validate_index : Index → Option Text
validate_index i =
    refuse_if (not (nat_eq i.index_version current_index_version))
      (codes "unsupported subscription index version: " ++ decimal i.index_version)
    then refuse_if (is_empty i.generated_at) (codes "index.generated_at is required")
    then validate_access i.access
    then first_invalid i.nodes

pub record InputFile : Type 0 where
  pub name : Text
  pub input : Input
