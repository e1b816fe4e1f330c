-- ===== src/Sub/ClashProxy.antt =====
-- internal/generator/sub/render.go: the Clash proxies and groups of a subscription.
use proxystack_go.Prelude.{
  ℕ, Text, Text_eq, codes, if◌then◌else◌, Bool, ◌||◌, ◌==◌, contains, map, List, [], ◌∷◌, ◌++◌,
  Option, none, some,
}
use proxystack_go.Yaml.{
  Yaml, scalar, quoted, sequence, mapping, YamlField, string_scalar, int_scalar, bool_scalar,
  mapping_of,
}
use proxystack_go.Config.Users.{first_non_empty}
use proxystack_go.Sub.{Auth, Node, Index, supports_subscription_udp_protocol}
use proxystack_go.Sub.Merge.{nodes_of}
use proxystack_go.Sub.Encode.{
  optional_pair, websocket_options_to_yaml, grpc_options_to_clash_yaml, field_keys,
}

abbrev pub test_url : Text
test_url = codes "http://www.gstatic.com/generate_204"

unfoldable pub nodes_for_user : Index → Text → List Node
nodes_for_user index user = nodes_of index.users user

unfoldable pub clash_protocol_type : Text → Text
clash_protocol_type protocol = if protocol == codes "shadowsocks" then codes "ss" else protocol

unfoldable pub password_fields : Option Auth → List YamlField
password_fields none = []
password_fields (some auth) =
    if auth.type == codes "password"
    then (codes "username", string_scalar auth.username)
      ∷ (codes "password", string_scalar auth.password)
      ∷ []
    else []

-- The switch over the protocols.
unfoldable pub protocol_fields : Node → List YamlField
protocol_fields node =
    if node.protocol == codes "vmess"
    then ((codes "uuid", string_scalar node.uuid)
        ∷ (codes "alterId", int_scalar 0)
        ∷ (codes "cipher", string_scalar (codes "auto"))
        ∷ (codes "network", string_scalar node.network)
        ∷ [])
      ++ optional_pair (codes "ws-opts") websocket_options_to_yaml node.ws_opts
      ++ optional_pair (codes "grpc-opts") grpc_options_to_clash_yaml node.grpc_opts
    else if node.protocol == codes "shadowsocks"
    then (codes "cipher", string_scalar (first_non_empty node.cipher node.method))
      ∷ (codes "password", string_scalar node.password)
      ∷ []
    else if node.protocol == codes "socks5" || node.protocol == codes "http"
    then password_fields node.auth
    else []

unfoldable pub udp_field : Node → List YamlField
udp_field node =
    if supports_subscription_udp_protocol node.protocol
    then optional_pair (codes "udp") bool_scalar node.udp
    else []

-- `node.RawField(name)`
unfoldable pub raw_field_in : List YamlField → Text → Option Yaml
raw_field_in [] name = none
raw_field_in ((key, value) ∷ fields) name =
    let rest = raw_field_in fields name in if key == name then some value else rest

unfoldable pub raw_field : Node → Text → Option Yaml
raw_field node name = raw_field_in node.raw_fields name

-- The text of a scalar, empty for anything else.
unfoldable pub scalar_text : Option Yaml → Text
scalar_text none = []
scalar_text (some (scalar tag value)) = value
scalar_text (some (quoted value)) = value
scalar_text (some (sequence items)) = []
scalar_text (some (mapping pairs)) = []

unfoldable pub direct_node_string : Node → Text → Text
direct_node_string node name = scalar_text (raw_field node name)

unfoldable pub direct_clash_type : Node → Text
direct_clash_type node =
    first_non_empty (direct_node_string node (codes "type")) (clash_protocol_type node.protocol)

unfoldable pub direct_clash_skip_field : Text → Bool
direct_clash_skip_field key =
    contains
      (codes "id"
        ∷ codes "user"
        ∷ codes "direct"
        ∷ codes "tag"
        ∷ codes "remark"
        ∷ codes "region"
        ∷ codes "protocol"
        ∷ codes "type"
        ∷ codes "name"
        ∷ [])
      key

-- The loop over the raw fields, with `seen`.
unfoldable pub direct_pairs : List Text → List YamlField → List YamlField
direct_pairs seen [] = []
direct_pairs seen ((key, value) ∷ fields) =
    let skip = direct_pairs seen fields in
    let rest = direct_pairs (key ∷ seen) fields in
    if direct_clash_skip_field key || contains seen key then skip else (key, value) ∷ rest

-- What a vmess node gets where its raw fields lack it.
unfoldable pub direct_vmess_fields : List YamlField → List YamlField
direct_vmess_fields pairs =
    (if contains (field_keys pairs) (codes "alterId")
      then []
      else (codes "alterId", int_scalar 0) ∷ [])
    ++ (if contains (field_keys pairs) (codes "cipher")
        then []
        else (codes "cipher", string_scalar (codes "auto")) ∷ [])

unfoldable pub render_direct_clash_proxy : Node → Yaml
render_direct_clash_proxy node =
    let pairs = direct_pairs (codes "name" ∷ codes "type" ∷ []) node.raw_fields in
    mapping_of (
      ((codes "name", string_scalar node.remark)
        ∷ (codes "type", string_scalar (direct_clash_type node))
        ∷ [])
      ++ pairs
      ++ (if node.protocol == codes "vmess" then direct_vmess_fields pairs else []))

unfoldable pub render_clash_proxy : Node → Yaml
render_clash_proxy node =
    if node.direct
    then render_direct_clash_proxy node
    else mapping_of (
        ((codes "name", string_scalar node.remark)
          ∷ (codes "type", string_scalar (clash_protocol_type node.protocol))
          ∷ (codes "server", string_scalar node.server)
          ∷ (codes "port", int_scalar node.port)
          ∷ [])
        ++ protocol_fields node
        ++ udp_field node)

-- ClashProxyGroup; an interval of 0 and an empty text are left out of the YAML.
pub record ClashProxyGroup : Type 0 where
  pub name : Text
  pub type : Text
  pub url : Text
  pub interval : ℕ
  pub strategy : Text
  pub proxies : List Text

unfoldable pub render_clash_proxy_groups : List Text → List ClashProxyGroup
render_clash_proxy_groups proxy_names =
    record {
      name = codes "AllProxy";
      type = codes "select";
      url = [];
      interval = 0;
      strategy = [];
      proxies = codes "auto" ∷ codes "loadbalance" ∷ (proxy_names ++ codes "DIRECT" ∷ []);
    }
    ∷ record {
      name = codes "loadbalance";
      type = codes "load-balance";
      url = test_url;
      interval = 300;
      strategy = codes "round-robin";
      proxies = proxy_names;
    }
    ∷ record {
      name = codes "auto";
      type = codes "url-test";
      url = test_url;
      interval = 300;
      strategy = [];
      proxies = proxy_names;
    }
    ∷ record {
      name = codes "Final";
      type = codes "select";
      url = [];
      interval = 0;
      strategy = [];
      proxies = codes "AllProxy" ∷ codes "DIRECT" ∷ proxy_names;
    }
    ∷ []

unfoldable pub proxy_names_for_nodes : List Node → List Text
proxy_names_for_nodes nodes = map (λ node. node.remark) nodes
