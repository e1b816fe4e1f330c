-- ===== src/Sub/Surge.antt =====
-- internal/generator/sub/render.go: the Surge lines and region groups of a subscription. `to_lower` is
-- strings.ToLower, `decode_bool` is yaml.v3's decoding of a node into a bool.
use proxystack_go.Prelude.{
  Text, Text_eq, codes, decimal, is_empty, is_some, if◌then◌else◌, Bool, false, not, ◌&&◌, ◌||◌,
  ◌==◌, contains, keep, map, List, [], ◌∷◌, ◌++◌, Option, none, some,
}
use proxystack_go.Yaml.{Yaml}
use proxystack_go.Config.Users.{first_non_empty}
use proxystack_go.Sub.{Node}
use proxystack_go.Sub.ClashProxy.{raw_field, direct_node_string, proxy_names_for_nodes}
use proxystack_go.Sub.SurgeFields.{
  comma_joined, part_if, flag_if, surge_auth, node_ws_path, node_ws_headers, direct_ws_opts,
  direct_node_ws_path, direct_node_ws_headers,
}
use proxystack_go.Sub.Regions.{RegionGroup, render_surge_region_groups}

-- The lines of the protocols that direct nodes share.
unfoldable pub plain_surge_line : Node → Text
plain_surge_line node =
    let start = node.server ++ codes ", " ++ decimal node.port in
    if node.protocol == codes "shadowsocks"
    then node.remark
      ++ codes " = ss, "
      ++ start
      ++ codes ", encrypt-method="
      ++ first_non_empty node.cipher node.method
      ++ codes ", password="
      ++ node.password
    else if node.protocol == codes "socks5"
    then node.remark
      ++ codes " = socks5, "
      ++ start
      ++ surge_auth node
      ++ (elim node.udp [ none ↦ [] | some udp ↦ if udp then codes ", udp-relay=true" else [] ])
    else if node.protocol == codes "http"
    then node.remark ++ codes " = http, " ++ start ++ surge_auth node
    else []

module _ (to_lower : Text → Text) (decode_bool : Yaml → Option Bool) where
  unfoldable pub normalize_surge_network : Text → Text
  normalize_surge_network value = if to_lower value == codes "websocket" then codes "ws" else value

  unfoldable pub direct_node_network : Node → Text
  direct_node_network node =
      normalize_surge_network
        (first_non_empty (direct_node_string node (codes "network")) node.network)

  unfoldable pub direct_node_surge_network : Node → Text
  direct_node_surge_network node =
      if is_empty (direct_node_network node) && is_some (direct_ws_opts node)
      then codes "ws"
      else direct_node_network node

  unfoldable pub direct_node_uses_web_socket : Node → Text → Bool
  direct_node_uses_web_socket node network = network == codes "ws" || is_some (direct_ws_opts node)

  unfoldable pub bool_of : Option Yaml → Bool
  bool_of none = false
  bool_of (some value) = elim (decode_bool value) [ none ↦ false | some b ↦ b ]

  unfoldable pub direct_node_bool : Node → Text → Bool
  direct_node_bool node name = bool_of (raw_field node name)

  unfoldable pub node_uses_web_socket : Node → Bool
  node_uses_web_socket node =
      to_lower node.network == codes "ws"
      || to_lower node.network == codes "websocket"
      || is_some node.ws_opts

  unfoldable pub vmess_surge_line : Node → Text
  vmess_surge_line node = comma_joined (
      ((node.remark ++ codes " = vmess")
        ∷ node.server
        ∷ decimal node.port
        ∷ (codes "username=" ++ node.uuid)
        ∷ (codes "network=" ++ node.network)
        ∷ codes "vmess-aead=true"
        ∷ [])
      ++ flag_if (node_uses_web_socket node) (codes "ws=true")
      ++ part_if (codes "ws-path=") (node_ws_path node)
      ++ part_if (codes "ws-headers=") (node_ws_headers node))

  unfoldable pub direct_vmess_surge_line : Node → Text
  direct_vmess_surge_line node =
      let network = direct_node_surge_network node in
      comma_joined (
        ((node.remark ++ codes " = vmess")
          ∷ node.server
          ∷ decimal node.port
          ∷ (codes "username=" ++ node.uuid)
          ∷ [])
        ++ part_if (codes "network=") network
        ++ (codes "vmess-aead=true" ∷ [])
        ++ flag_if (direct_node_bool node (codes "tls")) (codes "tls=true")
        ++ flag_if (direct_node_bool node (codes "skip-cert-verify"))
            (codes "skip-cert-verify=true")
        ++ part_if (codes "sni=") (direct_node_string node (codes "servername"))
        ++ flag_if (direct_node_uses_web_socket node network) (codes "ws=true")
        ++ part_if (codes "ws-path=") (direct_node_ws_path node)
        ++ part_if (codes "ws-headers=") (direct_node_ws_headers node))

  -- RenderSurgeProxy and RenderDirectSurgeProxy: a direct node of another protocol gives the line of
  -- one that is not direct.
  unfoldable pub render_surge_proxy : Node → Text
  render_surge_proxy node =
      if node.protocol == codes "vmess"
      then (if node.direct then direct_vmess_surge_line node else vmess_surge_line node)
      else plain_surge_line node

  unfoldable pub unsupported_surge_node_reason : Node → Text
  unsupported_surge_node_reason node =
      if node.protocol == codes "vmess"
      then (let network = if node.direct then direct_node_surge_network node else node.network in
          if contains ([] ∷ codes "raw" ∷ codes "tcp" ∷ codes "ws" ∷ codes "websocket" ∷ [])
            (to_lower network)
          then []
          else codes "unsupported vmess network: " ++ network)
      else if node.protocol == codes "shadowsocks"
          || node.protocol == codes "socks5"
          || node.protocol == codes "http"
      then []
      else codes "unsupported surge protocol: " ++ node.protocol

  unfoldable pub filter_surge_supported_nodes : List Node → List Node
  filter_surge_supported_nodes nodes =
      keep (λ node. is_empty (unsupported_surge_node_reason node)) nodes

  -- renderSurgeProxyLines: the lines that are not empty.
  unfoldable pub surge_lines_of : List Node → List Text
  surge_lines_of nodes = keep (λ line. not (is_empty line)) (map render_surge_proxy nodes)

  unfoldable pub render_surge_proxy_lines : List Node → List Text
  render_surge_proxy_lines nodes = surge_lines_of (filter_surge_supported_nodes nodes)

-- surgeTemplateContext
pub record SurgeContext : Type 0 where
  pub proxy_lines : List Text
  pub proxy_names : List Text
  pub region_groups : List RegionGroup

unfoldable pub build_surge_template_context :
    (Text → Text) → (Yaml → Option Bool) → List Node → SurgeContext
build_surge_template_context to_lower decode_bool nodes =
    let supported = filter_surge_supported_nodes to_lower decode_bool nodes in
    record {
      proxy_lines = surge_lines_of to_lower decode_bool supported;
      proxy_names = proxy_names_for_nodes supported;
      region_groups = render_surge_region_groups supported;
    }
