-- ===== src/XrayConfig/Outbounds.antt =====
-- internal/generator/xray/config.go: RenderOutbounds and what it calls.
use proxystack_go.Prelude.{
  ℕ, nat_eq, Text, Text_eq, codes, is_empty, if◌then◌else◌, not, ◌&&◌, ◌||◌, ◌==◌, List, [], ◌∷◌,
  ◌++◌, Option, none, some, Answer, ok, error, ◌>>=◌,
}
use proxystack_go.Domain.{XrayOutbound}
use proxystack_go.Graph.References.{Endpoint, EndpointUser, resolve_clash_listener}
use proxystack_go.Graph.Compile.{ReferenceGraph}
use proxystack_go.Config.Merge.{normalize_internal_endpoint_address}
use proxystack_go.XrayConfig.{Outbound, proxy_outbound, direct_outbound, RoutingConfig}

abbrev pub private_direct_domains : List Text
private_direct_domains = codes "localhost" ∷ codes "domain:local" ∷ []

abbrev pub private_direct_ips : List Text
private_direct_ips =
    codes "127.0.0.0/8"
    ∷ codes "10.0.0.0/8"
    ∷ codes "172.16.0.0/12"
    ∷ codes "192.168.0.0/16"
    ∷ codes "100.64.0.0/10"
    ∷ codes "::1/128"
    ∷ codes "fc00::/7"
    ∷ codes "fe80::/10"
    ∷ []

unfoldable pub outbound_tag : Text → Text
outbound_tag stack_name = codes "egress" ++ codes "-" ++ stack_name

unfoldable pub private_direct_outbound_tag : Text → Text
private_direct_outbound_tag stack_name = codes "private-direct" ++ codes "-" ++ stack_name

unfoldable pub render_private_direct_routing : Text → RoutingConfig
render_private_direct_routing tag = record {
  rules =
      record { type = codes "field"; domain = private_direct_domains; ip = []; outbound_tag = tag }
      ∷ record { type = codes "field"; domain = []; ip = private_direct_ips; outbound_tag = tag }
      ∷ [];
}

-- The user name and the password of the first user.
unfoldable pub first_user : List EndpointUser → Text × Text
first_user [] = ([], [])
first_user (user ∷ users) = (user.username, user.password)

unfoldable pub first_endpoint_user : Endpoint → Text × Text
first_endpoint_user endpoint = first_user endpoint.users

unfoldable pub render_proxy_outbound : Text → Text → ℕ → Text → Text → Text → Answer Outbound
render_proxy_outbound protocol address port username password tag =
    if is_empty address || nat_eq port 0
    then error (protocol ++ codes " outbound requires address and port")
    else if is_empty username && is_empty password
    then ok
        (proxy_outbound tag protocol (record { address = address; port = port; users = [] } ∷ []))
    else if is_empty username || is_empty password
    then error (protocol ++ codes " outbound username and password must be provided together")
    else ok (
        proxy_outbound tag protocol (
          record {
            address = address;
            port = port;
            users = record { user = username; pass = password } ∷ [];
          }
          ∷ []))

unfoldable pub render_clash_outbound : XrayOutbound → ReferenceGraph → Text → Answer Outbound
render_clash_outbound outbound graph tag = elim (resolve_clash_listener graph.index outbound.ref) [
  | none ↦ error (codes "clash listener ref does not exist: " ++ outbound.ref)
  | some endpoint ↦
      if not (endpoint.kind == codes "socks")
      then error (codes "clash listener ref must target socks listener: " ++ outbound.ref)
      else render_proxy_outbound (codes "socks")
          (normalize_internal_endpoint_address endpoint.listen) endpoint.port
          (first_endpoint_user endpoint).0 (first_endpoint_user endpoint).1 tag
]

unfoldable pub render_outbound : XrayOutbound → ReferenceGraph → Text → Answer Outbound
render_outbound outbound graph stack_name =
    if outbound.type == codes "clash"
    then render_clash_outbound outbound graph (outbound_tag stack_name)
    else if outbound.type == codes "socks5"
    then render_proxy_outbound (codes "socks") outbound.server outbound.port outbound.username
        outbound.password (outbound_tag stack_name)
    else if outbound.type == codes "http"
    then render_proxy_outbound (codes "http") outbound.server outbound.port outbound.username
        outbound.password (outbound_tag stack_name)
    else if outbound.type == codes "direct"
    then ok (direct_outbound (outbound_tag stack_name) (codes "freedom"))
    else error (codes "unsupported xray outbound type: " ++ outbound.type)

unfoldable pub render_outbounds :
    XrayOutbound → ReferenceGraph → Text → Answer (List Outbound × Option RoutingConfig)
render_outbounds outbound graph stack_name =
    render_outbound outbound graph stack_name >>= λ rendered.
    if not outbound.private_direct
      || not (outbound.type == codes "socks5") && not (outbound.type == codes "http")
    then ok (rendered ∷ [], none)
    else ok (
      rendered ∷ direct_outbound (private_direct_outbound_tag stack_name) (codes "freedom") ∷ [],
      some (render_private_direct_routing (private_direct_outbound_tag stack_name)),
    )
