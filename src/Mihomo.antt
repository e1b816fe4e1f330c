-- ===== src/Mihomo.antt =====
-- internal/generator/mihomo/config.go: the YAML tree of a mihomo (Clash) service. The loop that looks
-- for a free listener name takes fuel, as the graph search does: `none` says that it has run out.
pub mod Names
use proxystack_go.Prelude.{
  is_zero, decimal_int, ℕ, zero, suc, ◌+◌, nat_eq, Text, Text_eq, codes, decimal, is_empty,
  if◌then◌else◌, Bool, true, false, not, ◌&&◌, ◌||◌, ◌==◌, contains, map, List, [], ◌∷◌, ◌++◌,
  Option, none, some, Answer, ok, error, ◌>>=◌, traverse,
}
use proxystack_go.Yaml.{
  Yaml, scalar, quoted, sequence, mapping, YamlPairs, no_pair, pair, YamlField, string_scalar,
  int_scalar, bool_scalar, mapping_of, sequence_of, string_sequence,
}
use proxystack_go.Domain.{
  Inbound, ClashListenerUser, ClashListener, ClashUpstream, ClashGroup, ClashRules, Stack, StackSet,
}
use proxystack_go.Graph.References.{resolve_xray_inbound}
use proxystack_go.Graph.Compile.{ReferenceGraph, BuildResult, build_reference_graph}
use proxystack_go.Config.Listen.{Net, is_loopback_host}
use proxystack_go.Config.Merge.{resolve_clash_log_level, normalize_internal_endpoint_address}
use proxystack_go.Config.Resolve.{by_name}
use proxystack_go.XrayConfig.Render.{graph_answer}

abbrev pub default_rules_list : List Text
default_rules_list =
    codes "DOMAIN-SUFFIX,local,DIRECT"
    ∷ codes "DOMAIN,localhost,DIRECT"
    ∷ codes "IP-CIDR,127.0.0.0/8,DIRECT,no-resolve"
    ∷ codes "IP-CIDR,10.0.0.0/8,DIRECT,no-resolve"
    ∷ codes "IP-CIDR,172.16.0.0/12,DIRECT,no-resolve"
    ∷ codes "IP-CIDR,192.168.0.0/16,DIRECT,no-resolve"
    ∷ codes "IP-CIDR,100.64.0.0/10,DIRECT,no-resolve"
    ∷ []

unfoldable pub enabled_clash_stack : StackSet → Text → Answer Stack
enabled_clash_stack set stack_name = elim (by_name set.stacks stack_name) [
  | none ↦ error (codes "stack does not exist: " ++ stack_name)
  | some stack ↦
      if not stack.enabled
      then error (codes "stack is disabled: " ++ stack_name)
      else if not stack.clash.enabled
      then error (codes "clash is disabled: " ++ stack_name)
      else ok stack
]

unfoldable pub one_listener : Text → List ClashListener → Answer ClashListener
one_listener stack_name (listener ∷ []) = ok listener
one_listener stack_name _ =
    error (codes "exactly one clash socks listener is required: " ++ stack_name)

unfoldable pub single_socks_listener : Stack → Answer ClashListener
single_socks_listener stack = one_listener stack.name stack.clash.listeners.socks

unfoldable pub at_most_one_listener : Text → List ClashListener → Answer (Option ClashListener)
at_most_one_listener stack_name [] = ok none
at_most_one_listener stack_name (listener ∷ []) = ok (some listener)
at_most_one_listener stack_name _ =
    error (codes "at most one clash http listener is supported: " ++ stack_name)

unfoldable pub optional_http_listener : Stack → Answer (Option ClashListener)
optional_http_listener stack = at_most_one_listener stack.name stack.clash.listeners.http

unfoldable pub listeners_allow_lan : Net → ClashListener → Option ClashListener → Bool
listeners_allow_lan net socks none = not (is_loopback_host net socks.listen)
listeners_allow_lan net socks (some http) =
    if not (is_loopback_host net socks.listen) then true else not (is_loopback_host net http.listen)

-- The loop of uniqueListenerName from a suffix on.
unfoldable pub numbered_name : ℕ → ℕ → Text → List Text → Option Text
numbered_name zero suffix base used = none
numbered_name (suc fuel) suffix base used =
    let candidate = base ++ codes "-" ++ decimal suffix in
    let rest = numbered_name fuel (suffix + 1) base used in
    if contains used candidate then rest else some candidate

-- The first round of the loop has two candidates.
unfoldable pub unique_listener_name : ℕ → Text → Text → List Text → Option Text
unique_listener_name fuel listener_type name used =
    let base = name ++ codes "-" ++ listener_type in
    let rest = numbered_name fuel 2 base used in
    if not (contains used name)
    then some name
    else if not (contains used base)
    then some base
    else rest

unfoldable pub user_nodes : List ClashListenerUser → List Yaml
user_nodes users =
    map
      (λ user. mapping_of (
        (codes "username", string_scalar user.username)
        ∷ (codes "password", string_scalar user.password)
        ∷ []))
      users

unfoldable pub listener_node : Text → Text → ClashListener → Yaml
listener_node listener_type name listener = mapping_of (
    ((codes "name", string_scalar name)
      ∷ (codes "type", string_scalar listener_type)
      ∷ (codes "listen", string_scalar listener.listen)
      ∷ (codes "port", int_scalar listener.port)
      ∷ [])
    ++ (if listener.has_users
        then (codes "users", sequence_of (user_nodes listener.users)) ∷ []
        else []))

-- The names of the listeners, the socks listener first.
unfoldable pub listener_names : ClashListener → Option ClashListener → Option (Text × Option Text)
listener_names socks http = elim (unique_listener_name 1 (codes "socks") socks.name []) [
  | none ↦ none
  | some first ↦ (elim http [
    | none ↦ some (first, none)
    | some listener ↦ (elim (unique_listener_name 1 (codes "http") listener.name (first ∷ [])) [
      | none ↦ none
      | some second ↦ some (first, some second)
    ])
  ])
]

unfoldable pub http_nodes : Option ClashListener → Option Text → List Yaml
http_nodes none name = []
http_nodes (some listener) none = []
http_nodes (some listener) (some name) = listener_node (codes "http") name listener ∷ []

unfoldable pub render_listeners : ClashListener → Option ClashListener → Option Yaml
render_listeners socks http = elim (listener_names socks http) [
  | none ↦ none
  | some (first, second) ↦
      some (sequence_of (listener_node (codes "socks") first socks ∷ http_nodes http second))
]

-- `node.Value`, empty for a sequence or a mapping.
unfoldable pub node_value : Yaml → Text
node_value (scalar tag value) = value
node_value (quoted value) = value
node_value (sequence items) = []
node_value (mapping pairs) = []

-- The fields of the raw configuration without its name.
unfoldable pub raw_fields_of : YamlPairs → List YamlField
raw_fields_of no_pair = []
raw_fields_of (pair key value pairs) =
    let rest = raw_fields_of pairs in if key == codes "name" then rest else (key, value) ∷ rest

unfoldable pub has_key : Text → List YamlField → Bool
has_key key [] = false
has_key key ((other, value) ∷ fields) = other == key || has_key key fields

-- `proxyType`: the value of the last field "type".
unfoldable pub proxy_type_of : Text → List YamlField → Text
proxy_type_of found [] = found
proxy_type_of found ((key, value) ∷ fields) =
    proxy_type_of (if key == codes "type" then node_value value else found) fields

unfoldable pub vmess_defaults : List YamlField → List YamlField
vmess_defaults fields =
    (if has_key (codes "alterId") fields then [] else (codes "alterId", int_scalar 0) ∷ [])
    ++ (if has_key (codes "cipher") fields
        then []
        else (codes "cipher", string_scalar (codes "auto")) ∷ [])

unfoldable pub raw_proxy : ClashUpstream → List YamlField → Yaml
raw_proxy upstream fields = mapping_of (
    (codes "name", string_scalar upstream.name)
    ∷ (fields ++ (if proxy_type_of [] fields == codes "vmess" then vmess_defaults fields else [])))

unfoldable pub raw_config_missing : ClashUpstream → Answer Yaml
raw_config_missing upstream = error (codes "raw upstream config is required: " ++ upstream.name)

unfoldable pub raw_proxy_of : ClashUpstream → Option Yaml → Answer Yaml
raw_proxy_of upstream none = raw_config_missing upstream
raw_proxy_of upstream (some (mapping pairs)) = ok (raw_proxy upstream (raw_fields_of pairs))
raw_proxy_of upstream (some (scalar tag value)) = raw_config_missing upstream
raw_proxy_of upstream (some (quoted value)) = raw_config_missing upstream
raw_proxy_of upstream (some (sequence items)) = raw_config_missing upstream

unfoldable pub render_raw_proxy : ClashUpstream → Answer Yaml
render_raw_proxy upstream = raw_proxy_of upstream upstream.config_node

unfoldable pub credentials_of : Inbound → List YamlField
credentials_of inbound = elim inbound.auth [
  | none ↦ []
  | some auth ↦
      if auth.type == codes "password"
      then (codes "username", string_scalar auth.username)
        ∷ (codes "password", string_scalar auth.password)
        ∷ []
      else []
]

unfoldable pub socks5_proxy : ClashUpstream → Inbound → Yaml
socks5_proxy upstream inbound = mapping_of (
    ((codes "name", string_scalar upstream.name)
      ∷ (codes "type", string_scalar (codes "socks5"))
      ∷ (codes "server", string_scalar (normalize_internal_endpoint_address inbound.listen))
      ∷ (codes "port", int_scalar inbound.port)
      ∷ (codes "udp", bool_scalar inbound.udp)
      ∷ [])
    ++ credentials_of inbound)

unfoldable pub ref_missing : ClashUpstream → Answer Yaml
ref_missing upstream = error (codes "xray inbound ref does not exist: " ++ upstream.ref)

-- The loop over the inbounds of the target stack.
unfoldable pub proxy_to : ClashUpstream → Text → List Inbound → Answer Yaml
proxy_to upstream name [] = ref_missing upstream
proxy_to upstream name (inbound ∷ inbounds) =
    let rest = proxy_to upstream name inbounds in
    if inbound.name == name then ok (socks5_proxy upstream inbound) else rest

unfoldable pub render_xray_socks5_proxy : StackSet → ReferenceGraph → ClashUpstream → Answer Yaml
render_xray_socks5_proxy set graph upstream = elim (resolve_xray_inbound graph.index upstream.ref) [
  | none ↦ ref_missing upstream
  | some endpoint ↦
      if not (endpoint.kind == codes "socks5")
      then error (codes "xray-socks5 ref must target socks5 inbound: " ++ upstream.ref)
      else (elim (by_name set.stacks endpoint.stack) [
        | none ↦ error (codes "xray inbound stack does not exist: " ++ endpoint.stack)
        | some target ↦ proxy_to upstream endpoint.name target.xray.inbounds
      ])
]

unfoldable pub render_proxy : StackSet → ReferenceGraph → ClashUpstream → Answer Yaml
render_proxy set graph upstream =
    if upstream.type == codes "raw"
    then render_raw_proxy upstream
    else if upstream.type == codes "xray-socks5"
    then render_xray_socks5_proxy set graph upstream
    else error (codes "unsupported mihomo upstream type: " ++ upstream.type)

unfoldable pub render_proxies : StackSet → ReferenceGraph → List ClashUpstream → Answer (List Yaml)
render_proxies set graph upstreams = traverse (render_proxy set graph) upstreams

unfoldable pub group_node : ClashGroup → Yaml
group_node group = mapping_of (
    ((codes "name", string_scalar group.name)
      ∷ (codes "type", string_scalar group.type)
      ∷ (codes "proxies", string_sequence group.proxies)
      ∷ [])
    ++ (if is_empty group.url then [] else (codes "url", string_scalar group.url) ∷ [])
    ++ (if is_zero group.interval
        then []
        else (codes "interval", scalar (codes "!!int") (decimal_int group.interval)) ∷ [])
    ++ (if group.type == codes "load-balance" && not (is_empty group.strategy)
        then (codes "strategy", string_scalar group.strategy) ∷ []
        else []))

unfoldable pub render_groups : List ClashGroup → Yaml
render_groups groups = sequence_of (map group_node groups)

unfoldable pub rule_values : ClashRules → List Text
rule_values rules = rules.extra ++ (default_rules_list ++ (codes "MATCH," ++ rules.final) ∷ [])

unfoldable pub render_rules : ClashRules → Yaml
render_rules rules = string_sequence (rule_values rules)

unfoldable pub config_node :
    Net → StackSet → Stack → ClashListener → Option ClashListener → Yaml → List Yaml → Yaml
config_node net set stack socks http listeners proxies = mapping_of (
    (codes "mode", string_scalar stack.clash.mode)
    ∷ (
      codes "log-level",
      string_scalar (resolve_clash_log_level set.config.default_clash stack.clash),
    )
    ∷ (codes "ipv6", bool_scalar true)
    ∷ (codes "allow-lan", bool_scalar (listeners_allow_lan net socks http))
    ∷ (codes "listeners", listeners)
    ∷ (codes "external-controller", string_scalar stack.clash.controller.listen)
    ∷ (codes "secret", string_scalar stack.clash.controller.secret)
    ∷ (codes "proxies", sequence_of proxies)
    ∷ (codes "proxy-groups", render_groups stack.clash.groups)
    ∷ (codes "rules", render_rules stack.clash.rules)
    ∷ [])

-- What RenderConfigNode finds before it builds the node.
pub record Parts : Type 0 where
  pub stack : Stack
  pub socks : ClashListener
  pub http : Option ClashListener
  pub proxies : List Yaml

unfoldable pub parts_of : StackSet → Stack → BuildResult → Answer Parts
parts_of set stack result = graph_answer result >>= λ graph.
    single_socks_listener stack >>= λ socks. optional_http_listener stack >>= λ http.
    render_proxies set graph stack.clash.upstreams >>= λ proxies.
    ok (record { stack = stack; socks = socks; http = http; proxies = proxies })

unfoldable pub node_of : Net → StackSet → Answer Parts → Option (Answer Yaml)
node_of net set (error e) = some (error e)
node_of net set (ok parts) = elim (render_listeners parts.socks parts.http) [
  | none ↦ none
  | some listeners ↦
      some (ok (config_node net set parts.stack parts.socks parts.http listeners parts.proxies))
]

-- RenderConfigNode behind the choice of the stack.
unfoldable pub render_clash_stack : Net → StackSet → Answer Stack → Option (Answer Yaml)
render_clash_stack net set (error e) = some (error e)
render_clash_stack net set (ok stack) = elim (build_reference_graph set) [
  | none ↦ none
  | some result ↦ node_of net set (parts_of set stack result)
]

unfoldable pub render_config_node : Net → StackSet → Text → Option (Answer Yaml)
render_config_node net set stack_name =
    render_clash_stack net set (enabled_clash_stack set stack_name)
