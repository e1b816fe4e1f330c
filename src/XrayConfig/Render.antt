-- ===== src/XrayConfig/Render.antt =====
-- internal/generator/xray/config.go: RenderConfig. The graph search of the model takes fuel: `none`
-- says that it has run out.
use proxystack_go.Prelude.{
  Text, Text_eq, codes, is_empty, is_some, if◌then◌else◌, Bool, not, ◌||◌, List, [], ◌∷◌, ◌++◌,
  Option, none, some, Map, Answer, ok, error, ◌>>=◌, traverse,
}
use proxystack_go.Domain.{
  Inbound, InboundUser, XrayApiConfig, XrayPolicyLevelConfig, XrayPolicySystemConfig,
  XrayPolicyConfig, Stack, StackSet,
}
use proxystack_go.Graph.Compile.{ReferenceGraph}
use proxystack_go.Graph.Compile.{Issue, BuildResult, built, rejected, build_reference_graph}
use proxystack_go.Config.Listen.{resolve_xray_api_config}
use proxystack_go.Config.Merge.{
  resolve_xray_log_level, resolve_xray_stats_config, resolve_xray_policy_config,
}
use proxystack_go.Config.Resolve.{by_name, resolve_stack_set_user_refs}
use proxystack_go.UserState.{DisabledUserSet}
use proxystack_go.XrayUsers.{apply_disabled_users, supports_user_toggle}
use proxystack_go.XrayConfig.{
  ApiOutput, PolicyLevel, PolicySystem, PolicyOutput, InboundOutput, Outbound, RoutingConfig,
  Config,
}
use proxystack_go.XrayConfig.Inbounds.{render_inbound}
use proxystack_go.XrayConfig.Outbounds.{render_outbounds}

unfoldable pub render_api : XrayApiConfig → ApiOutput
render_api api = record { tag = api.tag; listen = api.listen; services = api.services }

unfoldable pub bool_or_default : Option Bool → Bool → Bool
bool_or_default none default_value = default_value
bool_or_default (some value) default_value = value

-- The loop over the levels: those with a switch.
unfoldable pub rendered_levels : Map Text XrayPolicyLevelConfig → Map Text PolicyLevel
rendered_levels [] = []
rendered_levels ((level, config) ∷ levels) =
    let rest = rendered_levels levels in
    if is_some config.stats_user_uplink || is_some config.stats_user_downlink
    then (
      level,
      record {
        stats_user_uplink = config.stats_user_uplink;
        stats_user_downlink = config.stats_user_downlink;
      },
    )
      ∷ rest
    else rest

unfoldable pub render_policy_levels : Map Text XrayPolicyLevelConfig → Option (Map Text PolicyLevel)
render_policy_levels levels =
    if is_empty (rendered_levels levels) then none else some (rendered_levels levels)

unfoldable pub render_policy_system : XrayPolicySystemConfig → Bool → PolicySystem
render_policy_system system stats_enabled = record {
  stats_inbound_uplink = bool_or_default system.stats_inbound_uplink stats_enabled;
  stats_inbound_downlink = bool_or_default system.stats_inbound_downlink stats_enabled;
  stats_outbound_uplink = bool_or_default system.stats_outbound_uplink stats_enabled;
  stats_outbound_downlink = bool_or_default system.stats_outbound_downlink stats_enabled;
}

unfoldable pub render_policy : XrayPolicyConfig → Bool → PolicyOutput
render_policy policy stats_enabled = record {
  levels = render_policy_levels policy.levels;
  system = render_policy_system policy.system stats_enabled;
}

unfoldable pub enabled_xray_stack : StackSet → Text → Answer Stack
enabled_xray_stack set stack_name = elim (by_name set.stacks stack_name) [
  | none ↦ error (codes "stack does not exist: " ++ stack_name)
  | some stack ↦
      if not stack.enabled
      then error (codes "stack is disabled: " ++ stack_name)
      else if not stack.xray.enabled
      then error (codes "xray is disabled: " ++ stack_name)
      else ok stack
]

-- One round of the loop over the inbounds.
unfoldable pub render_enabled_inbound : DisabledUserSet → Text → Inbound → Answer InboundOutput
render_enabled_inbound disabled stack_name inbound =
    apply_disabled_users inbound disabled stack_name >>= λ filtered. render_inbound filtered

unfoldable pub rendered_config :
    StackSet → Stack → List InboundOutput → List Outbound → Option RoutingConfig → Config
rendered_config set stack inbounds outbounds routing =
    let defaults = set.config.default_xray in
    let api = resolve_xray_api_config defaults stack.xray in
    let stats = resolve_xray_stats_config defaults stack.xray in
    let policy = resolve_xray_policy_config defaults stack.xray in
    record {
      log = record { loglevel = resolve_xray_log_level defaults stack.xray };
      api = if api.enabled then some (render_api api) else none;
      stats = stats.enabled;
      policy =
          if policy.enabled || stats.enabled
          then some (render_policy policy stats.enabled)
          else none;
      routing = routing;
      inbounds = inbounds;
      outbounds = outbounds;
    }

-- RenderConfig behind the graph.
unfoldable pub render_with_graph : StackSet → Stack → ReferenceGraph → Answer Config
render_with_graph set stack graph =
    traverse (render_enabled_inbound set.disabled_users stack.name) stack.xray.inbounds
    >>= λ inbounds. render_outbounds stack.xray.outbound graph stack.name >>= λ outbounds.
        ok (rendered_config set stack inbounds outbounds.0 outbounds.1)

-- The text of a ReferenceGraphError: a line for each issue.
unfoldable pub issue_lines : List Issue → Text
issue_lines [] = []
issue_lines (issue ∷ []) = issue.path ++ codes ": " ++ issue.message
issue_lines (issue ∷ next ∷ issues) =
    issue.path ++ codes ": " ++ issue.message ++ 10 ∷ issue_lines (next ∷ issues)

unfoldable pub graph_answer : BuildResult → Answer ReferenceGraph
graph_answer (built graph) = ok graph
graph_answer (rejected issues) = error (issue_lines issues)

-- RenderConfig behind the choice of the stack.
unfoldable pub render_stack : StackSet → Stack → Option (Answer Config)
render_stack set stack = elim (build_reference_graph set) [
  | none ↦ none
  | some result ↦ some (graph_answer result >>= λ graph. render_with_graph set stack graph)
]

unfoldable pub render_chosen : StackSet → Answer Stack → Option (Answer Config)
render_chosen set (error e) = some (error e)
render_chosen set (ok stack) = render_stack set stack

unfoldable pub render_resolved : Text → Answer StackSet → Option (Answer Config)
render_resolved stack_name (error e) = some (error e)
render_resolved stack_name (ok set) = render_chosen set (enabled_xray_stack set stack_name)

unfoldable pub render_config :
    (Text → Text) → (Text → Option Text) → StackSet → Text → Option (Answer Config)
render_config to_lower decode set stack_name =
    render_resolved stack_name (resolve_stack_set_user_refs to_lower decode set)

-- The structure that DumpsInboundUserPatch encodes.
unfoldable pub inbound_user_patch : Inbound → InboundUser → Answer (List InboundOutput)
inbound_user_patch inbound user =
    if not (supports_user_toggle inbound.protocol)
    then error (codes "inbound protocol does not support user toggle: " ++ inbound.protocol)
    else render_inbound (record inbound { users = user ∷ [] }) >>= λ rendered. ok (rendered ∷ [])
