-- ===== src/Config/Merge.antt =====
-- internal/domain/models.go: how the settings of a stack override the defaults of config.yaml.
use proxystack_go.Prelude.{
  ◌==◌, Text, Text_eq, codes, is_empty, if◌then◌else◌, Bool, not, contains, lookup, put, List, [],
  ◌∷◌, none, some, Map,
}
use proxystack_go.Domain.{
  XrayApiConfig, XrayStatsConfig, XrayPolicyConfig, XrayPolicyLevelConfig, XrayPolicySystemConfig,
  XrayConfig, ClashConfig, DefaultXrayConfig, DefaultClashConfig,
}

abbrev pub default_xray_log_level : Text
default_xray_log_level = codes "warning"

abbrev pub default_clash_log_level : Text
default_clash_log_level = codes "info"

unfoldable pub resolve_xray_log_level : DefaultXrayConfig → XrayConfig → Text
resolve_xray_log_level defaults xray =
    if not (is_empty xray.loglevel)
    then xray.loglevel
    else if not (is_empty defaults.loglevel)
    then defaults.loglevel
    else default_xray_log_level

unfoldable pub resolve_clash_log_level : DefaultClashConfig → ClashConfig → Text
resolve_clash_log_level defaults clash =
    if not (is_empty clash.loglevel)
    then clash.loglevel
    else if not (is_empty defaults.loglevel)
    then defaults.loglevel
    else default_clash_log_level

unfoldable pub has_service : XrayApiConfig → Text → Bool
has_service api name = contains api.services name

-- `merged.Enabled = override.Enabled` where the key is present.
unfoldable pub resolve_xray_stats_config : DefaultXrayConfig → XrayConfig → XrayStatsConfig
resolve_xray_stats_config defaults xray = elim xray.stats [
  | none ↦ defaults.stats
  | some override ↦ (elim override.fields [
    | none ↦ override
    | some fields ↦ record (defaults.stats) {
      enabled =
          if contains fields (codes "enabled") then override.enabled else defaults.stats.enabled;
    }
  ])
]

unfoldable pub merge_level :
    List Text → XrayPolicyLevelConfig → XrayPolicyLevelConfig → XrayPolicyLevelConfig
merge_level fields override current = record current {
  stats_user_uplink =
      if contains fields (codes "statsUserUplink")
      then override.stats_user_uplink
      else current.stats_user_uplink;
  stats_user_downlink =
      if contains fields (codes "statsUserDownlink")
      then override.stats_user_downlink
      else current.stats_user_downlink;
}

-- What a missing key of a map of levels reads as.
unfoldable pub no_level : XrayPolicyLevelConfig
no_level = record { stats_user_uplink = none; stats_user_downlink = none; fields = none }

unfoldable pub level_of : Map Text XrayPolicyLevelConfig → Text → XrayPolicyLevelConfig
level_of levels level = elim (lookup levels level) [ none ↦ no_level | some config ↦ config ]

unfoldable pub overridden : XrayPolicyLevelConfig → XrayPolicyLevelConfig → XrayPolicyLevelConfig
overridden override current = elim override.fields [
  | none ↦ override
  | some fields ↦ merge_level fields override current
]

-- The loop over the overrides.
unfoldable pub override_levels :
    Map Text XrayPolicyLevelConfig → Map Text XrayPolicyLevelConfig → Map Text XrayPolicyLevelConfig
override_levels merged [] = merged
override_levels merged ((level, override) ∷ overrides) =
    override_levels (put level (overridden override (level_of merged level)) merged) overrides

-- The copy that the first loop makes is the map itself.
unfoldable pub merge_policy_levels :
    Map Text XrayPolicyLevelConfig → Map Text XrayPolicyLevelConfig → Map Text XrayPolicyLevelConfig
merge_policy_levels defaults overrides = override_levels defaults overrides

unfoldable pub merge_system :
    List Text → XrayPolicySystemConfig → XrayPolicySystemConfig → XrayPolicySystemConfig
merge_system fields defaults override = record defaults {
  stats_inbound_uplink =
      if contains fields (codes "statsInboundUplink")
      then override.stats_inbound_uplink
      else defaults.stats_inbound_uplink;
  stats_inbound_downlink =
      if contains fields (codes "statsInboundDownlink")
      then override.stats_inbound_downlink
      else defaults.stats_inbound_downlink;
  stats_outbound_uplink =
      if contains fields (codes "statsOutboundUplink")
      then override.stats_outbound_uplink
      else defaults.stats_outbound_uplink;
  stats_outbound_downlink =
      if contains fields (codes "statsOutboundDownlink")
      then override.stats_outbound_downlink
      else defaults.stats_outbound_downlink;
}

unfoldable pub merge_policy_system :
    XrayPolicySystemConfig → XrayPolicySystemConfig → XrayPolicySystemConfig
merge_policy_system defaults override = elim override.fields [
  | none ↦ override
  | some fields ↦ merge_system fields defaults override
]

unfoldable pub merge_policy : List Text → XrayPolicyConfig → XrayPolicyConfig → XrayPolicyConfig
merge_policy fields defaults override = record defaults {
  enabled = if contains fields (codes "enabled") then override.enabled else defaults.enabled;
  levels =
      if contains fields (codes "levels")
      then merge_policy_levels defaults.levels override.levels
      else defaults.levels;
  system =
      if contains fields (codes "system")
      then merge_policy_system defaults.system override.system
      else defaults.system;
}

unfoldable pub resolve_xray_policy_config : DefaultXrayConfig → XrayConfig → XrayPolicyConfig
resolve_xray_policy_config defaults xray = elim xray.policy [
  | none ↦ defaults.policy
  | some override ↦ (elim override.fields [
    | none ↦ override
    | some fields ↦ merge_policy fields defaults.policy override
  ])
]

unfoldable pub normalize_internal_endpoint_address : Text → Text
normalize_internal_endpoint_address address =
    if address == codes "0.0.0.0"
    then codes "127.0.0.1"
    else if address == codes "::"
    then codes "::1"
    else address
