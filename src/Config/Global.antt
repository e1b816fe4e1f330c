-- ===== src/Config/Global.antt =====
-- internal/domain/models.go: Validate of the global configuration. The functions of path/filepath
-- that depend on the working directory or clean a path are parameters.
use proxystack_go.Prelude.{
  nat_eq, Text, Text_eq, codes, is_empty, if◌then◌else◌, Bool, not, ◌==◌, List, [], ◌∷◌, ◌++◌,
  Option, none, some, Answer, ok, error, ◌>>=◌, ◌>>◌,
}
use proxystack_go.Domain.{
  PortRange, PortRanges, DefaultClashConfig, DefaultXrayConfig, GlobalConfig,
}
use proxystack_go.Config.Values.{◌then◌, refuse_if, valid_xray_log_level}
use proxystack_go.Config.Ports.{validate_range}
use proxystack_go.Config.Listen.{Net, validate_api_config}
use proxystack_go.Config.Users.{normalize_and_validate_user_profiles}
use proxystack_go.Config.Clash.{valid_clash_mode, valid_clash_log_level, default_rule_profile}

-- path/filepath
pub record FilePaths : Type 0 where
  pub is_abs : Text → Bool
  pub abs : Text → Answer Text
  pub clean : Text → Text
  pub join : Text → Text → Text

-- The map that Validate of PortRanges ranges over.
unfoldable pub named_ranges : PortRanges → List (Text × PortRange)
named_ranges p =
    (codes "xray_inbound", p.xray_inbound)
    ∷ (codes "clash_socks", p.clash_socks)
    ∷ (codes "clash_http", p.clash_http)
    ∷ (codes "xray_api_range", p.xray_api_range)
    ∷ (codes "clash_controller", p.clash_controller)
    ∷ []

unfoldable pub first_bad_range : List (Text × PortRange) → Option Text
first_bad_range [] = none
first_bad_range ((name, range) ∷ ranges) = elim (validate_range range) [
  | some e ↦ some (name ++ codes ": " ++ e)
  | none ↦ first_bad_range ranges
]

unfoldable pub validate_port_ranges : PortRanges → Option Text
validate_port_ranges p = first_bad_range (named_ranges p)

unfoldable pub validate_default_clash : DefaultClashConfig → Option Text
validate_default_clash c =
    refuse_if (not (valid_clash_mode c.mode)) (codes "defaults.clash.mode is invalid: " ++ c.mode)
    then refuse_if (not (valid_clash_log_level c.loglevel))
        (codes "defaults.clash.loglevel is invalid: " ++ c.loglevel)
    then refuse_if (not (c.rule_profile == default_rule_profile))
        (codes "defaults.clash.rule_profile only supports default")

unfoldable pub validate_default_xray : Net → DefaultXrayConfig → Option Text
validate_default_xray net c =
    refuse_if (not (valid_xray_log_level c.loglevel))
      (codes "defaults.xray.loglevel is invalid: " ++ c.loglevel)
    then validate_api_config net c.api

abbrev pub default_base_dir : Text
default_base_dir = codes "/opt/proxystack"

module _ (paths : FilePaths) where
  unfoldable pub resolve_path : GlobalConfig → Text → Text
  resolve_path g path =
      if paths.is_abs path then paths.clean path else paths.clean (paths.join g.base_dir path)

  unfoldable pub stacks_dir : GlobalConfig → Text
  stacks_dir g = resolve_path g g.paths.stacks

  -- The base directory, made absolute.
  unfoldable pub resolve_base_dir : Text → Answer Text
  resolve_base_dir base_dir =
      let directory = if is_empty base_dir then default_base_dir else base_dir in
      if paths.is_abs directory then ok directory else (elim (paths.abs directory) [
        | error e ↦ error (codes "base dir could not be resolved: " ++ e)
        | ok absolute ↦ ok absolute
      ])

  unfoldable pub source_of : GlobalConfig → Text
  source_of g = if is_empty g.subscription_source then codes "local" else g.subscription_source

  -- The checks behind the user profiles.
  unfoldable pub validate_global_rest : Net → GlobalConfig → Option Text
  validate_global_rest net g =
      validate_port_ranges g.port_ranges
      then refuse_if
          (paths.clean (resolve_path g g.paths.sub) == paths.clean (resolve_path g g.paths.runtime))
          (codes "paths.sub must not equal paths.runtime")
      then refuse_if
          (paths.clean (resolve_path g g.paths.sub) == paths.clean (resolve_path g g.paths.stacks))
          (codes "paths.sub must not equal paths.stacks")
      then validate_default_clash g.default_clash
      then validate_default_xray net g.default_xray

  unfoldable pub checked_global : Net → GlobalConfig → Answer GlobalConfig
  checked_global net g = validate_global_rest net g >> ok g

  -- The configuration with its base directory, source and profiles filled in.
  unfoldable pub validate_global : Net → GlobalConfig → Answer GlobalConfig
  validate_global net g =
      refuse_if (not (nat_eq g.version 1)) (codes "version must be 1")
      >> (resolve_base_dir g.base_dir >>= λ base_dir.
          refuse_if (not (source_of g == codes "local")) (codes "subscription.source must be local")
          >> (normalize_and_validate_user_profiles g.users >>= λ users.
              checked_global net (record g {
                base_dir = base_dir;
                subscription_source = source_of g;
                users = users;
              })))
