-- ===== src/SubServer/Settings.antt =====
-- internal/config/transport.go: the configuration of the subscription server. `parse_url` is
-- net/url.Parse.
use proxystack_go.Prelude.{
  ℕ, ◌*◌, ◌^◌, ℤ, pos, is_zero, is_above_zero, nat_eq, Text, Text_eq, codes, is_empty,
  if◌then◌else◌, Bool, true, false, not, ◌&&◌, ◌||◌, ◌==◌, List, ◌++◌, Option, none, some, Answer,
  ok, error,
}
use proxystack_go.Config.Values.{◌then◌, refuse_if}
use proxystack_go.Config.Listen.{Net, parse_listen, is_loopback_host}
use proxystack_go.Config.Inbounds.{has_field}

-- A float64. `units n` is n times the least positive one, 2^-1074, of which every finite one is a
-- multiple.
pub data Float : Type 0 where
  not_a_number : Float
  below_zero : Float
  units : ℕ → Float
  infinite : Float

pub record LogConfig : Type 0 where
  pub format : Text

pub record AccessConfig : Type 0 where
  pub type : Text
  pub token : Text

pub record ManagedConfig : Type 0 where
  pub enabled : Option Bool
  pub public_base_url : Text
  pub interval : ℤ
  pub strict : Option Bool
  pub fields : Option (List Text)

pub record SubServerConfig : Type 0 where
  pub data_dir : Text
  pub listen : Text
  pub log : LogConfig
  pub access : AccessConfig
  pub templates_dir : Text
  pub watch_interval : Float
  pub watch_debounce : Float
  pub managed_config : ManagedConfig
  pub fields : Option (List Text)

-- What the checks read of a parsed URL.
pub record Url : Type 0 where
  pub scheme : Text
  pub host : Text
  pub has_user : Bool
  pub raw_query : Text
  pub fragment : Text

unfoldable pub default_log : LogConfig → LogConfig
default_log l = record l { format = if is_empty l.format then codes "json" else l.format }

unfoldable pub validate_log : LogConfig → Option Text
validate_log l =
    refuse_if (not (l.format == codes "json" || l.format == codes "console"))
      (codes "log.format must be json or console")

unfoldable pub validate_access_config : AccessConfig → Option Text
validate_access_config a =
    if a.type == codes "none"
    then none
    else if a.type == codes "token"
    then refuse_if (is_empty a.token) (codes "access.token is required when access.type is token")
    else some (codes "access.type must be none or token")

unfoldable pub default_managed : ManagedConfig → ManagedConfig
default_managed m = record m {
  interval =
      if not (has_field m.fields (codes "interval")) && is_zero m.interval
      then pos 86400
      else m.interval;
}

unfoldable pub is_set : Option Bool → Bool
is_set none = false
is_set (some b) = b

unfoldable pub enabled_value : ManagedConfig → Bool
enabled_value m = is_set m.enabled

unfoldable pub strict_value : ManagedConfig → Bool
strict_value m = is_set m.strict

unfoldable pub check_url : Url → Option Text
check_url url =
    refuse_if (not (url.scheme == codes "http") && not (url.scheme == codes "https"))
      (codes "managed_config.public_base_url must use http or https")
    then refuse_if (is_empty url.host) (codes "managed_config.public_base_url host is required")
    then refuse_if url.has_user (codes "managed_config.public_base_url must not include userinfo")
    then refuse_if (not (is_empty url.raw_query) || not (is_empty url.fragment))
        (codes "managed_config.public_base_url must not include query or fragment")

unfoldable pub validate_managed : (Text → Answer Url) → ManagedConfig → Option Text
validate_managed parse_url m =
    refuse_if (not (is_above_zero m.interval))
      (codes "managed_config.interval must be greater than 0")
    then (if is_empty m.public_base_url then none else (elim (parse_url m.public_base_url) [
      | error e ↦ some (codes "managed_config.public_base_url is invalid: " ++ e)
      | ok url ↦ check_url url
    ]))

unfoldable pub or_true : Option Bool → Option Bool
or_true none = some true
or_true (some b) = some b

-- 2.0 and 0.3
unfoldable pub two_seconds : Float
two_seconds = units (2 ^ 1075)

unfoldable pub three_tenths : Float
three_tenths = units (5404319552844595 * 2 ^ 1020)

unfoldable pub equals_zero : Float → Bool
equals_zero (units n) = nat_eq n 0
equals_zero _ = false

-- An interval that is neither set nor different from 0 gets its default.
unfoldable pub default_interval : Bool → Float → Float → Float
default_interval present value default_value =
    if not present && equals_zero value then default_value else value

unfoldable pub apply_defaults : SubServerConfig → SubServerConfig
apply_defaults s = record s {
  listen = if is_empty s.listen then codes "127.0.0.1:3003" else s.listen;
  access = record (s.access) {
    type = if is_empty s.access.type then codes "none" else s.access.type;
  };
  log = default_log s.log;
  watch_interval =
      default_interval (has_field s.fields (codes "watch_interval")) s.watch_interval two_seconds;
  watch_debounce =
      default_interval (has_field s.fields (codes "watch_debounce")) s.watch_debounce three_tenths;
  managed_config = record (default_managed s.managed_config) {
    enabled = or_true s.managed_config.enabled;
    strict = or_true s.managed_config.strict;
  };
}

-- `value < 0` and `value <= 0`, which no NaN satisfies.
unfoldable pub is_negative : Float → Bool
is_negative below_zero = true
is_negative _ = false

unfoldable pub is_at_most_zero : Float → Bool
is_at_most_zero value = is_negative value || equals_zero value

-- Validate behind the listen address.
unfoldable pub validate_settings : (Text → Answer Url) → Net → Text → SubServerConfig → Option Text
validate_settings parse_url net host s =
    refuse_if (is_at_most_zero s.watch_interval) (codes "watch_interval must be greater than 0")
    then refuse_if (is_negative s.watch_debounce)
        (codes "watch_debounce must be greater than or equal to 0")
    then validate_access_config s.access
    then refuse_if (s.access.type == codes "none" && not (is_loopback_host net host))
        (codes "access.type none is only allowed when listen host is loopback or localhost")
    then validate_log s.log
    then validate_managed parse_url s.managed_config

unfoldable pub validate_sub_server : (Text → Answer Url) → Net → SubServerConfig → Option Text
validate_sub_server parse_url net s = elim (parse_listen net s.listen) [
  | error e ↦ some e
  | ok address ↦ validate_settings parse_url net address.0 s
]
