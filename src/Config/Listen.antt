-- ===== src/Config/Listen.antt =====
-- internal/domain/models.go: ParseListen, IsLoopbackHost, validateAPIConfig and ResolveXrayAPIConfig.
use proxystack_go.Prelude.{
  ℕ, ◌+◌, Text, Text_eq, codes, nat_eq, is_empty, if◌then◌else◌, Bool, not, ◌||◌, ◌==◌, contains,
  List, [], ◌∷◌, Option, none, some, Answer, ok, error,
}
use proxystack_go.Domain.{XrayApiConfig, XrayConfig, DefaultXrayConfig}
use proxystack_go.Config.Values.{◌then◌, refuse_if, validate_identifier, validate_port}

-- What strconv.Atoi makes of a text.
pub data Number : Type 0 where
  not_a_number : Number
  negative : Number
  natural : ℕ → Number

-- net.SplitHostPort, strconv.Atoi, and `ip := net.ParseIP(host); ip != nil && ip.IsLoopback()`.
pub record Net : Type 0 where
  pub split_host_port : Text → Option (Text × Text)
  pub atoi : Text → Number
  pub is_loopback_ip : Text → Bool

-- strings.Count(value, ":"), and strings.SplitN(value, ":", 2) where there is a colon.
unfoldable pub count_colons : Text → ℕ
count_colons [] = 0
count_colons (c ∷ s) = (if nat_eq c b':' then 1 else 0) + count_colons s

unfoldable pub split_colon : Text → Text × Text
split_colon [] = ([], [])
split_colon (c ∷ s) =
    let (host, port) = split_colon s in if nat_eq c b':' then ([], s) else (c ∷ host, port)

unfoldable pub host_and_port : Net → Text → Option (Text × Text)
host_and_port net value = elim (net.split_host_port value) [
  | some parts ↦ some parts
  | none ↦ if nat_eq (count_colons value) 1 then some (split_colon value) else none
]

-- The part of ParseListen behind the test of the host.
unfoldable pub parse_port : Net → Text → Text → Answer (Text × ℕ)
parse_port net host port_text = elim (net.atoi port_text) [
  | not_a_number ↦ error (codes "listen port must be an integer")
  | negative ↦ error (codes "listen port must be between 1 and 65535")
  | natural port ↦ elim (validate_port port (codes "listen port")) [
    | some e ↦ error e
    | none ↦ ok (host, port)
  ]
]

unfoldable pub parse_listen : Net → Text → Answer (Text × ℕ)
parse_listen net value = elim (host_and_port net value) [
  | none ↦ error (codes "listen must use host:port format")
  | some (host, port_text) ↦
      if is_empty host
      then error (codes "listen host is required")
      else parse_port net host port_text
]

unfoldable pub is_loopback_host : Net → Text → Bool
is_loopback_host net host = host == codes "localhost" || net.is_loopback_ip host

-- The loop over the services.
unfoldable pub check_services : List Text → Option Text
check_services [] = none
check_services (service ∷ services) =
    refuse_if (is_empty service) (codes "xray api service name is required")
    then check_services services

unfoldable pub check_api_host : Net → Text → Option Text
check_api_host net listen = elim (parse_listen net listen) [
  | error e ↦ some e
  | ok (host, port) ↦
      refuse_if (not (is_loopback_host net host)) (codes "xray api listen must use loopback host")
]

unfoldable pub validate_api_config : Net → XrayApiConfig → Option Text
validate_api_config net config =
    validate_identifier config.tag (codes "xray api tag")
    then check_api_host net config.listen
    then refuse_if (is_empty config.services) (codes "xray api services is required")
    then check_services config.services

-- The fields that the override sets; the record of explicit keys is that of the defaults.
unfoldable pub merge_api : XrayApiConfig → XrayApiConfig → List Text → XrayApiConfig
merge_api defaults override fields = record {
  enabled = if contains fields (codes "enabled") then override.enabled else defaults.enabled;
  tag = if contains fields (codes "tag") then override.tag else defaults.tag;
  listen = if contains fields (codes "listen") then override.listen else defaults.listen;
  services = if contains fields (codes "services") then override.services else defaults.services;
  fields = defaults.fields;
}

unfoldable pub resolve_xray_api_config : DefaultXrayConfig → XrayConfig → XrayApiConfig
resolve_xray_api_config defaults xray = elim xray.api [
  | none ↦ defaults.api
  | some override ↦ elim override.fields [
    | none ↦ override
    | some fields ↦ merge_api defaults.api override fields
  ]
]
