-- ===== src/Config/Clash.antt =====
-- internal/domain/models.go: Validate of a Clash configuration and of a stack. What Validate fills in
-- place is part of the result. `trim` is strings.TrimSpace.
pub mod Accepted
use proxystack_go.Prelude.{
  is_zero, nat_eq, ltb, length, Text, Text_eq, codes, is_empty, if◌then◌else◌, Bool, not, ◌&&◌,
  ◌||◌, ◌==◌, contains, lookup, map, List, [], ◌∷◌, ◌++◌, Option, none, some, Map, Answer, ok,
  error, ◌>>=◌, ◌>>◌, keep, traverse,
}
use proxystack_go.Prelude.Paths.{split_on}
use proxystack_go.Domain.{
  ClashController, ClashListenerUser, ClashListener, ClashListeners, AnyValue, text, number, other,
  ClashUpstream, ClashGroup, ClashRules, ClashConfig, Stack,
}
use proxystack_go.Config.Values.{
  ◌then◌, refuse_if, validate_identifier, validate_port, validate_ref, ensure_unique, matches_uuid,
}
use proxystack_go.Config.Listen.{Net, parse_listen}
use proxystack_go.Config.Inbounds.{has_field, validate_xray}

unfoldable pub valid_clash_log_level : Text → Bool
valid_clash_log_level level =
    contains (codes "debug" ∷ codes "info" ∷ codes "warning" ∷ codes "error" ∷ codes "silent" ∷ [])
      level

unfoldable pub valid_clash_mode : Text → Bool
valid_clash_mode mode = contains (codes "Rule" ∷ codes "Global" ∷ codes "Direct" ∷ []) mode

unfoldable pub valid_group_type : Text → Bool
valid_group_type type =
    contains (codes "select" ∷ codes "url-test" ∷ codes "load-balance" ∷ codes "fallback" ∷ []) type

abbrev pub default_rule_profile : Text
default_rule_profile = codes "default"

abbrev pub default_clash_final : Text
default_clash_final = codes "AllProxy"

abbrev pub default_stack_role : Text
default_stack_role = codes "edge"

unfoldable pub validate_controller : Net → ClashController → Option Text
validate_controller net c = elim (parse_listen net c.listen) [
  | error e ↦ some e
  | ok address ↦ refuse_if (is_empty c.secret) (codes "controller secret is required")
]

unfoldable pub validate_listener_user : ClashListenerUser → Option Text
validate_listener_user u =
    validate_identifier u.username (codes "listener username")
    then refuse_if (is_empty u.password) (codes "listener password is required")

-- The first error of a loop over checked elements.
unfoldable pub first_error {ℓ} : {A : Type ℓ} → (A → Option Text) → List A → Option Text
first_error check [] = none
first_error check (x ∷ xs) = check x then first_error check xs

unfoldable pub validate_listener : ClashListener → Option Text
validate_listener l =
    validate_identifier l.name (codes "listener name")
    then validate_port l.port (codes "listener port")
    then first_error validate_listener_user l.users

unfoldable pub validate_listeners : ClashListeners → Option Text
validate_listeners c =
    refuse_if (has_field c.fields (codes "mixed")) (codes "listeners.mixed is not supported in P0")
    then refuse_if (ltb 1 (length c.socks)) (codes "only one socks listener is supported in P0")
    then refuse_if (ltb 1 (length c.http)) (codes "only one http listener is supported in P0")
    then first_error validate_listener c.socks
    then first_error validate_listener c.http
    then ensure_unique (map (λ l. l.name) c.socks) (codes "duplicate socks listener name")
    then ensure_unique (map (λ l. l.name) c.http) (codes "duplicate http listener name")

-- `value, _ := config[key].(string)`
unfoldable pub text_field : Map Text AnyValue → Text → Text
text_field config key = elim (lookup config key) [
  | none ↦ []
  | some value ↦ (elim value [ text t ↦ t | number n ↦ [] | other ↦ [] ])
]

-- `port, ok := config["port"].(int)` and ValidatePort
unfoldable pub validate_raw_port : Option AnyValue → Option Text
validate_raw_port none = some (codes "raw upstream config.port must be between 1 and 65535")
validate_raw_port (some (text t)) =
    some (codes "raw upstream config.port must be between 1 and 65535")
validate_raw_port (some (number n)) = validate_port n (codes "raw upstream config.port")
validate_raw_port (some other) = some (codes "raw upstream config.port must be between 1 and 65535")

unfoldable pub validate_raw_proxy_config : Map Text AnyValue → Option Text
validate_raw_proxy_config config =
    refuse_if (is_empty config) (codes "raw upstream config is required")
    then refuse_if (is_empty (text_field config (codes "type")))
        (codes "raw upstream config.type is required")
    then refuse_if (is_empty (text_field config (codes "server")))
        (codes "raw upstream config.server is required")
    then validate_raw_port (lookup config (codes "port"))
    then (if text_field config (codes "type") == codes "vmess"
        then (refuse_if (is_empty (text_field config (codes "uuid")))
              (codes "raw vmess upstream uuid is required")
            then refuse_if (not (matches_uuid (text_field config (codes "uuid"))))
                (codes "uuid must be a valid UUID")
            then refuse_if (is_empty (text_field config (codes "network")))
                (codes "raw vmess upstream network is required"))
        else if text_field config (codes "type") == codes "shadowsocks"
        then (refuse_if (is_empty (text_field config (codes "cipher")))
              (codes "raw shadowsocks upstream cipher is required")
            then refuse_if (is_empty (text_field config (codes "password")))
                (codes "raw shadowsocks upstream password is required"))
        else none)

unfoldable pub validate_upstream : ClashUpstream → Option Text
validate_upstream u =
    validate_identifier u.name (codes "upstream name")
    then (if u.type == codes "xray-socks5"
        then validate_ref u.ref 2 (codes "xray-socks5 ref is required")
        else if u.type == codes "raw"
        then validate_raw_proxy_config u.config
        else some (codes "unsupported upstream type: " ++ u.type))

unfoldable pub needs_health_check : Text → Bool
needs_health_check type =
    type == codes "url-test" || type == codes "load-balance" || type == codes "fallback"

unfoldable pub with_strategy : ClashGroup → ClashGroup
with_strategy g = record g {
  strategy =
      if g.type == codes "load-balance" && is_empty g.strategy
      then codes "consistent-hashing"
      else g.strategy;
}

-- The group with its strategy filled in.
unfoldable pub validate_group : ClashGroup → Answer ClashGroup
validate_group g =
    (validate_identifier g.name (codes "group name")
      then refuse_if (not (valid_group_type g.type)) (codes "unsupported group type: " ++ g.type)
      then refuse_if (is_empty g.proxies) (codes "group proxies is required")
      then refuse_if (needs_health_check g.type && (is_empty g.url || is_zero g.interval))
          (codes "url and interval are required for url-test/load-balance/fallback group"))
    >> ok (with_strategy g)

-- The parts of a rule between commas that are not blank.
unfoldable pub rule_parts : (Text → Text) → Text → List Text
rule_parts trim rule = keep (λ part. not (is_empty part)) (map trim (split_on b',' rule))

-- The last part, or the one before it if the last of four or more is "no-resolve".
unfoldable pub target_of_parts : List Text → Option Text
target_of_parts [] = none
target_of_parts (last ∷ []) = none
target_of_parts (last ∷ before ∷ []) = none
target_of_parts (last ∷ before ∷ third ∷ parts) =
    some (if last == codes "no-resolve" && not (is_empty parts) then before else last)

unfoldable pub reversed {ℓ} : {A : Type ℓ} → List A → List A → List A
reversed [] done = done
reversed (x ∷ xs) done = reversed xs (x ∷ done)

unfoldable pub extract_rule_target : (Text → Text) → Text → Answer Text
extract_rule_target trim rule = elim (target_of_parts (reversed (rule_parts trim rule) [])) [
  | none ↦ error (codes "rules.extra entry is invalid: " ++ rule)
  | some target ↦ ok target
]

unfoldable pub validate_rule_target : Text → List Text → Text → Option Text
validate_rule_target target known message =
    refuse_if (not (contains known target)) (message ++ codes ": " ++ target)

unfoldable pub check_group_targets : List Text → ClashGroup → Option Text
check_group_targets known group =
    first_error
      (λ target. validate_rule_target target known (codes "group proxy target does not exist"))
      group.proxies

unfoldable pub check_extra_rule : (Text → Text) → List Text → Text → Option Text
check_extra_rule trim known rule = elim (extract_rule_target trim rule) [
  | error e ↦ some e
  | ok target ↦ validate_rule_target target known (codes "rules.extra target does not exist")
]

unfoldable pub default_rules : ClashRules → ClashRules
default_rules r = record r {
  profile = if is_empty r.profile then default_rule_profile else r.profile;
  final = if is_empty r.final then default_clash_final else r.final;
}

-- The keys of `knownTargets`.
unfoldable pub known_targets : List ClashUpstream → List ClashGroup → List Text
known_targets upstreams groups =
    (codes "DIRECT" ∷ codes "REJECT" ∷ [])
    ++ (map (λ u. u.name) upstreams ++ map (λ g. g.name) groups)

-- Validate behind the loop over the groups, which stand here with their strategies.
unfoldable pub validate_targets : (Text → Text) → ClashConfig → Option Text
validate_targets trim c =
    let known = known_targets c.upstreams c.groups in
    ensure_unique (map (λ u. u.name) c.upstreams) (codes "duplicate upstream name")
    then ensure_unique (map (λ g. g.name) c.groups) (codes "duplicate group name")
    then refuse_if (not (c.rules.profile == default_rule_profile))
        (codes "rules.profile only supports default")
    then first_error (check_group_targets known) c.groups
    then validate_rule_target c.rules.final known (codes "rules.final target does not exist")
    then first_error (check_extra_rule trim known) c.rules.extra

-- Validate before the loop over the groups.
unfoldable pub validate_clash_parts : Net → ClashConfig → Option Text
validate_clash_parts net c =
    refuse_if (not (valid_clash_mode c.mode)) (codes "clash mode is invalid: " ++ c.mode)
    then refuse_if (not (is_empty c.loglevel) && not (valid_clash_log_level c.loglevel))
        (codes "clash loglevel is invalid: " ++ c.loglevel)
    then validate_controller net c.controller
    then validate_listeners c.listeners
    then first_error validate_upstream c.upstreams

unfoldable pub checked_clash : (Text → Text) → ClashConfig → Answer ClashConfig
checked_clash trim c = validate_targets trim c >> ok c

unfoldable pub validate_clash : (Text → Text) → Net → ClashConfig → Answer ClashConfig
validate_clash trim net c =
    validate_clash_parts net c
    >> (traverse validate_group c.groups >>= λ groups.
        checked_clash trim (record c { groups = groups; rules = default_rules c.rules }))

unfoldable pub role_of : Stack → Text
role_of s = if is_empty s.role then default_stack_role else s.role

unfoldable pub validate_stack :
    (Text → Text) → (Text → Text) → (Text → Option Text) → Net → Stack → Answer Stack
validate_stack trim to_lower decode net s =
    (validate_identifier s.name (codes "stack name")
      then refuse_if (not (role_of s == codes "edge") && not (role_of s == codes "auto"))
          (codes "stack role must be edge or auto")
      then first_error (λ label. validate_identifier label (codes "label")) s.labels
      then validate_xray to_lower decode net s.xray)
    >> (validate_clash trim net s.clash >>= λ clash.
        ok (record s { role = role_of s; clash = clash }))
