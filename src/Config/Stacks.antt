-- ===== src/Config/Stacks.antt =====
-- internal/domain/validation/validation.go: the checks across stacks. An option of ValidateStackSet is
-- the port checker, `none` for nil.
pub mod Unique
pub mod Accepted
pub mod PublicAuth
use proxystack_go.Prelude.{
  ℕ, ℕ_eq, ◌+◌, Text, Text_eq, codes, decimal, is_empty, if◌then◌else◌, Bool, not, ◌&&◌, ◌||◌, ◌==◌,
  contains, add, lookup, put, List, [], ◌∷◌, ◌++◌, Option, none, some, Map, ok, error,
}
use proxystack_go.Domain.{Inbound, ClashListener, Stack, GlobalConfig, StackSet}
use proxystack_go.Graph.Compile.{Issue, compile_reference_graph}
use proxystack_go.Config.Listen.{Net, parse_listen, is_loopback_host, resolve_xray_api_config}
use proxystack_go.Config.Inbounds.{has_password_auth}
use proxystack_go.Config.Resolve.{inbound_path}
use proxystack_go.Config.Names.{Templates, validate_subscription_proxy_names}

-- The loop of ValidateUniqueStackNames, with `seen`.
unfoldable pub repeated_names : Map Text Text → List Stack → List Issue
repeated_names seen [] = []
repeated_names seen (stack ∷ stacks) =
    let path = if is_empty stack.source_path then stack.name else stack.source_path in
    let rest = repeated_names seen stacks in
    let next = repeated_names (put stack.name path seen) stacks in
    elim (lookup seen stack.name) [
      | some first_path ↦
          record {
            path = codes "stacks." ++ stack.name ++ codes ".name";
            message = codes "duplicate stack name, first seen in " ++ first_path;
          }
          ∷ rest
      | none ↦ next
    ]

unfoldable pub validate_unique_stack_names : List Stack → List Issue
validate_unique_stack_names stacks = repeated_names [] stacks

-- The conditions of ValidatePublicInboundAuth.
unfoldable pub lacks_auth : Net → Inbound → Bool
lacks_auth net inbound =
    (inbound.protocol == codes "socks5" || inbound.protocol == codes "http")
    && not (is_loopback_host net inbound.listen)
    && not (has_password_auth inbound)

unfoldable pub inbounds_without_auth : Net → Text → ℕ → List Inbound → List Issue
inbounds_without_auth net stack index [] = []
inbounds_without_auth net stack index (inbound ∷ inbounds) =
    let rest = inbounds_without_auth net stack (index + 1) inbounds in
    if lacks_auth net inbound
    then record {
      path = inbound_path stack index ++ codes ".auth";
      message = codes "public socks/http inbound requires password auth";
    }
      ∷ rest
    else rest

unfoldable pub stacks_without_auth : Net → List Stack → List Issue
stacks_without_auth net [] = []
stacks_without_auth net (stack ∷ stacks) =
    let rest = stacks_without_auth net stacks in
    if not stack.enabled || not stack.xray.enabled
    then rest
    else inbounds_without_auth net stack.name 0 stack.xray.inbounds ++ rest

unfoldable pub validate_public_inbound_auth : Net → GlobalConfig → List Stack → List Issue
validate_public_inbound_auth net config stacks =
    if not config.security.require_auth_for_public_socks_http || config.security.allow_noauth_public
    then []
    else stacks_without_auth net stacks

pub record PortBinding : Type 0 where
  pub host : Text
  pub port : ℕ
  pub path : Text

unfoldable pub inbound_bindings : Text → ℕ → List Inbound → List PortBinding
inbound_bindings stack index [] = []
inbound_bindings stack index (inbound ∷ inbounds) =
    record {
      host = inbound.listen;
      port = inbound.port;
      path = inbound_path stack index ++ codes ".port";
    }
    ∷ inbound_bindings stack (index + 1) inbounds

-- The listeners of one kind, `socks` or `http`.
unfoldable pub listener_bindings : Text → Text → ℕ → List ClashListener → List PortBinding
listener_bindings stack kind index [] = []
listener_bindings stack kind index (listener ∷ listeners) =
    record {
      host = listener.listen;
      port = listener.port;
      path =
          codes "stacks."
          ++ stack
          ++ codes ".clash.listeners."
          ++ kind
          ++ codes "["
          ++ decimal index
          ++ codes "].port";
    }
    ∷ listener_bindings stack kind (index + 1) listeners

-- The binding of an address that ParseListen accepts.
unfoldable pub address_bindings : Net → Text → Text → List PortBinding
address_bindings net listen path = elim (parse_listen net listen) [
  | error e ↦ []
  | ok (host, port) ↦ record { host = host; port = port; path = path } ∷ []
]

unfoldable pub xray_bindings : Net → GlobalConfig → Stack → List PortBinding
xray_bindings net config stack =
    if not stack.xray.enabled
    then []
    else (let api = resolve_xray_api_config config.default_xray stack.xray in
        inbound_bindings stack.name 0 stack.xray.inbounds
        ++ (if api.enabled
            then address_bindings net api.listen
                (codes "stacks." ++ stack.name ++ codes ".xray.api.listen")
            else []))

unfoldable pub clash_bindings : Net → Stack → List PortBinding
clash_bindings net stack =
    if not stack.clash.enabled
    then []
    else listener_bindings stack.name (codes "socks") 0 stack.clash.listeners.socks
      ++ listener_bindings stack.name (codes "http") 0 stack.clash.listeners.http
      ++ address_bindings net stack.clash.controller.listen
          (codes "stacks." ++ stack.name ++ codes ".clash.controller.listen")

unfoldable pub stack_bindings : Net → GlobalConfig → List Stack → List PortBinding
stack_bindings net config [] = []
stack_bindings net config (stack ∷ stacks) =
    let rest = stack_bindings net config stacks in
    if not stack.enabled
    then rest
    else (xray_bindings net config stack ++ clash_bindings net stack) ++ rest

unfoldable pub collect_port_bindings : Net → StackSet → List PortBinding
collect_port_bindings net set = stack_bindings net set.config set.stacks

-- The loop of ValidateUniquePorts, with `seen`.
unfoldable pub repeated_ports : Map ℕ PortBinding → List PortBinding → List Issue
repeated_ports seen [] = []
repeated_ports seen (binding ∷ bindings) =
    let rest = repeated_ports seen bindings in
    let next = repeated_ports (put binding.port binding seen) bindings in
    elim (lookup seen binding.port) [
      | some first ↦
          record {
            path = binding.path;
            message =
                codes "duplicate listen port "
                ++ decimal binding.port
                ++ codes ", first seen at "
                ++ first.path;
          }
          ∷ rest
      | none ↦ next
    ]

unfoldable pub validate_unique_ports : List PortBinding → List Issue
validate_unique_ports bindings = repeated_ports [] bindings

-- The loop of ValidateSystemPortsAvailable, with `checked`; `is_available` is the port checker.
unfoldable pub occupied_ports : (Text → ℕ → Bool) → List Text → List PortBinding → List Issue
occupied_ports is_available checked [] = []
occupied_ports is_available checked (binding ∷ bindings) =
    let key = binding.host ++ codes ":" ++ decimal binding.port in
    let seen = occupied_ports is_available checked bindings in
    let rest = occupied_ports is_available (add key checked) bindings in
    if contains checked key
    then seen
    else if is_available binding.host binding.port
    then rest
    else record {
      path = binding.path;
      message = codes "listen port " ++ decimal binding.port ++ codes " is already in use";
    }
      ∷ rest

unfoldable pub validate_system_ports_available : (Text → ℕ → Bool) → List PortBinding → List Issue
validate_system_ports_available is_available bindings = occupied_ports is_available [] bindings

-- ValidateReferenceGraph: the issues that CompileReferenceGraph reports.
unfoldable pub validate_reference_graph : StackSet → Option (List Issue)
validate_reference_graph set = elim (compile_reference_graph set) [
  | none ↦ none
  | some result ↦ some result.issues
]

-- The system's ports are probed only where there is a checker.
unfoldable pub system_port_issues : Option (Text → ℕ → Bool) → List PortBinding → List Issue
system_port_issues none bindings = []
system_port_issues (some is_available) bindings =
    validate_system_ports_available is_available bindings

-- The issues of all checks, in their order, `references` being those of the graph.
unfoldable pub all_issues :
    Net → Templates → Option (Text → ℕ → Bool) → StackSet → List Issue → List Issue
all_issues net templates checker set references =
    validate_unique_stack_names set.stacks
    ++ validate_public_inbound_auth net set.config set.stacks
    ++ validate_subscription_proxy_names templates set.stacks
    ++ validate_unique_ports (collect_port_bindings net set)
    ++ references
    ++ system_port_issues checker (collect_port_bindings net set)

-- ValidateStackSet. No issue is the nil error.
unfoldable pub validate_stack_set :
    Net → Templates → Option (Text → ℕ → Bool) → StackSet → Option (List Issue)
validate_stack_set net templates checker set = elim (validate_reference_graph set) [
  | none ↦ none
  | some references ↦ some (all_issues net templates checker set references)
]
