-- ===== src/Examples/Configs.antt =====
-- internal/domain and internal/domain/validation: the theorems on accepted configurations, applied.
use proxystack_go.Prelude.{
  ◌≡◌, refl, Text, Text_eq, ℕ_eq, codes, true, false, not, is_empty, List, [], ◌∷◌, Option, none,
  some, IsNodup, map, ok, arith, ◌↔◌, inl, contains,
}
use proxystack_go.Domain.{PortRange, InboundAuth, Stack}
use proxystack_go.Graph.Compile.{ReferenceGraph, built, build_reference_graph}
use proxystack_go.Config.Values.{ensure_unique, matches_uuid}
use proxystack_go.Config.Users.{email_or_user}
use proxystack_go.Prelude.Sort.{any}
use proxystack_go.Config.Names.{Templates}
use proxystack_go.Config.Ports.{allocate, allocate-free}
use proxystack_go.Config.Listen.{Net, not_a_number}
use proxystack_go.Config.Inbounds.{
  user_names, user_tag, validate_inbound, validate_vmess, validate_xray,
}
use proxystack_go.Config.Credentials.{validate_vmess_lem, validate_xray_lem, validate_inbound_lem}
use proxystack_go.Config.Stacks.{
  PortBinding, collect_port_bindings, validate_unique_ports, validate_unique_stack_names,
  validate_stack_set, validate_public_inbound_auth,
}
use proxystack_go.Config.Stacks.Unique.{
  validate_unique_ports_lem, validate_unique_stack_names_lem, ensure_unique_lem,
}
use proxystack_go.Config.Stacks.Accepted.{validate_stack_set-accepts}
use proxystack_go.Config.Stacks.PublicAuth.{paths_of, OpenPath, validate_public_inbound_auth_lem}
use proxystack_go.Examples.Samples.{
  two_stacks, global, front, back, front_xray, socks_inbound, vmess_inbound, password_auth,
}

-- No address can be split or is a loopback, and no text is base64.
abbrev offline : Net
offline = record {
  split_host_port = λ s. none;
  atoi = λ s. not_a_number;
  is_loopback_ip = λ s. false;
}

abbrev same_text : Text → Text
same_text s = s

abbrev no_base64 : Text → Option Text
no_base64 s = none

-- A template stands for itself.
abbrev plain_text : Templates
plain_text = record { render = λ text data_. ok text; trim = λ s. s }

abbrev pool : PortRange
pool = record { start = 20; end = 25 }

allocate-free_example : allocate pool (21 ∷ []) 2 ≡ ok (20 ∷ 22 ∷ [])
unfolding proxystack_go.Prelude.contains
allocate-free_example = allocate-free pool (21 ∷ []) 2 (omega arith)

abbrev bindings : List PortBinding
bindings = collect_port_bindings offline two_stacks

validate_unique_ports_example :
    (validate_unique_ports (collect_port_bindings offline two_stacks) ≡ [])
    ↔ IsNodup (map (λ b. b.port) (collect_port_bindings offline two_stacks))
validate_unique_ports_example = validate_unique_ports_lem (collect_port_bindings offline two_stacks)

validate_unique_stack_names_example :
    (validate_unique_stack_names (front ∷ back ∷ []) ≡ []) ↔ IsNodup (codes "a" ∷ codes "b" ∷ [])
validate_unique_stack_names_example = validate_unique_stack_names_lem (front ∷ back ∷ [])

ensure_unique_example :
    (ensure_unique (codes "a" ∷ codes "b" ∷ []) (codes "duplicate") ≡ none)
    ↔ IsNodup (codes "a" ∷ codes "b" ∷ [])
ensure_unique_example = ensure_unique_lem (codes "a" ∷ codes "b" ∷ []) (codes "duplicate")

-- The first inbound asks for no password.
abbrev open_stack : Stack
open_stack = record front {
  xray = record front_xray { inbounds = record socks_inbound { auth = none } ∷ vmess_inbound ∷ [] };
}

validate_public_inbound_auth_example :
    (contains
        (paths_of (validate_public_inbound_auth offline global (open_stack ∷ [])))
        (codes "stacks.a.xray.inbounds[0].auth")
      ≡ true)
    ↔ ((global.security.require_auth_for_public_socks_http ≡ true)
        × (global.security.allow_noauth_public ≡ false)
        × OpenPath offline (open_stack ∷ []) (codes "stacks.a.xray.inbounds[0].auth"))
validate_public_inbound_auth_example =
    validate_public_inbound_auth_lem offline global (open_stack ∷ [])
      (codes "stacks.a.xray.inbounds[0].auth")

validate_stack_set-accepts_example :
    IsNodup (codes "a" ∷ codes "b" ∷ [])
    × IsNodup (map (λ b. b.port) (collect_port_bindings offline two_stacks))
    × ((g : ReferenceGraph) × (build_reference_graph two_stacks ≡ some (built g)))
unfolding proxystack_go.Prelude.contains proxystack_go.Prelude.add proxystack_go.Prelude.lookup
    proxystack_go.Prelude.put proxystack_go.Prelude.text_eq proxystack_go.Prelude.text_lt
    proxystack_go.Prelude.strip_prefix proxystack_go.Prelude.has_prefix
    proxystack_go.Prelude.has_infix proxystack_go.Prelude.decimal
    proxystack_go.Prelude.Sort.insert_by proxystack_go.Prelude.Sort.sort_by
    proxystack_go.Graph.Nodes.service_name proxystack_go.Graph.Nodes.label
    proxystack_go.Graph.Nodes.node_less proxystack_go.Graph.Nodes.sorted_nodes_from_set
    proxystack_go.Graph.Nodes.dependencies_of proxystack_go.Graph.References.onto_first
    proxystack_go.Graph.References.split_dots proxystack_go.Graph.References.has_empty
    proxystack_go.Graph.References.split_ref proxystack_go.Graph.References.part
    proxystack_go.Graph.References.parse_xray_inbound_ref
    proxystack_go.Graph.References.parse_component_ref proxystack_go.Graph.References.endpoint_users
    proxystack_go.Graph.References.inbound_endpoint proxystack_go.Graph.References.index_inbounds
    proxystack_go.Graph.References.index_xray_inbounds
    proxystack_go.Graph.References.listener_endpoint proxystack_go.Graph.References.index_listeners
    proxystack_go.Graph.References.index_clash_listeners proxystack_go.Graph.References.put_all
    proxystack_go.Graph.References.add_stack_endpoints proxystack_go.Graph.References.add_endpoints
    proxystack_go.Graph.References.new_reference_index
    proxystack_go.Graph.References.resolve_xray_inbound
    proxystack_go.Graph.References.resolve_clash_listener proxystack_go.Graph.Cycle.path_from
    proxystack_go.Graph.Cycle.drop_last proxystack_go.Graph.Cycle.and_then
    proxystack_go.Graph.Cycle.enter proxystack_go.Graph.Cycle.leave
    proxystack_go.Graph.Cycle.visit_dependency proxystack_go.Graph.Cycle.visit_dependencies
    proxystack_go.Graph.Cycle.visit_for_cycle proxystack_go.Graph.Cycle.visit_root
    proxystack_go.Graph.Cycle.visit_roots proxystack_go.Graph.Cycle.find_cycle
    proxystack_go.Graph.Compile.add_stack_nodes proxystack_go.Graph.Compile.collect_nodes
    proxystack_go.Graph.Compile.collect_service_nodes
    proxystack_go.Graph.Compile.ensure_dependency_node proxystack_go.Graph.Compile.add_dependency
    proxystack_go.Graph.Compile.report proxystack_go.Graph.Compile.connect
    proxystack_go.Graph.Compile.outbound_path proxystack_go.Graph.Compile.connect_outbound
    proxystack_go.Graph.Compile.add_xray_dependencies proxystack_go.Graph.Compile.upstream_path
    proxystack_go.Graph.Compile.connect_upstream proxystack_go.Graph.Compile.add_upstream
    proxystack_go.Graph.Compile.add_upstreams proxystack_go.Graph.Compile.add_clash_dependencies
    proxystack_go.Graph.Compile.add_dependencies proxystack_go.Graph.Compile.blank_dependencies
    proxystack_go.Graph.Compile.set_of_names proxystack_go.Graph.Compile.sorted_dependencies
    proxystack_go.Graph.Compile.join_arrow proxystack_go.Graph.Compile.format_cycle
    proxystack_go.Graph.Compile.validate_acyclic proxystack_go.Graph.Compile.compiled
    proxystack_go.Graph.Compile.graph_of proxystack_go.Graph.Compile.compile_reference_graph
    proxystack_go.Graph.Compile.build_reference_graph proxystack_go.Config.Listen.count_colons
    proxystack_go.Config.Listen.split_colon proxystack_go.Config.Listen.host_and_port
    proxystack_go.Config.Listen.parse_port proxystack_go.Config.Listen.parse_listen
    proxystack_go.Config.Listen.is_loopback_host proxystack_go.Config.Listen.check_services
    proxystack_go.Config.Listen.check_api_host proxystack_go.Config.Listen.validate_api_config
    proxystack_go.Config.Listen.merge_api proxystack_go.Config.Listen.resolve_xray_api_config
    proxystack_go.Config.Resolve.resolved_fields proxystack_go.Config.Resolve.with_users
    proxystack_go.Config.Resolve.inbound_path proxystack_go.Config.Resolve.resolve_inbound
    proxystack_go.Config.Resolve.resolve_inbounds proxystack_go.Config.Resolve.with_inbounds
    proxystack_go.Config.Resolve.resolve_stack_user_refs proxystack_go.Config.Resolve.resolve_stacks
    proxystack_go.Config.Resolve.resolve_stack_set_user_refs
    proxystack_go.Config.Stacks.repeated_names
    proxystack_go.Config.Stacks.validate_unique_stack_names proxystack_go.Config.Stacks.lacks_auth
    proxystack_go.Config.Stacks.inbounds_without_auth
    proxystack_go.Config.Stacks.stacks_without_auth
    proxystack_go.Config.Stacks.validate_public_inbound_auth
    proxystack_go.Config.Stacks.inbound_bindings proxystack_go.Config.Stacks.listener_bindings
    proxystack_go.Config.Stacks.address_bindings proxystack_go.Config.Stacks.xray_bindings
    proxystack_go.Config.Stacks.clash_bindings proxystack_go.Config.Stacks.stack_bindings
    proxystack_go.Config.Stacks.collect_port_bindings proxystack_go.Config.Stacks.repeated_ports
    proxystack_go.Config.Stacks.validate_unique_ports proxystack_go.Config.Stacks.occupied_ports
    proxystack_go.Config.Stacks.validate_system_ports_available
    proxystack_go.Config.Stacks.validate_reference_graph
    proxystack_go.Config.Stacks.system_port_issues proxystack_go.Config.Stacks.all_issues
    proxystack_go.Config.Stacks.validate_stack_set proxystack_go.Config.Inbounds.validate_auth
    proxystack_go.Config.Inbounds.has_field proxystack_go.Config.Inbounds.tag_or_default
    proxystack_go.Config.Inbounds.udp_configured proxystack_go.Config.Inbounds.uses_user_refs
    proxystack_go.Config.Inbounds.method_or_cipher proxystack_go.Config.Inbounds.user_tag
    proxystack_go.Config.Inbounds.user_names proxystack_go.Config.Inbounds.check_vmess_users
    proxystack_go.Config.Inbounds.validate_vmess proxystack_go.Config.Inbounds.check_user_psks
    proxystack_go.Config.Inbounds.validate_shadowsocks2022_passwords
    proxystack_go.Config.Inbounds.check_shadowsocks_users
    proxystack_go.Config.Inbounds.validate_shadowsocks_users
    proxystack_go.Config.Inbounds.validate_shadowsocks
    proxystack_go.Config.Inbounds.has_password_auth proxystack_go.Config.Inbounds.validate_plain
    proxystack_go.Config.Inbounds.validate_protocol proxystack_go.Config.Inbounds.check_auth
    proxystack_go.Config.Inbounds.check_user_refs proxystack_go.Config.Inbounds.validate_inbound
    proxystack_go.Config.Inbounds.validate_outbound_target
    proxystack_go.Config.Inbounds.validate_outbound proxystack_go.Config.Inbounds.validate_inbounds
    proxystack_go.Config.Inbounds.validate_xray proxystack_go.Config.Names.user_of_ref
    proxystack_go.Config.Names.subscription_inbound_users
    proxystack_go.Config.Names.render_subscription_display_template
    proxystack_go.Config.Names.subscription_remark proxystack_go.Config.Names.collect_name
    proxystack_go.Config.Names.collect_user_names
    proxystack_go.Config.Names.collect_subscription_proxy_names
    proxystack_go.Config.Names.repeated_proxy_names proxystack_go.Config.Names.inbound_proxy_names
    proxystack_go.Config.Names.stack_proxy_names
    proxystack_go.Config.Names.validate_subscription_proxy_names
    proxystack_go.Config.Users.normalize_user_profile proxystack_go.Config.Users.user_profile_key
    proxystack_go.Config.Users.normalized_profile proxystack_go.Config.Users.validate_profile
    proxystack_go.Config.Users.normalize_profiles
    proxystack_go.Config.Users.normalize_and_validate_user_profiles
    proxystack_go.Config.Users.validate_user_ref proxystack_go.Config.Users.ref_key
    proxystack_go.Config.Users.validate_refs proxystack_go.Config.Users.validate_inbound_user_refs
    proxystack_go.Config.Users.email_or_user proxystack_go.Config.Users.profile_or_default
    proxystack_go.Config.Users.first_non_empty proxystack_go.Config.Users.index_profiles
    proxystack_go.Config.Users.user_profile_index proxystack_go.Config.Users.merge_user_ref
    proxystack_go.Config.Users.validate_resolved_inbound_user
    proxystack_go.Config.Users.resolve_refs proxystack_go.Config.Users.resolve_inbound_user_refs
validate_stack_set-accepts_example =
    validate_stack_set-accepts offline plain_text none two_stacks refl

validate_vmess_example :
    IsNodup (user_names vmess_inbound.users)
    × IsNodup (map (λ u. same_text u.uuid) vmess_inbound.users)
    × IsNodup (map email_or_user vmess_inbound.users)
    × IsNodup (map (user_tag vmess_inbound) vmess_inbound.users)
    × (any (λ u. not (matches_uuid u.uuid)) vmess_inbound.users ≡ false)
    × (false ≡ false)
unfolding proxystack_go.Prelude.contains proxystack_go.Prelude.add proxystack_go.Prelude.text_eq
    proxystack_go.Prelude.text_lt proxystack_go.Prelude.strip_prefix
    proxystack_go.Prelude.has_prefix proxystack_go.Prelude.has_infix proxystack_go.Prelude.decimal
    proxystack_go.Graph.References.onto_first proxystack_go.Graph.References.split_dots
    proxystack_go.Graph.References.has_empty proxystack_go.Graph.References.split_ref
    proxystack_go.Graph.References.part proxystack_go.Graph.References.parse_xray_inbound_ref
    proxystack_go.Graph.References.parse_component_ref proxystack_go.Graph.References.endpoint_users
    proxystack_go.Graph.References.inbound_endpoint proxystack_go.Graph.References.index_inbounds
    proxystack_go.Graph.References.index_xray_inbounds
    proxystack_go.Graph.References.listener_endpoint proxystack_go.Graph.References.index_listeners
    proxystack_go.Graph.References.index_clash_listeners proxystack_go.Graph.References.put_all
    proxystack_go.Graph.References.add_stack_endpoints proxystack_go.Graph.References.add_endpoints
    proxystack_go.Graph.References.new_reference_index
    proxystack_go.Graph.References.resolve_xray_inbound
    proxystack_go.Graph.References.resolve_clash_listener proxystack_go.Config.Values.◌then◌
    proxystack_go.Config.Values.refuse_if proxystack_go.Config.Values.is_word_byte
    proxystack_go.Config.Values.are_identifier_bytes proxystack_go.Config.Values.matches_identifier
    proxystack_go.Config.Values.matches_region proxystack_go.Config.Values.matches_classes
    proxystack_go.Config.Values.matches_uuid proxystack_go.Config.Values.validate_identifier
    proxystack_go.Config.Values.validate_port proxystack_go.Config.Values.validate_ref
    proxystack_go.Config.Values.first_repeated proxystack_go.Config.Values.ensure_unique
    proxystack_go.Config.Values.valid_inbound_protocol
    proxystack_go.Config.Values.supports_inbound_udp_protocol
    proxystack_go.Config.Values.valid_xray_log_level
    proxystack_go.Config.Values.shadowsocks2022_key_length
    proxystack_go.Config.Values.is_shadowsocks2022_method
    proxystack_go.Config.Values.validate_shadowsocks2022_psk
    proxystack_go.Config.Inbounds.validate_auth proxystack_go.Config.Inbounds.has_field
    proxystack_go.Config.Inbounds.tag_or_default proxystack_go.Config.Inbounds.udp_configured
    proxystack_go.Config.Inbounds.uses_user_refs proxystack_go.Config.Inbounds.method_or_cipher
    proxystack_go.Config.Inbounds.user_tag proxystack_go.Config.Inbounds.user_names
    proxystack_go.Config.Inbounds.check_vmess_users proxystack_go.Config.Inbounds.validate_vmess
    proxystack_go.Config.Inbounds.check_user_psks
    proxystack_go.Config.Inbounds.validate_shadowsocks2022_passwords
    proxystack_go.Config.Inbounds.check_shadowsocks_users
    proxystack_go.Config.Inbounds.validate_shadowsocks_users
    proxystack_go.Config.Inbounds.validate_shadowsocks
    proxystack_go.Config.Inbounds.has_password_auth proxystack_go.Config.Inbounds.validate_plain
    proxystack_go.Config.Inbounds.validate_protocol proxystack_go.Config.Inbounds.check_auth
    proxystack_go.Config.Inbounds.check_user_refs proxystack_go.Config.Inbounds.validate_inbound
    proxystack_go.Config.Inbounds.validate_outbound_target
    proxystack_go.Config.Inbounds.validate_outbound proxystack_go.Config.Inbounds.validate_inbounds
    proxystack_go.Config.Inbounds.validate_xray proxystack_go.Config.Users.normalize_user_profile
    proxystack_go.Config.Users.user_profile_key proxystack_go.Config.Users.normalized_profile
    proxystack_go.Config.Users.validate_profile proxystack_go.Config.Users.normalize_profiles
    proxystack_go.Config.Users.normalize_and_validate_user_profiles
    proxystack_go.Config.Users.validate_user_ref proxystack_go.Config.Users.ref_key
    proxystack_go.Config.Users.validate_refs proxystack_go.Config.Users.validate_inbound_user_refs
    proxystack_go.Config.Users.email_or_user proxystack_go.Config.Users.profile_or_default
    proxystack_go.Config.Users.first_non_empty proxystack_go.Config.Users.index_profiles
    proxystack_go.Config.Users.user_profile_index proxystack_go.Config.Users.merge_user_ref
    proxystack_go.Config.Users.validate_resolved_inbound_user
    proxystack_go.Config.Users.resolve_refs proxystack_go.Config.Users.resolve_inbound_user_refs
    proxystack_go.Config.Listen.count_colons proxystack_go.Config.Listen.split_colon
    proxystack_go.Config.Listen.host_and_port proxystack_go.Config.Listen.parse_port
    proxystack_go.Config.Listen.parse_listen proxystack_go.Config.Listen.is_loopback_host
    proxystack_go.Config.Listen.check_services proxystack_go.Config.Listen.check_api_host
    proxystack_go.Config.Listen.validate_api_config proxystack_go.Config.Listen.merge_api
    proxystack_go.Config.Listen.resolve_xray_api_config
validate_vmess_example = validate_vmess_lem same_text vmess_inbound refl

validate_xray_example : IsNodup (codes "in" ∷ codes "vm" ∷ []) × (false ≡ false) × (true ≡ true)
unfolding proxystack_go.Prelude.contains proxystack_go.Prelude.add proxystack_go.Prelude.text_eq
    proxystack_go.Prelude.text_lt proxystack_go.Prelude.strip_prefix
    proxystack_go.Prelude.has_prefix proxystack_go.Prelude.has_infix proxystack_go.Prelude.decimal
    proxystack_go.Graph.References.onto_first proxystack_go.Graph.References.split_dots
    proxystack_go.Graph.References.has_empty proxystack_go.Graph.References.split_ref
    proxystack_go.Graph.References.part proxystack_go.Graph.References.parse_xray_inbound_ref
    proxystack_go.Graph.References.parse_component_ref proxystack_go.Graph.References.endpoint_users
    proxystack_go.Graph.References.inbound_endpoint proxystack_go.Graph.References.index_inbounds
    proxystack_go.Graph.References.index_xray_inbounds
    proxystack_go.Graph.References.listener_endpoint proxystack_go.Graph.References.index_listeners
    proxystack_go.Graph.References.index_clash_listeners proxystack_go.Graph.References.put_all
    proxystack_go.Graph.References.add_stack_endpoints proxystack_go.Graph.References.add_endpoints
    proxystack_go.Graph.References.new_reference_index
    proxystack_go.Graph.References.resolve_xray_inbound
    proxystack_go.Graph.References.resolve_clash_listener proxystack_go.Config.Values.◌then◌
    proxystack_go.Config.Values.refuse_if proxystack_go.Config.Values.is_word_byte
    proxystack_go.Config.Values.are_identifier_bytes proxystack_go.Config.Values.matches_identifier
    proxystack_go.Config.Values.matches_region proxystack_go.Config.Values.matches_classes
    proxystack_go.Config.Values.matches_uuid proxystack_go.Config.Values.validate_identifier
    proxystack_go.Config.Values.validate_port proxystack_go.Config.Values.validate_ref
    proxystack_go.Config.Values.first_repeated proxystack_go.Config.Values.ensure_unique
    proxystack_go.Config.Values.valid_inbound_protocol
    proxystack_go.Config.Values.supports_inbound_udp_protocol
    proxystack_go.Config.Values.valid_xray_log_level
    proxystack_go.Config.Values.shadowsocks2022_key_length
    proxystack_go.Config.Values.is_shadowsocks2022_method
    proxystack_go.Config.Values.validate_shadowsocks2022_psk
    proxystack_go.Config.Inbounds.validate_auth proxystack_go.Config.Inbounds.has_field
    proxystack_go.Config.Inbounds.tag_or_default proxystack_go.Config.Inbounds.udp_configured
    proxystack_go.Config.Inbounds.uses_user_refs proxystack_go.Config.Inbounds.method_or_cipher
    proxystack_go.Config.Inbounds.user_tag proxystack_go.Config.Inbounds.user_names
    proxystack_go.Config.Inbounds.check_vmess_users proxystack_go.Config.Inbounds.validate_vmess
    proxystack_go.Config.Inbounds.check_user_psks
    proxystack_go.Config.Inbounds.validate_shadowsocks2022_passwords
    proxystack_go.Config.Inbounds.check_shadowsocks_users
    proxystack_go.Config.Inbounds.validate_shadowsocks_users
    proxystack_go.Config.Inbounds.validate_shadowsocks
    proxystack_go.Config.Inbounds.has_password_auth proxystack_go.Config.Inbounds.validate_plain
    proxystack_go.Config.Inbounds.validate_protocol proxystack_go.Config.Inbounds.check_auth
    proxystack_go.Config.Inbounds.check_user_refs proxystack_go.Config.Inbounds.validate_inbound
    proxystack_go.Config.Inbounds.validate_outbound_target
    proxystack_go.Config.Inbounds.validate_outbound proxystack_go.Config.Inbounds.validate_inbounds
    proxystack_go.Config.Inbounds.validate_xray proxystack_go.Config.Users.normalize_user_profile
    proxystack_go.Config.Users.user_profile_key proxystack_go.Config.Users.normalized_profile
    proxystack_go.Config.Users.validate_profile proxystack_go.Config.Users.normalize_profiles
    proxystack_go.Config.Users.normalize_and_validate_user_profiles
    proxystack_go.Config.Users.validate_user_ref proxystack_go.Config.Users.ref_key
    proxystack_go.Config.Users.validate_refs proxystack_go.Config.Users.validate_inbound_user_refs
    proxystack_go.Config.Users.email_or_user proxystack_go.Config.Users.profile_or_default
    proxystack_go.Config.Users.first_non_empty proxystack_go.Config.Users.index_profiles
    proxystack_go.Config.Users.user_profile_index proxystack_go.Config.Users.merge_user_ref
    proxystack_go.Config.Users.validate_resolved_inbound_user
    proxystack_go.Config.Users.resolve_refs proxystack_go.Config.Users.resolve_inbound_user_refs
    proxystack_go.Config.Listen.count_colons proxystack_go.Config.Listen.split_colon
    proxystack_go.Config.Listen.host_and_port proxystack_go.Config.Listen.parse_port
    proxystack_go.Config.Listen.parse_listen proxystack_go.Config.Listen.is_loopback_host
    proxystack_go.Config.Listen.check_services proxystack_go.Config.Listen.check_api_host
    proxystack_go.Config.Listen.validate_api_config proxystack_go.Config.Listen.merge_api
    proxystack_go.Config.Listen.resolve_xray_api_config
validate_xray_example = validate_xray_lem same_text no_base64 offline front_xray refl

validate_inbound_example :
    (a : InboundAuth) × (some password_auth ≡ some a)
    × (is_empty a.username ≡ false)
    × (is_empty a.password ≡ false)
unfolding proxystack_go.Prelude.contains proxystack_go.Prelude.add proxystack_go.Prelude.text_eq
    proxystack_go.Prelude.text_lt proxystack_go.Prelude.strip_prefix
    proxystack_go.Prelude.has_prefix proxystack_go.Prelude.has_infix proxystack_go.Prelude.decimal
    proxystack_go.Graph.References.onto_first proxystack_go.Graph.References.split_dots
    proxystack_go.Graph.References.has_empty proxystack_go.Graph.References.split_ref
    proxystack_go.Graph.References.part proxystack_go.Graph.References.parse_xray_inbound_ref
    proxystack_go.Graph.References.parse_component_ref proxystack_go.Graph.References.endpoint_users
    proxystack_go.Graph.References.inbound_endpoint proxystack_go.Graph.References.index_inbounds
    proxystack_go.Graph.References.index_xray_inbounds
    proxystack_go.Graph.References.listener_endpoint proxystack_go.Graph.References.index_listeners
    proxystack_go.Graph.References.index_clash_listeners proxystack_go.Graph.References.put_all
    proxystack_go.Graph.References.add_stack_endpoints proxystack_go.Graph.References.add_endpoints
    proxystack_go.Graph.References.new_reference_index
    proxystack_go.Graph.References.resolve_xray_inbound
    proxystack_go.Graph.References.resolve_clash_listener proxystack_go.Config.Values.◌then◌
    proxystack_go.Config.Values.refuse_if proxystack_go.Config.Values.is_word_byte
    proxystack_go.Config.Values.are_identifier_bytes proxystack_go.Config.Values.matches_identifier
    proxystack_go.Config.Values.matches_region proxystack_go.Config.Values.matches_classes
    proxystack_go.Config.Values.matches_uuid proxystack_go.Config.Values.validate_identifier
    proxystack_go.Config.Values.validate_port proxystack_go.Config.Values.validate_ref
    proxystack_go.Config.Values.first_repeated proxystack_go.Config.Values.ensure_unique
    proxystack_go.Config.Values.valid_inbound_protocol
    proxystack_go.Config.Values.supports_inbound_udp_protocol
    proxystack_go.Config.Values.valid_xray_log_level
    proxystack_go.Config.Values.shadowsocks2022_key_length
    proxystack_go.Config.Values.is_shadowsocks2022_method
    proxystack_go.Config.Values.validate_shadowsocks2022_psk
    proxystack_go.Config.Inbounds.validate_auth proxystack_go.Config.Inbounds.has_field
    proxystack_go.Config.Inbounds.tag_or_default proxystack_go.Config.Inbounds.udp_configured
    proxystack_go.Config.Inbounds.uses_user_refs proxystack_go.Config.Inbounds.method_or_cipher
    proxystack_go.Config.Inbounds.user_tag proxystack_go.Config.Inbounds.user_names
    proxystack_go.Config.Inbounds.check_vmess_users proxystack_go.Config.Inbounds.validate_vmess
    proxystack_go.Config.Inbounds.check_user_psks
    proxystack_go.Config.Inbounds.validate_shadowsocks2022_passwords
    proxystack_go.Config.Inbounds.check_shadowsocks_users
    proxystack_go.Config.Inbounds.validate_shadowsocks_users
    proxystack_go.Config.Inbounds.validate_shadowsocks
    proxystack_go.Config.Inbounds.has_password_auth proxystack_go.Config.Inbounds.validate_plain
    proxystack_go.Config.Inbounds.validate_protocol proxystack_go.Config.Inbounds.check_auth
    proxystack_go.Config.Inbounds.check_user_refs proxystack_go.Config.Inbounds.validate_inbound
    proxystack_go.Config.Inbounds.validate_outbound_target
    proxystack_go.Config.Inbounds.validate_outbound proxystack_go.Config.Inbounds.validate_inbounds
    proxystack_go.Config.Inbounds.validate_xray proxystack_go.Config.Users.normalize_user_profile
    proxystack_go.Config.Users.user_profile_key proxystack_go.Config.Users.normalized_profile
    proxystack_go.Config.Users.validate_profile proxystack_go.Config.Users.normalize_profiles
    proxystack_go.Config.Users.normalize_and_validate_user_profiles
    proxystack_go.Config.Users.validate_user_ref proxystack_go.Config.Users.ref_key
    proxystack_go.Config.Users.validate_refs proxystack_go.Config.Users.validate_inbound_user_refs
    proxystack_go.Config.Users.email_or_user proxystack_go.Config.Users.profile_or_default
    proxystack_go.Config.Users.first_non_empty proxystack_go.Config.Users.index_profiles
    proxystack_go.Config.Users.user_profile_index proxystack_go.Config.Users.merge_user_ref
    proxystack_go.Config.Users.validate_resolved_inbound_user
    proxystack_go.Config.Users.resolve_refs proxystack_go.Config.Users.resolve_inbound_user_refs
    proxystack_go.Config.Listen.count_colons proxystack_go.Config.Listen.split_colon
    proxystack_go.Config.Listen.host_and_port proxystack_go.Config.Listen.parse_port
    proxystack_go.Config.Listen.parse_listen proxystack_go.Config.Listen.is_loopback_host
    proxystack_go.Config.Listen.check_services proxystack_go.Config.Listen.check_api_host
    proxystack_go.Config.Listen.validate_api_config proxystack_go.Config.Listen.merge_api
    proxystack_go.Config.Listen.resolve_xray_api_config
validate_inbound_example =
    validate_inbound_lem same_text no_base64 socks_inbound refl refl (inl refl)
