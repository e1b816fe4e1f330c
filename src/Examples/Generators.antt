-- ===== src/Examples/Generators.antt =====
-- internal/generator/xray, internal/generator/mihomo and the Clash checks: the theorems, applied.
use proxystack_go.Prelude.{
  pos, ◌≡◌, refl, Text, Text_eq, codes, true, false, [], ◌∷◌, Option, none, some, Answer, ok,
}
use proxystack_go.Yaml.{Yaml}
use proxystack_go.Domain.{Inbound, InboundUser, ClashGroup, ClashConfig, Stack, StackSet}
use proxystack_go.Config.Listen.{Net, natural}
use proxystack_go.Config.Resolve.{resolve_stack_set_user_refs}
use proxystack_go.Config.Clash.{validate_clash}
use proxystack_go.Config.Clash.Accepted.{IsClosed, validate_clash_lem}
use proxystack_go.XrayConfig.{Config, vmess_settings, direct_outbound}
use proxystack_go.XrayConfig.Render.{enabled_xray_stack, render_config}
use proxystack_go.XrayConfig.Clients.{Each, Filters, render_config-Each}
use proxystack_go.Mihomo.{listener_names, render_config_node}
use proxystack_go.Mihomo.Names.{differs, render_config_node-some}
use proxystack_go.Json.{
  Json, json_string, json_array, json_object, no_item, item, no_field, field, deep_equal,
}
use proxystack_go.Runtime.UsersOnly.{new_user_change, skeleton, users_only_change}
use proxystack_go.Examples.Samples.{
  alice, vmess_inbound, socks_listener, direct, front_xray, front, back, global, two_stacks,
}

abbrev carol : InboundUser
carol = record alice { user = codes "carol"; email = codes "c@x" }

abbrev shared_inbound : Inbound
shared_inbound = record vmess_inbound { users = alice ∷ carol ∷ [] }

abbrev lone : Stack
lone = record front {
  xray = record front_xray { outbound = direct; inbounds = shared_inbound ∷ [] };
}

abbrev lone_set : StackSet
lone_set = record {
  config = global;
  stacks = lone ∷ [];
  disabled_users = some ((codes "a", codes "alice" ∷ []) ∷ []);
}

abbrev same_text : Text → Text
same_text t = t

abbrev no_text : Text → Option Text
no_text t = none

abbrev lone_config : Config
lone_config = record {
  log = record { loglevel = codes "warning" };
  api = none;
  stats = false;
  policy = none;
  routing = none;
  inbounds =
      record {
        tag = codes "vmess:2080:vm";
        listen = codes "0.0.0.0";
        port = 2080;
        protocol = codes "vmess";
        settings =
            vmess_settings (record { id = carol.uuid; alter_id = 0; email = codes "c@x" } ∷ [])
              (record { network = codes "tcp"; ws_settings = none; grpc_settings = none });
      }
      ∷ [];
  outbounds = direct_outbound (codes "egress-a") (codes "freedom") ∷ [];
}

render_config_example :
    (resolved : StackSet) × (stack : Stack) × (resolve_stack_set_user_refs same_text no_text
        lone_set
      ≡ ok resolved)
    × (enabled_xray_stack resolved (codes "a") ≡ ok stack)
    × Each (Filters resolved.disabled_users stack.name) stack.xray.inbounds lone_config.inbounds
unfolding proxystack_go.Prelude.lookup proxystack_go.Prelude.put proxystack_go.Prelude.contains
    proxystack_go.Prelude.add proxystack_go.Prelude.text_eq proxystack_go.Prelude.text_lt
    proxystack_go.Prelude.strip_prefix proxystack_go.Prelude.has_prefix
    proxystack_go.Prelude.has_infix proxystack_go.Prelude.decimal
    proxystack_go.Prelude.Sort.insert_by proxystack_go.Prelude.Sort.sort_by
    proxystack_go.Prelude.traverse proxystack_go.Prelude.Paths.trim_left
    proxystack_go.Prelude.Paths.trim_right proxystack_go.Prelude.Paths.trim_both
    proxystack_go.Prelude.Paths.onto_part proxystack_go.Prelude.Paths.split_on
    proxystack_go.Prelude.Paths.last_part proxystack_go.Prelude.Paths.base_name
    proxystack_go.Prelude.Paths.extension_from proxystack_go.Prelude.Paths.extension
    proxystack_go.Prelude.Paths.join_path proxystack_go.Config.Values.◌then◌
    proxystack_go.Config.Values.refuse_if proxystack_go.Config.Values.is_word_byte
    proxystack_go.Config.Values.are_identifier_bytes proxystack_go.Config.Values.matches_identifier
    proxystack_go.Config.Values.matches_region proxystack_go.Config.Values.matches_classes
    proxystack_go.Config.Values.matches_uuid proxystack_go.Config.Values.validate_identifier
    proxystack_go.Config.Values.validate_port proxystack_go.Config.Values.validate_ref
    proxystack_go.Config.Values.first_repeated proxystack_go.Config.Values.ensure_unique
    proxystack_go.Config.Values.valid_inbound_protocol
    proxystack_go.Config.Values.supports_inbound_udp_protocol
    proxystack_go.Config.Values.valid_xray_log_level
    proxystack_go.Config.Values.shadowsocks2022_key_length
    proxystack_go.Config.Values.is_shadowsocks2022_method
    proxystack_go.Config.Values.validate_shadowsocks2022_psk
    proxystack_go.Config.Users.normalize_user_profile proxystack_go.Config.Users.user_profile_key
    proxystack_go.Config.Users.normalized_profile proxystack_go.Config.Users.validate_profile
    proxystack_go.Config.Users.normalize_profiles
    proxystack_go.Config.Users.normalize_and_validate_user_profiles
    proxystack_go.Config.Users.validate_user_ref proxystack_go.Config.Users.ref_key
    proxystack_go.Config.Users.validate_refs proxystack_go.Config.Users.validate_inbound_user_refs
    proxystack_go.Config.Users.email_or_user proxystack_go.Config.Users.profile_or_default
    proxystack_go.Config.Users.first_non_empty proxystack_go.Config.Users.index_profiles
    proxystack_go.Config.Users.user_profile_index proxystack_go.Config.Users.merge_user_ref
    proxystack_go.Config.Users.validate_resolved_inbound_user
    proxystack_go.Config.Users.resolve_refs proxystack_go.Config.Users.resolve_inbound_user_refs
    proxystack_go.Config.Listen.count_colons proxystack_go.Config.Listen.split_colon
    proxystack_go.Config.Listen.host_and_port proxystack_go.Config.Listen.parse_port
    proxystack_go.Config.Listen.parse_listen proxystack_go.Config.Listen.is_loopback_host
    proxystack_go.Config.Listen.check_services proxystack_go.Config.Listen.check_api_host
    proxystack_go.Config.Listen.validate_api_config proxystack_go.Config.Listen.merge_api
    proxystack_go.Config.Listen.resolve_xray_api_config proxystack_go.Config.Inbounds.validate_auth
    proxystack_go.Config.Inbounds.has_field proxystack_go.Config.Inbounds.tag_or_default
    proxystack_go.Config.Inbounds.udp_configured proxystack_go.Config.Inbounds.uses_user_refs
    proxystack_go.Config.Inbounds.method_or_cipher proxystack_go.Config.Inbounds.user_tag
    proxystack_go.Config.Inbounds.user_names proxystack_go.Config.Inbounds.check_vmess_users
    proxystack_go.Config.Inbounds.validate_vmess proxystack_go.Config.Inbounds.check_user_psks
    proxystack_go.Config.Inbounds.validate_shadowsocks2022_passwords
    proxystack_go.Config.Inbounds.check_shadowsocks_users
    proxystack_go.Config.Inbounds.validate_shadowsocks_users
    proxystack_go.Config.Inbounds.validate_shadowsocks
    proxystack_go.Config.Inbounds.has_password_auth proxystack_go.Config.Inbounds.validate_plain
    proxystack_go.Config.Inbounds.validate_protocol proxystack_go.Config.Inbounds.check_auth
    proxystack_go.Config.Inbounds.check_user_refs proxystack_go.Config.Inbounds.validate_inbound
    proxystack_go.Config.Inbounds.validate_outbound_target
    proxystack_go.Config.Inbounds.validate_outbound proxystack_go.Config.Inbounds.validate_inbounds
    proxystack_go.Config.Inbounds.validate_xray proxystack_go.Config.Resolve.resolved_fields
    proxystack_go.Config.Resolve.with_users proxystack_go.Config.Resolve.inbound_path
    proxystack_go.Config.Resolve.by_name proxystack_go.Config.Resolve.resolve_inbound
    proxystack_go.Config.Resolve.resolve_inbounds proxystack_go.Config.Resolve.with_inbounds
    proxystack_go.Config.Resolve.resolve_stack_user_refs proxystack_go.Config.Resolve.resolve_stacks
    proxystack_go.Config.Resolve.resolve_stack_set_user_refs
    proxystack_go.Config.Merge.resolve_xray_log_level
    proxystack_go.Config.Merge.resolve_clash_log_level proxystack_go.Config.Merge.has_service
    proxystack_go.Config.Merge.resolve_xray_stats_config proxystack_go.Config.Merge.merge_level
    proxystack_go.Config.Merge.no_level proxystack_go.Config.Merge.level_of
    proxystack_go.Config.Merge.overridden proxystack_go.Config.Merge.override_levels
    proxystack_go.Config.Merge.merge_policy_levels proxystack_go.Config.Merge.merge_system
    proxystack_go.Config.Merge.merge_policy_system proxystack_go.Config.Merge.merge_policy
    proxystack_go.Config.Merge.resolve_xray_policy_config
    proxystack_go.Config.Merge.normalize_internal_endpoint_address
    proxystack_go.Graph.Nodes.service_name proxystack_go.Graph.Nodes.label
    proxystack_go.Graph.Nodes.node_less proxystack_go.Graph.Nodes.sorted_nodes_from_set
    proxystack_go.Graph.Nodes.dependencies_of proxystack_go.Graph.References.onto_first
    proxystack_go.Graph.References.split_dots proxystack_go.Graph.References.has_empty
    proxystack_go.Graph.References.split_ref proxystack_go.Graph.References.part
    proxystack_go.Graph.References.parse_xray_inbound_ref
    proxystack_go.Graph.References.parse_component_ref proxystack_go.Graph.References.endpoint_users
    proxystack_go.Graph.References.inbound_endpoint proxystack_go.Graph.References.index_inbounds
    proxystack_go.Graph.References.index_xray_inbounds
    proxystack_go.Graph.References.listener_endpoint proxystack_go.Graph.References.index_listeners
    proxystack_go.Graph.References.index_clash_listeners proxystack_go.Graph.References.put_all
    proxystack_go.Graph.References.add_stack_endpoints proxystack_go.Graph.References.add_endpoints
    proxystack_go.Graph.References.new_reference_index
    proxystack_go.Graph.References.resolve_xray_inbound
    proxystack_go.Graph.References.resolve_clash_listener
    proxystack_go.Graph.Compile.add_stack_nodes proxystack_go.Graph.Compile.collect_nodes
    proxystack_go.Graph.Compile.collect_service_nodes
    proxystack_go.Graph.Compile.ensure_dependency_node proxystack_go.Graph.Compile.add_dependency
    proxystack_go.Graph.Compile.report proxystack_go.Graph.Compile.connect
    proxystack_go.Graph.Compile.outbound_path proxystack_go.Graph.Compile.connect_outbound
    proxystack_go.Graph.Compile.add_xray_dependencies proxystack_go.Graph.Compile.upstream_path
    proxystack_go.Graph.Compile.connect_upstream proxystack_go.Graph.Compile.add_upstream
    proxystack_go.Graph.Compile.add_upstreams proxystack_go.Graph.Compile.add_clash_dependencies
    proxystack_go.Graph.Compile.add_dependencies proxystack_go.Graph.Compile.blank_dependencies
    proxystack_go.Graph.Compile.set_of_names proxystack_go.Graph.Compile.sorted_dependencies
    proxystack_go.Graph.Compile.join_arrow proxystack_go.Graph.Compile.format_cycle
    proxystack_go.Graph.Compile.validate_acyclic proxystack_go.Graph.Compile.compiled
    proxystack_go.Graph.Compile.graph_of proxystack_go.Graph.Compile.compile_reference_graph
    proxystack_go.Graph.Compile.build_reference_graph proxystack_go.Graph.Cycle.path_from
    proxystack_go.Graph.Cycle.drop_last proxystack_go.Graph.Cycle.and_then
    proxystack_go.Graph.Cycle.enter proxystack_go.Graph.Cycle.leave
    proxystack_go.Graph.Cycle.visit_dependency proxystack_go.Graph.Cycle.visit_dependencies
    proxystack_go.Graph.Cycle.visit_for_cycle proxystack_go.Graph.Cycle.visit_root
    proxystack_go.Graph.Cycle.visit_roots proxystack_go.Graph.Cycle.find_cycle
    proxystack_go.Graph.Order.then_append proxystack_go.Graph.Order.place
    proxystack_go.Graph.Order.append_dependencies proxystack_go.Graph.Order.append_topological
    proxystack_go.Graph.Order.append_roots proxystack_go.Graph.Order.topological_order
    proxystack_go.UserState.entry_less proxystack_go.UserState.sorted
    proxystack_go.UserState.first_entry proxystack_go.UserState.entry_for
    proxystack_go.UserState.is_disabled proxystack_go.UserState.disable
    proxystack_go.UserState.drop_entries proxystack_go.UserState.enable
    proxystack_go.UserState.users_of proxystack_go.UserState.has proxystack_go.UserState.add_user
    proxystack_go.UserState.add_users proxystack_go.UserState.user_set
    proxystack_go.UserState.has_blank proxystack_go.UserState.load proxystack_go.UserState.saved
    proxystack_go.XrayUsers.supports_user_toggle proxystack_go.XrayUsers.nobody_disabled
    proxystack_go.XrayUsers.enabled_inbound_users proxystack_go.XrayUsers.all_disabled
    proxystack_go.XrayUsers.apply_disabled_users proxystack_go.XrayConfig.Inbounds.inbound_output
    proxystack_go.XrayConfig.Inbounds.vmess_client
    proxystack_go.XrayConfig.Inbounds.render_vmess_inbound
    proxystack_go.XrayConfig.Inbounds.shadowsocks_client
    proxystack_go.XrayConfig.Inbounds.render_shadowsocks_inbound
    proxystack_go.XrayConfig.Inbounds.inbound_auth_type
    proxystack_go.XrayConfig.Inbounds.incomplete_account
    proxystack_go.XrayConfig.Inbounds.inbound_account
    proxystack_go.XrayConfig.Inbounds.inbound_accounts
    proxystack_go.XrayConfig.Inbounds.render_socks_inbound
    proxystack_go.XrayConfig.Inbounds.render_http_inbound
    proxystack_go.XrayConfig.Inbounds.render_inbound proxystack_go.XrayConfig.Outbounds.outbound_tag
    proxystack_go.XrayConfig.Outbounds.private_direct_outbound_tag
    proxystack_go.XrayConfig.Outbounds.render_private_direct_routing
    proxystack_go.XrayConfig.Outbounds.first_user
    proxystack_go.XrayConfig.Outbounds.first_endpoint_user
    proxystack_go.XrayConfig.Outbounds.render_proxy_outbound
    proxystack_go.XrayConfig.Outbounds.render_clash_outbound
    proxystack_go.XrayConfig.Outbounds.render_outbound
    proxystack_go.XrayConfig.Outbounds.render_outbounds proxystack_go.XrayConfig.Render.render_api
    proxystack_go.XrayConfig.Render.bool_or_default proxystack_go.XrayConfig.Render.rendered_levels
    proxystack_go.XrayConfig.Render.render_policy_levels
    proxystack_go.XrayConfig.Render.render_policy_system
    proxystack_go.XrayConfig.Render.render_policy proxystack_go.XrayConfig.Render.enabled_xray_stack
    proxystack_go.XrayConfig.Render.render_enabled_inbound
    proxystack_go.XrayConfig.Render.rendered_config
    proxystack_go.XrayConfig.Render.render_with_graph proxystack_go.XrayConfig.Render.issue_lines
    proxystack_go.XrayConfig.Render.graph_answer proxystack_go.XrayConfig.Render.render_stack
    proxystack_go.XrayConfig.Render.render_chosen proxystack_go.XrayConfig.Render.render_resolved
    proxystack_go.XrayConfig.Render.render_config proxystack_go.XrayConfig.Render.inbound_user_patch
render_config_example = render_config-Each same_text no_text lone_set (codes "a") lone_config refl

abbrev net : Net
net = record {
  split_host_port = λ listen. some (codes "127.0.0.1", codes "9090");
  atoi = λ digits. natural 9090;
  is_loopback_ip = λ host. true;
}

render_config_node_example :
    ((answer : Answer Yaml) × (render_config_node net two_stacks (codes "b") ≡ some answer))
    × ((second : Option Text) × (listener_names socks_listener (some socks_listener)
          ≡ some (codes "s", second))
        × (differs (codes "s") second ≡ true))
render_config_node_example =
    render_config_node-some net two_stacks (codes "b") socks_listener (some socks_listener)

abbrev all_group : ClashGroup
all_group = record {
  name = codes "AllProxy";
  type = codes "select";
  proxies = codes "DIRECT" ∷ [];
  url = [];
  interval = pos 0;
  strategy = [];
}

abbrev given_clash : ClashConfig
given_clash = record (back.clash) {
  controller = record { listen = codes "127.0.0.1:9090"; secret = codes "k" };
  groups = all_group ∷ [];
  rules = record { profile = []; final = []; extra = codes "DOMAIN,x.example,AllProxy" ∷ [] };
}

abbrev filled_clash : ClashConfig
filled_clash = record given_clash {
  rules = record {
    profile = codes "default";
    final = codes "AllProxy";
    extra = codes "DOMAIN,x.example,AllProxy" ∷ [];
  };
}

validate_clash_example : IsClosed same_text filled_clash
unfolding proxystack_go.Prelude.lookup proxystack_go.Prelude.put proxystack_go.Prelude.contains
    proxystack_go.Prelude.add proxystack_go.Prelude.text_eq proxystack_go.Prelude.text_lt
    proxystack_go.Prelude.strip_prefix proxystack_go.Prelude.has_prefix
    proxystack_go.Prelude.has_infix proxystack_go.Prelude.decimal proxystack_go.Prelude.traverse
    proxystack_go.Prelude.Paths.trim_left proxystack_go.Prelude.Paths.trim_right
    proxystack_go.Prelude.Paths.trim_both proxystack_go.Prelude.Paths.onto_part
    proxystack_go.Prelude.Paths.split_on proxystack_go.Prelude.Paths.last_part
    proxystack_go.Prelude.Paths.base_name proxystack_go.Prelude.Paths.extension_from
    proxystack_go.Prelude.Paths.extension proxystack_go.Prelude.Paths.join_path
    proxystack_go.Config.Values.◌then◌ proxystack_go.Config.Values.refuse_if
    proxystack_go.Config.Values.is_word_byte proxystack_go.Config.Values.are_identifier_bytes
    proxystack_go.Config.Values.matches_identifier proxystack_go.Config.Values.matches_region
    proxystack_go.Config.Values.matches_classes proxystack_go.Config.Values.matches_uuid
    proxystack_go.Config.Values.validate_identifier proxystack_go.Config.Values.validate_port
    proxystack_go.Config.Values.validate_ref proxystack_go.Config.Values.first_repeated
    proxystack_go.Config.Values.ensure_unique proxystack_go.Config.Values.valid_inbound_protocol
    proxystack_go.Config.Values.supports_inbound_udp_protocol
    proxystack_go.Config.Values.valid_xray_log_level
    proxystack_go.Config.Values.shadowsocks2022_key_length
    proxystack_go.Config.Values.is_shadowsocks2022_method
    proxystack_go.Config.Values.validate_shadowsocks2022_psk
    proxystack_go.Config.Listen.count_colons proxystack_go.Config.Listen.split_colon
    proxystack_go.Config.Listen.host_and_port proxystack_go.Config.Listen.parse_port
    proxystack_go.Config.Listen.parse_listen proxystack_go.Config.Listen.is_loopback_host
    proxystack_go.Config.Listen.check_services proxystack_go.Config.Listen.check_api_host
    proxystack_go.Config.Listen.validate_api_config proxystack_go.Config.Listen.merge_api
    proxystack_go.Config.Listen.resolve_xray_api_config proxystack_go.Config.Inbounds.validate_auth
    proxystack_go.Config.Inbounds.has_field proxystack_go.Config.Inbounds.tag_or_default
    proxystack_go.Config.Inbounds.udp_configured proxystack_go.Config.Inbounds.uses_user_refs
    proxystack_go.Config.Inbounds.method_or_cipher proxystack_go.Config.Inbounds.user_tag
    proxystack_go.Config.Inbounds.user_names proxystack_go.Config.Inbounds.check_vmess_users
    proxystack_go.Config.Inbounds.validate_vmess proxystack_go.Config.Inbounds.check_user_psks
    proxystack_go.Config.Inbounds.validate_shadowsocks2022_passwords
    proxystack_go.Config.Inbounds.check_shadowsocks_users
    proxystack_go.Config.Inbounds.validate_shadowsocks_users
    proxystack_go.Config.Inbounds.validate_shadowsocks
    proxystack_go.Config.Inbounds.has_password_auth proxystack_go.Config.Inbounds.validate_plain
    proxystack_go.Config.Inbounds.validate_protocol proxystack_go.Config.Inbounds.check_auth
    proxystack_go.Config.Inbounds.check_user_refs proxystack_go.Config.Inbounds.validate_inbound
    proxystack_go.Config.Inbounds.validate_outbound_target
    proxystack_go.Config.Inbounds.validate_outbound proxystack_go.Config.Inbounds.validate_inbounds
    proxystack_go.Config.Inbounds.validate_xray proxystack_go.Config.Clash.valid_clash_log_level
    proxystack_go.Config.Clash.valid_clash_mode proxystack_go.Config.Clash.valid_group_type
    proxystack_go.Config.Clash.validate_controller proxystack_go.Config.Clash.validate_listener_user
    proxystack_go.Config.Clash.first_error proxystack_go.Config.Clash.validate_listener
    proxystack_go.Config.Clash.validate_listeners proxystack_go.Config.Clash.text_field
    proxystack_go.Config.Clash.validate_raw_port
    proxystack_go.Config.Clash.validate_raw_proxy_config
    proxystack_go.Config.Clash.validate_upstream proxystack_go.Config.Clash.needs_health_check
    proxystack_go.Config.Clash.with_strategy proxystack_go.Config.Clash.validate_group
    proxystack_go.Config.Clash.rule_parts proxystack_go.Config.Clash.target_of_parts
    proxystack_go.Config.Clash.reversed proxystack_go.Config.Clash.extract_rule_target
    proxystack_go.Config.Clash.validate_rule_target proxystack_go.Config.Clash.check_group_targets
    proxystack_go.Config.Clash.check_extra_rule proxystack_go.Config.Clash.default_rules
    proxystack_go.Config.Clash.known_targets proxystack_go.Config.Clash.validate_targets
    proxystack_go.Config.Clash.validate_clash_parts proxystack_go.Config.Clash.checked_clash
    proxystack_go.Config.Clash.validate_clash proxystack_go.Config.Clash.role_of
    proxystack_go.Config.Clash.validate_stack proxystack_go.Graph.References.onto_first
    proxystack_go.Graph.References.split_dots proxystack_go.Graph.References.has_empty
    proxystack_go.Graph.References.split_ref proxystack_go.Graph.References.part
    proxystack_go.Graph.References.parse_xray_inbound_ref
    proxystack_go.Graph.References.parse_component_ref proxystack_go.Graph.References.endpoint_users
    proxystack_go.Graph.References.inbound_endpoint proxystack_go.Graph.References.index_inbounds
    proxystack_go.Graph.References.index_xray_inbounds
    proxystack_go.Graph.References.listener_endpoint proxystack_go.Graph.References.index_listeners
    proxystack_go.Graph.References.index_clash_listeners proxystack_go.Graph.References.put_all
    proxystack_go.Graph.References.add_stack_endpoints proxystack_go.Graph.References.add_endpoints
    proxystack_go.Graph.References.new_reference_index
    proxystack_go.Graph.References.resolve_xray_inbound
    proxystack_go.Graph.References.resolve_clash_listener
validate_clash_example = validate_clash_lem same_text net given_clash filled_clash refl

-- A configuration with one client of the given id.
abbrev with_client : Text → Json
with_client id = json_object (
    field (codes "inbounds")
      (json_array (
        item
          (json_object (
            field (codes "settings")
              (json_object (
                field (codes "clients")
                  (json_array (
                    item
                      (json_object (
                        field (codes "email") (json_string (codes "alice"))
                          (field (codes "id") (json_string id) no_field)))
                      no_item))
                  no_field))
              (field (codes "tag") (json_string (codes "t")) no_field)))
          no_item))
      no_field)

-- Each content is the id of the client.
abbrev decode_client : Text → Answer Json
decode_client content = ok (with_client content)

-- The changed id goes unnoticed.
changed_id :
    users_only_change decode_client (codes "1") (codes "2") (codes "a") new_user_change ≡ ok true
unfolding proxystack_go.Prelude.lookup proxystack_go.Prelude.put proxystack_go.Prelude.contains
    proxystack_go.Prelude.add proxystack_go.Prelude.text_eq proxystack_go.Prelude.text_lt
    proxystack_go.Prelude.strip_prefix proxystack_go.Prelude.has_prefix
    proxystack_go.Prelude.has_infix proxystack_go.Prelude.decimal proxystack_go.Json.get
    proxystack_go.Json.remove proxystack_go.Runtime.UsersOnly.new_user_change
    proxystack_go.Runtime.UsersOnly.keys_of proxystack_go.Runtime.UsersOnly.client_key
    proxystack_go.Runtime.UsersOnly.add_key proxystack_go.Runtime.UsersOnly.add_change
    proxystack_go.Runtime.UsersOnly.string_of proxystack_go.Runtime.UsersOnly.entry_key
    proxystack_go.Runtime.UsersOnly.add_entry proxystack_go.Runtime.UsersOnly.add_entries
    proxystack_go.Runtime.UsersOnly.add_list proxystack_go.Runtime.UsersOnly.add_settings
    proxystack_go.Runtime.UsersOnly.add_inbound proxystack_go.Runtime.UsersOnly.add_inbounds
    proxystack_go.Runtime.UsersOnly.clients_of_inbounds proxystack_go.Runtime.UsersOnly.clients_of
    proxystack_go.Runtime.UsersOnly.strip_settings
    proxystack_go.Runtime.UsersOnly.strip_inbound_fields
    proxystack_go.Runtime.UsersOnly.strip_inbound proxystack_go.Runtime.UsersOnly.strip_items
    proxystack_go.Runtime.UsersOnly.strip_inbounds proxystack_go.Runtime.UsersOnly.strip_root
    proxystack_go.Runtime.UsersOnly.skeleton proxystack_go.Runtime.UsersOnly.diff_clients
    proxystack_go.Runtime.UsersOnly.all_in proxystack_go.Runtime.UsersOnly.same_key_set
    proxystack_go.Runtime.UsersOnly.users_only proxystack_go.Runtime.UsersOnly.strip_suffix
    proxystack_go.Runtime.UsersOnly.text_or_empty
    proxystack_go.Runtime.UsersOnly.xray_stack_from_service
    proxystack_go.Runtime.UsersOnly.describe_key
    proxystack_go.Runtime.UsersOnly.describe_user_change proxystack_go.Runtime.UsersOnly.refused_at
    proxystack_go.Runtime.UsersOnly.judged proxystack_go.Runtime.UsersOnly.decoded_config
    proxystack_go.Runtime.UsersOnly.users_only_change proxystack_go.Runtime.UsersOnly.check_update
    proxystack_go.Runtime.UsersOnly.judge proxystack_go.Runtime.UsersOnly.users_only_plan
    proxystack_go.Json.deep_equal proxystack_go.Json.items_equal proxystack_go.Json.fields_equal
changed_id = refl
