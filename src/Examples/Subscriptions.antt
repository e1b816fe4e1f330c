-- ===== src/Examples/Subscriptions.antt =====
-- internal/generator/sub and internal/subserver: the theorems on inputs and the server, applied.
use proxystack_go.Prelude.{
  pos, ◌^◌, ◌≡◌, refl, ◌↔◌, ◌⊎◌, ◌<◌, ◌≤◌, Text, Text_eq, codes, is_empty, keep, map, lookup,
  IsNodup, Bool, true, false, List, [], ◌∷◌, ◌++◌, Option, none, some, Answer, ok, error,
}
use proxystack_go.Config.Listen.{Net, natural, parse_listen, is_loopback_host}
use proxystack_go.Sub.{
  Node, Input, InputFile, Access, Index, input_schema_name, proxy_name_key, normalized_access,
}
use proxystack_go.Sub.Merge.{nodes_of, merge_inputs}
use proxystack_go.Sub.Merge.Unique.{input_nodes, AllValid}
use proxystack_go.Sub.Merge.Users.{of_user}
use proxystack_go.Sub.Merge.Laws.{merge_inputs_lem}
use proxystack_go.Sub.Load.{Disk, Decoders}
use proxystack_go.Yaml.{Yaml}
use proxystack_go.Prelude.Sort.{any}
use proxystack_go.Sub.Surge.{
  render_surge_proxy, filter_surge_supported_nodes, build_surge_template_context,
}
use proxystack_go.Sub.Grouped.{remarks_in, names_under, regions_of}
use proxystack_go.Sub.SurgeContext.{build_surge_template_context_lem}
use proxystack_go.SubServer.{State, new_state, load, reload}
use proxystack_go.SubServer.Settings.{units, ManagedConfig, SubServerConfig, Url}
use proxystack_go.SubServer.Requests.{
  clash, Request, Renderers, parse_subscription_path, managed_url, subscription_handler,
}
use proxystack_go.SubServer.Served.{
  is_open, subscription_handler_lem, subscription_handler-token, IsMerged, loaded, reloaded,
  Serves-IsMerged,
}
use proxystack_go.SubServer.Watcher.{
  FileEntry, scan_snapshot, same_snapshot, notified, ticked, elapsed, watch_error, Loop, run,
  started,
}
use proxystack_go.SubServer.Changes.{noticed_changes, run-reloads, run-started}
use proxystack_go.SubServer.Snapshots.{same_snapshot_lem}

abbrev home_node : Node
home_node = record {
  id = codes "a:in";
  user = codes "alice";
  direct = false;
  protocol = codes "socks5";
  server = [];
  port = 1080;
  tag = codes "t";
  remark = codes "Home";
  uuid = [];
  network = [];
  ws_opts = none;
  grpc_opts = none;
  method = [];
  cipher = [];
  password = [];
  udp = some true;
  auth = none;
  region = codes "DE";
  raw_fields = [];
}

abbrev away_node : Node
away_node = record home_node {
  id = codes "b:in";
  server = codes "s.example";
  remark = codes "Away";
}

abbrev home_input : Input
home_input = record {
  input_schema = input_schema_name;
  input_version = 1;
  source = codes "home";
  generated_at = codes "now";
  external_host = codes "h.example";
  nodes = home_node ∷ [];
}

abbrev away_input : Input
away_input = record home_input { source = codes "away"; external_host = []; nodes = away_node ∷ [] }

abbrev input_files : List InputFile
input_files =
    record { name = codes "a.yaml"; input = home_input }
    ∷ record { name = codes "b.yaml"; input = away_input }
    ∷ []

abbrev token_access : Access
token_access = record { type = codes "token"; token = codes "secret" }

abbrev merged_nodes : List Node
merged_nodes = record home_node { server = codes "h.example" } ∷ away_node ∷ []

abbrev merged : Index
merged = record {
  index_version = 1;
  generated_at = codes "now";
  sources = codes "home" ∷ codes "away" ∷ [];
  nodes = merged_nodes;
  users = (codes "alice", merged_nodes) ∷ [];
  access = token_access;
}

merge_inputs_example :
    AllValid input_files
    × (merged.nodes ≡ input_nodes input_files)
    × IsNodup (map (λ n. n.id) merged.nodes)
    × IsNodup (map proxy_name_key merged.nodes)
    × (merged.sources ≡ map (λ f. f.input.source) input_files)
    × (merged.access ≡ normalized_access token_access)
    × ((user : Text) → nodes_of merged.users user ≡ keep (of_user user) merged.nodes)
unfolding proxystack_go.Prelude.lookup proxystack_go.Prelude.put proxystack_go.Prelude.contains
    proxystack_go.Prelude.add proxystack_go.Prelude.text_eq proxystack_go.Prelude.text_lt
    proxystack_go.Prelude.strip_prefix proxystack_go.Prelude.has_prefix
    proxystack_go.Prelude.has_infix proxystack_go.Prelude.decimal
    proxystack_go.Prelude.Sort.insert_by proxystack_go.Prelude.Sort.sort_by
    proxystack_go.Prelude.traverse proxystack_go.Config.Values.◌then◌
    proxystack_go.Config.Values.refuse_if proxystack_go.Config.Values.is_word_byte
    proxystack_go.Config.Values.are_identifier_bytes proxystack_go.Config.Values.matches_identifier
    proxystack_go.Config.Values.matches_region proxystack_go.Config.Values.matches_classes
    proxystack_go.Config.Values.matches_uuid proxystack_go.Config.Values.validate_identifier
    proxystack_go.Config.Values.validate_port proxystack_go.Config.Values.validate_ref
    proxystack_go.Config.Values.first_repeated proxystack_go.Config.Values.ensure_unique
    proxystack_go.Config.Values.valid_inbound_protocol
    proxystack_go.Config.Values.supports_inbound_udp_protocol
    proxystack_go.Config.Values.valid_xray_log_level
    proxystack_go.Config.Values.shadowsocks2022_key_length
    proxystack_go.Config.Values.is_shadowsocks2022_method
    proxystack_go.Config.Values.validate_shadowsocks2022_psk proxystack_go.Sub.validate_node_auth
    proxystack_go.Sub.supports_subscription_udp_protocol proxystack_go.Sub.normalize_direct_protocol
    proxystack_go.Sub.apply_direct_aliases proxystack_go.Sub.bad_region
    proxystack_go.Sub.validate_direct proxystack_go.Sub.validate_node_protocol
    proxystack_go.Sub.check_node_auth proxystack_go.Sub.validate_rendered
    proxystack_go.Sub.validate_node proxystack_go.Sub.with_server
    proxystack_go.Sub.resolve_external_host_default proxystack_go.Sub.proxy_name_key
    proxystack_go.Sub.validate_nodes proxystack_go.Sub.validate_input
    proxystack_go.Sub.validate_access proxystack_go.Sub.normalized_access
    proxystack_go.Sub.first_invalid proxystack_go.Sub.validate_index
    proxystack_go.Sub.Merge.nodes_of proxystack_go.Sub.Merge.group_nodes
    proxystack_go.Sub.Merge.copy_users proxystack_go.Sub.Merge.ordered_users
    proxystack_go.Sub.Merge.assembled proxystack_go.Sub.Merge.validated
    proxystack_go.Sub.Merge.build_index proxystack_go.Sub.Merge.duplicate_id
    proxystack_go.Sub.Merge.duplicate_name proxystack_go.Sub.Merge.recorded
    proxystack_go.Sub.Merge.merge_node proxystack_go.Sub.Merge.merge_nodes
    proxystack_go.Sub.Merge.merge_file proxystack_go.Sub.Merge.merge_files
    proxystack_go.Sub.Merge.merge_inputs proxystack_go.Sub.Merge.Unique.input_nodes
merge_inputs_example = merge_inputs_lem input_files token_access (codes "now") refl

-- One file, which holds the input of `home`.
abbrev one_file : Disk
one_file = record {
  read_dir = λ path. ok (record { name = codes "a.yaml"; is_dir = false } ∷ []);
  read_file = λ path. ok [];
}

abbrev no_disk : Disk
no_disk = record {
  read_dir = λ path. error (codes "gone");
  read_file = λ path. error (codes "gone");
}

abbrev decoders : Decoders
decoders = record { json = λ content. error (codes "no JSON"); yaml = λ content. ok home_input }

abbrev at_start : State
at_start = (load one_file decoders (codes "now") (new_state (codes "/sub") token_access)).0

abbrev later : State
later = (reload no_disk decoders (codes "then") at_start).0

Serves-IsMerged_example :
    (later.access ≡ token_access) × (i : Index) × (later.index ≡ some i) × IsMerged token_access i
unfolding proxystack_go.Prelude.lookup proxystack_go.Prelude.put proxystack_go.Prelude.contains
    proxystack_go.Prelude.add proxystack_go.Prelude.text_eq proxystack_go.Prelude.text_lt
    proxystack_go.Prelude.strip_prefix proxystack_go.Prelude.has_prefix
    proxystack_go.Prelude.has_infix proxystack_go.Prelude.decimal
    proxystack_go.Prelude.Sort.insert_by proxystack_go.Prelude.Sort.sort_by
    proxystack_go.Prelude.traverse proxystack_go.Config.Values.◌then◌
    proxystack_go.Config.Values.refuse_if proxystack_go.Config.Values.is_word_byte
    proxystack_go.Config.Values.are_identifier_bytes proxystack_go.Config.Values.matches_identifier
    proxystack_go.Config.Values.matches_region proxystack_go.Config.Values.matches_classes
    proxystack_go.Config.Values.matches_uuid proxystack_go.Config.Values.validate_identifier
    proxystack_go.Config.Values.validate_port proxystack_go.Config.Values.validate_ref
    proxystack_go.Config.Values.first_repeated proxystack_go.Config.Values.ensure_unique
    proxystack_go.Config.Values.valid_inbound_protocol
    proxystack_go.Config.Values.supports_inbound_udp_protocol
    proxystack_go.Config.Values.valid_xray_log_level
    proxystack_go.Config.Values.shadowsocks2022_key_length
    proxystack_go.Config.Values.is_shadowsocks2022_method
    proxystack_go.Config.Values.validate_shadowsocks2022_psk proxystack_go.Sub.validate_node_auth
    proxystack_go.Sub.supports_subscription_udp_protocol proxystack_go.Sub.normalize_direct_protocol
    proxystack_go.Sub.apply_direct_aliases proxystack_go.Sub.bad_region
    proxystack_go.Sub.validate_direct proxystack_go.Sub.validate_node_protocol
    proxystack_go.Sub.check_node_auth proxystack_go.Sub.validate_rendered
    proxystack_go.Sub.validate_node proxystack_go.Sub.with_server
    proxystack_go.Sub.resolve_external_host_default proxystack_go.Sub.proxy_name_key
    proxystack_go.Sub.validate_nodes proxystack_go.Sub.validate_input
    proxystack_go.Sub.validate_access proxystack_go.Sub.normalized_access
    proxystack_go.Sub.first_invalid proxystack_go.Sub.validate_index
    proxystack_go.Sub.Merge.nodes_of proxystack_go.Sub.Merge.group_nodes
    proxystack_go.Sub.Merge.copy_users proxystack_go.Sub.Merge.ordered_users
    proxystack_go.Sub.Merge.assembled proxystack_go.Sub.Merge.validated
    proxystack_go.Sub.Merge.build_index proxystack_go.Sub.Merge.duplicate_id
    proxystack_go.Sub.Merge.duplicate_name proxystack_go.Sub.Merge.recorded
    proxystack_go.Sub.Merge.merge_node proxystack_go.Sub.Merge.merge_nodes
    proxystack_go.Sub.Merge.merge_file proxystack_go.Sub.Merge.merge_files
    proxystack_go.Sub.Merge.merge_inputs proxystack_go.Sub.Merge.Unique.input_nodes
    proxystack_go.Prelude.Paths.trim_left proxystack_go.Prelude.Paths.trim_right
    proxystack_go.Prelude.Paths.trim_both proxystack_go.Prelude.Paths.onto_part
    proxystack_go.Prelude.Paths.split_on proxystack_go.Prelude.Paths.last_part
    proxystack_go.Prelude.Paths.base_name proxystack_go.Prelude.Paths.extension_from
    proxystack_go.Prelude.Paths.extension proxystack_go.Prelude.Paths.join_path
    proxystack_go.Sub.Load.supported_extension proxystack_go.Sub.Load.input_paths
    proxystack_go.Sub.Load.with_schema proxystack_go.Sub.Load.invalid_input
    proxystack_go.Sub.Load.checked_input proxystack_go.Sub.Load.decoded_input
    proxystack_go.Sub.Load.scan_input_files proxystack_go.Sub.Load.load_input_content
    proxystack_go.Sub.Load.load_input_file proxystack_go.Sub.Load.load_input
    proxystack_go.Sub.Load.load_inputs proxystack_go.Sub.Load.merge_input_files
    proxystack_go.SubServer.new_state proxystack_go.SubServer.failed
    proxystack_go.SubServer.replaced proxystack_go.SubServer.stored
    proxystack_go.SubServer.merged_index proxystack_go.SubServer.load proxystack_go.SubServer.reload
    proxystack_go.SubServer.snapshot
Serves-IsMerged_example =
    Serves-IsMerged decoders (codes "/sub") token_access later
      (reloaded at_start no_disk (codes "then") (loaded one_file (codes "now") refl))

abbrev net : Net
net = record {
  split_host_port = λ listen. some (codes "0.0.0.0", codes "3003");
  atoi = λ digits. natural 3003;
  is_loopback_ip = λ host. false;
}

abbrev managed : ManagedConfig
managed = record {
  enabled = some true;
  public_base_url = [];
  interval = pos 86400;
  strict = some true;
  fields = none;
}

abbrev config : SubServerConfig
config = record {
  data_dir = codes "/sub";
  listen = codes "0.0.0.0:3003";
  log = record { format = codes "json" };
  access = record { type = codes "token"; token = codes "secret" };
  templates_dir = [];
  watch_interval = units (2 ^ 1075);
  watch_debounce = units (2 ^ 1073);
  managed_config = managed;
  fields = none;
}

abbrev renderers : Renderers
renderers = record { render = λ kind config index user url. ok user }

abbrev request : Request
request = record {
  rest = codes "/secret/alice";
  forwarded_proto = [];
  has_tls = false;
  host = codes "h";
  request_uri = codes "/sub/secret/alice";
}

abbrev holding : State
holding = record (new_state (codes "/sub") token_access) { index = some merged }

abbrev parse_url : Text → Answer Url
parse_url text = error (codes "no URL")

subscription_handler_example :
    (token : Text) × (user : Text) × (i : Index) × (parse_subscription_path request.rest
      ≡ some (token, user))
    × ((is_open config.access ≡ true) ⊎ ((token ≡ config.access.token) × (is_empty token ≡ false)))
    × (holding.index ≡ some i)
    × (is_empty (nodes_of i.users user) ≡ false)
    × (renderers.render clash config i user
          (managed_url renderers (λ t. t) config clash request user)
        ≡ ok (codes "alice"))
unfolding proxystack_go.Prelude.lookup proxystack_go.Prelude.put proxystack_go.Prelude.contains
    proxystack_go.Prelude.add proxystack_go.Prelude.text_eq proxystack_go.Prelude.text_lt
    proxystack_go.Prelude.strip_prefix proxystack_go.Prelude.has_prefix
    proxystack_go.Prelude.has_infix proxystack_go.Prelude.decimal
    proxystack_go.Prelude.Sort.insert_by proxystack_go.Prelude.Sort.sort_by
    proxystack_go.Prelude.traverse proxystack_go.Config.Values.◌then◌
    proxystack_go.Config.Values.refuse_if proxystack_go.Config.Values.is_word_byte
    proxystack_go.Config.Values.are_identifier_bytes proxystack_go.Config.Values.matches_identifier
    proxystack_go.Config.Values.matches_region proxystack_go.Config.Values.matches_classes
    proxystack_go.Config.Values.matches_uuid proxystack_go.Config.Values.validate_identifier
    proxystack_go.Config.Values.validate_port proxystack_go.Config.Values.validate_ref
    proxystack_go.Config.Values.first_repeated proxystack_go.Config.Values.ensure_unique
    proxystack_go.Config.Values.valid_inbound_protocol
    proxystack_go.Config.Values.supports_inbound_udp_protocol
    proxystack_go.Config.Values.valid_xray_log_level
    proxystack_go.Config.Values.shadowsocks2022_key_length
    proxystack_go.Config.Values.is_shadowsocks2022_method
    proxystack_go.Config.Values.validate_shadowsocks2022_psk proxystack_go.Sub.validate_node_auth
    proxystack_go.Sub.supports_subscription_udp_protocol proxystack_go.Sub.normalize_direct_protocol
    proxystack_go.Sub.apply_direct_aliases proxystack_go.Sub.bad_region
    proxystack_go.Sub.validate_direct proxystack_go.Sub.validate_node_protocol
    proxystack_go.Sub.check_node_auth proxystack_go.Sub.validate_rendered
    proxystack_go.Sub.validate_node proxystack_go.Sub.with_server
    proxystack_go.Sub.resolve_external_host_default proxystack_go.Sub.proxy_name_key
    proxystack_go.Sub.validate_nodes proxystack_go.Sub.validate_input
    proxystack_go.Sub.validate_access proxystack_go.Sub.normalized_access
    proxystack_go.Sub.first_invalid proxystack_go.Sub.validate_index
    proxystack_go.Sub.Merge.nodes_of proxystack_go.Sub.Merge.group_nodes
    proxystack_go.Sub.Merge.copy_users proxystack_go.Sub.Merge.ordered_users
    proxystack_go.Sub.Merge.assembled proxystack_go.Sub.Merge.validated
    proxystack_go.Sub.Merge.build_index proxystack_go.Sub.Merge.duplicate_id
    proxystack_go.Sub.Merge.duplicate_name proxystack_go.Sub.Merge.recorded
    proxystack_go.Sub.Merge.merge_node proxystack_go.Sub.Merge.merge_nodes
    proxystack_go.Sub.Merge.merge_file proxystack_go.Sub.Merge.merge_files
    proxystack_go.Sub.Merge.merge_inputs proxystack_go.Sub.Merge.Unique.input_nodes
    proxystack_go.Prelude.Paths.trim_left proxystack_go.Prelude.Paths.trim_right
    proxystack_go.Prelude.Paths.trim_both proxystack_go.Prelude.Paths.onto_part
    proxystack_go.Prelude.Paths.split_on proxystack_go.Prelude.Paths.last_part
    proxystack_go.Prelude.Paths.base_name proxystack_go.Prelude.Paths.extension_from
    proxystack_go.Prelude.Paths.extension proxystack_go.Prelude.Paths.join_path
    proxystack_go.Config.Listen.count_colons proxystack_go.Config.Listen.split_colon
    proxystack_go.Config.Listen.host_and_port proxystack_go.Config.Listen.parse_port
    proxystack_go.Config.Listen.parse_listen proxystack_go.Config.Listen.is_loopback_host
    proxystack_go.Config.Listen.check_services proxystack_go.Config.Listen.check_api_host
    proxystack_go.Config.Listen.validate_api_config proxystack_go.Config.Listen.merge_api
    proxystack_go.Config.Listen.resolve_xray_api_config proxystack_go.Config.Inbounds.validate_auth
    proxystack_go.Config.Inbounds.has_field proxystack_go.Config.Inbounds.tag_or_default
    proxystack_go.Config.Inbounds.udp_configured proxystack_go.Config.Inbounds.uses_user_refs
    proxystack_go.Config.Inbounds.method_or_cipher proxystack_go.Config.Inbounds.user_tag
    proxystack_go.Config.Inbounds.user_names proxystack_go.Config.Inbounds.check_vmess_users
    proxystack_go.Config.Inbounds.validate_vmess proxystack_go.Config.Inbounds.check_user_psks
    proxystack_go.Config.Inbounds.validate_shadowsocks2022_passwords
    proxystack_go.Config.Inbounds.check_shadowsocks_users
    proxystack_go.Config.Inbounds.validate_shadowsocks_users
    proxystack_go.Config.Inbounds.validate_shadowsocks
    proxystack_go.Config.Inbounds.has_password_auth proxystack_go.Config.Inbounds.validate_plain
    proxystack_go.Config.Inbounds.validate_protocol proxystack_go.Config.Inbounds.check_auth
    proxystack_go.Config.Inbounds.check_user_refs proxystack_go.Config.Inbounds.validate_inbound
    proxystack_go.Config.Inbounds.validate_outbound_target
    proxystack_go.Config.Inbounds.validate_outbound proxystack_go.Config.Inbounds.validate_inbounds
    proxystack_go.Config.Inbounds.validate_xray proxystack_go.SubServer.new_state
    proxystack_go.SubServer.failed proxystack_go.SubServer.replaced proxystack_go.SubServer.stored
    proxystack_go.SubServer.merged_index proxystack_go.SubServer.load proxystack_go.SubServer.reload
    proxystack_go.SubServer.snapshot proxystack_go.SubServer.Settings.default_log
    proxystack_go.SubServer.Settings.validate_log
    proxystack_go.SubServer.Settings.validate_access_config
    proxystack_go.SubServer.Settings.default_managed proxystack_go.SubServer.Settings.is_set
    proxystack_go.SubServer.Settings.enabled_value proxystack_go.SubServer.Settings.strict_value
    proxystack_go.SubServer.Settings.check_url proxystack_go.SubServer.Settings.validate_managed
    proxystack_go.SubServer.Settings.or_true proxystack_go.SubServer.Settings.default_interval
    proxystack_go.SubServer.Settings.apply_defaults proxystack_go.SubServer.Settings.is_at_most_zero
    proxystack_go.SubServer.Settings.equals_zero proxystack_go.Prelude.is_above_zero
    proxystack_go.Prelude.is_zero proxystack_go.SubServer.Settings.is_negative
    proxystack_go.SubServer.Settings.validate_settings
    proxystack_go.SubServer.Settings.validate_sub_server
    proxystack_go.SubServer.Requests.route_prefix proxystack_go.SubServer.Requests.path_of_parts
    proxystack_go.SubServer.Requests.parse_subscription_path
    proxystack_go.SubServer.Requests.authorize proxystack_go.SubServer.Requests.not_found
    proxystack_go.SubServer.Requests.scheme_of proxystack_go.SubServer.Requests.managed_config_url
    proxystack_go.SubServer.Requests.health_handler proxystack_go.SubServer.Requests.managed_url
    proxystack_go.SubServer.Requests.rendered_response proxystack_go.SubServer.Requests.answer_user
    proxystack_go.SubServer.Requests.subscription_handler
    proxystack_go.SubServer.Requests.subscription_log_user
subscription_handler_example =
    subscription_handler_lem renderers (λ t. t) holding config clash request refl

subscription_handler-token_example :
    (user : Text) × (parse_subscription_path request.rest ≡ some (config.access.token, user))
    × (is_empty config.access.token ≡ false)
unfolding proxystack_go.Prelude.lookup proxystack_go.Prelude.put proxystack_go.Prelude.contains
    proxystack_go.Prelude.add proxystack_go.Prelude.text_eq proxystack_go.Prelude.text_lt
    proxystack_go.Prelude.strip_prefix proxystack_go.Prelude.has_prefix
    proxystack_go.Prelude.has_infix proxystack_go.Prelude.decimal
    proxystack_go.Prelude.Sort.insert_by proxystack_go.Prelude.Sort.sort_by
    proxystack_go.Prelude.traverse proxystack_go.Config.Values.◌then◌
    proxystack_go.Config.Values.refuse_if proxystack_go.Config.Values.is_word_byte
    proxystack_go.Config.Values.are_identifier_bytes proxystack_go.Config.Values.matches_identifier
    proxystack_go.Config.Values.matches_region proxystack_go.Config.Values.matches_classes
    proxystack_go.Config.Values.matches_uuid proxystack_go.Config.Values.validate_identifier
    proxystack_go.Config.Values.validate_port proxystack_go.Config.Values.validate_ref
    proxystack_go.Config.Values.first_repeated proxystack_go.Config.Values.ensure_unique
    proxystack_go.Config.Values.valid_inbound_protocol
    proxystack_go.Config.Values.supports_inbound_udp_protocol
    proxystack_go.Config.Values.valid_xray_log_level
    proxystack_go.Config.Values.shadowsocks2022_key_length
    proxystack_go.Config.Values.is_shadowsocks2022_method
    proxystack_go.Config.Values.validate_shadowsocks2022_psk proxystack_go.Sub.validate_node_auth
    proxystack_go.Sub.supports_subscription_udp_protocol proxystack_go.Sub.normalize_direct_protocol
    proxystack_go.Sub.apply_direct_aliases proxystack_go.Sub.bad_region
    proxystack_go.Sub.validate_direct proxystack_go.Sub.validate_node_protocol
    proxystack_go.Sub.check_node_auth proxystack_go.Sub.validate_rendered
    proxystack_go.Sub.validate_node proxystack_go.Sub.with_server
    proxystack_go.Sub.resolve_external_host_default proxystack_go.Sub.proxy_name_key
    proxystack_go.Sub.validate_nodes proxystack_go.Sub.validate_input
    proxystack_go.Sub.validate_access proxystack_go.Sub.normalized_access
    proxystack_go.Sub.first_invalid proxystack_go.Sub.validate_index
    proxystack_go.Sub.Merge.nodes_of proxystack_go.Sub.Merge.group_nodes
    proxystack_go.Sub.Merge.copy_users proxystack_go.Sub.Merge.ordered_users
    proxystack_go.Sub.Merge.assembled proxystack_go.Sub.Merge.validated
    proxystack_go.Sub.Merge.build_index proxystack_go.Sub.Merge.duplicate_id
    proxystack_go.Sub.Merge.duplicate_name proxystack_go.Sub.Merge.recorded
    proxystack_go.Sub.Merge.merge_node proxystack_go.Sub.Merge.merge_nodes
    proxystack_go.Sub.Merge.merge_file proxystack_go.Sub.Merge.merge_files
    proxystack_go.Sub.Merge.merge_inputs proxystack_go.Sub.Merge.Unique.input_nodes
    proxystack_go.Prelude.Paths.trim_left proxystack_go.Prelude.Paths.trim_right
    proxystack_go.Prelude.Paths.trim_both proxystack_go.Prelude.Paths.onto_part
    proxystack_go.Prelude.Paths.split_on proxystack_go.Prelude.Paths.last_part
    proxystack_go.Prelude.Paths.base_name proxystack_go.Prelude.Paths.extension_from
    proxystack_go.Prelude.Paths.extension proxystack_go.Prelude.Paths.join_path
    proxystack_go.Config.Listen.count_colons proxystack_go.Config.Listen.split_colon
    proxystack_go.Config.Listen.host_and_port proxystack_go.Config.Listen.parse_port
    proxystack_go.Config.Listen.parse_listen proxystack_go.Config.Listen.is_loopback_host
    proxystack_go.Config.Listen.check_services proxystack_go.Config.Listen.check_api_host
    proxystack_go.Config.Listen.validate_api_config proxystack_go.Config.Listen.merge_api
    proxystack_go.Config.Listen.resolve_xray_api_config proxystack_go.Config.Inbounds.validate_auth
    proxystack_go.Config.Inbounds.has_field proxystack_go.Config.Inbounds.tag_or_default
    proxystack_go.Config.Inbounds.udp_configured proxystack_go.Config.Inbounds.uses_user_refs
    proxystack_go.Config.Inbounds.method_or_cipher proxystack_go.Config.Inbounds.user_tag
    proxystack_go.Config.Inbounds.user_names proxystack_go.Config.Inbounds.check_vmess_users
    proxystack_go.Config.Inbounds.validate_vmess proxystack_go.Config.Inbounds.check_user_psks
    proxystack_go.Config.Inbounds.validate_shadowsocks2022_passwords
    proxystack_go.Config.Inbounds.check_shadowsocks_users
    proxystack_go.Config.Inbounds.validate_shadowsocks_users
    proxystack_go.Config.Inbounds.validate_shadowsocks
    proxystack_go.Config.Inbounds.has_password_auth proxystack_go.Config.Inbounds.validate_plain
    proxystack_go.Config.Inbounds.validate_protocol proxystack_go.Config.Inbounds.check_auth
    proxystack_go.Config.Inbounds.check_user_refs proxystack_go.Config.Inbounds.validate_inbound
    proxystack_go.Config.Inbounds.validate_outbound_target
    proxystack_go.Config.Inbounds.validate_outbound proxystack_go.Config.Inbounds.validate_inbounds
    proxystack_go.Config.Inbounds.validate_xray proxystack_go.SubServer.new_state
    proxystack_go.SubServer.failed proxystack_go.SubServer.replaced proxystack_go.SubServer.stored
    proxystack_go.SubServer.merged_index proxystack_go.SubServer.load proxystack_go.SubServer.reload
    proxystack_go.SubServer.snapshot proxystack_go.SubServer.Settings.default_log
    proxystack_go.SubServer.Settings.validate_log
    proxystack_go.SubServer.Settings.validate_access_config
    proxystack_go.SubServer.Settings.default_managed proxystack_go.SubServer.Settings.is_set
    proxystack_go.SubServer.Settings.enabled_value proxystack_go.SubServer.Settings.strict_value
    proxystack_go.SubServer.Settings.check_url proxystack_go.SubServer.Settings.validate_managed
    proxystack_go.SubServer.Settings.or_true proxystack_go.SubServer.Settings.default_interval
    proxystack_go.SubServer.Settings.apply_defaults proxystack_go.SubServer.Settings.is_at_most_zero
    proxystack_go.SubServer.Settings.equals_zero proxystack_go.Prelude.is_above_zero
    proxystack_go.Prelude.is_zero proxystack_go.SubServer.Settings.is_negative
    proxystack_go.SubServer.Settings.validate_settings
    proxystack_go.SubServer.Settings.validate_sub_server
    proxystack_go.SubServer.Requests.route_prefix proxystack_go.SubServer.Requests.path_of_parts
    proxystack_go.SubServer.Requests.parse_subscription_path
    proxystack_go.SubServer.Requests.authorize proxystack_go.SubServer.Requests.not_found
    proxystack_go.SubServer.Requests.scheme_of proxystack_go.SubServer.Requests.managed_config_url
    proxystack_go.SubServer.Requests.health_handler proxystack_go.SubServer.Requests.managed_url
    proxystack_go.SubServer.Requests.rendered_response proxystack_go.SubServer.Requests.answer_user
    proxystack_go.SubServer.Requests.subscription_handler
    proxystack_go.SubServer.Requests.subscription_log_user
subscription_handler-token_example =
    subscription_handler-token renderers (λ t. t) parse_url net holding config clash request
      {host = codes "0.0.0.0"} {port = 3003} {text = codes "alice"} refl refl refl refl

abbrev one_entry : Option (List FileEntry)
one_entry = some (record { name = codes "a.yaml"; is_dir = false; mod_time = some 7 } ∷ [])

abbrev at_rest : Loop
at_rest = started one_entry

run-reloads_example :
    at_rest.reloads
    < (run
        (notified (codes "/sub/inputs/a.yaml") true ∷ (ticked one_entry ∷ watch_error ∷ [])
          ++ elapsed one_entry ∷ [])
        at_rest).reloads
unfolding proxystack_go.Prelude.lookup proxystack_go.Prelude.put proxystack_go.Prelude.contains
    proxystack_go.Prelude.add proxystack_go.Prelude.text_eq proxystack_go.Prelude.text_lt
    proxystack_go.Prelude.strip_prefix proxystack_go.Prelude.has_prefix
    proxystack_go.Prelude.has_infix proxystack_go.Prelude.decimal
    proxystack_go.Prelude.Sort.insert_by proxystack_go.Prelude.Sort.sort_by
    proxystack_go.Prelude.traverse proxystack_go.Config.Values.◌then◌
    proxystack_go.Config.Values.refuse_if proxystack_go.Config.Values.is_word_byte
    proxystack_go.Config.Values.are_identifier_bytes proxystack_go.Config.Values.matches_identifier
    proxystack_go.Config.Values.matches_region proxystack_go.Config.Values.matches_classes
    proxystack_go.Config.Values.matches_uuid proxystack_go.Config.Values.validate_identifier
    proxystack_go.Config.Values.validate_port proxystack_go.Config.Values.validate_ref
    proxystack_go.Config.Values.first_repeated proxystack_go.Config.Values.ensure_unique
    proxystack_go.Config.Values.valid_inbound_protocol
    proxystack_go.Config.Values.supports_inbound_udp_protocol
    proxystack_go.Config.Values.valid_xray_log_level
    proxystack_go.Config.Values.shadowsocks2022_key_length
    proxystack_go.Config.Values.is_shadowsocks2022_method
    proxystack_go.Config.Values.validate_shadowsocks2022_psk proxystack_go.Sub.validate_node_auth
    proxystack_go.Sub.supports_subscription_udp_protocol proxystack_go.Sub.normalize_direct_protocol
    proxystack_go.Sub.apply_direct_aliases proxystack_go.Sub.bad_region
    proxystack_go.Sub.validate_direct proxystack_go.Sub.validate_node_protocol
    proxystack_go.Sub.check_node_auth proxystack_go.Sub.validate_rendered
    proxystack_go.Sub.validate_node proxystack_go.Sub.with_server
    proxystack_go.Sub.resolve_external_host_default proxystack_go.Sub.proxy_name_key
    proxystack_go.Sub.validate_nodes proxystack_go.Sub.validate_input
    proxystack_go.Sub.validate_access proxystack_go.Sub.normalized_access
    proxystack_go.Sub.first_invalid proxystack_go.Sub.validate_index
    proxystack_go.Sub.Merge.nodes_of proxystack_go.Sub.Merge.group_nodes
    proxystack_go.Sub.Merge.copy_users proxystack_go.Sub.Merge.ordered_users
    proxystack_go.Sub.Merge.assembled proxystack_go.Sub.Merge.validated
    proxystack_go.Sub.Merge.build_index proxystack_go.Sub.Merge.duplicate_id
    proxystack_go.Sub.Merge.duplicate_name proxystack_go.Sub.Merge.recorded
    proxystack_go.Sub.Merge.merge_node proxystack_go.Sub.Merge.merge_nodes
    proxystack_go.Sub.Merge.merge_file proxystack_go.Sub.Merge.merge_files
    proxystack_go.Sub.Merge.merge_inputs proxystack_go.Sub.Merge.Unique.input_nodes
    proxystack_go.Prelude.Paths.trim_left proxystack_go.Prelude.Paths.trim_right
    proxystack_go.Prelude.Paths.trim_both proxystack_go.Prelude.Paths.onto_part
    proxystack_go.Prelude.Paths.split_on proxystack_go.Prelude.Paths.last_part
    proxystack_go.Prelude.Paths.base_name proxystack_go.Prelude.Paths.extension_from
    proxystack_go.Prelude.Paths.extension proxystack_go.Prelude.Paths.join_path
    proxystack_go.SubServer.Watcher.starts_with_dot proxystack_go.SubServer.Watcher.is_input_change
    proxystack_go.SubServer.Watcher.scan_entries proxystack_go.SubServer.Watcher.scan_snapshot
    proxystack_go.SubServer.Watcher.times_agree proxystack_go.SubServer.Watcher.same_snapshot
    proxystack_go.SubServer.Watcher.schedule_reload proxystack_go.SubServer.Watcher.on_tick
    proxystack_go.SubServer.Watcher.on_elapsed proxystack_go.SubServer.Watcher.is_change
    proxystack_go.SubServer.Watcher.step proxystack_go.SubServer.Watcher.run
    proxystack_go.SubServer.Watcher.started proxystack_go.SubServer.Watcher.watcher_interval
    proxystack_go.SubServer.Watcher.watcher_debounce proxystack_go.SubServer.Changes.noticed_changes
run-reloads_example =
    run-reloads at_rest (notified (codes "/sub/inputs/a.yaml") true)
      (ticked one_entry ∷ watch_error ∷ []) one_entry refl refl refl

run-started_example :
    (run (ticked none ∷ elapsed one_entry ∷ elapsed none ∷ []) (started one_entry)).reloads
    ≤ noticed_changes (ticked none ∷ elapsed one_entry ∷ elapsed none ∷ []) (started one_entry)
run-started_example = run-started one_entry (ticked none ∷ elapsed one_entry ∷ elapsed none ∷ [])

same_snapshot_example :
    (same_snapshot (scan_snapshot one_entry) (scan_snapshot none) ≡ true)
    ↔ ((name : Text) → lookup (scan_snapshot one_entry) name ≡ lookup (scan_snapshot none) name)
same_snapshot_example = same_snapshot_lem one_entry none

abbrev no_bool : Yaml → Option Bool
no_bool value = none

build_surge_template_context_example :
    let supported = filter_surge_supported_nodes (λ t. t) no_bool (home_node ∷ away_node ∷ []) in
    let context = build_surge_template_context (λ t. t) no_bool (home_node ∷ away_node ∷ []) in
    (context.proxy_lines ≡ map (render_surge_proxy (λ t. t) no_bool) supported)
    × (context.proxy_names ≡ map (λ n. n.remark) supported)
    × (any is_empty context.proxy_lines ≡ false)
    × ((region : Text) → names_under context.region_groups region ≡ remarks_in region supported)
    × IsNodup (regions_of context.region_groups)
    × (any (λ group. is_empty group.proxy_names) context.region_groups ≡ false)
build_surge_template_context_example =
    build_surge_template_context_lem (λ t. t) no_bool (home_node ∷ away_node ∷ [])
