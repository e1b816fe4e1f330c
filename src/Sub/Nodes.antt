-- ===== src/Sub/Nodes.antt =====
-- internal/generator/sub/input.go: the nodes that the agent renders from its published inbounds.
-- subscriptionRemark and renderDisplayTemplate are those of Config.Names, with the same code.
use proxystack_go.Prelude.{
  Text, Text_eq, codes, is_empty, if◌then◌else◌, false, not, ◌&&◌, ◌||◌, ◌==◌, List, [], ◌∷◌, ◌++◌,
  Option, none, some, Answer, ok, error, ◌>>=◌, ◌>>◌, traverse,
}
use proxystack_go.Domain.{Inbound, InboundUser, Stack, StackSet}
use proxystack_go.Config.Values.{is_shadowsocks2022_method}
use proxystack_go.Config.Users.{default_user_profile, first_non_empty, profile_or_default}
use proxystack_go.Config.Inbounds.{tag_or_default, udp_configured, method_or_cipher}
use proxystack_go.Config.Names.{Templates, subscription_remark}
use proxystack_go.Config.Resolve.{by_name, resolve_stack_set_user_refs}
use proxystack_go.Sub.{
  input_schema_name, current_input_version, Auth, Node, Input, validate_node, validate_input,
}

unfoldable pub subscription_server : StackSet → Inbound → Text
subscription_server set inbound =
    if not (is_empty inbound.server) then inbound.server else set.config.external_host

unfoldable pub shadowsocks_node_password : Inbound → InboundUser → Text
shadowsocks_node_password inbound user =
    if is_shadowsocks2022_method (method_or_cipher inbound)
    then inbound.password ++ codes ":" ++ user.password
    else user.password

unfoldable pub apply_inbound_udp : Node → Inbound → Node
apply_inbound_udp node inbound =
    if udp_configured inbound then record node { udp = some inbound.udp } else node

-- The fields that every kind of node sets, the others being empty.
unfoldable pub plain_node : StackSet → Inbound → Text → Text → Text → Text → Node
plain_node set inbound id user tag remark = record {
  id = id;
  user = user;
  direct = false;
  protocol = inbound.protocol;
  server = subscription_server set inbound;
  port = inbound.port;
  tag = tag;
  remark = remark;
  uuid = [];
  network = [];
  ws_opts = none;
  grpc_opts = none;
  method = [];
  cipher = [];
  password = [];
  udp = none;
  auth = none;
  region = inbound.region;
  raw_fields = [];
}

unfoldable pub node_auth : Inbound → Option Auth
node_auth inbound = elim inbound.auth [
  | none ↦ none
  | some a ↦ some (record { type = a.type; username = a.username; password = a.password })
]

-- `if err := node.Validate(); err != nil { return Node{}, err }` and the node.
unfoldable pub checked_node : Node → Answer Node
checked_node node = validate_node node >> ok node

unfoldable pub single_user : Inbound → Text
single_user inbound = if is_empty inbound.user then codes "default" else inbound.user

unfoldable pub user_node_tag : Inbound → InboundUser → Text
user_node_tag inbound user =
    if is_empty user.tag then tag_or_default inbound ++ codes ":" ++ user.user else user.tag

unfoldable pub user_node_id : Stack → Inbound → InboundUser → Text
user_node_id stack inbound user = stack.name ++ codes ":" ++ inbound.name ++ codes ":" ++ user.user

-- The switch over the protocols of renderSingleInboundNode.
unfoldable pub with_single_credentials : Node → Inbound → Node
with_single_credentials node inbound =
    if inbound.protocol == codes "shadowsocks"
    then record node {
      method = method_or_cipher inbound;
      cipher = method_or_cipher inbound;
      password = inbound.password;
    }
    else if inbound.protocol == codes "socks5" || inbound.protocol == codes "http"
    then record node { auth = node_auth inbound }
    else node

-- `return input, input.Validate()`
unfoldable pub validated_input : Text → Text → List Node → Answer Input
validated_input source generated_at nodes =
    let input : Input = record {
      input_schema = input_schema_name;
      input_version = current_input_version;
      source = source;
      generated_at = generated_at;
      external_host = [];
      nodes = nodes;
    } in
    validate_input input >> ok input

module _ (templates : Templates) where
  unfoldable pub render_single_inbound_node : StackSet → Stack → Inbound → Answer Node
  render_single_inbound_node set stack inbound =
      subscription_remark templates stack.name inbound (single_user inbound) default_user_profile
        inbound.remark inbound.display_template
      >>= λ remark. checked_node (
          with_single_credentials
            (apply_inbound_udp
              (plain_node set inbound (stack.name ++ codes ":" ++ inbound.name)
                (single_user inbound) (tag_or_default inbound) remark)
              inbound)
            inbound)

  unfoldable pub user_remark : Stack → Inbound → InboundUser → Answer Text
  user_remark stack inbound user =
      subscription_remark templates stack.name inbound user.user (profile_or_default user)
        (first_non_empty user.remark inbound.remark)
        (first_non_empty user.display_template inbound.display_template)

  unfoldable pub user_node : StackSet → Stack → Inbound → InboundUser → Text → Node
  user_node set stack inbound user remark =
      plain_node set inbound (user_node_id stack inbound user) user.user
        (user_node_tag inbound user) remark

  unfoldable pub render_vmess_user_node : StackSet → Stack → Inbound → InboundUser → Answer Node
  render_vmess_user_node set stack inbound user = user_remark stack inbound user >>= λ remark.
      checked_node (
        apply_inbound_udp
          (record (user_node set stack inbound user remark) {
            uuid = user.uuid;
            network = inbound.network;
            ws_opts = inbound.ws_opts;
            grpc_opts = inbound.grpc_opts;
          })
          inbound)

  unfoldable pub render_shadowsocks_user_node :
      StackSet → Stack → Inbound → InboundUser → Answer Node
  render_shadowsocks_user_node set stack inbound user =
      let method =
        first_non_empty user.method (first_non_empty user.cipher (method_or_cipher inbound)) in
      user_remark stack inbound user >>= λ remark. checked_node (
        apply_inbound_udp
          (record (user_node set stack inbound user remark) {
            method = method;
            cipher = method;
            password = shadowsocks_node_password inbound user;
          })
          inbound)

  unfoldable pub render_generic_user_node : StackSet → Stack → Inbound → InboundUser → Answer Node
  render_generic_user_node set stack inbound user = user_remark stack inbound user >>= λ remark.
      checked_node (record (apply_inbound_udp (user_node set stack inbound user remark) inbound) {
        auth = node_auth inbound;
      })

  unfoldable pub render_inbound_nodes : StackSet → Stack → Inbound → Answer (List Node)
  render_inbound_nodes set stack inbound =
      if inbound.protocol == codes "vmess"
      then traverse (render_vmess_user_node set stack inbound) inbound.users
      else if inbound.protocol == codes "shadowsocks" && not (is_empty inbound.users)
      then traverse (render_shadowsocks_user_node set stack inbound) inbound.users
      else if (inbound.protocol == codes "socks5" || inbound.protocol == codes "http")
          && not (is_empty inbound.users)
      then traverse (render_generic_user_node set stack inbound) inbound.users
      else render_single_inbound_node set stack inbound >>= λ node. ok (node ∷ [])

  -- The loop of renderStackNodes.
  unfoldable pub render_inbounds : StackSet → Stack → List Inbound → Answer (List Node)
  render_inbounds set stack [] = ok []
  render_inbounds set stack (inbound ∷ inbounds) =
      let rest = render_inbounds set stack inbounds in
      if not inbound.sub
      then rest
      else render_inbound_nodes set stack inbound >>= λ nodes.
          rest >>= λ others. ok (nodes ++ others)

  unfoldable pub render_stack_nodes : StackSet → Stack → Answer (List Node)
  render_stack_nodes set stack =
      if not stack.enabled || not stack.xray.enabled
      then ok []
      else render_inbounds set stack stack.xray.inbounds

  -- The loop of RenderStackInputAt.
  unfoldable pub render_stacks : StackSet → List Stack → Answer (List Node)
  render_stacks set [] = ok []
  render_stacks set (stack ∷ stacks) =
      let rest = render_stacks set stacks in
      if not stack.enabled || not stack.xray.enabled
      then rest
      else render_stack_nodes set stack >>= λ nodes. rest >>= λ others. ok (nodes ++ others)

  unfoldable pub render_stack_input_at :
      (Text → Text) → (Text → Option Text) → StackSet → Text → Text → Answer Input
  render_stack_input_at to_lower decode set source generated_at =
      resolve_stack_set_user_refs to_lower decode set >>= λ resolved.
      render_stacks resolved resolved.stacks >>= λ nodes.
      validated_input (first_non_empty source (codes "local")) generated_at nodes

  unfoldable pub render_single_stack_input_at :
      (Text → Text) → (Text → Option Text) → StackSet → Text → Text → Answer Input
  render_single_stack_input_at to_lower decode set stack_name generated_at =
      resolve_stack_set_user_refs to_lower decode set >>= λ resolved.
      (elim (by_name resolved.stacks stack_name) [
        | none ↦ error (codes "stack does not exist: " ++ stack_name)
        | some stack ↦ render_stack_nodes resolved stack >>= λ nodes.
            validated_input stack_name generated_at nodes
      ])
