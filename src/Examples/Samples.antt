-- ===== src/Examples/Samples.antt =====
-- internal/domain: two stacks, of which the first one's Xray sends to the second one's Clash.
use proxystack_go.Prelude.{codes, [], ◌∷◌, none, some, true, false}
use proxystack_go.Domain.{
  Inbound, InboundAuth, InboundUser, XrayOutbound, XrayApiConfig, XrayConfig, ClashController,
  ClashListener, ClashListeners, ClashRules, Stack, XrayStatsConfig, XrayPolicySystemConfig,
  XrayPolicyConfig, PortRanges, GlobalConfig, StackSet,
}

abbrev pub no_api : XrayApiConfig
no_api = record { enabled = false; tag = codes "api"; listen = []; services = []; fields = none }

abbrev pub password_auth : InboundAuth
password_auth = record { type = codes "password"; username = codes "u"; password = codes "p" }

abbrev pub socks_inbound : Inbound
socks_inbound = record {
  name = codes "in";
  protocol = codes "socks5";
  listen = codes "0.0.0.0";
  port = 1080;
  udp = false;
  auth = some password_auth;
  user = [];
  server = [];
  remark = [];
  display_template = [];
  region = codes "DE";
  tag = [];
  sub = true;
  uuid = [];
  users = [];
  user_refs = [];
  network = [];
  password = [];
  method = [];
  cipher = [];
  ws_opts = none;
  grpc_opts = none;
  fields = none;
}

abbrev pub alice : InboundUser
alice = record {
  user = codes "alice";
  profile = [];
  uuid = codes "11111111-2222-4333-8444-555555555555";
  password = [];
  method = [];
  cipher = [];
  email = [];
  remark = [];
  display_template = [];
  tag = [];
}

abbrev pub vmess_inbound : Inbound
vmess_inbound = record {
  name = codes "vm";
  protocol = codes "vmess";
  listen = codes "0.0.0.0";
  port = 2080;
  udp = false;
  auth = none;
  user = [];
  server = [];
  remark = [];
  display_template = [];
  region = [];
  tag = [];
  sub = false;
  uuid = [];
  users = alice ∷ [];
  user_refs = [];
  network = codes "tcp";
  password = [];
  method = [];
  cipher = [];
  ws_opts = none;
  grpc_opts = none;
  fields = none;
}

abbrev to_clash : XrayOutbound
to_clash = record {
  type = codes "clash";
  ref = codes "b.clash.socks";
  server = [];
  port = 0;
  username = [];
  password = [];
  private_direct = false;
}

abbrev pub direct : XrayOutbound
direct = record {
  type = codes "direct";
  ref = [];
  server = [];
  port = 0;
  username = [];
  password = [];
  private_direct = false;
}

abbrev no_listeners : ClashListeners
no_listeners = record { socks = []; http = []; fields = none }

abbrev no_controller : ClashController
no_controller = record { listen = []; secret = [] }

abbrev no_rules : ClashRules
no_rules = record { profile = []; final = []; extra = [] }

abbrev pub front_xray : XrayConfig
front_xray = record {
  enabled = true;
  loglevel = [];
  outbound = to_clash;
  inbounds = socks_inbound ∷ vmess_inbound ∷ [];
  api = none;
  stats = none;
  policy = none;
}

abbrev pub front : Stack
front = record {
  name = codes "a";
  enabled = true;
  role = [];
  labels = [];
  xray = front_xray;
  clash = record {
    enabled = false;
    mode = codes "Rule";
    loglevel = [];
    controller = no_controller;
    listeners = no_listeners;
    upstreams = [];
    groups = [];
    rules = no_rules;
  };
  source_path = [];
}

abbrev pub socks_listener : ClashListener
socks_listener = record {
  name = codes "s";
  listen = codes "127.0.0.1";
  port = 7000;
  users = [];
  has_users = false;
}

abbrev pub back : Stack
back = record {
  name = codes "b";
  enabled = true;
  role = [];
  labels = [];
  xray = record {
    enabled = false;
    loglevel = [];
    outbound = direct;
    inbounds = [];
    api = none;
    stats = none;
    policy = none;
  };
  clash = record {
    enabled = true;
    mode = codes "Rule";
    loglevel = [];
    controller = no_controller;
    listeners = record { socks = socks_listener ∷ []; http = []; fields = none };
    upstreams = [];
    groups = [];
    rules = no_rules;
  };
  source_path = [];
}

abbrev no_stats : XrayStatsConfig
no_stats = record { enabled = false; fields = none }

abbrev no_policy_system : XrayPolicySystemConfig
no_policy_system = record {
  stats_inbound_uplink = none;
  stats_inbound_downlink = none;
  stats_outbound_uplink = none;
  stats_outbound_downlink = none;
  fields = none;
}

abbrev no_policy : XrayPolicyConfig
no_policy = record { enabled = false; levels = []; system = no_policy_system; fields = none }

abbrev default_port_ranges : PortRanges
default_port_ranges = record {
  xray_inbound = record { start = 20000; end = 29999 };
  clash_socks = record { start = 31000; end = 31999 };
  clash_http = record { start = 32000; end = 32999 };
  xray_api_range = record { start = 33000; end = 33999 };
  clash_controller = record { start = 34000; end = 34999 };
}

abbrev pub global : GlobalConfig
global = record {
  version = 1;
  base_dir = codes "/opt/proxystack";
  paths = record {
    stacks = codes "/opt/proxystack/stacks";
    runtime = codes "/opt/proxystack/runtime";
    sub = codes "/opt/proxystack/sub";
  };
  external_host = codes "proxy.example.com";
  subscription_source = codes "local";
  users = [];
  port_ranges = default_port_ranges;
  default_clash = record {
    mode = codes "Rule";
    loglevel = codes "warning";
    rule_profile = codes "default";
  };
  default_xray = record {
    loglevel = codes "warning";
    api = no_api;
    stats = no_stats;
    policy = no_policy;
  };
  security = record { require_auth_for_public_socks_http = true; allow_noauth_public = false };
}

abbrev pub two_stacks : StackSet
two_stacks = record { config = global; stacks = front ∷ back ∷ []; disabled_users = none }
