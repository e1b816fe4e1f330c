-- ===== src/Domain.antt =====
-- internal/domain/models.go: the configuration that is loaded from config.yaml and stacks/*.yaml.
-- The install settings, which no modelled operation reads, are left out.
-- A port is a natural number: validation refuses a negative one as it refuses 0.
-- The private maps `fields`, which record the YAML keys that were present, are `none` for Go's nil.
use proxystack_go.Prelude.{ℤ, Text, ℕ, Bool, List, Option, Map}
use proxystack_go.Yaml.{Yaml}

-- UserProfile: a user of config.yaml.
pub record UserProfile : Type 0 where
  pub user : Text
  pub profile : Text
  pub uuid : Text
  pub password : Text
  pub method : Text
  pub cipher : Text
  pub email : Text
  pub remark : Text
  pub display_template : Text
  pub tag : Text

pub record InboundAuth : Type 0 where
  pub type : Text
  pub username : Text
  pub password : Text

pub record InboundUser : Type 0 where
  pub user : Text
  pub profile : Text
  pub uuid : Text
  pub password : Text
  pub method : Text
  pub cipher : Text
  pub email : Text
  pub remark : Text
  pub display_template : Text
  pub tag : Text

pub record InboundUserRef : Type 0 where
  pub user : Text
  pub profile : Text
  pub uuid : Text
  pub password : Text
  pub method : Text
  pub cipher : Text
  pub email : Text
  pub remark : Text
  pub display_template : Text
  pub tag : Text

pub record WebSocketOptions : Type 0 where
  pub path : Text
  pub headers : Map Text Text

pub record GrpcOptions : Type 0 where
  pub service_name : Text

pub record Inbound : Type 0 where
  pub name : Text
  pub protocol : Text
  pub listen : Text
  pub port : ℕ
  pub udp : Bool
  pub auth : Option InboundAuth
  pub user : Text
  pub server : Text
  pub remark : Text
  pub display_template : Text
  pub region : Text
  pub tag : Text
  pub sub : Bool
  pub uuid : Text
  pub users : List InboundUser
  pub user_refs : List InboundUserRef
  pub network : Text
  pub password : Text
  pub method : Text
  pub cipher : Text
  pub ws_opts : Option WebSocketOptions
  pub grpc_opts : Option GrpcOptions
  pub fields : Option (List Text)

pub record XrayOutbound : Type 0 where
  pub type : Text
  pub ref : Text
  pub server : Text
  pub port : ℕ
  pub username : Text
  pub password : Text
  pub private_direct : Bool

pub record XrayApiConfig : Type 0 where
  pub enabled : Bool
  pub tag : Text
  pub listen : Text
  pub services : List Text
  pub fields : Option (List Text)

pub record XrayStatsConfig : Type 0 where
  pub enabled : Bool
  pub fields : Option (List Text)

-- A switch that is not set is `none`.
pub record XrayPolicySystemConfig : Type 0 where
  pub stats_inbound_uplink : Option Bool
  pub stats_inbound_downlink : Option Bool
  pub stats_outbound_uplink : Option Bool
  pub stats_outbound_downlink : Option Bool
  pub fields : Option (List Text)

pub record XrayPolicyLevelConfig : Type 0 where
  pub stats_user_uplink : Option Bool
  pub stats_user_downlink : Option Bool
  pub fields : Option (List Text)

pub record XrayPolicyConfig : Type 0 where
  pub enabled : Bool
  pub levels : Map Text XrayPolicyLevelConfig
  pub system : XrayPolicySystemConfig
  pub fields : Option (List Text)

pub record XrayConfig : Type 0 where
  pub enabled : Bool
  pub loglevel : Text
  pub outbound : XrayOutbound
  pub inbounds : List Inbound
  pub api : Option XrayApiConfig
  pub stats : Option XrayStatsConfig
  pub policy : Option XrayPolicyConfig

pub record ClashController : Type 0 where
  pub listen : Text
  pub secret : Text

pub record ClashListenerUser : Type 0 where
  pub username : Text
  pub password : Text

-- SocksListener and HTTPListener, which have the same fields; `has_users` says that `users` is not nil.
pub record ClashListener : Type 0 where
  pub name : Text
  pub listen : Text
  pub port : ℕ
  pub users : List ClashListenerUser
  pub has_users : Bool

pub record ClashListeners : Type 0 where
  pub socks : List ClashListener
  pub http : List ClashListener
  pub fields : Option (List Text)

-- A value of a `map[string]any`, as far as its kind is looked at.
pub data AnyValue : Type 0 where
  text : Text → AnyValue
  number : ℕ → AnyValue
  other : AnyValue

pub record ClashUpstream : Type 0 where
  pub name : Text
  pub type : Text
  pub ref : Text
  pub config : Map Text AnyValue
  pub config_node : Option Yaml

pub record ClashGroup : Type 0 where
  pub name : Text
  pub type : Text
  pub proxies : List Text
  pub url : Text
  pub interval : ℤ
  pub strategy : Text

pub record ClashRules : Type 0 where
  pub profile : Text
  pub final : Text
  pub extra : List Text

pub record ClashConfig : Type 0 where
  pub enabled : Bool
  pub mode : Text
  pub loglevel : Text
  pub controller : ClashController
  pub listeners : ClashListeners
  pub upstreams : List ClashUpstream
  pub groups : List ClashGroup
  pub rules : ClashRules

pub record Stack : Type 0 where
  pub name : Text
  pub enabled : Bool
  pub role : Text
  pub labels : List Text
  pub xray : XrayConfig
  pub clash : ClashConfig
  pub source_path : Text

pub record DefaultClashConfig : Type 0 where
  pub mode : Text
  pub loglevel : Text
  pub rule_profile : Text

pub record DefaultXrayConfig : Type 0 where
  pub loglevel : Text
  pub api : XrayApiConfig
  pub stats : XrayStatsConfig
  pub policy : XrayPolicyConfig

pub record SecurityConfig : Type 0 where
  pub require_auth_for_public_socks_http : Bool
  pub allow_noauth_public : Bool

pub record PortRange : Type 0 where
  pub start : ℕ
  pub end : ℕ

pub record PortRanges : Type 0 where
  pub xray_inbound : PortRange
  pub clash_socks : PortRange
  pub clash_http : PortRange
  pub xray_api_range : PortRange
  pub clash_controller : PortRange

-- ConfigPaths, as far as Validate reads it.
pub record ConfigPaths : Type 0 where
  pub stacks : Text
  pub runtime : Text
  pub sub : Text

-- The fields of `defaults` and `subscription` stand here.
pub record GlobalConfig : Type 0 where
  pub version : ℕ
  pub base_dir : Text
  pub paths : ConfigPaths
  pub external_host : Text
  pub subscription_source : Text
  pub users : List UserProfile
  pub port_ranges : PortRanges
  pub default_clash : DefaultClashConfig
  pub default_xray : DefaultXrayConfig
  pub security : SecurityConfig

-- The disabled users are a DisabledUserSet.
pub record StackSet : Type 0 where
  pub config : GlobalConfig
  pub stacks : List Stack
  pub disabled_users : Option (Map Text (List Text))
