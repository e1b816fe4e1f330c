-- ===== src/XrayConfig.antt =====
-- internal/generator/xray/config.go: the structure that is encoded as the JSON of an Xray service.
pub mod Inbounds
pub mod Outbounds
pub mod Render
pub mod Clients
use proxystack_go.Prelude.{ℕ, Text, Bool, List, Option, Map}
use proxystack_go.Domain.{WebSocketOptions, GrpcOptions}

pub record LogOutput : Type 0 where
  pub loglevel : Text

pub record ApiOutput : Type 0 where
  pub tag : Text
  pub listen : Text
  pub services : List Text

pub record PolicyLevel : Type 0 where
  pub stats_user_uplink : Option Bool
  pub stats_user_downlink : Option Bool

pub record PolicySystem : Type 0 where
  pub stats_inbound_uplink : Bool
  pub stats_inbound_downlink : Bool
  pub stats_outbound_uplink : Bool
  pub stats_outbound_downlink : Bool

-- The levels are `none` for nil.
pub record PolicyOutput : Type 0 where
  pub levels : Option (Map Text PolicyLevel)
  pub system : PolicySystem

pub record Account : Type 0 where
  pub user : Text
  pub pass : Text

pub record VmessClient : Type 0 where
  pub id : Text
  pub alter_id : ℕ
  pub email : Text

-- The settings of web sockets and gRPC are those of the inbound.
pub record StreamSettings : Type 0 where
  pub network : Text
  pub ws_settings : Option WebSocketOptions
  pub grpc_settings : Option GrpcOptions

pub record ShadowsocksClient : Type 0 where
  pub password : Text
  pub email : Text
  pub method : Text

pub record ShadowsocksSettings : Type 0 where
  pub method : Text
  pub password : Text
  pub network : Text
  pub clients : List ShadowsocksClient

pub record SocksSettings : Type 0 where
  pub auth : Text
  pub udp : Bool
  pub accounts : List Account

-- The settings of the four kinds of inbound.
pub data InboundSettings : Type 0 where
  vmess_settings : List VmessClient → StreamSettings → InboundSettings
  shadowsocks_settings : ShadowsocksSettings → InboundSettings
  socks_settings : SocksSettings → InboundSettings
  http_settings : List Account → InboundSettings

-- vmessInbound, shadowsocksInbound, socksInbound and httpInbound.
pub record InboundOutput : Type 0 where
  pub tag : Text
  pub listen : Text
  pub port : ℕ
  pub protocol : Text
  pub settings : InboundSettings

pub record ProxyServer : Type 0 where
  pub address : Text
  pub port : ℕ
  pub users : List Account

-- proxyOutbound, or directOutbound, which has no servers.
pub data Outbound : Type 0 where
  proxy_outbound : Text → Text → List ProxyServer → Outbound
  direct_outbound : Text → Text → Outbound

pub record RoutingRule : Type 0 where
  pub type : Text
  pub domain : List Text
  pub ip : List Text
  pub outbound_tag : Text

pub record RoutingConfig : Type 0 where
  pub rules : List RoutingRule

-- Config. `stats` says whether the empty object is there.
pub record Config : Type 0 where
  pub log : LogOutput
  pub api : Option ApiOutput
  pub stats : Bool
  pub policy : Option PolicyOutput
  pub routing : Option RoutingConfig
  pub inbounds : List InboundOutput
  pub outbounds : List Outbound
