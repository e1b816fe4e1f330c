-- ===== src/XrayConfig/Inbounds.antt =====
-- internal/generator/xray/config.go: RenderInbound and what it calls.
use proxystack_go.Prelude.{
  Text, Text_eq, codes, is_empty, if◌then◌else◌, ◌||◌, ◌==◌, map, List, [], ◌∷◌, ◌++◌, none, some,
  Answer, ok, error, ◌>>=◌,
}
use proxystack_go.Domain.{Inbound, InboundUser}
use proxystack_go.Config.Values.{is_shadowsocks2022_method}
use proxystack_go.Config.Users.{email_or_user, first_non_empty}
use proxystack_go.Config.Inbounds.{tag_or_default, method_or_cipher}
use proxystack_go.XrayConfig.{
  Account, VmessClient, ShadowsocksClient, InboundSettings, vmess_settings, shadowsocks_settings,
  socks_settings, http_settings, InboundOutput,
}

-- The fields that the four kinds of inbound share.
unfoldable pub inbound_output : Inbound → Text → InboundSettings → InboundOutput
inbound_output inbound protocol settings = record {
  tag = tag_or_default inbound;
  listen = inbound.listen;
  port = inbound.port;
  protocol = protocol;
  settings = settings;
}

unfoldable pub vmess_client : InboundUser → VmessClient
vmess_client user = record { id = user.uuid; alter_id = 0; email = email_or_user user }

unfoldable pub render_vmess_inbound : Inbound → InboundOutput
render_vmess_inbound inbound = inbound_output inbound (codes "vmess") (
    vmess_settings (map vmess_client inbound.users) (record {
      network = inbound.network;
      ws_settings = inbound.ws_opts;
      grpc_settings = inbound.grpc_opts;
    }))

unfoldable pub shadowsocks_client : Inbound → InboundUser → ShadowsocksClient
shadowsocks_client inbound user = record {
  password = user.password;
  email = email_or_user user;
  method =
      if is_shadowsocks2022_method (method_or_cipher inbound)
      then []
      else first_non_empty user.method (first_non_empty user.cipher (method_or_cipher inbound));
}

unfoldable pub render_shadowsocks_inbound : Inbound → InboundOutput
render_shadowsocks_inbound inbound = inbound_output inbound (codes "shadowsocks") (
    shadowsocks_settings (record {
      method = method_or_cipher inbound;
      password = inbound.password;
      network = if inbound.udp then codes "tcp,udp" else codes "tcp";
      clients = map (shadowsocks_client inbound) inbound.users;
    }))

unfoldable pub inbound_auth_type : Inbound → Text
inbound_auth_type inbound = elim inbound.auth [ none ↦ codes "noauth" | some auth ↦ auth.type ]

unfoldable pub incomplete_account : Inbound → Text
incomplete_account inbound = codes "password auth account is incomplete: " ++ inbound.name

unfoldable pub inbound_account : Inbound → Answer Account
inbound_account inbound = elim inbound.auth [
  | none ↦ error (incomplete_account inbound)
  | some auth ↦
      if is_empty auth.username || is_empty auth.password
      then error (incomplete_account inbound)
      else ok (record { user = auth.username; pass = auth.password })
]

-- The accounts, one where the inbound asks for a password.
unfoldable pub inbound_accounts : Inbound → Answer (List Account)
inbound_accounts inbound =
    if inbound_auth_type inbound == codes "password"
    then (inbound_account inbound >>= λ account. ok (account ∷ []))
    else ok []

unfoldable pub render_socks_inbound : Inbound → Answer InboundOutput
render_socks_inbound inbound = inbound_accounts inbound >>= λ accounts. ok (
    inbound_output inbound (codes "socks") (
      socks_settings
        (record { auth = inbound_auth_type inbound; udp = inbound.udp; accounts = accounts })))

unfoldable pub render_http_inbound : Inbound → Answer InboundOutput
render_http_inbound inbound = inbound_accounts inbound >>= λ accounts.
    ok (inbound_output inbound (codes "http") (http_settings accounts))

unfoldable pub render_inbound : Inbound → Answer InboundOutput
render_inbound inbound =
    if inbound.protocol == codes "vmess"
    then ok (render_vmess_inbound inbound)
    else if inbound.protocol == codes "shadowsocks"
    then ok (render_shadowsocks_inbound inbound)
    else if inbound.protocol == codes "socks5"
    then render_socks_inbound inbound
    else if inbound.protocol == codes "http"
    then render_http_inbound inbound
    else error (codes "unsupported xray inbound protocol: " ++ inbound.protocol)
