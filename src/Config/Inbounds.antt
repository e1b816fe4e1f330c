-- ===== src/Config/Inbounds.antt =====
-- internal/domain/models.go: Validate of an inbound, an outbound and an Xray configuration.
-- `decode` is base64.StdEncoding.Strict().DecodeString and `to_lower` is strings.ToLower.
use proxystack_go.Prelude.{
  Text, Text_eq, codes, decimal, nat_eq, is_empty, is_some, if◌then◌else◌, Bool, false, not, ◌&&◌,
  ◌||◌, ◌==◌, contains, map, List, [], ◌∷◌, ◌++◌, Option, none, some,
}
use proxystack_go.Domain.{InboundAuth, InboundUser, Inbound, XrayOutbound, XrayConfig}
use proxystack_go.Config.Values.{
  ◌then◌, refuse_if, validate_identifier, validate_port, validate_ref, ensure_unique,
  matches_region, matches_uuid, valid_inbound_protocol, supports_inbound_udp_protocol,
  valid_xray_log_level, is_shadowsocks2022_method, validate_shadowsocks2022_psk,
}
use proxystack_go.Config.Listen.{Net, validate_api_config}
use proxystack_go.Config.Users.{email_or_user, validate_inbound_user_refs}

unfoldable pub validate_auth : InboundAuth → Option Text
validate_auth a =
    refuse_if (not (a.type == codes "noauth") && not (a.type == codes "password"))
      (codes "auth.type must be noauth or password")
    then refuse_if (a.type == codes "password" && (is_empty a.username || is_empty a.password))
        (codes "username and password are required for password auth")

-- `fields[key]` of a map that may be nil.
unfoldable pub has_field : Option (List Text) → Text → Bool
has_field none key = false
has_field (some fields) key = contains fields key

unfoldable pub tag_or_default : Inbound → Text
tag_or_default i =
    if not (is_empty i.tag)
    then i.tag
    else i.protocol ++ codes ":" ++ decimal i.port ++ codes ":" ++ i.name

unfoldable pub udp_configured : Inbound → Bool
udp_configured i = if is_some i.fields then has_field i.fields (codes "udp") else i.udp

unfoldable pub uses_user_refs : Inbound → Bool
uses_user_refs i = not (is_empty i.user_refs) || has_field i.fields (codes "user_refs")

unfoldable pub method_or_cipher : Inbound → Text
method_or_cipher i = if not (is_empty i.method) then i.method else i.cipher

-- The tag of a user of the inbound.
unfoldable pub user_tag : Inbound → InboundUser → Text
user_tag i user = if is_empty user.tag then tag_or_default i ++ codes ":" ++ user.user else user.tag

unfoldable pub user_names : List InboundUser → List Text
user_names users = map (λ u. u.user) users

-- The checks of the loop of validateVmess.
unfoldable pub check_vmess_users : List InboundUser → Option Text
check_vmess_users [] = none
check_vmess_users (user ∷ users) =
    validate_identifier user.user (codes "vmess user")
    then refuse_if (is_empty user.uuid) (codes "uuid is required for vmess user")
    then refuse_if (not (matches_uuid user.uuid)) (codes "uuid must be a valid UUID")
    then check_vmess_users users

unfoldable pub validate_vmess : (Text → Text) → Inbound → Option Text
validate_vmess to_lower i =
    refuse_if (not (is_empty i.uuid))
      (codes "uuid is not supported for vmess inbound; use user_refs instead")
    then refuse_if (not (is_empty i.user) || not (is_empty i.remark) && not (uses_user_refs i))
        (codes "user and remark must be configured under vmess user_refs")
    then refuse_if (is_empty i.users && is_empty i.user_refs)
        (codes "user_refs is required for vmess inbound")
    then refuse_if (is_empty i.network) (codes "network is required for vmess inbound")
    then ensure_unique (user_names i.users) (codes "duplicate vmess user")
    then check_vmess_users i.users
    then ensure_unique (map (λ u. to_lower u.uuid) i.users) (codes "duplicate vmess uuid")
    then ensure_unique (map email_or_user i.users) (codes "duplicate vmess user email")
    then ensure_unique (map (user_tag i) i.users) (codes "duplicate vmess user tag")

-- The loop of validateShadowsocks2022Passwords over the users.
unfoldable pub check_user_psks : (Text → Option Text) → Text → List InboundUser → Option Text
check_user_psks decode method [] = none
check_user_psks decode method (user ∷ users) =
    let rest = check_user_psks decode method users in
    if is_empty user.password
    then rest
    else (validate_shadowsocks2022_psk decode user.password method
          (codes "shadowsocks 2022 user password for " ++ user.user)
        then rest)

unfoldable pub validate_shadowsocks2022_passwords :
    (Text → Option Text) → Inbound → Text → Option Text
validate_shadowsocks2022_passwords decode i method =
    if not (is_shadowsocks2022_method method)
    then none
    else (validate_shadowsocks2022_psk decode i.password method
          (codes "shadowsocks 2022 inbound password")
        then check_user_psks decode method i.users)

-- The checks of the loop of validateShadowsocks.
unfoldable pub check_shadowsocks_users : Text → List InboundUser → Option Text
check_shadowsocks_users method [] = none
check_shadowsocks_users method (user ∷ users) =
    validate_identifier user.user (codes "shadowsocks user")
    then refuse_if (is_empty user.password) (codes "password is required for shadowsocks user")
    then refuse_if
        (is_shadowsocks2022_method method
          && (not (is_empty user.method) || not (is_empty user.cipher)))
        (codes "shadowsocks 2022 users must not set method or cipher")
    then check_shadowsocks_users method users

-- validateShadowsocks, for users that are listed, and the whole of it.
unfoldable pub validate_shadowsocks_users : Inbound → Option Text
validate_shadowsocks_users i =
    refuse_if (not (is_empty i.user) || not (is_empty i.remark) && not (uses_user_refs i))
      (codes "user and remark must be configured under shadowsocks user_refs")
    then ensure_unique (user_names i.users) (codes "duplicate shadowsocks user")
    then check_shadowsocks_users (method_or_cipher i) i.users
    then ensure_unique (map email_or_user i.users) (codes "duplicate shadowsocks user email")
    then ensure_unique (map (user_tag i) i.users) (codes "duplicate shadowsocks user tag")

unfoldable pub validate_shadowsocks : (Text → Option Text) → Inbound → Option Text
validate_shadowsocks decode i =
    refuse_if (is_empty i.password) (codes "password is required for shadowsocks inbound")
    then refuse_if (is_empty (method_or_cipher i))
        (codes "method or cipher is required for shadowsocks inbound")
    then validate_shadowsocks2022_passwords decode i (method_or_cipher i)
    then (if is_empty i.users then none else validate_shadowsocks_users i)

-- `i.Auth != nil && i.Auth.Type == "password"`
unfoldable pub has_password_auth : Inbound → Bool
has_password_auth i = elim i.auth [ none ↦ false | some a ↦ a.type == codes "password" ]

unfoldable pub validate_plain : Inbound → Option Text
validate_plain i =
    ensure_unique (user_names i.users) (codes "duplicate inbound user")
    then refuse_if (i.sub && not (has_password_auth i))
        (codes "password auth is required when socks/http inbound is published")

-- The `switch` on the protocol.
unfoldable pub validate_protocol : (Text → Text) → (Text → Option Text) → Inbound → Option Text
validate_protocol to_lower decode i =
    if i.protocol == codes "vmess"
    then validate_vmess to_lower i
    else if i.protocol == codes "shadowsocks"
    then validate_shadowsocks decode i
    else if i.protocol == codes "socks5" || i.protocol == codes "http"
    then validate_plain i
    else none

unfoldable pub check_auth : Option InboundAuth → Option Text
check_auth none = none
check_auth (some a) = validate_auth a

unfoldable pub check_user_refs : Inbound → Option Text
check_user_refs i =
    if is_empty i.user_refs
    then none
    else (refuse_if (not (is_empty i.user) || not (is_empty i.users))
          (codes "user_refs must not be combined with user or users")
        then validate_inbound_user_refs i.user_refs)

unfoldable pub validate_inbound : (Text → Text) → (Text → Option Text) → Inbound → Option Text
validate_inbound to_lower decode i =
    validate_identifier i.name (codes "inbound name")
    then refuse_if (not (valid_inbound_protocol i.protocol))
        (codes "unsupported inbound protocol: " ++ i.protocol)
    then validate_port i.port (codes "inbound port")
    then refuse_if (is_some i.fields && not (has_field i.fields (codes "sub")))
        (codes "sub is required for inbound")
    then refuse_if (not (is_empty i.region) && not (matches_region i.region))
        (codes "region must use two uppercase letters")
    then refuse_if (udp_configured i && not (supports_inbound_udp_protocol i.protocol))
        (codes "udp is not supported for " ++ i.protocol ++ codes " inbound")
    then check_auth i.auth
    then check_user_refs i
    then refuse_if
        (not (is_empty i.users)
          && has_field i.fields (codes "users")
          && not (i.protocol == codes "vmess")
          && not (i.protocol == codes "shadowsocks"))
        (codes "users is only supported for vmess or shadowsocks inbound")
    then validate_protocol to_lower decode i

-- The `switch` on the type.
unfoldable pub validate_outbound_target : XrayOutbound → Option Text
validate_outbound_target x =
    if x.type == codes "clash"
    then validate_ref x.ref 3 (codes "clash outbound ref is required")
    else if x.type == codes "socks5" || x.type == codes "http"
    then (refuse_if (is_empty x.server || nat_eq x.port 0)
          (codes "server and port are required for socks5/http outbound")
        then validate_port x.port (codes "outbound port"))
    else if x.type == codes "direct"
    then none
    else some (codes "unsupported outbound type: " ++ x.type)

unfoldable pub validate_outbound : XrayOutbound → Option Text
validate_outbound x =
    refuse_if (x.private_direct && not (x.type == codes "socks5") && not (x.type == codes "http"))
      (codes "private_direct is only supported for socks5/http outbound")
    then validate_outbound_target x

-- The loop of XrayConfig.Validate, the names so far, then ensureUnique.
unfoldable pub validate_inbounds :
    (Text → Text) → (Text → Option Text) → List Text → List Inbound → Option Text
validate_inbounds to_lower decode names [] = ensure_unique names (codes "duplicate inbound name")
validate_inbounds to_lower decode names (inbound ∷ inbounds) =
    validate_inbound to_lower decode inbound
    then validate_inbounds to_lower decode (names ++ inbound.name ∷ []) inbounds

unfoldable pub validate_xray : (Text → Text) → (Text → Option Text) → Net → XrayConfig → Option Text
validate_xray to_lower decode net x =
    refuse_if (not (is_empty x.loglevel) && not (valid_xray_log_level x.loglevel))
      (codes "xray loglevel is invalid: " ++ x.loglevel)
    then elim x.api [ none ↦ none | some api ↦ validate_api_config net api ]
    then validate_outbound x.outbound
    then refuse_if (is_empty x.inbounds) (codes "inbounds is required for xray")
    then validate_inbounds to_lower decode [] x.inbounds
