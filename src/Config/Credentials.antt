-- ===== src/Config/Credentials.antt =====
-- internal/domain/models.go: what Validate guarantees of inbounds that it accepts.
use proxystack_go.Prelude.{
  ◌≡◌, refl, sym, ap, Text, Text_eq, text_eq_iff, codes, is_empty, Bool, true, false, not, ◌&&◌,
  ◌||◌, ◌==◌, ◌⊎◌, inl, inr, IsNodup, map, List, [], ◌∷◌, ◌++◌, Option, none, some, arith,
}
use mathlib.Core.Path.{subst}
use proxystack_go.Prelude.Sort.{any}
use proxystack_go.Config.Checks.{then-none, refuse_if-none, second}
use proxystack_go.Domain.{InboundAuth, InboundUser, Inbound, XrayConfig}
use proxystack_go.Config.Values.{matches_uuid, valid_xray_log_level}
use proxystack_go.Config.Users.{email_or_user}
use proxystack_go.Config.Listen.{Net}
use proxystack_go.Config.Inbounds.{
  validate_auth, check_auth, user_tag, user_names, check_vmess_users, validate_vmess,
  has_password_auth, validate_plain, validate_protocol, validate_inbound, validate_inbounds,
  validate_xray,
}
use proxystack_go.Config.Stacks.Unique.{ensure_unique_lem}

check_vmess_users-none :
    (users : List InboundUser)
    → check_vmess_users users ≡ none
    → any (λ u. not (matches_uuid u.uuid)) users ≡ false
unfolding check_vmess_users
check_vmess_users-none [] e = refl
check_vmess_users-none (user ∷ users) e =
    let after_name = second _ _ e in
    let after_uuid = second _ _ after_name in
    let parts = (then-none _ _).0 after_uuid in
    ground (
      arith,
      (refuse_if-none (not (matches_uuid user.uuid)) _).0 parts.0,
      check_vmess_users-none users parts.1,
    )

-- A vmess inbound that validateVmess accepts has users with UUIDs, no two of them share a name, a
-- UUID in lower case, an email or a tag, and it has a user or a reference to one.
pub validate_vmess_lem :
    (to_lower : Text → Text) (i : Inbound)
    → validate_vmess to_lower i ≡ none
    → IsNodup (user_names i.users)
      × IsNodup (map (λ u. to_lower u.uuid) i.users)
      × IsNodup (map email_or_user i.users)
      × IsNodup (map (user_tag i) i.users)
      × (any (λ u. not (matches_uuid u.uuid)) i.users ≡ false)
      × ((is_empty i.users && is_empty i.user_refs) ≡ false)
unfolding validate_vmess
validate_vmess_lem to_lower i e =
    let after_user = second _ _ (second _ _ e) in
    let refs = (then-none _ _).0 after_user in
    let names = (then-none _ _).0 (second _ _ refs.1) in
    let checked = (then-none _ _).0 names.1 in
    let uuids = (then-none _ _).0 checked.1 in
    let emails = (then-none _ _).0 uuids.1 in
    (
      (ensure_unique_lem _ _).0 names.0,
      (ensure_unique_lem _ _).0 uuids.0,
      (ensure_unique_lem _ _).0 emails.0,
      (ensure_unique_lem _ _).0 emails.1,
      check_vmess_users-none i.users checked.0,
      (refuse_if-none _ _).0 refs.0,
    )

validate_inbounds-none :
    (to_lower : Text → Text) (decode : Text → Option Text) (names : List Text)
    (inbounds : List Inbound)
    → validate_inbounds to_lower decode names inbounds ≡ none
    → IsNodup (names ++ map (λ i. i.name) inbounds)
unfolding validate_inbounds
validate_inbounds-none to_lower decode names [] e =
    subst IsNodup (sym (append-nothing names)) ((ensure_unique_lem names _).0 e)
  where
    append-nothing : (xs : List Text) → xs ++ [] ≡ xs
    append-nothing [] = refl
    append-nothing (x ∷ xs) = ap (λ ys. x ∷ ys) (append-nothing xs)
validate_inbounds-none to_lower decode names (inbound ∷ inbounds) e =
    subst IsNodup (append-snoc names inbound.name (map (λ i. i.name) inbounds))
      (validate_inbounds-none to_lower decode (names ++ inbound.name ∷ []) inbounds (second _ _ e))
  where
    append-snoc : (xs : List Text) (a : Text) (ys : List Text) → (xs ++ a ∷ []) ++ ys ≡ xs ++ a ∷ ys
    append-snoc [] a ys = refl
    append-snoc (x ∷ xs) a ys = ap (λ zs. x ∷ zs) (append-snoc xs a ys)

-- An Xray configuration that Validate accepts has an inbound, no two inbounds of one name, and a
-- log level that is empty or known.
pub validate_xray_lem :
    (to_lower : Text → Text) (decode : Text → Option Text) (net : Net) (x : XrayConfig)
    → validate_xray to_lower decode net x ≡ none
    → IsNodup (map (λ i. i.name) x.inbounds)
      × (is_empty x.inbounds ≡ false)
      × ((is_empty x.loglevel || valid_xray_log_level x.loglevel) ≡ true)
unfolding validate_xray
validate_xray_lem to_lower decode net x e =
    let level = (then-none _ _).0 e in
    let inbounds = (then-none _ _).0 (second _ _ (second _ _ level.1)) in
    (
      validate_inbounds-none to_lower decode [] x.inbounds inbounds.1,
      (refuse_if-none _ _).0 inbounds.0,
      ground (arith, (refuse_if-none _ _).0 level.0),
    )

-- The authentication of an accepted inbound that asks for a password.
check_auth-credentials :
    (auth : Option InboundAuth)
    → check_auth auth ≡ none
    → (elim auth as (λ _. Bool) [ none ↦ false | some a ↦ a.type == codes "password" ]) ≡ true
    → (a : InboundAuth) × (auth ≡ some a)
      × (is_empty a.username ≡ false)
      × (is_empty a.password ≡ false)
unfolding check_auth validate_auth
check_auth-credentials none e typed = absurd (ground arith)
check_auth-credentials (some a) e typed =
    let refused = (refuse_if-none _ _).0 (second _ _ e) in
    (a, refl, ground (arith, refused), ground (arith, refused))

validate_plain-none :
    (i : Inbound) → validate_plain i ≡ none → i.sub ≡ true → has_password_auth i ≡ true
unfolding validate_plain
validate_plain-none i e published =
    let refused = (refuse_if-none _ _).0 (second _ _ e) in ground (arith, refused)

-- A published socks5 or http inbound that Validate accepts has password authentication with a user
-- name and a password that are not empty.
pub validate_inbound_lem :
    (to_lower : Text → Text) (decode : Text → Option Text) (i : Inbound)
    → validate_inbound to_lower decode i ≡ none
    → i.sub ≡ true
    → (i.protocol ≡ codes "socks5") ⊎ (i.protocol ≡ codes "http")
    → (a : InboundAuth) × (i.auth ≡ some a)
      × (is_empty a.username ≡ false)
      × (is_empty a.password ≡ false)
unfolding validate_inbound
validate_inbound_lem to_lower decode i e published kind =
    let after_udp = second _ _ (second _ _ (second _ _ (second _ _ (second _ _ (second _ _ e))))) in
    let auth = (then-none _ _).0 after_udp in
    let protocol = second _ _ (second _ _ auth.1) in
    check_auth-credentials i.auth auth.0 (
      unfold has_password_auth in
      validate_plain-none i (protocol-plain to_lower decode i kind protocol) published)
  where
    protocol-plain :
        (to_lower : Text → Text) (decode : Text → Option Text) (i : Inbound)
        → (i.protocol ≡ codes "socks5") ⊎ (i.protocol ≡ codes "http")
        → validate_protocol to_lower decode i ≡ none
        → validate_plain i ≡ none
    protocol-plain to_lower decode i (inl e) h =
        unfold validate_protocol in
        ground (
          arith,
          e,
          h,
          text_eq_iff i.protocol (codes "vmess"),
          text_eq_iff i.protocol (codes "shadowsocks"),
          text_eq_iff i.protocol (codes "socks5"),
        )
    protocol-plain to_lower decode i (inr e) h =
        unfold validate_protocol in
        ground (
          arith,
          e,
          h,
          text_eq_iff i.protocol (codes "vmess"),
          text_eq_iff i.protocol (codes "shadowsocks"),
          text_eq_iff i.protocol (codes "http"),
        )
