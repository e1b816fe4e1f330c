-- ===== src/XrayUsers.antt =====
-- internal/generator/xray/users.go: which users of an inbound the generated configuration has.
pub mod Filter
use proxystack_go.Prelude.{
  Text, Text_eq, codes, length, nat_eq, is_empty, if◌then◌else◌, Bool, true, not, ◌||◌, ◌==◌, keep,
  List, ◌++◌, none, some, Answer, ok, error,
}
use proxystack_go.Domain.{Inbound, InboundUser}
use proxystack_go.Config.Inbounds.{tag_or_default}
use proxystack_go.UserState.{DisabledUserSet, has}

unfoldable pub supports_user_toggle : Text → Bool
supports_user_toggle protocol = protocol == codes "vmess" || protocol == codes "shadowsocks"

-- `len(disabled) == 0`
unfoldable pub nobody_disabled : DisabledUserSet → Bool
nobody_disabled none = true
nobody_disabled (some m) = is_empty m

unfoldable pub enabled_inbound_users : Inbound → DisabledUserSet → Text → List InboundUser
enabled_inbound_users inbound disabled stack_name =
    if not (supports_user_toggle inbound.protocol) || nobody_disabled disabled
    then inbound.users
    else keep (λ u. not (has disabled stack_name u.user)) inbound.users

unfoldable pub all_disabled : Inbound → Text → Text
all_disabled inbound stack_name =
    codes "all users of inbound are disabled: "
    ++ stack_name
    ++ codes "/"
    ++ tag_or_default inbound
    ++ codes " (edit runtime/disabled.json or disable the inbound in the stack file)"

unfoldable pub apply_disabled_users : Inbound → DisabledUserSet → Text → Answer Inbound
apply_disabled_users inbound disabled stack_name =
    let users = enabled_inbound_users inbound disabled stack_name in
    if not (supports_user_toggle inbound.protocol)
      || nobody_disabled disabled
      || is_empty inbound.users
    then ok inbound
    else if nat_eq (length users) (length inbound.users)
    then ok inbound
    else if is_empty users
    then error (all_disabled inbound stack_name)
    else ok (record inbound { users = users })
