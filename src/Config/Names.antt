-- ===== src/Config/Names.antt =====
-- internal/domain/validation/validation.go: ValidateSubscriptionProxyNames. The library's templates
-- and strings.TrimSpace are the parameter `Templates`.
use proxystack_go.Prelude.{
  ℕ, ◌+◌, Text, Text_eq, codes, decimal, is_empty, if◌then◌else◌, not, ◌||◌, lookup, put, map, List,
  [], ◌∷◌, ◌++◌, none, some, Map, Answer, ok, error,
}
use proxystack_go.Domain.{Inbound, InboundUser, InboundUserRef, Stack}
use proxystack_go.Graph.Compile.{Issue}
use proxystack_go.Config.Users.{
  default_user_profile, normalize_user_profile, first_non_empty, profile_or_default,
}
use proxystack_go.Config.Inbounds.{uses_user_refs}
use proxystack_go.Config.Resolve.{inbound_path}

-- The data that a display template is rendered with.
pub record Display : Type 0 where
  pub stack : Text
  pub inbound : Text
  pub protocol : Text
  pub port : ℕ
  pub user : Text
  pub profile : Text
  pub remark : Text

-- Parse and Execute of a template with the functions of the program, and strings.TrimSpace.
pub record Templates : Type 0 where
  pub render : Text → Display → Answer Text
  pub trim : Text → Text

pub record SubscriptionProxyName : Type 0 where
  pub user : Text
  pub remark : Text
  pub path : Text

-- The names and the issues of an inbound.
pub record Collected : Type 0 where
  pub names : List SubscriptionProxyName
  pub issues : List Issue

unfoldable pub user_of_ref : InboundUserRef → InboundUser
user_of_ref ref = record {
  user = ref.user;
  profile = normalize_user_profile ref.profile;
  uuid = [];
  password = [];
  method = [];
  cipher = [];
  email = [];
  remark = ref.remark;
  display_template = ref.display_template;
  tag = ref.tag;
}

unfoldable pub subscription_inbound_users : Inbound → List InboundUser
subscription_inbound_users inbound =
    if is_empty inbound.users then map user_of_ref inbound.user_refs else inbound.users

module _ (templates : Templates) where
  unfoldable pub render_subscription_display_template : Text → Display → Answer Text
  render_subscription_display_template text data_ = elim (templates.render text data_) [
    | error e ↦ error (codes "invalid display_template: " ++ e)
    | ok out ↦
        if is_empty (templates.trim out)
        then error (codes "display_template rendered empty")
        else ok (templates.trim out)
  ]

  unfoldable pub subscription_remark : Text → Inbound → Text → Text → Text → Text → Answer Text
  subscription_remark stack_name inbound user profile configured display_template =
      if not (is_empty display_template)
      then render_subscription_display_template display_template (record {
        stack = stack_name;
        inbound = inbound.name;
        protocol = inbound.protocol;
        port = inbound.port;
        user = user;
        profile = normalize_user_profile profile;
        remark = first_non_empty configured inbound.name;
      })
      else if not (is_empty configured)
      then ok configured
      else ok (stack_name ++ codes " " ++ inbound.protocol)

  -- One name or one issue in front of the others.
  unfoldable pub collect_name : Answer Text → Text → Text → Collected → Collected
  collect_name (ok remark) user path rest = record {
    names = record { user = user; remark = remark; path = path } ∷ rest.names;
    issues = rest.issues;
  }
  collect_name (error e) user path rest = record {
    names = rest.names;
    issues = record { path = path ++ codes ".display_template"; message = e } ∷ rest.issues;
  }

  -- The loop over the users, from `index` on.
  unfoldable pub collect_user_names : Text → Text → Inbound → ℕ → List InboundUser → Collected
  collect_user_names stack_name path inbound index [] = record { names = []; issues = [] }
  collect_user_names stack_name path inbound index (user ∷ users) =
      let list = if uses_user_refs inbound then codes ".user_refs[" else codes ".users[" in
      collect_name
        (subscription_remark stack_name inbound user.user (profile_or_default user)
          (first_non_empty user.remark inbound.remark)
          (first_non_empty user.display_template inbound.display_template))
        user.user (path ++ list ++ decimal index ++ codes "]")
        (collect_user_names stack_name path inbound (index + 1) users)

  unfoldable pub collect_subscription_proxy_names : Text → ℕ → Inbound → Collected
  collect_subscription_proxy_names stack_name index inbound =
      let path = inbound_path stack_name index in
      let users = subscription_inbound_users inbound in
      let user = first_non_empty inbound.user (codes "default") in
      if not (is_empty users)
      then collect_user_names stack_name path inbound 0 users
      else collect_name
          (subscription_remark stack_name inbound user default_user_profile inbound.remark
            inbound.display_template)
          user path (record { names = []; issues = [] })

  -- The loop over the names of an inbound: `seen` behind it, and the issues.
  unfoldable pub repeated_proxy_names :
      Map Text SubscriptionProxyName
      → List SubscriptionProxyName
      → Map Text SubscriptionProxyName × List Issue
  repeated_proxy_names seen [] = (seen, [])
  repeated_proxy_names seen (name ∷ names) =
      let key = name.user ++ 0 ∷ name.remark in
      let rest = repeated_proxy_names seen names in
      let next = repeated_proxy_names (put key name seen) names in
      elim (lookup seen key) [
        | some first ↦ (
          rest.0,
          record {
            path = name.path;
            message =
                codes "duplicate proxy name for user: user="
                ++ name.user
                ++ codes " name="
                ++ name.remark
                ++ codes ", first seen at "
                ++ first.path
                ++ codes ", repeated at "
                ++ name.path;
          }
              ∷ rest.1,
        )
        | none ↦ next
      ]

  unfoldable pub inbound_proxy_names :
      Map Text SubscriptionProxyName
      → Text
      → ℕ
      → List Inbound
      → Map Text SubscriptionProxyName × List Issue
  inbound_proxy_names seen stack_name index [] = (seen, [])
  inbound_proxy_names seen stack_name index (inbound ∷ inbounds) =
      let collected = collect_subscription_proxy_names stack_name index inbound in
      let (next, repeated) = repeated_proxy_names seen collected.names in
      let (last, others) = inbound_proxy_names next stack_name (index + 1) inbounds in
      let skip = inbound_proxy_names seen stack_name (index + 1) inbounds in
      if not inbound.sub then skip else (last, (collected.issues ++ repeated) ++ others)

  unfoldable pub stack_proxy_names : Map Text SubscriptionProxyName → List Stack → List Issue
  stack_proxy_names seen [] = []
  stack_proxy_names seen (stack ∷ stacks) =
      let (next, issues) = inbound_proxy_names seen stack.name 0 stack.xray.inbounds in
      let rest = stack_proxy_names next stacks in
      let skip = stack_proxy_names seen stacks in
      if not stack.enabled || not stack.xray.enabled then skip else issues ++ rest

  unfoldable pub validate_subscription_proxy_names : List Stack → List Issue
  validate_subscription_proxy_names stacks = stack_proxy_names [] stacks
