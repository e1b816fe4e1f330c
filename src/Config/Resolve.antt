-- ===== src/Config/Resolve.antt =====
-- internal/domain/user_refs.go: the references of an inbound become its users.
use proxystack_go.Prelude.{
  ℕ, ◌+◌, Text, codes, decimal, is_empty, if◌then◌else◌, ◌==◌, add, List, [], ◌∷◌, ◌++◌, Option,
  none, some, Map, Answer, ok, error, Text_eq,
}
use proxystack_go.Domain.{UserProfile, InboundUser, Inbound, Stack, GlobalConfig, StackSet}
use proxystack_go.Config.Users.{user_profile_index, resolve_inbound_user_refs}
use proxystack_go.Config.Inbounds.{validate_inbound}

-- `inbound.fields`, made where it is nil, with the key "user_refs" set.
unfoldable pub resolved_fields : Inbound → List Text
resolved_fields inbound = elim inbound.fields [
  | some fields ↦ add (codes "user_refs") fields
  | none ↦
      add (codes "user_refs")
        (if inbound.udp then codes "sub" ∷ codes "udp" ∷ [] else codes "sub" ∷ [])
]

-- The inbound with its users set and its references cleared.
unfoldable pub with_users : Inbound → List InboundUser → Inbound
with_users inbound users = record inbound {
  users = users;
  user_refs = [];
  fields = some (resolved_fields inbound);
}

unfoldable pub inbound_path : Text → ℕ → Text
inbound_path stack index =
    codes "stacks." ++ stack ++ codes ".xray.inbounds[" ++ decimal index ++ codes "]"

-- `stackSet.ByName()[name]`: of stacks with one name the last one.
unfoldable pub by_name : List Stack → Text → Option Stack
by_name [] name = none
by_name (stack ∷ stacks) name = elim (by_name stacks name) [
  | some later ↦ some later
  | none ↦ if stack.name == name then some stack else none
]

module _ (to_lower : Text → Text) (decode : Text → Option Text) where
  -- One round of the loop of ResolveStackUserRefs.
  unfoldable pub resolve_inbound : Map Text UserProfile → Text → ℕ → Inbound → Answer Inbound
  resolve_inbound profiles stack index inbound =
      if is_empty inbound.user_refs
      then ok inbound
      else elim (resolve_inbound_user_refs profiles inbound) [
        | error e ↦ error (inbound_path stack index ++ codes ".user_refs: " ++ e)
        | ok users ↦ elim (validate_inbound to_lower decode (with_users inbound users)) [
          | some e ↦ error (inbound_path stack index ++ codes ": " ++ e)
          | none ↦ ok (with_users inbound users)
        ]
      ]

  unfoldable pub resolve_inbounds :
      Map Text UserProfile → Text → ℕ → List Inbound → Answer (List Inbound)
  resolve_inbounds profiles stack index [] = ok []
  resolve_inbounds profiles stack index (inbound ∷ inbounds) =
      let rest = resolve_inbounds profiles stack (index + 1) inbounds in
      elim (resolve_inbound profiles stack index inbound) [
        | error e ↦ error e
        | ok resolved ↦ elim rest [ error e ↦ error e | ok others ↦ ok (resolved ∷ others) ]
      ]

  unfoldable pub with_inbounds : Stack → List Inbound → Stack
  with_inbounds stack inbounds = record stack { xray = record stack.xray { inbounds = inbounds } }

  unfoldable pub resolve_stack_user_refs : GlobalConfig → Stack → Answer Stack
  resolve_stack_user_refs config stack =
      elim (resolve_inbounds (user_profile_index config.users) stack.name 0 stack.xray.inbounds) [
        | error e ↦ error e
        | ok inbounds ↦ ok (with_inbounds stack inbounds)
      ]

  unfoldable pub resolve_stacks : GlobalConfig → List Stack → Answer (List Stack)
  resolve_stacks config [] = ok []
  resolve_stacks config (stack ∷ stacks) =
      let rest = resolve_stacks config stacks in
      elim (resolve_stack_user_refs config stack) [
        | error e ↦ error e
        | ok resolved ↦ elim rest [ error e ↦ error e | ok others ↦ ok (resolved ∷ others) ]
      ]

  unfoldable pub resolve_stack_set_user_refs : StackSet → Answer StackSet
  resolve_stack_set_user_refs set = elim (resolve_stacks set.config set.stacks) [
    | error e ↦ error e
    | ok stacks ↦ ok (record set { stacks = stacks })
  ]
