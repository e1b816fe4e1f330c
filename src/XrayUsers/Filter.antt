-- ===== src/XrayUsers/Filter.antt =====
-- internal/generator/xray/users.go: exactly the disabled users are left out.
use proxystack_go.Prelude.{
  Text_eq, codes, ◌==◌, ◌≡◌, refl, sym, ◌∙◌, Text, length, length-keep, nat_eq, nat_eq_iff,
  is_empty, if◌then◌else◌, Bool, true, false, not, ◌||◌, ◌&&◌, Bool-cases, List-cases, inl, inr,
  keep, List, [], ◌∷◌, none, some, Answer, ok, error, arith,
}
use mathlib.Core.Path.{subst}
use proxystack_go.Domain.{Inbound, InboundUser}
use proxystack_go.UserState.{DisabledUserSet, has, users_of}
use proxystack_go.XrayUsers.{
  supports_user_toggle, nobody_disabled, enabled_inbound_users, all_disabled, apply_disabled_users,
}

keep-whole :
    {A : Type 0} (p : A → Bool) (xs : List A) → length (keep p xs) ≡ length xs → keep p xs ≡ xs
keep-whole p [] e = refl
keep-whole p (x ∷ xs) e = elim (Bool-cases (p x)) [
  | inl chosen ↦ ground (arith, chosen, e, keep-whole p xs)
  | inr other ↦ absurd (ground (arith, other, e, length-keep p xs))
]

keep-every : {A : Type 0} (p : A → Bool) (xs : List A) → ((x : A) → p x ≡ true) → keep p xs ≡ xs
keep-every p [] all = refl
keep-every p (x ∷ xs) all = ground (arith, all x, keep-every p xs all)

keep-same :
    {A : Type 0} (p q : A → Bool) (xs : List A) → ((x : A) → p x ≡ q x) → keep p xs ≡ keep q xs
keep-same p q [] same = refl
keep-same p q (x ∷ xs) same = ground (arith, same x, keep-same p q xs same)

-- The user stays: the inbound is neither vmess nor shadowsocks, or the user is not disabled.
abbrev pub stays : Inbound → DisabledUserSet → Text → InboundUser → Bool
stays inbound disabled stack_name user = not (
    (inbound.protocol == codes "vmess" || inbound.protocol == codes "shadowsocks")
    && has disabled stack_name user.user)

has-nobody :
    (disabled : DisabledUserSet) (stack_name user : Text)
    → nobody_disabled disabled ≡ true
    → has disabled stack_name user ≡ false
unfolding nobody_disabled has users_of proxystack_go.Prelude.lookup proxystack_go.Prelude.contains
has-nobody none stack_name user e = refl
has-nobody (some []) stack_name user e = refl
has-nobody (some (entry ∷ m)) stack_name user e = absurd (ground (arith, e))

-- enabledInboundUsers gives exactly the users that stay, in their order.
pub enabled_inbound_users-keep :
    (inbound : Inbound) (disabled : DisabledUserSet) (stack_name : Text)
    → enabled_inbound_users inbound disabled stack_name
      ≡ keep (stays inbound disabled stack_name) inbound.users
unfolding enabled_inbound_users supports_user_toggle
enabled_inbound_users-keep inbound disabled stack_name =
    elim (Bool-cases (supports_user_toggle inbound.protocol)) [
      | inr fixed ↦ ground (
        arith,
        fixed,
        keep-every (stays inbound disabled stack_name) inbound.users (λ u. ground (arith, fixed)),
      )
      | inl toggles ↦ elim (Bool-cases (nobody_disabled disabled)) [
        | inl nobody ↦ ground (
          arith,
          toggles,
          nobody,
          keep-every (stays inbound disabled stack_name) inbound.users
              (λ u. ground (arith, has-nobody disabled stack_name u.user nobody)),
        )
        | inr somebody ↦ ground (
          arith,
          toggles,
          somebody,
          keep-same (λ u. not (has disabled stack_name u.user)) (stays inbound disabled stack_name)
              inbound.users (λ u. ground (arith, toggles)),
        )
      ]
    ]

-- The answer for the users that stay.
abbrev answer_of : Inbound → Text → List InboundUser → Answer Inbound
answer_of inbound stack_name users =
    if not (is_empty inbound.users) && is_empty users
    then error (all_disabled inbound stack_name)
    else ok (record inbound { users = users })

answer_of-whole :
    (inbound : Inbound) (stack_name : Text) (users : List InboundUser)
    → users ≡ inbound.users
    → answer_of inbound stack_name users ≡ ok inbound
answer_of-whole inbound stack_name users e =
    subst (λ us. answer_of inbound stack_name us ≡ ok inbound) (sym e)
      (whole inbound.users (is_empty inbound.users))
  where
    whole :
        (users : List InboundUser) (empty : Bool)
        → (if not empty && empty then error (all_disabled inbound stack_name) else ok inbound)
          ≡ ok inbound
    whole users true = refl
    whole users false = refl

kept-skipped :
    (inbound : Inbound) (disabled : DisabledUserSet) (stack_name : Text)
    → (not (supports_user_toggle inbound.protocol)
        || nobody_disabled disabled
        || is_empty inbound.users)
      ≡ true
    → keep (stays inbound disabled stack_name) inbound.users ≡ inbound.users
unfolding enabled_inbound_users supports_user_toggle
kept-skipped inbound disabled stack_name e = elim (List-cases inbound.users) [
  | inl nothing ↦ rw nothing refl
  | inr (user, users, some_users) ↦
      sym (enabled_inbound_users-keep inbound disabled stack_name) ∙ ground (arith, e, some_users)
]

pub apply_disabled_users-stays :
    (inbound : Inbound) (disabled : DisabledUserSet) (stack_name : Text)
    → apply_disabled_users inbound disabled stack_name ≡ (
        if not (is_empty inbound.users)
          && is_empty (keep (stays inbound disabled stack_name) inbound.users)
        then error (all_disabled inbound stack_name)
        else ok (record inbound { users = keep (stays inbound disabled stack_name) inbound.users }))
unfolding apply_disabled_users supports_user_toggle
apply_disabled_users-stays inbound disabled stack_name =
    let kept = keep (stays inbound disabled stack_name) inbound.users in
    let skip =
      not (supports_user_toggle inbound.protocol)
      || nobody_disabled disabled
      || is_empty inbound.users in
    elim (Bool-cases skip) [
      | inl skipped ↦ ground (
        arith,
        skipped,
        answer_of-whole inbound stack_name kept (kept-skipped inbound disabled stack_name skipped),
      )
      | inr filtered ↦ elim (Bool-cases (nat_eq (length kept) (length inbound.users))) [
        | inl every ↦ ground (
          arith,
          filtered,
          every,
          enabled_inbound_users-keep inbound disabled stack_name,
          answer_of-whole inbound stack_name kept (
              keep-whole (stays inbound disabled stack_name) inbound.users
                ((nat_eq_iff (length kept) (length inbound.users)).0 every)),
        )
        | inr fewer ↦
            ground (arith, filtered, fewer, enabled_inbound_users-keep inbound disabled stack_name)
      ]
    ]

-- applyDisabledUsers refuses exactly a vmess or shadowsocks inbound that has users and whose users are
-- all disabled; of any other vmess or shadowsocks inbound it leaves out exactly the disabled users and
-- changes nothing else; an inbound of another protocol it leaves as it is, whoever is disabled.
pub apply_disabled_users_lem :
    (inbound : Inbound) (disabled : DisabledUserSet) (stack_name : Text)
    → let enabled = keep (λ u. not (has disabled stack_name u.user)) inbound.users in
      apply_disabled_users inbound disabled stack_name ≡ (
        if inbound.protocol == codes "vmess" || inbound.protocol == codes "shadowsocks"
        then (if not (is_empty inbound.users) && is_empty enabled
            then error (all_disabled inbound stack_name)
            else ok (record inbound { users = enabled }))
        else ok inbound)
apply_disabled_users_lem inbound disabled stack_name =
    let stay = stays inbound disabled stack_name in
    apply_disabled_users-stays inbound disabled stack_name
    ∙ elim (Bool-cases
        (inbound.protocol == codes "vmess" || inbound.protocol == codes "shadowsocks")) [
          | inl toggles ↦ ground (
            arith,
            toggles,
            keep-same stay (λ u. not (has disabled stack_name u.user)) inbound.users
                (λ u. ground (arith, toggles)),
          )
          | inr fixed ↦ ground (
            arith,
            fixed,
            answer_of-whole inbound stack_name (keep stay inbound.users)
                (keep-every stay inbound.users (λ u. ground (arith, fixed))),
          )
        ]
