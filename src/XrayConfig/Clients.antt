-- ===== src/XrayConfig/Clients.antt =====
-- internal/generator/xray/config.go: RenderConfig answers, and the clients that it generates.
use proxystack_go.Prelude.{
  ◌≡◌, refl, ap, inl, inr, Text, Text_eq, codes, is_empty, if◌then◌else◌, true, false, not, ◌&&◌,
  ◌||◌, ◌==◌, keep, map, List, [], ◌∷◌, Option, none, some, Bool-cases, Option-cases, Answer, ok,
  error, arith, >>=-ok, ok-injective, ◌>>=◌, traverse,
}
use mathlib.Core.Path.{subst}
use proxystack_go.Domain.{Inbound, InboundUser, Stack, StackSet}
use proxystack_go.Graph.Compile.{ReferenceGraph, BuildResult, build_reference_graph}
use proxystack_go.Graph.Compile.Total.{Answers, build_reference_graph-Answers}
use proxystack_go.Config.Values.{is_shadowsocks2022_method}
use proxystack_go.Config.Users.{email_or_user, first_non_empty}
use proxystack_go.Config.Inbounds.{method_or_cipher}
use proxystack_go.Config.Resolve.{resolve_stack_set_user_refs}
use proxystack_go.UserState.{DisabledUserSet, has}
use proxystack_go.XrayUsers.{apply_disabled_users}
use proxystack_go.XrayUsers.Filter.{apply_disabled_users_lem}
use proxystack_go.XrayConfig.{
  VmessClient, ShadowsocksClient, InboundSettings, vmess_settings, shadowsocks_settings,
  socks_settings, http_settings, InboundOutput, Config,
}
use proxystack_go.XrayConfig.Inbounds.{
  inbound_output, vmess_client, shadowsocks_client, render_vmess_inbound,
  render_shadowsocks_inbound, render_socks_inbound, render_http_inbound, inbound_accounts,
  render_inbound,
}
use proxystack_go.XrayConfig.Outbounds.{render_outbounds}
use proxystack_go.XrayConfig.Render.{
  enabled_xray_stack, render_enabled_inbound, rendered_config, render_with_graph, graph_answer,
  render_stack, render_chosen, render_resolved, render_config,
}

pub build_reference_graph-some :
    (set : StackSet) → (result : BuildResult) × (build_reference_graph set ≡ some result)
build_reference_graph-some set = elim (Option-cases (build_reference_graph set)) [
  | inr found ↦ found
  | inl e ↦ absurd (subst (Answers set.stacks) e (build_reference_graph-Answers set))
]

-- The elements of two lists belong together one by one.
abbrev pub Each {ℓ κ} : {A : Type ℓ} {B : Type κ} → (A → B → Type 0) → List A → List B → Type 0
Each R [] [] = Unit {0}
Each R [] (y ∷ ys) = ⊥
Each R (x ∷ xs) [] = ⊥
Each R (x ∷ xs) (y ∷ ys) = R x y × Each R xs ys

traverse-Each :
    {A : Type 0} {B : Type 0} (f : A → Answer B) (R : A → B → Type 0)
    → ((x : A) (y : B) → f x ≡ ok y → R x y)
    → (xs : List A) (ys : List B) → traverse f xs ≡ ok ys
    → Each R xs ys
unfolding traverse
traverse-Each f R step [] ys e = subst (λ l. Each R [] l) (ok-injective e) tt
traverse-Each f R step (x ∷ xs) ys e =
    let (y, first, rest) = >>=-ok (f x) _ e in
    let (others, later, last) = >>=-ok (traverse f xs) _ rest in
    subst (λ l. Each R (x ∷ xs) l) (ok-injective last)
      (step x y first, traverse-Each f R step xs others later)

Each-map :
    {A : Type 0} {B : Type 0} (R : A → B → Type 0) (f : A → B)
    → ((x : A) → R x (f x))
    → (xs : List A) → Each R xs (map f xs)
Each-map R f step [] = tt
Each-map R f step (x ∷ xs) = (step x, Each-map R f step xs)

-- The client of a user of a vmess inbound: its id is the user's uuid, its email the user's email, or
-- the user's name where there is none.
abbrev pub IsVmessClient : InboundUser → VmessClient → Type 0
IsVmessClient user client =
    (client.id ≡ user.uuid)
    × (client.alter_id ≡ 0)
    × (client.email ≡ (if is_empty user.email then user.user else user.email))

abbrev pub shadowsocks_method : Inbound → Text
shadowsocks_method inbound = if is_empty inbound.method then inbound.cipher else inbound.method

-- The client of a user of a shadowsocks inbound. It has no method of its own if the inbound's is one of
-- Shadowsocks 2022, and else the user's method, the user's cipher or the inbound's method, the first of
-- them that is there.
abbrev pub IsShadowsocksClient : Inbound → InboundUser → ShadowsocksClient → Type 0
IsShadowsocksClient inbound user client =
    (client.password ≡ user.password)
    × (client.email ≡ (if is_empty user.email then user.user else user.email))
    × (client.method ≡ (
        if is_shadowsocks2022_method (shadowsocks_method inbound)
        then []
        else if not (is_empty user.method)
        then user.method
        else if not (is_empty user.cipher)
        then user.cipher
        else shadowsocks_method inbound))

-- The settings that belong to an inbound with the given users, one client for each of them in order.
abbrev pub HasClients : Inbound → List InboundUser → InboundSettings → Type 0
HasClients inbound users (vmess_settings clients stream) =
    ((inbound.protocol == codes "vmess") ≡ true)
    × (stream.network ≡ inbound.network)
    × Each IsVmessClient users clients
HasClients inbound users (shadowsocks_settings settings) =
    ((inbound.protocol == codes "shadowsocks") ≡ true)
    × (settings.method ≡ shadowsocks_method inbound)
    × (settings.password ≡ inbound.password)
    × Each (IsShadowsocksClient inbound) users settings.clients
HasClients inbound users (socks_settings settings) = (inbound.protocol == codes "socks5") ≡ true
HasClients inbound users (http_settings accounts) = (inbound.protocol == codes "http") ≡ true

abbrev pub IsRendered : Inbound → List InboundUser → InboundOutput → Type 0
IsRendered inbound users output =
    (output.listen ≡ inbound.listen)
    × (output.port ≡ inbound.port)
    × HasClients inbound users output.settings

-- The output of an inbound has clients for its users that are not disabled, and a vmess or shadowsocks
-- inbound that has a user has one that is not disabled.
abbrev pub Filters : DisabledUserSet → Text → Inbound → InboundOutput → Type 0
Filters disabled stack_name inbound output =
    IsRendered inbound (keep (λ u. not (has disabled stack_name u.user)) inbound.users) output
    × (((inbound.protocol == codes "vmess" || inbound.protocol == codes "shadowsocks")
          && not (is_empty inbound.users)
          && is_empty (keep (λ u. not (has disabled stack_name u.user)) inbound.users))
        ≡ false)

abbrev IsWhole : Inbound → InboundOutput → Type 0
IsWhole inbound = IsRendered inbound inbound.users

method_or_cipher_lem : (i : Inbound) → method_or_cipher i ≡ shadowsocks_method i
unfolding method_or_cipher
method_or_cipher_lem i = ground arith

vmess-IsWhole :
    (i : Inbound) → (i.protocol == codes "vmess") ≡ true → IsWhole i (render_vmess_inbound i)
unfolding render_vmess_inbound inbound_output vmess_client email_or_user
vmess-IsWhole i vmess = (
  refl,
  refl,
  (vmess, refl, Each-map IsVmessClient vmess_client (λ u. (refl, refl, refl)) i.users),
)

shadowsocks_client-IsShadowsocksClient :
    (i : Inbound) (u : InboundUser) → IsShadowsocksClient i u (shadowsocks_client i u)
unfolding shadowsocks_client email_or_user first_non_empty
shadowsocks_client-IsShadowsocksClient i u = (refl, refl, ground (arith, method_or_cipher_lem i))

shadowsocks-IsWhole :
    (i : Inbound)
    → (i.protocol == codes "shadowsocks") ≡ true
    → IsWhole i (render_shadowsocks_inbound i)
unfolding render_shadowsocks_inbound inbound_output
shadowsocks-IsWhole i shadowsocks = (
  refl,
  refl,
  (
    shadowsocks,
    method_or_cipher_lem i,
    refl,
    Each-map (IsShadowsocksClient i) (shadowsocks_client i)
        (shadowsocks_client-IsShadowsocksClient i) i.users,
  ),
)

socks-IsWhole :
    (i : Inbound) (output : InboundOutput)
    → (i.protocol == codes "socks5") ≡ true
    → render_socks_inbound i ≡ ok output
    → IsWhole i output
unfolding render_socks_inbound inbound_output
socks-IsWhole i output socks e =
    let (accounts, found, same) = >>=-ok (inbound_accounts i) _ e in
    subst (IsWhole i) (ok-injective same) (refl, refl, socks)

http-IsWhole :
    (i : Inbound) (output : InboundOutput)
    → (i.protocol == codes "http") ≡ true
    → render_http_inbound i ≡ ok output
    → IsWhole i output
unfolding render_http_inbound inbound_output
http-IsWhole i output http e =
    let (accounts, found, same) = >>=-ok (inbound_accounts i) _ e in
    subst (IsWhole i) (ok-injective same) (refl, refl, http)

render_inbound-IsWhole :
    (i : Inbound) (output : InboundOutput) → render_inbound i ≡ ok output → IsWhole i output
unfolding render_inbound
render_inbound-IsWhole i output e = elim (Bool-cases (i.protocol == codes "vmess")) [
  | inl vmess ↦
      let same : render_vmess_inbound i ≡ output = ground (arith, e, vmess) in
      subst (IsWhole i) same (vmess-IsWhole i vmess)
  | inr not_vmess ↦ elim (Bool-cases (i.protocol == codes "shadowsocks")) [
    | inl shadowsocks ↦
        let same : render_shadowsocks_inbound i ≡ output =
          ground (arith, e, not_vmess, shadowsocks) in
        subst (IsWhole i) same (shadowsocks-IsWhole i shadowsocks)
    | inr other ↦ elim (Bool-cases (i.protocol == codes "socks5")) [
      | inl socks ↦ socks-IsWhole i output socks (ground (arith, e, not_vmess, other, socks))
      | inr not_socks ↦ elim (Bool-cases (i.protocol == codes "http")) [
        | inl http ↦
            http-IsWhole i output http (ground (arith, e, not_vmess, other, not_socks, http))
        | inr unknown ↦ absurd (ground (arith, e, not_vmess, other, not_socks, unknown))
      ]
    ]
  ]
]

-- The settings of another protocol have no clients.
HasClients-other :
    (i : Inbound) (users users' : List InboundUser) (settings : InboundSettings)
    → (i.protocol == codes "vmess" || i.protocol == codes "shadowsocks") ≡ false
    → HasClients i users settings
    → HasClients i users' settings
HasClients-other i users users' (vmess_settings clients stream) other h =
    absurd (ground (arith, other, h.0))
HasClients-other i users users' (shadowsocks_settings settings) other h =
    absurd (ground (arith, other, h.0))
HasClients-other i users users' (socks_settings settings) other h = h
HasClients-other i users users' (http_settings accounts) other h = h

render_enabled_inbound-Filters :
    (disabled : DisabledUserSet) (stack_name : Text) (inbound : Inbound) (output : InboundOutput)
    → render_enabled_inbound disabled stack_name inbound ≡ ok output
    → Filters disabled stack_name inbound output
unfolding render_enabled_inbound
render_enabled_inbound-Filters disabled stack_name inbound output e =
    let (filtered, applied, rendered) =
      >>=-ok (apply_disabled_users inbound disabled stack_name) _ e in
    let enabled = keep (λ u. not (has disabled stack_name u.user)) inbound.users in
    let answer = apply_disabled_users_lem inbound disabled stack_name in
    let whole = render_inbound-IsWhole filtered output rendered in
    elim (Bool-cases
      (inbound.protocol == codes "vmess" || inbound.protocol == codes "shadowsocks")) [
        | inr fixed ↦
            let same : filtered ≡ inbound = ground (arith, applied, answer, fixed) in
            let (listen, port, clients) = subst (λ i. IsWhole i output) same whole in
            (
              (
                listen,
                port,
                HasClients-other inbound inbound.users enabled output.settings fixed clients,
              ),
              ground (arith, fixed),
            )
        | inl toggles ↦ elim (Bool-cases (not (is_empty inbound.users) && is_empty enabled)) [
          | inl refused ↦ absurd (ground (arith, applied, answer, toggles, refused))
          | inr accepted ↦
              let same : filtered ≡ record inbound { users = enabled } =
                ground (arith, applied, answer, toggles, accepted) in
              (subst (λ i. IsWhole i output) same whole, ground (arith, toggles, accepted))
        ]
      ]

render_with_graph-Each :
    (set : StackSet) (stack : Stack) (graph : ReferenceGraph) (config : Config)
    → render_with_graph set stack graph ≡ ok config
    → Each (Filters set.disabled_users stack.name) stack.xray.inbounds config.inbounds
unfolding render_with_graph rendered_config
render_with_graph-Each set stack graph config e =
    let (inbounds, each, rest) =
      >>=-ok (traverse (render_enabled_inbound set.disabled_users stack.name) stack.xray.inbounds) _
        e in
    let (outbounds, out, last) =
      >>=-ok (render_outbounds stack.xray.outbound graph stack.name) _ rest in
    subst
      (λ (c : Config). Each (Filters set.disabled_users stack.name) stack.xray.inbounds c.inbounds)
      (ok-injective last)
      (traverse-Each (render_enabled_inbound set.disabled_users stack.name)
        (Filters set.disabled_users stack.name)
        (render_enabled_inbound-Filters set.disabled_users stack.name) stack.xray.inbounds inbounds
        each)

pub render_stack-some :
    (set : StackSet) (stack : Stack)
    → (graph : Answer ReferenceGraph) × (render_stack set stack
        ≡ some (graph >>= λ g. render_with_graph set stack g))
unfolding render_stack
render_stack-some set stack =
    let (result, built) = build_reference_graph-some set in
    (
      graph_answer result,
      ap
          (λ (o : Option BuildResult). elim o as (λ _. Option (Answer Config)) [
            | none ↦ none
            | some r ↦ some (graph_answer r >>= λ g. render_with_graph set stack g)
          ])
          built,
    )

-- In a configuration that RenderConfig gives, each inbound of the stack, its references resolved, has one
-- output, in their order, with its address and port. That of a vmess or shadowsocks inbound has one
-- client for each user that is not disabled, in their order, with the user's email or else its name, and
-- with its uuid or its password and method; there is one if the inbound has a user. That of a socks5 or
-- http inbound has no clients.
pub render_config-Each :
    (to_lower : Text → Text) (decode : Text → Option Text) (set : StackSet) (stack_name : Text)
    (config : Config)
    → render_config to_lower decode set stack_name ≡ some (ok config)
    → (resolved : StackSet) × (stack : Stack) × (resolve_stack_set_user_refs to_lower decode set
        ≡ ok resolved)
      × (enabled_xray_stack resolved stack_name ≡ ok stack)
      × Each (Filters resolved.disabled_users stack.name) stack.xray.inbounds config.inbounds
unfolding render_config
render_config-Each to_lower decode set stack_name config e =
    from_resolved (resolve_stack_set_user_refs to_lower decode set) refl e
  where
    from_chosen :
        (resolved : StackSet) (chosen : Answer Stack)
        → render_chosen resolved chosen ≡ some (ok config)
        → (stack : Stack) × (chosen ≡ ok stack)
          × Each (Filters resolved.disabled_users stack.name) stack.xray.inbounds config.inbounds
    from_chosen resolved (error t) h = absurd (unfold render_chosen in ground (arith, h))
    from_chosen resolved (ok stack) h =
        let (graph, same) = render_stack-some resolved stack in
        let rendered : (graph >>= λ g. render_with_graph resolved stack g) ≡ ok config =
          unfold render_chosen in ground (arith, same, h) in
        let (g, built, with_graph) = >>=-ok graph _ rendered in
        (stack, refl, render_with_graph-Each resolved stack g config with_graph)

    from_resolved :
        (answer : Answer StackSet)
        → resolve_stack_set_user_refs to_lower decode set ≡ answer
        → render_resolved stack_name answer ≡ some (ok config)
        → (resolved : StackSet) × (stack : Stack) × (resolve_stack_set_user_refs to_lower decode set
            ≡ ok resolved)
          × (enabled_xray_stack resolved stack_name ≡ ok stack)
          × Each (Filters resolved.disabled_users stack.name) stack.xray.inbounds config.inbounds
    from_resolved (error t) same h = absurd (unfold render_resolved in ground (arith, h))
    from_resolved (ok resolved) same h =
        let (stack, chosen, each) =
          from_chosen resolved (enabled_xray_stack resolved stack_name)
            (unfold render_resolved in h) in
        (resolved, stack, same, chosen, each)

pub render_config-some :
    (to_lower : Text → Text) (decode : Text → Option Text) (set : StackSet) (stack_name : Text)
    → (answer : Answer Config) × (render_config to_lower decode set stack_name ≡ some answer)
unfolding render_config render_resolved render_chosen
render_config-some to_lower decode set stack_name =
    from_resolved (resolve_stack_set_user_refs to_lower decode set)
  where
    from_chosen :
        (resolved : StackSet) (chosen : Answer Stack)
        → (answer : Answer Config) × (render_chosen resolved chosen ≡ some answer)
    from_chosen resolved (error t) = (error t, refl)
    from_chosen resolved (ok stack) = (_, (render_stack-some resolved stack).1)

    from_resolved :
        (answer : Answer StackSet)
        → (result : Answer Config) × (render_resolved stack_name answer ≡ some result)
    from_resolved (error t) = (error t, refl)
    from_resolved (ok resolved) = from_chosen resolved (enabled_xray_stack resolved stack_name)
