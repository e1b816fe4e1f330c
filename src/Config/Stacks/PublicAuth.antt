-- ===== src/Config/Stacks/PublicAuth.antt =====
-- internal/domain/validation/validation.go: which inbounds ValidatePublicInboundAuth reports.
use proxystack_go.Prelude.{
  ℕ, zero, suc, ◌+◌, ◌≡◌, refl, sym, ap, ◌∙◌, ◌↔◌, Text, Text_eq, text_eq_iff, codes, Bool, true,
  false, not, ◌&&◌, ◌||◌, ◌==◌, inl, inr, Bool-cases, contains, contains-append, map, map-append,
  List, [], ◌∷◌, ◌++◌, Option, none, some, arith,
}
use proxystack_go.Domain.{Inbound, Stack, GlobalConfig}
use proxystack_go.Graph.Compile.{Issue}
use proxystack_go.Config.Listen.{Net, is_loopback_host}
use proxystack_go.Config.Inbounds.{has_password_auth}
use proxystack_go.Config.Resolve.{inbound_path}
use proxystack_go.Config.Stacks.{
  lacks_auth, inbounds_without_auth, stacks_without_auth, validate_public_inbound_auth,
}

-- The element at an index.
abbrev pub at {ℓ} : {A : Type ℓ} → List A → ℕ → Option A
at [] n = none
at (x ∷ xs) zero = some x
at (x ∷ xs) (suc n) = at xs n

-- A socks5 or http inbound that listens neither on "localhost" nor on a loopback address, and whose auth
-- is not of the type "password".
abbrev pub is_open : Net → Inbound → Bool
is_open net inbound =
    (inbound.protocol == codes "socks5" || inbound.protocol == codes "http")
    && not (inbound.listen == codes "localhost" || net.is_loopback_ip inbound.listen)
    && not (elim inbound.auth [ none ↦ false | some auth ↦ auth.type == codes "password" ])

-- The path of an open inbound of the list, whose first element has the index `start`.
abbrev OpenFrom : Net → Text → ℕ → List Inbound → Text → Type 0
OpenFrom net stack start inbounds path =
    (index : ℕ) × (inbound : Inbound) × (at inbounds index ≡ some inbound)
    × (is_open net inbound ≡ true)
    × (inbound_path stack (start + index) ++ codes ".auth" ≡ path)

-- The path of the auth of an open inbound of an enabled Xray of an enabled stack.
abbrev pub OpenPath : Net → List Stack → Text → Type 0
OpenPath net stacks path =
    (position : ℕ) × (stack : Stack) × (at stacks position ≡ some stack)
    × (stack.enabled ≡ true)
    × (stack.xray.enabled ≡ true)
    × OpenFrom net stack.name 0 stack.xray.inbounds path

abbrev pub paths_of : List Issue → List Text
paths_of issues = map (λ issue. issue.path) issues

lacks_auth-is_open : (net : Net) (inbound : Inbound) → lacks_auth net inbound ≡ is_open net inbound
unfolding lacks_auth is_loopback_host has_password_auth
lacks_auth-is_open net inbound = refl

OpenFrom-later :
    (net : Net) (stack : Text) (start : ℕ) (inbound : Inbound) (inbounds : List Inbound)
    (path : Text)
    → OpenFrom net stack (start + 1) inbounds path
    → OpenFrom net stack start (inbound ∷ inbounds) path
OpenFrom-later net stack start inbound inbounds path (index, found, here, open_, same) = (
  suc index,
  found,
  here,
  open_,
  ap (λ n. inbound_path stack n ++ codes ".auth") (omega arith) ∙ same,
)

inbounds_without_auth-open :
    (net : Net) (stack : Text) (start : ℕ) (inbounds : List Inbound) (path : Text)
    → contains (paths_of (inbounds_without_auth net stack start inbounds)) path ≡ true
    → OpenFrom net stack start inbounds path
unfolding inbounds_without_auth contains
inbounds_without_auth-open net stack start [] path h = absurd (ground (arith, h))
inbounds_without_auth-open net stack start (inbound ∷ inbounds) path h =
    let later : contains (paths_of (inbounds_without_auth net stack (start + 1) inbounds)) path
          ≡ true
        → OpenFrom net stack start (inbound ∷ inbounds) path =
      λ e.
        OpenFrom-later net stack start inbound inbounds path
          (inbounds_without_auth-open net stack (start + 1) inbounds path e) in
    elim (Bool-cases (lacks_auth net inbound)) [
      | inr fine ↦ later (ground (arith, h, fine))
      | inl bare ↦ elim (Bool-cases (inbound_path stack start ++ codes ".auth" == path)) [
        | inr other ↦ later (ground (arith, h, bare, other))
        | inl same ↦ (
          0,
          inbound,
          refl,
          sym (lacks_auth-is_open net inbound) ∙ bare,
          ap (λ n. inbound_path stack n ++ codes ".auth") (omega arith) ∙ (text_eq_iff _ _).0 same,
        )
      ]
    ]

open-inbounds_without_auth :
    (net : Net) (stack : Text) (inbounds : List Inbound) (path : Text) (start index : ℕ)
    (found : Inbound)
    → at inbounds index ≡ some found
    → is_open net found ≡ true
    → inbound_path stack (start + index) ++ codes ".auth" ≡ path
    → contains (paths_of (inbounds_without_auth net stack start inbounds)) path ≡ true
unfolding inbounds_without_auth contains
open-inbounds_without_auth net stack [] path start index found here open_ same =
    absurd (ground (arith, here))
open-inbounds_without_auth net stack (inbound ∷ inbounds) path start zero found here open_ same =
    let first : inbound ≡ found = ground (arith, here) in
    let bare : lacks_auth net inbound ≡ true =
      lacks_auth-is_open net inbound ∙ ap (is_open net) first ∙ open_ in
    let reported : (inbound_path stack start ++ codes ".auth" == path) ≡ true =
      (text_eq_iff _ _).1 (ap (λ n. inbound_path stack n ++ codes ".auth") (omega arith) ∙ same) in
    ground (arith, bare, reported)
open-inbounds_without_auth net stack (inbound ∷ inbounds) path start (suc index) found here open_
      same =
    let later =
      open-inbounds_without_auth net stack inbounds path (start + 1) index found here open_
        (ap (λ n. inbound_path stack n ++ codes ".auth") (omega arith) ∙ same) in
    ground (arith, later)

stacks_without_auth-open :
    (net : Net) (stacks : List Stack) (path : Text)
    → contains (paths_of (stacks_without_auth net stacks)) path ≡ true
    → OpenPath net stacks path
unfolding stacks_without_auth contains
stacks_without_auth-open net [] path h = absurd (ground (arith, h))
stacks_without_auth-open net (stack ∷ stacks) path h =
    let later : contains (paths_of (stacks_without_auth net stacks)) path ≡ true
        → OpenPath net (stack ∷ stacks) path =
      λ e.
        (let (position, found, here, on, xray_on, own) =
            stacks_without_auth-open net stacks path e in
          (suc position, found, here, on, xray_on, own)) in
    let own = paths_of (inbounds_without_auth net stack.name 0 stack.xray.inbounds) in
    let both =
      map-append (λ (i : Issue). i.path)
        (inbounds_without_auth net stack.name 0 stack.xray.inbounds)
        (stacks_without_auth net stacks) in
    elim (Bool-cases (stack.enabled && stack.xray.enabled)) [
      | inr off ↦ later (ground (arith, h, off))
      | inl on ↦ elim (Bool-cases (contains own path)) [
        | inl mine ↦ (
          0,
          stack,
          refl,
          ground (arith, on),
          ground (arith, on),
          inbounds_without_auth-open net stack.name 0 stack.xray.inbounds path mine,
        )
        | inr other ↦ later (
            ground (
              arith,
              h,
              on,
              other,
              both,
              contains-append own (paths_of (stacks_without_auth net stacks)) path,
            ))
      ]
    ]

open-stacks_without_auth :
    (net : Net) (stacks : List Stack) (path : Text) (position : ℕ) (stack : Stack)
    → at stacks position ≡ some stack
    → stack.enabled ≡ true
    → stack.xray.enabled ≡ true
    → OpenFrom net stack.name 0 stack.xray.inbounds path
    → contains (paths_of (stacks_without_auth net stacks)) path ≡ true
unfolding stacks_without_auth contains
open-stacks_without_auth net [] path position stack here on xray_on own =
    absurd (ground (arith, here))
open-stacks_without_auth net (first ∷ stacks) path zero stack here on xray_on own =
    let (index, found, there, open_, same) = own in
    let this : first ≡ stack = ground (arith, here) in
    let listed =
      ap
        (λ (s : Stack).
          contains (paths_of (inbounds_without_auth net s.name 0 s.xray.inbounds)) path)
        this
      ∙ open-inbounds_without_auth net stack.name stack.xray.inbounds path 0 index found there open_
          same in
    let enabled = ap (λ (s : Stack). s.enabled) this ∙ on in
    let xray_enabled = ap (λ (s : Stack). s.xray.enabled) this ∙ xray_on in
    let both =
      map-append (λ (i : Issue). i.path)
        (inbounds_without_auth net first.name 0 first.xray.inbounds)
        (stacks_without_auth net stacks) in
    ground (
      arith,
      enabled,
      xray_enabled,
      listed,
      both,
      contains-append (paths_of (inbounds_without_auth net first.name 0 first.xray.inbounds))
          (paths_of (stacks_without_auth net stacks)) path,
    )
open-stacks_without_auth net (first ∷ stacks) path (suc position) stack here on xray_on own =
    let later = open-stacks_without_auth net stacks path position stack here on xray_on own in
    let both =
      map-append (λ (i : Issue). i.path)
        (inbounds_without_auth net first.name 0 first.xray.inbounds)
        (stacks_without_auth net stacks) in
    ground (
      arith,
      later,
      both,
      contains-append (paths_of (inbounds_without_auth net first.name 0 first.xray.inbounds))
          (paths_of (stacks_without_auth net stacks)) path,
    )

-- ValidatePublicInboundAuth reports exactly the inbounds that it should: where the configuration asks for
-- authentication and does not allow its lack, the paths of the socks5 and http inbounds of an enabled
-- Xray of an enabled stack that listen neither on "localhost" nor on a loopback address and have no auth
-- of the type "password"; otherwise none.
pub validate_public_inbound_auth_lem :
    (net : Net) (config : GlobalConfig) (stacks : List Stack) (path : Text)
    → (contains (paths_of (validate_public_inbound_auth net config stacks)) path ≡ true) ↔ (
        (config.security.require_auth_for_public_socks_http ≡ true)
        × (config.security.allow_noauth_public ≡ false)
        × OpenPath net stacks path)
unfolding validate_public_inbound_auth
validate_public_inbound_auth_lem net config stacks path = (
  λ reported.
      elim (Bool-cases (
        config.security.require_auth_for_public_socks_http
        && not config.security.allow_noauth_public)) [
          | inr unasked ↦ absurd (unfold contains in ground (arith, reported, unasked))
          | inl asked ↦ (
            ground (arith, asked),
            ground (arith, asked),
            stacks_without_auth-open net stacks path (ground (arith, reported, asked)),
          )
        ],
  λ (required, refused, open_).
      let (position, stack, here, on, xray_on, own) = open_ in
      ground (
        arith,
        required,
        refused,
        open-stacks_without_auth net stacks path position stack here on xray_on own,
      ),
)
