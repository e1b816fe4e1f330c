-- ===== src/Config/Clash/Accepted.antt =====
-- internal/domain/models.go: what Validate guarantees of a Clash configuration that it accepts.
use proxystack_go.Prelude.{
  ◌≡◌, refl, ◌≤◌, length, Text, Text_eq, codes, Bool, true, false, not, contains, map, IsNodup,
  List, [], ◌∷◌, Option, none, some, Answer, ok, error, arith, >>=-ok, >>-ok, ok-injective,
  traverse,
}
use mathlib.Core.Path.{subst}
use proxystack_go.Prelude.Sort.{any}
use proxystack_go.Domain.{ClashListeners, ClashConfig}
use proxystack_go.Config.Checks.{then-none, refuse_if-none, second}
use proxystack_go.Config.Stacks.Unique.{ensure_unique_lem}
use proxystack_go.Config.Listen.{Net}
use proxystack_go.Config.Clash.{
  first_error, validate_listeners, extract_rule_target, validate_rule_target, check_group_targets,
  check_extra_rule, known_targets, default_rules, validate_group, validate_targets,
  validate_clash_parts, checked_clash, validate_clash,
}

first_error-any :
    {A : Type 0} (check : A → Option Text) (p : A → Bool)
    → ((x : A) → check x ≡ none → p x ≡ false)
    → (xs : List A) → first_error check xs ≡ none
    → any p xs ≡ false
unfolding first_error
first_error-any check p right [] e = refl
first_error-any check p right (x ∷ xs) e =
    let (accepted, rest) = (then-none _ _).0 e in
    ground (arith, right x accepted, first_error-any check p right xs rest)

-- The target of a rule is known.
abbrev pub rule_known : (Text → Text) → List Text → Text → Bool
rule_known trim known rule = elim (extract_rule_target trim rule) [
  | error e ↦ false
  | ok target ↦ contains known target
]

validate_rule_target-known :
    (target : Text) (known : List Text) (message : Text)
    → validate_rule_target target known message ≡ none
    → not (contains known target) ≡ false
unfolding validate_rule_target
validate_rule_target-known target known message e = (refuse_if-none _ _).0 e

check_extra_rule-known :
    (trim : Text → Text) (known : List Text) (rule : Text)
    → check_extra_rule trim known rule ≡ none
    → not (rule_known trim known rule) ≡ false
unfolding check_extra_rule
check_extra_rule-known trim known rule e = split (extract_rule_target trim rule) e
  where
    split :
        (answer : Answer Text)
        → (elim answer as (λ _. Option Text) [
          | error t ↦ some t
          | ok target ↦
              validate_rule_target target known (codes "rules.extra target does not exist")
        ])
          ≡ none
        → not (elim answer as (λ _. Bool) [ error t ↦ false | ok target ↦ contains known target ])
          ≡ false
    split (error t) h = absurd (ground (arith, h))
    split (ok target) h = validate_rule_target-known target known _ h

-- The names of a configuration are different, its listeners few, and its targets known.
abbrev pub IsClosed : (Text → Text) → ClashConfig → Type 0
IsClosed trim c =
    let known = known_targets c.upstreams c.groups in
    IsNodup (map (λ u. u.name) c.upstreams)
    × IsNodup (map (λ g. g.name) c.groups)
    × (length c.listeners.socks ≤ 1)
    × (length c.listeners.http ≤ 1)
    × (any (λ g. any (λ target. not (contains known target)) g.proxies) c.groups ≡ false)
    × (any (λ rule. not (rule_known trim known rule)) c.rules.extra ≡ false)
    × (contains known c.rules.final ≡ true)

validate_listeners-few :
    (l : ClashListeners) → validate_listeners l ≡ none → (length l.socks ≤ 1) × (length l.http ≤ 1)
unfolding validate_listeners
validate_listeners-few l e =
    let socks = (then-none _ _).0 (second _ _ e) in
    let http = (then-none _ _).0 socks.1 in
    (ground (arith, (refuse_if-none _ _).0 socks.0), ground (arith, (refuse_if-none _ _).0 http.0))

validate_clash_parts-few :
    (net : Net) (c : ClashConfig)
    → validate_clash_parts net c ≡ none
    → (length c.listeners.socks ≤ 1) × (length c.listeners.http ≤ 1)
unfolding validate_clash_parts
validate_clash_parts-few net c e =
    validate_listeners-few c.listeners
      ((then-none _ _).0 (second _ _ (second _ _ (second _ _ e)))).0

validate_targets-IsClosed :
    (trim : Text → Text) (c : ClashConfig)
    → validate_targets trim c ≡ none
    → (length c.listeners.socks ≤ 1) × (length c.listeners.http ≤ 1)
    → IsClosed trim c
unfolding validate_targets check_group_targets
validate_targets-IsClosed trim c e few =
    let known = known_targets c.upstreams c.groups in
    let upstreams = (then-none _ _).0 e in
    let groups = (then-none _ _).0 upstreams.1 in
    let proxies = (then-none _ _).0 (second _ _ groups.1) in
    let final = (then-none _ _).0 proxies.1 in
    (
      (ensure_unique_lem _ _).0 upstreams.0,
      (ensure_unique_lem _ _).0 groups.0,
      few.0,
      few.1,
      first_error-any (check_group_targets known)
          (λ g. any (λ target. not (contains known target)) g.proxies)
          (λ g h.
            first_error-any _ (λ target. not (contains known target))
              (λ target k. validate_rule_target-known target known _ k) g.proxies h)
          c.groups proxies.0,
      first_error-any (check_extra_rule trim known) (λ rule. not (rule_known trim known rule))
          (check_extra_rule-known trim known) c.rules.extra final.1,
      ground (arith, validate_rule_target-known c.rules.final known _ final.0),
    )

-- In a Clash configuration that Validate accepts, with what it fills in, no two upstreams and no two
-- groups share a name, there is at most one listener of each kind, and every proxy of a group, the
-- target of every extra rule and the final target are DIRECT, REJECT, an upstream or a group.
pub validate_clash_lem :
    (trim : Text → Text) (net : Net) (c accepted : ClashConfig)
    → validate_clash trim net c ≡ ok accepted
    → IsClosed trim accepted
unfolding validate_clash checked_clash
validate_clash_lem trim net c accepted e =
    let (parts, rest) = >>-ok (validate_clash_parts net c) _ e in
    let (groups, checked, last) = >>=-ok (traverse validate_group c.groups) _ rest in
    let filled = record c { groups = groups; rules = default_rules c.rules } in
    let (targets, same) = >>-ok (validate_targets trim filled) _ last in
    subst (IsClosed trim) (ok-injective same)
      (validate_targets-IsClosed trim filled targets (validate_clash_parts-few net c parts))
