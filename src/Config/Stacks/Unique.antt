-- ===== src/Config/Stacks/Unique.antt =====
-- internal/domain/validation/validation.go and ensureUnique: no repeated name or port is accepted.
use proxystack_go.Prelude.{
  ℕ, ℕ_eq, ◌≡◌, refl, Text, Text_eq, text_eq_iff, nat_eq_iff, is_some, is_empty, if◌then◌else◌,
  false, inl, inr, Bool-cases, Option-cases, contains, contains-add, ◌∈◌, add, IsNodup, lookup,
  lookup-put, put, map, List, [], ◌∷◌, none, Map, arith, ◌↔◌,
}
use proxystack_go.Domain.{Stack}
use proxystack_go.Config.Values.{first_repeated, ensure_unique}
use proxystack_go.Config.Stacks.{
  PortBinding, repeated_ports, validate_unique_ports, repeated_names, validate_unique_stack_names,
}

abbrev ports_of : List PortBinding → List ℕ
ports_of bindings = map (λ b. b.port) bindings

abbrev names_of : List Stack → List Text
names_of stacks = map (λ s. s.name) stacks

repeated_ports-none :
    (seen : Map ℕ PortBinding) (bindings : List PortBinding)
    → (repeated_ports seen bindings ≡ []) ↔ (
        IsNodup (ports_of bindings)
        × ((p : ℕ) → p ∈ ports_of bindings → is_some (lookup seen p) ≡ false))
unfolding repeated_ports contains
repeated_ports-none seen [] = (λ e. (tt, λ p m. absurd (ground arith)), λ h. refl)
repeated_ports-none seen (binding ∷ bindings) =
    let next = put binding.port binding seen in
    let ih = repeated_ports-none next bindings in
    elim (Option-cases (lookup seen binding.port)) [
      | inr (first, old) ↦ (
        λ e. absurd (ground (arith, old)),
        λ h. absurd (ground (arith, old, h.1 binding.port, nat_eq_iff binding.port binding.port)),
      )
      | inl new ↦ (
        λ e.
            let later = ih.0 (ground (arith, new)) in
            (
              (
                elim (Bool-cases (contains (ports_of bindings) binding.port)) [
                  | inl again ↦ absurd (
                      ground (
                        arith,
                        later.1 binding.port again,
                        lookup-put binding.port binding seen binding.port,
                        nat_eq_iff binding.port binding.port,
                      ))
                  | inr never ↦ never
                ],
                later.0,
              ),
              λ p m. ground (
                arith,
                new,
                later.1 p,
                lookup-put binding.port binding seen p,
                nat_eq_iff binding.port p,
              ),
            ),
        λ h.
            let rest = ih.1 (
              h.0.1,
              λ p m. ground (
                arith,
                h.1 p,
                h.0.0,
                lookup-put binding.port binding seen p,
                nat_eq_iff binding.port p,
              ),
            ) in
            ground (arith, new, rest),
      )
    ]

-- ValidateUniquePorts reports nothing exactly if all bindings have different ports.
pub validate_unique_ports_lem :
    (bindings : List PortBinding)
    → (validate_unique_ports bindings ≡ []) ↔ IsNodup (map (λ b. b.port) bindings)
unfolding validate_unique_ports lookup
validate_unique_ports_lem bindings =
    let both = repeated_ports-none [] bindings in (λ e. (both.0 e).0, λ h. both.1 (h, λ p m. refl))

repeated_names-none :
    (seen : Map Text Text) (stacks : List Stack)
    → (repeated_names seen stacks ≡ []) ↔ (
        IsNodup (names_of stacks)
        × ((n : Text) → n ∈ names_of stacks → is_some (lookup seen n) ≡ false))
unfolding repeated_names contains
repeated_names-none seen [] = (λ e. (tt, λ n m. absurd (ground arith)), λ h. refl)
repeated_names-none seen (stack ∷ stacks) =
    let path = if is_empty stack.source_path then stack.name else stack.source_path in
    let ih = repeated_names-none (put stack.name path seen) stacks in
    elim (Option-cases (lookup seen stack.name)) [
      | inr (first, old) ↦ (
        λ e. absurd (ground (arith, old)),
        λ h. absurd (ground (arith, old, h.1 stack.name, text_eq_iff stack.name stack.name)),
      )
      | inl new ↦ (
        λ e.
            let later = ih.0 (ground (arith, new)) in
            (
              (
                elim (Bool-cases (contains (names_of stacks) stack.name)) [
                  | inl again ↦ absurd (
                      ground (
                        arith,
                        later.1 stack.name again,
                        lookup-put stack.name path seen stack.name,
                        text_eq_iff stack.name stack.name,
                      ))
                  | inr never ↦ never
                ],
                later.0,
              ),
              λ n m. ground (
                arith,
                new,
                later.1 n,
                lookup-put stack.name path seen n,
                text_eq_iff stack.name n,
              ),
            ),
        λ h.
            let rest = ih.1 (
              h.0.1,
              λ n m. ground (
                arith,
                h.1 n,
                h.0.0,
                lookup-put stack.name path seen n,
                text_eq_iff stack.name n,
              ),
            ) in
            ground (arith, new, rest),
      )
    ]

-- ValidateUniqueStackNames reports nothing exactly if all stacks have different names.
pub validate_unique_stack_names_lem :
    (stacks : List Stack)
    → (validate_unique_stack_names stacks ≡ []) ↔ IsNodup (map (λ s. s.name) stacks)
unfolding validate_unique_stack_names lookup
validate_unique_stack_names_lem stacks =
    let both = repeated_names-none [] stacks in (λ e. (both.0 e).0, λ h. both.1 (h, λ n m. refl))

first_repeated-none :
    (seen values : List Text) (message : Text)
    → (first_repeated seen values message ≡ none)
      ↔ (IsNodup values × ((v : Text) → v ∈ values → contains seen v ≡ false))
unfolding first_repeated contains
first_repeated-none seen [] message = (λ e. (tt, λ v m. absurd (ground arith)), λ h. refl)
first_repeated-none seen (value ∷ values) message =
    let ih = first_repeated-none (add value seen) values message in
    elim (Bool-cases (contains seen value)) [
      | inl old ↦ (
        λ e. absurd (ground (arith, old)),
        λ h. absurd (ground (arith, old, h.1 value, text_eq_iff value value)),
      )
      | inr new ↦ (
        λ e.
            let later = ih.0 (ground (arith, new)) in
            (
              (
                elim (Bool-cases (contains values value)) [
                  | inl again ↦ absurd (
                      ground (
                        arith,
                        later.1 value again,
                        contains-add value seen value,
                        text_eq_iff value value,
                      ))
                  | inr never ↦ never
                ],
                later.0,
              ),
              λ v m. ground (arith, new, later.1 v, contains-add value seen v, text_eq_iff value v),
            ),
        λ h.
            let rest = ih.1 (
              h.0.1,
              λ v m. ground (arith, h.1 v, h.0.0, contains-add value seen v, text_eq_iff value v),
            ) in
            ground (arith, new, rest),
      )
    ]

-- ensureUnique accepts exactly the lists without a repetition.
pub ensure_unique_lem :
    (values : List Text) (message : Text) → (ensure_unique values message ≡ none) ↔ IsNodup values
unfolding ensure_unique contains
ensure_unique_lem values message =
    let both = first_repeated-none [] values message in
    (λ e. (both.0 e).0, λ h. both.1 (h, λ v m. refl))
