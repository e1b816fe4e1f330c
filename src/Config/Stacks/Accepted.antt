-- ===== src/Config/Stacks/Accepted.antt =====
-- internal/domain/validation/validation.go: what ValidateStackSet guarantees of a set that it accepts.
use proxystack_go.Prelude.{
  ℕ, ℕ_eq, ◌≡◌, refl, Text, Text_eq, Bool, inl, inr, Option-cases, IsNodup, map, List, [], ◌∷◌,
  ◌++◌, Option, none, some, arith,
}
use mathlib.Core.Path.{subst}
use proxystack_go.Domain.{StackSet}
use proxystack_go.Graph.Compile.{
  CompileResult, built, compile_reference_graph, build_reference_graph, ReferenceGraph,
}
use proxystack_go.Graph.Compile.Total.{Answers, build_reference_graph-Answers}
use proxystack_go.Config.Listen.{Net}
use proxystack_go.Config.Names.{Templates}
use proxystack_go.Config.Stacks.{
  collect_port_bindings, validate_reference_graph, validate_stack_set, all_issues,
}
use proxystack_go.Config.Stacks.Unique.{validate_unique_ports_lem, validate_unique_stack_names_lem}

append-nil : {A : Type 0} (xs ys : List A) → xs ++ ys ≡ [] → (xs ≡ []) × (ys ≡ [])
append-nil [] ys e = (refl, e)
append-nil (x ∷ xs) ys e = absurd (ground arith)

build-none :
    (set : StackSet) → compile_reference_graph set ≡ none → build_reference_graph set ≡ none
unfolding build_reference_graph
build-none set e = ground (arith, e)

compile_reference_graph-answers :
    (set : StackSet) → (r : CompileResult) × (compile_reference_graph set ≡ some r)
compile_reference_graph-answers set = elim (Option-cases (compile_reference_graph set)) [
  | inr (r, e) ↦ (r, e)
  | inl e ↦
      absurd (subst (Answers set.stacks) (build-none set e) (build_reference_graph-Answers set))
]

build-silent :
    (set : StackSet) (r : CompileResult)
    → compile_reference_graph set ≡ some r
    → r.issues ≡ []
    → build_reference_graph set ≡ some (built r.graph)
unfolding build_reference_graph
build-silent set r e silent = ground (arith, e, silent)

validate_stack_set-of :
    (net : Net) (templates : Templates) (checker : Option (Text → ℕ → Bool)) (set : StackSet)
    (r : CompileResult)
    → compile_reference_graph set ≡ some r
    → validate_stack_set net templates checker set
      ≡ some (all_issues net templates checker set r.issues)
unfolding validate_stack_set validate_reference_graph
validate_stack_set-of net templates checker set r e = ground (arith, e)

-- If ValidateStackSet reports no issue, the stacks have different names, all ports that they listen
-- on differ, and BuildReferenceGraph builds a graph.
pub validate_stack_set-accepts :
    (net : Net) (templates : Templates) (checker : Option (Text → ℕ → Bool)) (set : StackSet)
    → validate_stack_set net templates checker set ≡ some []
    → IsNodup (map (λ s. s.name) set.stacks)
      × IsNodup (map (λ b. b.port) (collect_port_bindings net set))
      × ((g : ReferenceGraph) × (build_reference_graph set ≡ some (built g)))
unfolding all_issues
validate_stack_set-accepts net templates checker set accepted =
    let (r, e) = compile_reference_graph-answers set in
    let silent : all_issues net templates checker set r.issues ≡ [] =
      ground (arith, validate_stack_set-of net templates checker set r e, accepted) in
    let before_system = append-nil _ _ silent in
    let graph = append-nil _ _ before_system.0 in
    let ports = append-nil _ _ graph.0 in
    let proxies = append-nil _ _ ports.0 in
    let auth = append-nil _ _ proxies.0 in
    (
      (validate_unique_stack_names_lem set.stacks).0 auth.0,
      (validate_unique_ports_lem (collect_port_bindings net set)).0 ports.1,
      (r.graph, build-silent set r e graph.1),
    )
