-- ===== src/Graph/Compile/Covers.antt =====
-- The endpoints of the index belong to services that are nodes of the graph.
use proxystack_go.Prelude.{
  ℕ, ◌+◌, Text, Text_eq, ◌≡◌, refl, Bool, true, false, not, if◌then◌else◌, Bool-cases, List, [],
  ◌∷◌, some, Map, lookup, put, ◌∈◌, contains-add, add, ◌==◌, arith, inl, inr,
}
use mathlib.Core.Path.{subst}
use proxystack_go.Domain.{Stack, Inbound, ClashListener}
use proxystack_go.Graph.Nodes.{
  ServiceNode, ServiceNode_eq, ServiceNode_eq_iff, NodeSet, node_of, xray, clash,
}
use proxystack_go.Graph.References.{
  Endpoint, ReferenceIndex, inbound_endpoint, index_inbounds, index_xray_inbounds,
  listener_endpoint, index_listeners, index_clash_listeners, put_all, add_stack_endpoints,
  add_endpoints, new_reference_index, socks, http,
}
use proxystack_go.Graph.Compile.{add_stack_nodes, collect_nodes, collect_service_nodes}

-- All entries belong to stacks with the property.
abbrev pub AllStacks : (Text → Type 0) → Map Text Endpoint → Type 0
AllStacks P [] = Unit
AllStacks P ((ref, endpoint) ∷ m) = P endpoint.stack × AllStacks P m

module _ (P : Text → Type 0) where
  AllStacks-put :
      (ref : Text) (endpoint : Endpoint) (m : Map Text Endpoint)
      → P endpoint.stack
      → AllStacks P m
      → AllStacks P (put ref endpoint m)
  unfolding put
  AllStacks-put ref endpoint [] p h = (p, tt)
  AllStacks-put ref endpoint ((r, e) ∷ m) p h = elim (Bool-cases (r == ref)) [
    | inl same ↦ rw same (p, h.1)
    | inr other ↦ rw other (h.0, AllStacks-put ref endpoint m p h.1)
  ]

  AllStacks-put_all :
      (from into : Map Text Endpoint)
      → AllStacks P from
      → AllStacks P into
      → AllStacks P (put_all from into)
  unfolding put_all
  AllStacks-put_all [] into h k = k
  AllStacks-put_all ((ref, endpoint) ∷ from) into h k =
      AllStacks-put_all from (put ref endpoint into) h.1 (AllStacks-put ref endpoint into h.0 k)

  pub AllStacks-lookup :
      (m : Map Text Endpoint) (ref : Text) (endpoint : Endpoint)
      → AllStacks P m
      → lookup m ref ≡ some endpoint
      → P endpoint.stack
  unfolding lookup
  AllStacks-lookup [] ref endpoint h e = cc
  AllStacks-lookup ((r, x) ∷ m) ref endpoint h e = elim (Bool-cases (r == ref)) [
    | inl same ↦ let here : x ≡ endpoint = ground arith in subst (λ y. P y.stack) here h.0
    | inr other ↦ AllStacks-lookup m ref endpoint h.1 (rw other at e)
  ]

  index_inbounds-AllStacks :
      (stack : Stack) (i : ℕ) (inbounds : List Inbound) (m : Map Text Endpoint)
      → P stack.name
      → AllStacks P m
      → AllStacks P (index_inbounds stack i inbounds m)
  unfolding index_inbounds inbound_endpoint
  index_inbounds-AllStacks stack i [] m p h = h
  index_inbounds-AllStacks stack i (inbound ∷ inbounds) m p h =
      let endpoint = inbound_endpoint stack i inbound in
      index_inbounds-AllStacks stack (i + 1) inbounds (put endpoint.ref endpoint m) p
        (AllStacks-put endpoint.ref endpoint m p h)

  index_listeners-AllStacks :
      (stack : Stack) (kind : Text) (i : ℕ) (listeners : List ClashListener) (m : Map Text Endpoint)
      → P stack.name
      → AllStacks P m
      → AllStacks P (index_listeners stack kind i listeners m)
  unfolding index_listeners listener_endpoint
  index_listeners-AllStacks stack kind i [] m p h = h
  index_listeners-AllStacks stack kind i (listener ∷ listeners) m p h =
      let endpoint = listener_endpoint stack kind i listener in
      index_listeners-AllStacks stack kind (i + 1) listeners (put endpoint.ref endpoint m) p
        (AllStacks-put endpoint.ref endpoint m p h)

-- The set has a node for each enabled service of the stacks.
abbrev pub Covers : NodeSet → List Stack → Type 0
Covers nodes [] = Unit
Covers nodes (stack ∷ stacks) =
    (stack.enabled ≡ true → stack.xray.enabled ≡ true → node_of stack.name xray ∈ nodes)
    × (stack.enabled ≡ true → stack.clash.enabled ≡ true → node_of stack.name clash ∈ nodes)
    × Covers nodes stacks

collect_nodes-grows :
    (stacks : List Stack) (nodes : NodeSet) (v : ServiceNode)
    → v ∈ nodes
    → v ∈ collect_nodes stacks nodes
unfolding collect_nodes add_stack_nodes
collect_nodes-grows [] nodes v m = m
collect_nodes-grows (stack ∷ stacks) nodes v m =
    collect_nodes-grows stacks (add_stack_nodes stack nodes) v (
      ground (
        arith,
        contains-add (node_of stack.name xray) nodes v,
        contains-add (node_of stack.name clash) nodes v,
        contains-add (node_of stack.name clash) (add (node_of stack.name xray) nodes) v,
      ))

collect_nodes-Covers :
    (stacks : List Stack) (nodes : NodeSet) → Covers (collect_nodes stacks nodes) stacks
unfolding collect_nodes
collect_nodes-Covers [] nodes = tt
collect_nodes-Covers (stack ∷ stacks) nodes =
    let x = node_of stack.name xray in
    let c = node_of stack.name clash in
    let next = add_stack_nodes stack nodes in
    (
      λ on on_xray. collect_nodes-grows stacks next x (
          unfold add_stack_nodes in
          ground (
            arith,
            contains-add x nodes x,
            contains-add c (add x nodes) x,
            ServiceNode_eq_iff x x,
          )),
      λ on on_clash. collect_nodes-grows stacks next c (
          unfold add_stack_nodes in
          ground (
            arith,
            contains-add c nodes c,
            contains-add c (add x nodes) c,
            ServiceNode_eq_iff c c,
          )),
      collect_nodes-Covers stacks next,
    )

-- Every enabled service is a node of the graph.
pub collect_service_nodes-Covers :
    (stacks : List Stack) → Covers (collect_service_nodes stacks) stacks
unfolding collect_service_nodes
collect_service_nodes-Covers stacks = collect_nodes-Covers stacks []

-- All endpoints belong to nodes of the set.
pub record IsBacked (nodes : NodeSet) (index : ReferenceIndex) : Type 0 where
  pub inbounds : AllStacks (λ name. node_of name xray ∈ nodes) index.xray_inbounds
  pub listeners : AllStacks (λ name. node_of name clash ∈ nodes) index.clash_listeners

AllStacks-if :
    (P : Text → Type 0) (b : Bool) (m n : Map Text Endpoint)
    → (b ≡ true → AllStacks P m)
    → AllStacks P n
    → AllStacks P (if b then m else n)
AllStacks-if P true m n h k = h refl
AllStacks-if P false m n h k = k

IsBacked-unless :
    (nodes : NodeSet) (b : Bool) (old new : ReferenceIndex)
    → IsBacked nodes old
    → (b ≡ true → IsBacked nodes new)
    → IsBacked nodes (if not b then old else new)
IsBacked-unless nodes true old new h k = k refl
IsBacked-unless nodes false old new h k = h

module _ (nodes : NodeSet) (stack : Stack) where
  index_xray_inbounds-AllStacks :
      node_of stack.name xray ∈ nodes
      → AllStacks (λ name. node_of name xray ∈ nodes) (index_xray_inbounds stack)
  unfolding index_xray_inbounds
  index_xray_inbounds-AllStacks p =
      index_inbounds-AllStacks (λ name. node_of name xray ∈ nodes) stack 0 stack.xray.inbounds [] p
        tt

  index_clash_listeners-AllStacks :
      node_of stack.name clash ∈ nodes
      → AllStacks (λ name. node_of name clash ∈ nodes) (index_clash_listeners stack)
  unfolding index_clash_listeners
  index_clash_listeners-AllStacks p =
      let C = λ (name : Text). node_of name clash ∈ nodes in
      index_listeners-AllStacks C stack http 0 stack.clash.listeners.http
        (index_listeners stack socks 0 stack.clash.listeners.socks []) p
        (index_listeners-AllStacks C stack socks 0 stack.clash.listeners.socks [] p tt)

  add_stack_endpoints-IsBacked :
      (index : ReferenceIndex)
      → (stack.enabled ≡ true → stack.xray.enabled ≡ true → node_of stack.name xray ∈ nodes)
      → (stack.enabled ≡ true → stack.clash.enabled ≡ true → node_of stack.name clash ∈ nodes)
      → IsBacked nodes index
      → IsBacked nodes (add_stack_endpoints stack index)
  unfolding add_stack_endpoints
  add_stack_endpoints-IsBacked index has_x has_c h =
      IsBacked-unless nodes stack.enabled index _ h λ on. record {
        inbounds =
            AllStacks-if (λ name. node_of name xray ∈ nodes) stack.xray.enabled
              (put_all (index_xray_inbounds stack) index.xray_inbounds) index.xray_inbounds
              (λ on_x.
                AllStacks-put_all (λ name. node_of name xray ∈ nodes) (index_xray_inbounds stack)
                  index.xray_inbounds (index_xray_inbounds-AllStacks (has_x on on_x)) h.inbounds)
              h.inbounds;
        listeners =
            AllStacks-if (λ name. node_of name clash ∈ nodes) stack.clash.enabled
              (put_all (index_clash_listeners stack) index.clash_listeners) index.clash_listeners
              (λ on_c.
                AllStacks-put_all (λ name. node_of name clash ∈ nodes) (index_clash_listeners stack)
                  index.clash_listeners (index_clash_listeners-AllStacks (has_c on on_c))
                  h.listeners)
              h.listeners;
      }

add_endpoints-IsBacked :
    (nodes : NodeSet) (stacks : List Stack) (index : ReferenceIndex)
    → Covers nodes stacks
    → IsBacked nodes index
    → IsBacked nodes (add_endpoints stacks index)
unfolding add_endpoints
add_endpoints-IsBacked nodes [] index c h = h
add_endpoints-IsBacked nodes (stack ∷ stacks) index c h =
    add_endpoints-IsBacked nodes stacks (add_stack_endpoints stack index) c.2
      (add_stack_endpoints-IsBacked nodes stack index c.0 c.1 h)

pub new_reference_index-IsBacked :
    (stacks : List Stack) → IsBacked (collect_service_nodes stacks) (new_reference_index stacks)
unfolding new_reference_index
new_reference_index-IsBacked stacks =
    add_endpoints-IsBacked (collect_service_nodes stacks) stacks
      (record { xray_inbounds = []; clash_listeners = [] }) (collect_service_nodes-Covers stacks)
      (record { inbounds = tt; listeners = tt })
