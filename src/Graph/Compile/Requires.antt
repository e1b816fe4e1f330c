-- ===== src/Graph/Compile/Requires.antt =====
-- The edges of the dependency map are exactly the references between enabled services.
use proxystack_go.Prelude.{
  ℕ, ◌+◌, Text_eq, text_eq_iff, codes, ◌≡◌, refl, true, false, ◌||◌, not, if◌then◌else◌, Bool, List,
  [], ◌∷◌, some, lookup, ◌==◌, inl, inr,
}
use mathlib.Core.List.{Memᴰ}
use proxystack_go.Domain.{Stack, ClashUpstream}
use proxystack_go.Graph.Nodes.{ServiceNode, ServiceNode_eq, node_of, xray, clash}
use proxystack_go.Graph.References.{ReferenceIndex, Endpoint}
use proxystack_go.Graph.Compile.{
  Compiling, connect_outbound, add_xray_dependencies, connect_upstream, add_upstream, add_upstreams,
  add_clash_dependencies, add_dependencies,
}
use proxystack_go.Graph.Compile.Steps.{
  IsOutbound, OutboundEdge, UpstreamEdge, connect_outbound-StepCase, connect_upstream-StepCase,
  StepCase-edge,
}
use proxystack_go.Graph.Compile.Edges.{has_edge}

-- A service needs another one: an enabled xray whose outbound refers to a clash listener, or an
-- enabled clash with an upstream that refers to a socks5 inbound of an xray.
pub data Requires (index : ReferenceIndex) (stacks : List Stack) (u v : ServiceNode) : Type 0 where
  by_outbound :
      (stack : Stack) (endpoint : Endpoint)
      → Memᴰ stack stacks
      → IsOutbound stack
      → lookup index.clash_listeners stack.xray.outbound.ref ≡ some endpoint
      → u ≡ node_of stack.name xray
      → v ≡ node_of endpoint.stack clash
      → Requires index stacks u v
  by_upstream :
      (stack : Stack) (upstream : ClashUpstream) (endpoint : Endpoint)
      → Memᴰ stack stacks
      → (stack.enabled ≡ true) × (stack.clash.enabled ≡ true)
      → Memᴰ upstream stack.clash.upstreams
      → upstream.type ≡ codes "xray-socks5"
      → lookup index.xray_inbounds upstream.ref ≡ some endpoint
      → endpoint.kind ≡ codes "socks5"
      → u ≡ node_of stack.name clash
      → v ≡ node_of endpoint.stack xray
      → Requires index stacks u v

pub guard_ind {ℓ} :
    (P : Compiling → Type ℓ) (a b : Bool) (x y : Compiling)
    → P x
    → (a ≡ true → b ≡ true → P y)
    → P (if not a || not b then x else y)
guard_ind P true true x y px py = py refl refl
guard_ind P true false x y px py = px
guard_ind P false b x y px py = px

pub guard3_ind {ℓ} :
    (P : Compiling → Type ℓ) (a b t : Bool) (x y : Compiling)
    → P x
    → (a ≡ true → b ≡ true → t ≡ true → P y)
    → P (if not a || not b || not t then x else y)
guard3_ind P true true true x y px py = py refl refl refl
guard3_ind P true true false x y px py = px
guard3_ind P true false t x y px py = px
guard3_ind P false b t x y px py = px

-- The test is passed.
pub guard_open {ℓ} :
    (P : Compiling → Type ℓ) (a b : Bool) (x y : Compiling)
    → a ≡ true
    → b ≡ true
    → P y
    → P (if not a || not b then x else y)
guard_open P true true x y ha hb py = py
guard_open P true false x y ha hb py = absurd (cc hb)
guard_open P false b x y ha hb py = absurd (cc ha)

pub guard3_open {ℓ} :
    (P : Compiling → Type ℓ) (a b t : Bool) (x y : Compiling)
    → a ≡ true
    → b ≡ true
    → t ≡ true
    → P y
    → P (if not a || not b || not t then x else y)
guard3_open P true true true x y ha hb ht py = py
guard3_open P true true false x y ha hb ht py = absurd (cc ht)
guard3_open P true false t x y ha hb ht py = absurd (cc hb)
guard3_open P false b t x y ha hb ht py = absurd (cc ha)

module _ (index : ReferenceIndex) (all : List Stack) where
  -- Every edge is a reference.
  abbrev pub IsSound : Compiling → Type 0
  IsSound c = (u v : ServiceNode) → has_edge c.dependencies u v ≡ true → Requires index all u v

  add_xray_dependencies-IsSound :
      (stack : Stack) (c : Compiling)
      → Memᴰ stack all
      → IsSound c
      → IsSound (add_xray_dependencies stack index c)
  unfolding add_xray_dependencies
  add_xray_dependencies-IsSound stack c m h =
      guard3_ind IsSound stack.enabled stack.xray.enabled (stack.xray.outbound.type == clash) c
        (connect_outbound stack index c) h
        λ on on_xray is_clash u v e.
          elim (StepCase-edge (OutboundEdge index stack) c (connect_outbound stack index c) u v
            (connect_outbound-StepCase index stack c) e) [
              | inl old ↦ h u v old
              | inr (endpoint, found, from, to) ↦
                  by_outbound stack endpoint m
                    (on, on_xray, (text_eq_iff stack.xray.outbound.type clash).0 is_clash) found
                    from to
            ]

  add_upstream-IsSound :
      (stack : Stack) (i : ℕ) (up : ClashUpstream) (c : Compiling)
      → Memᴰ stack all
      → (stack.enabled ≡ true) × (stack.clash.enabled ≡ true)
      → Memᴰ up stack.clash.upstreams
      → IsSound c
      → IsSound (add_upstream stack index i up c)
  unfolding add_upstream
  add_upstream-IsSound stack i up c m on listed h =
      guard_ind IsSound true (up.type == codes "xray-socks5") c
        (connect_upstream stack index i up c) h
        λ _ typed u v e.
          elim (StepCase-edge (UpstreamEdge index stack up) c (connect_upstream stack index i up c)
            u v (connect_upstream-StepCase index stack i up c) e) [
              | inl old ↦ h u v old
              | inr (endpoint, found, kind, from, to) ↦
                  by_upstream stack up endpoint m on listed
                    ((text_eq_iff up.type (codes "xray-socks5")).0 typed) found kind from to
            ]

  add_upstreams-IsSound :
      (stack : Stack) (i : ℕ) (ups : List ClashUpstream) (c : Compiling)
      → Memᴰ stack all
      → (stack.enabled ≡ true) × (stack.clash.enabled ≡ true)
      → ((up : ClashUpstream) → Memᴰ up ups → Memᴰ up stack.clash.upstreams)
      → IsSound c
      → IsSound (add_upstreams stack index i ups c)
  unfolding add_upstreams
  add_upstreams-IsSound stack i [] c m on listed h = h
  add_upstreams-IsSound stack i (up ∷ ups) c m on listed h =
      add_upstreams-IsSound stack (i + 1) ups (add_upstream stack index i up c) m on
        (λ w n. listed w (Memᴰ.tail n))
        (add_upstream-IsSound stack i up c m on (listed up (Memᴰ.head refl)) h)

  add_clash_dependencies-IsSound :
      (stack : Stack) (c : Compiling)
      → Memᴰ stack all
      → IsSound c
      → IsSound (add_clash_dependencies stack index c)
  unfolding add_clash_dependencies
  add_clash_dependencies-IsSound stack c m h =
      guard_ind IsSound stack.enabled stack.clash.enabled c
        (add_upstreams stack index 0 stack.clash.upstreams c) h
        λ on on_clash.
          add_upstreams-IsSound stack 0 stack.clash.upstreams c m (on, on_clash) (λ w n. n) h

  -- Every edge that is compiled from the stacks is a reference between enabled services.
  pub add_dependencies-IsSound :
      (stacks : List Stack) (c : Compiling)
      → ((stack : Stack) → Memᴰ stack stacks → Memᴰ stack all)
      → IsSound c
      → IsSound (add_dependencies stacks index c)
  unfolding add_dependencies
  add_dependencies-IsSound [] c m h = h
  add_dependencies-IsSound (stack ∷ stacks) c m h =
      add_dependencies-IsSound stacks
        (add_clash_dependencies stack index (add_xray_dependencies stack index c))
        (λ w n. m w (Memᴰ.tail n))
        (add_clash_dependencies-IsSound stack (add_xray_dependencies stack index c)
          (m stack (Memᴰ.head refl))
          (add_xray_dependencies-IsSound stack c (m stack (Memᴰ.head refl)) h))
