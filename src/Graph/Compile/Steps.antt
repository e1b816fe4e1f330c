-- ===== src/Graph/Compile/Steps.antt =====
-- What one reference does while the graph is compiled: it reports an issue or adds an edge.
use proxystack_go.Prelude.{
  ℕ, Text, Text_eq, text_eq_iff, codes, ◌≡◌, ◌≢◌, refl, true, false, ◌||◌, ◌&&◌, not, if◌then◌else◌,
  Bool, Bool-cases, List, [], ◌∷◌, ◌++◌, Option, none, some, lookup, ◌==◌, arith, inl, inr, ◌⊎◌,
}
use mathlib.Core.Path.{subst, subst₂}
use proxystack_go.Domain.{Stack, ClashUpstream}
use proxystack_go.Graph.Nodes.{
  ServiceNode, ServiceNode_eq, ServiceNode_eq_iff, node_of, xray, clash,
}
use proxystack_go.Graph.References.{
  ReferenceIndex, Endpoint, RefResult, ParsedRef, parsed, refused, parse_component_ref,
  parse_xray_inbound_ref, resolve_clash_listener, resolve_xray_inbound,
}
use proxystack_go.Graph.Compile.{
  Issue, Compiling, report, connect, outbound_path, upstream_path, connect_outbound,
  connect_upstream,
}
use proxystack_go.Graph.Compile.Edges.{has_edge, has_edge-add_dependency}

abbrev pub IsOutbound : Stack → Type 0
IsOutbound stack =
    (stack.enabled ≡ true) × (stack.xray.enabled ≡ true) × (stack.xray.outbound.type ≡ clash)

-- What a step does to the state: it reports one issue, or adds one edge that meets `P`.
pub data StepCase (P : ServiceNode → ServiceNode → Type 0) (c r : Compiling) : Type 0 where
  reported : (path message : Text) → r ≡ report path message c → StepCase P c r
  connected : (u v : ServiceNode) → P u v → r ≡ connect u v c → StepCase P c r

parse_component_ref-raw :
    (value path : Text) (p : ParsedRef) → parse_component_ref value path ≡ parsed p → p.raw ≡ value
unfolding parse_component_ref
parse_component_ref-raw value path p h = ground arith

parse_xray_inbound_ref-raw :
    (value path : Text) (p : ParsedRef)
    → parse_xray_inbound_ref value path ≡ parsed p
    → p.raw ≡ value
unfolding parse_xray_inbound_ref
parse_xray_inbound_ref-raw value path p h = ground arith

module _ (index : ReferenceIndex) (stack : Stack) where
  abbrev pub OutboundEdge : ServiceNode → ServiceNode → Type 0
  OutboundEdge u v =
      (endpoint : Endpoint) × (lookup index.clash_listeners stack.xray.outbound.ref ≡ some endpoint)
      × (u ≡ node_of stack.name xray)
      × (v ≡ node_of endpoint.stack clash)

  pub connect_outbound-StepCase :
      (c : Compiling) → StepCase OutboundEdge c (connect_outbound stack index c)
  unfolding connect_outbound resolve_clash_listener
  connect_outbound-StepCase c = go (parse_component_ref stack.xray.outbound.ref path) refl
    where
      path : Text
      path = outbound_path stack

      found :
          (p : ParsedRef)
          → p.raw ≡ stack.xray.outbound.ref
          → (o : Option Endpoint) → resolve_clash_listener index p.raw ≡ o
          → StepCase OutboundEdge c (elim o [
            | none ↦ report path (codes "clash listener ref does not exist: " ++ p.raw) c
            | some endpoint ↦ connect (node_of stack.name xray) (node_of endpoint.stack clash) c
          ])
      found p raw none e = reported path _ refl
      found p raw (some endpoint) e =
          connected (node_of stack.name xray) (node_of endpoint.stack clash)
            (
              endpoint,
              subst (λ ref. lookup index.clash_listeners ref ≡ some endpoint) raw e,
              refl,
              refl,
            )
            refl

      tested :
          (p : ParsedRef)
          → p.raw ≡ stack.xray.outbound.ref
          → (a b : Bool)
          → StepCase OutboundEdge c (
              if not a
              then report path (codes "xray clash outbound ref must target clash component") c
              else if not b
              then report path (codes "xray clash outbound ref must target socks listener") c
              else elim (resolve_clash_listener index p.raw) [
                | none ↦ report path (codes "clash listener ref does not exist: " ++ p.raw) c
                | some endpoint ↦ connect (node_of stack.name xray) (node_of endpoint.stack clash) c
              ])
      tested p raw false b = reported path _ refl
      tested p raw true false = reported path _ refl
      tested p raw true true = found p raw (resolve_clash_listener index p.raw) refl

      go :
          (r : RefResult ParsedRef)
          → parse_component_ref stack.xray.outbound.ref path ≡ r
          → StepCase OutboundEdge c (connect_outbound stack index c)
      go (refused e) h = reported path e.message (rw (h, connect_outbound))
      go (parsed p) h = rw (h, connect_outbound) (tested p (parse_component_ref-raw _ path p h) _ _)

  abbrev pub UpstreamEdge : ClashUpstream → ServiceNode → ServiceNode → Type 0
  UpstreamEdge upstream u v =
      (endpoint : Endpoint) × (lookup index.xray_inbounds upstream.ref ≡ some endpoint)
      × (endpoint.kind ≡ codes "socks5")
      × (u ≡ node_of stack.name clash)
      × (v ≡ node_of endpoint.stack xray)

  pub connect_upstream-StepCase :
      (i : ℕ) (upstream : ClashUpstream) (c : Compiling)
      → StepCase (UpstreamEdge upstream) c (connect_upstream stack index i upstream c)
  unfolding connect_upstream resolve_xray_inbound
  connect_upstream-StepCase i upstream c = go (parse_xray_inbound_ref upstream.ref path) refl
    where
      path : Text
      path = upstream_path stack i

      wrong_kind : Endpoint → ParsedRef → Text
      wrong_kind endpoint p =
          codes "xray-socks5 ref must target socks5 inbound, got "
          ++ endpoint.kind
          ++ codes ": "
          ++ p.raw

      tested :
          (p : ParsedRef) (endpoint : Endpoint)
          → lookup index.xray_inbounds upstream.ref ≡ some endpoint
          → (b : Bool) → (endpoint.kind == codes "socks5") ≡ b
          → StepCase (UpstreamEdge upstream) c (
              if not b
              then report path (wrong_kind endpoint p) c
              else connect (node_of stack.name clash) (node_of endpoint.stack xray) c)
      tested p endpoint e false h = reported path _ refl
      tested p endpoint e true h =
          connected (node_of stack.name clash) (node_of endpoint.stack xray)
            (endpoint, e, (text_eq_iff endpoint.kind (codes "socks5")).0 h, refl, refl) refl

      found :
          (p : ParsedRef)
          → p.raw ≡ upstream.ref
          → (o : Option Endpoint) → resolve_xray_inbound index p.raw ≡ o
          → StepCase (UpstreamEdge upstream) c (elim o [
            | none ↦ report path (codes "xray inbound ref does not exist: " ++ p.raw) c
            | some endpoint ↦
                if not (endpoint.kind == codes "socks5")
                then report path (wrong_kind endpoint p) c
                else connect (node_of stack.name clash) (node_of endpoint.stack xray) c
          ])
      found p raw none e = reported path _ refl
      found p raw (some endpoint) e =
          tested p endpoint (subst (λ ref. lookup index.xray_inbounds ref ≡ some endpoint) raw e)
            (endpoint.kind == codes "socks5") refl

      go :
          (r : RefResult ParsedRef)
          → parse_xray_inbound_ref upstream.ref path ≡ r
          → StepCase (UpstreamEdge upstream) c (connect_upstream stack index i upstream c)
      go (refused e) h = reported path e.message (rw (h, connect_upstream))
      go (parsed p) h =
          rw (h, connect_upstream)
            (found p (parse_xray_inbound_ref-raw _ path p h) (resolve_xray_inbound index p.raw)
              refl)

append-ne-nil : (xs : List Issue) (x : Issue) → xs ++ x ∷ [] ≢ []
append-ne-nil [] x = cc
append-ne-nil (y ∷ xs) x = cc

-- Edges and issues are only added.
pub record Grows (c r : Compiling) : Type 0 where
  pub edges :
      (u v : ServiceNode) → has_edge c.dependencies u v ≡ true → has_edge r.dependencies u v ≡ true
  pub silent : r.issues ≡ [] → c.issues ≡ []

pub Grows-refl : (c : Compiling) → Grows c c
Grows-refl c = record { edges = λ u v h. h; silent = λ h. h }

pub Grows-trans : (c d r : Compiling) → Grows c d → Grows d r → Grows c r
Grows-trans c d r g h = record {
  edges = λ u v e. h.edges u v (g.edges u v e);
  silent = λ e. g.silent (h.silent e);
}

Grows-report : (path message : Text) (c : Compiling) → Grows c (report path message c)
unfolding report
Grows-report path message c = record {
  edges = λ u v h. h;
  silent = λ e. absurd (append-ne-nil c.issues _ e);
}

has_edge-connect :
    (s t : ServiceNode) (c : Compiling) (u v : ServiceNode)
    → has_edge (connect s t c).dependencies u v ≡ (has_edge c.dependencies u v || s == u && t == v)
unfolding connect
has_edge-connect s t c u v = has_edge-add_dependency s t c.dependencies u v

Grows-connect : (s t : ServiceNode) (c : Compiling) → Grows c (connect s t c)
unfolding connect
Grows-connect s t c = record {
  edges = λ u v h. ground (arith, has_edge-add_dependency s t c.dependencies u v);
  silent = λ e. e;
}

module _ (P : ServiceNode → ServiceNode → Type 0) (c r : Compiling) where
  pub StepCase-Grows : StepCase P c r → Grows c r
  StepCase-Grows (reported path message e) = rw e (Grows-report path message c)
  StepCase-Grows (connected s t p e) = rw e (Grows-connect s t c)

  -- A new edge meets `P`.
  pub StepCase-edge :
      (u v : ServiceNode)
      → StepCase P c r
      → has_edge r.dependencies u v ≡ true
      → (has_edge c.dependencies u v ≡ true) ⊎ P u v
  unfolding report
  StepCase-edge u v (reported path message e) h = inl (rw e at h)
  StepCase-edge u v (connected s t p e) h = elim (Bool-cases (has_edge c.dependencies u v)) [
    | inl old ↦ inl old
    | inr new ↦
        let same : (s ≡ u) × (t ≡ v) = (
          ground (
            arith,
            e,
            has_edge-connect s t c u v,
            ServiceNode_eq_iff s u,
            ServiceNode_eq_iff t v,
          ),
          ground (
            arith,
            e,
            has_edge-connect s t c u v,
            ServiceNode_eq_iff s u,
            ServiceNode_eq_iff t v,
          ),
        ) in
        inr (subst₂ P same.0 same.1 p)
  ]

  -- Without an issue there is an edge, and it meets `P`.
  pub StepCase-silent :
      StepCase P c r
      → r.issues ≡ []
      → (u : ServiceNode) × (v : ServiceNode) × P u v × (has_edge r.dependencies u v ≡ true)
  unfolding report
  StepCase-silent (reported path message e) h = absurd (append-ne-nil c.issues _ (rw e at h))
  StepCase-silent (connected s t p e) h = (
    s,
    t,
    p,
    rw e (
        ground (arith, has_edge-connect s t c s t, ServiceNode_eq_iff s s, ServiceNode_eq_iff t t)),
  )
