-- ===== src/Graph/Compile/Connected.antt =====
-- Where the compilation reports no issue, every reference between enabled services has its edge.
use proxystack_go.Prelude.{
  ℕ, ◌+◌, Text_eq, text_eq_iff, codes, ◌≡◌, ◌∙◌, sym, refl, ap, true, List, [], ◌∷◌, ◌==◌,
}
use mathlib.Core.Path.{subst}
use mathlib.Core.List.{Memᴰ}
use proxystack_go.Domain.{Stack, ClashUpstream}
use proxystack_go.Graph.Nodes.{ServiceNode, ServiceNode_eq, clash}
use proxystack_go.Graph.References.{ReferenceIndex}
use proxystack_go.Graph.Compile.{
  Compiling, connect_outbound, add_xray_dependencies, connect_upstream, add_upstream, add_upstreams,
  add_clash_dependencies, add_dependencies,
}
use proxystack_go.Graph.Compile.Steps.{
  IsOutbound, OutboundEdge, UpstreamEdge, connect_outbound-StepCase, connect_upstream-StepCase,
  StepCase-Grows, StepCase-silent, Grows, Grows-refl, Grows-trans,
}
use proxystack_go.Graph.Compile.Requires.{guard_ind, guard3_ind, guard_open, guard3_open}
use proxystack_go.Graph.Compile.Edges.{has_edge}

module _ (index : ReferenceIndex) where
  add_xray_dependencies-Grows :
      (stack : Stack) (c : Compiling) → Grows c (add_xray_dependencies stack index c)
  unfolding add_xray_dependencies
  add_xray_dependencies-Grows stack c =
      guard3_ind (Grows c) stack.enabled stack.xray.enabled (stack.xray.outbound.type == clash) c
        (connect_outbound stack index c) (Grows-refl c)
        λ _ _ _.
          StepCase-Grows (OutboundEdge index stack) c (connect_outbound stack index c)
            (connect_outbound-StepCase index stack c)

  add_upstream-Grows :
      (stack : Stack) (i : ℕ) (up : ClashUpstream) (c : Compiling)
      → Grows c (add_upstream stack index i up c)
  unfolding add_upstream
  add_upstream-Grows stack i up c =
      guard_ind (Grows c) true (up.type == codes "xray-socks5") c
        (connect_upstream stack index i up c) (Grows-refl c)
        λ _ _.
          StepCase-Grows (UpstreamEdge index stack up) c (connect_upstream stack index i up c)
            (connect_upstream-StepCase index stack i up c)

  add_upstreams-Grows :
      (stack : Stack) (i : ℕ) (ups : List ClashUpstream) (c : Compiling)
      → Grows c (add_upstreams stack index i ups c)
  unfolding add_upstreams
  add_upstreams-Grows stack i [] c = Grows-refl c
  add_upstreams-Grows stack i (up ∷ ups) c =
      Grows-trans c (add_upstream stack index i up c) _ (add_upstream-Grows stack i up c)
        (add_upstreams-Grows stack (i + 1) ups (add_upstream stack index i up c))

  add_clash_dependencies-Grows :
      (stack : Stack) (c : Compiling) → Grows c (add_clash_dependencies stack index c)
  unfolding add_clash_dependencies
  add_clash_dependencies-Grows stack c =
      guard_ind (Grows c) stack.enabled stack.clash.enabled c
        (add_upstreams stack index 0 stack.clash.upstreams c) (Grows-refl c)
        λ _ _. add_upstreams-Grows stack 0 stack.clash.upstreams c

  pub add_dependencies-Grows :
      (stacks : List Stack) (c : Compiling) → Grows c (add_dependencies stacks index c)
  unfolding add_dependencies
  add_dependencies-Grows [] c = Grows-refl c
  add_dependencies-Grows (stack ∷ stacks) c =
      let d = add_xray_dependencies stack index c in
      let e = add_clash_dependencies stack index d in
      Grows-trans c d _ (add_xray_dependencies-Grows stack c)
        (Grows-trans d e _ (add_clash_dependencies-Grows stack d) (add_dependencies-Grows stacks e))

  -- The reference resolves, and the map has its edge.
  abbrev pub HasEdge : (ServiceNode → ServiceNode → Type 0) → Compiling → Type 0
  HasEdge P c = (u : ServiceNode) × (v : ServiceNode) × P u v × (has_edge c.dependencies u v ≡ true)

  HasEdge-Grows :
      (P : ServiceNode → ServiceNode → Type 0) (c r : Compiling)
      → Grows c r
      → HasEdge P c
      → HasEdge P r
  HasEdge-Grows P c r g (u, v, p, e) = (u, v, p, g.edges u v e)

  outbound-HasEdge :
      (stack : Stack) (c : Compiling)
      → IsOutbound stack
      → (add_xray_dependencies stack index c).issues ≡ []
      → HasEdge (OutboundEdge index stack) (add_xray_dependencies stack index c)
  unfolding add_xray_dependencies
  outbound-HasEdge stack c (on, on_xray, typed) =
      guard3_open (λ r. r.issues ≡ [] → HasEdge (OutboundEdge index stack) r) stack.enabled
        stack.xray.enabled (stack.xray.outbound.type == clash) c (connect_outbound stack index c) on
        on_xray ((text_eq_iff stack.xray.outbound.type clash).1 typed)
        (StepCase-silent (OutboundEdge index stack) c (connect_outbound stack index c)
          (connect_outbound-StepCase index stack c))

  upstream-HasEdge :
      (stack : Stack) (i : ℕ) (up : ClashUpstream) (c : Compiling)
      → up.type ≡ codes "xray-socks5"
      → (add_upstream stack index i up c).issues ≡ []
      → HasEdge (UpstreamEdge index stack up) (add_upstream stack index i up c)
  unfolding add_upstream
  upstream-HasEdge stack i up c typed =
      guard_open (λ r. r.issues ≡ [] → HasEdge (UpstreamEdge index stack up) r) true
        (up.type == codes "xray-socks5") c (connect_upstream stack index i up c) refl
        ((text_eq_iff up.type (codes "xray-socks5")).1 typed)
        (StepCase-silent (UpstreamEdge index stack up) c (connect_upstream stack index i up c)
          (connect_upstream-StepCase index stack i up c))

  upstreams-HasEdge :
      (stack : Stack) (i : ℕ) (ups : List ClashUpstream) (up : ClashUpstream) (c : Compiling)
      → Memᴰ up ups
      → up.type ≡ codes "xray-socks5"
      → (add_upstreams stack index i ups c).issues ≡ []
      → HasEdge (UpstreamEdge index stack up) (add_upstreams stack index i ups c)
  unfolding add_upstreams
  upstreams-HasEdge stack i [] up c m typed silent = elim m [ ]
  upstreams-HasEdge stack i (w ∷ ups) up c (Memᴰ.head same) typed silent =
      let d = add_upstream stack index i w c in
      let later = add_upstreams-Grows stack (i + 1) ups d in
      subst (λ x. HasEdge (UpstreamEdge index stack x) (add_upstreams stack index (i + 1) ups d))
        (sym same)
        (HasEdge-Grows (UpstreamEdge index stack w) d _ later (
          upstream-HasEdge stack i w c (sym (ap (λ (x : ClashUpstream). x.type) same) ∙ typed)
            (later.silent silent)))
  upstreams-HasEdge stack i (w ∷ ups) up c (Memᴰ.tail m) typed silent =
      upstreams-HasEdge stack (i + 1) ups up (add_upstream stack index i w c) m typed silent

  clash-HasEdge :
      (stack : Stack) (up : ClashUpstream) (c : Compiling)
      → (stack.enabled ≡ true) × (stack.clash.enabled ≡ true)
      → Memᴰ up stack.clash.upstreams
      → up.type ≡ codes "xray-socks5"
      → (add_clash_dependencies stack index c).issues ≡ []
      → HasEdge (UpstreamEdge index stack up) (add_clash_dependencies stack index c)
  unfolding add_clash_dependencies
  clash-HasEdge stack up c (on, on_clash) m typed =
      guard_open (λ r. r.issues ≡ [] → HasEdge (UpstreamEdge index stack up) r) stack.enabled
        stack.clash.enabled c (add_upstreams stack index 0 stack.clash.upstreams c) on on_clash
        (upstreams-HasEdge stack 0 stack.clash.upstreams up c m typed)

  -- Without an issue, the reference of each enabled xray with a clash outbound resolves and has
  -- its edge.
  pub all_outbounds :
      (stacks : List Stack) (stack : Stack) (c : Compiling)
      → Memᴰ stack stacks
      → IsOutbound stack
      → (add_dependencies stacks index c).issues ≡ []
      → HasEdge (OutboundEdge index stack) (add_dependencies stacks index c)
  unfolding add_dependencies
  all_outbounds [] stack c m h silent = elim m [ ]
  all_outbounds (w ∷ stacks) stack c (Memᴰ.head same) h silent =
      let d = add_xray_dependencies w index c in
      let e = add_clash_dependencies w index d in
      let later =
        Grows-trans d e _ (add_clash_dependencies-Grows w d) (add_dependencies-Grows stacks e) in
      subst (λ x. HasEdge (OutboundEdge index x) (add_dependencies stacks index e)) (sym same)
        (HasEdge-Grows (OutboundEdge index w) d _ later
          (outbound-HasEdge w c (subst IsOutbound same h) (later.silent silent)))
  all_outbounds (w ∷ stacks) stack c (Memᴰ.tail m) h silent =
      all_outbounds stacks stack (add_clash_dependencies w index (add_xray_dependencies w index c))
        m h silent

  abbrev pub IsUpstream : Stack → ClashUpstream → Type 0
  IsUpstream stack up =
      (stack.enabled ≡ true)
      × (stack.clash.enabled ≡ true)
      × Memᴰ up stack.clash.upstreams
      × (up.type ≡ codes "xray-socks5")

  -- So has each upstream of an enabled clash that refers to an xray inbound.
  pub all_upstreams :
      (stacks : List Stack) (stack : Stack) (up : ClashUpstream) (c : Compiling)
      → Memᴰ stack stacks
      → IsUpstream stack up
      → (add_dependencies stacks index c).issues ≡ []
      → HasEdge (UpstreamEdge index stack up) (add_dependencies stacks index c)
  unfolding add_dependencies
  all_upstreams [] stack up c m h silent = elim m [ ]
  all_upstreams (w ∷ stacks) stack up c (Memᴰ.head same) h silent =
      let d = add_xray_dependencies w index c in
      let e = add_clash_dependencies w index d in
      let h' = subst (λ x. IsUpstream x up) same h in
      let later = add_dependencies-Grows stacks e in
      subst (λ x. HasEdge (UpstreamEdge index x up) (add_dependencies stacks index e)) (sym same)
        (HasEdge-Grows (UpstreamEdge index w up) e _ later
          (clash-HasEdge w up d (h'.0, h'.1) h'.2 h'.3 (later.silent silent)))
  all_upstreams (w ∷ stacks) stack up c (Memᴰ.tail m) h silent =
      all_upstreams stacks stack up
        (add_clash_dependencies w index (add_xray_dependencies w index c)) m h silent
