-- ===== src/Sub/SurgeContext.antt =====
-- internal/generator/sub/render.go: what the context of a Surge subscription lists.
use proxystack_go.Prelude.{
  ◌≡◌, refl, ℕ, ◌||◌, Text, Text_eq, codes, is_empty, Bool, true, false, Bool-cases, inl, inr, ◌==◌,
  IsNodup, map, List, [], ◌∷◌, ◌++◌, Option, arith,
}
use proxystack_go.Prelude.Sort.{any}
use proxystack_go.Yaml.{Yaml}
use proxystack_go.Sub.{Node}
use proxystack_go.Sub.ClashProxy.{proxy_names_for_nodes}
use proxystack_go.Sub.SurgeFields.{join_with, comma_joined}
use proxystack_go.Sub.Surge.{
  plain_surge_line, vmess_surge_line, direct_vmess_surge_line, render_surge_proxy,
  unsupported_surge_node_reason, filter_surge_supported_nodes, surge_lines_of,
  build_surge_template_context,
}
use proxystack_go.Sub.Grouped.{remarks_in, names_under, regions_of, render_surge_region_groups_lem}

filled-append : (s : Text) (t : Text) → is_empty s ≡ false → is_empty (s ++ t) ≡ false
filled-append [] t h = absurd (ground arith)
filled-append (a ∷ s) t h = refl

append-filled : (s : Text) (a : ℕ) (t : Text) → is_empty (s ++ a ∷ t) ≡ false
append-filled [] a t = refl
append-filled (b ∷ s) a t = refl

join_with-filled :
    (separator part : Text) (parts : List Text)
    → is_empty part ≡ false
    → is_empty (join_with separator (part ∷ parts)) ≡ false
unfolding join_with
join_with-filled separator part [] h = h
join_with-filled separator part (next ∷ parts) h =
    filled-append (part ++ separator) _ (filled-append part separator h)

plain_surge_line-filled :
    (node : Node)
    → (node.protocol == codes "shadowsocks"
        || node.protocol == codes "socks5"
        || node.protocol == codes "http")
      ≡ true
    → is_empty (plain_surge_line node) ≡ false
unfolding plain_surge_line
plain_surge_line-filled node h = elim (Bool-cases (node.protocol == codes "shadowsocks")) [
  | inl ss ↦ rw ss (
      filled-append _ _ (
        filled-append _ _ (
          filled-append _ _
            (filled-append _ _ (filled-append _ _ (append-filled node.remark _ _))))))
  | inr other ↦ elim (Bool-cases (node.protocol == codes "socks5")) [
    | inl socks ↦ rw other (
        rw socks (
          filled-append _ _
            (filled-append _ _ (filled-append _ _ (append-filled node.remark _ _)))))
    | inr rest ↦
        let web : (node.protocol == codes "http") ≡ true = ground arith in
        rw other
          (rw rest (rw web (filled-append _ _ (filled-append _ _ (append-filled node.remark _ _)))))
  ]
]

module _ (to_lower : Text → Text) (decode_bool : Yaml → Option Bool) where
  supported_plain :
      (node : Node)
      → (node.protocol == codes "vmess") ≡ false
      → is_empty (unsupported_surge_node_reason to_lower decode_bool node) ≡ true
      → (node.protocol == codes "shadowsocks"
          || node.protocol == codes "socks5"
          || node.protocol == codes "http")
        ≡ true
  unfolding unsupported_surge_node_reason
  supported_plain node other h = ground arith

  -- A supported node has a line.
  render_surge_proxy-filled :
      (node : Node)
      → is_empty (unsupported_surge_node_reason to_lower decode_bool node) ≡ true
      → is_empty (render_surge_proxy to_lower decode_bool node) ≡ false
  unfolding render_surge_proxy unsupported_surge_node_reason vmess_surge_line
      direct_vmess_surge_line comma_joined
  render_surge_proxy-filled node h = elim (Bool-cases (node.protocol == codes "vmess")) [
    | inl vmess ↦ elim (Bool-cases node.direct) [
      | inl direct ↦ rw vmess (rw direct (join_with-filled _ _ _ (append-filled node.remark _ _)))
      | inr rendered ↦
          rw vmess (rw rendered (join_with-filled _ _ _ (append-filled node.remark _ _)))
    ]
    | inr other ↦ rw other (plain_surge_line-filled node (supported_plain node other h))
  ]

  surge_lines_of-filter :
      (nodes : List Node)
      → surge_lines_of to_lower decode_bool
          (filter_surge_supported_nodes to_lower decode_bool nodes)
        ≡ map
            (render_surge_proxy to_lower decode_bool)
            (filter_surge_supported_nodes to_lower decode_bool nodes)
  unfolding surge_lines_of filter_surge_supported_nodes
  surge_lines_of-filter [] = refl
  surge_lines_of-filter (node ∷ nodes) =
      ground (arith, render_surge_proxy-filled node, surge_lines_of-filter nodes)

  any-surge_lines_of :
      (nodes : List Node) → any is_empty (surge_lines_of to_lower decode_bool nodes) ≡ false
  unfolding surge_lines_of
  any-surge_lines_of [] = refl
  any-surge_lines_of (node ∷ nodes) = ground (arith, any-surge_lines_of nodes)

-- The lines, the names and the region groups of the context stand for the same nodes, those that Surge
-- supports: a line and a name for each of them in their order, and for each region the groups of it list
-- the names of its nodes in their order. No line is empty, no region has two groups, and no group is empty.
pub build_surge_template_context_lem :
    (to_lower : Text → Text) (decode_bool : Yaml → Option Bool) (nodes : List Node)
    → let supported = filter_surge_supported_nodes to_lower decode_bool nodes in
      let context = build_surge_template_context to_lower decode_bool nodes in
      (context.proxy_lines ≡ map (render_surge_proxy to_lower decode_bool) supported)
      × (context.proxy_names ≡ map (λ n. n.remark) supported)
      × (any is_empty context.proxy_lines ≡ false)
      × ((region : Text) → names_under context.region_groups region ≡ remarks_in region supported)
      × IsNodup (regions_of context.region_groups)
      × (any (λ group. is_empty group.proxy_names) context.region_groups ≡ false)
unfolding build_surge_template_context proxy_names_for_nodes
build_surge_template_context_lem to_lower decode_bool nodes =
    let supported = filter_surge_supported_nodes to_lower decode_bool nodes in
    let (grouped, distinct, filled) = render_surge_region_groups_lem supported in
    (
      surge_lines_of-filter to_lower decode_bool nodes,
      refl,
      any-surge_lines_of to_lower decode_bool supported,
      grouped,
      distinct,
      filled,
    )
