-- ===== src/Sub/Merge/Laws.antt =====
-- internal/generator/sub/input.go: what MergeInputs guarantees.
use proxystack_go.Prelude.{
  ◌≡◌, refl, sym, ap, ◌∙◌, inl, inr, Text, Text_eq, is_empty, Bool, true, false, contains, keep,
  lookup, map, List, [], ◌∷◌, Bool-cases, ok, IsNodup, >>=-ok, arith,
}
use mathlib.Core.Path.{subst}
use proxystack_go.Sub.{
  Node, Input, InputFile, Access, Index, with_server, resolve_external_host_default, proxy_name_key,
  normalized_access,
}
use proxystack_go.Sub.Merge.{nodes_of, Merging, merge_files, merge_inputs}
use proxystack_go.Sub.Merge.Unique.{input_nodes, AllValid, IsTracked, merge_files-ok}
use proxystack_go.Sub.Merge.Users.{of_user, build_index-ok}

with_server-twice :
    (host : Text) (nodes : List Node)
    → map (with_server host) (map (with_server host) nodes) ≡ map (with_server host) nodes
unfolding with_server
with_server-twice host [] = refl
with_server-twice host (node ∷ nodes) =
    ap (λ n. n ∷ map (with_server host) (map (with_server host) nodes))
      (same (is_empty node.server) refl)
    ∙ ap (λ l. with_server host node ∷ l) (with_server-twice host nodes)
  where
    same :
        (b : Bool)
        → is_empty node.server ≡ b
        → with_server host (with_server host node) ≡ with_server host node
    same true h = ap (λ s. record node { server = s }) (ground (arith, h))
    same false h = ap (λ s. record node { server = s }) (ground (arith, h))

-- The default host is filled in once: a second time changes nothing.
pub resolve_external_host_default-idempotent :
    (i : Input)
    → resolve_external_host_default (resolve_external_host_default i)
      ≡ resolve_external_host_default i
unfolding resolve_external_host_default
resolve_external_host_default-idempotent i = elim (Bool-cases (is_empty i.external_host)) [
  | inl empty ↦ ap (λ nodes. record i { nodes = nodes }) (ground (arith, empty))
  | inr host ↦
      ap (λ nodes. record i { nodes = nodes })
        (ground (arith, host, with_server-twice i.external_host i.nodes))
]

start : Merging
start = record { nodes = []; sources = []; node_sources = []; proxy_name_sources = [] }

start-IsTracked : IsTracked start
unfolding start lookup contains
start-IsTracked = ((tt, λ k. refl), (tt, λ k. refl))

-- If MergeInputs returns an index, every input is one that Validate accepts, and the index has the
-- nodes of all inputs in their order with the default host filled in, no two of them with one id, no
-- two of one user with one remark; its sources are those of the inputs in order, its access is the
-- normalised one, and each user has exactly the nodes that name it, in their order.
pub merge_inputs_lem :
    (files : List InputFile) (access : Access) (generated_at : Text) {index : Index}
    → merge_inputs files access generated_at ≡ ok index
    → AllValid files
      × (index.nodes ≡ input_nodes files)
      × IsNodup (map (λ n. n.id) index.nodes)
      × IsNodup (map proxy_name_key index.nodes)
      × (index.sources ≡ map (λ f. f.input.source) files)
      × (index.access ≡ normalized_access access)
      × ((user : Text) → nodes_of index.users user ≡ keep (of_user user) index.nodes)
unfolding merge_inputs start
merge_inputs_lem files access generated_at e =
    let (m, merged, built) = >>=-ok (merge_files files start) _ e in
    let (tracked, nodes, sources, valid) = merge_files-ok files start start-IsTracked merged in
    let (time, allowed, n, s, a, t, users) =
      build_index-ok m.nodes m.sources access generated_at built in
    (
      valid,
      n ∙ nodes,
      subst (λ l. IsNodup (map (λ (x : Node). x.id) l)) (sym n) tracked.0.0,
      subst (λ l. IsNodup (map proxy_name_key l)) (sym n) tracked.1.0,
      s ∙ sources,
      a,
      λ user. users user ∙ ap (keep (of_user user)) (sym n),
    )
