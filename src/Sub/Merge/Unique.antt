-- ===== src/Sub/Merge/Unique.antt =====
-- internal/generator/sub/input.go: the loops of MergeInputs, which keep node ids and proxy names apart.
use proxystack_go.Prelude.{
  append_assoc, append_nil, map-append, ◌≡◌, refl, sym, ap, ◌∙◌, inl, inr, Text, Text_eq,
  text_eq_iff, is_some, false, contains, contains-append, IsNodup, IsNodup-snoc, lookup, put,
  lookup-put, map, List, [], ◌∷◌, ◌++◌, none, Option-cases, Map, ok, >>=-ok, >>-ok, ok-injective,
  ◌>>=◌, ◌>>◌, arith,
}
use mathlib.Core.Path.{subst}
use proxystack_go.Sub.{
  Node, InputFile, resolve_external_host_default, validate_input, proxy_name_key,
}
use proxystack_go.Sub.Merge.{Merging, recorded, merge_node, merge_nodes, merge_file, merge_files}

-- The nodes of all inputs in their order, with the default host filled in.
unfoldable pub input_nodes : List InputFile → List Node
input_nodes [] = []
input_nodes (file ∷ files) = (resolve_external_host_default file.input).nodes ++ input_nodes files

-- Every input is one that Validate accepts.
abbrev pub AllValid : List InputFile → Type 0
AllValid [] = Unit {0}
AllValid (file ∷ files) =
    (validate_input (resolve_external_host_default file.input) ≡ none) × AllValid files

-- What the two maps of MergeInputs record of the nodes so far.
abbrev pub Tracks : (Node → Text) → Map Text Text → List Node → Type 0
Tracks key sources nodes =
    IsNodup (map key nodes) × ((k : Text) → is_some (lookup sources k) ≡ contains (map key nodes) k)

abbrev pub IsTracked : Merging → Type 0
IsTracked m =
    Tracks (λ n. n.id) m.node_sources m.nodes × Tracks proxy_name_key m.proxy_name_sources m.nodes

module _ (key : Node → Text) (sources : Map Text Text) (nodes : List Node) (node : Node) where
  put-Tracks :
      (name : Text)
      → Tracks key sources nodes
      → lookup sources (key node) ≡ none
      → Tracks key (put (key node) name sources) (nodes ++ node ∷ [])
  unfolding contains
  put-Tracks name h fresh = rw (map-append key nodes (node ∷ [])) (
    IsNodup-snoc (map key nodes) (key node) h.0 (ground (arith, h.1 (key node), fresh)),
    λ k. ground (
      arith,
      lookup-put (key node) name sources k,
      contains-append (map key nodes) (key node ∷ []) k,
      h.1 k,
    ),
  )

  -- A key that the nodes do not repeat is not in the map yet.
  Tracks-fresh :
      Tracks key sources nodes
      → contains (map key nodes) (key node) ≡ false
      → lookup sources (key node) ≡ none
  Tracks-fresh h fresh = elim (Option-cases (lookup sources (key node))) [
    | inl e ↦ e
    | inr (first, e) ↦ absurd (ground (arith, h.1 (key node), fresh, e))
  ]

merge_node-recorded :
    (name : Text) (node : Node) (m : Merging) {next : Merging}
    → merge_node name node m ≡ ok next
    → (lookup m.node_sources node.id ≡ none)
      × (lookup m.proxy_name_sources (proxy_name_key node) ≡ none)
      × (recorded name node m ≡ next)
unfolding merge_node
merge_node-recorded name node m e = elim (Option-cases (lookup m.node_sources node.id)) [
  | inr (first, p) ↦ absurd (ground (arith, e, p))
  | inl p ↦ elim (Option-cases (lookup m.proxy_name_sources (proxy_name_key node))) [
    | inr (first, q) ↦ absurd (ground (arith, e, p, q))
    | inl q ↦ (p, q, ground (arith, e, p, q))
  ]
]

-- What a step of the merge leaves, if the maps were right before it.
abbrev Extends : Merging → List Node → Merging → Type 0
Extends m nodes next = IsTracked next × (next.nodes ≡ m.nodes ++ nodes) × (next.sources ≡ m.sources)

merge_node-ok :
    (name : Text) (node : Node) (m : Merging) {next : Merging}
    → IsTracked m
    → merge_node name node m ≡ ok next
    → Extends m (node ∷ []) next
unfolding recorded
merge_node-ok name node m h e =
    let (p, q, same) = merge_node-recorded name node m e in
    subst (λ n. Extends m (node ∷ []) n) same
      (
        (
          put-Tracks (λ n. n.id) m.node_sources m.nodes node name h.0 p,
          put-Tracks proxy_name_key m.proxy_name_sources m.nodes node name h.1 q,
        ),
        refl,
        refl,
      )

merge_nodes-ok :
    (name : Text) (nodes : List Node) (m : Merging) {next : Merging}
    → IsTracked m
    → merge_nodes name nodes m ≡ ok next
    → Extends m nodes next
unfolding merge_nodes
merge_nodes-ok name [] m h e =
    subst (λ n. Extends m [] n) (ok-injective e) (h, sym (append_nil m.nodes), refl)
merge_nodes-ok name (node ∷ nodes) m h e =
    let (middle, first, rest) = >>=-ok (merge_node name node m) (merge_nodes name nodes) e in
    let (h1, n1, s1) = merge_node-ok name node m h first in
    let (h2, n2, s2) = merge_nodes-ok name nodes middle h1 rest in
    (h2, n2 ∙ ap (λ l. l ++ nodes) n1 ∙ append_assoc m.nodes (node ∷ []) nodes, s2 ∙ s1)

merge_file-ok :
    (file : InputFile) (m : Merging) {next : Merging}
    → IsTracked m
    → merge_file file m ≡ ok next
    → (validate_input (resolve_external_host_default file.input) ≡ none)
      × IsTracked next
      × (next.nodes ≡ m.nodes ++ (resolve_external_host_default file.input).nodes)
      × (next.sources ≡ m.sources ++ file.input.source ∷ [])
unfolding merge_file resolve_external_host_default
merge_file-ok file m h e =
    let (valid, rest) = >>-ok _ _ e in
    let (h1, n1, s1) = merge_nodes-ok file.name _ _ h rest in (valid, h1, n1, s1)

pub merge_files-ok :
    (files : List InputFile) (m : Merging) {next : Merging}
    → IsTracked m
    → merge_files files m ≡ ok next
    → IsTracked next
      × (next.nodes ≡ m.nodes ++ input_nodes files)
      × (next.sources ≡ m.sources ++ map (λ f. f.input.source) files)
      × AllValid files
unfolding merge_files input_nodes
merge_files-ok [] m h e =
    subst (λ n. IsTracked n × (n.nodes ≡ m.nodes ++ []) × (n.sources ≡ m.sources ++ []) × Unit)
      (ok-injective e) (h, sym (append_nil m.nodes), sym (append_nil m.sources), tt)
merge_files-ok (file ∷ files) m h e =
    let (middle, first, rest) = >>=-ok (merge_file file m) (merge_files files) e in
    let (valid, h1, n1, s1) = merge_file-ok file m h first in
    let (h2, n2, s2, all) = merge_files-ok files middle h1 rest in
    (
      h2,
      n2 ∙ ap (λ l. l ++ input_nodes files) n1 ∙ append_assoc m.nodes _ (input_nodes files),
      s2
          ∙ ap (λ l. l ++ map (λ f. f.input.source) files) s1
          ∙ append_assoc m.sources (file.input.source ∷ []) (map (λ f. f.input.source) files),
      (valid, all),
    )

merge_node-fresh :
    (name : Text) (node : Node) (m : Merging)
    → IsTracked m
    → contains (map (λ n. n.id) m.nodes) node.id ≡ false
    → contains (map proxy_name_key m.nodes) (proxy_name_key node) ≡ false
    → (next : Merging) × (merge_node name node m ≡ ok next)
unfolding merge_node
merge_node-fresh name node m h new_id new_name = (
  recorded name node m,
  ground (
    arith,
    Tracks-fresh (λ n. n.id) m.node_sources m.nodes node h.0 new_id,
    Tracks-fresh proxy_name_key m.proxy_name_sources m.nodes node h.1 new_name,
  ),
)

-- A repeated key further on is one now, too.
IsNodup-append_fresh :
    (xs : List Text) (a : Text) (ys : List Text)
    → IsNodup (xs ++ a ∷ ys)
    → (contains xs a ≡ false) × IsNodup ((xs ++ a ∷ []) ++ ys)
unfolding contains
IsNodup-append_fresh xs a ys h = (fresh xs h, rw (append_assoc xs (a ∷ []) ys) h)
  where
    fresh : (zs : List Text) → IsNodup (zs ++ a ∷ ys) → contains zs a ≡ false
    fresh [] n = refl
    fresh (z ∷ zs) n = ground (
      arith,
      fresh zs n.1,
      contains-append zs (a ∷ ys) z,
      text_eq_iff a z,
      text_eq_iff z a,
      text_eq_iff a a,
      text_eq_iff z z,
    )

merge_nodes-fresh :
    (name : Text) (nodes : List Node) (m : Merging)
    → IsTracked m
    → IsNodup (map (λ n. n.id) m.nodes ++ map (λ n. n.id) nodes)
    → IsNodup (map proxy_name_key m.nodes ++ map proxy_name_key nodes)
    → (next : Merging) × (merge_nodes name nodes m ≡ ok next)
unfolding merge_nodes
merge_nodes-fresh name [] m h ids names = (m, refl)
merge_nodes-fresh name (node ∷ nodes) m h ids names =
    let (new_id, ids') = IsNodup-append_fresh _ _ _ ids in
    let (new_name, names') = IsNodup-append_fresh _ _ _ names in
    let (middle, first) = merge_node-fresh name node m h new_id new_name in
    let (h1, n1, s1) = merge_node-ok name node m h first in
    let (next, rest) =
      merge_nodes-fresh name nodes middle h1 (still (λ n. n.id) n1 ids')
        (still proxy_name_key n1 names') in
    (next, ap (λ a. a >>= merge_nodes name nodes) first ∙ rest)
  where
    still :
        (key : Node → Text) {after : List Node}
        → after ≡ m.nodes ++ node ∷ []
        → IsNodup ((map key m.nodes ++ key node ∷ []) ++ map key nodes)
        → IsNodup (map key after ++ map key nodes)
    still key same n =
        subst (λ l. IsNodup (l ++ map key nodes))
          (sym (ap (map key) same ∙ map-append key m.nodes (node ∷ []))) n

IsNodup-prefix : (xs ys : List Text) → IsNodup (xs ++ ys) → IsNodup xs
IsNodup-prefix [] ys h = tt
IsNodup-prefix (x ∷ xs) ys h =
    (ground (arith, h.0, contains-append xs ys x), IsNodup-prefix xs ys h.1)

pub merge_files-fresh :
    (files : List InputFile) (m : Merging)
    → IsTracked m
    → AllValid files
    → IsNodup (map (λ n. n.id) (m.nodes ++ input_nodes files))
    → IsNodup (map proxy_name_key (m.nodes ++ input_nodes files))
    → (next : Merging) × (merge_files files m ≡ ok next)
unfolding merge_files input_nodes merge_file
merge_files-fresh [] m h valid ids names = (m, refl)
merge_files-fresh (file ∷ files) m h valid ids names =
    let nodes = (resolve_external_host_default file.input).nodes in
    let start = record m {
      sources = m.sources ++ (resolve_external_host_default file.input).source ∷ [];
    } in
    let (middle, inner) =
      merge_nodes-fresh file.name nodes start h (first (λ n. n.id) ids)
        (first proxy_name_key names) in
    let first_file = ap (λ o. o >> merge_nodes file.name nodes start) valid.0 ∙ inner in
    let (valid', h1, n1, s1) = merge_file-ok file m h first_file in
    let (next, rest) =
      merge_files-fresh files middle h1 valid.1 (later (λ n. n.id) n1 ids)
        (later proxy_name_key n1 names) in
    (next, ap (λ a. a >>= merge_files files) first_file ∙ rest)
  where
    first :
        (key : Node → Text)
        → IsNodup (
            map key
              (m.nodes ++ ((resolve_external_host_default file.input).nodes ++ input_nodes files)))
        → IsNodup (map key m.nodes ++ map key (resolve_external_host_default file.input).nodes)
    first key n =
        let nodes = (resolve_external_host_default file.input).nodes in
        IsNodup-prefix _ (map key (input_nodes files)) (
          subst IsNodup
            (ap (map key) (sym (append_assoc m.nodes nodes (input_nodes files)))
              ∙ map-append key (m.nodes ++ nodes) (input_nodes files)
              ∙ ap (λ l. l ++ map key (input_nodes files)) (map-append key m.nodes nodes))
            n)

    later :
        (key : Node → Text) {after : List Node}
        → after ≡ m.nodes ++ (resolve_external_host_default file.input).nodes
        → IsNodup (
            map key
              (m.nodes ++ ((resolve_external_host_default file.input).nodes ++ input_nodes files)))
        → IsNodup (map key (after ++ input_nodes files))
    later key same n =
        let nodes = (resolve_external_host_default file.input).nodes in
        subst (λ l. IsNodup (map key l))
          (sym (append_assoc m.nodes nodes (input_nodes files))
            ∙ ap (λ l. l ++ input_nodes files) (sym same))
          n
