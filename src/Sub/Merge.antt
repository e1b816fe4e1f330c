-- ===== src/Sub/Merge.antt =====
-- internal/generator/sub/input.go: MergeInputs and BuildIndex, which join the inputs of all agents
-- into the index that subscriptions are rendered from.
pub mod Unique
pub mod Users
pub mod Laws
use proxystack_go.Prelude.{
  Text, Text_eq, codes, text_lt, is_empty, lookup, put, map, List, [], ◌∷◌, ◌++◌, none, some, Map,
  Answer, ok, error, ◌>>=◌, ◌>>◌,
}
use proxystack_go.Prelude.Sort.{sort_by}
use proxystack_go.Sub.{
  current_index_version, Node, InputFile, Access, Index, validate_node,
  resolve_external_host_default, validate_input, proxy_name_key, validate_access, normalized_access,
  validate_index,
}
use proxystack_go.Config.Values.{refuse_if}

-- `users[user]`, nothing for a missing key.
unfoldable pub nodes_of : Map Text (List Node) → Text → List Node
nodes_of users user = elim (lookup users user) [ none ↦ [] | some nodes ↦ nodes ]

-- The loop of BuildIndex over the nodes.
unfoldable pub group_nodes : List Node → Map Text (List Node) → Answer (Map Text (List Node))
group_nodes [] users = ok users
group_nodes (node ∷ nodes) users =
    let rest = group_nodes nodes (put node.user (nodes_of users node.user ++ node ∷ []) users) in
    validate_node node >> rest

-- The loop that copies the users in the order of their names.
unfoldable pub copy_users :
    List Text → Map Text (List Node) → Map Text (List Node) → Map Text (List Node)
copy_users [] users ordered = ordered
copy_users (user ∷ names) users ordered =
    copy_users names users (put user (nodes_of users user) ordered)

unfoldable pub ordered_users : Map Text (List Node) → Map Text (List Node)
ordered_users users = copy_users (sort_by text_lt (map (λ entry. entry.0) users)) users []

unfoldable pub assembled : List Node → List Text → Access → Text → Map Text (List Node) → Index
assembled nodes sources access generated_at users = record {
  index_version = current_index_version;
  generated_at = generated_at;
  sources = sources;
  nodes = nodes;
  users = ordered_users users;
  access = access;
}

-- `return index, index.Validate()`
unfoldable pub validated : Index → Answer Index
validated index = validate_index index >> ok index

unfoldable pub build_index : List Node → List Text → Access → Text → Answer Index
build_index nodes sources access generated_at =
    refuse_if (is_empty generated_at) (codes "generated_at is required")
    >> (validate_access (normalized_access access)
        >> (group_nodes nodes [] >>= λ users.
            validated (assembled nodes sources (normalized_access access) generated_at users)))

-- The variables of the loops of MergeInputs.
pub record Merging : Type 0 where
  pub nodes : List Node
  pub sources : List Text
  pub node_sources : Map Text Text
  pub proxy_name_sources : Map Text Text

unfoldable pub duplicate_id : Text → Text → Text → Text
duplicate_id id first again =
    codes "duplicate node id: "
    ++ id
    ++ codes ", first seen in "
    ++ first
    ++ codes ", repeated in "
    ++ again

unfoldable pub duplicate_name : Node → Text → Text → Text
duplicate_name node first again =
    codes "duplicate proxy name for user: user="
    ++ node.user
    ++ codes " name="
    ++ node.remark
    ++ codes ", first seen in "
    ++ first
    ++ codes ", repeated in "
    ++ again

unfoldable pub recorded : Text → Node → Merging → Merging
recorded name node m = record m {
  nodes = m.nodes ++ node ∷ [];
  node_sources = put node.id name m.node_sources;
  proxy_name_sources = put (proxy_name_key node) name m.proxy_name_sources;
}

unfoldable pub merge_node : Text → Node → Merging → Answer Merging
merge_node name node m = elim (lookup m.node_sources node.id) [
  | some first ↦ error (duplicate_id node.id first name)
  | none ↦ elim (lookup m.proxy_name_sources (proxy_name_key node)) [
    | some first ↦ error (duplicate_name node first name)
    | none ↦ ok (recorded name node m)
  ]
]

unfoldable pub merge_nodes : Text → List Node → Merging → Answer Merging
merge_nodes name [] m = ok m
merge_nodes name (node ∷ nodes) m = merge_node name node m >>= λ next. merge_nodes name nodes next

unfoldable pub merge_file : InputFile → Merging → Answer Merging
merge_file file m =
    let input = resolve_external_host_default file.input in
    validate_input input
    >> merge_nodes file.name input.nodes (record m { sources = m.sources ++ input.source ∷ [] })

unfoldable pub merge_files : List InputFile → Merging → Answer Merging
merge_files [] m = ok m
merge_files (file ∷ files) m = merge_file file m >>= λ next. merge_files files next

unfoldable pub merge_inputs : List InputFile → Access → Text → Answer Index
merge_inputs files access generated_at =
    merge_files files
      (record { nodes = []; sources = []; node_sources = []; proxy_name_sources = [] })
    >>= λ m. build_index m.nodes m.sources access generated_at
