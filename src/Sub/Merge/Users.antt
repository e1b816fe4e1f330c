-- ===== src/Sub/Merge/Users.antt =====
-- internal/generator/sub/input.go: the index that BuildIndex makes of the nodes.
use proxystack_go.Prelude.{
  append_assoc, append_nil, ◌≡◌, refl, sym, ap, ◌∙◌, Text, Text_eq, text_eq_iff, text_lt, is_empty,
  if◌then◌else◌, Bool, false, ◌==◌, contains, keep, lookup, put, lookup-put, map, List, [], ◌∷◌,
  ◌++◌, none, Map, ok, >>=-ok, >>-ok, ok-injective, >>-skip, >>=-pass, ◌>>◌, arith,
}
use proxystack_go.Prelude.Sort.{sort_by, contains-sort_by}
use proxystack_go.Config.Values.{◌then◌}
use proxystack_go.Config.Checks.{then-none, refuse_if-none}
use proxystack_go.Sub.{
  Node, Access, Index, validate_node, validate_access, normalized_access, first_invalid,
  validate_index,
}
use proxystack_go.Sub.Merge.{
  nodes_of, group_nodes, copy_users, ordered_users, assembled, validated, build_index,
}

nodes_of-put :
    (user : Text) (nodes : List Node) (users : Map Text (List Node)) (other : Text)
    → nodes_of (put user nodes users) other
      ≡ (if user == other then nodes else nodes_of users other)
unfolding nodes_of
nodes_of-put user nodes users other = ground (arith, lookup-put user nodes users other)

abbrev pub of_user : Text → Node → Bool
of_user user n = n.user == user

-- The loop of BuildIndex succeeds on valid nodes only, and gives each user its nodes in their order.
group_nodes-ok :
    (nodes : List Node) (users : Map Text (List Node)) {grouped : Map Text (List Node)}
    → group_nodes nodes users ≡ ok grouped
    → (first_invalid nodes ≡ none)
      × ((user : Text) → nodes_of grouped user ≡ nodes_of users user ++ keep (of_user user) nodes)
unfolding group_nodes first_invalid ◌then◌
group_nodes-ok [] users e = (
  refl,
  λ user. ap (λ m. nodes_of m user) (sym (ok-injective e)) ∙ sym (append_nil (nodes_of users user)),
)
group_nodes-ok (node ∷ nodes) users e =
    let (valid, rest) = >>-ok (validate_node node) _ e in
    let (all, right) = group_nodes-ok nodes _ rest in
    (
      ground (arith, valid, all),
      λ user.
          right user
          ∙ ground (
            arith,
            nodes_of-put node.user (nodes_of users node.user ++ node ∷ []) users user,
            append_assoc (nodes_of users user) (node ∷ []) (keep (of_user user) nodes),
            text_eq_iff node.user user,
          ),
    )

group_nodes-valid :
    (nodes : List Node) (users : Map Text (List Node))
    → first_invalid nodes ≡ none
    → (grouped : Map Text (List Node)) × (group_nodes nodes users ≡ ok grouped)
unfolding group_nodes first_invalid
group_nodes-valid [] users h = (users, refl)
group_nodes-valid (node ∷ nodes) users h =
    let parts = (then-none _ _).0 h in
    let next = put node.user (nodes_of users node.user ++ node ∷ []) users in
    let (grouped, rest) = group_nodes-valid nodes next parts.1 in
    (grouped, ap (λ o. o >> group_nodes nodes next) parts.0 ∙ rest)

nodes_of-copy_users :
    (names : List Text) (users ordered : Map Text (List Node)) (user : Text)
    → nodes_of (copy_users names users ordered) user
      ≡ (if contains names user then nodes_of users user else nodes_of ordered user)
unfolding copy_users contains
nodes_of-copy_users [] users ordered user = refl
nodes_of-copy_users (name ∷ names) users ordered user = ground (
  arith,
  nodes_of-copy_users names users (put name (nodes_of users name) ordered) user,
  nodes_of-put name (nodes_of users name) ordered user,
  text_eq_iff name user,
)

nodes_of-missing :
    (users : Map Text (List Node)) (user : Text)
    → contains (map (λ entry. entry.0) users) user ≡ false
    → nodes_of users user ≡ []
unfolding nodes_of lookup contains
nodes_of-missing [] user h = refl
nodes_of-missing ((name, nodes) ∷ users) user h = ground (arith, nodes_of-missing users user)

nodes_of-ordered_users :
    (users : Map Text (List Node)) (user : Text)
    → nodes_of (ordered_users users) user ≡ nodes_of users user
unfolding ordered_users nodes_of lookup
nodes_of-ordered_users users user = ground (
  arith,
  nodes_of-copy_users (sort_by text_lt (map (λ entry. entry.0) users)) users [] user,
  contains-sort_by text_lt (map (λ entry. entry.0) users) user,
  nodes_of-missing users user,
)

-- BuildIndex succeeds exactly with a time, an access that Validate accepts and valid nodes.
pub build_index-ok :
    (nodes : List Node) (sources : List Text) (access : Access) (generated_at : Text)
    {index : Index}
    → build_index nodes sources access generated_at ≡ ok index
    → (is_empty generated_at ≡ false)
      × (validate_access (normalized_access access) ≡ none)
      × (index.nodes ≡ nodes)
      × (index.sources ≡ sources)
      × (index.access ≡ normalized_access access)
      × (index.generated_at ≡ generated_at)
      × ((user : Text) → nodes_of index.users user ≡ keep (of_user user) nodes)
unfolding build_index validated assembled nodes_of lookup
build_index-ok nodes sources access generated_at e =
    let (time, e1) = >>-ok _ _ e in
    let (allowed, e2) = >>-ok _ _ e1 in
    let (users, grouped, e3) = >>=-ok (group_nodes nodes []) _ e2 in
    let (valid, e4) = >>-ok _ _ e3 in
    let (all, right) = group_nodes-ok nodes [] grouped in
    let same = ok-injective e4 in
    (
      (refuse_if-none _ _).0 time,
      allowed,
      ap (λ i. i.nodes) (sym same),
      ap (λ i. i.sources) (sym same),
      ap (λ i. i.access) (sym same),
      ap (λ i. i.generated_at) (sym same),
      λ user.
          ap (λ i. nodes_of i.users user) (sym same)
          ∙ nodes_of-ordered_users users user
          ∙ right user,
    )

pub build_index-valid :
    (nodes : List Node) (sources : List Text) (access : Access) (generated_at : Text)
    → is_empty generated_at ≡ false
    → validate_access (normalized_access access) ≡ none
    → first_invalid nodes ≡ none
    → (index : Index) × (build_index nodes sources access generated_at ≡ ok index)
unfolding build_index
build_index-valid nodes sources access generated_at time allowed valid =
    let (users, grouped) = group_nodes-valid nodes [] valid in
    let index = assembled nodes sources (normalized_access access) generated_at users in
    (
      index,
      >>-skip _ ((refuse_if-none _ _).1 time)
          ∙ >>-skip _ allowed
          ∙ >>=-pass _ grouped
          ∙ unfold validated in >>-skip (ok index) (accepted users),
    )
  where
    accepted :
        (users : Map Text (List Node))
        → validate_index (assembled nodes sources (normalized_access access) generated_at users)
          ≡ none
    accepted users =
        unfold validate_index assembled in
        (then-none _ _).1 (
          (refuse_if-none _ _).1 refl,
          (then-none _ _).1 ((refuse_if-none _ _).1 time, (then-none _ _).1 (allowed, valid)),
        )
