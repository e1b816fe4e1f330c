-- ===== src/Sub/Grouped.antt =====
-- internal/generator/sub/render.go: the region groups of Surge against the nodes.
use proxystack_go.Prelude.{
  ◌≡◌, refl, sym, ◌∙◌, Text, Text_eq, text_eq_iff, append_assoc, append_nil, is_empty, is_some,
  if◌then◌else◌, true, false, Bool-cases, inl, inr, ◌||◌, ◌==◌, contains, contains-add, add-IsNodup,
  add, IsNodup, keep, lookup, put, lookup-put, map, List-cases, List, [], ◌∷◌, ◌++◌, Map, arith,
}
use proxystack_go.Prelude.Sort.{any}
use proxystack_go.Sub.{Node}
use proxystack_go.Sub.Regions.{
  common_region_codes, other_region, resolve_node_region, names_in, group_regions, initial_regions,
  RegionGroup, region_groups_of, ordered_regions, render_surge_region_groups,
}
use proxystack_go.Sub.RegionOrder.{
  known, contains-known, ordered_regions-IsNodup, contains-ordered_regions,
}

abbrev pub remarks_in : Text → List Node → List Text
remarks_in region nodes = map (λ n. n.remark) (keep (λ n. resolve_node_region n == region) nodes)

-- The names that the groups of a region list, together.
abbrev pub names_under : List RegionGroup → Text → List Text
names_under [] region = []
names_under (group ∷ groups) region =
    let rest = names_under groups region in
    if group.region == region then group.proxy_names ++ rest else rest

abbrev pub regions_of : List RegionGroup → List Text
regions_of groups = map (λ group. group.region) groups

names_in-put :
    (region : Text) (names : List Text) (grouped : Map Text (List Text)) (other : Text)
    → names_in (put region names grouped) other
      ≡ (if region == other then names else names_in grouped other)
unfolding names_in
names_in-put region names grouped other = ground (arith, lookup-put region names grouped other)

-- The loop over the nodes gives each region the remarks of its nodes.
group_regions-names :
    (nodes : List Node) (grouped : Map Text (List Text)) (extras : List Text) (region : Text)
    → names_in (group_regions nodes grouped extras).0 region
      ≡ names_in grouped region ++ remarks_in region nodes
unfolding group_regions
group_regions-names [] grouped extras region = sym (append_nil (names_in grouped region))
group_regions-names (node ∷ nodes) grouped extras region =
    let own = resolve_node_region node in
    let next = put own (names_in grouped own ++ node.remark ∷ []) grouped in
    let others = if is_some (lookup grouped own) then extras else add own extras in
    group_regions-names nodes next others region
    ∙ ground (
      arith,
      names_in-put own (names_in grouped own ++ node.remark ∷ []) grouped region,
      append_assoc (names_in grouped region) (node.remark ∷ []) (remarks_in region nodes),
      text_eq_iff own region,
    )

-- What the loop keeps: a region has an entry where it is known or one of `extras`, which has none twice
-- and no known one.
abbrev Separate : Map Text (List Text) → List Text → Type 0
Separate grouped extras =
    ((region : Text)
      → is_some (lookup grouped region) ≡ (contains known region || contains extras region))
    × ((region : Text) → contains extras region ≡ true → contains known region ≡ false)
    × IsNodup extras

put-Separate :
    (own : Text) (names : List Text) (grouped : Map Text (List Text)) (extras : List Text)
    → Separate grouped extras
    → Separate
        (put own names grouped)
        (if is_some (lookup grouped own) then extras else add own extras)
put-Separate own names grouped extras (entries, apart, once) =
    elim (Bool-cases (is_some (lookup grouped own))) [
      | inl old ↦ rw old (
          (
            λ region. ground (
              arith,
              lookup-put own names grouped region,
              entries region,
              entries own,
              text_eq_iff own region,
            ),
            apart,
            once,
          ))
      | inr new ↦ rw new (
          (
            λ region. ground (
              arith,
              lookup-put own names grouped region,
              entries region,
              contains-add own extras region,
            ),
            λ region. ground (
              arith,
              contains-add own extras region,
              apart region,
              entries own,
              text_eq_iff own region,
            ),
            add-IsNodup own extras once,
          ))
    ]

group_regions-Separate :
    (nodes : List Node) (grouped : Map Text (List Text)) (extras : List Text)
    → Separate grouped extras
    → Separate (group_regions nodes grouped extras).0 (group_regions nodes grouped extras).1
unfolding group_regions
group_regions-Separate [] grouped extras h = h
group_regions-Separate (node ∷ nodes) grouped extras h =
    let own = resolve_node_region node in
    group_regions-Separate nodes _ _
      (put-Separate own (names_in grouped own ++ node.remark ∷ []) grouped extras h)

-- The groups of a list of regions without repetition.
region_groups_of-missing :
    (grouped : Map Text (List Text)) (regions : List Text) (region : Text)
    → contains regions region ≡ false
    → (names_under (region_groups_of grouped regions) region ≡ [])
      × (contains (regions_of (region_groups_of grouped regions)) region ≡ false)
unfolding region_groups_of contains
region_groups_of-missing grouped [] region h = (refl, refl)
region_groups_of-missing grouped (first ∷ regions) region h =
    let ih = region_groups_of-missing grouped regions region (ground arith) in
    elim (Bool-cases (is_empty (names_in grouped first))) [
      | inl none ↦ rw none ih
      | inr some ↦ rw some ((ground (arith, ih), ground (arith, ih)))
    ]

region_groups_of-present :
    (grouped : Map Text (List Text)) (regions : List Text)
    → IsNodup regions
    → ((region : Text)
        → names_under (region_groups_of grouped regions) region
          ≡ (if contains regions region then names_in grouped region else []))
      × IsNodup (regions_of (region_groups_of grouped regions))
      × (any (λ group. is_empty group.proxy_names) (region_groups_of grouped regions) ≡ false)
unfolding region_groups_of contains
region_groups_of-present grouped [] once = (λ region. refl, tt, refl)
region_groups_of-present grouped (first ∷ regions) (new, once) =
    let (names, distinct, filled) = region_groups_of-present grouped regions once in
    let (no_name, no_group) = region_groups_of-missing grouped regions first new in
    elim (List-cases (names_in grouped first)) [
      | inl empty ↦ rw empty (
          (
            λ region. ground (arith, names region, empty, text_eq_iff first region, new),
            distinct,
            filled,
          ))
      | inr (x, xs, full) ↦ rw full (
          (
            λ region. ground (
              arith,
              names region,
              full,
              text_eq_iff first region,
              no_name,
              new,
              append_nil (x ∷ xs),
            ),
            (no_group, distinct),
            filled,
          ))
    ]

abbrev bare : List Text → Map Text (List Text)
bare regions = map (λ region. (region, [])) regions

without_names :
    (regions : List Text) (region : Text)
    → (is_some (lookup (bare regions) region) ≡ contains regions region)
      × (names_in (bare regions) region ≡ [])
unfolding lookup contains names_in
without_names [] region = (refl, refl)
without_names (first ∷ regions) region =
    let ih = without_names regions region in (ground (arith, ih), ground (arith, ih))

initial_regions-Separate : Separate initial_regions []
unfolding initial_regions contains
initial_regions-Separate = (
  λ region.
      ground
        (arith, without_names (other_region ∷ common_region_codes) region, contains-known region),
  λ region m. absurd (ground arith),
  tt,
)

names_in-missing :
    (grouped : Map Text (List Text)) (region : Text)
    → is_some (lookup grouped region) ≡ false
    → names_in grouped region ≡ []
unfolding names_in
names_in-missing grouped region h = ground (arith, h)

-- For each region, the groups of it list the remarks of its nodes in their order, no region has two
-- groups, and no group is empty.
pub render_surge_region_groups_lem :
    (nodes : List Node)
    → ((region : Text)
        → names_under (render_surge_region_groups nodes) region ≡ remarks_in region nodes)
      × IsNodup (regions_of (render_surge_region_groups nodes))
      × (any (λ group. is_empty group.proxy_names) (render_surge_region_groups nodes) ≡ false)
unfolding render_surge_region_groups initial_regions
render_surge_region_groups_lem nodes =
    let (entries, apart, once) =
      group_regions-Separate nodes initial_regions [] initial_regions-Separate in
    let grouped = (group_regions nodes initial_regions []).0 in
    let extras = (group_regions nodes initial_regions []).1 in
    let (names, distinct, filled) =
      region_groups_of-present grouped (ordered_regions extras)
        (ordered_regions-IsNodup extras once apart) in
    (
      λ region.
          names region
          ∙ ground (
            arith,
            contains-ordered_regions extras region,
            entries region,
            names_in-missing grouped region,
            group_regions-names nodes initial_regions [] region,
            (without_names (other_region ∷ common_region_codes) region).1,
          ),
      distinct,
      filled,
    )
