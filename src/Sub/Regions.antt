-- ===== src/Sub/Regions.antt =====
-- internal/generator/sub/render.go: the region groups of a Surge subscription.
use proxystack_go.Prelude.{
  ℕ, nat_eq, leb, Text, Text_eq, codes, text_lt, is_empty, is_some, if◌then◌else◌, Bool, not, ◌&&◌,
  ◌||◌, add, lookup, put, map, List, [], ◌∷◌, ◌++◌, Option, none, some, Map,
}
use proxystack_go.Prelude.Sort.{sort_by}
use proxystack_go.Sub.{Node}
use proxystack_go.Sub.SurgeFields.{text_or}

abbrev pub common_region_codes : List Text
common_region_codes =
    codes "HK"
    ∷ codes "JP"
    ∷ codes "US"
    ∷ codes "DE"
    ∷ codes "TW"
    ∷ codes "KR"
    ∷ codes "SG"
    ∷ codes "GB"
    ∷ codes "CA"
    ∷ codes "AU"
    ∷ codes "FR"
    ∷ codes "NL"
    ∷ codes "TR"
    ∷ codes "IN"
    ∷ []

abbrev pub other_region : Text
other_region = codes "OTHER"

unfoldable pub is_capital : ℕ → Bool
is_capital c = leb b'A' c && leb c b'Z'

-- regionPrefixPattern: ^\[([A-Z]{2})\]|^([A-Z]{2})[-_]
unfoldable pub region_prefix : Text → Option Text
region_prefix (a ∷ b ∷ c ∷ d ∷ rest) =
    if nat_eq a b'[' && is_capital b && is_capital c && nat_eq d b']'
    then some (b ∷ c ∷ [])
    else if is_capital a && is_capital b && (nat_eq c b'-' || nat_eq c b'_')
    then some (a ∷ b ∷ [])
    else none
region_prefix (a ∷ b ∷ c ∷ []) =
    if is_capital a && is_capital b && (nat_eq c b'-' || nat_eq c b'_')
    then some (a ∷ b ∷ [])
    else none
region_prefix _ = none

unfoldable pub resolve_node_region : Node → Text
resolve_node_region node =
    if not (is_empty node.region)
    then node.region
    else text_or (region_prefix node.remark) other_region

unfoldable pub names_in : Map Text (List Text) → Text → List Text
names_in grouped region = elim (lookup grouped region) [ none ↦ [] | some names ↦ names ]

-- The loop over the nodes: `grouped` and the regions that are not common.
unfoldable pub group_regions :
    List Node → Map Text (List Text) → List Text → Map Text (List Text) × List Text
group_regions [] grouped extras = (grouped, extras)
group_regions (node ∷ nodes) grouped extras =
    let region = resolve_node_region node in
    group_regions nodes (put region (names_in grouped region ++ node.remark ∷ []) grouped)
      (if is_some (lookup grouped region) then extras else add region extras)

unfoldable pub initial_regions : Map Text (List Text)
initial_regions = map (λ region. (region, [])) (other_region ∷ common_region_codes)

pub record RegionGroup : Type 0 where
  pub region : Text
  pub proxy_names : List Text

-- The groups in order, without the empty ones. The display name and the icon of a group, which a table
-- gives for its region, are left out.
unfoldable pub region_groups_of : Map Text (List Text) → List Text → List RegionGroup
region_groups_of grouped [] = []
region_groups_of grouped (region ∷ regions) =
    let rest = region_groups_of grouped regions in
    if is_empty (names_in grouped region)
    then rest
    else record { region = region; proxy_names = names_in grouped region } ∷ rest

unfoldable pub ordered_regions : List Text → List Text
ordered_regions extras = common_region_codes ++ (sort_by text_lt extras ++ other_region ∷ [])

unfoldable pub render_surge_region_groups : List Node → List RegionGroup
render_surge_region_groups nodes =
    let (grouped, extras) = group_regions nodes initial_regions [] in
    region_groups_of grouped (ordered_regions extras)
