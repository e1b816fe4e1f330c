-- ===== src/Sub/RegionOrder.antt =====
-- internal/generator/sub/render.go: the order of the region groups.
use proxystack_go.Prelude.{
  ◌≡◌, refl, Text, Text_eq, text_eq_iff, text_lt, true, false, ◌||◌, ◌==◌, contains,
  contains-append, contains-snoc, IsNodup, IsNodup-snoc, List, [], ◌∷◌, ◌++◌, arith,
}
use proxystack_go.Prelude.Sort.{sort_by, contains-sort_by, sort_by-IsNodup}
use proxystack_go.Sub.Regions.{common_region_codes, other_region, ordered_regions}

abbrev pub known : List Text
known = common_region_codes ++ other_region ∷ []

append-IsNodup :
    (xs ys : List Text)
    → IsNodup xs
    → IsNodup ys
    → ((a : Text) → contains ys a ≡ true → contains xs a ≡ false)
    → IsNodup (xs ++ ys)
unfolding contains
append-IsNodup [] ys once other apart = other
append-IsNodup (x ∷ xs) ys once other apart = (
  ground (arith, contains-append xs ys x, once.0, apart x, text_eq_iff x x),
  append-IsNodup xs ys once.1 other λ a m. ground (arith, apart a m),
)

common_region_codes-IsNodup : IsNodup common_region_codes
unfolding contains proxystack_go.Prelude.text_eq
common_region_codes-IsNodup = (
  refl,
  (
    refl,
    (
      refl,
      (refl, (refl, (refl, (refl, (refl, (refl, (refl, (refl, (refl, (refl, (refl, tt))))))))))),
    ),
  ),
)

common_region_codes-other : contains common_region_codes other_region ≡ false
unfolding contains proxystack_go.Prelude.text_eq
common_region_codes-other = refl

pub contains-known :
    (region : Text)
    → contains known region ≡ (contains common_region_codes region || other_region == region)
contains-known region = contains-snoc common_region_codes other_region region

pub ordered_regions-IsNodup :
    (extras : List Text)
    → IsNodup extras
    → ((region : Text) → contains extras region ≡ true → contains known region ≡ false)
    → IsNodup (ordered_regions extras)
unfolding ordered_regions
ordered_regions-IsNodup extras once apart =
    let sorted = sort_by text_lt extras in
    append-IsNodup common_region_codes (sorted ++ other_region ∷ []) common_region_codes-IsNodup
      (IsNodup-snoc sorted other_region (sort_by-IsNodup text_lt extras once) (
        ground (
          arith,
          contains-sort_by text_lt extras other_region,
          apart other_region,
          contains-known other_region,
          text_eq_iff other_region other_region,
        )))
      λ region m. ground (
        arith,
        contains-snoc sorted other_region region,
        contains-sort_by text_lt extras region,
        apart region,
        contains-known region,
        text_eq_iff other_region region,
        common_region_codes-other,
      )

pub contains-ordered_regions :
    (extras : List Text) (region : Text)
    → contains (ordered_regions extras) region ≡ (contains known region || contains extras region)
unfolding ordered_regions
contains-ordered_regions extras region = ground (
  arith,
  contains-append common_region_codes (sort_by text_lt extras ++ other_region ∷ []) region,
  contains-snoc (sort_by text_lt extras) other_region region,
  contains-known region,
  contains-sort_by text_lt extras region,
)
