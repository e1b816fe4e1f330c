-- ===== src/Yaml.antt =====
-- gopkg.in/yaml.v3: the trees of `yaml.Node` that the program builds, without positions. A scalar has
-- its tag and its text; `quoted` is one in single quotes.
use proxystack_go.Prelude.{ℕ, Text, codes, decimal, Bool, true, false, List, [], ◌∷◌}

mutual
  pub data Yaml : Type 0 where
    scalar : Text → Text → Yaml
    quoted : Text → Yaml
    sequence : YamlItems → Yaml
    mapping : YamlPairs → Yaml

  pub data YamlItems : Type 0 where
    no_item : YamlItems
    item : Yaml → YamlItems → YamlItems

  pub data YamlPairs : Type 0 where
    no_pair : YamlPairs
    pair : Text → Yaml → YamlPairs → YamlPairs

-- A key and its node, before they are put into a mapping.
abbrev pub YamlField : Type 0
YamlField = Text × Yaml

unfoldable pub string_scalar : Text → Yaml
string_scalar value = scalar (codes "!!str") value

unfoldable pub int_scalar : ℕ → Yaml
int_scalar value = scalar (codes "!!int") (decimal value)

unfoldable pub bool_scalar : Bool → Yaml
bool_scalar true = scalar (codes "!!bool") (codes "true")
bool_scalar false = scalar (codes "!!bool") (codes "false")

unfoldable pub items_of : List Yaml → YamlItems
items_of [] = no_item
items_of (y ∷ ys) = item y (items_of ys)

unfoldable pub pairs_of : List YamlField → YamlPairs
pairs_of [] = no_pair
pairs_of ((key, value) ∷ fields) = pair key value (pairs_of fields)

unfoldable pub mapping_of : List YamlField → Yaml
mapping_of fields = mapping (pairs_of fields)

unfoldable pub sequence_of : List Yaml → Yaml
sequence_of values = sequence (items_of values)

unfoldable pub string_sequence : List Text → Yaml
string_sequence values = sequence (strings values)
  where
    strings : List Text → YamlItems
    strings [] = no_item
    strings (v ∷ vs) = item (string_scalar v) (strings vs)
