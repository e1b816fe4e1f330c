-- ===== src/Prelude/Paths.antt =====
-- The parts of Go's `strings` and `path/filepath` that split texts, for slashes as separators.
use Prim.Native.Nat.{ℕ}
use mathlib.Core.Bool.{◌&&◌}
use mathlib.Core.List.{List, [], ◌∷◌, ◌++◌}
use proxystack_go.Prelude.Tests.{nat_eq, if◌then◌else◌}
use proxystack_go.Prelude.Lists.{is_empty}
use proxystack_go.Prelude.Bytes.{Text, codes}

-- `strings.TrimLeft`, `strings.TrimRight` and `strings.Trim` by one byte.
unfoldable pub trim_left : ℕ → Text → Text
trim_left c [] = []
trim_left c (a ∷ s) = let rest = trim_left c s in if nat_eq a c then rest else a ∷ s

unfoldable pub trim_right : ℕ → Text → Text
trim_right c [] = []
trim_right c (a ∷ s) =
    let rest = trim_right c s in if is_empty rest && nat_eq a c then [] else a ∷ rest

unfoldable pub trim_both : ℕ → Text → Text
trim_both c s = trim_right c (trim_left c s)

-- A byte in front of the first part.
unfoldable pub onto_part : ℕ → List Text → List Text
onto_part a [] = (a ∷ []) ∷ []
onto_part a (part ∷ parts) = (a ∷ part) ∷ parts

-- `strings.Split` by one byte.
unfoldable pub split_on : ℕ → Text → List Text
split_on c [] = [] ∷ []
split_on c (a ∷ s) = let rest = split_on c s in if nat_eq a c then [] ∷ rest else onto_part a rest

-- The last part of a text that is split.
unfoldable pub last_part : List Text → Text
last_part [] = []
last_part (part ∷ []) = part
last_part (part ∷ next ∷ parts) = last_part (next ∷ parts)

-- `filepath.Base`
unfoldable pub base_name : Text → Text
base_name [] = codes "."
base_name (c ∷ path) =
    let name = last_part (split_on b'/' (trim_right b'/' (c ∷ path))) in
    if is_empty name then codes "/" else name

-- `filepath.Ext`: what stands from the last dot of the last part on.
unfoldable pub extension_from : Text → Text → Text
extension_from found [] = found
extension_from found (c ∷ s) =
    extension_from (if nat_eq c b'.' then c ∷ s else if nat_eq c b'/' then [] else found) s

unfoldable pub extension : Text → Text
extension path = extension_from [] path

-- `filepath.Join` of a clean directory, not the root, and a plain name.
unfoldable pub join_path : Text → Text → Text
join_path directory name = directory ++ codes "/" ++ name
