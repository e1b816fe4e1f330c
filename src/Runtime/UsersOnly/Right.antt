-- ===== src/Runtime/UsersOnly/Right.antt =====
-- internal/runtime/usersdiff.go: what usersOnlyChange decides.
use proxystack_go.Prelude.{◌≡◌, Text, Text_eq, not, ◌&&◌, contains, List}
use proxystack_go.Json.{Json}
use proxystack_go.Runtime.UsersOnly.{clients_of}

-- The clients that stand in one value and not in the other are the expected ones.
abbrev pub IsDifference : Json → Json → List Text → Type 0
IsDifference left right expected =
    (key : Text)
    → (contains (clients_of left) key && not (contains (clients_of right) key))
      ≡ contains expected key
