-- ===== src/UserState.antt =====
-- internal/userstate/disabled.go: the users that are disabled for the time being, and
-- DisabledUserSet of internal/domain/models.go. A nil map is `none`. `Codec` is what encoding/json makes
-- of a State.
pub mod Laws
pub mod History
use proxystack_go.Prelude.{
  ℕ, nat_eq, Text, Text_eq, codes, text_lt, decimal, is_empty, is_some, if◌then◌else◌, Bool, true,
  false, not, ◌&&◌, ◌||◌, ◌==◌, contains, add, lookup, put, List, [], ◌∷◌, ◌++◌, Option, none, some,
  Map, Answer, ok, error, ◌>>=◌,
}
use proxystack_go.Prelude.Sort.{sort_by}

pub record Entry : Type 0 where
  pub user : Text
  pub stack : Text
  pub since : Text

pub record State : Type 0 where
  pub version : ℕ
  pub disabled : List Entry

abbrev pub state_version : ℕ
state_version = 1

unfoldable pub entry_less : Entry → Entry → Bool
entry_less a b = if not (a.stack == b.stack) then text_lt a.stack b.stack else text_lt a.user b.user

unfoldable pub sorted : State → State
sorted s = record { version = s.version; disabled = sort_by entry_less s.disabled }

-- The condition of the loops of EntryFor and Enable.
abbrev pub names : Text → Text → Entry → Bool
names stack user entry = entry.stack == stack && entry.user == user

unfoldable pub first_entry : Text → Text → List Entry → Option Entry
first_entry stack user [] = none
first_entry stack user (entry ∷ entries) =
    let rest = first_entry stack user entries in if names stack user entry then some entry else rest

unfoldable pub entry_for : State → Text → Text → Option Entry
entry_for s stack user = first_entry stack user s.disabled

unfoldable pub is_disabled : State → Text → Text → Bool
is_disabled s stack user = is_some (entry_for s stack user)

-- The new state and whether it changed.
unfoldable pub disable : State → Text → Text → Text → State × Bool
disable s stack user since = if is_disabled s stack user then (s, false) else (
  sorted (record {
    version = s.version;
    disabled = s.disabled ++ record { user = user; stack = stack; since = since } ∷ [];
  }),
  true,
)

-- The loop of Enable: the entries that are kept, and `changed`.
unfoldable pub drop_entries : Text → Text → List Entry → List Entry × Bool
drop_entries stack user [] = ([], false)
drop_entries stack user (entry ∷ entries) =
    let (kept, changed) = drop_entries stack user entries in
    if names stack user entry then (kept, true) else (entry ∷ kept, changed)

unfoldable pub enable : State → Text → Text → State × Bool
enable s stack user =
    let (kept, changed) = drop_entries stack user s.disabled in
    (record { version = s.version; disabled = kept }, changed)

abbrev pub DisabledUserSet : Type 0
DisabledUserSet = Option (Map Text (List Text))

-- `d[stack]`, a missing map being empty.
unfoldable pub users_of : Map Text (List Text) → Text → List Text
users_of m stack = elim (lookup m stack) [ none ↦ [] | some users ↦ users ]

unfoldable pub has : DisabledUserSet → Text → Text → Bool
has none stack user = false
has (some m) stack user = contains (users_of m stack) user

unfoldable pub add_user : DisabledUserSet → Text → Text → DisabledUserSet
add_user none stack user = none
add_user (some m) stack user = some (put stack (add user (users_of m stack)) m)

unfoldable pub add_users : List Entry → DisabledUserSet → DisabledUserSet
add_users [] d = d
add_users (entry ∷ entries) d = add_users entries (add_user d entry.stack entry.user)

unfoldable pub user_set : State → DisabledUserSet
user_set s = if is_empty s.disabled then none else add_users s.disabled (some [])

-- json.MarshalIndent(state, "", "  ") of a State, and json.Unmarshal into a State.
pub record Codec : Type 0 where
  pub marshal_indent : State → Answer Text
  pub unmarshal : Text → Answer State

-- What os.ReadFile finds.
pub data Read : Type 0 where
  missing : Read
  unreadable : Text → Read
  content : Text → Read

-- An entry without a user or a stack.
unfoldable pub has_blank : List Entry → Bool
has_blank [] = false
has_blank (entry ∷ entries) = is_empty entry.user || is_empty entry.stack || has_blank entries

-- Load behind json.Unmarshal.
unfoldable pub checked_state : Text → State → Answer State
checked_state path s =
    if not (nat_eq s.version state_version)
    then error (
        codes "unsupported disabled state version: "
        ++ decimal s.version
        ++ codes " ("
        ++ path
        ++ codes ")")
    else if has_blank s.disabled
    then error (codes "disabled state entry requires user and stack: " ++ path)
    else ok (sorted s)

unfoldable pub load : Codec → Text → Read → Answer State
load codec path missing = ok (record { version = state_version; disabled = [] })
load codec path (unreadable cause) =
    error (codes "disabled state could not be read: " ++ path ++ codes " (" ++ cause ++ codes ")")
load codec path (content data_) = elim (codec.unmarshal data_) [
  | error cause ↦
      error (codes "disabled state contains invalid JSON: " ++ path ++ codes "\n" ++ cause)
  | ok s ↦ checked_state path s
]

-- The state that Save encodes.
unfoldable pub saved : State → State
saved s = sorted (record { version = state_version; disabled = s.disabled })

-- The content that Save hands to writeFileAtomic.
unfoldable pub save : Codec → State → Answer Text
save codec s = codec.marshal_indent (saved s) >>= λ data_. ok (data_ ++ codes "\n")
