-- ===== src/Examples/Users.antt =====
-- internal/userstate: the theorems on disabled users, applied.
use proxystack_go.Prelude.{
  ◌≡◌, refl, Text, Text_eq, codes, true, ◌&&◌, ◌||◌, ◌==◌, not, [], ◌∷◌, arith, ok, error,
  if◌then◌else◌, ◌++◌,
}
use proxystack_go.Prelude.{some, List}
use proxystack_go.Domain.{Inbound, InboundUser}
use proxystack_go.XrayUsers.{apply_disabled_users}
use proxystack_go.XrayUsers.Filter.{apply_disabled_users_lem}
use proxystack_go.Examples.Samples.{alice, vmess_inbound}
use proxystack_go.UserState.{
  DisabledUserSet, Entry, State, is_disabled, disable, enable, user_set, has, load, save, content,
  Codec,
}
use proxystack_go.UserState.History.{Call, disabling, enabling}
use proxystack_go.UserState.Laws.{
  IsUnique, disable-is_disabled, disable-IsUnique, enable-is_disabled, enable-disable, has-user_set,
  load-save,
}

abbrev bob : Text
bob = codes "bob"

abbrev home : Text
home = codes "home"

abbrev bob_entry : Entry
bob_entry = record { user = bob; stack = home; since = codes "now" }

abbrev bob_disabled : State
bob_disabled = record { version = 1; disabled = bob_entry ∷ [] }

abbrev nobody : State
nobody = record { version = 1; disabled = [] }

nobody-IsUnique : IsUnique nobody
nobody-IsUnique stack user = omega arith

bob_disabled-IsUnique : IsUnique bob_disabled
bob_disabled-IsUnique stack user = ground arith

disable-is_disabled_example :
    ((stack user : Text)
      → is_disabled (disable bob_disabled (codes "away") bob []).0 stack user
        ≡ (is_disabled bob_disabled stack user || codes "away" == stack && bob == user))
    × ((disable bob_disabled (codes "away") bob []).1
        ≡ not (is_disabled bob_disabled (codes "away") bob))
disable-is_disabled_example = disable-is_disabled bob_disabled (codes "away") bob []

disable-IsUnique_example : IsUnique (disable bob_disabled (codes "away") bob []).0
disable-IsUnique_example = disable-IsUnique bob_disabled (codes "away") bob [] bob_disabled-IsUnique

enable-is_disabled_example :
    ((stack user : Text)
      → is_disabled (enable bob_disabled home bob).0 stack user
        ≡ (is_disabled bob_disabled stack user && not (home == stack && bob == user)))
    × ((enable bob_disabled home bob).1 ≡ is_disabled bob_disabled home bob)
enable-is_disabled_example = enable-is_disabled bob_disabled home bob

abbrev calls : List Call
calls = disabling home bob [] ∷ enabling home bob ∷ disabling home (codes "dave") [] ∷ []

enable-disable_example :
    ((stack user : Text)
      → is_disabled (enable (disable nobody home bob []).0 home bob).0 stack user
        ≡ is_disabled nobody stack user)
    × ((disable nobody home bob []).1 ≡ true)
    × ((enable (disable nobody home bob []).0 home bob).1 ≡ true)
unfolding is_disabled proxystack_go.UserState.entry_for proxystack_go.UserState.first_entry
enable-disable_example = enable-disable nobody home bob [] refl

has-user_set_example : has (user_set bob_disabled) home bob ≡ is_disabled bob_disabled home bob
has-user_set_example = has-user_set bob_disabled home bob

abbrev bob_json : Text
bob_json =
    codes "{\n  \"version\": 1,\n  \"disabled\": [\n    {\n      \"user\": \"bob\",\n"
    ++ codes "      \"stack\": \"home\",\n      \"since\": \"now\"\n    }\n  ]\n}"

-- It knows one document.
abbrev one_document : Codec
one_document = record {
  marshal_indent =
      λ s. if is_disabled s home bob then ok bob_json else error (codes "unknown state");
  unmarshal = λ t.
      if t == bob_json ++ codes "\n" then ok bob_disabled else error (codes "unknown document");
}

load-save_example :
    (file : Text) × (t : State) × (save one_document bob_disabled ≡ ok file)
    × (load one_document (codes "disabled.json") (content file) ≡ ok t)
    × ((stack user : Text) → is_disabled t stack user ≡ is_disabled bob_disabled stack user)
unfolding proxystack_go.UserState.has_blank proxystack_go.UserState.sorted is_disabled
    proxystack_go.UserState.saved proxystack_go.UserState.entry_for
    proxystack_go.UserState.first_entry proxystack_go.Prelude.Sort.sort_by
    proxystack_go.Prelude.Sort.insert_by proxystack_go.Prelude.text_eq
load-save_example =
    load-save one_document (codes "disabled.json") bob_disabled refl (bob_json, refl, refl)

abbrev carol : InboundUser
carol = record alice { user = codes "carol" }

abbrev two_users : Inbound
two_users = record vmess_inbound { users = alice ∷ carol ∷ [] }

abbrev alice_disabled : DisabledUserSet
alice_disabled = some ((home, codes "alice" ∷ []) ∷ [])

apply_disabled_users_example :
    apply_disabled_users two_users alice_disabled home
    ≡ ok (record two_users { users = carol ∷ [] })
unfolding proxystack_go.Prelude.text_eq proxystack_go.Prelude.contains proxystack_go.Prelude.lookup
    proxystack_go.UserState.has proxystack_go.UserState.users_of
    proxystack_go.XrayUsers.supports_user_toggle
apply_disabled_users_example = apply_disabled_users_lem two_users alice_disabled home
