-- ===== src/UserState/Laws.antt =====
-- internal/userstate/disabled.go: which users Disable, Enable, Save and Load leave disabled.
use proxystack_go.Prelude.{
  ℕ, nat_eq, ◌+◌, ◌≤◌, ◌≡◌, refl, Text, Text_eq, text_eq_iff, is_some, if◌then◌else◌, true, false,
  not, ◌&&◌, ◌||◌, ◌==◌, ◌↔◌, Bool-cases, inl, inr, contains, add, put, List-cases, contains-add,
  lookup, lookup-put, List, [], ◌∷◌, ◌++◌, some, Map, ok, arith, codes, >>=-pass,
}
use proxystack_go.Prelude.Sort.{insert_by, sort_by}
use proxystack_go.UserState.{
  Entry, State, entry_less, sorted, names, first_entry, entry_for, is_disabled, disable,
  drop_entries, enable, users_of, has, add_user, add_users, user_set, content, has_blank, load,
  saved, save, Codec, checked_state,
}

-- How many entries the list has for a user of a stack.
abbrev pub entries_for : Text → Text → List Entry → ℕ
entries_for stack user [] = 0
entries_for stack user (entry ∷ entries) =
    (if names stack user entry then 1 else 0) + entries_for stack user entries

-- No user of a stack is listed twice.
abbrev pub IsUnique : State → Type 0
IsUnique s = (stack user : Text) → entries_for stack user s.disabled ≤ 1

first_entry-entries_for :
    (stack user : Text) (entries : List Entry)
    → (is_some (first_entry stack user entries) ≡ false) ↔ (entries_for stack user entries ≡ 0)
unfolding first_entry
first_entry-entries_for stack user [] = (λ e. refl, λ e. refl)
first_entry-entries_for stack user (entry ∷ entries) =
    ground (arith, first_entry-entries_for stack user entries)

entries_for-insert_by :
    (stack user : Text) (x : Entry) (entries : List Entry)
    → entries_for stack user (insert_by entry_less x entries) ≡ entries_for stack user (x ∷ entries)
unfolding insert_by
entries_for-insert_by stack user x [] = refl
entries_for-insert_by stack user x (entry ∷ entries) =
    ground (arith, entries_for-insert_by stack user x entries)

entries_for-sort_by :
    (stack user : Text) (entries : List Entry)
    → entries_for stack user (sort_by entry_less entries) ≡ entries_for stack user entries
unfolding sort_by
entries_for-sort_by stack user [] = refl
entries_for-sort_by stack user (entry ∷ entries) = ground (
  arith,
  entries_for-insert_by stack user entry (sort_by entry_less entries),
  entries_for-sort_by stack user entries,
)

entries_for-append :
    (stack user : Text) (xs ys : List Entry)
    → entries_for stack user (xs ++ ys) ≡ entries_for stack user xs + entries_for stack user ys
entries_for-append stack user [] ys = omega arith
entries_for-append stack user (x ∷ xs) ys = omega (arith, entries_for-append stack user xs ys)

is_disabled_iff :
    (s : State) (stack user : Text)
    → (is_disabled s stack user ≡ false) ↔ (entries_for stack user s.disabled ≡ 0)
unfolding is_disabled entry_for
is_disabled_iff s stack user = first_entry-entries_for stack user s.disabled

-- The entries of the state that Disable leaves, where it changes the state.
entries_for-disable :
    (s : State) (stack user since stack' user' : Text)
    → is_disabled s stack user ≡ false
    → entries_for stack' user' (disable s stack user since).0.disabled
      ≡ (if stack == stack' && user == user' then 1 else 0) + entries_for stack' user' s.disabled
unfolding disable sorted
entries_for-disable s stack user since stack' user' new =
    let entry : Entry = record { user = user; stack = stack; since = since } in
    rw new (
      omega (
        arith,
        entries_for-sort_by stack' user' (s.disabled ++ entry ∷ []),
        entries_for-append stack' user' s.disabled (entry ∷ []),
      ))

disable-unchanged :
    (s : State) (stack user since : Text)
    → is_disabled s stack user ≡ true
    → disable s stack user since ≡ (s, false)
unfolding disable
disable-unchanged s stack user since old = rw old refl

changed-disable :
    (s : State) (stack user since : Text)
    → (disable s stack user since).1 ≡ not (is_disabled s stack user)
unfolding disable
changed-disable s stack user since = ground arith

-- After Disable exactly the given user and those that were disabled before are disabled, whatever
-- the user's name and stack, and the flag says whether the user was not disabled before.
pub disable-is_disabled :
    (s : State) (stack user since : Text)
    → ((stack' user' : Text)
        → is_disabled (disable s stack user since).0 stack' user'
          ≡ (is_disabled s stack' user' || stack == stack' && user == user'))
      × ((disable s stack user since).1 ≡ not (is_disabled s stack user))
disable-is_disabled s stack user since = (
  λ stack' user'. elim (Bool-cases (is_disabled s stack user)) [
    | inl old ↦ ground (
      arith,
      disable-unchanged s stack user since old,
      text_eq_iff stack stack',
      text_eq_iff user user',
    )
    | inr new ↦ ground (
      arith,
      entries_for-disable s stack user since stack' user' new,
      is_disabled_iff s stack' user',
      is_disabled_iff (disable s stack user since).0 stack' user',
    )
  ],
  changed-disable s stack user since,
)

-- Disable keeps a state in which no user of a stack is listed twice such a state.
pub disable-IsUnique :
    (s : State) (stack user since : Text) → IsUnique s → IsUnique (disable s stack user since).0
disable-IsUnique s stack user since unique stack' user' =
    elim (Bool-cases (is_disabled s stack user)) [
      | inl old ↦ ground (arith, disable-unchanged s stack user since old, unique stack' user')
      | inr new ↦ ground (
        arith,
        entries_for-disable s stack user since stack' user' new,
        unique stack' user',
        is_disabled_iff s stack user,
        text_eq_iff stack stack',
        text_eq_iff user user',
      )
    ]

pub drop_entries-entries_for :
    (stack user stack' user' : Text) (entries : List Entry)
    → (entries_for stack' user' (drop_entries stack user entries).0
        ≡ (if stack == stack' && user == user' then 0 else entries_for stack' user' entries))
      × ((drop_entries stack user entries).1 ≡ not (nat_eq (entries_for stack user entries) 0))
unfolding drop_entries
drop_entries-entries_for stack user stack' user' [] = ground arith
drop_entries-entries_for stack user stack' user' (entry ∷ entries) = ground (
  arith,
  drop_entries-entries_for stack user stack' user' entries,
  text_eq_iff stack stack',
  text_eq_iff user user',
  text_eq_iff entry.stack stack,
  text_eq_iff entry.user user,
  text_eq_iff entry.stack stack',
  text_eq_iff entry.user user',
)

-- After Enable exactly the users that were disabled before and are not the given one are disabled,
-- and the flag says whether the user was disabled before.
pub enable-is_disabled :
    (s : State) (stack user : Text)
    → ((stack' user' : Text)
        → is_disabled (enable s stack user).0 stack' user'
          ≡ (is_disabled s stack' user' && not (stack == stack' && user == user')))
      × ((enable s stack user).1 ≡ is_disabled s stack user)
unfolding enable
enable-is_disabled s stack user = (
  λ stack' user'. ground (
    arith,
    drop_entries-entries_for stack user stack' user' s.disabled,
    is_disabled_iff s stack' user',
    is_disabled_iff (enable s stack user).0 stack' user',
  ),
  ground (
    arith,
    drop_entries-entries_for stack user stack user s.disabled,
    is_disabled_iff s stack user,
  ),
)

-- Enabling a user right after disabling it leaves disabled exactly who was disabled, if the user
-- was not disabled at first; both calls report a change.
pub enable-disable :
    (s : State) (stack user since : Text)
    → is_disabled s stack user ≡ false
    → ((stack' user' : Text)
        → is_disabled (enable (disable s stack user since).0 stack user).0 stack' user'
          ≡ is_disabled s stack' user')
      × ((disable s stack user since).1 ≡ true)
      × ((enable (disable s stack user since).0 stack user).1 ≡ true)
enable-disable s stack user since new =
    let after = disable-is_disabled s stack user since in
    let undone = enable-is_disabled (disable s stack user since).0 stack user in
    (
      λ stack' user'. ground (
        arith,
        after.0 stack' user',
        undone.0 stack' user',
        text_eq_iff stack stack',
        text_eq_iff user user',
      ),
      ground (arith, after.1),
      ground (arith, undone.1, after.0 stack user, text_eq_iff stack stack, text_eq_iff user user),
    )

users_of-put :
    (m : Map Text (List Text)) (stack : Text) (users : List Text) (stack' : Text)
    → users_of (put stack users m) stack' ≡ (if stack == stack' then users else users_of m stack')
unfolding users_of
users_of-put m stack users stack' = ground (arith, lookup-put stack users m stack')

has-add_user :
    (m : Map Text (List Text)) (stack user stack' user' : Text)
    → has (add_user (some m) stack user) stack' user'
      ≡ (has (some m) stack' user' || stack == stack' && user == user')
unfolding has add_user
has-add_user m stack user stack' user' = ground (
  arith,
  users_of-put m stack (add user (users_of m stack)) stack',
  contains-add user (users_of m stack) user',
  text_eq_iff stack stack',
)

has-add_users :
    (entries : List Entry) (m : Map Text (List Text)) (stack user : Text)
    → has (add_users entries (some m)) stack user
      ≡ (has (some m) stack user || not (nat_eq (entries_for stack user entries) 0))
unfolding add_users add_user
has-add_users [] m stack user = ground arith
has-add_users (entry ∷ entries) m stack user =
    let next = put entry.stack (add entry.user (users_of m entry.stack)) m in
    ground (
      arith,
      has-add_users entries next stack user,
      has-add_user m entry.stack entry.user stack user,
    )

has-empty : (stack user : Text) → has (some []) stack user ≡ false
unfolding has users_of lookup contains
has-empty stack user = refl

-- UserSet holds a user of a stack exactly where the state has the user disabled.
pub has-user_set :
    (s : State) (stack user : Text) → has (user_set s) stack user ≡ is_disabled s stack user
unfolding user_set
has-user_set s stack user = elim (List-cases s.disabled) [
  | inl nobody ↦ unfold has in ground (arith, is_disabled_iff s stack user, nobody)
  | inr (entry, entries, somebody) ↦ ground (
    arith,
    has-add_users s.disabled [] stack user,
    has-empty stack user,
    is_disabled_iff s stack user,
    somebody,
  )
]

has_blank-insert_by :
    (x : Entry) (entries : List Entry)
    → has_blank (insert_by entry_less x entries) ≡ has_blank (x ∷ entries)
unfolding insert_by has_blank
has_blank-insert_by x [] = refl
has_blank-insert_by x (entry ∷ entries) = ground (arith, has_blank-insert_by x entries)

has_blank-sort_by :
    (entries : List Entry) → has_blank (sort_by entry_less entries) ≡ has_blank entries
unfolding sort_by has_blank
has_blank-sort_by [] = refl
has_blank-sort_by (entry ∷ entries) =
    ground
      (arith, has_blank-insert_by entry (sort_by entry_less entries), has_blank-sort_by entries)

checked_state-saved :
    (path : Text) (s : State)
    → has_blank s.disabled ≡ false
    → checked_state path (saved s) ≡ ok (sorted (saved s))
unfolding checked_state saved sorted
checked_state-saved path s complete = ground (arith, has_blank-sort_by s.disabled)

-- encoding/json reads back the state that it has written.
abbrev pub ReadsBack : Codec → State → Type 0
ReadsBack codec s =
    (data_ : Text) × (codec.marshal_indent s ≡ ok data_)
    × (codec.unmarshal (data_ ++ codes "\n") ≡ ok s)

-- Save of a state whose entries all name a user and a stack gives a content that Load accepts, and the
-- loaded state has exactly the same users disabled, if encoding/json reads back, with a newline behind it,
-- what it has written of the state that Save encodes.
pub load-save :
    (codec : Codec) (path : Text) (s : State)
    → has_blank s.disabled ≡ false
    → ReadsBack codec (saved s)
    → (file : Text) × (t : State) × (save codec s ≡ ok file)
      × (load codec path (content file) ≡ ok t)
      × ((stack user : Text) → is_disabled t stack user ≡ is_disabled s stack user)
unfolding load save
load-save codec path s complete (data_, written, read) = (
  data_ ++ codes "\n",
  sorted (saved s),
  >>=-pass _ written,
  ground (arith, read, checked_state-saved path s complete),
  λ stack user.
      unfold sorted in
      unfold saved in
      ground (
        arith,
        is_disabled_iff s stack user,
        is_disabled_iff (sorted (saved s)) stack user,
        entries_for-sort_by stack user s.disabled,
        entries_for-sort_by stack user (sort_by entry_less s.disabled),
      ),
)
