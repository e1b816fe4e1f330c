-- ===== src/SubServer/Watcher.antt =====
-- internal/subserver/watcher.go: the loop that turns changes of the inputs directory into reloads.
-- The events of fsnotify, the ticker and the timer are a list of events; a time is a natural number.
use proxystack_go.Prelude.{
  ℕ, suc, nat_eq, Text, Text_eq, codes, is_empty, length, if◌then◌else◌, Bool, true, false, not,
  ◌&&◌, ◌||◌, contains, lookup, put, List, [], ◌∷◌, Option, none, some, Map,
}
use proxystack_go.Prelude.Paths.{base_name, extension}

unfoldable pub starts_with_dot : Text → Bool
starts_with_dot [] = false
starts_with_dot (c ∷ s) = nat_eq c b'.'

unfoldable pub is_input_change : Text → Bool
is_input_change path =
    let name = base_name path in
    if is_empty name || starts_with_dot name
    then false
    else contains (codes ".yaml" ∷ codes ".yml" ∷ codes ".json" ∷ []) (extension name)

-- An entry of the directory: its modification time is `none` where Info fails.
pub record FileEntry : Type 0 where
  pub name : Text
  pub is_dir : Bool
  pub mod_time : Option ℕ

abbrev pub Snapshot : Type 0
Snapshot = Map Text ℕ

unfoldable pub scan_entries : List FileEntry → Snapshot → Snapshot
scan_entries [] snapshot = snapshot
scan_entries (entry ∷ entries) snapshot = scan_entries entries (
    if entry.is_dir || not (is_input_change entry.name)
    then snapshot
    else (elim entry.mod_time [ none ↦ snapshot | some time ↦ put entry.name time snapshot ]))

-- `none` where ReadDir fails.
unfoldable pub scan_snapshot : Option (List FileEntry) → Snapshot
scan_snapshot none = []
scan_snapshot (some entries) = scan_entries entries []

-- The loop of sameSnapshot.
unfoldable pub times_agree : Snapshot → Snapshot → Bool
times_agree [] right = true
times_agree ((name, time) ∷ left) right = elim (lookup right name) [
  | none ↦ false
  | some other ↦ nat_eq other time && times_agree left right
]

unfoldable pub same_snapshot : Snapshot → Snapshot → Bool
same_snapshot left right =
    if not (nat_eq (length left) (length right)) then false else times_agree left right

-- The channels that the loop selects from. `notified` has the name of an event of fsnotify and
-- whether it is a create, write, remove or rename; `ticked` and `elapsed` have the directory as the
-- loop reads it then.
pub data Event : Type 0 where
  stop : Event
  notified : Text → Bool → Event
  watch_error : Event
  ticked : Option (List FileEntry) → Event
  elapsed : Option (List FileEntry) → Event

-- The variables of run: whether the debounce timer runs, and the number of calls of reload.
pub record Loop : Type 0 where
  pub is_stopped : Bool
  pub is_pending : Bool
  pub last_snapshot : Snapshot
  pub reloads : ℕ

unfoldable pub schedule_reload : Loop → Loop
schedule_reload l = record l { is_pending = true }

-- The directory has changed since the last snapshot.
unfoldable pub on_tick : Option (List FileEntry) → Loop → Loop
on_tick entries l =
    let current = scan_snapshot entries in
    if same_snapshot l.last_snapshot current
    then l
    else schedule_reload (record l { last_snapshot = current })

-- Without a running timer the channel is nil and yields nothing.
unfoldable pub on_elapsed : Option (List FileEntry) → Loop → Loop
on_elapsed entries l = if not l.is_pending then l else record l {
  is_pending = false;
  reloads = suc l.reloads;
  last_snapshot = scan_snapshot entries;
}

-- An event that the loop takes for a change.
unfoldable pub is_change : Text → Bool → Bool
is_change name writes = not (is_empty name) && is_input_change name && writes

unfoldable pub step : Event → Loop → Loop
step event l = if l.is_stopped then l else (elim event [
  | stop ↦ record l { is_stopped = true; is_pending = false }
  | notified name writes ↦ if is_change name writes then schedule_reload l else l
  | watch_error ↦ l
  | ticked entries ↦ on_tick entries l
  | elapsed entries ↦ on_elapsed entries l
])

unfoldable pub run : List Event → Loop → Loop
run [] l = l
run (event ∷ events) l = run events (step event l)

unfoldable pub started : Option (List FileEntry) → Loop
started entries = record {
  is_stopped = false;
  is_pending = false;
  last_snapshot = scan_snapshot entries;
  reloads = 0;
}

-- NewWatcher: an interval that is not positive is 2 seconds, a negative debounce is 0. Both count
-- nanoseconds and are `none` where they are negative.
unfoldable pub watcher_interval : Option ℕ → ℕ
watcher_interval none = 2000000000
watcher_interval (some n) = if nat_eq n 0 then 2000000000 else n

unfoldable pub watcher_debounce : Option ℕ → ℕ
watcher_debounce none = 0
watcher_debounce (some n) = n
