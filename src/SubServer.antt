-- ===== src/SubServer.antt =====
-- internal/subserver/state.go: the index that the subscription server serves, and its reload.
pub mod Settings
pub mod Requests
pub mod Watcher
pub mod Served
pub mod Changes
pub mod Snapshots
use proxystack_go.Prelude.{
  Text, codes, text_lt, map, List, [], Option, none, some, Answer, ok, error,
}
use proxystack_go.Prelude.Sort.{sort_by}
use proxystack_go.Prelude.Paths.{join_path}
use proxystack_go.Sub.{Access, Index}
use proxystack_go.Sub.Load.{Disk, Decoders, merge_input_files}

-- State, without its lock: each operation is one step. `now` is an argument of the operations.
pub record State : Type 0 where
  pub index : Option Index
  pub last_error : Text
  pub data_dir : Text
  pub access : Access

unfoldable pub new_state : Text → Access → State
new_state data_dir access = record {
  index = none;
  last_error = [];
  data_dir = data_dir;
  access = access;
}

unfoldable pub failed : State → Text → State
failed s e = record s { last_error = e }

unfoldable pub replaced : State → Index → State
replaced s index = record s { index = some index; last_error = [] }

-- The new state, and the error that is returned.
unfoldable pub stored : State → Answer Index → State × Option Text
stored s (error e) = (failed s e, some e)
stored s (ok index) = (replaced s index, none)

module _ (disk : Disk) (decoders : Decoders) (now : Text) where
  unfoldable pub merged_index : State → Answer Index
  merged_index s =
      merge_input_files disk decoders (join_path s.data_dir (codes "inputs")) s.access now

  unfoldable pub load : State → State × Option Text
  load s = stored s (merged_index s)

  unfoldable pub reload : State → State × Option Text
  reload s = stored s (merged_index s)

-- The index, the users in order, and the last error.
unfoldable pub snapshot : State → Option Index × List Text × Text
snapshot s = elim s.index [
  | none ↦ (none, [], s.last_error)
  | some index ↦ (some index, sort_by text_lt (map (λ entry. entry.0) index.users), s.last_error)
]
