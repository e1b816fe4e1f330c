-- ===== src/UserState/History.antt =====
-- internal/userstate/disabled.go: what a sequence of calls of Disable and Enable comes to.
use proxystack_go.Prelude.{
  Text, Text_eq, Bool, true, false, ◌&&◌, ◌==◌, if◌then◌else◌, List, [], ◌∷◌, Option, none, some,
}
use proxystack_go.UserState.{State, disable, enable}

-- A call of Disable or Enable.
pub data Call : Type 0 where
  disabling : Text → Text → Text → Call
  enabling : Text → Text → Call

-- The state behind a call and behind the calls in order.
abbrev pub called : Call → State → State
called (disabling stack user since) s = (disable s stack user since).0
called (enabling stack user) s = (enable s stack user).0

abbrev pub run_calls : List Call → State → State
run_calls [] s = s
run_calls (call ∷ calls) s = run_calls calls (called call s)

abbrev pub call_names : Text → Text → Call → Bool
call_names stack user (disabling stack' user' since) = stack' == stack && user' == user
call_names stack user (enabling stack' user') = stack' == stack && user' == user

abbrev pub is_disabling : Call → Bool
is_disabling (disabling stack user since) = true
is_disabling (enabling stack user) = false

-- Whether the last call that names the user of the stack is a Disable.
abbrev pub last_call : Text → Text → List Call → Option Bool
last_call stack user [] = none
last_call stack user (call ∷ calls) = elim (last_call stack user calls) [
  | some b ↦ some b
  | none ↦ if call_names stack user call then some (is_disabling call) else none
]
