-- ===== src/SubServer/Changes.antt =====
-- internal/subserver/watcher.go: which changes lead to a reload.
use proxystack_go.Prelude.{
  ◌≡◌, refl, ◌⊎◌, ℕ, ◌+◌, ◌≤◌, ◌<◌, Text_eq, if◌then◌else◌, Bool, true, false, not, ◌&&◌, ◌||◌,
  List, [], ◌∷◌, ◌++◌, Option, arith,
}
use proxystack_go.SubServer.Watcher.{
  FileEntry, scan_snapshot, same_snapshot, Event, stop, notified, watch_error, ticked, elapsed,
  Loop, schedule_reload, on_tick, on_elapsed, is_change, step, run, started,
}

-- The event tells the loop of a change of the inputs.
abbrev pub notices : Loop → Event → Bool
notices l stop = false
notices l (notified name writes) = is_change name writes
notices l watch_error = false
notices l (ticked entries) = not (same_snapshot l.last_snapshot (scan_snapshot entries))
notices l (elapsed entries) = false

abbrev pub is_stop : Event → Bool
is_stop stop = true
is_stop _ = false

abbrev pub has_stop : List Event → Bool
has_stop [] = false
has_stop (event ∷ events) = is_stop event || has_stop events

-- The loop runs, and has reloaded more than `n` times or is about to.
abbrev Due : ℕ → Loop → Type 0
Due n l = (l.is_stopped ≡ false) × ((n < l.reloads) ⊎ ((l.is_pending ≡ true) × (n ≤ l.reloads)))

step-Due :
    (event : Event) (l : Loop) (n : ℕ) → is_stop event ≡ false → Due n l → Due n (step event l)
unfolding step on_tick on_elapsed schedule_reload
step-Due stop l n quiet due = absurd (ground arith)
step-Due (notified name writes) l n quiet due = ground (arith, due)
step-Due watch_error l n quiet due = ground (arith, due)
step-Due (ticked entries) l n quiet due = ground (arith, due)
step-Due (elapsed entries) l n quiet due = ground (arith, due)

run-Due :
    (events : List Event) (l : Loop) (n : ℕ)
    → has_stop events ≡ false
    → Due n l
    → Due n (run events l)
unfolding run
run-Due [] l n quiet due = due
run-Due (event ∷ events) l n quiet due =
    run-Due events (step event l) n (ground arith) (step-Due event l n (ground arith) due)

notices-Due :
    (event : Event) (l : Loop)
    → l.is_stopped ≡ false
    → notices l event ≡ true
    → Due l.reloads (step event l)
unfolding step on_tick schedule_reload
notices-Due stop l running h = absurd (ground arith)
notices-Due (notified name writes) l running h = ground (arith, running, h)
notices-Due watch_error l running h = absurd (ground arith)
notices-Due (ticked entries) l running h = ground (arith, running, h)
notices-Due (elapsed entries) l running h = absurd (ground arith)

run-append :
    (events others : List Event) (l : Loop) → run (events ++ others) l ≡ run others (run events l)
unfolding run
run-append [] others l = refl
run-append (event ∷ events) others l = run-append events others (step event l)

-- Every change that a running watcher notices is followed by a reload: whatever happens after the
-- change, unless the watcher is stopped, once the debounce timer fires it has reloaded since.
pub run-reloads :
    (l : Loop) (change : Event) (events : List Event) (entries : Option (List FileEntry))
    → l.is_stopped ≡ false
    → notices l change ≡ true
    → has_stop events ≡ false
    → l.reloads < (run (change ∷ events ++ elapsed entries ∷ []) l).reloads
unfolding run step on_elapsed
run-reloads l change events entries running noticed quiet =
    let due =
      run-Due events (step change l) l.reloads quiet (notices-Due change l running noticed) in
    ground (arith, due, run-append events (elapsed entries ∷ []) (step change l))

-- The number of changes that the loop notices.
unfoldable pub noticed_changes : List Event → Loop → ℕ
noticed_changes [] l = 0
noticed_changes (event ∷ events) l =
    (if not l.is_stopped && notices l event then 1 else 0) + noticed_changes events (step event l)

abbrev waiting : Loop → ℕ
waiting l = if l.is_pending then 1 else 0

step-bound :
    (event : Event) (l : Loop)
    → (step event l).reloads + waiting (step event l)
      ≤ l.reloads + waiting l + (if not l.is_stopped && notices l event then 1 else 0)
unfolding step on_tick on_elapsed schedule_reload
step-bound stop l = ground arith
step-bound (notified name writes) l = ground arith
step-bound watch_error l = ground arith
step-bound (ticked entries) l = ground arith
step-bound (elapsed entries) l = ground arith

run-bound :
    (events : List Event) (l : Loop)
    → (run events l).reloads + waiting (run events l)
      ≤ l.reloads + waiting l + noticed_changes events l
unfolding run noticed_changes
run-bound [] l = omega arith
run-bound (event ∷ events) l = omega (arith, step-bound event l, run-bound events (step event l))

-- A watcher that has just started never reloads more often than it notices a change.
pub run-started :
    (entries : Option (List FileEntry)) (events : List Event)
    → (run events (started entries)).reloads ≤ noticed_changes events (started entries)
unfolding started
run-started entries events = ground (arith, run-bound events (started entries))
