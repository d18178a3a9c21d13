-- ===== src/Watcher/Debouncer.antt =====
-- internal/watcher/debouncer.go: one pending event and one timer for each deployment key.
-- A `time.Timer` is its deadline while it is armed. When a deadline passes, the runtime takes the
-- timer out and starts its callback, `emit key`, in a goroutine that has yet to take the lock: the
-- key then stands in `callbacks`. `Reset` and `Stop` act on the timer alone, never on a callback.
-- A timer that `Submit` re-arms while its callback waits for the lock is still armed when `emit`
-- deletes it from the map: it then stands in `orphans`, out of the reach of `Submit` and `Stop`.
pub mod Trace
pub mod Refinement
pub mod Quiet
pub mod Orphan
use k8s_deploy_monitor_opera.Prelude.{
  ℕ, ◌+◌, Bool, Option, none, some, List, [], ◌∷◌, ◌++◌, GoString, Map, lookup, insert, remove,
  length, ltb, leb, false, ◌&&◌, ◌||◌, ◌==◌, if◌then◌else◌,
}
use k8s_deploy_monitor_opera.Event.{RolloutEvent}

pub record Debouncer : Type 0 where
  pub window : ℕ
  -- the deadline of an armed timer, `none` for one that has fired or was stopped
  pub timers : Map (Option ℕ)
  pub pending : Map RolloutEvent
  -- armed timers that `emit` has deleted from the map, with their deadlines
  pub orphans : List (GoString × ℕ)
  -- callbacks that have been started and have not taken the lock
  pub callbacks : List GoString
  -- the buffered channel `out` and its capacity
  pub out : List RolloutEvent
  pub out_cap : ℕ

unfoldable pub new_debouncer : ℕ → ℕ → Debouncer
new_debouncer window out_cap = record {
  window = window;
  timers = [];
  pending = [];
  orphans = [];
  callbacks = [];
  out = [];
  out_cap = out_cap;
}

-- `t.Reset(d.window)` on a known key and `time.AfterFunc` on a new one both arm the key's timer.
unfoldable pub submit : ℕ → GoString → RolloutEvent → Debouncer → Debouncer
submit now key event d = record d {
  pending = insert key event d.pending;
  timers = insert key (some (now + d.window)) d.timers;
}

-- the non-blocking send of `emit`
unfoldable pub try_send : RolloutEvent → Debouncer → Debouncer
try_send event d =
    if ltb (length d.out) d.out_cap then record d { out = d.out ++ event ∷ [] } else d

-- `delete(d.timers, key)` does not stop the timer.
unfoldable pub orphaned : GoString → Debouncer → List (GoString × ℕ)
orphaned key d = elim (lookup key d.timers) [
  | some (some deadline) ↦ (key, deadline) ∷ d.orphans
  | _ ↦ d.orphans
]

unfoldable pub emit : GoString → Debouncer → Debouncer
emit key d =
    let d' : Debouncer = record d {
      pending = remove key d.pending;
      timers = remove key d.timers;
      orphans = orphaned key d;
    } in
    elim (lookup key d.pending) [ none ↦ d' | some event ↦ try_send event d' ]

-- the loop of `Stop` over `d.timers`
unfoldable pub stop_timers : Map (Option ℕ) → Debouncer → Debouncer
stop_timers [] d = d
stop_timers ((key, t) ∷ rest) d =
    stop_timers rest (record d { timers = remove key d.timers; pending = remove key d.pending })

unfoldable pub stop : Debouncer → Debouncer
stop d = stop_timers d.timers d

-- The runtime fires a timer whose deadline has passed: its callback is started.
unfoldable pub fire : ℕ → GoString → Debouncer → Debouncer
fire now key d = elim (lookup key d.timers) [
  | some (some deadline) ↦
      if leb deadline now
      then record d { timers = insert key none d.timers; callbacks = key ∷ d.callbacks }
      else d
  | _ ↦ d
]

-- one timer of `key` whose deadline has passed leaves the list
unfoldable pub expire : ℕ → GoString → List (GoString × ℕ) → List (GoString × ℕ)
expire now key [] = []
expire now key ((k, deadline) ∷ ts) =
    if k == key && leb deadline now then ts else (k, deadline) ∷ expire now key ts

unfoldable pub has_expired : ℕ → GoString → List (GoString × ℕ) → Bool
has_expired now key [] = false
has_expired now key ((k, deadline) ∷ ts) = (k == key && leb deadline now) || has_expired now key ts

-- The runtime fires such a timer that no map holds: it starts the same callback.
unfoldable pub fire_orphan : ℕ → GoString → Debouncer → Debouncer
fire_orphan now key d =
    if has_expired now key d.orphans
    then record d { orphans = expire now key d.orphans; callbacks = key ∷ d.callbacks }
    else d
