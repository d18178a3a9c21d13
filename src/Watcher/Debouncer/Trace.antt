-- ===== src/Watcher/Debouncer/Trace.antt =====
-- The steps that callers, timers and the runtime make the debouncer take, in any interleaving.
-- An interleaving is a list of steps: a method changes the maps in one critical section. `emit` sends
-- after it has released the lock; the send is taken with it as one step, since it touches the
-- channel alone, whose readers see the order of the sends.
use k8s_deploy_monitor_opera.Prelude.{
  ℕ, ◌≡◌, refl, List, [], ◌∷◌, GoString, any, ◌==◌, if◌then◌else◌, Map, Option, none, some, lookup,
  remove, has_key, ◌≤◌, length, arith, has_key-insert, has_key-remove, lookup-insert, Bool-cases,
  Option-cases, inl, inr, ◌∙◌, ◌+◌, eq_iff, length-append,
}
use k8s_deploy_monitor_opera.Event.{RolloutEvent}
use k8s_deploy_monitor_opera.Watcher.Debouncer.{
  Debouncer, new_debouncer, submit, emit, stop, stop_timers, fire, fire_orphan, try_send,
}

pub data Op : Type 0 where
  submit_op : ℕ → GoString → RolloutEvent → Op
  fire_op : ℕ → GoString → Op
  orphan_op : ℕ → GoString → Op
  emit_op : GoString → Op
  stop_op : Op

-- one occurrence of a key leaves the list of callbacks
unfoldable pub take_out : GoString → List GoString → List GoString
take_out key [] = []
take_out key (k ∷ ks) = if k == key then ks else k ∷ take_out key ks

-- A callback runs only if the runtime has started it.
unfoldable pub step : Op → Debouncer → Debouncer
step (submit_op now key event) d = submit now key event d
step (fire_op now key) d = fire now key d
step (orphan_op now key) d = fire_orphan now key d
step (emit_op key) d =
    if any (λ k. k == key) d.callbacks
    then emit key (record d { callbacks = take_out key d.callbacks })
    else d
step stop_op d = stop d

unfoldable pub run : List Op → Debouncer → Debouncer
run [] d = d
run (op ∷ ops) d = run ops (step op d)

-- Timers and pending events go by the same keys, and the channel holds no more than it can.
pub record IsConsistent (d : Debouncer) : Type 0 where
  pub same_keys : (k : GoString) → has_key k d.timers ≡ has_key k d.pending
  pub out_fits : length d.out ≤ d.out_cap

submit-IsConsistent :
    (now : ℕ) (key : GoString) (event : RolloutEvent) (d : Debouncer)
    → IsConsistent d
    → IsConsistent (submit now key event d)
unfolding submit
submit-IsConsistent now key event d h = record {
  same_keys = λ k. ground (
    arith,
    h.same_keys k,
    has_key-insert key k (some (now + d.window)) d.timers,
    has_key-insert key k event d.pending,
  );
  out_fits = h.out_fits;
}

fire-same_keys :
    (now : ℕ) (key k : GoString) (d : Debouncer)
    → has_key k (fire now key d).timers ≡ has_key k d.timers
unfolding fire has_key
fire-same_keys now key k d = ground (arith, lookup-insert key k none d.timers, eq_iff key k)

pub fire-out : (now : ℕ) (key : GoString) (d : Debouncer) → (fire now key d).out ≡ d.out
unfolding fire
fire-out now key d = ground arith

pub fire-out_cap : (now : ℕ) (key : GoString) (d : Debouncer) → (fire now key d).out_cap ≡ d.out_cap
unfolding fire
fire-out_cap now key d = ground arith

pub fire-pending : (now : ℕ) (key : GoString) (d : Debouncer) → (fire now key d).pending ≡ d.pending
unfolding fire
fire-pending now key d = ground arith

fire-IsConsistent :
    (now : ℕ) (key : GoString) (d : Debouncer) → IsConsistent d → IsConsistent (fire now key d)
fire-IsConsistent now key d h = record {
  same_keys = λ k. rw fire-pending (fire-same_keys now key k d ∙ h.same_keys k);
  out_fits = rw (fire-out, fire-out_cap) h.out_fits;
}

orphan-IsConsistent :
    (now : ℕ) (key : GoString) (d : Debouncer)
    → IsConsistent d
    → IsConsistent (fire_orphan now key d)
unfolding fire_orphan
orphan-IsConsistent now key d h = record {
  same_keys = λ k. ground (arith, h.same_keys k);
  out_fits = ground (arith, h.out_fits);
}

emit-same_keys :
    (key k : GoString) (d : Debouncer)
    → has_key k d.timers ≡ has_key k d.pending
    → has_key k (emit key d).timers ≡ has_key k (emit key d).pending
unfolding emit try_send
emit-same_keys key k d h =
    ground (arith, has_key-remove key k d.timers, has_key-remove key k d.pending)

emit-out_fits :
    (key : GoString) (d : Debouncer)
    → length d.out ≤ d.out_cap
    → length (emit key d).out ≤ (emit key d).out_cap
unfolding emit try_send
emit-out_fits key d h = elim (Option-cases (lookup key d.pending)) [
  | inl e ↦ rw (e, emit) h
  | inr (event, e) ↦ rw (e, emit) (ground (arith, length-append d.out (event ∷ [])))
]

emit-IsConsistent : (key : GoString) (d : Debouncer) → IsConsistent d → IsConsistent (emit key d)
emit-IsConsistent key d h = record {
  same_keys = λ k. emit-same_keys key k d (h.same_keys k);
  out_fits = emit-out_fits key d h.out_fits;
}

stop_timers-IsConsistent :
    (ts : Map (Option ℕ)) (d : Debouncer) → IsConsistent d → IsConsistent (stop_timers ts d)
unfolding stop_timers
stop_timers-IsConsistent [] d h = h
stop_timers-IsConsistent ((key, t) ∷ rest) d h =
    stop_timers-IsConsistent rest
      (record d { timers = remove key d.timers; pending = remove key d.pending })
      (record {
        same_keys = λ k.
            ground
              (arith, h.same_keys k, has_key-remove key k d.timers, has_key-remove key k d.pending);
        out_fits = h.out_fits;
      })

take_callback-IsConsistent :
    (ks : List GoString) (d : Debouncer)
    → IsConsistent d
    → IsConsistent (record d { callbacks = ks })
take_callback-IsConsistent ks d h = record { same_keys = h.same_keys; out_fits = h.out_fits }

pub step-IsConsistent : (op : Op) (d : Debouncer) → IsConsistent d → IsConsistent (step op d)
unfolding step stop
step-IsConsistent (submit_op now key event) d h = submit-IsConsistent now key event d h
step-IsConsistent (fire_op now key) d h = fire-IsConsistent now key d h
step-IsConsistent (orphan_op now key) d h = orphan-IsConsistent now key d h
step-IsConsistent (emit_op key) d h = elim (Bool-cases (any (λ k. k == key) d.callbacks)) [
  | inl started ↦ rw started (emit-IsConsistent key _ (take_callback-IsConsistent _ d h))
  | inr idle ↦ rw idle h
]
step-IsConsistent stop_op d h = stop_timers-IsConsistent d.timers d h

new_debouncer-IsConsistent : (window out_cap : ℕ) → IsConsistent (new_debouncer window out_cap)
unfolding new_debouncer has_key lookup
new_debouncer-IsConsistent window out_cap = record { same_keys = λ k. refl; out_fits = omega arith }

pub run-IsConsistent : (ops : List Op) (d : Debouncer) → IsConsistent d → IsConsistent (run ops d)
unfolding run
run-IsConsistent [] d h = h
run-IsConsistent (op ∷ ops) d h = run-IsConsistent ops (step op d) (step-IsConsistent op d h)

-- Under every interleaving of submits, timer expiries (also of re-armed timers that a callback has
-- deleted from the map), callbacks and stops, from a new debouncer, a key has a timer exactly if it has a pending event, and the channel never holds more events
-- than its capacity.
pub run-new-IsConsistent :
    (ops : List Op) (window out_cap : ℕ) → IsConsistent (run ops (new_debouncer window out_cap))
run-new-IsConsistent ops window out_cap =
    run-IsConsistent ops (new_debouncer window out_cap) (new_debouncer-IsConsistent window out_cap)
