-- ===== src/Watcher/Debouncer/Quiet.antt =====
-- The coalescing window of the debouncer, from the submission of an event to its emission.
use k8s_deploy_monitor_opera.Prelude.{
  ℕ, ◌+◌, ◌≤◌, ◌<◌, Bool, true, false, ◌≡◌, refl, List, [], ◌∷◌, GoString, any, All, ◌==◌, ◌&&◌,
  ltb, none, some, lookup, insert, arith, eq_iff, lookup-insert, lookup-insert_self, lookup-remove,
  Bool-cases, inl, inr,
}
use k8s_deploy_monitor_opera.Event.{RolloutEvent}
use k8s_deploy_monitor_opera.Watcher.Debouncer.{
  Debouncer, submit, emit, fire, try_send, orphaned, expire, has_expired, fire_orphan,
}
use k8s_deploy_monitor_opera.Watcher.Debouncer.Trace.{
  Op, submit_op, fire_op, orphan_op, emit_op, stop_op, take_out, step, run,
}

-- A step that neither submits for `key`, nor stops, nor comes from the clock after `limit`.
abbrev pub IsQuiet : GoString → ℕ → Op → Type 0
IsQuiet key limit (submit_op now k event) = k == key ≡ false
IsQuiet key limit (fire_op now k) = now < limit
IsQuiet key limit (orphan_op now k) = now < limit
IsQuiet key limit (emit_op k) = Unit
IsQuiet key limit stop_op = ⊥

-- a re-armed timer of `key` that is out of the map and expires before `limit`
abbrev pub has_orphan_before : GoString → ℕ → Debouncer → Bool
has_orphan_before key limit d = any (λ o. o.0 == key && ltb o.1 limit) d.orphans

abbrev pub has_callback_for : GoString → Debouncer → Bool
has_callback_for key d = any (λ k. k == key) d.callbacks

-- The event waits: its timer is armed for `limit`, and no callback would send it.
pub record IsWaiting (key : GoString) (limit : ℕ) (event : RolloutEvent) (d : Debouncer)
    : Type 0 where
  pub is_pending : lookup key d.pending ≡ some event
  pub armed : lookup key d.timers ≡ some (some limit)
  pub no_callback : has_callback_for key d ≡ false

-- It waits, and no timer out of the map starts a callback before `limit`.
record IsHeld (key : GoString) (limit : ℕ) (event : RolloutEvent) (d : Debouncer) : Type 0 where
  waits : IsWaiting key limit event d
  no_orphan : has_orphan_before key limit d ≡ false

any-take_out :
    (key k : GoString) (ks : List GoString)
    → any (λ j. j == key) ks ≡ false
    → any (λ j. j == key) (take_out k ks) ≡ false
unfolding take_out
any-take_out key k [] h = refl
any-take_out key k (j ∷ ks) h = ground (arith, any-take_out key k ks)

orphan-late :
    (key k : GoString) (limit now : ℕ) (ts : List (GoString × ℕ))
    → now < limit
    → any (λ o. o.0 == key && ltb o.1 limit) ts ≡ false
    → has_expired now k ts ≡ true
    → k == key ≡ false
unfolding has_expired
orphan-late key k limit now [] q h g = ground arith
orphan-late key k limit now ((j, t) ∷ ts) q h g =
    ground (arith, orphan-late key k limit now ts q, eq_iff j k, eq_iff j key, eq_iff k key)

any-expire :
    (key k : GoString) (limit now : ℕ) (ts : List (GoString × ℕ))
    → any (λ o. o.0 == key && ltb o.1 limit) ts ≡ false
    → any (λ o. o.0 == key && ltb o.1 limit) (expire now k ts) ≡ false
unfolding expire
any-expire key k limit now [] h = refl
any-expire key k limit now ((j, t) ∷ ts) h = ground (arith, any-expire key k limit now ts)

any-orphaned :
    (key k : GoString) (limit : ℕ) (d : Debouncer)
    → k == key ≡ false
    → has_orphan_before key limit d ≡ false
    → any (λ o. o.0 == key && ltb o.1 limit) (orphaned k d) ≡ false
unfolding orphaned
any-orphaned key k limit d q h = ground arith

any-absent :
    (key k : GoString) (ks : List GoString)
    → any (λ j. j == key) ks ≡ false
    → any (λ j. j == k) ks ≡ true
    → k == key ≡ false
any-absent key k [] h g = cc
any-absent key k (j ∷ ks) h g =
    ground (arith, any-absent key k ks, eq_iff j k, eq_iff j key, eq_iff k key)

module _ (key : GoString) (limit : ℕ) (event : RolloutEvent) where
  submit-IsHeld :
      (now : ℕ) (k : GoString) (ev : RolloutEvent) (d : Debouncer)
      → k == key ≡ false
      → IsHeld key limit event d
      → IsHeld key limit event (submit now k ev d)
  unfolding submit
  submit-IsHeld now k ev d q h = ground (
    arith,
    lookup-insert k key ev d.pending,
    lookup-insert k key (some (now + d.window)) d.timers,
  )

  fire-IsHeld :
      (now : ℕ) (k : GoString) (d : Debouncer)
      → now < limit
      → IsHeld key limit event d
      → IsHeld key limit event (fire now k d)
  unfolding fire
  fire-IsHeld now k d q h = ground (arith, lookup-insert k key none d.timers, eq_iff k key)

  orphan-IsHeld :
      (now : ℕ) (k : GoString) (d : Debouncer)
      → now < limit
      → IsHeld key limit event d
      → IsHeld key limit event (fire_orphan now k d)
  unfolding fire_orphan
  orphan-IsHeld now k d q h =
      ground (arith, orphan-late key k limit now d.orphans q, any-expire key k limit now d.orphans)

  emit-IsHeld :
      (k : GoString) (d : Debouncer)
      → k == key ≡ false
      → IsHeld key limit event d
      → IsHeld key limit event (emit k (record d { callbacks = take_out k d.callbacks }))
  unfolding emit try_send
  emit-IsHeld k d q h = ground (
    arith,
    lookup-remove k key d.pending,
    lookup-remove k key d.timers,
    any-take_out key k d.callbacks,
    any-orphaned key k limit (record d { callbacks = take_out k d.callbacks }),
  )

  step-IsHeld :
      (op : Op) (d : Debouncer)
      → IsQuiet key limit op
      → IsHeld key limit event d
      → IsHeld key limit event (step op d)
  unfolding step
  step-IsHeld (submit_op now k ev) d q h = submit-IsHeld now k ev d q h
  step-IsHeld (fire_op now k) d q h = fire-IsHeld now k d q h
  step-IsHeld (orphan_op now k) d q h = orphan-IsHeld now k d q h
  step-IsHeld (emit_op k) d q h = elim (Bool-cases (any (λ j. j == k) d.callbacks)) [
    | inl started ↦
        rw started (emit-IsHeld k d (any-absent key k d.callbacks h.waits.no_callback started) h)
    | inr idle ↦ rw idle h
  ]
  step-IsHeld stop_op d q h = absurd q

  run-IsHeld :
      (ops : List Op) (d : Debouncer)
      → All (IsQuiet key limit) ops
      → IsHeld key limit event d
      → IsHeld key limit event (run ops d)
  unfolding run
  run-IsHeld [] d q h = h
  run-IsHeld (op ∷ ops) d q h = run-IsHeld ops (step op d) q.1 (step-IsHeld op d q.0 h)

-- An event is submitted at `t`, when no callback of its key is running and no re-armed timer that a
-- callback of the key has deleted from the map expires before `t + window`. It is then still pending
-- and unsent after any steps that take place before `t + window`, do not stop the debouncer, and
-- submit nothing more for its key: it is not sent early.
pub submit-waits_window :
    (t : ℕ) (key : GoString) (event : RolloutEvent) (ops : List Op) (d : Debouncer)
    → has_callback_for key d ≡ false
    → has_orphan_before key (t + d.window) d ≡ false
    → All (IsQuiet key (t + d.window)) ops
    → IsWaiting key (t + d.window) event (run ops (submit t key event d))
submit-waits_window t key event ops d idle no_orphan quiet =
    (run-IsHeld key (t + d.window) event ops (submit t key event d) quiet (
      unfold submit in
      record {
        waits = record {
          is_pending = lookup-insert_self key event d.pending;
          armed = lookup-insert_self key (some (t + d.window)) d.timers;
          no_callback = idle;
        };
        no_orphan = no_orphan;
      })).waits

pub fire-due :
    (now : ℕ) (key : GoString) (limit : ℕ) (d : Debouncer)
    → lookup key d.timers ≡ some (some limit)
    → limit ≤ now
    → step (fire_op now key) d
      ≡ record d { timers = insert key none d.timers; callbacks = key ∷ d.callbacks }
unfolding step fire
fire-due now key limit d armed due = ground (arith, armed)
