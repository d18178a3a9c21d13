-- ===== src/Watcher/Debouncer/Orphan.antt =====
-- A timer that debouncer.go re-arms while its callback waits for the lock, and that `emit` then
-- deletes from the map without stopping it.
use k8s_deploy_monitor_opera.Prelude.{
  ℕ, ◌+◌, ◌≤◌, ◌<◌, true, ◌≡◌, List, [], ◌∷◌, ◌++◌, GoString, ◌==◌, any, none, some, lookup, insert,
  length, arith, eq_refl, lookup-insert_self, length-append, append_assoc, ap, ◌∙◌,
}
use k8s_deploy_monitor_opera.Event.{RolloutEvent}
use k8s_deploy_monitor_opera.Watcher.Debouncer.{
  Debouncer, submit, emit, try_send, orphaned, has_expired, fire_orphan,
}
use k8s_deploy_monitor_opera.Watcher.Debouncer.Quiet.{fire-due}
use k8s_deploy_monitor_opera.Watcher.Debouncer.Trace.{
  Op, submit_op, fire_op, orphan_op, emit_op, step, run,
}

-- the callback of a timer of `key` that is armed again: its event is sent, the timer is orphaned
emit-rearmed :
    (key : GoString) (event : RolloutEvent) (limit : ℕ) (d : Debouncer)
    → lookup key d.pending ≡ some event
    → lookup key d.timers ≡ some (some limit)
    → any (λ k. k == key) d.callbacks ≡ true
    → length d.out < d.out_cap
    → let d' = step (emit_op key) d in
      (d'.out ≡ d.out ++ event ∷ [])
      × (d'.orphans ≡ (key, limit) ∷ d.orphans)
      × (d'.out_cap ≡ d.out_cap)
      × (d'.window ≡ d.window)
unfolding step emit try_send orphaned
emit-rearmed key event limit d p a c room = ground arith

-- an orphan that is due starts a callback, which sends whatever is pending
orphan-sends :
    (key : GoString) (event : RolloutEvent) (now : ℕ) (d : Debouncer)
    → lookup key d.pending ≡ some event
    → has_expired now key d.orphans ≡ true
    → length d.out < d.out_cap
    → (run (orphan_op now key ∷ emit_op key ∷ []) d).out ≡ d.out ++ event ∷ []
unfolding run step fire_orphan emit try_send
orphan-sends key event now d p due room = ground (arith, eq_refl key)

module _ (key : GoString) (e₁ e₂ : RolloutEvent) (limit t₁ t₂ : ℕ) (d : Debouncer) where
  -- The timer of `key` expires at `t₁`; before its callback takes the lock, `e₁` is submitted and
  -- re-arms it; the callback sends `e₁`; `e₂` is submitted at `t₂`.
  abbrev pub rearmed_then : List Op
  rearmed_then = fire_op t₁ key ∷ submit_op t₁ key e₁ ∷ emit_op key ∷ submit_op t₂ key e₂ ∷ []

  rearmed : Debouncer
  rearmed =
      submit t₁ key e₁
        (record d { timers = insert key none d.timers; callbacks = key ∷ d.callbacks })

  fire-rearmed :
      lookup key d.timers ≡ some (some limit)
      → limit ≤ t₁
      → step (submit_op t₁ key e₁) (step (fire_op t₁ key) d) ≡ rearmed
  unfolding rearmed step
  fire-rearmed armed due = ap (submit t₁ key e₁) (fire-due t₁ key limit d armed due)

  after_rearmed :
      length d.out < d.out_cap
      → let d' = step (emit_op key) rearmed in
        (d'.out ≡ d.out ++ e₁ ∷ [])
        × (d'.orphans ≡ (key, t₁ + d.window) ∷ d.orphans)
        × (d'.out_cap ≡ d.out_cap)
        × (d'.window ≡ d.window)
  unfolding submit rearmed insert
  after_rearmed room =
      emit-rearmed key e₁ (t₁ + d.window) rearmed (lookup-insert_self key e₁ d.pending)
        (lookup-insert_self key (some (t₁ + d.window)) (insert key none d.timers))
        (ground (arith, eq_refl key)) room

  orphan_due :
      (d' : Debouncer)
      → d'.orphans ≡ (key, t₁ + d.window) ∷ d.orphans
      → has_expired (t₁ + d.window) key d'.orphans ≡ true
  unfolding has_expired
  orphan_due d' e = rw e (ground (arith, eq_refl key))

  submitted-pending :
      (d' : Debouncer) → lookup key (step (submit_op t₂ key e₂) d').pending ≡ some e₂
  unfolding step submit
  submitted-pending d' = lookup-insert_self key e₂ d'.pending

  submitted-timer :
      (d' : Debouncer)
      → d'.window ≡ d.window
      → lookup key (step (submit_op t₂ key e₂) d').timers ≡ some (some (t₂ + d.window))
  unfolding step submit
  submitted-timer d' e =
      lookup-insert_self key (some (t₂ + d'.window)) d'.timers ∙ ap (λ w. some (some (t₂ + w))) e

  has_room :
      (d' : Debouncer)
      → d'.out ≡ d.out ++ e₁ ∷ []
      → d'.out_cap ≡ d.out_cap
      → length d.out + 1 < d.out_cap
      → length d'.out < d'.out_cap
  has_room d' e cap room = rw (e, cap) (ground (arith, length-append d.out (e₁ ∷ [])))

  -- The timer of a key expires at `t₁`, and its callback has not yet taken the lock when `e₁` is
  -- submitted for the key. The channel has room for two events. The callback sends `e₁`. If then
  -- `e₂` is submitted for the key at `t₂`, after `t₁` and by `t₁ + window`, the timer that `e₁`
  -- re-armed expires at `t₁ + window` and `e₂` is sent, although the timer armed for `e₂` has its
  -- deadline later, at `t₂ + window`.
  pub orphan_sends_early :
      lookup key d.timers ≡ some (some limit)
      → limit ≤ t₁
      → t₁ < t₂
      → t₂ ≤ t₁ + d.window
      → length d.out + 1 < d.out_cap
      → let d' = run rearmed_then d in
        ((run (orphan_op (t₁ + d.window) key ∷ emit_op key ∷ []) d').out ≡ d.out ++ e₁ ∷ e₂ ∷ [])
        × (lookup key d'.timers ≡ some (some (t₂ + d.window)))
        × (t₁ + d.window < t₂ + d.window)
  unfolding run rearmed
  orphan_sends_early armed due later in_time room =
      let d₁ : Debouncer = step (emit_op key) rearmed in
      let (sent, orphans, cap, window) = after_rearmed (omega arith) in
      rw (fire-rearmed armed due) (
        orphan-sends key e₂ (t₁ + d.window) (step (submit_op t₂ key e₂) d₁) (submitted-pending d₁)
              (unfold step submit in orphan_due d₁ orphans)
              (unfold step submit in has_room d₁ sent cap room)
            ∙ (unfold step submit in
                ap (λ l. l ++ e₂ ∷ []) sent ∙ append_assoc d.out (e₁ ∷ []) (e₂ ∷ [])),
        submitted-timer d₁ window,
        omega arith,
      )
