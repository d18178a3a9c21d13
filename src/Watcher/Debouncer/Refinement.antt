-- ===== src/Watcher/Debouncer/Refinement.antt =====
-- The debouncer against a contract without timers: the event wanted for each key, and what was
-- sent.
use k8s_deploy_monitor_opera.Prelude.{
  ℕ, Bool, true, false, ◌≡◌, refl, List, [], ◌∷◌, ◌++◌, GoString, any, ◌==◌, if◌then◌else◌, Map,
  Option, none, some, lookup, remove, has_key, ltb, length, arith, lookup-insert, lookup-remove,
  Bool-cases, inl, inr, ◌∙◌, is_some,
}
use k8s_deploy_monitor_opera.Event.{RolloutEvent}
use k8s_deploy_monitor_opera.Watcher.Debouncer.{
  Debouncer, submit, emit, stop, stop_timers, try_send, fire_orphan,
}
use k8s_deploy_monitor_opera.Watcher.Debouncer.Trace.{
  Op, submit_op, fire_op, orphan_op, emit_op, stop_op, take_out, step, IsConsistent, fire-pending,
  fire-out,
}

-- What a client relies on: the event wanted for each key, and what was sent.
pub record Contract : Type 0 where
  pub wanted : GoString → Option RolloutEvent
  pub sent : List RolloutEvent

abbrev send : ℕ → Option RolloutEvent → List RolloutEvent → List RolloutEvent
send cap none sent = sent
send cap (some event) sent = if ltb (length sent) cap then sent ++ event ∷ [] else sent

abbrev set_wanted :
    GoString
    → Option RolloutEvent
    → (GoString → Option RolloutEvent)
    → GoString
    → Option RolloutEvent
set_wanted key o wanted k = if key == k then o else wanted k

-- The contract's step, for a channel of capacity `cap`; `started` says if a callback is running.
pub contract_step : ℕ → Bool → Op → Contract → Contract
contract_step cap started (submit_op now key event) c = record c {
  wanted = set_wanted key (some event) c.wanted;
}
contract_step cap started (fire_op now key) c = c
contract_step cap started (orphan_op now key) c = c
contract_step cap true (emit_op key) c = record {
  wanted = set_wanted key none c.wanted;
  sent = send cap (c.wanted key) c.sent;
}
contract_step cap false (emit_op key) c = c
contract_step cap started stop_op c = record c { wanted = λ k. none }

pub record Implements (d : Debouncer) (c : Contract) : Type 0 where
  pub pending_wanted : (k : GoString) → lookup k d.pending ≡ c.wanted k
  pub out_sent : d.out ≡ c.sent

abbrev pub has_callback : Op → Debouncer → Bool
has_callback (emit_op key) d = any (λ k. k == key) d.callbacks
has_callback _ d = false

lookup-emit :
    (key k : GoString) (d : Debouncer)
    → lookup k (emit key d).pending ≡ (if key == k then none else lookup k d.pending)
unfolding emit try_send
lookup-emit key k d = ground (arith, lookup-remove key k d.pending)

out-emit :
    (key : GoString) (d : Debouncer)
    → (emit key d).out ≡ send d.out_cap (lookup key d.pending) d.out
unfolding emit try_send
out-emit key d = ground arith

lookup-stop_timers :
    (ts : Map (Option ℕ)) (k : GoString) (d : Debouncer)
    → lookup k (stop_timers ts d).pending
      ≡ (if is_some (lookup k ts) then none else lookup k d.pending)
unfolding stop_timers lookup
lookup-stop_timers [] k d = refl
lookup-stop_timers ((key, t) ∷ rest) k d = ground (
  arith,
  lookup-stop_timers rest k
      (record d { timers = remove key d.timers; pending = remove key d.pending }),
  lookup-remove key k d.pending,
)

out-stop_timers : (ts : Map (Option ℕ)) (d : Debouncer) → (stop_timers ts d).out ≡ d.out
unfolding stop_timers
out-stop_timers [] d = refl
out-stop_timers ((key, t) ∷ rest) d = out-stop_timers rest _

-- no pending event survives `Stop`
pub lookup-stop : (k : GoString) (d : Debouncer) → IsConsistent d → lookup k (stop d).pending ≡ none
unfolding stop has_key
lookup-stop k d h = ground (arith, lookup-stop_timers d.timers k d, h.same_keys k)

-- Every step of the debouncer is the contract's step on what the client sees.
pub step-Implements :
    (op : Op) (d : Debouncer) (c : Contract)
    → IsConsistent d
    → Implements d c
    → Implements (step op d) (contract_step d.out_cap (has_callback op d) op c)
unfolding step contract_step
step-Implements (submit_op now key event) d c v h = record {
  pending_wanted =
      λ k. unfold submit in ground (arith, lookup-insert key k event d.pending, h.pending_wanted k);
  out_sent = unfold submit in h.out_sent;
}
step-Implements (fire_op now key) d c v h = record {
  pending_wanted = λ k. rw fire-pending (h.pending_wanted k);
  out_sent = rw fire-out h.out_sent;
}
step-Implements (orphan_op now key) d c v h = record {
  pending_wanted = λ k. unfold fire_orphan in ground (arith, h.pending_wanted k);
  out_sent = unfold fire_orphan in ground (arith, h.out_sent);
}
step-Implements (emit_op key) d c v h = elim (Bool-cases (any (λ k. k == key) d.callbacks)) [
  | inl started ↦ rw started (record {
    pending_wanted = λ k. ground (
      arith,
      lookup-emit key k (record d { callbacks = take_out key d.callbacks }),
      h.pending_wanted k,
    );
    out_sent = ground (
      arith,
      out-emit key (record d { callbacks = take_out key d.callbacks }),
      h.pending_wanted key,
    );
  })
  | inr idle ↦ rw idle h
]
step-Implements stop_op d c v h = record {
  pending_wanted = λ k. lookup-stop k d v;
  out_sent = unfold stop in out-stop_timers d.timers d ∙ h.out_sent;
}
