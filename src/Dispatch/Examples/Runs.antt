-- ===== src/Dispatch/Examples/Runs.antt =====
-- Runs of the record watcher, the cleaner and the recorder.
use k8s_deploy_monitor_opera.Prelude.{
  ℕ, ◌≤◌, ◌/◌, ◌*◌, none, some, List, [], ◌∷◌, GoString, str, ◌==◌, lookup, insert, ◌≡◌, refl, inr,
  ◌⊎◌, ◌≢◌, arith,
}
use k8s_deploy_monitor_opera.Monitor.{on_dispatched_record, phase_after}
use k8s_deploy_monitor_opera.Monitor.Combined.{IsNoted, handle_event-IsNoted}
use k8s_deploy_monitor_opera.Dispatch.Targets
use k8s_deploy_monitor_opera.Dispatch.{handle_event, set_on_dispatched}
use k8s_deploy_monitor_opera.Event.{RolloutEvent}
use k8s_deploy_monitor_opera.Record.{Item, text, phase_text, detected, processing, dispatched}
use k8s_deploy_monitor_opera.Persistence.Recorder.{
  record_of, record_name, record_rollout, create_error, second,
}
use k8s_deploy_monitor_opera.Persistence.Recorder.RoundTrip.{to_rollout_event-record_of}
use k8s_deploy_monitor_opera.Persistence.Recorder.Unclaimed.{IsIgnored, record_rollout-IsIgnored}
use k8s_deploy_monitor_opera.Dispatch.{Target, Dispatcher, dispatch_event, send_all, send_to}
use k8s_deploy_monitor_opera.Dispatch.Records.{
  phase_of, get_nested_string, get_str, value_text, claim_of, claim_record, set_phase, status_of,
  handle_record, to_rollout_event, do_recover_stuck, stuck_timeout,
}
use k8s_deploy_monitor_opera.Dispatch.Records.Claims.{claim, write, won, at_most_one_claim}
use k8s_deploy_monitor_opera.Dispatch.Records.Outcome.{IsLost, IsSent, handle_record-IsHandled}
use k8s_deploy_monitor_opera.Dispatch.Records.Recovery.{IsReset, recovery_undoes_fresh_claim}
use k8s_deploy_monitor_opera.Dispatch.Cleaner.{cleanup, ttl_of, day}
use k8s_deploy_monitor_opera.Dispatch.Cleaner.Kept.{cleanup_keeps}
use k8s_deploy_monitor_opera.Dispatch.Examples.Listed.{server-IsListed, server-DropsStatus}
use k8s_deploy_monitor_opera.Dispatch.Examples.{
  OneRecord, server, contents, server-IsVersioned, server-IsOptimistic, server-IsReliable,
  server-IsConsistent,
}

abbrev event : RolloutEvent
event = record {
  cluster_id = str "east";
  namespace = str "shop";
  deployment_name = str "cart";
  old_template_hash = str "v1";
  new_template_hash = str "v2";
  old_images = [];
  new_images = str "cart:2" ∷ [];
  app = [];
  slack_channel = str "#shop";
  timestamp = 5_200_000_000;
}

-- the world outside is the list of the events that were sent
abbrev log_target : Target (List RolloutEvent)
log_target = record { name = str "log"; send = λ e w. (e ∷ w, none) }

abbrev slack_target : Target (List RolloutEvent)
slack_target = record { name = str "slack"; send = λ e w. (w, some (str "timeout")) }

abbrev dispatcher : Dispatcher (List RolloutEvent)
dispatcher = record { targets = log_target ∷ slack_target ∷ []; workers = 0; on_dispatched = none }

-- a time is printed as that many bytes, one for each second
abbrev tick : ℕ → GoString
tick t = b'T' ∷ (t / second) ∷ []

abbrev untick : GoString → ℕ
untick [] = 0
untick (c ∷ []) = 0
untick (c ∷ d ∷ s) = d * second

to_rollout_event-record_of_example :
    to_rollout_event untick (record_of tick (str "monitor") event)
    ≡ record event { app = []; slack_channel = []; timestamp = 5_200_000_000 / second * second }
to_rollout_event-record_of_example =
    to_rollout_event-record_of tick untick (λ t. refl) (str "monitor") event

abbrev item : Item
item = record {
  name = str "east-shop-cart-5";
  namespace = str "monitor";
  labels = [];
  version = 7;
  created = 5_000_000_000;
  spec = some ((str "clusterID", text (str "east")) ∷ []);
  status = some ((str "phase", text (phase_text detected)) ∷ []);
}

abbrev state : OneRecord
state = record { revision = 7; slot = some item }

item_detected : phase_of item ≡ phase_text detected
unfolding phase_of get_nested_string get_str value_text lookup ◌==◌
item_detected = refl

at_most_one_claim_example :
    won contents (str "east-shop-cart-5") 7 (claim item ∷ claim item ∷ []) state ≤ 1
unfolding write claim_record claim_of set_phase ◌==◌
at_most_one_claim_example =
    at_most_one_claim contents server-IsVersioned server-IsOptimistic (str "east-shop-cart-5") 7
      (claim item ∷ claim item ∷ []) state
      (λ old h v. ground (arith, h), (λ old h v. ground (arith, h, v), tt))

handle_record-IsHandled_example :
    let (s', w') = handle_record server untick (str "T9") dispatcher item (state, []) in
    IsLost contents server-IsOptimistic item state s' [] w'
    ⊎ IsSent contents server-IsOptimistic untick (str "T9") dispatcher item state s' [] w'
unfolding ◌==◌
handle_record-IsHandled_example =
    handle_record-IsHandled contents server-IsOptimistic server-IsConsistent untick (str "T9")
      dispatcher item state [] refl item_detected

-- the record after the claim, at revision 8
abbrev claimed_item : Item
claimed_item = record item {
  version = 8;
  status = some ((str "phase", text (phase_text processing)) ∷ []);
}

recovery_undoes_fresh_claim_example :
    IsReset contents server-IsOptimistic
      (str "east-shop-cart-5")
      (do_recover_stuck server stuck_timeout 700_000_000_000 (claim_record server item state).0)
unfolding claim_record claim_of set_phase status_of insert ◌==◌
recovery_undoes_fresh_claim_example =
    recovery_undoes_fresh_claim contents server-IsOptimistic server-IsReliable stuck_timeout
      700_000_000_000 item claimed_item [] [] state refl item_detected (omega arith) refl refl tt tt

-- a record that was sent, two days old
abbrev sent_item : Item
sent_item = record item { status = some ((str "phase", text (phase_text dispatched)) ∷ []) }

cleanup_keeps_example :
    contents.stored
      (str "east-shop-cart-5")
      (cleanup server (ttl_of 30) (2 * day) (record { revision = 7; slot = some sent_item })).0
    ≡ some sent_item
unfolding ◌==◌
cleanup_keeps_example =
    cleanup_keeps contents server-IsListed 30 (2 * day) (str "east-shop-cart-5") sent_item
      (record { revision = 7; slot = some sent_item }) (omega arith) refl (inr (omega arith))

abbrev empty : OneRecord
empty = record { revision = 3; slot = none }

record_rollout-IsIgnored_example :
    (new : Item) × (contents.stored
        (record_name event)
        (record_rollout server tick (str "monitor") event empty).0
      ≡ some new)
    × (new.spec ≡ (record_of tick (str "monitor") event).spec)
    × IsIgnored contents new
record_rollout-IsIgnored_example =
    record_rollout-IsIgnored contents server-DropsStatus tick (str "monitor") event empty refl

-- a dispatcher that logs and records
abbrev recording : Dispatcher OneRecord
recording = record {
  targets = Targets.log_target OneRecord ∷ Targets.audit_target server tick (str "monitor") ∷ [];
  workers = 3;
  on_dispatched = none;
}

recorded_is_fresh :
    (it : Item)
    → contents.stored (record_name event) (dispatch_event recording event empty).world ≡ some it
    → phase_of it ≢ phase_text (phase_after (dispatch_event recording event empty).dispatch_err)
unfolding phase_of get_nested_string phase_text phase_after dispatch_event send_all send_to
    Targets.log_target Targets.audit_target record_rollout create_error ◌==◌
recorded_is_fresh it stored e = ground (arith, stored, e)

handle_event-IsNoted_example :
    let callback = on_dispatched_record server tick (str "monitor") 9_000_000_000 in
    IsNoted contents server-IsOptimistic server-IsConsistent tick
      (str "monitor")
      9_000_000_000
      event
      (dispatch_event recording event empty)
      (handle_event (set_on_dispatched callback recording) event empty)
handle_event-IsNoted_example =
    handle_event-IsNoted contents server-IsOptimistic server-IsConsistent tick (str "monitor")
      9_000_000_000 recording event empty recorded_is_fresh
