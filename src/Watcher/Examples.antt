-- ===== src/Watcher/Examples.antt =====
-- Concrete runs of the filter, the debouncer and the cluster watcher.
use k8s_deploy_monitor_opera.Prelude.{
  ◌≡◌, refl, ◌<◌, none, some, List, [], ◌∷◌, GoString, str, lookup, insert, index, ◌==◌, ltb, not,
  ◌&&◌, on_some, if◌then◌else◌, arith,
}
use k8s_deploy_monitor_opera.Event.{RolloutEvent}
use k8s_deploy_monitor_opera.Watcher.Filter.{
  new_namespace_filter, allowed, update, to_set, to_set_from,
}
use k8s_deploy_monitor_opera.Watcher.Debouncer.{Debouncer, new_debouncer, submit}
use k8s_deploy_monitor_opera.Watcher.Debouncer.Trace.{
  Op, submit_op, fire_op, orphan_op, emit_op, step, run, IsConsistent, run-new-IsConsistent,
}
use k8s_deploy_monitor_opera.Watcher.Debouncer.Refinement.{
  Contract, contract_step, has_callback, Implements, step-Implements,
}
use k8s_deploy_monitor_opera.Watcher.Debouncer.Quiet.{IsWaiting, submit-waits_window}
use k8s_deploy_monitor_opera.Watcher.Debouncer.Orphan.{rearmed_then, orphan_sends_early}
use k8s_deploy_monitor_opera.Watcher.Informer.{
  Deployment, deployment, tombstone, transient, WatchError, ClusterWatcher, Shared, Env, Hooks,
  new_cluster_watcher, seed_hashes, deploy_key, full_key, template_hash, rollout_event, on_update,
}
use k8s_deploy_monitor_opera.Watcher.Informer.Cache.{
  Call, added, updated, deleted, replay, last_seen, cached, cached-replay, update_submits,
}
use k8s_deploy_monitor_opera.Watcher.Informer.Gap.{listed_then, gap_undetected}
use k8s_deploy_monitor_opera.Watcher.Informer.Health.{
  Happening, call, watch_error, health_after, all_same, error_types, error_streak, saw_auth_error,
  health_status-live,
}

abbrev event : RolloutEvent
event = record {
  cluster_id = str "east";
  namespace = str "shop";
  deployment_name = str "cart";
  old_template_hash = str "v1";
  new_template_hash = str "v2";
  old_images = [];
  new_images = [];
  app = [];
  slack_channel = [];
  timestamp = 5;
}

abbrev cart : GoString
cart = str "east/shop/cart"

abbrev other_key : GoString
other_key = str "east/shop/search"

-- an event whose timer has fired, and another that still waits
abbrev history : List Op
history = submit_op 5 cart event ∷ submit_op 20 other_key event ∷ fire_op 35 cart ∷ []

run-new-IsConsistent_example : IsConsistent (run history (new_debouncer 30 2))
run-new-IsConsistent_example = run-new-IsConsistent history 30 2

abbrev fired : Debouncer
fired = run history (new_debouncer 30 2)

abbrev view : Contract
view = record { wanted = λ k. lookup k fired.pending; sent = fired.out }

view-Implements : Implements fired view
view-Implements = record { pending_wanted = λ k. refl; out_sent = refl }

step-Implements_example :
    Implements
      (step (emit_op cart) fired)
      (contract_step fired.out_cap (has_callback (emit_op cart) fired) (emit_op cart) view)
step-Implements_example =
    step-Implements (emit_op cart) fired view (run-new-IsConsistent history 30 2) view-Implements

abbrev quiet_time : List Op
quiet_time = submit_op 6 other_key event ∷ fire_op 34 cart ∷ emit_op cart ∷ []

submit-waits_window_example :
    IsWaiting cart 35 event (run quiet_time (submit 5 cart event (new_debouncer 30 2)))
unfolding new_debouncer ◌==◌
submit-waits_window_example =
    submit-waits_window 5 cart event quiet_time (new_debouncer 30 2) refl refl
      (refl, (omega arith, (tt, tt)))

abbrev waiting : Debouncer
waiting = submit 5 cart event (new_debouncer 30 2)

orphan_sends_early_example :
    let d' = run (rearmed_then cart event event 35 35 40 waiting) waiting in
    ((run (orphan_op 65 cart ∷ emit_op cart ∷ []) d').out ≡ event ∷ event ∷ [])
    × (lookup cart d'.timers ≡ some (some 70))
    × (65 < 70)
unfolding new_debouncer submit lookup insert ◌==◌
orphan_sends_early_example =
    orphan_sends_early cart event event 35 35 40 waiting refl (omega arith) (omega arith)
      (omega arith) (omega arith)

-- the hooks before and after a reload that denies another namespace and sets an app
abbrev old_hooks : Hooks
old_hooks = record {
  ns_filter = allowed (new_namespace_filter [] (str "kube-system" ∷ []));
  event_enricher = none;
}

abbrev new_hooks : Hooks
new_hooks = record {
  ns_filter = allowed (new_namespace_filter [] (str "infra" ∷ []));
  event_enricher = some (λ e. record e { app = str "store" });
}

-- a template is its own JSON here
abbrev env : Env GoString
env = record { marshal = λ t. t; images = λ t. t ∷ [] }

abbrev version : GoString → Deployment GoString
version t = record { namespace = str "shop"; name = str "cart"; template = t }

abbrev fresh : ClusterWatcher × Shared
fresh =
    (new_cluster_watcher (str "east"), record { debouncer = new_debouncer 30 2; store = some [] })

abbrev calls : List (Call GoString)
calls =
    updated 8 new_hooks (deployment (version (str "v1"))) (deployment (version (str "v2")))
    ∷ deleted 7 (tombstone (deployment (version (str "v0"))))
    ∷ added 6 old_hooks (deployment (version (str "v1")))
    ∷ []

cached-replay_example :
    cached env (str "shop/cart") (replay env calls fresh).0
    ≡ last_seen env (str "shop/cart") (cached env (str "shop/cart") fresh.0) calls
cached-replay_example = cached-replay env (str "shop/cart") calls fresh

update_submits_example :
    let (w, s) = replay env calls fresh in
    (on_update env 9 new_hooks
      (deployment (version (str "v2")))
      (deployment (version (str "v3")))
      (w, s)).1.debouncer
    ≡ (if new_hooks.ns_filter (str "shop")
        then on_some
            (last_seen env
              (deploy_key (version (str "v3")))
              (cached env (deploy_key (version (str "v3"))) fresh.0)
              calls)
            s.debouncer
            (λ h.
              if template_hash env (version (str "v3")) == h
              then s.debouncer
              else submit 9
                  (full_key w (version (str "v3")))
                  (rollout_event env new_hooks 9 w h
                    (deployment (version (str "v2")))
                    (version (str "v3")))
                  s.debouncer)
        else s.debouncer)
update_submits_example =
    update_submits env 9 new_hooks (deployment (version (str "v2"))) (version (str "v3")) calls
      fresh

-- the persisted hash is of another template than the list shows
gap_undetected_example :
    (replay env
      (listed_then env 6 old_hooks
        (version (str "v2"))
        ((9, new_hooks, deployment (version (str "v2"))) ∷ []))
      (seed_hashes ((str "shop/cart", str "v1") ∷ []) fresh.0, fresh.1)).1.debouncer
    ≡ fresh.1.debouncer
unfolding allowed new_namespace_filter update to_set to_set_from index lookup insert ◌==◌
gap_undetected_example =
    gap_undetected env 6 old_hooks (version (str "v2")) ((str "shop/cart", str "v1") ∷ [])
      ((9, new_hooks, deployment (version (str "v2"))) ∷ []) fresh.0 fresh.1 refl

abbrev timeout : WatchError
timeout = record { kind = transient; go_type = str "*url.Error" }

abbrev happenings : List (Happening GoString)
happenings =
    watch_error timeout
    ∷ watch_error timeout
    ∷ call (added 6 old_hooks (deployment (version [])))
    ∷ []

health_status-live_example :
    health_after env happenings (new_cluster_watcher (str "east"), fresh.1) ≡ (
      if all_same (error_types env happenings)
      then some (
        ltb (error_streak env happenings) 5 && not (saw_auth_error env happenings),
        saw_auth_error env happenings,
      )
      else none)
health_status-live_example = health_status-live env happenings (str "east") fresh.1
