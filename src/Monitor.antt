-- ===== src/Monitor.antt =====
-- cmd/monitor/main.go: how the monitor puts its parts together.
pub mod Wiring
pub mod Combined
mod Examples
use k8s_deploy_monitor_opera.Prelude.{
  ℕ, Bool, true, false, not, ◌&&◌, ◌||◌, Option, none, some, List, [], ◌∷◌, ◌++◌, GoString, str,
  Map, ◌==◌, on_some, if◌then◌else◌,
}
use k8s_deploy_monitor_opera.Event.{RolloutEvent}
use k8s_deploy_monitor_opera.Record.{RolloutPhase, dispatched, failed}
use k8s_deploy_monitor_opera.Record.Server.{Client}
use k8s_deploy_monitor_opera.Persistence.Recorder.{update_rollout_status}
use k8s_deploy_monitor_opera.Watchlist.{Store, WatchEntry, lookup_entry}
use k8s_deploy_monitor_opera.Config.Fields.{Config}
use k8s_deploy_monitor_opera.Config.Environment.{NamespaceLookup, get_app, get_slack_channel}

pub data TargetKind : Type 0 where
  log_target : TargetKind
  audit_target : TargetKind
  slack_target : TargetKind
  slack_bot_target : TargetKind
  investigation_target : GoString → TargetKind
  diagnostic_target : TargetKind

-- `if b { targets = append(targets, t) }`
unfoldable pub add_if : Bool → TargetKind → List TargetKind → List TargetKind
add_if b t ts = if b then ts ++ t ∷ [] else ts

unfoldable pub posts_to_slack : Config → Bool
posts_to_slack c = c.dispatch_mode == str "slack" || c.dispatch_mode == str "both"

unfoldable pub investigates : Config → Bool
investigates c = not (c.investigation_mode == str "none")

-- The targets of the dispatcher. A recorder exists where persistence is enabled.
unfoldable pub targets_of : Config → List TargetKind
targets_of c = add_if (not (investigates c) && c.diagnostic_enabled) diagnostic_target (
    add_if (investigates c) (investigation_target c.investigation_mode) (
      add_if (not (c.slack_bot_token == [])) slack_bot_target (
        add_if (posts_to_slack c) slack_target
          (add_if c.persistence_enabled audit_target (log_target ∷ [])))))

pub data Startup : Type 0 where
  watchlist_needs_persistence : Startup
  split_needs_persistence : Startup
  -- events are only recorded
  split : Startup
  combined : List TargetKind → Startup

unfoldable pub start_monitor : Config → Startup
start_monitor c =
    if c.watchlist_enabled && not c.persistence_enabled
    then watchlist_needs_persistence
    else if not c.dispatcher_split
    then combined (targets_of c)
    else if c.persistence_enabled
    then split
    else split_needs_persistence

unfoldable pub phase_after : GoString → RolloutPhase
phase_after dispatch_err = if dispatch_err == [] then dispatched else failed

-- the callback of the dispatcher, at a time `now`
unfoldable pub on_dispatched_record :
    (client : Client)
    → (ℕ → GoString)
    → GoString
    → ℕ
    → RolloutEvent
    → List GoString
    → GoString
    → client.Server
    → client.Server
on_dispatched_record client format_time namespace now event names dispatch_err s =
    update_rollout_status client format_time namespace now event (phase_after dispatch_err) names
      dispatch_err s

-- The event enricher: the watchlist first, then the environments. `none` is a part that is not
-- configured.
unfoldable pub enrich_from_environments :
    Option NamespaceLookup → Option (Map GoString) → RolloutEvent → RolloutEvent
enrich_from_environments l routing event = on_some l event (λ table. record event {
  app = get_app event.cluster_id event.namespace (some table);
  slack_channel = get_slack_channel event.cluster_id event.namespace routing (some table);
})

unfoldable pub enrich_event :
    Option Store → Option NamespaceLookup → Option (Map GoString) → RolloutEvent → RolloutEvent
enrich_event store l routing event =
    on_some (on_some store none (λ s. lookup_entry event.cluster_id event.namespace s))
      (enrich_from_environments l routing event)
      (λ entry. record event { app = entry.app; slack_channel = entry.slack_channel })
