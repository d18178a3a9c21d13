-- ===== src/Watcher/Informer.antt =====
-- internal/watcher/informer.go: the watcher of one cluster. The informer calls its handlers one
-- at a time; they share the debouncer and the hash store with the other watchers.
pub mod Cache
pub mod Gap
pub mod Health
use k8s_deploy_monitor_opera.Prelude.{
  ℕ, ◌+◌, Bool, true, false, not, ◌&&◌, ◌||◌, Option, none, some, List, [], ◌∷◌, GoString, Map,
  lookup, insert, remove, ltb, eqb, ◌==◌, join_key, on_some, if◌then◌else◌, ◌≡◌, ◌≢◌,
}
use k8s_deploy_monitor_opera.Event.{RolloutEvent}
use k8s_deploy_monitor_opera.Watcher.Debouncer.{Debouncer, submit}
use k8s_deploy_monitor_opera.Persistence.HashStore.{Pending, buffer_hash, remove_hash}

-- The fields of `appsv1.Deployment` that the watcher reads. The pod template is opaque.
pub record Deployment (T : Type 0) : Type 0 where
  pub namespace : GoString
  pub name : GoString
  pub template : T

-- What a handler is given: a deployment, the tombstone of one, or some other object.
pub data Object (T : Type 0) : Type 0 where
  deployment : Deployment T → Object T
  tombstone : Object T → Object T
  other : Object T

-- what `apierrors` says of an error
pub data ErrorKind : Type 0 where
  unauthorized forbidden transient : ErrorKind

-- A watch error, with the name of its concrete Go type.
pub record WatchError : Type 0 where
  pub kind : ErrorKind
  pub go_type : GoString

pub record ClusterWatcher : Type 0 where
  pub cluster_id : GoString
  pub template_cache : Map GoString
  pub consecutive_errors : ℕ
  pub last_success_time : Option ℕ
  pub last_watch_error : Option WatchError
  pub permanent : Bool

-- the debouncer, and the hash store's buffer if persistence is enabled
pub record Shared : Type 0 where
  pub debouncer : Debouncer
  pub store : Option Pending

-- The namespace filter and the event enricher read what changes at run time (the configuration, the
-- watchlist): each handler is given both as they are at its call.
pub record Hooks : Type 0 where
  pub ns_filter : GoString → Bool
  pub event_enricher : Option (RolloutEvent → RolloutEvent)

-- `marshal` stands for the JSON of the pod template and its SHA-256 in hex, `images` for the image
-- references of its containers.
pub record Env (T : Type 0) : Type 0 where
  pub marshal : T → GoString
  pub images : T → List GoString

unfoldable pub new_cluster_watcher : GoString → ClusterWatcher
new_cluster_watcher cluster_id = record {
  cluster_id = cluster_id;
  template_cache = [];
  consecutive_errors = 0;
  last_success_time = none;
  last_watch_error = none;
  permanent = false;
}

-- the loop of `SeedHashes`
unfoldable pub seed_from : GoString → Map GoString → Map GoString → Map GoString
seed_from cluster_id [] cache = cache
seed_from cluster_id ((deploy_key, hash) ∷ hashes) cache =
    seed_from cluster_id hashes (insert (join_key cluster_id deploy_key) hash cache)

unfoldable pub seed_hashes : Map GoString → ClusterWatcher → ClusterWatcher
seed_hashes hashes w = record w { template_cache = seed_from w.cluster_id hashes w.template_cache }

-- `atomic.Value.Store` panics if the value holds one of another concrete type.
unfoldable pub can_store : WatchError → Option WatchError → Bool
can_store err stored = on_some stored true (λ e. err.go_type == e.go_type)

-- The watch error handler that `Start` installs; `none` for its panic.
unfoldable pub on_watch_error : WatchError → ClusterWatcher → Option ClusterWatcher
on_watch_error err w =
    let w' : ClusterWatcher = record w {
      consecutive_errors = w.consecutive_errors + 1;
      last_watch_error = some err;
    } in
    if can_store err w.last_watch_error
    then some (elim err.kind [ transient ↦ w' | _ ↦ record w' { permanent = true } ])
    else none

-- `HealthStatus`: healthy, permanent, last error
unfoldable pub health_status : ClusterWatcher → Bool × Bool × Option WatchError
health_status w = (ltb w.consecutive_errors 5 && not w.permanent, w.permanent, w.last_watch_error)

unfoldable pub reset_health_counters : ℕ → ClusterWatcher → ClusterWatcher
reset_health_counters now w = record w { consecutive_errors = 0; last_success_time = some now }

-- `OnHashUpdate` and `OnHashDelete` of the adapter, skipped where there is no observer
unfoldable pub observe_update : GoString → GoString → GoString → Shared → Shared
observe_update cluster key hash s = elim s.store [
  | none ↦ s
  | some p ↦ record s { store = some (buffer_hash cluster key hash p) }
]

unfoldable pub observe_delete : GoString → GoString → Shared → Shared
observe_delete cluster key s = elim s.store [
  | none ↦ s
  | some p ↦ record s { store = some (remove_hash cluster key p) }
]

module _ {T : Type 0} where
  unfoldable pub deploy_key : Deployment T → GoString
  deploy_key d = join_key d.namespace d.name

  unfoldable pub full_key : ClusterWatcher → Deployment T → GoString
  unfolding deploy_key
  full_key w d = join_key w.cluster_id (deploy_key d)

  -- the type assertion `obj.(*appsv1.Deployment)`
  unfoldable pub as_deployment : Object T → Option (Deployment T)
  as_deployment (deployment d) = some d
  as_deployment _ = none

  -- `onDelete` unwraps one tombstone
  unfoldable pub unwrap : Object T → Object T
  unwrap (tombstone o) = o
  unwrap o = o

  module _ (env : Env T) where
    unfoldable pub template_hash : Deployment T → GoString
    template_hash d = env.marshal d.template

    unfoldable pub extract_images : Option (Deployment T) → List GoString
    extract_images none = []
    extract_images (some d) = env.images d.template

    unfoldable pub add_deployment :
        ℕ → Hooks → Deployment T → ClusterWatcher × Shared → ClusterWatcher × Shared
    add_deployment now hooks d (w, s) =
        let w' : ClusterWatcher = reset_health_counters now w in
        if hooks.ns_filter d.namespace
        then (
          record w' { template_cache = insert (full_key w d) (template_hash d) w.template_cache },
          observe_update w.cluster_id (deploy_key d) (template_hash d) s,
        )
        else (w, s)

    unfoldable pub on_add : ℕ → Hooks → Object T → ClusterWatcher × Shared → ClusterWatcher × Shared
    on_add now hooks obj ws = on_some (as_deployment obj) ws (λ d. add_deployment now hooks d ws)

    unfoldable pub enrich : Hooks → RolloutEvent → RolloutEvent
    enrich hooks e = on_some hooks.event_enricher e (λ f. f e)

    unfoldable pub rollout_event :
        Hooks → ℕ → ClusterWatcher → GoString → Object T → Deployment T → RolloutEvent
    rollout_event hooks now w old_hash old_obj d = enrich hooks (record {
      cluster_id = w.cluster_id;
      namespace = d.namespace;
      deployment_name = d.name;
      old_template_hash = old_hash;
      new_template_hash = template_hash d;
      old_images = extract_images (as_deployment old_obj);
      new_images = extract_images (some d);
      app = [];
      slack_channel = [];
      timestamp = now;
    })

    -- the end of `onUpdate`: what the cache held decides whether this is a rollout
    unfoldable pub detect :
        Hooks
        → ℕ
        → ClusterWatcher
        → Option GoString
        → Object T
        → Deployment T
        → Debouncer
        → Debouncer
    detect hooks now w none old_obj d b = b
    detect hooks now w (some old_hash) old_obj d b =
        if template_hash d == old_hash
        then b
        else submit now (full_key w d) (rollout_event hooks now w old_hash old_obj d) b

    unfoldable pub update_deployment :
        ℕ → Hooks → Object T → Deployment T → ClusterWatcher × Shared → ClusterWatcher × Shared
    update_deployment now hooks old_obj d (w, s) =
        if hooks.ns_filter d.namespace
        then (
          record (reset_health_counters now w) {
            template_cache = insert (full_key w d) (template_hash d) w.template_cache;
          },
          record (observe_update w.cluster_id (deploy_key d) (template_hash d) s) {
            debouncer =
                detect hooks now w (lookup (full_key w d) w.template_cache) old_obj d s.debouncer;
          },
        )
        else (w, s)

    unfoldable pub on_update :
        ℕ → Hooks → Object T → Object T → ClusterWatcher × Shared → ClusterWatcher × Shared
    on_update now hooks old_obj new_obj ws =
        on_some (as_deployment new_obj) ws (λ d. update_deployment now hooks old_obj d ws)

    unfoldable pub delete_deployment :
        Deployment T → ClusterWatcher × Shared → ClusterWatcher × Shared
    delete_deployment d (w, s) = (
      record w { template_cache = remove (full_key w d) w.template_cache },
      observe_delete w.cluster_id (deploy_key d) s,
    )

    -- The health counters are reset before the object is looked at.
    unfoldable pub on_delete : ℕ → Object T → ClusterWatcher × Shared → ClusterWatcher × Shared
    on_delete now obj (w, s) =
        let ws : ClusterWatcher × Shared = (reset_health_counters now w, s) in
        on_some (as_deployment (unwrap obj)) ws (λ d. delete_deployment d ws)
