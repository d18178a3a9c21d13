-- ===== src/Watcher/Informer/Health.antt =====
-- The health of a cluster's watcher, read off the history of its handler calls and watch errors.
use k8s_deploy_monitor_opera.Prelude.{
  ℕ, ◌+◌, Bool, true, false, not, ◌&&◌, ◌||◌, Option, none, some, List, [], ◌∷◌, GoString, ltb,
  if◌then◌else◌, ◌==◌, ◌≡◌, refl, arith, on_some,
}
use k8s_deploy_monitor_opera.Watcher.Informer.{
  Deployment, ErrorKind, transient, WatchError, ClusterWatcher, Shared, Env, Hooks, as_deployment,
  on_add, add_deployment, on_update, update_deployment, on_delete, delete_deployment,
  reset_health_counters, can_store, on_watch_error, health_status, new_cluster_watcher,
}
use k8s_deploy_monitor_opera.Watcher.Informer.Cache.{Call, added, updated, deleted, handle}

pub data Happening (T : Type 0) : Type 0 where
  call : Call T → Happening T
  watch_error : WatchError → Happening T

abbrev is_auth : ErrorKind → Bool
is_auth transient = false
is_auth _ = true

abbrev first_of : List GoString → Option GoString
first_of [] = none
first_of (x ∷ xs) = some x

-- all names in the list are the same
unfoldable pub all_same : List GoString → Bool
all_same [] = true
all_same (x ∷ xs) = on_some (first_of xs) true (λ y. x == y) && all_same xs

module _ {T : Type 0} (env : Env T) where
  unfoldable pub happen : Happening T → ClusterWatcher × Shared → Option (ClusterWatcher × Shared)
  happen (call c) ws = some (handle env c ws)
  happen (watch_error e) (w, s) = on_some (on_watch_error e w) none (λ w'. some (w', s))

  -- The newest happening first; `none` once the error handler has panicked.
  unfoldable pub live :
      List (Happening T) → ClusterWatcher × Shared → Option (ClusterWatcher × Shared)
  live [] ws = some ws
  live (h ∷ older) ws = on_some (live older ws) none (happen h)

  abbrev passes : Hooks → Option (Deployment T) → Bool
  passes hooks none = false
  passes hooks (some d) = hooks.ns_filter d.namespace

  -- A handler call counts as a sign of life: any deletion, and an addition or update of a
  -- deployment whose namespace passes the filter of that time.
  abbrev pub is_sign_of_life : Call T → Bool
  is_sign_of_life (added now hooks obj) = passes hooks (as_deployment obj)
  is_sign_of_life (updated now hooks old new) = passes hooks (as_deployment new)
  is_sign_of_life (deleted now obj) = true

  -- the watch errors since the last sign of life
  unfoldable pub error_streak : List (Happening T) → ℕ
  error_streak [] = 0
  error_streak (call c ∷ older) = if is_sign_of_life c then 0 else error_streak older
  error_streak (watch_error e ∷ older) = error_streak older + 1

  unfoldable pub saw_auth_error : List (Happening T) → Bool
  saw_auth_error [] = false
  saw_auth_error (call c ∷ older) = saw_auth_error older
  saw_auth_error (watch_error e ∷ older) = is_auth e.kind || saw_auth_error older

  -- the concrete Go types of the watch errors
  unfoldable pub error_types : List (Happening T) → List GoString
  error_types [] = []
  error_types (call c ∷ older) = error_types older
  error_types (watch_error e ∷ older) = e.go_type ∷ error_types older

  abbrev type_of : Option WatchError → Option GoString
  type_of none = none
  type_of (some e) = some e.go_type

  -- what the watcher is after a history, and that it is not there after a panic
  abbrev Tracks : List (Happening T) → Option (ClusterWatcher × Shared) → Type 0
  Tracks hs none = all_same (error_types hs) ≡ false
  Tracks hs (some (w, s)) =
      (all_same (error_types hs) ≡ true)
      × (w.consecutive_errors ≡ error_streak hs)
      × (w.permanent ≡ saw_auth_error hs)
      × (type_of w.last_watch_error ≡ first_of (error_types hs))

  handle-errors :
      (c : Call T) (ws : ClusterWatcher × Shared)
      → ((handle env c ws).0.consecutive_errors
          ≡ (if is_sign_of_life c then 0 else ws.0.consecutive_errors))
        × ((handle env c ws).0.permanent ≡ ws.0.permanent)
        × ((handle env c ws).0.last_watch_error ≡ ws.0.last_watch_error)
  unfolding handle on_add add_deployment on_update update_deployment on_delete delete_deployment
      reset_health_counters
  handle-errors (added now hooks obj) ws = ground arith
  handle-errors (updated now hooks old new) ws = ground arith
  handle-errors (deleted now obj) ws = ground arith

  can_store-first :
      (e : WatchError) (stored : Option WatchError)
      → can_store e stored ≡ on_some (type_of stored) true (λ t. e.go_type == t)
  unfolding can_store
  can_store-first e none = refl
  can_store-first e (some e') = refl

  happen-Tracks :
      (h : Happening T) (older : List (Happening T)) (o : Option (ClusterWatcher × Shared))
      → Tracks older o
      → Tracks (h ∷ older) (on_some o none (happen h))
  unfolding happen error_streak saw_auth_error error_types on_watch_error all_same
  happen-Tracks (call c) older none t = t
  happen-Tracks (call c) older (some ws) t = ground (arith, handle-errors c ws)
  happen-Tracks (watch_error e) older none t = ground arith
  happen-Tracks (watch_error e) older (some (w, s)) t =
      ground (arith, can_store-first e w.last_watch_error)

  live-Tracks :
      (hs : List (Happening T)) (id : GoString) (s : Shared)
      → Tracks hs (live hs (new_cluster_watcher id, s))
  unfolding live error_streak saw_auth_error error_types new_cluster_watcher all_same
  live-Tracks [] id s = (refl, refl, refl, refl)
  live-Tracks (h ∷ older) id s =
      happen-Tracks h older (live older (new_cluster_watcher id, s)) (live-Tracks older id s)

  -- what `HealthStatus` answers, without the error itself
  abbrev pub health_after : List (Happening T) → ClusterWatcher × Shared → Option (Bool × Bool)
  health_after hs ws =
      on_some (live hs ws) none
        (λ ws'. let (healthy, permanent, _) = health_status ws'.0 in some (healthy, permanent))

  -- After any history of a new watcher whose watch errors all have one concrete Go type, it reports
  -- itself healthy exactly if fewer than five watch errors came since the last sign of life and no
  -- error was ever a 401 or 403, and it reports a permanent error exactly if one was. After a
  -- history with watch errors of two concrete types the watch error handler has panicked.
  pub health_status-live :
      (hs : List (Happening T)) (id : GoString) (s : Shared)
      → health_after hs (new_cluster_watcher id, s) ≡ (
          if all_same (error_types hs)
          then some (ltb (error_streak hs) 5 && not (saw_auth_error hs), saw_auth_error hs)
          else none)
  unfolding health_status
  health_status-live hs id s = ground (arith, live-Tracks hs id s)
