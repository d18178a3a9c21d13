-- ===== src/Watcher/Informer/Cache.antt =====
-- What the template cache of informer.go holds after any calls of its handlers, and so when an
-- update is a rollout.
use k8s_deploy_monitor_opera.Prelude.{
  ℕ, true, ◌&&◌, Option, none, some, List, [], ◌∷◌, GoString, lookup, insert, ◌==◌, join_key,
  on_some, if◌then◌else◌, ◌≡◌, refl, arith, lookup-insert, lookup-remove, eq-join_key, ◌∙◌,
}
use k8s_deploy_monitor_opera.Watcher.Debouncer.{Debouncer, submit}
use k8s_deploy_monitor_opera.Watcher.Informer.{
  Deployment, Object, deployment, ClusterWatcher, Shared, Env, Hooks, deploy_key, full_key,
  as_deployment, unwrap, template_hash, add_deployment, on_add, rollout_event, detect,
  update_deployment, on_update, delete_deployment, on_delete, reset_health_counters,
}

-- A call of a handler, with its time and, where the handler asks them, the namespace filter and the
-- event enricher as they are then.
pub data Call (T : Type 0) : Type 0 where
  added : ℕ → Hooks → Object T → Call T
  updated : ℕ → Hooks → Object T → Object T → Call T
  deleted : ℕ → Object T → Call T

module _ {T : Type 0} (env : Env T) where
  unfoldable pub handle : Call T → ClusterWatcher × Shared → ClusterWatcher × Shared
  handle (added now hooks obj) ws = on_add env now hooks obj ws
  handle (updated now hooks old new) ws = on_update env now hooks old new ws
  handle (deleted now obj) ws = on_delete env now obj ws

  -- a history of calls, the newest first
  unfoldable pub replay : List (Call T) → ClusterWatcher × Shared → ClusterWatcher × Shared
  replay [] ws = ws
  replay (call ∷ older) ws = handle call (replay older ws)

  -- the hash that a list or update of a deployment shows, if the filter then lets it pass
  abbrev pub shown : Hooks → GoString → Option (Deployment T) → Option GoString → Option GoString
  shown hooks key none before = before
  shown hooks key (some d) before =
      if hooks.ns_filter d.namespace && deploy_key d == key
      then some (template_hash env d)
      else before

  abbrev pub gone : GoString → Option (Deployment T) → Option GoString → Option GoString
  gone key none before = before
  gone key (some d) before = if deploy_key d == key then none else before

  -- The template hash last seen of a deployment since it was last deleted, read off the history.
  unfoldable pub last_seen : GoString → Option GoString → List (Call T) → Option GoString
  last_seen key before [] = before
  last_seen key before (added now hooks obj ∷ older) =
      shown hooks key (as_deployment obj) (last_seen key before older)
  last_seen key before (updated now hooks old new ∷ older) =
      shown hooks key (as_deployment new) (last_seen key before older)
  last_seen key before (deleted now obj ∷ older) =
      gone key (as_deployment (unwrap obj)) (last_seen key before older)

  pub cluster_id-handle :
      (call : Call T) (ws : ClusterWatcher × Shared)
      → (handle call ws).0.cluster_id ≡ ws.0.cluster_id
  unfolding handle on_add add_deployment on_update update_deployment on_delete delete_deployment
      reset_health_counters
  cluster_id-handle (added now hooks obj) ws = ground arith
  cluster_id-handle (updated now hooks old new) ws = ground arith
  cluster_id-handle (deleted now obj) ws = ground arith

  pub cluster_id-replay :
      (calls : List (Call T)) (ws : ClusterWatcher × Shared)
      → (replay calls ws).0.cluster_id ≡ ws.0.cluster_id
  unfolding replay
  cluster_id-replay [] ws = refl
  cluster_id-replay (call ∷ older) ws =
      cluster_id-handle call (replay older ws) ∙ cluster_id-replay older ws

  abbrev pub cached : GoString → ClusterWatcher → Option GoString
  cached key w = lookup (join_key w.cluster_id key) w.template_cache

  cached-insert :
      (key : GoString) (w : ClusterWatcher) (d : Deployment T) (hash : GoString)
      → lookup (join_key w.cluster_id key) (insert (full_key w d) hash w.template_cache)
        ≡ (if deploy_key d == key then some hash else cached key w)
  unfolding full_key
  cached-insert key w d hash =
      lookup-insert (full_key w d) (join_key w.cluster_id key) hash w.template_cache
      ∙ rw eq-join_key

  cached-add :
      (key : GoString) (now : ℕ) (hooks : Hooks) (d : Deployment T) (w : ClusterWatcher)
      (s : Shared)
      → cached key (add_deployment env now hooks d (w, s)).0
        ≡ shown hooks key (some d) (cached key w)
  unfolding add_deployment reset_health_counters
  cached-add key now hooks d w s = ground (arith, cached-insert key w d (template_hash env d))

  cached-update :
      (key : GoString) (now : ℕ) (hooks : Hooks) (old : Object T) (d : Deployment T)
      (w : ClusterWatcher) (s : Shared)
      → cached key (update_deployment env now hooks old d (w, s)).0
        ≡ shown hooks key (some d) (cached key w)
  unfolding update_deployment reset_health_counters
  cached-update key now hooks old d w s =
      ground (arith, cached-insert key w d (template_hash env d))

  cached-delete :
      (key : GoString) (d : Deployment T) (w : ClusterWatcher) (s : Shared)
      → cached key (delete_deployment env d (w, s)).0 ≡ gone key (some d) (cached key w)
  unfolding delete_deployment full_key
  cached-delete key d w s =
      lookup-remove (full_key w d) (join_key w.cluster_id key) w.template_cache ∙ rw eq-join_key

  module _ (key : GoString) (now : ℕ) (hooks : Hooks) (w : ClusterWatcher) (s : Shared)
      {before : Option GoString} where
    cached-on_add :
        (o : Option (Deployment T))
        → cached key w ≡ before
        → cached key (on_some o (w, s) (λ d. add_deployment env now hooks d (w, s))).0
          ≡ shown hooks key o before
    cached-on_add none h = h
    cached-on_add (some d) h = cached-add key now hooks d w s ∙ rw h

    cached-on_update :
        (old : Object T) (o : Option (Deployment T))
        → cached key w ≡ before
        → cached key (on_some o (w, s) (λ d. update_deployment env now hooks old d (w, s))).0
          ≡ shown hooks key o before
    cached-on_update old none h = h
    cached-on_update old (some d) h = cached-update key now hooks old d w s ∙ rw h

    cached-on_delete :
        (o : Option (Deployment T))
        → cached key w ≡ before
        → cached key (on_some o (w, s) (λ d. delete_deployment env d (w, s))).0 ≡ gone key o before
    cached-on_delete none h = h
    cached-on_delete (some d) h = cached-delete key d w s ∙ rw h

  cached-handle :
      (key : GoString) (call : Call T) (ws : ClusterWatcher × Shared) (older : List (Call T))
      (before : Option GoString)
      → cached key ws.0 ≡ last_seen key before older
      → cached key (handle call ws).0 ≡ last_seen key before (call ∷ older)
  unfolding handle last_seen on_add on_update on_delete reset_health_counters
  cached-handle key (added now hooks obj) (w, s) older before h =
      cached-on_add key now hooks w s (as_deployment obj) h
  cached-handle key (updated now hooks old new) (w, s) older before h =
      cached-on_update key now hooks w s old (as_deployment new) h
  cached-handle key (deleted now obj) (w, s) older before h =
      cached-on_delete key now (record { ns_filter = λ ns. true; event_enricher = none })
        (reset_health_counters now w) s (as_deployment (unwrap obj)) h

  -- After any history of calls, with the namespace filter changing in any way between them, the
  -- cache holds for each deployment the template hash that was last seen of it by a call whose
  -- filter allowed its namespace, or else what the cache held at the start; a deletion clears it.
  pub cached-replay :
      (key : GoString) (calls : List (Call T)) (ws : ClusterWatcher × Shared)
      → cached key (replay calls ws).0 ≡ last_seen key (cached key ws.0) calls
  unfolding replay last_seen
  cached-replay key [] ws = refl
  cached-replay key (call ∷ older) ws =
      cached-handle key call (replay older ws) older (cached key ws.0) (cached-replay key older ws)

  detect_cases :
      (hooks : Hooks) (now : ℕ) (w : ClusterWatcher) (o : Option GoString) (old : Object T)
      (d : Deployment T) (b : Debouncer)
      → detect env hooks now w o old d b
        ≡ on_some o b (λ h.
          if template_hash env d == h
          then b
          else submit now (full_key w d) (rollout_event env hooks now w h old d) b)
  unfolding detect
  detect_cases hooks now w none old d b = refl
  detect_cases hooks now w (some h) old d b = refl

  -- What an update does after any history of calls, with the namespace filter and the event enricher
  -- changing in any way between them. It changes the debouncer exactly if its namespace passes the filter now, an
  -- earlier call whose filter allowed the namespace (or the start of the cache) shows a hash for
  -- the deployment that no deletion has cleared, and the new hash differs from it; it then submits
  -- the rollout, as the enricher now makes it, under the deployment's key.
  pub update_submits :
      (now : ℕ) (hooks : Hooks) (old : Object T) (d : Deployment T) (calls : List (Call T))
      (ws : ClusterWatcher × Shared)
      → let (w, s) = replay calls ws in
        (on_update env now hooks old (deployment d) (w, s)).1.debouncer ≡ (
          if hooks.ns_filter d.namespace
          then on_some
              (last_seen (deploy_key d) (cached (deploy_key d) ws.0) calls)
              s.debouncer
              (λ h.
                if template_hash env d == h
                then s.debouncer
                else submit now (full_key w d) (rollout_event env hooks now w h old d) s.debouncer)
          else s.debouncer)
  unfolding on_update update_deployment as_deployment full_key
  update_submits now hooks old d calls ws =
      let (w, s) = replay calls ws in
      rw (← cached-replay (deploy_key d) calls ws)
        (ground (arith, detect_cases hooks now w (cached (deploy_key d) w) old d (s.debouncer)))
