-- ===== src/Watcher/Informer/Gap.antt =====
-- Rollouts that happen while the monitor is down. docs/architecture.md and the comments of
-- `SeedHashes` and `LoadHashes` promise that persisted hashes reveal them; the informer's initial
-- list calls `onAdd`, which overwrites the seeded hash without comparing. Where the filter denies
-- the namespace when the list comes, the seeded hash stays.
use k8s_deploy_monitor_opera.Prelude.{
  ℕ, true, Option, some, List, [], ◌∷◌, GoString, Map, ◌≡◌, arith, eq_refl, ◌∙◌,
}
use k8s_deploy_monitor_opera.Watcher.Informer.{
  Deployment, Object, deployment, ClusterWatcher, Shared, Env, Hooks, deploy_key, as_deployment,
  template_hash, add_deployment, on_add, observe_update, seed_hashes,
}
use k8s_deploy_monitor_opera.Watcher.Informer.Cache.{
  Call, added, updated, handle, replay, last_seen, cached, update_submits,
}

module _ {T : Type 0} (env : Env T) (t₀ : ℕ) (hooks₀ : Hooks) (d : Deployment T) where
  -- the informer's list of the deployment, then updates of it that keep its template, each with the
  -- filter and the enricher of its time
  abbrev pub listed_then : List (ℕ × Hooks × Object T) → List (Call T)
  listed_then [] = added t₀ hooks₀ (deployment d) ∷ []
  listed_then ((now, hooks, old) ∷ older) = updated now hooks old (deployment d) ∷ listed_then older

  last_seen-listed :
      (us : List (ℕ × Hooks × Object T)) (before : Option GoString)
      → hooks₀.ns_filter d.namespace ≡ true
      → last_seen env (deploy_key d) before (listed_then us) ≡ some (template_hash env d)
  unfolding last_seen as_deployment
  last_seen-listed [] before pass = ground (arith, eq_refl (deploy_key d))
  last_seen-listed ((now, hooks, old) ∷ older) before pass =
      ground (arith, eq_refl (deploy_key d), last_seen-listed older before pass)

  added_keeps_debouncer :
      (ws : ClusterWatcher × Shared)
      → (on_add env t₀ hooks₀ (deployment d) ws).1.debouncer ≡ ws.1.debouncer
  unfolding on_add as_deployment add_deployment observe_update
  added_keeps_debouncer ws = ground arith

  listed_keeps_debouncer :
      (us : List (ℕ × Hooks × Object T)) (ws : ClusterWatcher × Shared)
      → hooks₀.ns_filter d.namespace ≡ true
      → (replay env (listed_then us) ws).1.debouncer ≡ ws.1.debouncer
  unfolding replay handle
  listed_keeps_debouncer [] ws pass = added_keeps_debouncer ws
  listed_keeps_debouncer ((now, hooks, old) ∷ older) ws pass =
      update_submits env now hooks old d (listed_then older) ws
      ∙ ground (
        arith,
        last_seen-listed older (cached env (deploy_key d) ws.0) pass,
        eq_refl (template_hash env d),
        listed_keeps_debouncer older ws pass,
      )

  -- Whatever hashes were persisted for a cluster, a deployment that the initial list shows while the
  -- filter allows its namespace is not reported: neither by the list nor by any later updates that
  -- keep its template, under any filters, also where the persisted hash differs from the one that
  -- the list shows.
  pub gap_undetected :
      (hashes : Map GoString) (us : List (ℕ × Hooks × Object T)) (w : ClusterWatcher) (s : Shared)
      → hooks₀.ns_filter d.namespace ≡ true
      → (replay env (listed_then us) (seed_hashes hashes w, s)).1.debouncer ≡ s.debouncer
  gap_undetected hashes us w s pass = listed_keeps_debouncer us (seed_hashes hashes w, s) pass
