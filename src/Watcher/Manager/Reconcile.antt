-- ===== src/Watcher/Manager/Reconcile.antt =====
-- The other phases of `reconcile` in manager.go: watchlist clusters, health checks, retries.
pub mod Steps
pub mod Sound
use k8s_deploy_monitor_opera.Prelude.{
  ℕ, ◌-◌, Bool, true, false, not, ◌&&◌, Option, none, some, List, [], ◌∷◌, GoString, str, Map,
  lookup, insert, remove, has_key, ltb, leb, ◌==◌, on_some, if◌then◌else◌,
}
use k8s_deploy_monitor_opera.Watcher.Informer.{ClusterWatcher, WatchError, health_status}
use k8s_deploy_monitor_opera.Watcher.Manager.{
  ClusterInfo, RetryEntry, Watcher, Manager, World, stop_watcher, queue_retry, bump, start_watcher,
}
use k8s_deploy_monitor_opera.Watcher.Manager.Rescan.{ClusterSnapshot, rescan_directory}

-- What one tick meets: the time, the state that each running watcher has reached, the text of an
-- error, and the directory as it is read for a cluster and for the rescan.
pub record Tick (C : Type 0) : Type 0 where
  pub now : ℕ
  pub state_of : Watcher → ClusterWatcher
  pub error_text : Option WatchError → GoString
  pub dir_for : GoString → Option (ClusterSnapshot C)
  pub dir : Option (ClusterSnapshot C)

module _ {C : Type 0} where
  -- the search of a snapshot for a cluster: the first of that name
  unfoldable pub find_cluster : GoString → List (ClusterInfo C) → Option (ClusterInfo C)
  find_cluster id [] = none
  find_cluster id (c ∷ cs) = if c.id == id then some c else find_cluster id cs

  -- `loadClusterFromDir`; every error is `none`
  unfoldable pub load_cluster_from_dir : Tick C → GoString → Manager C → Option (ClusterInfo C)
  load_cluster_from_dir t id m =
      if m.kubeconfig_dir == []
      then none
      else on_some (t.dir_for id) none (λ snap. find_cluster id snap.clusters)

  -- Phase 2, one watcher.
  unfoldable pub check_watcher : Tick C → GoString → Watcher → Manager C → Manager C
  check_watcher t id w m =
      let (healthy, perm, err) = health_status (t.state_of w) in
      let m' : Manager C = stop_watcher w m in
      let m'' : Manager C = record m' { watchers = remove id m'.watchers } in
      if healthy
      then m
      else if has_key id m''.pending_retry
      then m''
      else queue_retry (t.now) id (record { id = (w.initial).cluster_id; rest_config = none })
          (t.error_text err) m''

  unfoldable pub check_health : Tick C → Map Watcher → Manager C → Manager C
  check_health t [] m = m
  check_health t ((id, w) ∷ rest) m = check_health t rest (check_watcher t id w m)

  unfoldable pub set_entry : GoString → RetryEntry C → Manager C → Manager C
  set_entry id entry m = record m { pending_retry = insert id entry m.pending_retry }

  -- the cluster that a retry uses: the directory's, if it has it
  unfoldable pub retry_cluster : Tick C → GoString → RetryEntry C → Manager C → ClusterInfo C
  retry_cluster t id entry m = on_some (load_cluster_from_dir t id m) entry.cluster (λ c. c)

  -- the condition of Phase 1; the directory and the interval never change
  unfoldable pub is_due : Tick C → Option ℕ → Manager C → Bool
  is_due t last_rescan m =
      not (m.kubeconfig_dir == [])
      && ltb 0 m.rescan_interval
      && on_some last_rescan true (λ last. leb m.rescan_interval (t.now - last))

  module _ (world : World C) (t : Tick C) where
    -- `ensureWatchlistClusters`, one desired cluster
    unfoldable pub ensure_cluster : GoString → Manager C → Manager C
    ensure_cluster id m =
        if has_key id m.watchers
        then m
        else if has_key id m.pending_retry
        then m
        else on_some (load_cluster_from_dir t id m) m (λ cluster.
          let (m', err) = start_watcher world cluster m in
          on_some err m' (λ e. queue_retry (t.now) id cluster e m'))

    unfoldable pub ensure_clusters : List GoString → Manager C → Manager C
    ensure_clusters [] m = m
    ensure_clusters (id ∷ ids) m = ensure_clusters ids (ensure_cluster id m)

    -- Phase 3, one entry that is due.
    unfoldable pub retry_due : GoString → RetryEntry C → Manager C → Manager C
    retry_due id entry m =
        let cluster : ClusterInfo C = retry_cluster t id entry m in
        on_some cluster.rest_config
          (set_entry id
            (bump (t.now) (str "no RestConfig available (cluster not found in directory)") entry) m)
          (λ _.
            let (m', err) = start_watcher world cluster m in
            on_some err (record m' { pending_retry = remove id m'.pending_retry })
              (λ e. set_entry id (bump (t.now) e entry) m'))

    unfoldable pub retry_one : GoString → RetryEntry C → Manager C → Manager C
    retry_one id entry m = if ltb (t.now) entry.next_retry then m else retry_due id entry m

    unfoldable pub retry_all : Map (RetryEntry C) → Manager C → Manager C
    retry_all [] m = m
    retry_all ((id, entry) ∷ rest) m = retry_all rest (retry_one id entry m)

    -- Phase 0: the clusters that the watchlist asks for, if it is enabled
    unfoldable pub ensured : Option (List GoString) → Manager C → Manager C
    ensured desired m = on_some desired m (λ ids. ensure_clusters ids m)

    -- `reconcile`: `last_rescan` is the time of the last rescan, `none` before the first. The
    -- result has the new time.
    unfoldable pub reconcile : Option (List GoString) → Option ℕ → Manager C → Manager C × Option ℕ
    reconcile desired last_rescan m =
        let m₀ : Manager C = ensured desired m in
        let due : Bool = is_due t last_rescan m in
        let m₁ : Manager C = if due then rescan_directory world (t.now) (t.dir) m₀ else m₀ in
        let m₂ : Manager C = check_health t m₁.watchers m₁ in
        (retry_all m₂.pending_retry m₂, (if due then some (t.now) else last_rescan))
