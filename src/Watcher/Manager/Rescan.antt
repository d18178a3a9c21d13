-- ===== src/Watcher/Manager/Rescan.antt =====
-- `rescanDirectory` of manager.go: watchers follow the kubeconfig directory.
pub mod Snapshot
pub mod Untouched
pub mod Sound
pub mod Removal
pub mod Coverage
pub mod Returned
use k8s_deploy_monitor_opera.Prelude.{
  ℕ, Bool, true, false, Option, none, some, List, [], ◌∷◌, GoString, Map, lookup, insert, remove,
  has_key, ◌==◌, on_some, if◌then◌else◌,
}
use k8s_deploy_monitor_opera.Watcher.Manager.{
  ClusterInfo, RetryEntry, Watcher, Manager, World, stop_watcher, queue_retry, start_watcher,
}

-- internal/config/kubeconfig.go, `ClusterSnapshot`
pub record ClusterSnapshot (C : Type 0) : Type 0 where
  pub clusters : List (ClusterInfo C)
  pub file_hashes : Map GoString

module _ {C : Type 0} where
  -- the loop that fills `newClusters`
  unfoldable pub index_clusters : List (ClusterInfo C) → Map (ClusterInfo C) → Map (ClusterInfo C)
  index_clusters [] m = m
  index_clusters (c ∷ cs) m = index_clusters cs (insert c.id c m)

  -- `newClusters[id]`: the zero value where it is missing
  unfoldable pub cluster_at : GoString → Map (ClusterInfo C) → ClusterInfo C
  cluster_at id m = on_some (lookup id m) (record { id = []; rest_config = none }) (λ c. c)

  -- the loop over `m.watchers`: clusters that the directory has lost
  unfoldable pub remove_lost_one : Map GoString → GoString → Watcher → Manager C → Manager C
  remove_lost_one files id w m =
      let m' : Manager C = stop_watcher w m in
      if has_key id files then m else record m' {
        watchers = remove id m'.watchers;
        file_hashes = remove id m'.file_hashes;
        pending_retry = remove id m'.pending_retry;
      }

  unfoldable pub remove_lost : Map GoString → Map Watcher → Manager C → Manager C
  remove_lost files [] m = m
  remove_lost files ((id, w) ∷ rest) m = remove_lost files rest (remove_lost_one files id w m)

  -- the loop over `m.pendingRetry`
  unfoldable pub cancel_retries : Map GoString → Map (RetryEntry C) → Manager C → Manager C
  cancel_retries files [] m = m
  cancel_retries files ((id, entry) ∷ rest) m =
      cancel_retries files rest
        (if has_key id files then m else record m { pending_retry = remove id m.pending_retry })

  -- a file that the manager has not recorded, of a cluster that is already to be retried
  unfoldable pub refresh_entry :
      GoString → GoString → ClusterInfo C → RetryEntry C → Manager C → Manager C
  refresh_entry id hash cluster entry m = record m {
    pending_retry = insert id (record entry { cluster = cluster }) m.pending_retry;
    file_hashes = insert id hash m.file_hashes;
  }

  -- the watcher of a changed file is stopped, and its retry forgotten
  unfoldable pub retire : GoString → Manager C → Manager C
  retire id m =
      let m' : Manager C =
        on_some (lookup id m.watchers) m (λ w. record m {
          running = (stop_watcher w m).running;
          watchers = remove id m.watchers;
        }) in
      record m' { pending_retry = remove id m'.pending_retry }

  -- `m.fileHashes[id] = hash` and `delete(m.fileHashes, id)`
  unfoldable pub record_file : GoString → GoString → Manager C → Manager C
  record_file id hash m = record m { file_hashes = insert id hash m.file_hashes }

  unfoldable pub forget_file : GoString → Manager C → Manager C
  forget_file id m = record m { file_hashes = remove id m.file_hashes }

  module _ (world : World C) (now : ℕ) where
    -- `startWatcherLocked` for a file that was not recorded
    unfoldable pub start_new : GoString → GoString → ClusterInfo C → Manager C → Manager C
    start_new id hash cluster m =
        let (m', err) = start_watcher world cluster m in
        on_some err (record_file id hash m') (λ e. queue_retry now id cluster e m')

    -- and for a changed file: a failure also forgets the recorded hash
    unfoldable pub restart : GoString → GoString → ClusterInfo C → Manager C → Manager C
    restart id hash cluster m =
        let (m', err) = start_watcher world cluster m in
        on_some err (record_file id hash m') (λ e. queue_retry now id cluster e (forget_file id m'))

    -- The body of the loop over `snap.FileHashes`, by what the manager has recorded of the file and
    -- by the pending retry of the cluster.
    unfoldable pub visit_case :
        Option GoString
        → Option (RetryEntry C)
        → GoString
        → GoString
        → ClusterInfo C
        → Manager C
        → Manager C
    visit_case none none id hash cluster m = start_new id hash cluster m
    visit_case none (some entry) id hash cluster m = refresh_entry id hash cluster entry m
    visit_case (some old) o id hash cluster m =
        if hash == old then m else restart id hash cluster (retire id m)

    unfoldable pub visit_file : Map (ClusterInfo C) → GoString → GoString → Manager C → Manager C
    visit_file new_clusters id hash m =
        visit_case (lookup id m.file_hashes) (lookup id m.pending_retry) id hash
          (cluster_at id new_clusters) m

    unfoldable pub visit_files : Map (ClusterInfo C) → Map GoString → Manager C → Manager C
    visit_files new_clusters [] m = m
    visit_files new_clusters ((id, hash) ∷ rest) m =
        visit_files new_clusters rest (visit_file new_clusters id hash m)

    -- `none` is a directory that cannot be read
    unfoldable pub rescan_directory : Option (ClusterSnapshot C) → Manager C → Manager C
    rescan_directory none m = m
    rescan_directory (some snap) m =
        let m₁ : Manager C = remove_lost snap.file_hashes m.watchers m in
        let m₂ : Manager C = cancel_retries snap.file_hashes m₁.pending_retry m₁ in
        visit_files (index_clusters snap.clusters []) snap.file_hashes m₂
