-- ===== src/Watcher/Manager/Invariant.antt =====
-- What the manager keeps true between its phases.
use k8s_deploy_monitor_opera.Prelude.{
  Bool, true, false, ◌||◌, Option, GoString, Map, lookup, has_key, ◌==◌, if◌then◌else◌, ◌≡◌, refl,
  All, All-insert, has_key-insert, lookup-insert, ◌∙◌, is_some,
}
use k8s_deploy_monitor_opera.Watcher.Informer.{new_cluster_watcher, seed_hashes}
use k8s_deploy_monitor_opera.Watcher.Manager.{
  ClusterInfo, RetryEntry, Watcher, Manager, StartOutcome, started, factory_failed, sync_timed_out,
  World, apply_outcome, start_watcher,
}

-- a watcher or an entry stands under its cluster's name
abbrev pub WatcherNamed : GoString × Watcher → Type 0
WatcherNamed (id, w) = (w.initial).cluster_id ≡ id

module _ {C : Type 0} where
  abbrev pub EntryNamed : GoString × RetryEntry C → Type 0
  EntryNamed (id, entry) = (entry.cluster).id ≡ id

  -- a cluster is looked after: it is watched, or waits for a retry
  abbrev pub covered : GoString → Manager C → Bool
  covered k m = has_key k m.watchers || has_key k m.pending_retry

  pub record IsNamed (m : Manager C) : Type 0 where
    pub watchers_named : All WatcherNamed m.watchers
    pub entries_named : All EntryNamed m.pending_retry

  -- Every cluster whose kubeconfig file is recorded is looked after.
  pub record IsSound (m : Manager C) : Type 0 where
    pub named : IsNamed m
    pub files_covered : (k : GoString) → has_key k m.file_hashes ≡ true → covered k m ≡ true

  -- what a start does to the maps
  pub record StartResult (cluster : ClusterInfo C) (m : Manager C) (r : Manager C × Option GoString)
      : Type 0 where
    pub names : IsNamed m → IsNamed r.0
    pub same_files : r.0.file_hashes ≡ m.file_hashes
    pub same_pending : r.0.pending_retry ≡ m.pending_retry
    pub watched :
        (k : GoString)
        → has_key k r.0.watchers ≡ (
            if is_some r.1
            then has_key k m.watchers
            else if cluster.id == k
            then true
            else has_key k m.watchers)
    pub others :
        (k : GoString) → cluster.id == k ≡ false → lookup k r.0.watchers ≡ lookup k m.watchers

  apply_outcome-StartResult :
      (hashes : Map GoString) (cluster : ClusterInfo C) (o : StartOutcome) (m : Manager C)
      → StartResult cluster m (apply_outcome hashes cluster o m)
  unfolding apply_outcome seed_hashes new_cluster_watcher
  apply_outcome-StartResult hashes cluster started m = record {
    names = λ n. record {
      watchers_named = All-insert WatcherNamed cluster.id _ m.watchers refl n.watchers_named;
      entries_named = n.entries_named;
    };
    same_files = refl;
    same_pending = refl;
    watched = λ k. has_key-insert cluster.id k _ m.watchers;
    others = λ k ne. lookup-insert cluster.id k _ m.watchers ∙ rw ne;
  }
  apply_outcome-StartResult hashes cluster (factory_failed err) m = record {
    names = λ n. record { watchers_named = n.watchers_named; entries_named = n.entries_named };
    same_files = refl;
    same_pending = refl;
    watched = λ k. refl;
    others = λ k ne. refl;
  }
  apply_outcome-StartResult hashes cluster sync_timed_out m = record {
    names = λ n. record { watchers_named = n.watchers_named; entries_named = n.entries_named };
    same_files = refl;
    same_pending = refl;
    watched = λ k. refl;
    others = λ k ne. refl;
  }

  pub start_watcher-StartResult :
      (world : World C) (cluster : ClusterInfo C) (m : Manager C)
      → StartResult cluster m (start_watcher world cluster m)
  unfolding start_watcher
  start_watcher-StartResult world cluster m = apply_outcome-StartResult _ cluster _ m
