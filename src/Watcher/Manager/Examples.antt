-- ===== src/Watcher/Manager/Examples.antt =====
-- Concrete runs of the manager.
use k8s_deploy_monitor_opera.Prelude.{
  ℕ, Bool, ◌≡◌, refl, true, false, eqb, none, some, List, [], ◌∷◌, GoString, str, Map, lookup,
  has_key, ◌==◌, on_some, All, HasUniqueKeys, has_key-cons, has_key-nil, if◌then◌else◌, arith,
  subst,
}
use k8s_deploy_monitor_opera.Watcher.Informer.{forbidden, new_cluster_watcher, on_watch_error}
use k8s_deploy_monitor_opera.Watcher.Manager.{
  ClusterInfo, RetryEntry, Watcher, Manager, started, factory_failed, sync_timed_out, World,
  new_manager, start, new_entry,
}
use k8s_deploy_monitor_opera.Watcher.Manager.Invariant.{covered, IsSound}
use k8s_deploy_monitor_opera.Watcher.Manager.Rescan.{ClusterSnapshot, rescan_directory}
use k8s_deploy_monitor_opera.Watcher.Manager.Rescan.Snapshot.{IsConsistent}
use k8s_deploy_monitor_opera.Watcher.Manager.Rescan.Untouched.{SameSlot}
use k8s_deploy_monitor_opera.Watcher.Manager.Rescan.Removal.{
  rescan-unchanged_file, rescan-removed_file,
}
use k8s_deploy_monitor_opera.Watcher.Manager.Rescan.Returned.{returned_file_ignored}
use k8s_deploy_monitor_opera.Watcher.Manager.Reconcile.{Tick, is_due, ensured, reconcile}
use k8s_deploy_monitor_opera.Watcher.Manager.Reconcile.Sound.{reconcile-IsSound}
use k8s_deploy_monitor_opera.Watcher.Manager.Startup.{start_covers}

-- the first start times out, the second fails, all others succeed
abbrev world : World Unit
world = record {
  outcome = λ n cluster.
      if eqb n 0
      then sync_timed_out
      else if eqb n 1
      then factory_failed (str "bad token")
      else started;
  loaded = λ id. none;
}

abbrev east : ClusterInfo Unit
east = record { id = str "east"; rest_config = some tt }

abbrev west : ClusterInfo Unit
west = record { id = str "west"; rest_config = some tt }

abbrev empty : Manager Unit
empty = new_manager (str "/clusters") 600

start_covers_example :
    let clusters : List (ℕ × Bool × ClusterInfo Unit) = (5, false, east) ∷ (6, false, west) ∷ [] in
    let (m', ok) = start world none clusters empty in
    (ok ≡ true) × All (λ e. covered (e.2).id m' ≡ true) clusters
start_covers_example =
    start_covers world none 5 false east ((6, false, west) ∷ []) empty (refl, (refl, tt))

-- `east` is watched and recorded, no cluster waits
abbrev watching : Manager Unit
watching = record {
  kubeconfig_dir = str "/clusters";
  rescan_interval = 600;
  watchers = (str "east", record { handle = 0; initial = new_cluster_watcher (str "east") }) ∷ [];
  file_hashes = (str "east", str "h1") ∷ [];
  pending_retry = [];
  starts = 1;
  running = 0 ∷ [];
}

watching-IsSound : IsSound watching
unfolding new_cluster_watcher
watching-IsSound = record {
  named = record { watchers_named = (refl, tt); entries_named = tt };
  files_covered = λ k r. ground (
    arith,
    has_key-cons k (str "east") (str "h1") [],
    has_key-nil GoString k,
    has_key-cons {V = Watcher} k (str "east")
        (record { handle = 0; initial = new_cluster_watcher (str "east") }) [],
  );
}

none_waits :
    (k : GoString) (files : Map GoString)
    → has_key k watching.pending_retry ≡ true
    → has_key k files ≡ true
none_waits k files h = cc (h, has_key-nil (RetryEntry Unit) k)

-- the directory shows `west` beside `east`
abbrev both : ClusterSnapshot Unit
both = record {
  clusters = east ∷ west ∷ [];
  file_hashes = (str "east", str "h1") ∷ (str "west", str "h2") ∷ [];
}

-- it shows `west` alone
abbrev west_only : ClusterSnapshot Unit
west_only = record { clusters = west ∷ []; file_hashes = (str "west", str "h2") ∷ [] }

both-IsConsistent : IsConsistent both
unfolding ◌==◌
both-IsConsistent = (refl, (refl, tt))

both_unique : HasUniqueKeys both.file_hashes
unfolding has_key lookup ◌==◌
both_unique = (refl, (refl, tt))

west_only-IsConsistent : IsConsistent west_only
unfolding ◌==◌
west_only-IsConsistent = (refl, tt)

rescan-unchanged_file_example :
    SameSlot (str "east") watching (rescan_directory world 9 (some both) watching)
unfolding lookup ◌==◌
rescan-unchanged_file_example =
    rescan-unchanged_file world 9 both (str "east") watching (str "h1") both-IsConsistent
      both_unique refl refl

rescan-removed_file_example :
    covered (str "east") (rescan_directory world 9 (some west_only) watching) ≡ false
unfolding has_key lookup ◌==◌
rescan-removed_file_example =
    rescan-removed_file world 9 west_only (str "east") watching west_only-IsConsistent refl

-- `east` is recorded and waits for a retry
abbrev retrying : Manager Unit
retrying = record watching {
  watchers = [];
  pending_retry = (str "east", new_entry 5 east (str "bad token")) ∷ [];
}

returned_file_ignored_example :
    covered
      (str "east")
      (rescan_directory world 19 (some both) (rescan_directory world 9 (some west_only) retrying))
    ≡ false
unfolding has_key lookup ◌==◌
returned_file_ignored_example =
    returned_file_ignored world (str "east") (str "h1") retrying 9 19 west_only both
      west_only-IsConsistent both-IsConsistent both_unique refl refl refl refl

-- the watcher of `east` has lost its permission
abbrev tick : Tick Unit
tick = record {
  now = 1_000;
  state_of = λ w.
      on_some
        (on_watch_error (record { kind = forbidden; go_type = str "*errors.StatusError" })
          w.initial)
        w.initial (λ w'. w');
  error_text = λ e. str "forbidden";
  dir_for = λ id. some both;
  dir = some both;
}

tick-allows :
    (snap : ClusterSnapshot Unit)
    → is_due tick (some 10) watching ≡ true
    → tick.dir ≡ some snap
    → IsConsistent snap
      × ((k : GoString)
          → has_key k (ensured world tick none watching).pending_retry ≡ true
          → has_key k snap.file_hashes ≡ true)
unfolding ensured
tick-allows snap due e = (
  subst IsConsistent {x = both} (ground arith) both-IsConsistent,
  λ k h. none_waits k snap.file_hashes h,
)

reconcile-IsSound_example : IsSound (reconcile world tick none (some 10) watching).0
reconcile-IsSound_example =
    reconcile-IsSound world tick none (some 10) watching tick-allows watching-IsSound
