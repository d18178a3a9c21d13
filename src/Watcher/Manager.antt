-- ===== src/Watcher/Manager.antt =====
-- internal/watcher/manager.go: the watchers of all clusters, their restarts and retries. This file
-- has the state, the start and stop of one watcher, and `Start`; the children have the phases of
-- the reconcile loop. `m.mu` is held for the whole of each phase, so a phase is one function.
pub mod Backoff
pub mod Invariant
pub mod Rescan
pub mod Reconcile
pub mod Startup
mod Examples
use k8s_deploy_monitor_opera.Prelude.{
  ℕ, ◌+◌, ◌*◌, Bool, true, false, not, Option, none, some, List, [], ◌∷◌, GoString, str, Map,
  lookup, insert, remove, has_key, length, ltb, leb, eqb, ◌==◌, ◌++◌, on_some, if◌then◌else◌, zero,
  suc, ◌&&◌, is_some, ◌≡◌, refl,
}
use k8s_deploy_monitor_opera.Watcher.Debouncer
use k8s_deploy_monitor_opera.Watcher.Debouncer.{Debouncer}
use k8s_deploy_monitor_opera.Watcher.Informer.{ClusterWatcher, new_cluster_watcher, seed_hashes}

-- internal/config/kubeconfig.go, `ClusterInfo`; `C` is client-go's `rest.Config`
pub record ClusterInfo (C : Type 0) : Type 0 where
  pub id : GoString
  pub rest_config : Option C

-- durations are in nanoseconds
abbrev pub second : ℕ
second = 1_000_000_000

pub record RetryEntry (C : Type 0) : Type 0 where
  pub cluster : ClusterInfo C
  pub attempt : ℕ
  pub next_retry : ℕ
  pub last_error : GoString

-- The loop of `retryBackoff`, with the rounds left and `d`.
unfoldable pub backoff_loop : ℕ → ℕ → ℕ
backoff_loop zero d = d
backoff_loop (suc rounds) d =
    let rest = backoff_loop rounds (d * 2) in
    if ltb (300 * second) (d * 2) then 300 * second else rest

unfoldable pub retry_backoff : ℕ → ℕ
retry_backoff attempt = backoff_loop attempt (10 * second)

-- A started watcher: `handle` tells its informer goroutines from those of any other start.
pub record Watcher : Type 0 where
  pub handle : ℕ
  pub initial : ClusterWatcher

pub record Manager (C : Type 0) : Type 0 where
  pub kubeconfig_dir : GoString
  pub rescan_interval : ℕ
  pub watchers : Map Watcher
  pub file_hashes : Map GoString
  pub pending_retry : Map (RetryEntry C)
  -- the starts made so far, and the starts whose informers run: not Go fields, but what the
  -- starts and stops do to the process
  pub starts : ℕ
  pub running : List ℕ

-- What a start comes to: the clientset cannot be built, the first list does not arrive within
-- `startTimeout`, or the watcher runs.
pub data StartOutcome : Type 0 where
  started : StartOutcome
  factory_failed : GoString → StartOutcome
  sync_timed_out : StartOutcome

-- What the clusters and the hash store answer: the outcome of the n-th start, and the persisted
-- hashes of a cluster (`none` if persistence is off, fails, or has none).
pub record World (C : Type 0) : Type 0 where
  pub outcome : ℕ → ClusterInfo C → StartOutcome
  pub loaded : GoString → Option (Map GoString)

unfoldable pub erase_handle : ℕ → List ℕ → List ℕ
erase_handle h [] = []
erase_handle h (x ∷ xs) = let rest = erase_handle h xs in if eqb x h then rest else x ∷ rest

module _ {C : Type 0} where
  unfoldable pub new_manager : GoString → ℕ → Manager C
  new_manager dir interval = record {
    kubeconfig_dir = dir;
    rescan_interval = interval;
    watchers = [];
    file_hashes = [];
    pending_retry = [];
    starts = 0;
    running = [];
  }

  -- `w.Stop()`: the context is cancelled and the informers end
  unfoldable pub stop_watcher : Watcher → Manager C → Manager C
  stop_watcher w m = record m { running = erase_handle (w.handle) m.running }

  unfoldable pub new_entry : ℕ → ClusterInfo C → GoString → RetryEntry C
  new_entry now cluster err = record {
    cluster = cluster;
    attempt = 0;
    next_retry = now + retry_backoff 0;
    last_error = err;
  }

  unfoldable pub queue_retry : ℕ → GoString → ClusterInfo C → GoString → Manager C → Manager C
  queue_retry now id cluster err m = record m {
    pending_retry = insert id (new_entry now cluster err) m.pending_retry;
  }

  -- The entry after one more failed attempt.
  unfoldable pub bump : ℕ → GoString → RetryEntry C → RetryEntry C
  bump now err entry = record entry {
    attempt = entry.attempt + 1;
    next_retry = now + retry_backoff (entry.attempt + 1);
    last_error = err;
  }

  -- `factory.Start` of `ClusterWatcher.Start`: the informers of this start run, until `Stop` cancels
  -- its context.
  abbrev pub factory_start : Manager C → Manager C
  factory_start m = record m { starts = m.starts + 1; running = m.starts ∷ m.running }

  -- `startWatcherLocked`. `ClusterWatcher.Start` waits for the first list after `factory.Start`, and
  -- returns an error without a cancel if the wait times out.
  unfoldable pub apply_outcome :
      Map GoString → ClusterInfo C → StartOutcome → Manager C → Manager C × Option GoString
  apply_outcome hashes cluster started m = (
    record (factory_start m) {
      watchers =
          insert cluster.id
            (record {
              handle = m.starts;
              initial = seed_hashes hashes (new_cluster_watcher cluster.id);
            })
            m.watchers;
    },
    none,
  )
  apply_outcome hashes cluster (factory_failed err) m =
      (record m { starts = m.starts + 1 }, some err)
  apply_outcome hashes cluster sync_timed_out m =
      (factory_start m, some (str "cache sync timed out for cluster " ++ cluster.id))

  -- the initial file hashes, if there is a directory that can be read
  unfoldable pub load_file_hashes : Option (Map GoString) → Manager C → Manager C
  load_file_hashes snapshot m =
      if m.kubeconfig_dir == []
      then m
      else on_some snapshot m (λ hashes. record m { file_hashes = hashes })

  module _ (world : World C) where
    unfoldable pub start_watcher : ClusterInfo C → Manager C → Manager C × Option GoString
    start_watcher cluster m =
        apply_outcome (on_some (world.loaded cluster.id) [] (λ hashes. hashes)) cluster
          (world.outcome m.starts cluster) m

    -- the body of the loop of `Start`
    unfoldable pub start_one : ℕ → ClusterInfo C → Manager C → Manager C
    start_one now cluster m =
        let (m', err) = start_watcher cluster m in
        on_some err m' (λ e. queue_retry now cluster.id cluster e m')

    -- The wait of a second after a start that succeeded, unless it was the last, ends in `ctx.Err()`
    -- if the context is then cancelled.
    unfoldable pub is_interrupted : Bool → ClusterInfo C → Manager C → Bool → Bool
    is_interrupted cancelled cluster m is_last =
        cancelled && not (is_some (start_watcher cluster m).1) && not is_last

    -- The loop of `Start`. Each cluster comes with the time at which it is reached and whether the
    -- context is cancelled in the wait after it; `false` is the return of `ctx.Err()`. The lock is
    -- released in the waits: nothing else uses the manager then, as the reconcile loop has not begun.
    unfoldable pub start_all : List (ℕ × Bool × ClusterInfo C) → Manager C → Manager C × Bool
    start_all [] m = (m, true)
    start_all ((now, cancelled, cluster) ∷ clusters) m =
        let m' : Manager C = start_one now cluster m in
        let done : Manager C × Bool = start_all clusters m' in
        if is_interrupted cancelled cluster m (eqb (length clusters) 0) then (m', false) else done

    -- `snapshot` has the file hashes of the directory if it can be read. `false` is an error return.
    unfoldable pub start :
        Option (Map GoString) → List (ℕ × Bool × ClusterInfo C) → Manager C → Manager C × Bool
    start snapshot clusters m =
        let (m₁, completed) = start_all clusters m in
        let m₂ : Manager C = load_file_hashes snapshot m₁ in
        if completed
        then (m₂, not (eqb (length m₂.watchers) 0 && eqb (length m₂.pending_retry) 0))
        else (m₁, false)

  -- the loop of `Stop`
  unfoldable pub stop_all : Map Watcher → Manager C → Manager C
  stop_all [] m = m
  stop_all ((id, w) ∷ rest) m =
      let m' : Manager C = stop_watcher w m in
      stop_all rest (record m' { watchers = remove id m'.watchers })

  -- `Stop`: the debouncer first, then the watchers
  unfoldable pub stop : Debouncer × Manager C → Debouncer × Manager C
  stop (d, m) = (Debouncer.stop d, stop_all m.watchers m)
