-- ===== src/Persistence/HashStore.antt =====
-- internal/persistence/hash_store.go: template hashes buffered in memory and flushed to one
-- ClusterRolloutState object for each cluster (api/v1alpha1/types.go).
pub mod Buffer
pub mod WellFormed
pub mod Upsert
pub mod Flush
use k8s_deploy_monitor_opera.Prelude.{
  ℕ, Bool, true, false, Option, none, some, List, [], ◌∷◌, GoString, Map, lookup, insert, remove,
  has_key, length, ◌==◌, if◌then◌else◌, ◌≡◌,
}
use k8s_deploy_monitor_opera.Persistence.Names.{sanitize_name}

-- ClusterRolloutStateSpec and the object that holds it; the status is a count for display
pub record ClusterRolloutStateSpec : Type 0 where
  pub cluster_id : GoString
  pub template_hashes : Map GoString

pub record ClusterRolloutState : Type 0 where
  pub name : GoString
  pub spec : ClusterRolloutStateSpec
  pub tracked_deployments : ℕ

pub data GetResult : Type 0 where
  found : ClusterRolloutState → GetResult
  not_found : GetResult
  get_failed : GetResult

-- The controller-runtime client and the API server behind it. A write reports success or failure.
pub record Client : Type 1 where
  pub Server : Type 0
  pub get : GoString → Server → GetResult
  pub create : ClusterRolloutState → Server → Server × Bool
  pub update : ClusterRolloutState → Server → Server × Bool
  pub update_status : ClusterRolloutState → Server → Server × Bool

-- clusterID → { namespace/deployment → hash }; the empty hash stands for a deletion
abbrev pub Pending : Type 0
Pending = Map (Map GoString)

-- `s.pendingHashes[clusterID]`: a missing entry reads as an empty map
unfoldable pub pending_for : GoString → Pending → Map GoString
pending_for cluster p = elim (lookup cluster p) [ none ↦ [] | some hashes ↦ hashes ]

unfoldable pub buffer_hash : GoString → GoString → GoString → Pending → Pending
buffer_hash cluster key hash p = insert cluster (insert key hash (pending_for cluster p)) p

unfoldable pub remove_hash : GoString → GoString → Pending → Pending
remove_hash cluster key p = insert cluster (insert key [] (pending_for cluster p)) p

-- `applyUpdates`
unfoldable pub apply_updates : Map GoString → Map GoString → Map GoString
apply_updates [] hashes = hashes
apply_updates ((k, v) ∷ updates) hashes =
    apply_updates updates (if v == [] then remove k hashes else insert k v hashes)

-- the re-queue loop of `flush`: a newer pending value is kept
unfoldable pub requeue : GoString → Map GoString → Pending → Pending
requeue cluster [] p = p
requeue cluster ((k, v) ∷ hashes) p =
    requeue cluster hashes
      (if has_key k (pending_for cluster p) then p else buffer_hash cluster k v p)

-- An update that a watcher buffers: cluster, key, and hash or deletion mark.
abbrev pub Update : Type 0
Update = GoString × GoString × GoString

unfoldable pub buffer_all : List Update → Pending → Pending
buffer_all [] p = p
buffer_all ((cluster, key, hash) ∷ updates) p = buffer_all updates (buffer_hash cluster key hash p)

module _ (c : Client) where
  open c use {Server, get, create, update, update_status}

  -- `LoadHashes`: `some none` is the first run, `none` an error
  unfoldable pub load_hashes : GoString → Server → Option (Option (Map GoString))
  load_hashes cluster s = elim (get (sanitize_name cluster) s) [
    | found state ↦ some (some state.spec.template_hashes)
    | not_found ↦ some none
    | get_failed ↦ none
  ]

  -- the status update that ends `upsertClusterState`; a failure is only logged
  unfoldable pub finish_upsert : ClusterRolloutState → Server × Bool → Server × Bool
  finish_upsert state (s, false) = (s, false)
  finish_upsert state (s, true) = (
    (update_status (record state { tracked_deployments = length state.spec.template_hashes }) s).0,
    true,
  )

  -- the three outcomes of the read that begins `upsertClusterState`; `false` is an error
  unfoldable pub upsert_after : GoString → Map GoString → Server → GetResult → Server × Bool
  upsert_after cluster updates s not_found =
      let state : ClusterRolloutState = record {
        name = sanitize_name cluster;
        spec = record { cluster_id = cluster; template_hashes = apply_updates updates [] };
        tracked_deployments = 0;
      } in
      finish_upsert state (create state s)
  upsert_after cluster updates s get_failed = (s, false)
  upsert_after cluster updates s (found old) =
      let state : ClusterRolloutState = record old {
        spec = record (old.spec) {
          template_hashes = apply_updates updates (old.spec.template_hashes);
        };
      } in
      finish_upsert state (update state s)

  unfoldable pub upsert_cluster_state : GoString → Map GoString → Server → Server × Bool
  upsert_cluster_state cluster updates s =
      upsert_after cluster updates s (get (sanitize_name cluster) s)

  -- The loop of `flush` over the drained map. The lock is not held meanwhile: `arrivals` are the
  -- updates that watchers buffer while a cluster is written.
  unfoldable pub flush_loop :
      (GoString → List Update) → Pending → Pending × Server → Pending × Server
  flush_loop arrivals [] st = st
  flush_loop arrivals ((cluster, hashes) ∷ rest) (p, s) =
      let (s', written) = upsert_cluster_state cluster hashes s in
      let p' : Pending = buffer_all (arrivals cluster) p in
      flush_loop arrivals rest ((if written then p' else requeue cluster hashes p'), s')

  unfoldable pub flush : (GoString → List Update) → Pending × Server → Pending × Server
  flush arrivals (p, s) = flush_loop arrivals p ([], s)
