-- ===== src/Persistence/HashStore/Upsert.antt =====
-- The API behind hash_store.go as it is documented, and what `upsertClusterState` does to the specs
-- that it stores.
use k8s_deploy_monitor_opera.Prelude.{
  Bool, true, false, Option, none, some, [], GoString, Map, lookup, ◌==◌, eq_refl, if◌then◌else◌,
  ◌≡◌, refl, arith, lookup-nil, HasUniqueKeys, ◌&&◌, ◌∙◌,
}
use k8s_deploy_monitor_opera.Persistence.Names.{sanitize_name}
use k8s_deploy_monitor_opera.Persistence.HashStore.{
  ClusterRolloutStateSpec, ClusterRolloutState, GetResult, found, not_found, get_failed, Client,
  apply_updates, finish_upsert, upsert_after,
}
use k8s_deploy_monitor_opera.Persistence.HashStore.Buffer.{overlay, lookup-apply_updates}

-- What the API documents of these calls, for an observer `stored` of the stored specs: a read
-- that succeeds is exact, a write that succeeds stores the spec under the object's name and no
-- other, a write that fails and a status update change no spec.
pub record IsFaithful (c : Client) : Type 0 where
  pub stored : GoString → c.Server → Option ClusterRolloutStateSpec
  pub get_found :
      (name : GoString) (s : c.Server) (o : ClusterRolloutState)
      → c.get name s ≡ found o
      → (stored name s ≡ some o.spec) × (o.name ≡ name)
  pub get_not_found :
      (name : GoString) (s : c.Server) → c.get name s ≡ not_found → stored name s ≡ none
  pub create_stores :
      (name : GoString) (o : ClusterRolloutState) (s : c.Server)
      → stored name (c.create o s).0
        ≡ (if (c.create o s).1 && (o.name == name) then some o.spec else stored name s)
  pub update_stores :
      (name : GoString) (o : ClusterRolloutState) (s : c.Server)
      → stored name (c.update o s).0
        ≡ (if (c.update o s).1 && (o.name == name) then some o.spec else stored name s)
  pub status_keeps :
      (name : GoString) (o : ClusterRolloutState) (s : c.Server)
      → stored name (c.update_status o s).0 ≡ stored name s

abbrev pub hash_in : GoString → Option ClusterRolloutStateSpec → Option GoString
hash_in k none = none
hash_in k (some spec) = lookup k spec.template_hashes

module _ (c : Client) (f : IsFaithful c) where
  open c use {Server, get, create, update, update_status}
  open f use {stored, get_found, get_not_found, create_stores, update_stores, status_keeps}

  -- the hash that the server stores for a deployment of a cluster
  abbrev pub stored_at : GoString → GoString → Server → Option GoString
  stored_at cluster k s = hash_in k (stored (sanitize_name cluster) s)

  finish-stored :
      (name : GoString) (o : ClusterRolloutState) (s : Server) (r : Server × Bool)
      → stored name r.0 ≡ (if r.1 && (o.name == name) then some o.spec else stored name s)
      → stored name (finish_upsert c o r).0
        ≡ (if (finish_upsert c o r).1 && (o.name == name) then some o.spec else stored name s)
  unfolding finish_upsert
  finish-stored name o s (s', true) h = status_keeps name _ s' ∙ h
  finish-stored name o s (s', false) h = h

  module _ (cluster : GoString) (updates : Map GoString) where
    pub upsert_after_self :
        (k : GoString) (s : Server) (r : GetResult)
        → HasUniqueKeys updates
        → get (sanitize_name cluster) s ≡ r
        → stored_at cluster k (upsert_after c cluster updates s r).0 ≡ (
            if (upsert_after c cluster updates s r).1
            then overlay (lookup k updates) (stored_at cluster k s)
            else stored_at cluster k s)
    unfolding upsert_after
    upsert_after_self k s not_found u e =
        let state : ClusterRolloutState = record {
          name = sanitize_name cluster;
          spec = record { cluster_id = cluster; template_hashes = apply_updates updates [] };
          tracked_deployments = 0;
        } in
        ground (
          arith,
          finish-stored (sanitize_name cluster) state s (create state s)
              (create_stores (sanitize_name cluster) state s),
          get_not_found (sanitize_name cluster) s e,
          eq_refl (sanitize_name cluster),
          lookup-apply_updates updates [] k,
          lookup-nil {V = GoString} k,
        )
    upsert_after_self k s get_failed u e = refl
    upsert_after_self k s (found old) u e =
        let state : ClusterRolloutState = record old {
          spec = record (old.spec) {
            template_hashes = apply_updates updates (old.spec.template_hashes);
          };
        } in
        ground (
          arith,
          finish-stored (sanitize_name cluster) state s (update state s)
              (update_stores (sanitize_name cluster) state s),
          get_found (sanitize_name cluster) s old e,
          eq_refl (sanitize_name cluster),
          lookup-apply_updates updates (old.spec.template_hashes) k,
        )

    pub upsert_after_other :
        (name : GoString) (s : Server) (r : GetResult)
        → get (sanitize_name cluster) s ≡ r
        → sanitize_name cluster == name ≡ false
        → stored name (upsert_after c cluster updates s r).0 ≡ stored name s
    unfolding upsert_after
    upsert_after_other name s not_found e other =
        let state : ClusterRolloutState = record {
          name = sanitize_name cluster;
          spec = record { cluster_id = cluster; template_hashes = apply_updates updates [] };
          tracked_deployments = 0;
        } in
        ground (arith, finish-stored name state s (create state s) (create_stores name state s))
    upsert_after_other name s get_failed e other = refl
    upsert_after_other name s (found old) e other =
        let state : ClusterRolloutState = record old {
          spec = record (old.spec) {
            template_hashes = apply_updates updates (old.spec.template_hashes);
          };
        } in
        ground (
          arith,
          finish-stored name state s (update state s) (update_stores name state s),
          get_found (sanitize_name cluster) s old e,
        )
