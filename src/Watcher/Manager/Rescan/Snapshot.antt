-- ===== src/Watcher/Manager/Rescan/Snapshot.antt =====
-- The clusters of a directory snapshot, as the rescan looks them up.
use k8s_deploy_monitor_opera.Prelude.{
  true, ◌||◌, List, [], ◌∷◌, GoString, Map, lookup, insert, has_key, ◌==◌, is_some, any, All,
  All-insert, All-lookup, has_key-insert, ◌≡◌, refl, arith, Option-cases, inl, inr, ap,
}
use k8s_deploy_monitor_opera.Watcher.Manager.{ClusterInfo}
use k8s_deploy_monitor_opera.Watcher.Manager.Rescan.{ClusterSnapshot, index_clusters, cluster_at}

module _ {C : Type 0} where
  -- `LoadDirectorySnapshot` records a hash exactly for the files of which it has a cluster.
  abbrev pub IsConsistent : ClusterSnapshot C → Type 0
  IsConsistent snap =
      All (λ e. any (λ (c : ClusterInfo C). c.id == e.0) snap.clusters ≡ true) snap.file_hashes

  abbrev ClusterNamed : GoString × ClusterInfo C → Type 0
  ClusterNamed (id, c) = c.id ≡ id

  index_clusters-named :
      (cs : List (ClusterInfo C)) (m : Map (ClusterInfo C))
      → All ClusterNamed m
      → All ClusterNamed (index_clusters cs m)
  unfolding index_clusters
  index_clusters-named [] m h = h
  index_clusters-named (c ∷ cs) m h =
      index_clusters-named cs (insert c.id c m) (All-insert ClusterNamed c.id c m refl h)

  has_key-index_clusters :
      (id : GoString) (cs : List (ClusterInfo C)) (m : Map (ClusterInfo C))
      → has_key id (index_clusters cs m)
        ≡ (any (λ (c : ClusterInfo C). c.id == id) cs || has_key id m)
  unfolding index_clusters
  has_key-index_clusters id [] m = refl
  has_key-index_clusters id (c ∷ cs) m =
      ground (arith, has_key-index_clusters id cs (insert c.id c m), has_key-insert c.id id c m)

  named_of_has_key :
      (id : GoString) (m : Map (ClusterInfo C))
      → All ClusterNamed m
      → has_key id m ≡ true
      → (cluster_at id m).id ≡ id
  unfolding has_key cluster_at
  named_of_has_key id m h k = elim (Option-cases (lookup id m)) [
    | inl e ↦ cc (ap is_some e)
    | inr (c, e) ↦ rw e (All-lookup ClusterNamed id c m e h)
  ]

  -- the cluster that the rescan finds for a file carries the file's name
  pub cluster_at-named :
      (id : GoString) (cs : List (ClusterInfo C))
      → any (λ (c : ClusterInfo C). c.id == id) cs ≡ true
      → (cluster_at id (index_clusters cs [])).id ≡ id
  cluster_at-named id cs h =
      named_of_has_key id _ (index_clusters-named cs [] tt)
        (ground (arith, has_key-index_clusters id cs []))
