-- ===== src/Watcher/Manager/Reconcile/Sound.antt =====
-- The invariant of the manager over one tick of the reconcile loop.
use k8s_deploy_monitor_opera.Prelude.{
  ℕ, true, Option, none, some, List, [], ◌∷◌, GoString, Map, remove, has_key, ltb, ◌==◌, on_some,
  All, All-remove, has_key-remove, eq_iff, if_both, if_cases, on_some_both, if◌then◌else◌, ◌≡◌,
  refl, ap, subst, arith, inl, inr, Bool-cases, Option-cases,
}
use k8s_deploy_monitor_opera.Watcher.Manager.{
  ClusterInfo, RetryEntry, Manager, World, bump, start_watcher,
}
use k8s_deploy_monitor_opera.Watcher.Manager.Invariant.{
  EntryNamed, IsSound, start_watcher-StartResult,
}
use k8s_deploy_monitor_opera.Watcher.Manager.Rescan.{ClusterSnapshot, rescan_directory}
use k8s_deploy_monitor_opera.Watcher.Manager.Rescan.Snapshot.{IsConsistent}
use k8s_deploy_monitor_opera.Watcher.Manager.Rescan.Coverage.{rescan-IsSound}
use k8s_deploy_monitor_opera.Watcher.Manager.Reconcile.{
  Tick, find_cluster, load_cluster_from_dir, check_health, retry_cluster, ensure_cluster,
  ensure_clusters, retry_due, retry_one, retry_all, is_due, ensured, reconcile,
}
use k8s_deploy_monitor_opera.Watcher.Manager.Reconcile.Steps.{
  Keeps, Keeps-refl, Keeps-trans, Keeps-IsSound, set_entry-Keeps, queue_retry-Keeps,
  check_health-Keeps,
}

module _ {C : Type 0} where
  find_cluster-named :
      (id : GoString) (cs : List (ClusterInfo C)) (c : ClusterInfo C)
      → find_cluster id cs ≡ some c
      → c.id ≡ id
  unfolding find_cluster
  find_cluster-named id [] c e = cc
  find_cluster-named id (c' ∷ cs) c e = elim (Bool-cases (c'.id == id)) [
    | inl same ↦
        let p : c' ≡ c = ground arith in
        subst (λ (x : ClusterInfo C). x.id ≡ id) p ((eq_iff c'.id id).0 same)
    | inr other ↦ find_cluster-named id cs c (ground arith)
  ]

  load_cluster-named :
      (t : Tick C) (id : GoString) (m : Manager C) (c : ClusterInfo C)
      → load_cluster_from_dir t id m ≡ some c
      → c.id ≡ id
  unfolding load_cluster_from_dir
  load_cluster-named t id m c e = elim (Bool-cases (m.kubeconfig_dir == [])) [
    | inl unset ↦ cc (e, unset)
    | inr set ↦ elim (Option-cases (t.dir_for id)) [
      | inl unread ↦ cc
      | inr (snap, read) ↦ find_cluster-named id snap.clusters c (ground arith)
    ]
  ]

  retry_cluster-named :
      (t : Tick C) (id : GoString) (entry : RetryEntry C) (m : Manager C)
      → (entry.cluster).id ≡ id
      → (retry_cluster t id entry m).id ≡ id
  unfolding retry_cluster
  retry_cluster-named t id entry m e =
      on_some_both {B = ClusterInfo C} (λ c. c.id ≡ id) (load_cluster_from_dir t id m) _ _ (λ _. e)
        (λ c found. load_cluster-named t id m c found)

  pub start-Keeps :
      (world : World C) (cluster : ClusterInfo C) (m : Manager C)
      → Keeps m (start_watcher world cluster m).0
  start-Keeps world cluster m =
      let r = start_watcher-StartResult world cluster m in
      record {
        names = r.names;
        files = r.same_files;
        covers = λ k c. ground (arith, r.watched k, ap (has_key k) r.same_pending);
      }

  -- a retry that succeeds: the cluster is watched, so its entry may go
  recovered-Keeps :
      (world : World C) (id : GoString) (cluster : ClusterInfo C) (m : Manager C)
      → cluster.id ≡ id
      → (start_watcher world cluster m).1 ≡ none
      → let m' = (start_watcher world cluster m).0 in
        Keeps m (record m' { pending_retry = remove id m'.pending_retry })
  recovered-Keeps world id cluster m named e =
      let m' = (start_watcher world cluster m).0 in
      let r = start_watcher-StartResult world cluster m in
      record {
        names = λ n. record {
          watchers_named = (r.names n).watchers_named;
          entries_named = All-remove EntryNamed id m'.pending_retry (r.names n).entries_named;
        };
        files = r.same_files;
        covers = λ k c. ground (
          arith,
          r.watched k,
          ap (has_key k) r.same_pending,
          has_key-remove id k m'.pending_retry,
          eq_iff id k,
          eq_iff cluster.id k,
          e,
        );
      }

  rescan_dir-IsSound :
      (world : World C) (now : ℕ) (dir : Option (ClusterSnapshot C)) (m : Manager C)
      → ((snap : ClusterSnapshot C)
          → dir ≡ some snap
          → IsConsistent snap
            × ((k : GoString)
                → has_key k m.pending_retry ≡ true
                → has_key k snap.file_hashes ≡ true))
      → IsSound m
      → IsSound (rescan_directory world now dir m)
  rescan_dir-IsSound world now none m ok s = unfold rescan_directory in s
  rescan_dir-IsSound world now (some snap) m ok s =
      (rescan-IsSound world now snap m (ok snap refl).0 s (ok snap refl).1)

  module _ (world : World C) (t : Tick C) where
    ensure_cluster-Keeps : (id : GoString) (m : Manager C) → Keeps m (ensure_cluster world t id m)
    unfolding ensure_cluster
    ensure_cluster-Keeps id m =
        if_both {A = Manager C} (Keeps m) (has_key id m.watchers) _ _ (Keeps-refl m) (
          if_both {A = Manager C} (Keeps m) (has_key id m.pending_retry) _ _ (Keeps-refl m) (
            on_some_both {B = Manager C} (Keeps m) (load_cluster_from_dir t id m) _ _
              (λ _. Keeps-refl m)
              (λ cluster found.
                let m' = (start_watcher world cluster m).0 in
                on_some_both {B = Manager C} (Keeps m) (start_watcher world cluster m).1 _ _
                  (λ _. start-Keeps world cluster m)
                  (λ e _. Keeps-trans m m' _ (start-Keeps world cluster m) (
                    queue_retry-Keeps t.now id e cluster m'
                      (load_cluster-named t id m cluster found))))))

    ensure_clusters-Keeps :
        (ids : List GoString) (m : Manager C) → Keeps m (ensure_clusters world t ids m)
    unfolding ensure_clusters
    ensure_clusters-Keeps [] m = Keeps-refl m
    ensure_clusters-Keeps (id ∷ ids) m =
        Keeps-trans m (ensure_cluster world t id m) _ (ensure_cluster-Keeps id m)
          (ensure_clusters-Keeps ids _)

    retry_due-Keeps :
        (id : GoString) (entry : RetryEntry C) (m : Manager C)
        → EntryNamed (id, entry)
        → Keeps m (retry_due world t id entry m)
    unfolding retry_due bump
    retry_due-Keeps id entry m named =
        let cluster = retry_cluster t id entry m in
        on_some_both {B = Manager C} (Keeps m) cluster.rest_config _ _
          (λ _. set_entry-Keeps id _ m named)
          (λ _ _.
            let m' = (start_watcher world cluster m).0 in
            on_some_both {B = Manager C} (Keeps m) (start_watcher world cluster m).1 _ _
              (λ e. recovered-Keeps world id cluster m (retry_cluster-named t id entry m named) e)
              (λ e _.
                Keeps-trans m m' _ (start-Keeps world cluster m) (set_entry-Keeps id _ m' named)))

    retry_all-Keeps :
        (es : Map (RetryEntry C)) (m : Manager C)
        → All EntryNamed es
        → Keeps m (retry_all world t es m)
    unfolding retry_all retry_one
    retry_all-Keeps [] m n = Keeps-refl m
    retry_all-Keeps ((id, entry) ∷ rest) m n =
        Keeps-trans m (retry_one world t id entry m) _
          (if_both {A = Manager C} (Keeps m) (ltb t.now entry.next_retry) _ _ (Keeps-refl m)
            (retry_due-Keeps id entry m n.0))
          (retry_all-Keeps rest _ n.1)

    -- A tick of the reconcile loop keeps a sound manager sound, whatever watchers are sick and
    -- whatever starts fail: no recorded cluster ends up neither watched nor queued. Where the tick
    -- rescans a readable directory, the snapshot is consistent and no cluster that then waits for
    -- a retry has lost its file.
    pub reconcile-IsSound :
        (desired : Option (List GoString)) (last : Option ℕ) (m : Manager C)
        → ((snap : ClusterSnapshot C)
            → is_due t last m ≡ true
            → t.dir ≡ some snap
            → IsConsistent snap
              × ((k : GoString)
                  → has_key k (ensured world t desired m).pending_retry ≡ true
                  → has_key k snap.file_hashes ≡ true))
        → IsSound m
        → IsSound (reconcile world t desired last m).0
    unfolding reconcile ensured
    reconcile-IsSound desired last m ok s =
        let m₀ : Manager C = on_some desired m (λ ids. ensure_clusters world t ids m) in
        let s₀ : IsSound m₀ =
          on_some_both {B = Manager C} IsSound desired _ _ (λ _. s)
            (λ ids _. Keeps-IsSound m _ (ensure_clusters-Keeps ids m) s) in
        let m₁ : Manager C =
          if is_due t last m then rescan_directory world t.now t.dir m₀ else m₀ in
        let s₁ : IsSound m₁ =
          if_cases {A = Manager C} IsSound (is_due t last m) _ _
            (λ due. rescan_dir-IsSound world t.now t.dir m₀ (λ snap read. ok snap due read) s₀)
            (λ _. s₀) in
        let m₂ : Manager C = check_health t m₁.watchers m₁ in
        let s₂ : IsSound m₂ =
          Keeps-IsSound m₁ m₂ (check_health-Keeps t m₁.watchers m₁ (s₁.named).watchers_named) s₁ in
        Keeps-IsSound m₂ _ (retry_all-Keeps m₂.pending_retry m₂ (s₂.named).entries_named) s₂
