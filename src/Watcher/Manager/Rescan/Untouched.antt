-- ===== src/Watcher/Manager/Rescan/Untouched.antt =====
-- The part of the manager that the rescan leaves alone: a cluster whose file is unchanged.
use k8s_deploy_monitor_opera.Prelude.{
  ℕ, true, false, not, ◌&&◌, ◌||◌, ◌⊎◌, has_key-cons, has_key-nil, Option, none, some, List, [],
  ◌∷◌, GoString, Map, lookup, remove, has_key, ◌==◌, any, All, lookup-insert, lookup-remove,
  has_key-insert, has_key-remove, ◌≡◌, refl, sym, ◌∙◌, arith, eq_iff, Bool-cases, if_both,
  on_some_both, subst, ap, inl, inr, if◌then◌else◌,
}
use k8s_deploy_monitor_opera.Watcher.Manager.{
  ClusterInfo, RetryEntry, Watcher, Manager, World, stop_watcher, queue_retry, new_entry,
  start_watcher,
}
use k8s_deploy_monitor_opera.Watcher.Manager.Invariant.{start_watcher-StartResult}
use k8s_deploy_monitor_opera.Watcher.Manager.Rescan.{
  index_clusters, remove_lost, remove_lost_one, cancel_retries, refresh_entry, retire, record_file,
  forget_file, start_new, restart, visit_case, visit_file, visit_files,
}
use k8s_deploy_monitor_opera.Watcher.Manager.Rescan.Snapshot.{cluster_at-named}

module _ {C : Type 0} where
  -- the two managers have the same watcher, pending retry and recorded hash for a cluster
  pub record SameSlot (k : GoString) (m m' : Manager C) : Type 0 where
    pub watcher : lookup k m'.watchers ≡ lookup k m.watchers
    pub retry : has_key k m'.pending_retry ≡ has_key k m.pending_retry
    pub file : lookup k m'.file_hashes ≡ lookup k m.file_hashes

  pub SameSlot-refl : (k : GoString) (m : Manager C) → SameSlot k m m
  SameSlot-refl k m = record { watcher = refl; retry = refl; file = refl }

  pub SameSlot-trans :
      (k : GoString) (a b c : Manager C) → SameSlot k a b → SameSlot k b c → SameSlot k a c
  SameSlot-trans k a b c h g = record {
    watcher = g.watcher ∙ h.watcher;
    retry = g.retry ∙ h.retry;
    file = g.file ∙ h.file;
  }

  module _ (k id : GoString) (ne : id == k ≡ false) where
    refresh_entry-SameSlot :
        (hash : GoString) (cluster : ClusterInfo C) (entry : RetryEntry C) (m : Manager C)
        → SameSlot k m (refresh_entry id hash cluster entry m)
    unfolding refresh_entry
    refresh_entry-SameSlot hash cluster entry m = ground (
      arith,
      has_key-insert id k (record entry { cluster = cluster }) m.pending_retry,
      lookup-insert id k hash m.file_hashes,
    )

    retire-SameSlot : (m : Manager C) → SameSlot k m (retire id m)
    unfolding retire
    retire-SameSlot m =
        ground (arith, lookup-remove id k m.watchers, has_key-remove id k m.pending_retry)

    file-SameSlot :
        (hash : GoString) (m : Manager C)
        → SameSlot k m (record_file id hash m) × SameSlot k m (forget_file id m)
    unfolding record_file forget_file
    file-SameSlot hash m =
        ground (arith, lookup-insert id k hash m.file_hashes, lookup-remove id k m.file_hashes)

    queue_retry-SameSlot :
        (now : ℕ) (cluster : ClusterInfo C) (err : GoString) (m : Manager C)
        → SameSlot k m (queue_retry now id cluster err m)
    unfolding queue_retry
    queue_retry-SameSlot now cluster err m =
        ground (arith, has_key-insert id k (new_entry now cluster err) m.pending_retry)

    module _ (world : World C) (now : ℕ) (hash : GoString) (cluster : ClusterInfo C)
        (named : cluster.id ≡ id) (m : Manager C) where
      start-SameSlot : SameSlot k m (start_watcher world cluster m).0
      start-SameSlot =
          let r = start_watcher-StartResult world cluster m in
          record {
            watcher = r.others k (rw named ne);
            retry = ap (has_key k) r.same_pending;
            file = ap (lookup k) r.same_files;
          }

      start_new-SameSlot : SameSlot k m (start_new world now id hash cluster m)
      unfolding start_new
      start_new-SameSlot =
          let m' = (start_watcher world cluster m).0 in
          on_some_both (SameSlot k m) _ _ _
            (λ _. SameSlot-trans k m m' _ start-SameSlot (file-SameSlot hash m').0)
            (λ e _. SameSlot-trans k m m' _ start-SameSlot (queue_retry-SameSlot now cluster e m'))

      restart-SameSlot : SameSlot k m (restart world now id hash cluster m)
      unfolding restart
      restart-SameSlot =
          let m' = (start_watcher world cluster m).0 in
          on_some_both (SameSlot k m) _ _ _
            (λ _. SameSlot-trans k m m' _ start-SameSlot (file-SameSlot hash m').0)
            (λ e _. SameSlot-trans k m m' _ start-SameSlot (
              SameSlot-trans k m' (forget_file id m') _ (file-SameSlot hash m').1
                (queue_retry-SameSlot now cluster e (forget_file id m'))))

    pub visit_case-SameSlot :
        (world : World C) (now : ℕ) (o : Option GoString) (r : Option (RetryEntry C))
        (hash : GoString) (cluster : ClusterInfo C) (m : Manager C)
        → cluster.id ≡ id
        → SameSlot k m (visit_case world now o r id hash cluster m)
    unfolding visit_case
    visit_case-SameSlot world now none none hash cluster m named =
        start_new-SameSlot world now hash cluster named m
    visit_case-SameSlot world now none (some entry) hash cluster m named =
        refresh_entry-SameSlot hash cluster entry m
    visit_case-SameSlot world now (some old) r hash cluster m named =
        if_both (SameSlot k m) (hash == old) _ _ (SameSlot-refl k m) (
          SameSlot-trans k m (retire id m) _ (retire-SameSlot m)
            (restart-SameSlot world now hash cluster named (retire id m)))

  -- a file whose recorded hash is the new one
  visit_case-unchanged :
      (world : World C) (now : ℕ) (id hash : GoString) (o : Option GoString)
      (r : Option (RetryEntry C)) (cluster : ClusterInfo C) (m : Manager C)
      → o ≡ some hash
      → visit_case world now o r id hash cluster m ≡ m
  unfolding visit_case
  visit_case-unchanged world now id hash none r cluster m e = cc
  visit_case-unchanged world now id hash (some old) r cluster m e = ground (arith, eq_iff hash old)

  module _ (world : World C) (now : ℕ) (k h : GoString) (cs : List (ClusterInfo C)) where
    visit_file-SameSlot :
        (id hash : GoString) (m : Manager C)
        → any (λ (c : ClusterInfo C). c.id == id) cs ≡ true
        → (id == k ≡ true → hash ≡ h)
        → lookup k m.file_hashes ≡ some h
        → SameSlot k m (visit_file world now (index_clusters cs []) id hash m)
    unfolding visit_file
    visit_file-SameSlot id hash m known same recorded = elim (Bool-cases (id == k)) [
      | inl is_k ↦
          subst (SameSlot k m)
            (sym (
              visit_case-unchanged world now id hash _ _ _ m (
                ap (λ i. lookup i m.file_hashes) ((eq_iff id k).0 is_k)
                ∙ recorded
                ∙ ap some (sym (same is_k)))))
            (SameSlot-refl k m)
      | inr other ↦
          visit_case-SameSlot k id other world now _ _ hash _ m (cluster_at-named id cs known)
    ]

    pub visit_files-SameSlot :
        (files : Map GoString) (m : Manager C)
        → All (λ e. any (λ (c : ClusterInfo C). c.id == e.0) cs ≡ true) files
        → All (λ e. e.0 == k ≡ true → e.1 ≡ h) files
        → lookup k m.file_hashes ≡ some h
        → SameSlot k m (visit_files world now (index_clusters cs []) files m)
    unfolding visit_files
    visit_files-SameSlot [] m known same recorded = SameSlot-refl k m
    visit_files-SameSlot ((id, hash) ∷ rest) m known same recorded =
        let m' = visit_file world now (index_clusters cs []) id hash m in
        let step = visit_file-SameSlot id hash m known.0 same.0 recorded in
        SameSlot-trans k m m' _ step
          (visit_files-SameSlot rest m' known.1 same.1 (step.file ∙ recorded))

    -- the files of other clusters
    pub visit_files-other :
        (files : Map GoString) (m : Manager C)
        → All (λ e. any (λ (c : ClusterInfo C). c.id == e.0) cs ≡ true) files
        → has_key k files ≡ false
        → SameSlot k m (visit_files world now (index_clusters cs []) files m)
    unfolding visit_files visit_file has_key lookup
    visit_files-other [] m known absent = SameSlot-refl k m
    visit_files-other ((id, hash) ∷ rest) m known absent =
        let m' = visit_file world now (index_clusters cs []) id hash m in
        SameSlot-trans k m m' _
          (visit_case-SameSlot k id (ground arith) world now _ _ hash _ m
            (cluster_at-named id cs known.0))
          (visit_files-other rest m' known.1 (ground arith))

  module _ (k : GoString) (files : Map GoString) where
    remove_lost_one-SameSlot :
        (id : GoString) (w : Watcher) (rest : Map Watcher) (m : Manager C)
        → (has_key k files ≡ true) ⊎ (has_key k ((id, w) ∷ rest) ≡ false)
        → SameSlot k m (remove_lost_one files id w m)
    unfolding remove_lost_one stop_watcher
    remove_lost_one-SameSlot id w rest m h = ground (
      arith,
      has_key-cons k id w rest,
      lookup-remove id k m.watchers,
      has_key-remove id k m.pending_retry,
      lookup-remove id k m.file_hashes,
      eq_iff id k,
    )

    -- a cluster that is in the directory, or has no watcher
    pub remove_lost-SameSlot :
        (ws : Map Watcher) (m : Manager C)
        → (has_key k files ≡ true) ⊎ (has_key k ws ≡ false)
        → SameSlot k m (remove_lost files ws m)
    unfolding remove_lost
    remove_lost-SameSlot [] m h = SameSlot-refl k m
    remove_lost-SameSlot ((id, w) ∷ rest) m h =
        let m' = remove_lost_one files id w m in
        SameSlot-trans k m m' _ (remove_lost_one-SameSlot id w rest m h)
          (remove_lost-SameSlot rest m' (ground (arith, has_key-cons k id w rest)))

    pub cancel_retries-pending :
        (es : Map (RetryEntry C)) (m : Manager C)
        → has_key k (cancel_retries files es m).pending_retry
          ≡ (has_key k m.pending_retry && (has_key k files || not (has_key k es)))
    unfolding cancel_retries
    cancel_retries-pending [] m = ground (arith, has_key-nil (RetryEntry C) k)
    cancel_retries-pending ((id, entry) ∷ rest) m = ground (
      arith,
      has_key-cons k id entry rest,
      has_key-remove id k m.pending_retry,
      eq_iff id k,
      cancel_retries-pending rest
          (if has_key id files then m else record m { pending_retry = remove id m.pending_retry }),
    )

    pub cancel_retries-others :
        (es : Map (RetryEntry C)) (m : Manager C)
        → ((cancel_retries files es m).watchers ≡ m.watchers)
          × ((cancel_retries files es m).file_hashes ≡ m.file_hashes)
    unfolding cancel_retries
    cancel_retries-others [] m = (refl, refl)
    cancel_retries-others ((id, entry) ∷ rest) m = ground (
      arith,
      cancel_retries-others rest
          (if has_key id files then m else record m { pending_retry = remove id m.pending_retry }),
    )

    pub remove_lost-watchers :
        (ws : Map Watcher) (m : Manager C)
        → has_key k (remove_lost files ws m).watchers
          ≡ (has_key k m.watchers && (has_key k files || not (has_key k ws)))
    unfolding remove_lost remove_lost_one stop_watcher
    remove_lost-watchers [] m = ground (arith, has_key-nil (Watcher) k)
    remove_lost-watchers ((id, w) ∷ rest) m = ground (
      arith,
      has_key-cons k id w rest,
      has_key-remove id k m.watchers,
      eq_iff id k,
      remove_lost-watchers rest (remove_lost_one files id w m),
    )
