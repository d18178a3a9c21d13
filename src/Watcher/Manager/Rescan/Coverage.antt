-- ===== src/Watcher/Manager/Rescan/Coverage.antt =====
-- `rescanDirectory` as a whole, against the invariant of the manager.
use k8s_deploy_monitor_opera.Prelude.{
  ℕ, true, false, not, ◌&&◌, ◌||◌, some, List, [], ◌∷◌, GoString, Map, has_key, ◌==◌, any, All,
  All-remove, has_key-remove, has_key-cons, has_key-nil, has_key_same_lookup, eq_iff, if_both, ◌≡◌,
  sym, ◌∙◌, ap, subst, arith, inl, inr, Bool-cases,
}
use k8s_deploy_monitor_opera.Watcher.Manager.{
  ClusterInfo, RetryEntry, Watcher, Manager, World, stop_watcher,
}
use k8s_deploy_monitor_opera.Watcher.Manager.Invariant.{
  covered, WatcherNamed, EntryNamed, IsNamed, IsSound,
}
use k8s_deploy_monitor_opera.Watcher.Manager.Rescan.{
  ClusterSnapshot, index_clusters, remove_lost, remove_lost_one, cancel_retries, visit_file,
  visit_files, rescan_directory,
}
use k8s_deploy_monitor_opera.Watcher.Manager.Rescan.Snapshot.{IsConsistent}
use k8s_deploy_monitor_opera.Watcher.Manager.Rescan.Untouched.{cancel_retries-others}
use k8s_deploy_monitor_opera.Watcher.Manager.Rescan.Removal.{pruned, pruned-SameSlot}
use k8s_deploy_monitor_opera.Watcher.Manager.Rescan.Sound.{
  covered_same, visit_file-covered, visit_file-keeps, visit_file-IsSound,
}

module _ {C : Type 0} where
  module _ (files : Map GoString) where
    remove_lost-IsNamed :
        (ws : Map Watcher) (m : Manager C) → IsNamed m → IsNamed (remove_lost files ws m)
    unfolding remove_lost remove_lost_one stop_watcher
    remove_lost-IsNamed [] m n = n
    remove_lost-IsNamed ((id, w) ∷ rest) m n = remove_lost-IsNamed rest _ (
        if_both IsNamed (has_key id files) _ _ n (record {
          watchers_named = All-remove WatcherNamed id m.watchers n.watchers_named;
          entries_named = All-remove EntryNamed id m.pending_retry n.entries_named;
        }))

    cancel_retries-IsNamed :
        (es : Map (RetryEntry C)) (m : Manager C) → IsNamed m → IsNamed (cancel_retries files es m)
    unfolding cancel_retries
    cancel_retries-IsNamed [] m n = n
    cancel_retries-IsNamed ((id, e) ∷ rest) m n = cancel_retries-IsNamed rest _ (
        if_both IsNamed (has_key id files) _ _ n (record {
          watchers_named = n.watchers_named;
          entries_named = All-remove EntryNamed id m.pending_retry n.entries_named;
        }))

    -- a recorded file survives the removal of lost watchers exactly if it is not of one of them
    remove_lost-files :
        (k : GoString) (ws : Map Watcher) (m : Manager C)
        → has_key k (remove_lost files ws m).file_hashes
          ≡ (has_key k m.file_hashes && (has_key k files || not (has_key k ws)))
    unfolding remove_lost remove_lost_one stop_watcher
    remove_lost-files k [] m = ground (arith, has_key-nil Watcher k)
    remove_lost-files k ((id, w) ∷ rest) m = ground (
      arith,
      has_key-cons k id w rest,
      has_key-remove id k m.file_hashes,
      eq_iff id k,
      remove_lost-files k rest (remove_lost_one files id w m),
    )

  module _ (world : World C) (now : ℕ) (cs : List (ClusterInfo C)) where
    visit_files-IsSound :
        (files : Map GoString) (m : Manager C)
        → All (λ e. any (λ (c : ClusterInfo C). c.id == e.0) cs ≡ true) files
        → IsSound m
        → IsSound (visit_files world now (index_clusters cs []) files m)
    unfolding visit_files
    visit_files-IsSound [] m known h = h
    visit_files-IsSound ((id, hash) ∷ rest) m known h =
        visit_files-IsSound rest _ known.1 (visit_file-IsSound world now cs id hash m known.0 h)

    visit_files-keeps :
        (k : GoString) (files : Map GoString) (m : Manager C)
        → All (λ e. any (λ (c : ClusterInfo C). c.id == e.0) cs ≡ true) files
        → IsSound m
        → covered k m ≡ true
        → covered k (visit_files world now (index_clusters cs []) files m) ≡ true
    unfolding visit_files
    visit_files-keeps k [] m known h c = c
    visit_files-keeps k ((id, hash) ∷ rest) m known h c =
        visit_files-keeps k rest _ known.1 (visit_file-IsSound world now cs id hash m known.0 h)
          (visit_file-keeps world now cs id hash m known.0 h k c)

    visit_files-covers :
        (k : GoString) (files : Map GoString) (m : Manager C)
        → All (λ e. any (λ (c : ClusterInfo C). c.id == e.0) cs ≡ true) files
        → IsSound m
        → has_key k files ≡ true
        → covered k (visit_files world now (index_clusters cs []) files m) ≡ true
    unfolding visit_files
    visit_files-covers k [] m known h c = cc (c, has_key-nil GoString k)
    visit_files-covers k ((id, hash) ∷ rest) m known h c =
        let m' = visit_file world now (index_clusters cs []) id hash m in
        let h' = visit_file-IsSound world now cs id hash m known.0 h in
        elim (Bool-cases (id == k)) [
          | inl e ↦ visit_files-keeps k rest m' known.1 h' (
              subst (λ i. covered i m' ≡ true) ((eq_iff id k).0 e)
                (visit_file-covered world now cs id hash m known.0 h))
          | inr ne ↦
              visit_files-covers k rest m' known.1 h' (ground (arith, has_key-cons k id hash rest))
        ]

  module _ (world : World C) (now : ℕ) (snap : ClusterSnapshot C) (m : Manager C)
      (known : IsConsistent snap) (h : IsSound m)
      (kept : (k : GoString)
        → has_key k m.pending_retry ≡ true
        → has_key k snap.file_hashes ≡ true) where
    -- a cluster without a file is recorded only if it was watched, and then it is forgotten
    lost_is_not_recorded :
        (k : GoString)
        → has_key k snap.file_hashes ≡ false
        → has_key k (pruned world now snap [] m).file_hashes ≡ true
        → ⊥
    lost_is_not_recorded k absent r =
        let m₁ : Manager C = remove_lost snap.file_hashes m.watchers m in
        ground (
          arith,
          remove_lost-files snap.file_hashes k m.watchers m,
          ap (has_key k) (cancel_retries-others k snap.file_hashes m₁.pending_retry m₁).1,
          h.files_covered k,
          kept k,
        )

    pruned-IsSound : IsSound (pruned world now snap [] m)
    pruned-IsSound =
        let m₁ : Manager C = remove_lost snap.file_hashes m.watchers m in
        record {
          named =
              cancel_retries-IsNamed snap.file_hashes m₁.pending_retry m₁
                (remove_lost-IsNamed snap.file_hashes m.watchers m h.named);
          files_covered = λ k r. elim (Bool-cases (has_key k snap.file_hashes)) [
            | inl shown ↦
                let same = pruned-SameSlot world now snap k m shown in
                covered_same k m _ same
                ∙ h.files_covered k (sym (has_key_same_lookup k _ _ same.file) ∙ r)
            | inr absent ↦ absurd (lost_is_not_recorded k absent r)
          ];
        }

    -- From a sound manager whose pending clusters all have their files, a rescan yields a sound
    -- manager, whatever starts fail.
    pub rescan-IsSound : IsSound (rescan_directory world now (some snap) m)
    unfolding rescan_directory
    rescan-IsSound =
        visit_files-IsSound world now snap.clusters snap.file_hashes _ known pruned-IsSound

    -- From a sound manager whose pending clusters all have their files, a rescan leaves every
    -- cluster of the directory watched or queued for a retry, whatever starts fail.
    pub rescan-covers :
        (k : GoString)
        → has_key k snap.file_hashes ≡ true
        → covered k (rescan_directory world now (some snap) m) ≡ true
    unfolding rescan_directory
    rescan-covers k shown =
        visit_files-covers world now snap.clusters k snap.file_hashes _ known pruned-IsSound shown
