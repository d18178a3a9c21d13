-- ===== src/Watcher/Manager/Rescan/Removal.antt =====
-- What a rescan does to one cluster, by what the directory shows of it.
use k8s_deploy_monitor_opera.Prelude.{
  ℕ, true, false, some, [], GoString, lookup, has_key, HasUniqueKeys, All-eq-lookup,
  has_key_of_lookup, has_key_same_lookup, ◌≡◌, ◌∙◌, ap, arith, inl,
}
use k8s_deploy_monitor_opera.Watcher.Manager.{Manager, World}
use k8s_deploy_monitor_opera.Watcher.Manager.Invariant.{covered}
use k8s_deploy_monitor_opera.Watcher.Manager.Rescan.{
  ClusterSnapshot, remove_lost, cancel_retries, rescan_directory,
}
use k8s_deploy_monitor_opera.Watcher.Manager.Rescan.Snapshot.{IsConsistent}
use k8s_deploy_monitor_opera.Watcher.Manager.Rescan.Untouched.{
  SameSlot, SameSlot-trans, visit_files-SameSlot, visit_files-other, remove_lost-SameSlot,
  remove_lost-watchers, cancel_retries-pending, cancel_retries-others,
}

module _ {C : Type 0} (world : World C) (now : ℕ) (snap : ClusterSnapshot C) (k : GoString)
    (m : Manager C) where
  -- the manager after the two removal loops
  abbrev pub pruned : Manager C
  pruned =
      let m₁ : Manager C = remove_lost snap.file_hashes m.watchers m in
      cancel_retries snap.file_hashes m₁.pending_retry m₁

  pub pruned-SameSlot : has_key k snap.file_hashes ≡ true → SameSlot k m pruned
  pruned-SameSlot h =
      let m₁ : Manager C = remove_lost snap.file_hashes m.watchers m in
      let others = cancel_retries-others k snap.file_hashes m₁.pending_retry m₁ in
      SameSlot-trans k m m₁ _ (remove_lost-SameSlot k snap.file_hashes m.watchers m (inl h))
        (record {
          watcher = ap (lookup k) others.0;
          retry = ground (arith, cancel_retries-pending k snap.file_hashes m₁.pending_retry m₁);
          file = ap (lookup k) others.1;
        })

  -- A rescan leaves a cluster whose file is unchanged as it is: its watcher is not restarted, no
  -- retry is queued or cancelled, and its recorded hash stays.
  pub rescan-unchanged_file :
      (hash : GoString)
      → IsConsistent snap
      → HasUniqueKeys snap.file_hashes
      → lookup k snap.file_hashes ≡ some hash
      → lookup k m.file_hashes ≡ some hash
      → SameSlot k m (rescan_directory world now (some snap) m)
  unfolding rescan_directory
  rescan-unchanged_file hash known unique shown recorded =
      let same = pruned-SameSlot (has_key_of_lookup k hash snap.file_hashes shown) in
      SameSlot-trans k m pruned _ same (
        visit_files-SameSlot world now k hash snap.clusters snap.file_hashes pruned known
          (All-eq-lookup k hash snap.file_hashes unique shown) (same.file ∙ recorded))

  -- After a rescan that the directory allows, a cluster with no file is neither watched nor
  -- queued for a retry.
  pub rescan-removed_file :
      IsConsistent snap
      → has_key k snap.file_hashes ≡ false
      → covered k (rescan_directory world now (some snap) m) ≡ false
  unfolding rescan_directory
  rescan-removed_file known absent =
      let m₁ : Manager C = remove_lost snap.file_hashes m.watchers m in
      let visited =
        visit_files-other world now k [] snap.clusters snap.file_hashes pruned known absent in
      ground (
        arith,
        remove_lost-watchers k snap.file_hashes m.watchers m,
        cancel_retries-pending k snap.file_hashes m₁.pending_retry m₁,
        ap (has_key k) (cancel_retries-others k snap.file_hashes m₁.pending_retry m₁).0,
        has_key_same_lookup k _ _ visited.watcher,
        visited.retry,
      )
