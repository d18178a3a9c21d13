-- ===== src/Watcher/Manager/Rescan/Returned.antt =====
-- A cluster whose kubeconfig file is removed while it waits for a retry, and later put back.
-- `rescanDirectory` forgets the hash of a lost file only where a watcher runs for it.
use k8s_deploy_monitor_opera.Prelude.{
  ℕ, false, some, GoString, lookup, has_key, HasUniqueKeys, [], ◌≡◌, ◌∙◌, ap, arith, inr,
  has_key_same_lookup,
}
use k8s_deploy_monitor_opera.Watcher.Manager.{Manager, World}
use k8s_deploy_monitor_opera.Watcher.Manager.Invariant.{covered}
use k8s_deploy_monitor_opera.Watcher.Manager.Rescan.{ClusterSnapshot, remove_lost, rescan_directory}
use k8s_deploy_monitor_opera.Watcher.Manager.Rescan.Snapshot.{IsConsistent}
use k8s_deploy_monitor_opera.Watcher.Manager.Rescan.Untouched.{
  remove_lost-SameSlot, cancel_retries-others, visit_files-other,
}
use k8s_deploy_monitor_opera.Watcher.Manager.Rescan.Removal.{
  pruned, rescan-unchanged_file, rescan-removed_file,
}

module _ {C : Type 0} (world : World C) (k hash : GoString) (m : Manager C) where
  file-rescan_lost :
      (now : ℕ) (snap : ClusterSnapshot C)
      → IsConsistent snap
      → has_key k snap.file_hashes ≡ false
      → has_key k m.watchers ≡ false
      → lookup k (rescan_directory world now (some snap) m).file_hashes ≡ lookup k m.file_hashes
  unfolding rescan_directory
  file-rescan_lost now snap known absent unwatched =
      let m₁ : Manager C = remove_lost snap.file_hashes m.watchers m in
      (visit_files-other world now k [] snap.clusters snap.file_hashes (pruned world now snap k m)
        known absent).file
      ∙ ap (lookup k) (cancel_retries-others k snap.file_hashes m₁.pending_retry m₁).1
      ∙ (remove_lost-SameSlot k snap.file_hashes m.watchers m (inr unwatched)).file

  -- A recorded cluster without a running watcher (one that waits for a retry) whose file is
  -- missing from one snapshot and back, with the same content, in the next, is after both rescans
  -- neither watched nor queued for a retry.
  pub returned_file_ignored :
      (now₁ now₂ : ℕ) (lost back : ClusterSnapshot C)
      → IsConsistent lost
      → IsConsistent back
      → HasUniqueKeys back.file_hashes
      → has_key k lost.file_hashes ≡ false
      → lookup k back.file_hashes ≡ some hash
      → lookup k m.file_hashes ≡ some hash
      → has_key k m.watchers ≡ false
      → covered k
          (rescan_directory world now₂ (some back) (rescan_directory world now₁ (some lost) m))
        ≡ false
  returned_file_ignored now₁ now₂ lost back known known' unique absent shown recorded unwatched =
      let m' : Manager C = rescan_directory world now₁ (some lost) m in
      let same =
        rescan-unchanged_file world now₂ back k m' hash known' unique shown
          (file-rescan_lost now₁ lost known absent unwatched ∙ recorded) in
      ground (
        arith,
        rescan-removed_file world now₁ lost k m known absent,
        has_key_same_lookup k _ _ same.watcher,
        same.retry,
      )
