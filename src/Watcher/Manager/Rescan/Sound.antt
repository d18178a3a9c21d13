-- ===== src/Watcher/Manager/Rescan/Sound.antt =====
-- One file's visit of `rescanDirectory`, against the invariant of the manager.
use k8s_deploy_monitor_opera.Prelude.{
  ℕ, true, false, Option, none, some, List, [], GoString, Map, lookup, has_key, ◌==◌, is_some, any,
  All, All-insert, All-remove, has_key-insert, has_key_same_lookup, eq_iff, eq_refl, if_both,
  on_some_both, ◌≡◌, refl, sym, ◌∙◌, subst, arith, inl, inr, Bool-cases,
}
use k8s_deploy_monitor_opera.Watcher.Manager.{
  ClusterInfo, RetryEntry, Manager, World, queue_retry, new_entry, start_watcher,
}
use k8s_deploy_monitor_opera.Watcher.Manager.Invariant.{
  covered, WatcherNamed, EntryNamed, IsNamed, IsSound, start_watcher-StartResult,
}
use k8s_deploy_monitor_opera.Watcher.Manager.Rescan.{
  index_clusters, refresh_entry, retire, record_file, forget_file, start_new, restart, visit_case,
  visit_file,
}
use k8s_deploy_monitor_opera.Watcher.Manager.Rescan.Snapshot.{cluster_at-named}
use k8s_deploy_monitor_opera.Watcher.Manager.Rescan.Untouched.{SameSlot, visit_case-SameSlot}

module _ {C : Type 0} where
  pub covered_same :
      (k : GoString) (m m' : Manager C) → SameSlot k m m' → covered k m' ≡ covered k m
  covered_same k m m' h = ground (arith, has_key_same_lookup k _ _ h.watcher, h.retry)

  retire-IsNamed : (id : GoString) (m : Manager C) → IsNamed m → IsNamed (retire id m)
  unfolding retire
  retire-IsNamed id m n = record {
    watchers_named =
        on_some_both {B = Manager C} (λ x. All WatcherNamed x.watchers) (lookup id m.watchers) _ _
          (λ _. n.watchers_named) (λ w _. All-remove WatcherNamed id m.watchers n.watchers_named);
    entries_named = All-remove EntryNamed id _ (
        on_some_both {B = Manager C} (λ x. All EntryNamed x.pending_retry) (lookup id m.watchers) _
          _ (λ _. n.entries_named) (λ w _. n.entries_named));
  }

  pub queue_retry-IsNamed :
      (now : ℕ) (id err : GoString) (cluster : ClusterInfo C) (m : Manager C)
      → cluster.id ≡ id
      → IsNamed m
      → IsNamed (queue_retry now id cluster err m)
  unfolding queue_retry new_entry
  queue_retry-IsNamed now id err cluster m e n = record {
    watchers_named = n.watchers_named;
    entries_named = All-insert EntryNamed id _ m.pending_retry e n.entries_named;
  }

  pub queue_retry-covered :
      (now : ℕ) (id err : GoString) (cluster : ClusterInfo C) (m : Manager C)
      → covered id (queue_retry now id cluster err m) ≡ true
  unfolding queue_retry
  queue_retry-covered now id err cluster m =
      ground (arith, has_key-insert id id (new_entry now cluster err) m.pending_retry, eq_refl id)

  module _ (world : World C) (now : ℕ) (id hash : GoString) (cluster : ClusterInfo C)
      (named : cluster.id ≡ id) (m : Manager C) where
    pub started-covered :
        (start_watcher world cluster m).1 ≡ none
        → covered id (start_watcher world cluster m).0 ≡ true
    started-covered e = ground (
      arith,
      (start_watcher-StartResult world cluster m).watched id,
      eq_refl id,
      e,
      eq_iff cluster.id id,
    )

    start_new-covered : covered id (start_new world now id hash cluster m) ≡ true
    unfolding start_new record_file
    start_new-covered =
        on_some_both {B = Manager C} (λ x. covered id x ≡ true) (start_watcher world cluster m).1 _
          _ (λ e. started-covered e)
          (λ err _. queue_retry-covered now id err cluster (start_watcher world cluster m).0)

    restart-covered : covered id (restart world now id hash cluster m) ≡ true
    unfolding restart record_file
    restart-covered =
        on_some_both {B = Manager C} (λ x. covered id x ≡ true) (start_watcher world cluster m).1 _
          _ (λ e. started-covered e)
          (λ err _.
            queue_retry-covered now id err cluster
              (forget_file id (start_watcher world cluster m).0))

    start_new-IsNamed : IsNamed m → IsNamed (start_new world now id hash cluster m)
    unfolding start_new record_file
    start_new-IsNamed n =
        let n' = (start_watcher-StartResult world cluster m).names n in
        on_some_both IsNamed (start_watcher world cluster m).1 _ _
          (λ _. record { watchers_named = n'.watchers_named; entries_named = n'.entries_named })
          (λ err _. queue_retry-IsNamed now id err cluster _ named n')

    restart-IsNamed : IsNamed m → IsNamed (restart world now id hash cluster m)
    unfolding restart record_file forget_file
    restart-IsNamed n =
        let n' = (start_watcher-StartResult world cluster m).names n in
        let same : (f : Map GoString)
            → IsNamed (record ((start_watcher world cluster m).0) { file_hashes = f }) =
          λ f. record { watchers_named = n'.watchers_named; entries_named = n'.entries_named } in
        on_some_both IsNamed (start_watcher world cluster m).1 _ _ (λ _. same _)
          (λ err _. queue_retry-IsNamed now id err cluster _ named (same _))

  visit_case-IsNamed :
      (world : World C) (now : ℕ) (o : Option GoString) (r : Option (RetryEntry C))
      (id hash : GoString) (cluster : ClusterInfo C) (m : Manager C)
      → cluster.id ≡ id
      → IsNamed m
      → IsNamed (visit_case world now o r id hash cluster m)
  unfolding visit_case refresh_entry retire
  visit_case-IsNamed world now none none id hash cluster m named n =
      start_new-IsNamed world now id hash cluster named m n
  visit_case-IsNamed world now none (some entry) id hash cluster m named n = record {
    watchers_named = n.watchers_named;
    entries_named = All-insert EntryNamed id _ m.pending_retry named n.entries_named;
  }
  visit_case-IsNamed world now (some old) r id hash cluster m named n =
      if_both IsNamed (hash == old) _ _ n
        (restart-IsNamed world now id hash cluster named (retire id m) (retire-IsNamed id m n))

  -- what the loop needs of the file that it visits: it is recorded only if the cluster is covered
  visit_case-covered :
      (world : World C) (now : ℕ) (o : Option GoString) (r : Option (RetryEntry C))
      (id hash : GoString) (cluster : ClusterInfo C) (m : Manager C)
      → cluster.id ≡ id
      → (is_some o ≡ true → covered id m ≡ true)
      → covered id (visit_case world now o r id hash cluster m) ≡ true
  unfolding visit_case
  visit_case-covered world now none none id hash cluster m named h =
      start_new-covered world now id hash cluster named m
  visit_case-covered world now none (some entry) id hash cluster m named h =
      unfold refresh_entry in
      ground (
        arith,
        has_key-insert id id (record entry { cluster = cluster }) m.pending_retry,
        eq_refl id,
      )
  visit_case-covered world now (some old) r id hash cluster m named h =
      if_both {A = Manager C} (λ x. covered id x ≡ true) (hash == old) _ _ (h refl)
        (restart-covered world now id hash cluster named (retire id m))

  module _ (world : World C) (now : ℕ) (cs : List (ClusterInfo C)) (id hash : GoString)
      (m : Manager C) (known : any (λ (c : ClusterInfo C). c.id == id) cs ≡ true)
      (h : IsSound m) where
    pub visit_file-covered :
        covered id (visit_file world now (index_clusters cs []) id hash m) ≡ true
    unfolding visit_file has_key
    visit_file-covered =
        visit_case-covered world now _ _ id hash _ m (cluster_at-named id cs known)
          (h.files_covered id)

    pub visit_file-SameSlot :
        (k : GoString)
        → id == k ≡ false
        → SameSlot k m (visit_file world now (index_clusters cs []) id hash m)
    unfolding visit_file
    visit_file-SameSlot k ne =
        visit_case-SameSlot k id ne world now _ _ hash _ m (cluster_at-named id cs known)

    pub visit_file-keeps :
        (k : GoString)
        → covered k m ≡ true
        → covered k (visit_file world now (index_clusters cs []) id hash m) ≡ true
    visit_file-keeps k c = elim (Bool-cases (id == k)) [
      | inl e ↦
          subst (λ i. covered i (visit_file world now (index_clusters cs []) id hash m) ≡ true)
            ((eq_iff id k).0 e) visit_file-covered
      | inr ne ↦ covered_same k m _ (visit_file-SameSlot k ne) ∙ c
    ]

    pub visit_file-IsSound : IsSound (visit_file world now (index_clusters cs []) id hash m)
    visit_file-IsSound = record {
      named =
          unfold visit_file in
          visit_case-IsNamed world now _ _ id hash _ m (cluster_at-named id cs known) h.named;
      files_covered = λ k r. elim (Bool-cases (id == k)) [
        | inl e ↦
            subst (λ i. covered i (visit_file world now (index_clusters cs []) id hash m) ≡ true)
              ((eq_iff id k).0 e) visit_file-covered
        | inr ne ↦ visit_file-keeps k (
            h.files_covered k (sym (has_key_same_lookup k _ _ (visit_file-SameSlot k ne).file) ∙ r))
      ];
    }
