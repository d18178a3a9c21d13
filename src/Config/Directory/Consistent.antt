-- ===== src/Config/Directory/Consistent.antt =====
-- A snapshot that `LoadDirectorySnapshot` reads, and the rescan of the manager that reads it.
use k8s_deploy_monitor_opera.Prelude.{
  ℕ, true, ◌&&◌, ◌||◌, Option, none, some, List, [], ◌∷◌, ◌++◌, GoString, Map, has_key, ◌==◌,
  eq_refl, on_some, is_some, any, All, All-insert, HasUniqueKeys, insert-HasUniqueKeys,
  has_key-insert, has_key-nil, ◌≡◌, ◌≢◌, refl, ◌∙◌, arith, inl, inr, Option-cases,
}
use k8s_deploy_monitor_opera.Watcher.Manager.{ClusterInfo, Manager, World}
use k8s_deploy_monitor_opera.Watcher.Manager.Invariant.{covered, IsSound}
use k8s_deploy_monitor_opera.Watcher.Manager.Rescan.{ClusterSnapshot, rescan_directory}
use k8s_deploy_monitor_opera.Watcher.Manager.Rescan.Snapshot.{IsConsistent}
use k8s_deploy_monitor_opera.Watcher.Manager.Rescan.Coverage.{rescan-covers}
use k8s_deploy_monitor_opera.Config.Directory.{
  DirEntry, Files, filename_stem, read_entry, cluster_of, visit_entry, visit_entries,
  load_directory_snapshot,
}

module _ {C : Type 0} where
  abbrev Known : List (ClusterInfo C) → GoString × GoString → Type 0
  Known cs e = any (λ (c : ClusterInfo C). c.id == e.0) cs ≡ true

  any-append :
      (id : GoString) (cs : List (ClusterInfo C)) (c : ClusterInfo C)
      → any (λ (x : ClusterInfo C). x.id == id) (cs ++ c ∷ [])
        ≡ (any (λ (x : ClusterInfo C). x.id == id) cs || c.id == id)
  any-append id [] c = ground arith
  any-append id (x ∷ cs) c = ground (arith, any-append id cs c)

  Known-append :
      (cs : List (ClusterInfo C)) (c : ClusterInfo C) (m : Map GoString)
      → All (Known cs) m
      → All (Known (cs ++ c ∷ [])) m
  Known-append cs c [] h = tt
  Known-append cs c ((id, hash) ∷ m) h =
      (ground (arith, h.0, any-append id cs c), Known-append cs c m h.1)

  pub record IsRead (snap : ClusterSnapshot C) : Type 0 where
    pub known : IsConsistent snap
    pub unique : HasUniqueKeys snap.file_hashes

  module _ (files : Files C) where
    visit_entry-IsRead :
        (e : DirEntry) (snap : ClusterSnapshot C) → IsRead snap → IsRead (visit_entry files e snap)
    unfolding visit_entry
    visit_entry-IsRead e snap h = elim (Option-cases (read_entry files e)) [
      | inl none_read ↦ rw (none_read, visit_entry) h
      | inr (r, read) ↦
          rw (read, visit_entry)
            (record {
              known =
                  All-insert (Known (snap.clusters ++ cluster_of files e r.1 ∷ []))
                    (filename_stem e.name) _ snap.file_hashes
                    (unfold cluster_of in
                      ground (
                        arith,
                        any-append (filename_stem e.name) snap.clusters (cluster_of files e r.1),
                        eq_refl (filename_stem e.name),
                      ))
                    (Known-append snap.clusters (cluster_of files e r.1) snap.file_hashes h.known);
              unique = insert-HasUniqueKeys _ _ _ h.unique;
            })
    ]

    visit_entries-IsRead :
        (es : List DirEntry) (snap : ClusterSnapshot C)
        → IsRead snap
        → IsRead (visit_entries files es snap)
    unfolding visit_entries
    visit_entries-IsRead [] snap h = h
    visit_entries-IsRead (e ∷ es) snap h = visit_entries-IsRead es _ (visit_entry-IsRead e snap h)

    loaded :
        (o : Option (List DirEntry)) (snap : ClusterSnapshot C)
        → on_some o none
            (λ es. some (visit_entries files es (record { clusters = []; file_hashes = [] })))
          ≡ some snap
        → (es : List DirEntry) × (o ≡ some es)
          × (visit_entries files es (record { clusters = []; file_hashes = [] }) ≡ snap)
    loaded none snap h = cc
    loaded (some es) snap h = (es, refl, ground (arith, h))

    load_directory_snapshot-IsRead :
        (snap : ClusterSnapshot C) → load_directory_snapshot files ≡ some snap → IsRead snap
    unfolding load_directory_snapshot
    load_directory_snapshot-IsRead snap h =
        let (es, _, e) = loaded files.entries snap h in
        rw (← e) (visit_entries-IsRead es _ (record { known = tt; unique = tt }))

    has_key-visit_entry :
        (k : GoString) (e : DirEntry) (snap : ClusterSnapshot C)
        → has_key k (visit_entry files e snap).file_hashes ≡ (
            has_key k snap.file_hashes || is_some (read_entry files e) && filename_stem e.name == k)
    unfolding visit_entry
    has_key-visit_entry k e snap = elim (Option-cases (read_entry files e)) [
      | inl none_read ↦ rw (none_read, visit_entry) (ground arith)
      | inr (r, read) ↦
          rw (read, visit_entry)
            (has_key-insert (filename_stem e.name) k (files.hash r.0) snap.file_hashes
              ∙ ground arith)
    ]

    has_key-visit_entries :
        (k : GoString) (es : List DirEntry) (snap : ClusterSnapshot C)
        → has_key k (visit_entries files es snap).file_hashes ≡ (
            has_key k snap.file_hashes
            || any (λ e. is_some (read_entry files e) && filename_stem e.name == k) es)
    unfolding visit_entries
    has_key-visit_entries k [] snap = ground arith
    has_key-visit_entries k (e ∷ es) snap =
        ground (
          arith,
          has_key-visit_entries k es (visit_entry files e snap),
          has_key-visit_entry k e snap,
        )

    has_key-loaded :
        (k : GoString) (es : List DirEntry) (snap : ClusterSnapshot C)
        → files.entries ≡ some es
        → load_directory_snapshot files ≡ some snap
        → has_key k snap.file_hashes
          ≡ any (λ e. is_some (read_entry files e) && filename_stem e.name == k) es
    unfolding load_directory_snapshot
    has_key-loaded k es snap listed h =
        let (es', e, v) = loaded files.entries snap h in
        let same : es' ≡ es = ground (arith, e, listed) in
        rw (← v) (
          has_key-visit_entries k es' (record { clusters = []; file_hashes = [] })
          ∙ rw (has_key-nil GoString k, same) refl)

    listed-loaded :
        (o : Option (List DirEntry)) (es : List DirEntry)
        → o ≡ some es
        → on_some o none
            (λ es. some (visit_entries files es (record { clusters = []; file_hashes = [] })))
          ≢ none
    listed-loaded none es h e = cc
    listed-loaded (some es') es h e = cc

    -- A rescan of a directory that can be listed, from a sound manager whose pending clusters all
    -- have a valid file in it: afterwards the cluster of every valid file is watched or queued for a
    -- retry, whatever starts fail.
    pub rescan-covers_files :
        (world : World C) (now : ℕ) (m : Manager C) (es : List DirEntry) (k : GoString)
        → files.entries ≡ some es
        → IsSound m
        → ((j : GoString)
            → has_key j m.pending_retry ≡ true
            → any (λ e. is_some (read_entry files e) && filename_stem e.name == j) es ≡ true)
        → any (λ e. is_some (read_entry files e) && filename_stem e.name == k) es ≡ true
        → covered k (rescan_directory world now (load_directory_snapshot files) m) ≡ true
    rescan-covers_files world now m es k listed sound kept valid =
        elim (Option-cases (load_directory_snapshot files)) [
          | inl failed ↦
              absurd
                (unfold load_directory_snapshot in listed-loaded files.entries es listed failed)
          | inr (snap, h) ↦ rw h (
              rescan-covers world now snap m (load_directory_snapshot-IsRead snap h).known sound
                (λ j p. has_key-loaded j es snap listed h ∙ kept j p) k
                (has_key-loaded k es snap listed h ∙ valid))
        ]
