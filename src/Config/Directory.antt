-- ===== src/Config/Directory.antt =====
-- internal/config/kubeconfig.go: the clusters of a directory, one kubeconfig file each.
pub mod Consistent
use k8s_deploy_monitor_opera.Prelude.{
  ℕ, Bool, true, false, not, ◌&&◌, ◌||◌, Option, none, some, List, [], ◌∷◌, ◌++◌, GoString, str,
  Map, insert, ◌==◌, on_some, if◌then◌else◌, has_suffix, trim_suffix,
}
use k8s_deploy_monitor_opera.Watcher.Manager.{ClusterInfo}
use k8s_deploy_monitor_opera.Watcher.Manager.Rescan.{ClusterSnapshot}

pub record DirEntry : Type 0 where
  pub is_dir : Bool
  pub name : GoString

-- The file system and the libraries that read a file: the entries of the directory, the bytes of a
-- file of it, client-go's parser, and SHA-256 in hex. `none` is an error.
pub record Files (C : Type 0) : Type 0 where
  pub entries : Option (List DirEntry)
  pub read_file : GoString → Option GoString
  pub rest_config : GoString → Option C
  pub hash : GoString → GoString

unfoldable pub is_kubeconfig_file : GoString → Bool
is_kubeconfig_file name =
    has_suffix (str ".yaml") name || has_suffix (str ".yml") name || has_suffix (str ".conf") name

unfoldable pub filename_stem : GoString → GoString
filename_stem name =
    trim_suffix (str ".conf") (trim_suffix (str ".yml") (trim_suffix (str ".yaml") name))

module _ {C : Type 0} (files : Files C) where
  -- What one entry contributes: the bytes and the config of a file that can be read and parsed.
  unfoldable pub read_entry : DirEntry → Option (GoString × C)
  read_entry e =
      if e.is_dir
      then none
      else if is_kubeconfig_file e.name
      then on_some (files.read_file e.name) none
          (λ bytes. on_some (files.rest_config bytes) none (λ cfg. some (bytes, cfg)))
      else none

  unfoldable pub cluster_of : DirEntry → C → ClusterInfo C
  cluster_of e cfg = record { id = filename_stem e.name; rest_config = some cfg }

  -- the loop of `loadFromDirectory`
  unfoldable pub clusters_in : List DirEntry → List (ClusterInfo C)
  clusters_in [] = []
  clusters_in (e ∷ rest) =
      let others = clusters_in rest in
      on_some (read_entry e) others (λ r. cluster_of e r.1 ∷ others)

  -- an error where no file is valid
  unfoldable pub some_clusters : List (ClusterInfo C) → Option (List (ClusterInfo C))
  some_clusters [] = none
  some_clusters (c ∷ cs) = some (c ∷ cs)

  unfoldable pub load_from_directory : Option (List (ClusterInfo C))
  load_from_directory = on_some files.entries none (λ es. some_clusters (clusters_in es))

  -- `LoadClusters`, given the configured directory
  unfoldable pub load_clusters : GoString → Option (List (ClusterInfo C))
  load_clusters dir = if dir == [] then none else load_from_directory

  -- the body of the loop of `LoadDirectorySnapshot`
  unfoldable pub visit_entry : DirEntry → ClusterSnapshot C → ClusterSnapshot C
  visit_entry e snap = on_some (read_entry e) snap (λ r. record {
    clusters = snap.clusters ++ cluster_of e r.1 ∷ [];
    file_hashes = insert (filename_stem e.name) (files.hash r.0) snap.file_hashes;
  })

  unfoldable pub visit_entries : List DirEntry → ClusterSnapshot C → ClusterSnapshot C
  visit_entries [] snap = snap
  visit_entries (e ∷ rest) snap = visit_entries rest (visit_entry e snap)

  unfoldable pub load_directory_snapshot : Option (ClusterSnapshot C)
  load_directory_snapshot =
      on_some files.entries none
        (λ es. some (visit_entries es (record { clusters = []; file_hashes = [] })))
