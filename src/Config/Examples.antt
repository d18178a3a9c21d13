-- ===== src/Config/Examples.antt =====
-- Concrete runs of the configuration.
use k8s_deploy_monitor_opera.Prelude.{
  true, false, none, some, List, [], ◌∷◌, str, ◌==◌, has_suffix, trim_suffix, lookup, insert,
  has_key, ◌≡◌, refl, if◌then◌else◌, arith,
}
use k8s_deploy_monitor_opera.Watcher.Manager.{Manager, World, started, new_manager}
use k8s_deploy_monitor_opera.Watcher.Manager.Invariant.{covered, IsSound}
use k8s_deploy_monitor_opera.Watcher.Manager.Rescan.{ClusterSnapshot, rescan_directory}
use k8s_deploy_monitor_opera.Config.Directory.{
  DirEntry, Files, load_directory_snapshot, visit_entries, visit_entry, read_entry, cluster_of,
  is_kubeconfig_file, filename_stem,
}
use k8s_deploy_monitor_opera.Config.Directory.Consistent.{rescan-covers_files}

abbrev entries : List DirEntry
entries =
    record { is_dir = false; name = str "east.yaml" }
    ∷ record { is_dir = false; name = str "README.md" }
    ∷ record { is_dir = true; name = str "old.yaml" }
    ∷ record { is_dir = false; name = str "west.conf" }
    ∷ []

-- a directory with one file that cannot be parsed
abbrev files : Files Unit
files = record {
  entries = some entries;
  read_file = λ name. some name;
  rest_config = λ bytes. if bytes == str "west.conf" then none else some tt;
  hash = λ bytes. bytes;
}

abbrev snapshot : ClusterSnapshot Unit
snapshot = record {
  clusters = record { id = str "east"; rest_config = some tt } ∷ [];
  file_hashes = (str "east", str "east.yaml") ∷ [];
}

loads : load_directory_snapshot files ≡ some snapshot
unfolding load_directory_snapshot visit_entries visit_entry read_entry cluster_of is_kubeconfig_file
    filename_stem has_suffix trim_suffix insert ◌==◌
loads = refl

abbrev world : World Unit
world = record { outcome = λ n cluster. started; loaded = λ id. none }

abbrev fresh : Manager Unit
fresh = new_manager (str "/clusters") 600

fresh-IsSound : IsSound fresh
unfolding new_manager has_key lookup
fresh-IsSound = record {
  named = record { watchers_named = tt; entries_named = tt };
  files_covered = λ k h. absurd (ground (arith, h));
}

rescan-covers_files_example :
    covered (str "east") (rescan_directory world 9 (load_directory_snapshot files) fresh) ≡ true
unfolding new_manager has_key lookup read_entry is_kubeconfig_file filename_stem has_suffix
    trim_suffix ◌==◌
rescan-covers_files_example =
    rescan-covers_files files world 9 fresh entries (str "east") refl fresh-IsSound
      (λ j h. absurd (ground (arith, h))) refl
