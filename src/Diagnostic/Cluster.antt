-- ===== src/Diagnostic/Cluster.antt =====
-- What the analyzer of internal/diagnostic/analyzer.go reads of a cluster, its configuration, and
-- its search for the pods of the new replica set.
use k8s_deploy_monitor_opera.Prelude.{
  ℕ, Bool, ◌&&◌, Option, none, some, List, [], ◌∷◌, GoString, any, ◌==◌, on_some, if◌then◌else◌,
}

-- durations are in nanoseconds
pub record AnalyzerConfig : Type 0 where
  pub inactivity_timeout : ℕ
  pub absolute_timeout : ℕ
  pub soak_period : ℕ
  pub restart_threshold : ℕ
  pub restart_window : ℕ
  pub config_error_window : ℕ
  pub log_tail_lines : ℕ

pub record Terminated : Type 0 where
  pub reason : GoString
  pub exit_code : ℕ

-- `waiting` is the reason of a waiting state
pub record ContainerStatus : Type 0 where
  pub name : GoString
  pub restart_count : ℕ
  pub ready : Bool
  pub waiting : Option GoString
  pub terminated : Option Terminated
  pub last_terminated : Option Terminated

pub record Condition : Type 0 where
  pub type : GoString
  pub status : GoString
  pub reason : GoString

pub record Pod : Type 0 where
  pub name : GoString
  pub phase : GoString
  pub owners : List GoString
  pub init_statuses : List ContainerStatus
  pub statuses : List ContainerStatus
  pub conditions : List Condition

pub record ReplicaSet : Type 0 where
  pub uid : GoString
  pub owners : List GoString
  pub revision : GoString

-- the deployment as the analyzer gets it
pub record Deploy : Type 0 where
  pub uid : GoString
  pub revision : GoString
  pub generation : ℕ
  pub observed_generation : ℕ
  pub paused : Bool
  pub replicas : Option ℕ
  pub updated : ℕ
  pub available : ℕ
  pub unavailable : ℕ
  pub conditions : List Condition

pub data GetDeploy : Type 0 where
  found : Deploy → GetDeploy
  not_found : GetDeploy
  get_failed : GetDeploy

-- What the API server answers to the calls of one round; `none` is an error.
pub record View : Type 0 where
  pub deploy : GetDeploy
  pub replica_sets : Deploy → Option (List ReplicaSet)
  pub pods : ReplicaSet → Option (List Pod)

-- the loop of `findNewReplicaSet`
unfoldable pub new_replica_set_in : Deploy → List ReplicaSet → Option ReplicaSet
new_replica_set_in d [] = none
new_replica_set_in d (rs ∷ rest) =
    if any (λ ref. ref == d.uid) rs.owners && (rs.revision == d.revision)
    then some rs
    else new_replica_set_in d rest

-- `none` is an error, `some none` no such replica set
unfoldable pub find_new_replica_set : View → Deploy → Option (Option ReplicaSet)
find_new_replica_set v d =
    on_some (v.replica_sets d) none (λ sets. some (new_replica_set_in d sets))

-- the loop of `podsForReplicaSet`
unfoldable pub owned_by : GoString → List Pod → List Pod
owned_by uid [] = []
owned_by uid (pod ∷ rest) =
    let owned = owned_by uid rest in
    if any (λ ref. ref == uid) pod.owners then pod ∷ owned else owned

unfoldable pub pods_for_replica_set : View → ReplicaSet → Option (List Pod)
pods_for_replica_set v rs = on_some (v.pods rs) none (λ pods. some (owned_by rs.uid pods))

-- The two calls in a row, as every phase makes them: `none` if either fails or finds nothing.
unfoldable pub new_pods : View → Deploy → Option (List Pod)
new_pods v d =
    on_some (find_new_replica_set v d) none (λ o. on_some o none (λ rs. pods_for_replica_set v rs))

-- `desired`: one replica where the spec is silent
unfoldable pub desired : Deploy → ℕ
desired d = on_some d.replicas 1 (λ n. n)

-- `Result` of report.go
pub data Result : Type 0 where
  success failed stalled inconclusive unstable paused deleted : Result

-- The reason of a verdict, with what its text mentions.
pub data Reason : Type 0 where
  no_reason context_cancelled timeout_paused timeout_progressing timeout_stalled was_deleted :
      Reason
  no_progress deadline_exceeded cancelled_in_soak refetch_failed regressed_in_soak : Reason
  waiting_persisted : GoString → GoString → GoString → Reason
  restart_threshold_exceeded : ℕ → Reason
  restarted_in_soak : GoString → GoString → ℕ → ℕ → Reason
  left_ready : GoString → Reason

pub record Verdict : Type 0 where
  pub result : Result
  pub reason : Reason
