-- ===== src/Diagnostic/Soak.antt =====
-- `soak` of analyzer.go: a converged rollout is looked at again after a while.
pub mod Clean
use k8s_deploy_monitor_opera.Prelude.{
  ℕ, Bool, false, not, ◌&&◌, Option, none, some, List, [], ◌∷◌, GoString, str, Map, lookup, insert,
  any, ltb, eqb, ◌==◌, join_key, on_some, if◌then◌else◌,
}
use k8s_deploy_monitor_opera.Diagnostic.Cluster.{
  ContainerStatus, Condition, Pod, Deploy, GetDeploy, found, not_found, get_failed, View, success,
  unstable, inconclusive, Reason, no_reason, cancelled_in_soak, refetch_failed, regressed_in_soak,
  restarted_in_soak, left_ready, Verdict, new_pods, desired,
}

-- the loops that fill `preRestarts`
unfoldable pub record_containers : GoString → List ContainerStatus → Map ℕ → Map ℕ
record_containers pod [] m = m
record_containers pod (cs ∷ rest) m =
    record_containers pod rest (insert (join_key pod cs.name) cs.restart_count m)

unfoldable pub record_pods : List Pod → Map ℕ → Map ℕ
record_pods [] m = m
record_pods (pod ∷ rest) m = record_pods rest (record_containers pod.name pod.statuses m)

-- empty where the pods cannot be found
unfoldable pub pre_restarts : View → Deploy → Map ℕ
pre_restarts v d = on_some (new_pods v d) [] (λ pods. record_pods pods [])

-- the container has restarted since its count was recorded
unfoldable pub has_restarted : Map ℕ → GoString → ContainerStatus → Bool
has_restarted pre pod cs =
    on_some (lookup (join_key pod cs.name) pre) false (λ n. ltb n cs.restart_count)

-- the loop over the containers of a pod
unfoldable pub restarted_in : Map ℕ → GoString → List ContainerStatus → Option Reason
restarted_in pre pod [] = none
restarted_in pre pod (cs ∷ rest) =
    on_some (lookup (join_key pod cs.name) pre) (restarted_in pre pod rest) (λ n.
      if ltb n cs.restart_count
      then some (restarted_in_soak cs.name pod n cs.restart_count)
      else restarted_in pre pod rest)

unfoldable pub is_not_ready : Condition → Bool
is_not_ready c = c.type == str "Ready" && not (c.status == str "True")

unfoldable pub check_pods_after : Map ℕ → List Pod → Option Reason
check_pods_after pre [] = none
check_pods_after pre (pod ∷ rest) = elim (restarted_in pre pod.name pod.statuses) [
  | some r ↦ some r
  | none ↦
      if any is_not_ready pod.conditions
      then some (left_ready pod.name)
      else check_pods_after pre rest
]

unfoldable pub is_converged : Deploy → Bool
is_converged d = eqb d.updated (desired d) && eqb d.available (desired d) && eqb d.unavailable 0

unfoldable pub judge_after : Map ℕ → View → GetDeploy → Verdict
judge_after pre v not_found = record { result = inconclusive; reason = refetch_failed }
judge_after pre v get_failed = record { result = inconclusive; reason = refetch_failed }
judge_after pre v (found d) =
    if is_converged d
    then on_some (on_some (new_pods v d) none (λ pods. check_pods_after pre pods))
        (record { result = success; reason = no_reason })
        (λ r. record { result = unstable; reason = r })
    else record { result = unstable; reason = regressed_in_soak }

-- `before` and `after` are what the cluster shows at both ends of the soak period; `cancelled` says
-- if the context ends within it.
pub record SoakPeriod : Type 0 where
  pub before : View
  pub cancelled : Bool
  pub after : View

unfoldable pub soak : SoakPeriod → Deploy → Verdict
soak p d =
    if p.cancelled
    then record { result = inconclusive; reason = cancelled_in_soak }
    else judge_after (pre_restarts p.before d) p.after (p.after).deploy
