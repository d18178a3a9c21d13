-- ===== src/Diagnostic/Soak/Clean.antt =====
-- The verdict of `soak` of analyzer.go, by what both ends of the soak period show.
use k8s_deploy_monitor_opera.Prelude.{
  ℕ, Bool, true, false, not, ◌&&◌, ◌||◌, List, [], ◌∷◌, GoString, Map, any, ◌≡◌, refl, arith,
  is_some, on_some, Option-cases, inl, inr,
}
use k8s_deploy_monitor_opera.Diagnostic.Cluster.{
  ContainerStatus, Pod, Deploy, GetDeploy, found, not_found, get_failed, View, Result, success,
  new_pods,
}
use k8s_deploy_monitor_opera.Diagnostic.Soak.{
  SoakPeriod, soak, judge_after, pre_restarts, has_restarted, restarted_in, is_not_ready,
  check_pods_after, is_converged,
}

abbrev pub is_success : Result → Bool
is_success success = true
is_success _ = false

-- a pod with a restarted container or a Ready condition that is not true
abbrev pub has_regressed : Map ℕ → Pod → Bool
has_regressed pre pod =
    any (has_restarted pre pod.name) pod.statuses || any is_not_ready pod.conditions

-- The deployment is still converged, and no pod of its new replica set has regressed.
abbrev pub is_clean : Map ℕ → View → GetDeploy → Bool
is_clean pre v (found d) =
    is_converged d && on_some (new_pods v d) true (λ pods. not (any (has_regressed pre) pods))
is_clean pre v _ = false

restarted_in-any :
    (pre : Map ℕ) (pod : GoString) (cs : List ContainerStatus)
    → is_some (restarted_in pre pod cs) ≡ any (has_restarted pre pod) cs
unfolding restarted_in has_restarted
restarted_in-any pre pod [] = refl
restarted_in-any pre pod (c ∷ cs) = ground (arith, restarted_in-any pre pod cs)

check_pods_after-any :
    (pre : Map ℕ) (pods : List Pod)
    → is_some (check_pods_after pre pods) ≡ any (has_regressed pre) pods
unfolding check_pods_after
check_pods_after-any pre [] = refl
check_pods_after-any pre (pod ∷ pods) =
    ground (arith, restarted_in-any pre pod.name pod.statuses, check_pods_after-any pre pods)

judge_after-clean :
    (pre : Map ℕ) (v : View) (g : GetDeploy)
    → is_success (judge_after pre v g).result ≡ is_clean pre v g
unfolding judge_after
judge_after-clean pre v not_found = refl
judge_after-clean pre v get_failed = refl
judge_after-clean pre v (found d) = elim (Option-cases (new_pods v d)) [
  | inl e ↦ rw e (ground arith)
  | inr (pods, e) ↦ rw e (ground (arith, check_pods_after-any pre pods))
]

-- The soak succeeds exactly if it is not cancelled, the deployment is found and still converged,
-- and no pod of its new replica set (if they can be read) has a container that restarted since the
-- soak began or a Ready condition that is not true.
pub soak-success :
    (p : SoakPeriod) (d : Deploy)
    → is_success (soak p d).result
      ≡ (not p.cancelled && is_clean (pre_restarts p.before d) p.after (p.after).deploy)
unfolding soak
soak-success p d =
    ground (arith, judge_after-clean (pre_restarts p.before d) p.after (p.after).deploy)
