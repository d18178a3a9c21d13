-- ===== src/Diagnostic/Conditions.antt =====
-- `checkFailureConditions` of analyzer.go: early signs of a failing rollout.
pub mod Timer
use k8s_deploy_monitor_opera.Prelude.{
  ℕ, ◌+◌, ◌-◌, ◌%◌, ◌^◌, Bool, true, false, not, ◌&&◌, ◌||◌, Option, none, some, List, [], ◌∷◌,
  ◌++◌, GoString, str, any, map, ltb, leb, eqb, ◌==◌, on_some, is_some, if◌then◌else◌,
}
use k8s_deploy_monitor_opera.Diagnostic.Cluster.{
  AnalyzerConfig, ContainerStatus, Condition, Pod, Deploy, View, Reason, waiting_persisted,
  restart_threshold_exceeded, deadline_exceeded, new_pods,
}

unfoldable pub is_deadline_exceeded : Condition → Bool
is_deadline_exceeded c =
    c.type == str "Progressing"
    && c.status == str "False"
    && c.reason == str "ProgressDeadlineExceeded"

-- The state of the loops: the timer, `hasWaitingBeforeStart`, and `totalRestarts`, an int32 given by
-- its bits.
pub record Scan : Type 0 where
  pub config_error_first_seen : Option ℕ
  pub has_waiting : Bool
  pub total_restarts : ℕ

-- a return from inside the loops, or their end
pub data Scanned : Type 0 where
  failed_with : Reason → Scanned
  scanned : Scan → Scanned

unfoldable pub add_int32 : ℕ → ℕ → ℕ
add_int32 a b = (a + b) % 2 ^ 32

-- `a >= b` of int32, where `b` is not negative
unfoldable pub int32_ge : ℕ → ℕ → Bool
int32_ge a b = ltb a (2 ^ 31) && leb b a

-- A reason to wait that is not the kubelet at work, of a container that has never restarted.
unfoldable pub stuck_reason : ContainerStatus → Option GoString
stuck_reason cs = on_some cs.waiting none (λ reason.
    if not (reason == []) && eqb cs.restart_count 0 && not (reason == str "ContainerCreating")
    then some reason
    else none)

unfoldable pub add_restarts : ContainerStatus → Scan → Scan
add_restarts cs s = record s { total_restarts = add_int32 s.total_restarts cs.restart_count }

unfoldable pub scan_stuck :
    AnalyzerConfig → ℕ → GoString → GoString → ContainerStatus → Option ℕ → Scan → Scanned
scan_stuck cfg now reason pod cs none s =
    scanned (add_restarts cs (record s { config_error_first_seen = some now; has_waiting = true }))
scan_stuck cfg now reason pod cs (some t) s =
    if leb cfg.config_error_window (now - t)
    then failed_with (waiting_persisted reason pod cs.name)
    else scanned (add_restarts cs (record s { has_waiting = true }))

-- The body of the inner loop. A container that is being created is skipped; its restart count is 0.
unfoldable pub scan_container : AnalyzerConfig → ℕ → GoString → ContainerStatus → Scan → Scanned
scan_container cfg now pod cs s =
    on_some (stuck_reason cs) (scanned (add_restarts cs s))
      (λ reason. scan_stuck cfg now reason pod cs s.config_error_first_seen s)

-- the containers of the pods in the order of the loops, with the names of their pods
unfoldable pub containers_of : List Pod → List (GoString × ContainerStatus)
containers_of [] = []
containers_of (pod ∷ rest) =
    map (λ cs. (pod.name, cs)) (pod.init_statuses ++ pod.statuses) ++ containers_of rest

unfoldable pub scan_all : AnalyzerConfig → ℕ → List (GoString × ContainerStatus) → Scan → Scanned
scan_all cfg now [] s = scanned s
scan_all cfg now ((pod, cs) ∷ rest) s = elim (scan_container cfg now pod cs s) [
  | failed_with r ↦ failed_with r
  | scanned s' ↦ scan_all cfg now rest s'
]

-- what follows the loops: the timer is reset if no container is stuck, and restarts are counted
unfoldable pub after_scan : AnalyzerConfig → ℕ → ℕ → Scan → Option Reason × Option ℕ
after_scan cfg now last_progress_at s = (
  if int32_ge s.total_restarts cfg.restart_threshold
        && ltb (now - last_progress_at) cfg.restart_window
      then some (restart_threshold_exceeded s.total_restarts)
      else none,
  if s.has_waiting then s.config_error_first_seen else none,
)

unfoldable pub check_pods : AnalyzerConfig → ℕ → ℕ → Option ℕ → List Pod → Option Reason × Option ℕ
check_pods cfg now last_progress_at first_seen pods =
    elim (scan_all cfg now (containers_of pods)
      (record { config_error_first_seen = first_seen; has_waiting = false; total_restarts = 0 })) [
        | failed_with r ↦ (some r, first_seen)
        | scanned s ↦ after_scan cfg now last_progress_at s
      ]

-- The reason of a failure, if there is one, and the timer afterwards.
unfoldable pub check_failure_conditions :
    AnalyzerConfig → View → Deploy → ℕ → ℕ → Option ℕ → Option Reason × Option ℕ
check_failure_conditions cfg v d now last_progress_at first_seen =
    if any is_deadline_exceeded d.conditions
    then (some deadline_exceeded, first_seen)
    else on_some (new_pods v d) (none, first_seen)
        (λ pods. check_pods cfg now last_progress_at first_seen pods)
