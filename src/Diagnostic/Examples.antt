-- ===== src/Diagnostic/Examples.antt =====
-- Concrete runs of the analyzer and of its target.
use k8s_deploy_monitor_opera.Prelude.{
  ◌*◌, ◌≡◌, refl, true, false, ◌&&◌, ◌||◌, none, some, List, [], ◌∷◌, ◌++◌, GoString, str, map, any,
  All, is_some, ◌==◌, lookup, insert, if◌then◌else◌, arith,
}
use k8s_deploy_monitor_opera.Event.{RolloutEvent}
use k8s_deploy_monitor_opera.Watcher.Manager.{ClusterInfo, second}
use k8s_deploy_monitor_opera.Diagnostic.Cluster.{
  AnalyzerConfig, ContainerStatus, Pod, ReplicaSet, Deploy, found, not_found, View, success,
  deleted, no_reason, was_deleted, new_pods, new_replica_set_in, find_new_replica_set,
  pods_for_replica_set, owned_by, desired,
}
use k8s_deploy_monitor_opera.Diagnostic.Conditions.{
  containers_of, check_pods, check_failure_conditions, scan_all, scan_container, stuck_reason,
  add_restarts, add_int32, after_scan, int32_ge,
}
use k8s_deploy_monitor_opera.Diagnostic.Conditions.Timer.{
  is_stuck, has_expired, started_at, has_restarts, check_pods-Judged,
}
use k8s_deploy_monitor_opera.Diagnostic.Soak.{
  SoakPeriod, soak, judge_after, pre_restarts, record_pods, record_containers, check_pods_after,
  restarted_in, is_converged, is_not_ready,
}
use k8s_deploy_monitor_opera.Diagnostic.Monitor.{
  Poll, tick, poll, after_get, observe, check_convergence, record_progress, monitor_loop,
  monitor_rollout,
}
use k8s_deploy_monitor_opera.Diagnostic.Monitor.Timeout.{monitor_rollout-returns}
use k8s_deploy_monitor_opera.Diagnostic.Monitor.Success.{SoakedClean, monitor_rollout-success}
use k8s_deploy_monitor_opera.Diagnostic.Logs.{scan_lines, filter_error_lines}
use k8s_deploy_monitor_opera.Diagnostic.Logs.Distinct.{
  with_count, distinct, filter_error_lines-distinct,
}
use k8s_deploy_monitor_opera.Diagnostic.Report.{Sources, analyze, report_on}
use k8s_deploy_monitor_opera.Diagnostic.Report.Evidence.{IsEvidence, pods_in, analyze-IsEvidence}
use k8s_deploy_monitor_opera.Diagnostic.Target.{AsyncDiagnosticTarget}
use k8s_deploy_monitor_opera.Diagnostic.Target.Slots.{Move, dispatch_move, finish_move, cancel_move}

abbrev config : AnalyzerConfig
config = record {
  inactivity_timeout = 300 * second;
  absolute_timeout = 600 * second;
  soak_period = 60 * second;
  restart_threshold = 3;
  restart_window = 300 * second;
  config_error_window = 90 * second;
  log_tail_lines = 500;
}

abbrev deploy : Deploy
deploy = record {
  uid = str "d1";
  revision = str "2";
  generation = 4;
  observed_generation = 4;
  paused = false;
  replicas = some 1;
  updated = 1;
  available = 1;
  unavailable = 0;
  conditions = [];
}

abbrev container : ContainerStatus
container = record {
  name = str "app";
  restart_count = 1;
  ready = true;
  waiting = none;
  terminated = none;
  last_terminated = none;
}

abbrev pod : Pod
pod = record {
  name = str "cart-1";
  phase = str "Running";
  owners = str "rs2" ∷ [];
  init_statuses = [];
  statuses = container ∷ [];
  conditions = [];
}

abbrev replica_set : ReplicaSet
replica_set = record { uid = str "rs2"; owners = str "d1" ∷ []; revision = str "2" }

abbrev view : View
view = record {
  deploy = found deploy;
  replica_sets = λ d. some (replica_set ∷ []);
  pods = λ rs. some (pod ∷ []);
}

abbrev gone : View
gone = record view { deploy = not_found }

abbrev period : SoakPeriod
period = record { before = view; cancelled = false; after = view }

-- the last of these ticks is late
abbrev polls : List Poll
polls = tick (10 * second) view ∷ tick (700 * second) view ∷ []

monitor_rollout-returns_example : is_some (monitor_rollout config 0 period polls) ≡ true
monitor_rollout-returns_example = monitor_rollout-returns config 0 period polls refl

monitor_rollout-some :
    monitor_rollout config 0 period polls ≡ some (record { result = success; reason = no_reason })
unfolding monitor_rollout monitor_loop poll after_get observe check_failure_conditions
    check_convergence record_progress is_converged new_pods find_new_replica_set new_replica_set_in
    ◌==◌ pods_for_replica_set check_pods scan_all containers_of owned_by scan_container stuck_reason
    after_scan int32_ge add_restarts add_int32 desired soak check_pods_after judge_after
    pre_restarts record_containers record_pods restarted_in insert lookup is_not_ready
monitor_rollout-some = refl

monitor_rollout-success_example : SoakedClean (600 * second) period polls
monitor_rollout-success_example =
    monitor_rollout-success config 0 period polls (record { result = success; reason = no_reason })
      monitor_rollout-some refl

check_pods-Judged_example :
    let (o, timer) = check_pods config (20 * second) 0 none (pod ∷ []) in
    let cs = containers_of (pod ∷ []) in
    let expired = any is_stuck cs && has_expired config (20 * second) none in
    (is_some o ≡ (expired || has_restarts config (20 * second) (omega arith) 0 cs))
    × (timer ≡ (
        if expired then none else if any is_stuck cs then started_at (20 * second) none else none))
check_pods-Judged_example = check_pods-Judged config (20 * second) (omega arith) 0 none (pod ∷ [])

abbrev log : GoString
log = str "Error: x" ++ 10 ∷ str "ok" ++ 10 ∷ str "Error: x" ++ 10 ∷ []

filter_error_lines-distinct_example :
    filter_error_lines log
    ≡ map (with_count (scan_lines [] log)) (distinct (λ k. false) (scan_lines [] log))
filter_error_lines-distinct_example = filter_error_lines-distinct log

abbrev event : RolloutEvent
event = record {
  cluster_id = str "east";
  namespace = str "shop";
  deployment_name = str "cart";
  old_template_hash = str "v1";
  new_template_hash = str "v2";
  old_images = [];
  new_images = [];
  app = [];
  slack_channel = [];
  timestamp = 5;
}

abbrev sources : Sources
sources = record { view = view; warnings = some []; log = λ p c previous n since. some log }

-- the deployment is gone at the poll, and back when the diagnostics are gathered
analyze-some :
    analyze config 0 period (tick (10 * second) gone ∷ []) sources event
    ≡ some (report_on config sources event (record { result = deleted; reason = was_deleted }))
unfolding analyze monitor_rollout monitor_loop poll after_get
analyze-some = refl

analyze-IsEvidence_example :
    All
      (IsEvidence (pods_in view (found deploy)))
      (report_on config sources event
        (record { result = deleted; reason = was_deleted })).log_snippets
analyze-IsEvidence_example =
    analyze-IsEvidence config 0 period (tick (10 * second) gone ∷ []) sources event
      (report_on config sources event (record { result = deleted; reason = was_deleted }))
      analyze-some

abbrev some_moves : List Move
some_moves =
    dispatch_move event
    ∷ dispatch_move event
    ∷ dispatch_move event
    ∷ finish_move 0
    ∷ cancel_move
    ∷ []

abbrev stopped : AsyncDiagnosticTarget
stopped = record { max_concurrent = 2; running = (0, event) ∷ []; accepted = 1; stopped = true }

abbrev clusters : List (ClusterInfo Unit)
clusters =
    record { id = str "east"; rest_config = some tt }
    ∷ record { id = str "west"; rest_config = none }
    ∷ []
