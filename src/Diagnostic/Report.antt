-- ===== src/Diagnostic/Report.antt =====
-- `Analyze` and `gatherDiagnostics` of analyzer.go, and the reports of report.go.
pub mod Evidence
use k8s_deploy_monitor_opera.Prelude.{
  ℕ, ◌+◌, Bool, true, false, not, ◌&&◌, ◌||◌, Option, none, some, List, [], ◌∷◌, ◌++◌, GoString,
  str, any, map, ltb, eqb, ◌==◌, join_key, on_some, if◌then◌else◌,
}
use k8s_deploy_monitor_opera.Event.{RolloutEvent}
use k8s_deploy_monitor_opera.Diagnostic.Cluster.{
  AnalyzerConfig, Terminated, ContainerStatus, Pod, Deploy, GetDeploy, found, not_found, get_failed,
  View, Result, success, Reason, Verdict, new_pods,
}
use k8s_deploy_monitor_opera.Diagnostic.Logs.{count_lines, filter_error_lines, has_prefix}
use k8s_deploy_monitor_opera.Diagnostic.Soak.{SoakPeriod}
use k8s_deploy_monitor_opera.Diagnostic.Monitor.{Poll, monitor_rollout}

pub record K8sEvent : Type 0 where
  pub reason : GoString
  pub message : GoString
  pub count : ℕ
  pub object : GoString
  pub first_seen : ℕ
  pub last_seen : ℕ

pub record PodStatus : Type 0 where
  pub name : GoString
  pub phase : GoString
  pub container_name : GoString
  pub reason : GoString
  pub restart_count : ℕ
  pub ready : Bool
  pub init_container : Bool

pub record LogSnippet : Type 0 where
  pub pod_name : GoString
  pub container_name : GoString
  pub init_container : Bool
  pub previous : Bool
  pub lines : List GoString
  pub total_lines : ℕ

pub record DiagnosticReport : Type 0 where
  pub event : RolloutEvent
  pub result : Result
  pub failure_reason : Reason
  pub events : List K8sEvent
  pub pod_statuses : List PodStatus
  pub log_snippets : List LogSnippet

-- a Warning event as the API lists it
pub record ApiEvent : Type 0 where
  pub reason : GoString
  pub message : GoString
  pub count : ℕ
  pub kind : GoString
  pub name : GoString
  pub first_timestamp : ℕ
  pub last_timestamp : ℕ

-- What the API answers while diagnostics are gathered; a log is asked for by pod, container, if it
-- is the previous one, the number of lines and the time to begin with, and `none` is an error.
pub record Sources : Type 0 where
  pub view : View
  pub warnings : Option (List ApiEvent)
  pub log : Pod → GoString → Bool → ℕ → Option ℕ → Option GoString

-- the loop of `collectEvents`
unfoldable pub related_events : GoString → List ApiEvent → List K8sEvent
related_events prefix [] = []
related_events prefix (ev ∷ rest) =
    let others = related_events prefix rest in
    if has_prefix prefix ev.name
    then record {
      reason = ev.reason;
      message = ev.message;
      count = ev.count;
      object = join_key ev.kind ev.name;
      first_seen = ev.first_timestamp;
      last_seen = ev.last_timestamp;
    }
      ∷ others
    else others

unfoldable pub collect_events : Sources → RolloutEvent → List K8sEvent
collect_events src event = on_some src.warnings [] (λ evs. related_events event.deployment_name evs)

unfoldable pub terminated_reason : Option Terminated → GoString
terminated_reason o = on_some o [] (λ t. t.reason)

unfoldable pub waiting_reason : ContainerStatus → GoString
waiting_reason cs =
    let waiting : GoString = on_some cs.waiting [] (λ reason. reason) in
    if not (waiting == [])
    then waiting
    else if not (terminated_reason cs.terminated == [])
    then terminated_reason cs.terminated
    else terminated_reason cs.last_terminated

abbrev pub failing_reasons : List GoString
failing_reasons =
    str "CrashLoopBackOff"
    ∷ str "ImagePullBackOff"
    ∷ str "ErrImagePull"
    ∷ str "CreateContainerConfigError"
    ∷ str "InvalidImageName"
    ∷ []

-- the body of the loop of `isPodFailing`
unfoldable pub is_container_failing : ContainerStatus → Bool
is_container_failing cs =
    ltb 0 cs.restart_count
    || on_some cs.waiting false (λ reason. any (λ r. r == reason) failing_reasons)
    || on_some cs.terminated false (λ t. not (eqb t.exit_code 0))

unfoldable pub is_pod_failing : Pod → Bool
is_pod_failing pod = any is_container_failing (pod.init_statuses ++ pod.statuses)

unfoldable pub pod_status : Pod → Bool → ContainerStatus → PodStatus
pod_status pod init cs = record {
  name = pod.name;
  phase = pod.phase;
  container_name = cs.name;
  reason = waiting_reason cs;
  restart_count = cs.restart_count;
  ready = cs.ready;
  init_container = init;
}

-- the loop that fills `report.PodStatuses`
unfoldable pub pod_statuses_of : List Pod → List PodStatus
pod_statuses_of [] = []
pod_statuses_of (pod ∷ rest) =
    map (pod_status pod true) pod.init_statuses
    ++ map (pod_status pod false) pod.statuses
    ++ pod_statuses_of rest

-- the end of `fetchLogs`, by the lines that the filter leaves
unfoldable pub snippet_with :
    GoString → GoString → Bool → Bool → ℕ → List GoString → Option LogSnippet
snippet_with pod container init previous total [] = none
snippet_with pod container init previous total (l ∷ ls) = some (record {
  pod_name = pod;
  container_name = container;
  init_container = init;
  previous = previous;
  lines = l ∷ ls;
  total_lines = total;
})

-- `fetchLogs`, where the log could be read; the snippet also has what its caller sets
unfoldable pub snippet_of : GoString → GoString → Bool → Bool → GoString → Option LogSnippet
snippet_of pod container init previous [] = none
snippet_of pod container init previous (b ∷ log) =
    snippet_with pod container init previous (count_lines (b ∷ log)) (filter_error_lines (b ∷ log))

unfoldable pub fetch_logs :
    Sources → Pod → GoString → Bool → Bool → ℕ → Option ℕ → Option LogSnippet
fetch_logs src pod container init previous tail since =
    on_some (src.log pod container previous tail (if previous then none else since)) none
      (λ log. snippet_of pod.name container init previous log)

abbrev pub to_list : Option LogSnippet → List LogSnippet
to_list none = []
to_list (some s) = s ∷ []

-- the current log, from the start of the rollout, and the previous one
unfoldable pub collect_container_logs :
    AnalyzerConfig → Sources → ℕ → Pod → Bool → List ContainerStatus → List LogSnippet
collect_container_logs cfg src start pod init [] = []
collect_container_logs cfg src start pod init (cs ∷ rest) =
    to_list (fetch_logs src pod cs.name init false cfg.log_tail_lines (some start))
    ++ to_list (fetch_logs src pod cs.name init true cfg.log_tail_lines none)
    ++ collect_container_logs cfg src start pod init rest

-- Step 8: the logs of the failing pods
unfoldable pub collect_logs : AnalyzerConfig → Sources → ℕ → List Pod → List LogSnippet
collect_logs cfg src start [] = []
collect_logs cfg src start (pod ∷ rest) =
    let others = collect_logs cfg src start rest in
    if is_pod_failing pod
    then collect_container_logs cfg src start pod true pod.init_statuses
      ++ collect_container_logs cfg src start pod false pod.statuses
      ++ others
    else others

unfoldable pub gather_from :
    AnalyzerConfig → Sources → GetDeploy → DiagnosticReport → DiagnosticReport
gather_from cfg src not_found report = report
gather_from cfg src get_failed report = report
gather_from cfg src (found d) report =
    let report' : DiagnosticReport = record report { events = collect_events src report.event } in
    on_some (new_pods src.view d) report' (λ pods. record report' {
      pod_statuses = report.pod_statuses ++ pod_statuses_of pods;
      log_snippets = report.log_snippets ++ collect_logs cfg src (report.event).timestamp pods;
    })

unfoldable pub gather_diagnostics : AnalyzerConfig → Sources → DiagnosticReport → DiagnosticReport
gather_diagnostics cfg src report = gather_from cfg src (src.view).deploy report

abbrev pub needs_diagnostics : Result → Bool
needs_diagnostics success = false
needs_diagnostics _ = true

unfoldable pub report_on : AnalyzerConfig → Sources → RolloutEvent → Verdict → DiagnosticReport
report_on cfg src event v =
    let report : DiagnosticReport = record {
      event = event;
      result = v.result;
      failure_reason = v.reason;
      events = [];
      pod_statuses = [];
      log_snippets = [];
    } in
    if needs_diagnostics v.result then gather_diagnostics cfg src report else report

-- `Analyze` with a known cluster, started at `start`; the duration of the report is left out.
unfoldable pub analyze :
    AnalyzerConfig → ℕ → SoakPeriod → List Poll → Sources → RolloutEvent → Option DiagnosticReport
analyze cfg start period polls src event =
    on_some (monitor_rollout cfg start period polls) none (λ v. some (report_on cfg src event v))
