-- ===== src/Diagnostic/Report/Evidence.antt =====
-- What stands in a report.
use k8s_deploy_monitor_opera.Prelude.{
  ℕ, Bool, true, false, ◌&&◌, Option, none, some, List, [], ◌∷◌, GoString, any, length, All,
  All-append, ◌==◌, eq_refl, on_some, on_some_both, if_both, if◌then◌else◌, ◌≡◌, refl, arith,
  Bool-cases, Option-cases, inl, inr, eqb,
}
use k8s_deploy_monitor_opera.Event.{RolloutEvent}
use k8s_deploy_monitor_opera.Diagnostic.Cluster.{
  AnalyzerConfig, ContainerStatus, Pod, GetDeploy, found, not_found, get_failed, View, Verdict,
  new_pods,
}
use k8s_deploy_monitor_opera.Diagnostic.Soak.{SoakPeriod}
use k8s_deploy_monitor_opera.Diagnostic.Monitor.{Poll, monitor_rollout}
use k8s_deploy_monitor_opera.Diagnostic.Logs.{filter_error_lines}
use k8s_deploy_monitor_opera.Diagnostic.Report.{
  LogSnippet, DiagnosticReport, Sources, is_pod_failing, snippet_with, snippet_of, fetch_logs,
  to_list, collect_container_logs, collect_logs, gather_from, gather_diagnostics, needs_diagnostics,
  report_on, analyze,
}

-- a snippet with at least one line, of a failing pod of the list
abbrev pub IsEvidence : List Pod → LogSnippet → Type 0
IsEvidence pods s =
    (any (λ pod. pod.name == s.pod_name && is_pod_failing pod) pods ≡ true)
    × (eqb (length s.lines) 0 ≡ false)

abbrev IsOf : GoString → LogSnippet → Type 0
IsOf pod s = (pod == s.pod_name ≡ true) × (eqb (length s.lines) 0 ≡ false)

snippet_with-IsOf :
    (pod container : GoString) (init previous : Bool) (total : ℕ) (lines : List GoString)
    → All (IsOf pod) (to_list (snippet_with pod container init previous total lines))
unfolding snippet_with
snippet_with-IsOf pod container init previous total [] = tt
snippet_with-IsOf pod container init previous total (l ∷ ls) = ((eq_refl pod, ground arith), tt)

snippet_of-IsOf :
    (pod container : GoString) (init previous : Bool) (log : GoString)
    → All (IsOf pod) (to_list (snippet_of pod container init previous log))
unfolding snippet_of
snippet_of-IsOf pod container init previous [] = tt
snippet_of-IsOf pod container init previous (b ∷ log) =
    snippet_with-IsOf pod container init previous _ (filter_error_lines (b ∷ log))

module _ (cfg : AnalyzerConfig) (src : Sources) (start : ℕ) where
  fetch_logs-IsOf :
      (pod : Pod) (container : GoString) (init previous : Bool) (tail : ℕ) (since : Option ℕ)
      → All (IsOf pod.name) (to_list (fetch_logs src pod container init previous tail since))
  unfolding fetch_logs
  fetch_logs-IsOf pod container init previous tail since =
      on_some_both {B = Option LogSnippet} (λ o. All (IsOf pod.name) (to_list o))
        (src.log pod container previous tail (if previous then none else since)) none _ (λ _. tt)
        (λ log _. snippet_of-IsOf pod.name container init previous log)

  collect_container_logs-IsOf :
      (pod : Pod) (init : Bool) (cs : List ContainerStatus)
      → All (IsOf pod.name) (collect_container_logs cfg src start pod init cs)
  unfolding collect_container_logs
  collect_container_logs-IsOf pod init [] = tt
  collect_container_logs-IsOf pod init (c ∷ cs) =
      All-append (IsOf pod.name) _ _
        (All-append (IsOf pod.name) _ _
          (fetch_logs-IsOf pod c.name init false cfg.log_tail_lines (some start))
          (fetch_logs-IsOf pod c.name init true cfg.log_tail_lines none))
        (collect_container_logs-IsOf pod init cs)

  IsEvidence-first :
      (pod : Pod) (pods : List Pod) (ss : List LogSnippet)
      → is_pod_failing pod ≡ true
      → All (IsOf pod.name) ss
      → All (IsEvidence (pod ∷ pods)) ss
  IsEvidence-first pod pods [] f h = tt
  IsEvidence-first pod pods (s ∷ ss) f h =
      ((ground (arith, f, h.0.0), h.0.1), IsEvidence-first pod pods ss f h.1)

  IsEvidence-later :
      (pod : Pod) (pods : List Pod) (ss : List LogSnippet)
      → All (IsEvidence pods) ss
      → All (IsEvidence (pod ∷ pods)) ss
  IsEvidence-later pod pods [] h = tt
  IsEvidence-later pod pods (s ∷ ss) h =
      ((ground (arith, h.0.0), h.0.1), IsEvidence-later pod pods ss h.1)

  collect_logs-IsEvidence :
      (pods : List Pod) → All (IsEvidence pods) (collect_logs cfg src start pods)
  unfolding collect_logs
  collect_logs-IsEvidence [] = tt
  collect_logs-IsEvidence (pod ∷ pods) = elim (Bool-cases (is_pod_failing pod)) [
    | inl f ↦
        rw (f, collect_logs)
          (All-append (IsEvidence (pod ∷ pods)) _ _
            (All-append (IsEvidence (pod ∷ pods)) _ _
              (IsEvidence-first pod pods _ f
                (collect_container_logs-IsOf pod true pod.init_statuses))
              (IsEvidence-first pod pods _ f (collect_container_logs-IsOf pod false pod.statuses)))
            (IsEvidence-later pod pods _ (collect_logs-IsEvidence pods)))
    | inr f ↦ rw (f, collect_logs) (IsEvidence-later pod pods _ (collect_logs-IsEvidence pods))
  ]

-- the pods of the new replica set at the time when diagnostics are gathered
abbrev pub pods_in : View → GetDeploy → List Pod
pods_in v (found d) = on_some (new_pods v d) [] (λ pods. pods)
pods_in v _ = []

gather_from-IsEvidence :
    (cfg : AnalyzerConfig) (src : Sources) (g : GetDeploy) (report : DiagnosticReport)
    → report.log_snippets ≡ []
    → All (IsEvidence (pods_in src.view g)) (gather_from cfg src g report).log_snippets
unfolding gather_from
gather_from-IsEvidence cfg src not_found report h = rw h tt
gather_from-IsEvidence cfg src get_failed report h = rw h tt
gather_from-IsEvidence cfg src (found d) report h = elim (Option-cases (new_pods src.view d)) [
  | inl e ↦ rw (e, gather_from, h) tt
  | inr (pods, e) ↦
      rw (e, gather_from, h) (collect_logs-IsEvidence cfg src (report.event).timestamp pods)
]

report_on-IsEvidence :
    (cfg : AnalyzerConfig) (src : Sources) (event : RolloutEvent) (v : Verdict)
    → All (IsEvidence (pods_in src.view (src.view).deploy)) (report_on cfg src event v).log_snippets
unfolding report_on gather_diagnostics
report_on-IsEvidence cfg src event v =
    if_both
      (λ (r : DiagnosticReport).
        All (IsEvidence (pods_in src.view (src.view).deploy)) r.log_snippets)
      (needs_diagnostics v.result) _ _ (gather_from-IsEvidence cfg src (src.view).deploy _ refl) tt

-- Every log snippet of a report has at least one line and is of a failing pod, one of those that
-- the new replica set has when the diagnostics are gathered.
pub analyze-IsEvidence :
    (cfg : AnalyzerConfig) (start : ℕ) (period : SoakPeriod) (polls : List Poll) (src : Sources)
    (event : RolloutEvent) (report : DiagnosticReport)
    → analyze cfg start period polls src event ≡ some report
    → All (IsEvidence (pods_in src.view (src.view).deploy)) report.log_snippets
unfolding analyze
analyze-IsEvidence cfg start period polls src event report e =
    elim (Option-cases (monitor_rollout cfg start period polls)) [
      | inl no_verdict ↦ absurd (ground (arith, no_verdict, e))
      | inr (v, verdict) ↦
          let p : report_on cfg src event v ≡ report = ground (arith, verdict, e) in
          rw (← p) (report_on-IsEvidence cfg src event v)
    ]
