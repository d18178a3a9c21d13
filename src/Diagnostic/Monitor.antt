-- ===== src/Diagnostic/Monitor.antt =====
-- `monitorRollout` of analyzer.go: polls until there is a verdict.
pub mod Timeout
pub mod Success
use k8s_deploy_monitor_opera.Prelude.{
  ℕ, ◌+◌, ◌-◌, Bool, true, false, not, ◌&&◌, ◌||◌, Option, none, some, List, [], ◌∷◌, ltb, leb, eqb,
  on_some, if◌then◌else◌,
}
use k8s_deploy_monitor_opera.Diagnostic.Cluster.{
  AnalyzerConfig, Deploy, GetDeploy, found, not_found, get_failed, View, Result, failed, stalled,
  inconclusive, paused, deleted, Reason, context_cancelled, timeout_paused, timeout_progressing,
  timeout_stalled, was_deleted, no_progress, Verdict,
}
use k8s_deploy_monitor_opera.Diagnostic.Conditions.{check_failure_conditions}
use k8s_deploy_monitor_opera.Diagnostic.Soak.{SoakPeriod, is_converged, soak}

pub record ProgressState : Type 0 where
  pub last_updated : ℕ
  pub last_available : ℕ
  pub last_unavailable : ℕ
  pub last_progress_at : ℕ

unfoldable pub record_progress : ℕ → ℕ → ℕ → ℕ → ProgressState → ProgressState
record_progress updated available unavailable now p = record {
  last_updated = updated;
  last_available = available;
  last_unavailable = unavailable;
  last_progress_at =
      if ltb p.last_updated updated
        || ltb p.last_available available
        || ltb unavailable p.last_unavailable
      then now
      else p.last_progress_at;
}

-- the variables that live across polls
pub record MonitorState : Type 0 where
  pub progress : ProgressState
  pub config_error_first_seen : Option ℕ
  pub last_seen_paused : Bool

-- a poll returns, goes on to the next, or starts the soak
pub data Step : Type 0 where
  return : Verdict → Step
  continue : MonitorState → Step
  enter_soak : Deploy → Step

unfoldable pub on_timeout : AnalyzerConfig → ℕ → MonitorState → Verdict
on_timeout cfg now st =
    if st.last_seen_paused
    then record { result = paused; reason = timeout_paused }
    else if ltb (now - (st.progress).last_progress_at) cfg.inactivity_timeout
    then record { result = inconclusive; reason = timeout_progressing }
    else record { result = stalled; reason = timeout_stalled }

-- Step 3, after the failure conditions
unfoldable pub check_convergence : AnalyzerConfig → ℕ → Deploy → MonitorState → Step
check_convergence cfg now d st =
    let p : ProgressState = record_progress d.updated d.available d.unavailable now st.progress in
    if ltb cfg.inactivity_timeout (now - p.last_progress_at)
    then return (record { result = stalled; reason = no_progress })
    else if is_converged d
    then enter_soak d
    else continue (record st { progress = p })

unfoldable pub observe : AnalyzerConfig → View → ℕ → Deploy → MonitorState → Step
observe cfg v now d st =
    let (reason, first_seen) =
      check_failure_conditions cfg v d now (st.progress).last_progress_at
        st.config_error_first_seen in
    if ltb d.observed_generation d.generation
    then continue (record st { progress = record (st.progress) { last_progress_at = now } })
    else if d.paused
    then continue (record st { last_seen_paused = true })
    else on_some reason
        (check_convergence cfg now d
          (record st { last_seen_paused = false; config_error_first_seen = first_seen }))
        (λ r. return (record { result = failed; reason = r }))

unfoldable pub after_get : AnalyzerConfig → View → ℕ → GetDeploy → MonitorState → Step
after_get cfg v now (found d) st = observe cfg v now d st
after_get cfg v now not_found st = return (record { result = deleted; reason = was_deleted })
after_get cfg v now get_failed st = continue st

-- What ends the `select`: the context, or a tick at a time, with what the cluster then shows.
pub data Poll : Type 0 where
  cancelled : Poll
  tick : ℕ → View → Poll

unfoldable pub poll : AnalyzerConfig → ℕ → Poll → MonitorState → Step
poll cfg deadline cancelled st =
    return (record { result = inconclusive; reason = context_cancelled })
poll cfg deadline (tick now v) st =
    if ltb deadline now then return (on_timeout cfg now st) else after_get cfg v now v.deploy st

-- the loop; `none` is a loop that still runs after the given polls
unfoldable pub monitor_loop :
    AnalyzerConfig → ℕ → SoakPeriod → List Poll → MonitorState → Option Verdict
monitor_loop cfg deadline period [] st = none
monitor_loop cfg deadline period (p ∷ polls) st = elim (poll cfg deadline p st) [
  | return v ↦ some v
  | continue st' ↦ monitor_loop cfg deadline period polls st'
  | enter_soak d ↦ some (soak period d)
]

unfoldable pub monitor_rollout : AnalyzerConfig → ℕ → SoakPeriod → List Poll → Option Verdict
monitor_rollout cfg start period polls =
    monitor_loop cfg (start + cfg.absolute_timeout) period polls (record {
      progress = record {
        last_updated = 0;
        last_available = 0;
        last_unavailable = 0;
        last_progress_at = start;
      };
      config_error_first_seen = none;
      last_seen_paused = false;
    })
