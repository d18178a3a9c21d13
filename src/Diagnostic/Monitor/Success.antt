-- ===== src/Diagnostic/Monitor/Success.antt =====
-- What a verdict of success rests on.
use k8s_deploy_monitor_opera.Prelude.{
  ℕ, ◌+◌, Bool, true, false, not, ◌&&◌, Option, none, some, List, [], ◌∷◌, ltb, ◌≡◌, refl, arith,
  if_both, Bool-cases, inl, inr, ◌⊎◌, ap, ◌∙◌, sym, subst,
}
use k8s_deploy_monitor_opera.Diagnostic.Cluster.{
  AnalyzerConfig, Deploy, GetDeploy, found, not_found, get_failed, View, Verdict,
}
use k8s_deploy_monitor_opera.Diagnostic.Soak.{SoakPeriod, soak, pre_restarts, is_converged}
use k8s_deploy_monitor_opera.Diagnostic.Monitor.{
  MonitorState, Step, return, continue, enter_soak, Poll, cancelled, tick, poll, after_get, observe,
  check_convergence, on_timeout, monitor_loop, monitor_rollout,
}
use k8s_deploy_monitor_opera.Diagnostic.Soak.Clean.{is_success, is_clean, soak-success}

-- A poll before the deadline that shows this deployment, up to date and not paused.
abbrev pub Shows : ℕ → Deploy → Poll → Type 0
Shows deadline d cancelled = ⊥
Shows deadline d (tick now v) =
    (ltb deadline now ≡ false)
    × ((v.deploy ≡ found d)
        × ((ltb d.observed_generation d.generation ≡ false)
            × ((d.paused ≡ false) × (is_converged d ≡ true))))

abbrev pub Shown : ℕ → Deploy → List Poll → Type 0
Shown deadline d [] = ⊥
Shown deadline d (p ∷ polls) = Shows deadline d p ⊎ Shown deadline d polls

-- No poll returns a success by itself.
abbrev returns_success : Step → Bool
returns_success (return v) = is_success v.result
returns_success _ = false

observe-no_success :
    (cfg : AnalyzerConfig) (v : View) (now : ℕ) (d : Deploy) (st : MonitorState)
    → returns_success (observe cfg v now d st) ≡ false
unfolding observe check_convergence
observe-no_success cfg v now d st = ground arith

on_timeout-no_success :
    (cfg : AnalyzerConfig) (now : ℕ) (st : MonitorState)
    → is_success (on_timeout cfg now st).result ≡ false
unfolding on_timeout
on_timeout-no_success cfg now st = ground arith

after_get-no_success :
    (cfg : AnalyzerConfig) (v : View) (now : ℕ) (g : GetDeploy) (st : MonitorState)
    → returns_success (after_get cfg v now g st) ≡ false
unfolding after_get
after_get-no_success cfg v now not_found st = refl
after_get-no_success cfg v now get_failed st = refl
after_get-no_success cfg v now (found d) st = observe-no_success cfg v now d st

poll-no_success :
    (cfg : AnalyzerConfig) (deadline : ℕ) (p : Poll) (st : MonitorState)
    → returns_success (poll cfg deadline p st) ≡ false
unfolding poll
poll-no_success cfg deadline cancelled st = refl
poll-no_success cfg deadline (tick now v) st =
    if_both (λ s. returns_success s ≡ false) (ltb deadline now) _ _
      (on_timeout-no_success cfg now st) (after_get-no_success cfg v now v.deploy st)

-- the deployment that a step starts to soak
abbrev soaks : Step → Option Deploy
soaks (enter_soak d) = some d
soaks _ = none

observe-soaks :
    (cfg : AnalyzerConfig) (v : View) (now : ℕ) (d' d : Deploy) (st : MonitorState)
    → soaks (observe cfg v now d' st) ≡ some d
    → (d' ≡ d)
      × ((ltb d'.observed_generation d'.generation ≡ false)
          × ((d'.paused ≡ false) × (is_converged d' ≡ true)))
unfolding observe check_convergence
observe-soaks cfg v now d' d st e = ground arith

after_get-soaks :
    (cfg : AnalyzerConfig) (v : View) (now : ℕ) (d : Deploy) (st : MonitorState) (g : GetDeploy)
    → soaks (after_get cfg v now g st) ≡ some d
    → (g ≡ found d)
      × ((ltb d.observed_generation d.generation ≡ false)
          × ((d.paused ≡ false) × (is_converged d ≡ true)))
unfolding after_get
after_get-soaks cfg v now d st not_found e = cc
after_get-soaks cfg v now d st get_failed e = cc
after_get-soaks cfg v now d st (found d') e =
    let o = observe-soaks cfg v now d' d st e in
    (
      ap found o.0,
      subst
          (λ x.
            (ltb x.observed_generation x.generation ≡ false)
            × ((x.paused ≡ false) × (is_converged x ≡ true)))
          o.0 o.1,
    )

poll-soaks :
    (cfg : AnalyzerConfig) (deadline : ℕ) (p : Poll) (st : MonitorState) (d : Deploy)
    → soaks (poll cfg deadline p st) ≡ some d
    → Shows deadline d p
unfolding poll
poll-soaks cfg deadline cancelled st d e = cc
poll-soaks cfg deadline (tick now v) st d e = elim (Bool-cases (ltb deadline now)) [
  | inl late ↦ absurd (ground (arith, late, e))
  | inr early ↦ (early, after_get-soaks cfg v now d st v.deploy (ground (arith, early, e)))
]

-- the deployment that the loop went on to soak, and the outcome of the soak
pub record SoakedClean (deadline : ℕ) (period : SoakPeriod) (polls : List Poll) : Type 0 where
  pub deploy : Deploy
  pub shown : Shown deadline deploy polls
  pub clean :
      (not period.cancelled
        && is_clean (pre_restarts period.before deploy) period.after (period.after).deploy)
      ≡ true

module _ (cfg : AnalyzerConfig) (deadline : ℕ) (period : SoakPeriod) where
  later :
      (p : Poll) (polls : List Poll)
      → SoakedClean deadline period polls
      → SoakedClean deadline period (p ∷ polls)
  later p polls h = record { deploy = h.deploy; shown = inr h.shown; clean = h.clean }

  after_step :
      (s : Step) (p : Poll) (polls : List Poll) (v : Verdict)
      → returns_success s ≡ false
      → ((d : Deploy) → soaks s ≡ some d → Shows deadline d p)
      → ((st : MonitorState)
          → monitor_loop cfg deadline period polls st ≡ some v
          → SoakedClean deadline period polls)
      → elim s [
        | return v ↦ some v
        | continue st' ↦ monitor_loop cfg deadline period polls st'
        | enter_soak d ↦ some (soak period d)
      ]
        ≡ some v
      → is_success v.result ≡ true
      → SoakedClean deadline period (p ∷ polls)
  after_step (return w) p polls v never shows rest e ok = absurd (ground (arith, never, e, ok))
  after_step (continue st) p polls v never shows rest e ok = later p polls (rest st e)
  after_step (enter_soak d) p polls v never shows rest e ok = record {
    deploy = d;
    shown = inl (shows d refl);
    clean = sym (soak-success period d) ∙ ground (arith, e, ok);
  }

  monitor_loop-success :
      (polls : List Poll) (st : MonitorState) (v : Verdict)
      → monitor_loop cfg deadline period polls st ≡ some v
      → is_success v.result ≡ true
      → SoakedClean deadline period polls
  unfolding monitor_loop
  monitor_loop-success [] st v e ok = cc
  monitor_loop-success (p ∷ polls) st v e ok =
      after_step (poll cfg deadline p st) p polls v (poll-no_success cfg deadline p st)
        (λ d. poll-soaks cfg deadline p st d) (λ st' e'. monitor_loop-success polls st' v e' ok) e
        ok

-- A verdict of success means that a poll within the absolute timeout showed the deployment up to
-- date, not paused and converged, and that the soak which followed was not cancelled, found it
-- still converged, and found no pod of its new replica set that restarted or left Ready.
pub monitor_rollout-success :
    (cfg : AnalyzerConfig) (start : ℕ) (period : SoakPeriod) (polls : List Poll) (v : Verdict)
    → monitor_rollout cfg start period polls ≡ some v
    → is_success v.result ≡ true
    → SoakedClean (start + cfg.absolute_timeout) period polls
unfolding monitor_rollout
monitor_rollout-success cfg start period polls v e ok =
    monitor_loop-success cfg (start + cfg.absolute_timeout) period polls _ v e ok
