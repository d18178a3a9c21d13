-- ===== src/Diagnostic/Monitor/Timeout.antt =====
-- The end of the poll loop of `monitorRollout`.
use k8s_deploy_monitor_opera.Prelude.{
  ℕ, ◌+◌, Bool, true, false, some, List, [], ◌∷◌, any, ltb, ◌≡◌, refl, arith, is_some, Bool-cases,
  inl, inr, ◌⊎◌,
}
use k8s_deploy_monitor_opera.Diagnostic.Cluster.{AnalyzerConfig}
use k8s_deploy_monitor_opera.Diagnostic.Soak.{SoakPeriod, soak}
use k8s_deploy_monitor_opera.Diagnostic.Monitor.{
  MonitorState, Step, return, continue, enter_soak, Poll, cancelled, tick, poll, monitor_loop,
  monitor_rollout,
}

-- the context has ended, or the tick comes after the deadline
abbrev pub is_last : ℕ → Poll → Bool
is_last deadline cancelled = true
is_last deadline (tick now v) = ltb deadline now

abbrev returns : Step → Bool
returns (return v) = true
returns _ = false

poll-last :
    (cfg : AnalyzerConfig) (deadline : ℕ) (p : Poll) (st : MonitorState)
    → is_last deadline p ≡ true
    → returns (poll cfg deadline p st) ≡ true
unfolding poll
poll-last cfg deadline cancelled st h = refl
poll-last cfg deadline (tick now v) st h = rw h refl

module _ (cfg : AnalyzerConfig) (deadline : ℕ) (period : SoakPeriod) where
  after_step :
      (s : Step) (polls : List Poll)
      → (returns s ≡ true)
        ⊎ ((st : MonitorState) → is_some (monitor_loop cfg deadline period polls st) ≡ true)
      → is_some (elim s [
        | return v ↦ some v
        | continue st' ↦ monitor_loop cfg deadline period polls st'
        | enter_soak d ↦ some (soak period d)
      ])
        ≡ true
  after_step (return v) polls h = refl
  after_step (continue st) polls (inl e) = cc
  after_step (continue st) polls (inr h) = h st
  after_step (enter_soak d) polls h = refl

  monitor_loop-returns :
      (polls : List Poll) (st : MonitorState)
      → any (is_last deadline) polls ≡ true
      → is_some (monitor_loop cfg deadline period polls st) ≡ true
  unfolding monitor_loop
  monitor_loop-returns [] st h = cc
  monitor_loop-returns (p ∷ polls) st h = elim (Bool-cases (is_last deadline p)) [
    | inl e ↦ after_step (poll cfg deadline p st) polls (inl (poll-last cfg deadline p st e))
    | inr e ↦
        after_step (poll cfg deadline p st) polls
          (inr (λ st'. monitor_loop-returns polls st' (ground (arith, e, h))))
  ]

-- The analysis returns a verdict by the first poll at which the context has ended or the absolute
-- timeout has passed, whatever the cluster shows.
pub monitor_rollout-returns :
    (cfg : AnalyzerConfig) (start : ℕ) (period : SoakPeriod) (polls : List Poll)
    → any (is_last (start + cfg.absolute_timeout)) polls ≡ true
    → is_some (monitor_rollout cfg start period polls) ≡ true
unfolding monitor_rollout
monitor_rollout-returns cfg start period polls h =
    monitor_loop-returns cfg (start + cfg.absolute_timeout) period polls _ h
