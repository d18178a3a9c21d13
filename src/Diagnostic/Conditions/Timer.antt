-- ===== src/Diagnostic/Conditions/Timer.antt =====
-- What the loops over the containers come to: the timer of stuck containers and the restart sum.
use k8s_deploy_monitor_opera.Prelude.{
  ℕ, ◌+◌, ◌-◌, ◌%◌, ◌^◌, ◌<◌, Bool, true, false, ◌&&◌, ◌||◌, Option, none, some, List, [], ◌∷◌,
  GoString, any, ltb, leb, ◌≡◌, refl, arith, is_some, on_some, if◌then◌else◌, Option-cases, inl,
  inr, Bool-cases,
}
use k8s_deploy_monitor_opera.Diagnostic.Cluster.{AnalyzerConfig, ContainerStatus, Pod, Reason}
use k8s_deploy_monitor_opera.Diagnostic.Conditions.{
  Scan, Scanned, failed_with, scanned, add_int32, int32_ge, stuck_reason, add_restarts, scan_stuck,
  scan_container, containers_of, scan_all, after_scan, check_pods,
}

-- a container waits to start, and not because it is being created
abbrev pub is_stuck : GoString × ContainerStatus → Bool
is_stuck c = is_some (stuck_reason c.1)

-- the sum of all restart counts
unfoldable pub restarts : List (GoString × ContainerStatus) → ℕ
restarts [] = 0
restarts (c ∷ cs) = (c.1).restart_count + restarts cs

-- the timer has run for the whole window
abbrev pub has_expired : AnalyzerConfig → ℕ → Option ℕ → Bool
has_expired cfg now first_seen =
    on_some first_seen false (λ t. leb cfg.config_error_window (now - t))

-- the timer, started now if it was not running
abbrev pub started_at : ℕ → Option ℕ → Option ℕ
started_at now first_seen = on_some first_seen (some now) (λ t. some t)

module _ (cfg : AnalyzerConfig) (now : ℕ) (window : 0 < cfg.config_error_window) where
  abbrev Outcome : List (GoString × ContainerStatus) → Scan → Scanned → Type 0
  Outcome cs s (failed_with r) =
      any is_stuck cs && has_expired cfg now s.config_error_first_seen ≡ true
  Outcome cs s (scanned s') =
      (any is_stuck cs && has_expired cfg now s.config_error_first_seen ≡ false)
      × ((s'.config_error_first_seen ≡ (
            if any is_stuck cs
            then started_at now s.config_error_first_seen
            else s.config_error_first_seen))
          × ((s'.has_waiting ≡ (s.has_waiting || any is_stuck cs))
              × (s.total_restarts < 2 ^ 32
                  → s'.total_restarts ≡ (s.total_restarts + restarts cs) % 2 ^ 32)))

  has_expired-started_at :
      (o : Option ℕ) → has_expired cfg now (started_at now o) ≡ has_expired cfg now o
  has_expired-started_at none = ground (arith, window)
  has_expired-started_at (some t) = refl

  started_at_idem : (o : Option ℕ) → started_at now (started_at now o) ≡ started_at now o
  started_at_idem none = refl
  started_at_idem (some t) = refl

  scan_stuck-Outcome :
      (pod reason : GoString) (c : ContainerStatus) (o : Option ℕ) (s : Scan)
      → stuck_reason c ≡ some reason
      → s.config_error_first_seen ≡ o
      → Outcome ((pod, c) ∷ []) s (scan_stuck cfg now reason pod c o s)
  unfolding scan_stuck add_restarts add_int32 restarts
  scan_stuck-Outcome pod reason c none s e f =
      (rw (e, f) refl, (rw (e, f) refl, (rw e (ground arith), λ small. omega arith)))
  scan_stuck-Outcome pod reason c (some t) s e f =
      elim (Bool-cases (leb cfg.config_error_window (now - t))) [
        | inl late ↦ rw (late, scan_stuck) (rw (e, f, late) refl)
        | inr early ↦
            rw (early, scan_stuck)
              (rw (e, f, early) refl, (rw (e, f) refl, (rw e (ground arith), λ small. omega arith)))
      ]

  scan_container-Outcome :
      (pod : GoString) (c : ContainerStatus) (s : Scan)
      → Outcome ((pod, c) ∷ []) s (scan_container cfg now pod c s)
  unfolding scan_container add_restarts add_int32 restarts
  scan_container-Outcome pod c s = elim (Option-cases (stuck_reason c)) [
    | inl e ↦
        rw (e, scan_container) (rw e refl, (rw e refl, (rw e (ground arith), λ small. omega arith)))
    | inr (reason, e) ↦
        rw (e, scan_container) (scan_stuck-Outcome pod reason c s.config_error_first_seen s e refl)
  ]

  -- one container, then the rest
  Outcome-cons :
      (c : GoString × ContainerStatus) (cs : List (GoString × ContainerStatus)) (s s' : Scan)
      (r : Scanned)
      → Outcome (c ∷ []) s (scanned s')
      → Outcome cs s' r
      → Outcome (c ∷ cs) s r
  unfolding restarts
  Outcome-cons c cs s s' (failed_with r) h g =
      ground (arith, h, g, has_expired-started_at s.config_error_first_seen)
  Outcome-cons c cs s s' (scanned s'') h g = (
    ground (arith, h, g, has_expired-started_at s.config_error_first_seen),
    (
      ground (arith, h, g, started_at_idem s.config_error_first_seen),
      (
        ground (arith, h, g),
        λ small. omega (arith, h.1.1.1 small, g.1.1.1 (rw (h.1.1.1 small) (omega arith))),
      ),
    ),
  )

  after_container :
      (c : GoString × ContainerStatus) (cs : List (GoString × ContainerStatus)) (s : Scan)
      (x : Scanned)
      → Outcome (c ∷ []) s x
      → ((s' : Scan) → Outcome cs s' (scan_all cfg now cs s'))
      → Outcome
          (c ∷ cs)
          s
          (elim x [ failed_with r ↦ failed_with r | scanned s' ↦ scan_all cfg now cs s' ])
  after_container c cs s (failed_with r) h g = ground (arith, h)
  after_container c cs s (scanned s') h g = Outcome-cons c cs s s' (scan_all cfg now cs s') h (g s')

  scan_all-Outcome :
      (cs : List (GoString × ContainerStatus)) (s : Scan) → Outcome cs s (scan_all cfg now cs s)
  unfolding scan_all restarts
  scan_all-Outcome [] s = (refl, (refl, (ground arith, λ small. omega arith)))
  scan_all-Outcome ((pod, c) ∷ cs) s =
      after_container (pod, c) cs s (scan_container cfg now pod c s)
        (scan_container-Outcome pod c s) (scan_all-Outcome cs)

  -- the restarts, as an int32, reach the threshold within the window
  abbrev pub has_restarts : ℕ → List (GoString × ContainerStatus) → Bool
  has_restarts last_progress_at cs =
      int32_ge (restarts cs % 2 ^ 32) cfg.restart_threshold
      && ltb (now - last_progress_at) cfg.restart_window

  abbrev Judged :
      ℕ → Option ℕ → List (GoString × ContainerStatus) → Option Reason × Option ℕ → Type 0
  Judged last_progress_at first_seen cs (o, timer) =
      let expired = any is_stuck cs && has_expired cfg now first_seen in
      (is_some o ≡ (expired || has_restarts last_progress_at cs))
      × (timer ≡ (
          if expired
          then first_seen
          else if any is_stuck cs
          then started_at now first_seen
          else none))

  Outcome-Judged :
      (last_progress_at : ℕ) (first_seen : Option ℕ) (cs : List (GoString × ContainerStatus))
      (x : Scanned)
      → Outcome cs
          (record { config_error_first_seen = first_seen; has_waiting = false; total_restarts = 0 })
          x
      → Judged last_progress_at first_seen cs (elim x [
        | failed_with r ↦ (some r, first_seen)
        | scanned s ↦ after_scan cfg now last_progress_at s
      ])
  unfolding after_scan
  Outcome-Judged last_progress_at first_seen cs (failed_with r) h = (rw h refl, rw h refl)
  Outcome-Judged last_progress_at first_seen cs (scanned s) h =
      let total : s.total_restarts ≡ restarts cs % 2 ^ 32 = omega (arith, h.1.1.1 (omega arith)) in
      (ground (arith, h.0, total), ground (arith, h.0, h.1.0, h.1.1.0))

  -- With a positive window, the pods of a rollout are a failure exactly if a container is stuck and
  -- the timer has run for the whole window, or the restarts of all containers (their sum wrapped to
  -- an int32) reach the threshold soon enough after the last progress. Otherwise the timer runs on,
  -- or starts, exactly if a container is stuck, and is reset if none is. The timer is one for all
  -- containers, and the restarts count by the time since the last progress: the runbook and the
  -- comment on the check describe a time for each container, or the age of the pod, and the time at
  -- which the threshold was crossed.
  pub check_pods-Judged :
      (last_progress_at : ℕ) (first_seen : Option ℕ) (pods : List Pod)
      → let (o, timer) = check_pods cfg now last_progress_at first_seen pods in
        let cs = containers_of pods in
        let expired = any is_stuck cs && has_expired cfg now first_seen in
        (is_some o ≡ (expired || has_restarts last_progress_at cs))
        × (timer ≡ (
            if expired
            then first_seen
            else if any is_stuck cs
            then started_at now first_seen
            else none))
  unfolding check_pods
  check_pods-Judged last_progress_at first_seen pods =
      Outcome-Judged last_progress_at first_seen (containers_of pods) _ (
        scan_all-Outcome (containers_of pods) (record {
          config_error_first_seen = first_seen;
          has_waiting = false;
          total_restarts = 0;
        }))
