-- ===== src/Diagnostic/Target/Slots.antt =====
-- The slots of the target and the lookups of the registry.
use k8s_deploy_monitor_opera.Prelude.{
  ℕ, ◌≤◌, true, Option, none, some, List, [], ◌∷◌, GoString, length, lookup, insert, lookup-insert,
  lookup-nil, ◌==◌, on_some, if◌then◌else◌, ◌≡◌, refl, arith, ◌∙◌, ap,
}
use k8s_deploy_monitor_opera.Event.{RolloutEvent}
use k8s_deploy_monitor_opera.Watcher.Manager.{ClusterInfo}
use k8s_deploy_monitor_opera.Diagnostic.Target.{
  AsyncDiagnosticTarget, new_async_diagnostic_target, dispatch, without, finish, cancel,
  ClusterRegistry, configs_of, update_registry, clientset_for,
}

pub data Move : Type 0 where
  dispatch_move : RolloutEvent → Move
  finish_move : ℕ → Move
  cancel_move : Move

unfoldable pub move : Move → AsyncDiagnosticTarget → AsyncDiagnosticTarget
move (dispatch_move event) t = dispatch event t
move (finish_move n) t = finish n t
move cancel_move t = cancel t

unfoldable pub moves : List Move → AsyncDiagnosticTarget → AsyncDiagnosticTarget
moves [] t = t
moves (m ∷ ms) t = moves ms (move m t)

length-without : (n : ℕ) (xs : List (ℕ × RolloutEvent)) → length (without n xs) ≤ length xs
unfolding without
length-without n [] = omega arith
length-without n ((k, event) ∷ rest) = ground (arith, length-without n rest)

move-fits :
    (m : Move) (t : AsyncDiagnosticTarget)
    → length t.running ≤ t.max_concurrent
    → (length (move m t).running ≤ t.max_concurrent)
      × ((move m t).max_concurrent ≡ t.max_concurrent)
unfolding move dispatch finish cancel
move-fits (dispatch_move event) t h = ground arith
move-fits (finish_move n) t h = (omega (arith, length-without n t.running), refl)
move-fits cancel_move t h = (h, refl)

moves-fit :
    (ms : List Move) (t : AsyncDiagnosticTarget)
    → length t.running ≤ t.max_concurrent
    → length (moves ms t).running ≤ t.max_concurrent
unfolding moves
moves-fit [] t h = h
moves-fit (m ∷ ms) t h =
    let f = move-fits m t h in omega (arith, moves-fit ms (move m t) (omega (arith, f.0, f.1)), f.1)

-- Under any order of dispatches, ends of analyses and a stop, a new target never runs more analyses
-- at once than it was made for.
running-moves :
    (ms : List Move) (max_concurrent : ℕ)
    → length (moves ms (new_async_diagnostic_target max_concurrent)).running ≤ max_concurrent
unfolding new_async_diagnostic_target
running-moves ms max_concurrent =
    moves-fit ms (new_async_diagnostic_target max_concurrent) (omega arith)

stopped-step :
    (m : Move) (t : AsyncDiagnosticTarget)
    → t.stopped ≡ true
    → ((move m t).stopped ≡ true)
      × (((move m t).accepted ≡ t.accepted) × (length (move m t).running ≤ length t.running))
unfolding move dispatch finish cancel
stopped-step (dispatch_move event) t h = ground arith
stopped-step (finish_move n) t h = (h, (refl, length-without n t.running))
stopped-step cancel_move t h = (refl, (refl, omega arith))

-- Once the target is stopped it accepts no analysis, and the number of running ones does not grow.
moves-after_stop :
    (ms : List Move) (t : AsyncDiagnosticTarget)
    → t.stopped ≡ true
    → ((moves ms t).accepted ≡ t.accepted) × (length (moves ms t).running ≤ length t.running)
unfolding moves
moves-after_stop [] t h = (refl, omega arith)
moves-after_stop (m ∷ ms) t h =
    let s = stopped-step m t h in
    let r = moves-after_stop ms (move m t) s.0 in (r.0 ∙ s.1.0, omega (arith, r.1, s.1.1))

-- the config of the last cluster of a list with this name
abbrev pub last_config :
    {C : Type 0} → GoString → List (ClusterInfo C) → Option (Option C) → Option (Option C)
last_config id [] before = before
last_config id (c ∷ cs) before =
    last_config id cs (if c.id == id then some c.rest_config else before)

lookup-configs_of :
    {C : Type 0} (id : GoString) (cs : List (ClusterInfo C)) (m : ClusterRegistry C)
    → lookup id (configs_of cs m) ≡ last_config id cs (lookup id m)
unfolding configs_of
lookup-configs_of id [] m = refl
lookup-configs_of id (c ∷ cs) m =
    lookup-configs_of id cs (insert c.id c.rest_config m)
    ∙ ap (last_config id cs) (lookup-insert c.id id c.rest_config m)

-- After an update the registry answers for exactly the clusters of the new list, whatever it held
-- before: with the last config given for a cluster, and with an error for any other.
clientset_for-update :
    {C S : Type 0} (new_for_config : Option C → Option S) (id : GoString)
    (clusters : List (ClusterInfo C)) (r : ClusterRegistry C)
    → clientset_for new_for_config id (update_registry clusters r)
      ≡ on_some (last_config id clusters none) none new_for_config
unfolding clientset_for update_registry
clientset_for-update new_for_config id clusters r =
    ap (λ o. on_some o none new_for_config)
      (lookup-configs_of id clusters [] ∙ ap (last_config id clusters) (lookup-nil id))
