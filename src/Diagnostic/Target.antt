-- ===== src/Diagnostic/Target.antt =====
-- internal/diagnostic/target.go and registry.go: analyses in the background, and the clusters that
-- they use.
pub mod Slots
use k8s_deploy_monitor_opera.Prelude.{
  ℕ, ◌+◌, Bool, true, false, Option, none, some, List, [], ◌∷◌, ◌++◌, GoString, Map, lookup, insert,
  length, ltb, eqb, ◌==◌, on_some, if◌then◌else◌,
}
use k8s_deploy_monitor_opera.Event.{RolloutEvent}
use k8s_deploy_monitor_opera.Watcher.Manager.{ClusterInfo}

-- `running` has the number and event of every analysis whose goroutine holds a slot of the semaphore;
-- `accepted` counts the analyses started so far.
pub record AsyncDiagnosticTarget : Type 0 where
  pub max_concurrent : ℕ
  pub running : List (ℕ × RolloutEvent)
  pub accepted : ℕ
  pub stopped : Bool

unfoldable pub new_async_diagnostic_target : ℕ → AsyncDiagnosticTarget
new_async_diagnostic_target max_concurrent = record {
  max_concurrent = max_concurrent;
  running = [];
  accepted = 0;
  stopped = false;
}

-- It never fails: an event is dropped after `Stop` and where every slot is taken.
unfoldable pub dispatch : RolloutEvent → AsyncDiagnosticTarget → AsyncDiagnosticTarget
dispatch event t =
    if t.stopped
    then t
    else if ltb (length t.running) t.max_concurrent
    then record t { running = (t.accepted, event) ∷ t.running; accepted = t.accepted + 1 }
    else t

unfoldable pub without : ℕ → List (ℕ × RolloutEvent) → List (ℕ × RolloutEvent)
without n [] = []
without n ((k, event) ∷ rest) =
    let others = without n rest in if eqb k n then others else (k, event) ∷ others

-- the goroutine of an analysis ends, and its deferred calls give the slot back
unfoldable pub finish : ℕ → AsyncDiagnosticTarget → AsyncDiagnosticTarget
finish n t = record t { running = without n t.running }

-- `Stop` cancels the context; it then waits until `running` is empty.
unfoldable pub cancel : AsyncDiagnosticTarget → AsyncDiagnosticTarget
cancel t = record t { stopped = true }

-- `ClusterRegistry`: `C` is client-go's `rest.Config`, and a copy of one is equal to it
abbrev pub ClusterRegistry : Type 0 → Type 0
ClusterRegistry C = Map (Option C)

module _ {C : Type 0} where
  unfoldable pub configs_of : List (ClusterInfo C) → ClusterRegistry C → ClusterRegistry C
  configs_of [] m = m
  configs_of (c ∷ cs) m = configs_of cs (insert c.id c.rest_config m)

  unfoldable pub new_cluster_registry : List (ClusterInfo C) → ClusterRegistry C
  new_cluster_registry clusters = configs_of clusters []

  unfoldable pub update_registry : List (ClusterInfo C) → ClusterRegistry C → ClusterRegistry C
  update_registry clusters r = configs_of clusters []

  -- `new_for_config` stands for `kubernetes.NewForConfig`; `none` is an error
  unfoldable pub clientset_for :
      {S : Type 0} → (Option C → Option S) → GoString → ClusterRegistry C → Option S
  clientset_for new_for_config id r = on_some (lookup id r) none new_for_config
