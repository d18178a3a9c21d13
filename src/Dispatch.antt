-- ===== src/Dispatch.antt =====
-- internal/dispatch/dispatcher.go: events are sent to every target, in turn.
pub mod Delivery
pub mod Records
pub mod Cleaner
pub mod Targets
mod Examples
use k8s_deploy_monitor_opera.Prelude.{
  Option, none, some, List, [], ◌∷◌, ◌++◌, GoString, map, on_some, ℕ,
}
use k8s_deploy_monitor_opera.Event.{RolloutEvent}

module _ (W : Type 0) where
  -- A target acts on the world outside, and returns the text of its error or nothing.
  pub record Target : Type 0 where
    pub name : GoString
    pub send : RolloutEvent → W → W × Option GoString

  pub record Dispatcher : Type 0 where
    pub targets : List Target
    pub workers : ℕ
    pub on_dispatched : Option (RolloutEvent → List GoString → GoString → W → W)

  -- the world, and the named results of `DispatchEvent`
  pub record Sent : Type 0 where
    pub world : W
    pub target_names : List GoString
    pub dispatch_err : GoString

-- what `select` takes next in a worker
pub data Signal : Type 0 where
  received : RolloutEvent → Signal
  closed : Signal
  cancelled : Signal

module _ {W : Type 0} where
  unfoldable pub new_dispatcher : List (Target W) → ℕ → Dispatcher W
  new_dispatcher targets n = record { targets = targets; workers = n; on_dispatched = none }

  unfoldable pub new_standalone_dispatcher : List (Target W) → Dispatcher W
  new_standalone_dispatcher targets = record {
    targets = targets;
    workers = 0;
    on_dispatched = none;
  }

  unfoldable pub set_on_dispatched :
      (RolloutEvent → List GoString → GoString → W → W) → Dispatcher W → Dispatcher W
  set_on_dispatched fn d = record d { on_dispatched = some fn }

  -- the body of the loop of `DispatchEvent`
  unfoldable pub send_to : RolloutEvent → Target W → Sent W → Sent W
  send_to event t r =
      let (world, err) = t.send event r.world in
      let r' : Sent W = record r { world = world } in
      on_some err (record r' { target_names = r.target_names ++ t.name ∷ [] })
        (λ e. record r' { dispatch_err = e })

  unfoldable pub send_all : RolloutEvent → List (Target W) → Sent W → Sent W
  send_all event [] r = r
  send_all event (t ∷ ts) r = send_all event ts (send_to event t r)

  unfoldable pub dispatch_event : Dispatcher W → RolloutEvent → W → Sent W
  dispatch_event d event w =
      send_all event d.targets (record { world = w; target_names = []; dispatch_err = [] })

  unfoldable pub handle_event : Dispatcher W → RolloutEvent → W → W
  handle_event d event w =
      let r = dispatch_event d event w in
      on_some d.on_dispatched r.world (λ fn. fn event r.target_names r.dispatch_err r.world)

  -- One worker, on what it takes from the channels.
  unfoldable pub worker : Dispatcher W → List Signal → W → W
  worker d [] w = w
  worker d (received event ∷ signals) w = worker d signals (handle_event d event w)
  worker d (closed ∷ signals) w = w
  worker d (cancelled ∷ signals) w = w

  unfoldable pub target_names : Dispatcher W → List GoString
  target_names d = map (λ (t : Target W). t.name) d.targets
