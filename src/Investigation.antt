-- ===== src/Investigation.antt =====
-- internal/investigation/orchestrator.go: investigations of rollouts, at most so many at a time, where
-- a new one of a deployment supersedes the one before.
pub mod Cache
pub mod Slots
pub mod Superseded
mod Examples
use k8s_deploy_monitor_opera.Prelude.{
  ℕ, ◌+◌, ◌-◌, Bool, true, false, not, ◌&&◌, ◌||◌, Option, none, some, List, [], ◌∷◌, GoString, Map,
  lookup, insert, remove, any, ltb, eqb, ◌==◌, on_some, if◌then◌else◌,
}
use k8s_deploy_monitor_opera.Investigation.Cache.{
  InvestigationStatus, StatusCache, new_status_cache, update_status,
}

-- Investigations are numbered in the order in which they are registered, and a cancel function is
-- the number of what it cancels. The calls of `Investigate` that are under way are the keys in
-- `waiting`, which have superseded, and in `admitted`, which hold a slot. The goroutines are the
-- pairs in `running` and, once they have cleaned up, the numbers in `closing`.
pub record Orchestrator : Type 0 where
  pub max_concurrent : ℕ
  pub active : Map ℕ
  pub slots : ℕ
  pub waiting : List GoString
  pub admitted : List GoString
  pub running : List (ℕ × GoString)
  pub closing : List ℕ
  pub cancelled : List ℕ
  pub registered : ℕ
  pub stopped : Bool
  pub statuses : StatusCache

unfoldable pub new_orchestrator : ℕ → Orchestrator
new_orchestrator max_concurrent = record {
  max_concurrent = max_concurrent;
  active = [];
  slots = 0;
  waiting = [];
  admitted = [];
  running = [];
  closing = [];
  cancelled = [];
  registered = 0;
  stopped = false;
  statuses = new_status_cache;
}

-- one occurrence is taken out of a list
unfoldable pub take_key : GoString → List GoString → List GoString
take_key key [] = []
take_key key (k ∷ keys) = let rest = take_key key keys in if k == key then keys else k ∷ rest

unfoldable pub take_number : ℕ → List ℕ → List ℕ
take_number n [] = []
take_number n (m ∷ ms) = let rest = take_number n ms in if eqb m n then ms else m ∷ rest

abbrev pub same_run : ℕ → GoString → ℕ × GoString → Bool
same_run n key r = eqb r.0 n && r.1 == key

unfoldable pub take_run : ℕ → GoString → List (ℕ × GoString) → List (ℕ × GoString)
take_run n key [] = []
take_run n key (r ∷ rs) = let rest = take_run n key rs in if same_run n key r then rs else r ∷ rest

abbrev pub is_key : GoString → List GoString → Bool
is_key key keys = any (λ k. k == key) keys

abbrev pub is_running : ℕ → GoString → Orchestrator → Bool
is_running n key o = any (same_run n key) o.running

-- the context of an investigation is done
unfoldable pub is_cancelled : ℕ → Orchestrator → Bool
is_cancelled n o = o.stopped || any (λ m. eqb m n) o.cancelled

-- The start of `Investigate`, under the mutex: what is active for the key is cancelled.
unfoldable pub supersede : GoString → Orchestrator → Orchestrator
supersede key o =
    let o' : Orchestrator = record o { waiting = key ∷ o.waiting } in
    on_some (lookup key o.active) o'
      (λ n. record o' { active = remove key o.active; cancelled = n ∷ o.cancelled })

-- A call goes on only if the orchestrator is not stopped and a slot is free.
unfoldable pub admit : GoString → Orchestrator → Orchestrator
admit key o =
    let o' : Orchestrator = record o { waiting = take_key key o.waiting } in
    if not (is_key key o.waiting)
    then o
    else if o.stopped
    then o'
    else if ltb o.slots o.max_concurrent
    then record o' { slots = o.slots + 1; admitted = key ∷ o.admitted }
    else o'

-- The end of `Investigate`: the cancel function is stored and the goroutine is started.
unfoldable pub register : GoString → Orchestrator → Orchestrator
register key o =
    if is_key key o.admitted
    then record o {
      admitted = take_key key o.admitted;
      active = insert key o.registered o.active;
      running = (o.registered, key) ∷ o.running;
      registered = o.registered + 1;
    }
    else o

-- `Investigate` where nothing else happens meanwhile
unfoldable pub investigate : GoString → Orchestrator → Orchestrator
investigate key o = register key (admit key (supersede key o))

-- The body of the goroutine: the status that the report gives is stored, `none` being an error. An
-- error of the post is passed over, unless the investigation is cancelled.
unfoldable pub conclude :
    ℕ → GoString → Option InvestigationStatus → Bool → Orchestrator → Orchestrator
conclude n key result posted o =
    if not (is_running n key o)
    then o
    else if not posted && is_cancelled n o
    then o
    else on_some result o (λ s. record o { statuses = update_status s o.statuses })

-- the deferred clean-up, under the mutex: the entry of the key is deleted
unfoldable pub clean_up : ℕ → GoString → Orchestrator → Orchestrator
clean_up n key o =
    if is_running n key o
    then record o {
      active = remove key o.active;
      running = take_run n key o.running;
      closing = n ∷ o.closing;
      cancelled = n ∷ o.cancelled;
    }
    else o

-- the other deferred call: the slot is given back
unfoldable pub release : ℕ → Orchestrator → Orchestrator
release n o =
    if any (λ m. eqb m n) o.closing
    then record o { slots = o.slots - 1; closing = take_number n o.closing }
    else o

-- `Stop`, which then waits for the goroutines
unfoldable pub stop : Orchestrator → Orchestrator
stop o = record o { stopped = true }
