-- ===== src/Investigation/Slots.antt =====
-- The slots of the orchestrator, and what its map of active investigations refers to.
use k8s_deploy_monitor_opera.Prelude.{
  ℕ, suc, ◌+◌, ◌≤◌, Bool, true, false, not, ◌&&◌, Option, List, [], ◌∷◌, GoString, Map, lookup,
  remove, any, ltb, eqb, length, All, All-insert, All-remove, eq_refl, ◌==◌, eq_iff, on_some_both,
  if_both, if_cases, ◌≡◌, refl, arith,
}
use k8s_deploy_monitor_opera.Investigation.{
  Orchestrator, new_orchestrator, take_key, take_number, take_run, same_run, is_key, is_running,
  is_cancelled, supersede, admit, register, conclude, clean_up, release, stop,
}
use k8s_deploy_monitor_opera.Investigation.Cache.{InvestigationStatus}

-- What can happen next, in any call or goroutine.
pub data Op : Type 0 where
  supersede_op : GoString → Op
  admit_op : GoString → Op
  register_op : GoString → Op
  conclude_op : ℕ → GoString → Option InvestigationStatus → Bool → Op
  clean_up_op : ℕ → GoString → Op
  release_op : ℕ → Op
  stop_op : Op

unfoldable pub step : Op → Orchestrator → Orchestrator
step (supersede_op key) o = supersede key o
step (admit_op key) o = admit key o
step (register_op key) o = register key o
step (conclude_op n key result posted) o = conclude n key result posted o
step (clean_up_op n key) o = clean_up n key o
step (release_op n) o = release n o
step stop_op o = stop o

unfoldable pub run : List Op → Orchestrator → Orchestrator
run [] o = o
run (op ∷ ops) o = run ops (step op o)

length-take_key :
    (key : GoString) (keys : List GoString)
    → is_key key keys ≡ true
    → suc (length (take_key key keys)) ≡ length keys
unfolding take_key
length-take_key key [] h = cc
length-take_key key (k ∷ keys) h = ground (arith, h, length-take_key key keys)

length-take_number :
    (n : ℕ) (ms : List ℕ)
    → any (λ m. eqb m n) ms ≡ true
    → suc (length (take_number n ms)) ≡ length ms
unfolding take_number
length-take_number n [] h = cc
length-take_number n (m ∷ ms) h = ground (arith, h, length-take_number n ms)

length-take_run :
    (n : ℕ) (key : GoString) (rs : List (ℕ × GoString))
    → any (same_run n key) rs ≡ true
    → suc (length (take_run n key rs)) ≡ length rs
unfolding take_run
length-take_run n key [] h = cc
length-take_run n key (r ∷ rs) h = ground (arith, h, length-take_run n key rs)

-- The slots that are taken are those of admitted calls and of goroutines, at most as many as there
-- are.
pub record IsBounded (o : Orchestrator) : Type 0 where
  pub taken : o.slots ≡ length o.admitted + length o.running + length o.closing
  pub bounded : o.slots ≤ o.max_concurrent

step-IsBounded : (op : Op) (o : Orchestrator) → IsBounded o → IsBounded (step op o)
unfolding step supersede admit register conclude clean_up release stop
step-IsBounded (supersede_op key) o h =
    on_some_both IsBounded (lookup key o.active) _ _
      (λ e. record { taken = h.taken; bounded = h.bounded })
      (λ n e. record { taken = h.taken; bounded = h.bounded })
step-IsBounded (admit_op key) o h = if_both IsBounded (not (is_key key o.waiting)) o _ h (
    if_both IsBounded o.stopped _ _ (record { taken = h.taken; bounded = h.bounded })
      (if_cases IsBounded (ltb o.slots o.max_concurrent) _ _
        (λ free. record { taken = omega (arith, h.taken); bounded = ground (arith, free) })
        (λ full. record { taken = h.taken; bounded = h.bounded })))
step-IsBounded (register_op key) o h =
    if_cases IsBounded (is_key key o.admitted) _ o
      (λ found. record {
        taken = omega (arith, h.taken, length-take_key key o.admitted found);
        bounded = h.bounded;
      })
      (λ missing. h)
step-IsBounded (conclude_op n key result posted) o h =
    if_both IsBounded (not (is_running n key o)) o _ h (
      if_both IsBounded (not posted && is_cancelled n o) o _ h (
        on_some_both IsBounded result o _ (λ e. h)
          (λ r e. record { taken = h.taken; bounded = h.bounded })))
step-IsBounded (clean_up_op n key) o h =
    if_cases IsBounded (is_running n key o) _ o
      (λ found. record {
        taken = omega (arith, h.taken, length-take_run n key o.running found);
        bounded = h.bounded;
      })
      (λ missing. h)
step-IsBounded (release_op n) o h =
    if_cases IsBounded (any (λ m. eqb m n) o.closing) _ o
      (λ found. record {
        taken = omega (arith, h.taken, length-take_number n o.closing found);
        bounded = omega (arith, h.bounded);
      })
      (λ missing. h)
step-IsBounded stop_op o h = record { taken = h.taken; bounded = h.bounded }

-- Every cancel function of the map is that of an investigation of its deployment that still runs.
abbrev IsRun : List (ℕ × GoString) → GoString × ℕ → Type 0
IsRun rs e = any (same_run e.1 e.0) rs ≡ true

pub record IsTracked (o : Orchestrator) : Type 0 where
  pub tracked : All (IsRun o.running) o.active

All-IsRun-cons :
    (r : ℕ × GoString) (rs : List (ℕ × GoString)) (m : Map ℕ)
    → All (IsRun rs) m
    → All (IsRun (r ∷ rs)) m
All-IsRun-cons r rs [] h = tt
All-IsRun-cons r rs (e ∷ m) h = (ground (arith, h.0), All-IsRun-cons r rs m h.1)

-- another deployment's investigation goes on running
IsRun-take_run :
    (n : ℕ) (key : GoString) (rs : List (ℕ × GoString)) (e : GoString × ℕ)
    → e.0 == key ≡ false
    → IsRun rs e
    → IsRun (take_run n key rs) e
unfolding take_run
IsRun-take_run n key [] e other h = h
IsRun-take_run n key (r ∷ rs) e other h =
    ground
      (arith, h, IsRun-take_run n key rs e other, eq_iff r.1 key, eq_iff r.1 e.0, eq_iff e.0 key)

All-IsRun-take_run :
    (n : ℕ) (key : GoString) (rs : List (ℕ × GoString)) (m : Map ℕ)
    → All (IsRun rs) m
    → All (IsRun (take_run n key rs)) (remove key m)
unfolding remove
All-IsRun-take_run n key rs [] h = tt
All-IsRun-take_run n key rs (e ∷ m) h =
    if_cases (All (IsRun (take_run n key rs))) (e.0 == key) _ _
      (λ same. All-IsRun-take_run n key rs m h.1)
      (λ other. (IsRun-take_run n key rs e other h.0, All-IsRun-take_run n key rs m h.1))

step-IsTracked : (op : Op) (o : Orchestrator) → IsTracked o → IsTracked (step op o)
unfolding step supersede admit register conclude clean_up release stop
step-IsTracked (supersede_op key) o h =
    on_some_both IsTracked (lookup key o.active) _ _ (λ e. record { tracked = h.tracked })
      (λ n e. record { tracked = All-remove (IsRun o.running) key o.active h.tracked })
step-IsTracked (admit_op key) o h = if_both IsTracked (not (is_key key o.waiting)) o _ h (
    if_both IsTracked o.stopped _ _ (record { tracked = h.tracked })
      (if_both IsTracked (ltb o.slots o.max_concurrent) _ _ (record { tracked = h.tracked })
        (record { tracked = h.tracked })))
step-IsTracked (register_op key) o h =
    if_both IsTracked (is_key key o.admitted) _ o
      (record {
        tracked =
            All-insert (IsRun ((o.registered, key) ∷ o.running)) key o.registered o.active
              (ground (arith, eq_refl key))
              (All-IsRun-cons (o.registered, key) o.running o.active h.tracked);
      })
      h
step-IsTracked (conclude_op n key result posted) o h =
    if_both IsTracked (not (is_running n key o)) o _ h (
      if_both IsTracked (not posted && is_cancelled n o) o _ h
        (on_some_both IsTracked result o _ (λ e. h) (λ r e. record { tracked = h.tracked })))
step-IsTracked (clean_up_op n key) o h =
    if_both IsTracked (is_running n key o) _ o
      (record { tracked = All-IsRun-take_run n key o.running o.active h.tracked }) h
step-IsTracked (release_op n) o h =
    if_both IsTracked (any (λ m. eqb m n) o.closing) _ o (record { tracked = h.tracked }) h
step-IsTracked stop_op o h = record { tracked = h.tracked }

run-IsSound :
    (ops : List Op) (o : Orchestrator)
    → IsBounded o
    → IsTracked o
    → IsBounded (run ops o) × IsTracked (run ops o)
unfolding run
run-IsSound [] o b t = (b, t)
run-IsSound (op ∷ ops) o b t =
    run-IsSound ops (step op o) (step-IsBounded op o b) (step-IsTracked op o t)

-- However the steps of calls, goroutines and `Stop` interleave, an orchestrator has as many slots
-- taken as calls and goroutines hold, never more than its maximum, and each cancel function in its
-- map is that of an investigation of that deployment that has not cleaned up.
pub run-new-IsSound :
    (max_concurrent : ℕ) (ops : List Op)
    → let o = run ops (new_orchestrator max_concurrent) in IsBounded o × IsTracked o
unfolding new_orchestrator
run-new-IsSound max_concurrent ops =
    run-IsSound ops _ (record { taken = refl; bounded = omega arith }) (record { tracked = tt })
