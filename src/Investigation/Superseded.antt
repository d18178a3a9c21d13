-- ===== src/Investigation/Superseded.antt =====
-- What a new rollout does to the investigations of its deployment that run.
use k8s_deploy_monitor_opera.Prelude.{
  ℕ, ◌+◌, ◌≤◌, ◌<◌, true, false, none, some, ◌∷◌, GoString, lookup, insert, remove, ltb, eqb,
  eq_refl, on_some, if◌then◌else◌, ◌≡◌, refl, ap, ◌∙◌, arith, inl, inr, Bool-cases, Option-cases,
  lookup-insert_self, lookup-remove_self,
}
use k8s_deploy_monitor_opera.Investigation.{
  Orchestrator, take_key, take_run, is_key, is_cancelled, supersede, admit, register, investigate,
  clean_up,
}

-- an orchestrator that is not stopped, has a free slot, and no investigation of the key
pub record IsFree (slots : ℕ) (key : GoString) (o : Orchestrator) : Type 0 where
  pub running_on : o.stopped ≡ false
  pub free : o.slots + slots ≤ o.max_concurrent
  pub none_active : lookup key o.active ≡ none

-- the map after the supersession
abbrev superseded : GoString → Orchestrator → Orchestrator
superseded key o =
    on_some (lookup key o.active) o
      (λ n. record o { active = remove key o.active; cancelled = n ∷ o.cancelled })

-- the new investigation is registered and runs
abbrev started : GoString → Orchestrator → Orchestrator
started key o = record o {
  slots = o.slots + 1;
  active = insert key o.registered o.active;
  running = (o.registered, key) ∷ o.running;
  registered = o.registered + 1;
}

investigate_starts :
    (key : GoString) (o : Orchestrator)
    → o.stopped ≡ false
    → o.slots < o.max_concurrent
    → investigate key o ≡ started key (superseded key o)
unfolding investigate supersede admit register take_key
investigate_starts key o going free =
    let room : ltb o.slots o.max_concurrent ≡ true = ground (arith, free) in
    elim (Option-cases (lookup key o.active)) [
      | inl nothing ↦ rw (nothing, eq_refl key, going, room, eq_refl key) refl
      | inr (n, found) ↦ rw (found, eq_refl key, going, room, eq_refl key) refl
    ]

first_starts :
    (key : GoString) (o : Orchestrator)
    → o.stopped ≡ false
    → o.slots < o.max_concurrent
    → lookup key o.active ≡ none
    → investigate key o ≡ started key o
first_starts key o going free nothing = investigate_starts key o going free ∙ rw nothing refl

abbrev replaced : GoString → ℕ → Orchestrator → Orchestrator
replaced key n o = record o { active = remove key o.active; cancelled = n ∷ o.cancelled }

next_starts :
    (key : GoString) (n : ℕ) (o : Orchestrator)
    → o.stopped ≡ false
    → o.slots < o.max_concurrent
    → lookup key o.active ≡ some n
    → investigate key o ≡ started key (replaced key n o)
next_starts key n o going free found = investigate_starts key o going free ∙ rw found refl

-- the first of two investigations cleans up
abbrev cleaned : GoString → Orchestrator → Orchestrator
cleaned key o =
    let o₂ = started key (replaced key o.registered (started key o)) in
    record o₂ {
      active = remove key o₂.active;
      running = (o.registered + 1, key) ∷ o.running;
      closing = o.registered ∷ o.closing;
      cancelled = o.registered ∷ o₂.cancelled;
    }

first_cleans_up :
    (key : GoString) (o : Orchestrator)
    → clean_up o.registered key (started key (replaced key o.registered (started key o)))
      ≡ cleaned key o
unfolding clean_up take_run
first_cleans_up key o =
    let here : eqb o.registered o.registered ≡ true = ground arith in
    let later : eqb (o.registered + 1) o.registered ≡ false = ground arith in
    rw (later, here, eq_refl key) refl

-- Three rollouts of a deployment in turn, where the first investigation ends between the second and
-- the third: its clean-up deletes the entry of the second, so that the third does not cancel it,
-- and both go on.
pub unsuperseded :
    (key : GoString) (o : Orchestrator)
    → IsFree 3 key o
    → let o' = investigate key (clean_up o.registered key (investigate key (investigate key o))) in
      (o'.running ≡ (o.registered + 2, key) ∷ (o.registered + 1, key) ∷ o.running)
      × (o'.cancelled ≡ o.registered ∷ o.registered ∷ o.cancelled)
unsuperseded key o h =
    let e₁ = first_starts key o h.running_on (omega (arith, h.free)) h.none_active in
    let e₂ =
      next_starts key o.registered (started key o) h.running_on (omega (arith, h.free))
        (lookup-insert_self key o.registered o.active) in
    let e₃ =
      first_starts key (cleaned key o) h.running_on (omega (arith, h.free))
        (lookup-remove_self key _) in
    let third : o.registered + 1 + 1 ≡ o.registered + 2 = omega arith in
    rw (e₁, e₂, first_cleans_up key o, e₃)
      (ap (λ n. (n, key) ∷ (o.registered + 1, key) ∷ o.running) third, refl)

dropped :
    (key : GoString) (n : ℕ) (o : Orchestrator)
    → o.stopped ≡ false
    → ltb o.slots o.max_concurrent ≡ false
    → lookup key o.active ≡ some n
    → is_key key o.admitted ≡ false
    → investigate key o ≡ replaced key n o
unfolding investigate supersede admit register take_key
dropped key n o going full found alone = rw (found, eq_refl key, going, full, alone) refl

-- A rollout of a deployment with an active investigation, where no other call for it is under way:
-- the investigation is cancelled, and the new one is active in its place if a slot is free, or none
-- is.
investigate-supersedes :
    (key : GoString) (n : ℕ) (o : Orchestrator)
    → o.stopped ≡ false
    → lookup key o.active ≡ some n
    → is_key key o.admitted ≡ false
    → (is_cancelled n (investigate key o) ≡ true)
      × (lookup key (investigate key o).active
          ≡ (if ltb o.slots o.max_concurrent then some o.registered else none))
unfolding is_cancelled
investigate-supersedes key n o going found alone =
    let self : eqb n n ≡ true = ground arith in
    elim (Bool-cases (ltb o.slots o.max_concurrent)) [
      | inl free ↦
          rw (next_starts key n o going (ground (arith, free)) found, free)
            (ground (arith, self), lookup-insert_self key o.registered (remove key o.active))
      | inr full ↦
          rw (dropped key n o going full found alone, full)
            (ground (arith, self), lookup-remove_self key o.active)
    ]
