-- ===== src/Monitor/Combined.antt =====
-- The monitor without a dispatcher service: the callback that cmd/monitor/main.go gives the dispatcher
-- writes the outcome of an event into its record.
use k8s_deploy_monitor_opera.Prelude.{
  ℕ, Bool, true, false, none, some, List, [], ◌∷◌, GoString, str, Map, lookup, ◌==◌, ◌≡◌, ◌≢◌, refl,
  sym, ap, ◌∙◌, arith, Bool-cases, Option-cases, inl, inr,
}
use k8s_deploy_monitor_opera.Event.{RolloutEvent}
use k8s_deploy_monitor_opera.Record.{
  Item, Value, phase_text, encode_status, text_field, list_field, time_field, to_interface_slice,
}
use k8s_deploy_monitor_opera.Record.Server.{Client, Contents, IsOptimistic, IsConsistent}
use k8s_deploy_monitor_opera.Persistence.Recorder.{record_name, update_rollout_status}
use k8s_deploy_monitor_opera.Dispatch.{
  Dispatcher, Sent, dispatch_event, handle_event, set_on_dispatched,
}
use k8s_deploy_monitor_opera.Dispatch.Records.{
  phase_of, get_nested_string, get_str, value_text, get_str_slice, value_texts, texts_of, status_of,
  texts_of-map,
}
use k8s_deploy_monitor_opera.Dispatch.Records.Outcome.{statuses_differ, update-IsUpdated}
use k8s_deploy_monitor_opera.Monitor.{phase_after, on_dispatched_record}

module _ {client : Client} (c : Contents client) (optimistic : IsOptimistic c)
    (consistent : IsConsistent c) (format_time : ℕ → GoString) (namespace : GoString)
    (now : ℕ) where
  -- the status that the callback writes
  abbrev pub noted_status : List GoString → GoString → Map Value
  noted_status names err = encode_status format_time (record {
    phase = phase_text (phase_after err);
    dispatched_at = some now;
    dispatch_targets = names;
    error = err;
  })

  noted_phase :
      (names : List GoString) (err : GoString)
      → get_nested_string (some (noted_status names err)) (str "phase")
        ≡ phase_text (phase_after err)
  unfolding encode_status text_field phase_text phase_after get_nested_string get_str value_text
      lookup ◌==◌
  noted_phase names err = elim (Bool-cases (err == [])) [
    | inl quiet ↦ rw quiet refl
    | inr loud ↦ rw loud refl
  ]

  noted_targets :
      (names : List GoString) (err : GoString)
      → get_str_slice (noted_status names err) (str "dispatchTargets") ≡ names
  unfolding encode_status text_field time_field list_field to_interface_slice phase_text phase_after
      get_str_slice value_texts texts_of lookup ◌==◌
  noted_targets [] [] = refl
  noted_targets [] (b ∷ err) = refl
  noted_targets (name ∷ names) [] = texts_of-map (name ∷ names)
  noted_targets (name ∷ names) (b ∷ err) = texts_of-map (name ∷ names)

  -- the record has the outcome that `sent` reports, and is otherwise as it was
  pub record IsStored (event : RolloutEvent) (sent : Sent client.Server) (s : client.Server)
      : Type 0 where
    pub old : Item
    pub was : c.stored (record_name event) sent.world ≡ some old
    pub new : Item
    pub stored : c.stored (record_name event) s ≡ some new
    pub same_spec : new.spec ≡ old.spec
    pub phase : phase_of new ≡ phase_text (phase_after sent.dispatch_err)
    pub targets_listed : get_str_slice (status_of new) (str "dispatchTargets") ≡ sent.target_names

  -- the read of the record failed, and nothing was written
  pub record IsUnread (event : RolloutEvent) (sent : Sent client.Server) (s : client.Server)
      : Type 0 where
    pub failed_read : client.get (record_name event) sent.world ≡ none
    pub unchanged : s ≡ sent.world

  -- the update of the record reported a failure: the server is as that call left it
  pub record IsUnwritten (event : RolloutEvent) (sent : Sent client.Server) (s : client.Server)
      : Type 0 where
    pub old : Item
    pub was : c.stored (record_name event) sent.world ≡ some old
    pub failed_write :
        client.update_status
          (record old { status = some (noted_status sent.target_names sent.dispatch_err) })
          sent.world
        ≡ (s, false)

  pub data IsNoted (event : RolloutEvent) (sent : Sent client.Server) (s : client.Server)
      : Type 0 where
    noted : IsStored event sent s → IsNoted event sent s
    unread : IsUnread event sent s → IsNoted event sent s
    unwritten : IsUnwritten event sent s → IsNoted event sent s

  module _ (event : RolloutEvent) (sent : Sent client.Server) (it : Item)
      (was : c.stored (record_name event) sent.world ≡ some it)
      (fresh : phase_of it ≢ phase_text (phase_after sent.dispatch_err)) where
    abbrev written : client.Server × Bool
    written =
        client.update_status
          (record it { status = some (noted_status sent.target_names sent.dispatch_err) })
          sent.world

    written-IsStored : written.1 ≡ true → IsStored event sent written.0
    unfolding phase_of status_of
    written-IsStored ok =
        let name : it.name ≡ record_name event =
          consistent.own_name (record_name event) sent.world it was in
        let u =
          update-IsUpdated c optimistic it (noted_status sent.target_names sent.dispatch_err)
            sent.world (ap (λ n. c.stored n sent.world) name ∙ was)
            (statuses_differ it.status _ (phase_of it) (phase_text (phase_after sent.dispatch_err))
              refl (noted_phase sent.target_names sent.dispatch_err) fresh)
            ok in
        record {
          old = it;
          was = was;
          new = u.new;
          stored = ap (λ n. c.stored n written.0) (sym name) ∙ u.stored;
          same_spec = ap (λ (i : Item). i.spec) u.content;
          phase =
              ap (λ (i : Item). phase_of i) u.content
              ∙ noted_phase sent.target_names sent.dispatch_err;
          targets_listed =
              ap (λ (i : Item). get_str_slice (status_of i) (str "dispatchTargets")) u.content
              ∙ noted_targets sent.target_names sent.dispatch_err;
        }

    written-IsNoted : IsNoted event sent written.0
    written-IsNoted = elim (Bool-cases written.1) [
      | inl ok ↦ noted (written-IsStored ok)
      | inr failure ↦
          unwritten (record { old = it; was = was; failed_write = ground (arith, failure) })
    ]

  callback-IsNoted :
      (event : RolloutEvent) (sent : Sent client.Server)
      → ((it : Item)
          → c.stored (record_name event) sent.world ≡ some it
          → phase_of it ≢ phase_text (phase_after sent.dispatch_err))
      → IsNoted event sent (
          on_dispatched_record client format_time namespace now event sent.target_names
            sent.dispatch_err sent.world)
  unfolding on_dispatched_record update_rollout_status
  callback-IsNoted event sent fresh =
      elim (Option-cases (client.get (record_name event) sent.world)) [
        | inl missing ↦ rw missing (unread (record { failed_read = missing; unchanged = refl }))
        | inr (it, read) ↦
            let was : c.stored (record_name event) sent.world ≡ some it =
              consistent.current (record_name event) sent.world it read in
            rw read (written-IsNoted event sent it was (fresh it was))
      ]

  -- With the callback that updates records, and any targets: after an event is handled, its record
  -- has the phase Dispatched, or Failed if a target has returned an error text, and the names of
  -- the targets that succeeded, and its spec is as the targets left it; or the callback's read
  -- failed and it has written nothing; or its update failed. The record, if the targets leave one,
  -- is not in that phase already, and nothing else writes it in between.
  pub handle_event-IsNoted :
      (d : Dispatcher client.Server) (event : RolloutEvent) (s : client.Server)
      → ((it : Item)
          → c.stored (record_name event) (dispatch_event d event s).world ≡ some it
          → phase_of it ≢ phase_text (phase_after (dispatch_event d event s).dispatch_err))
      → let callback = on_dispatched_record client format_time namespace now in
        IsNoted event
          (dispatch_event d event s)
          (handle_event (set_on_dispatched callback d) event s)
  unfolding handle_event set_on_dispatched dispatch_event
  handle_event-IsNoted d event s fresh = callback-IsNoted event (dispatch_event d event s) fresh
