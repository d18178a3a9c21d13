-- ===== src/Persistence/Recorder/Unclaimed.antt =====
-- A new record under a status subresource, as the custom resource definitions of the repository
-- (deploy/crds.yaml, chart/deploy-monitor/crds/rolloutrecords.yaml) declare it.
use k8s_deploy_monitor_opera.Prelude.{ℕ, none, some, [], GoString, ◌==◌, ◌≡◌, refl}
use k8s_deploy_monitor_opera.Event.{RolloutEvent}
use k8s_deploy_monitor_opera.Record.{Item, phase_text}
use k8s_deploy_monitor_opera.Record.Server.{Client, Contents, created}
use k8s_deploy_monitor_opera.Persistence.Recorder.{record_of, record_name, record_rollout}
use k8s_deploy_monitor_opera.Dispatch.{Dispatcher}
use k8s_deploy_monitor_opera.Dispatch.Records.{
  phase_of, get_nested_string, handle_record, recover_item,
}
use k8s_deploy_monitor_opera.Dispatch.Cleaner.{is_terminal, clean_item}

module _ {client : Client} (c : Contents client) where
  -- With a status subresource, a create keeps everything of the object but its status.
  pub record DropsStatus : Type 0 where
    pub dropped :
        (it : Item) (s : client.Server)
        → (client.create it s).1 ≡ created
        → (new : Item) × (c.stored it.name (client.create it s).0 ≡ some new)
          × (new.spec ≡ it.spec)
          × (new.status ≡ none)

  -- No part of the dispatcher service does anything on account of the record as it is here.
  pub record IsIgnored (it : Item) : Type 1 where
    pub not_handled :
        {W : Type 0}
        → (parse_time : GoString → ℕ) (now : GoString) (d : Dispatcher W) (r : client.Server × W)
        → handle_record client parse_time now d it r ≡ r
    pub not_recovered :
        (timeout now : ℕ) (s : client.Server) → recover_item client timeout now it s ≡ s
    pub not_cleaned : (ttl now : ℕ) (r : client.Server × ℕ) → clean_item client ttl now it r ≡ r

  no_phase : (it : Item) → it.status ≡ none → phase_of it ≡ []
  unfolding phase_of get_nested_string
  no_phase it missing = rw missing refl

  no_phase-IsIgnored : (it : Item) → phase_of it ≡ [] → IsIgnored it
  unfolding handle_record recover_item clean_item is_terminal phase_text ◌==◌
  no_phase-IsIgnored it h = record {
    not_handled = λ parse_time now d r. rw h refl;
    not_recovered = λ timeout now s. rw h refl;
    not_cleaned = λ ttl now r. rw h refl;
  }

  -- Where a create drops the status, a record that `RecordRollout` has created has the spec it was
  -- given, but as long as it is as it was created, with no status written to it, handling it sends
  -- nothing and writes nothing, a recovery does not change it, and the cleaner does not delete it.
  pub record_rollout-IsIgnored :
      DropsStatus
      → (format_time : ℕ → GoString) (namespace : GoString) (event : RolloutEvent)
        (s : client.Server)
      → (client.create (record_of format_time namespace event) s).1 ≡ created
      → (new : Item) × (c.stored
            (record_name event)
            (record_rollout client format_time namespace event s).0
          ≡ some new)
        × (new.spec ≡ (record_of format_time namespace event).spec)
        × IsIgnored new
  unfolding record_rollout record_of
  record_rollout-IsIgnored drops format_time namespace event s ok =
      let (new, stored, spec, status) =
        drops.dropped (record_of format_time namespace event) s ok in
      (new, stored, spec, no_phase-IsIgnored new (no_phase new status))
