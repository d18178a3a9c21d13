-- ===== src/Persistence/Recorder/RoundTrip.antt =====
-- An event that is recorded by the monitor and read again by the dispatcher.
use k8s_deploy_monitor_opera.Prelude.{ℕ, ◌/◌, ◌*◌, List, [], ◌∷◌, GoString, lookup, ◌==◌, ◌≡◌, refl}
use k8s_deploy_monitor_opera.Event.{RolloutEvent}
use k8s_deploy_monitor_opera.Record.{encode_spec, list_field, to_interface_slice}
use k8s_deploy_monitor_opera.Persistence.Recorder.{second, spec_of_event, record_of}
use k8s_deploy_monitor_opera.Dispatch.Records.{
  to_rollout_event, get_str, get_str_slice, value_text, value_texts, texts_of, spec_of,
  texts_of-map,
}

module _ (format_time : ℕ → GoString) (parse_time : GoString → ℕ) where
  -- by cases on the lists of images, which are left out where they are empty
  read_images :
      (namespace : GoString) (event : RolloutEvent) (old new : List GoString)
      → to_rollout_event parse_time
          (record_of format_time namespace (record event { old_images = old; new_images = new }))
        ≡ record event {
          old_images = old;
          new_images = new;
          app = [];
          slack_channel = [];
          timestamp = parse_time (format_time event.timestamp);
        }
  unfolding to_rollout_event record_of spec_of_event spec_of encode_spec list_field
      to_interface_slice get_str get_str_slice value_text value_texts texts_of lookup ◌==◌
  read_images namespace event [] [] = refl
  read_images namespace event [] (n ∷ new) = rw (texts_of-map new) refl
  read_images namespace event (o ∷ old) [] = rw (texts_of-map old) refl
  read_images namespace event (o ∷ old) (n ∷ new) = rw (texts_of-map old, texts_of-map new) refl

  -- An event that the monitor records and the dispatcher reads is the event that was detected,
  -- without the name of its app and its channel, and with its time in whole seconds.
  pub to_rollout_event-record_of :
      ((t : ℕ) → parse_time (format_time t) ≡ t / second * second)
      → (namespace : GoString) (event : RolloutEvent)
      → to_rollout_event parse_time (record_of format_time namespace event) ≡ record event {
        app = [];
        slack_channel = [];
        timestamp = event.timestamp / second * second;
      }
  to_rollout_event-record_of parsed namespace event =
      rw (← parsed event.timestamp) (read_images namespace event event.old_images event.new_images)
