-- ===== src/Persistence/Recorder.antt =====
-- internal/persistence/audit_recorder.go: the record of a rollout.
pub mod RoundTrip
pub mod Unclaimed
use k8s_deploy_monitor_opera.Prelude.{
  ℕ, ◌/◌, Bool, true, false, ltb, Option, none, some, List, [], ◌∷◌, ◌++◌, GoString, str, Map,
  length, take, on_some, if◌then◌else◌,
}
use k8s_deploy_monitor_opera.Event.{RolloutEvent}
use k8s_deploy_monitor_opera.Diagnostic.Logs.{decimal}
use k8s_deploy_monitor_opera.Persistence.Names.{sanitize_name}
use k8s_deploy_monitor_opera.Record.{
  Item, RolloutPhase, RolloutRecordSpec, RolloutRecordStatus, detected, phase_text, encode_spec,
  encode_status,
}
use k8s_deploy_monitor_opera.Record.Server.{
  Client, CreateResult, created, already_exists, create_failed,
}

abbrev pub second : ℕ
second = 1_000_000_000

abbrev pub max_record_name : ℕ
max_record_name = 253

-- The time is after 1970.
unfoldable pub record_name : RolloutEvent → GoString
record_name event =
    let name =
      sanitize_name event.cluster_id
      ++ b'-' ∷ sanitize_name event.namespace
      ++ b'-' ∷ sanitize_name event.deployment_name
      ++ b'-' ∷ decimal (event.timestamp / second) in
    if ltb max_record_name (length name) then take max_record_name name else name

unfoldable pub spec_of_event : RolloutEvent → RolloutRecordSpec
spec_of_event event = record {
  cluster_id = event.cluster_id;
  namespace = event.namespace;
  deployment = event.deployment_name;
  old_images = event.old_images;
  new_images = event.new_images;
  old_template_hash = event.old_template_hash;
  new_template_hash = event.new_template_hash;
  detected_at = event.timestamp;
}

unfoldable pub initial_status : RolloutRecordStatus
initial_status = record {
  phase = phase_text detected;
  dispatched_at = none;
  dispatch_targets = [];
  error = [];
}

-- The object that `RecordRollout` sends; the server gives it its version and its time of creation.
unfoldable pub record_of : (ℕ → GoString) → GoString → RolloutEvent → Item
record_of format_time namespace event = record {
  name = record_name event;
  namespace = namespace;
  labels =
      (str "deploy-monitor.io/cluster", sanitize_name event.cluster_id)
      ∷ (str "deploy-monitor.io/namespace", event.namespace)
      ∷ (str "deploy-monitor.io/deployment", sanitize_name event.deployment_name)
      ∷ [];
  version = 0;
  created = 0;
  spec = some (encode_spec format_time (spec_of_event event));
  status = some (encode_status format_time initial_status);
}

module _ (client : Client) (format_time : ℕ → GoString) (namespace : GoString) where
  -- the error of a create, `none` for nil
  unfoldable pub create_error : CreateResult → Option GoString
  create_error created = none
  create_error already_exists = none
  create_error (create_failed e) = some (str "creating rollout record: " ++ e)

  unfoldable pub record_rollout : RolloutEvent → client.Server → client.Server × Option GoString
  record_rollout event s =
      let (s', result) = client.create (record_of format_time namespace event) s in
      (s', create_error result)

  -- `UpdateRecordStatus` at a time `now`
  unfoldable pub update_rollout_status :
      ℕ → RolloutEvent → RolloutPhase → List GoString → GoString → client.Server → client.Server
  update_rollout_status now event phase targets dispatch_err s =
      on_some (client.get (record_name event) s) s (λ it.
        let status : RolloutRecordStatus = record {
          phase = phase_text phase;
          dispatched_at = some now;
          dispatch_targets = targets;
          error = dispatch_err;
        } in
        (client.update_status (record it { status = some (encode_status format_time status) }) s).0)
