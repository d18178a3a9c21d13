-- ===== src/Dispatch/Records.antt =====
-- internal/dispatch/record_watcher.go: replicas of the dispatcher claim records and send their
-- events.
pub mod Claims
pub mod Outcome
pub mod Recovery
use k8s_deploy_monitor_opera.Prelude.{
  ℕ, ◌+◌, Bool, true, false, not, ltb, Option, none, some, List, [], ◌∷◌, GoString, str, Map,
  lookup, insert, map, on_some, ◌≡◌, refl, ap, ◌==◌, if◌then◌else◌,
}
use k8s_deploy_monitor_opera.Event.{RolloutEvent}
use k8s_deploy_monitor_opera.Record.{
  Item, Value, text, list, other, detected, processing, dispatched, failed, phase_text,
  to_interface_slice,
}
use k8s_deploy_monitor_opera.Record.Server.{Client}
use k8s_deploy_monitor_opera.Dispatch.{Dispatcher, dispatch_event}

unfoldable pub value_text : Option Value → GoString
value_text (some (text s)) = s
value_text (some (list vs)) = []
value_text (some other) = []
value_text none = []

unfoldable pub get_str : Map Value → GoString → GoString
get_str m key = value_text (lookup key m)

-- `getNestedString` on a path of two fields, the first being the status
unfoldable pub get_nested_string : Option (Map Value) → GoString → GoString
get_nested_string o field = on_some o [] (λ m. get_str m field)

unfoldable pub phase_of : Item → GoString
phase_of it = get_nested_string it.status (str "phase")

unfoldable pub texts_of : List (Option GoString) → List GoString
texts_of [] = []
texts_of (some s ∷ vs) = s ∷ texts_of vs
texts_of (none ∷ vs) = texts_of vs

pub texts_of-map : (ss : List GoString) → texts_of (map some ss) ≡ ss
unfolding texts_of
texts_of-map [] = refl
texts_of-map (s ∷ ss) = ap (λ t. s ∷ t) (texts_of-map ss)

unfoldable pub value_texts : Option Value → List GoString
value_texts (some (text s)) = []
value_texts (some (list vs)) = texts_of vs
value_texts (some other) = []
value_texts none = []

unfoldable pub get_str_slice : Map Value → GoString → List GoString
get_str_slice m key = value_texts (lookup key m)

-- a spec that is missing reads as an empty map
unfoldable pub spec_of : Item → Map Value
spec_of it = on_some it.spec [] (λ m. m)

-- `parse_time` is time.Parse with the layout RFC 3339, its zero time where it fails.
unfoldable pub to_rollout_event : (GoString → ℕ) → Item → RolloutEvent
to_rollout_event parse_time it = record {
  cluster_id = get_str (spec_of it) (str "clusterID");
  namespace = get_str (spec_of it) (str "namespace");
  deployment_name = get_str (spec_of it) (str "deployment");
  old_template_hash = get_str (spec_of it) (str "oldTemplateHash");
  new_template_hash = get_str (spec_of it) (str "newTemplateHash");
  old_images = get_str_slice (spec_of it) (str "oldImages");
  new_images = get_str_slice (spec_of it) (str "newImages");
  app = [];
  slack_channel = [];
  timestamp = parse_time (get_str (spec_of it) (str "detectedAt"));
}

-- the status as a map, made where it is missing
unfoldable pub status_of : Item → Map Value
status_of it = on_some it.status [] (λ m. m)

unfoldable pub set_phase : GoString → Item → Item
set_phase phase it = record it { status = some (insert (str "phase") (text phase) (status_of it)) }

-- the object that `claimRecord` sends
unfoldable pub claim_of : Item → Item
claim_of it = set_phase (phase_text processing) it

-- the status that `updateRecordStatus` sends, `now` being the printed time
unfoldable pub final_status : GoString → List GoString → GoString → Item → Map Value
final_status now targets dispatch_err it =
    let m : Map Value =
      if dispatch_err == []
      then insert (str "phase") (text (phase_text dispatched)) (status_of it)
      else insert (str "error") (text dispatch_err)
          (insert (str "phase") (text (phase_text failed)) (status_of it)) in
    insert (str "dispatchTargets") (to_interface_slice targets)
      (insert (str "dispatchedAt") (text now) m)

module _ (client : Client) where
  unfoldable pub claim_record : Item → client.Server → client.Server × Bool
  claim_record it s = client.update_status (claim_of it) s

  unfoldable pub update_record_status :
      GoString → GoString → List GoString → GoString → client.Server → client.Server
  update_record_status now name targets dispatch_err s = on_some (client.get name s) s (λ it.
      (client.update_status (record it { status = some (final_status now targets dispatch_err it) })
        s).0)

  -- what follows a claim that succeeded
  unfoldable pub dispatch_claimed :
      {W : Type 0}
      → (GoString → ℕ)
      → GoString
      → Dispatcher W
      → Item
      → client.Server × W
      → client.Server × W
  dispatch_claimed parse_time now d it (s, w) =
      let r = dispatch_event d (to_rollout_event parse_time it) w in
      (update_record_status now it.name r.target_names r.dispatch_err s, r.world)

  -- `now` is the printed time at the end
  unfoldable pub handle_record :
      {W : Type 0}
      → (GoString → ℕ)
      → GoString
      → Dispatcher W
      → Item
      → client.Server × W
      → client.Server × W
  handle_record parse_time now d it (s, w) =
      let (s', claimed) = claim_record it s in
      if not (phase_of it == phase_text detected)
      then (s, w)
      else if claimed
      then dispatch_claimed parse_time now d it (s', w)
      else (s', w)

  -- the body of the loop of `doRecoverStuck`, at a time `now`
  unfoldable pub recover_item : ℕ → ℕ → Item → client.Server → client.Server
  recover_item timeout now it s =
      if not (phase_of it == phase_text processing)
      then s
      else if ltb now (it.created + timeout)
      then s
      else on_some it.status s
          (λ m. (client.update_status (set_phase (phase_text detected) it) s).0)

  unfoldable pub recover_items : ℕ → ℕ → List Item → client.Server → client.Server
  recover_items timeout now [] s = s
  recover_items timeout now (it ∷ rest) s =
      recover_items timeout now rest (recover_item timeout now it s)

  unfoldable pub do_recover_stuck : ℕ → ℕ → client.Server → client.Server
  do_recover_stuck timeout now s =
      on_some (client.list_records s) s (λ items. recover_items timeout now items s)

abbrev pub stuck_timeout : ℕ
stuck_timeout = 600_000_000_000
