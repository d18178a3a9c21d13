-- ===== src/Record.antt =====
-- api/v1alpha1/types.go: a RolloutRecord, as Go's structs have it and as the JSON object that the
-- API server keeps and the dispatcher reads.
pub mod Server
use k8s_deploy_monitor_opera.Prelude.{
  ℕ, Option, none, some, List, [], ◌∷◌, ◌++◌, GoString, str, Map, map, insert, lookup, on_some,
}

-- A value of a JSON object: a text, a list with its texts, or anything else.
pub data Value : Type 0 where
  text : GoString → Value
  list : List (Option GoString) → Value
  other : Value

-- An unstructured object. `none` is a part that is missing or is not a map.
pub record Item : Type 0 where
  pub name : GoString
  pub namespace : GoString
  pub labels : Map GoString
  pub version : ℕ
  pub created : ℕ
  pub spec : Option (Map Value)
  pub status : Option (Map Value)

pub data RolloutPhase : Type 0 where
  detected : RolloutPhase
  processing : RolloutPhase
  dispatched : RolloutPhase
  failed : RolloutPhase

unfoldable pub phase_text : RolloutPhase → GoString
phase_text detected = str "Detected"
phase_text processing = str "Processing"
phase_text dispatched = str "Dispatched"
phase_text failed = str "Failed"

pub record RolloutRecordSpec : Type 0 where
  pub cluster_id : GoString
  pub namespace : GoString
  pub deployment : GoString
  pub old_images : List GoString
  pub new_images : List GoString
  pub old_template_hash : GoString
  pub new_template_hash : GoString
  pub detected_at : ℕ

pub record RolloutRecordStatus : Type 0 where
  pub phase : GoString
  pub dispatched_at : Option ℕ
  pub dispatch_targets : List GoString
  pub error : GoString

-- `toInterfaceSlice`
unfoldable pub to_interface_slice : List GoString → Value
to_interface_slice ss = list (map some ss)

-- a field with the tag `omitempty`
unfoldable pub list_field : GoString → List GoString → Map Value → Map Value
list_field key [] m = m
list_field key (s ∷ ss) m = (key, to_interface_slice (s ∷ ss)) ∷ m

unfoldable pub text_field : GoString → GoString → Map Value → Map Value
text_field key [] m = m
text_field key (c ∷ s) m = (key, text (c ∷ s)) ∷ m

-- The JSON of the structs, by their tags; `format_time` is how metav1.Time prints a time.
module _ (format_time : ℕ → GoString) where
  unfoldable pub encode_spec : RolloutRecordSpec → Map Value
  encode_spec s =
      (str "clusterID", text s.cluster_id)
      ∷ (str "namespace", text s.namespace)
      ∷ (str "deployment", text s.deployment)
      ∷ list_field (str "oldImages") s.old_images (
          list_field (str "newImages") s.new_images (
            (str "oldTemplateHash", text s.old_template_hash)
            ∷ (str "newTemplateHash", text s.new_template_hash)
            ∷ (str "detectedAt", text (format_time s.detected_at))
            ∷ []))

  unfoldable pub time_field : GoString → Option ℕ → Map Value → Map Value
  time_field key none m = m
  time_field key (some t) m = (key, text (format_time t)) ∷ m

  unfoldable pub encode_status : RolloutRecordStatus → Map Value
  encode_status s = text_field (str "phase") s.phase (
      time_field (str "dispatchedAt") s.dispatched_at (
        list_field (str "dispatchTargets") s.dispatch_targets
          (text_field (str "error") s.error [])))
