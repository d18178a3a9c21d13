-- ===== src/Watcher/ConfigWatcher.antt =====
-- internal/watcher/config_watcher.go: the namespace filter follows the MonitorConfig "default".
pub mod History
mod Examples
use k8s_deploy_monitor_opera.Prelude.{
  ℕ, Bool, true, false, not, Option, none, some, List, [], ◌∷◌, GoString, str, Map, lookup, ◌==◌,
  on_some, if◌then◌else◌,
}
use k8s_deploy_monitor_opera.Record.{Value, text, list, other}
use k8s_deploy_monitor_opera.Dispatch.Records.{value_texts}
use k8s_deploy_monitor_opera.Watcher.Filter.{NamespaceFilter, update}

-- api/v1alpha1/monitor_config.go, with the status as its two fields
pub record MonitorConfig : Type 0 where
  pub namespace_allowlist : List GoString
  pub namespace_denylist : List GoString
  pub active : Bool
  pub last_applied : Option ℕ

-- what the informer hands over: an unstructured object with its name and its spec, or anything else
pub data Observed : Type 0 where
  unstructured : GoString → Option (Map Value) → Observed
  other_object : Observed

-- The client's calls for the object "default". A read that fails is `none`, and a failed write is
-- logged only.
pub record ConfigClient : Type 1 where
  pub Server : Type 0
  pub get : Server → Option MonitorConfig
  pub update_status : MonitorConfig → Server → Server

-- a key that is missing is nil, and gives no names as a value of another type does
unfoldable pub to_string_slice : Option Value → List GoString
to_string_slice v = value_texts v

module _ (client : ConfigClient) where
  -- `updateStatus` at a time `now`
  unfoldable pub update_config_status : ℕ → client.Server → client.Server
  update_config_status now s =
      on_some (client.get s) s
        (λ mc. client.update_status (record mc { active = true; last_applied = some now }) s)

  unfoldable pub apply_config :
      ℕ
      → List GoString
      → List GoString
      → NamespaceFilter × client.Server
      → NamespaceFilter × client.Server
  apply_config now allow deny (f, s) = (update allow deny f, update_config_status now s)

  unfoldable pub initial_sync :
      ℕ → NamespaceFilter × client.Server → NamespaceFilter × client.Server
  initial_sync now (f, s) =
      on_some (client.get s) (f, s)
        (λ mc. apply_config now mc.namespace_allowlist mc.namespace_denylist (f, s))

  unfoldable pub handle_config_change :
      ℕ → Observed → NamespaceFilter × client.Server → NamespaceFilter × client.Server
  handle_config_change now other_object r = r
  handle_config_change now (unstructured name spec) r =
      if not (name == str "default")
      then r
      else on_some spec r (λ m.
        apply_config now (to_string_slice (lookup (str "namespaceAllowlist") m))
          (to_string_slice (lookup (str "namespaceDenylist") m)) r)

  -- the calls of the informer's handlers, each with its time
  unfoldable pub handle_changes :
      List (ℕ × Observed) → NamespaceFilter × client.Server → NamespaceFilter × client.Server
  handle_changes [] r = r
  handle_changes ((now, o) ∷ rest) r = handle_changes rest (handle_config_change now o r)

  -- `Start`: the first read, and then the handlers
  unfoldable pub watch_config :
      ℕ → List (ℕ × Observed) → NamespaceFilter × client.Server → NamespaceFilter × client.Server
  watch_config now changes r = handle_changes changes (initial_sync now r)
