-- ===== src/Watcher/ConfigWatcher/Examples.antt =====
-- A MonitorConfig that is found at the start and changed later.
use k8s_deploy_monitor_opera.Prelude.{
  ℕ, false, none, some, List, [], ◌∷◌, str, ◌==◌, lookup, ◌≡◌, Option,
}
use k8s_deploy_monitor_opera.Record.{list}
use k8s_deploy_monitor_opera.Dispatch.Records.{value_texts, texts_of}
use k8s_deploy_monitor_opera.Watcher.Filter.{NamespaceFilter, new_namespace_filter, allowed}
use k8s_deploy_monitor_opera.Watcher.Filter.Decision.{admits}
use k8s_deploy_monitor_opera.Watcher.ConfigWatcher.{
  MonitorConfig, Observed, unstructured, ConfigClient, watch_config, to_string_slice,
}
use k8s_deploy_monitor_opera.Watcher.ConfigWatcher.History.{watch_config-decides}

-- a server that keeps the object, if there is one
abbrev client : ConfigClient
client = record { Server = Option MonitorConfig; get = λ s. s; update_status = λ mc s. some mc }

abbrev start : Option MonitorConfig
start = some (record {
  namespace_allowlist = str "shop" ∷ [];
  namespace_denylist = [];
  active = false;
  last_applied = none;
})

-- an object of another name, and then the new allow list
abbrev changes : List (ℕ × Observed)
changes =
    (4, unstructured (str "spare") (some []))
    ∷ (
      5,
      unstructured (str "default")
          (some ((str "namespaceAllowlist", list (some (str "pay") ∷ none ∷ [])) ∷ [])),
    )
    ∷ []

abbrev first_filter : NamespaceFilter
first_filter = new_namespace_filter [] []

watch_config-decides_example :
    allowed (watch_config client 3 changes (first_filter, start)).0 (str "shop")
    ≡ admits (str "pay" ∷ []) [] (str "shop")
unfolding ◌==◌ lookup to_string_slice value_texts texts_of
watch_config-decides_example = watch_config-decides client first_filter (str "shop") 3 changes start
