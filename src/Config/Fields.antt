-- ===== src/Config/Fields.antt =====
-- internal/config/config.go: the settings.
use k8s_deploy_monitor_opera.Prelude.{ℕ, Bool, false, List, [], GoString, eqb}

-- Go's `int`
pub data ℤ : Type 0 where
  pos : ℕ → ℤ
  negsuc : ℕ → ℤ

abbrev pub is_zero : ℤ → Bool
is_zero (pos n) = eqb n 0
is_zero (negsuc n) = false

pub record Config : Type 0 where
  pub debug : Bool
  pub dispatch_mode : GoString
  pub slack_webhook_url : GoString
  pub slack_bot_token : GoString
  pub persistence_namespace : GoString
  pub kubeconfig_dir : GoString
  pub env_config_dir : GoString
  pub slack_routing_file : GoString
  pub trace : Bool
  pub status_api_port : ℤ
  pub namespace_allowlist : List GoString
  pub namespace_denylist : List GoString
  pub holmes_api_url : GoString
  pub worker_count : ℤ
  pub debounce_seconds : ℤ
  pub queue_max_size : ℤ
  pub rescan_interval_seconds : ℤ
  pub watcher_start_timeout_seconds : ℤ
  pub persistence_enabled : Bool
  pub dispatcher_split : Bool
  pub investigation_mode : GoString
  pub investigation_max_concurrent : ℤ
  pub diagnostic_enabled : Bool
  pub diagnostic_max_concurrent : ℤ
  pub watchlist_enabled : Bool
  pub watchlist_port : ℤ
  pub rollout_record_ttl_days : ℤ

unfoldable pub zero_config : Config
zero_config = record {
  debug = false;
  dispatch_mode = [];
  slack_webhook_url = [];
  slack_bot_token = [];
  persistence_namespace = [];
  kubeconfig_dir = [];
  env_config_dir = [];
  slack_routing_file = [];
  trace = false;
  status_api_port = pos 0;
  namespace_allowlist = [];
  namespace_denylist = [];
  holmes_api_url = [];
  worker_count = pos 0;
  debounce_seconds = pos 0;
  queue_max_size = pos 0;
  rescan_interval_seconds = pos 0;
  watcher_start_timeout_seconds = pos 0;
  persistence_enabled = false;
  dispatcher_split = false;
  investigation_mode = [];
  investigation_max_concurrent = pos 0;
  diagnostic_enabled = false;
  diagnostic_max_concurrent = pos 0;
  watchlist_enabled = false;
  watchlist_port = pos 0;
  rollout_record_ttl_days = pos 0;
}
