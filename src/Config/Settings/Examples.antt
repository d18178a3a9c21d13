-- ===== src/Config/Settings/Examples.antt =====
-- Settings of a deployment that posts to Slack.
use k8s_deploy_monitor_opera.Prelude.{true, none, [], ◌∷◌, str, ◌==◌, if◌then◌else◌, ◌≡◌, refl}
use k8s_deploy_monitor_opera.Persistence.Names.{lower_byte}
use k8s_deploy_monitor_opera.Config.Fields.{Config, pos, zero_config}
use k8s_deploy_monitor_opera.Config.Sources.{
  Env, override, apply_env_overrides, load_from_env_vars, env_int, env_bool, env_list,
}
use k8s_deploy_monitor_opera.Config.Settings.{
  or_default, is_empty_list, default_fields, uses_holmes, uses_slack, map_dispatch_mode,
  apply_defaults, validate, not_exist, settings, finish_load, load_from, load,
}
use k8s_deploy_monitor_opera.Config.Settings.Loaded.{HasServices, HasDefaults, load-IsValid}

-- three variables are set, and there is no file
abbrev pub env : Env
env name =
    if name == str "DISPATCH_MODE"
    then str "Slack"
    else if name == str "SLACK_WEBHOOK_URL"
    then str "https://hooks"
    else if name == str "DIAGNOSTIC_ENABLED"
    then str "true"
    else []

abbrev pub slack_config : Config
slack_config = record zero_config {
  dispatch_mode = str "slack";
  slack_webhook_url = str "https://hooks";
  namespace_denylist = str "kube-system" ∷ str "kube-public" ∷ str "kube-node-lease" ∷ [];
  worker_count = pos 3;
  debounce_seconds = pos 30;
  queue_max_size = pos 100;
  rescan_interval_seconds = pos 600;
  watcher_start_timeout_seconds = pos 30;
  investigation_mode = str "runbook";
  investigation_max_concurrent = pos 10;
  status_api_port = pos 8081;
  diagnostic_enabled = true;
  diagnostic_max_concurrent = pos 10;
  watchlist_port = pos 8080;
  rollout_record_ttl_days = pos 7;
}

pub slack_settings : load (λ v. none) (λ path. not_exist) env ≡ settings slack_config
unfolding load load_from finish_load load_from_env_vars zero_config apply_env_overrides override
    env_int env_bool env_list apply_defaults default_fields map_dispatch_mode or_default
    is_empty_list validate uses_holmes uses_slack lower_byte ◌==◌
slack_settings = refl

load-IsValid_example : HasServices slack_config × HasDefaults slack_config
load-IsValid_example = load-IsValid (λ v. none) (λ path. not_exist) env slack_config slack_settings
