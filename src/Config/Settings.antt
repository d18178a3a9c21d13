-- ===== src/Config/Settings.antt =====
-- internal/config/config.go: defaults, validation and loading of the settings.
pub mod Loaded
pub mod Namespaces
pub mod Examples
use k8s_deploy_monitor_opera.Prelude.{
  ℕ, Bool, true, false, not, ◌&&◌, ◌||◌, Option, none, some, List, [], ◌∷◌, ◌++◌, GoString, str,
  ◌==◌, eqb, leb, map, on_some, if◌then◌else◌, any,
}
use k8s_deploy_monitor_opera.Config.Fields.{ℤ, pos, negsuc, is_zero, Config, zero_config}
use k8s_deploy_monitor_opera.Config.Sources.{Env, override, apply_env_overrides, load_from_env_vars}

unfoldable pub or_default : ℤ → ℕ → ℤ
or_default z n = if is_zero z then pos n else z

unfoldable pub is_empty_list : List GoString → Bool
is_empty_list [] = true
is_empty_list (s ∷ ss) = false

-- the defaults of the fields, one by one
unfoldable pub default_fields : Config → Config
default_fields c = record c {
  dispatch_mode = override c.dispatch_mode (str "log");
  investigation_mode = override c.investigation_mode (str "none");
  namespace_denylist =
      if is_empty_list c.namespace_allowlist && is_empty_list c.namespace_denylist
      then str "kube-system" ∷ str "kube-public" ∷ str "kube-node-lease" ∷ []
      else c.namespace_denylist;
  worker_count = or_default c.worker_count 3;
  debounce_seconds = or_default c.debounce_seconds 30;
  queue_max_size = or_default c.queue_max_size 100;
  rescan_interval_seconds = or_default c.rescan_interval_seconds 600;
  watcher_start_timeout_seconds = or_default c.watcher_start_timeout_seconds 30;
  investigation_max_concurrent = or_default c.investigation_max_concurrent 10;
  status_api_port = or_default c.status_api_port 8081;
  persistence_namespace =
      if c.persistence_enabled && c.persistence_namespace == []
      then str "rollout-monitor"
      else c.persistence_namespace;
  rollout_record_ttl_days = or_default c.rollout_record_ttl_days 7;
  diagnostic_max_concurrent = or_default c.diagnostic_max_concurrent 10;
  watchlist_port = or_default c.watchlist_port 8080;
}

-- the modes of the deprecated setting
unfoldable pub uses_holmes : Config → Bool
uses_holmes c = c.dispatch_mode == str "holmes" || c.dispatch_mode == str "both"

unfoldable pub uses_slack : Config → Bool
uses_slack c = c.dispatch_mode == str "slack" || c.dispatch_mode == str "both"

unfoldable pub map_dispatch_mode : Config → Config
map_dispatch_mode c =
    if not (c.investigation_mode == str "none")
    then c
    else let c' : Config =
        if uses_holmes c && c.diagnostic_enabled
        then record c { investigation_mode = str "holmes" }
        else c in
      if c'.dispatch_mode == str "slack" && c'.diagnostic_enabled
      then record c' { investigation_mode = str "runbook" }
      else c'

unfoldable pub apply_defaults : Config → Config
apply_defaults c = map_dispatch_mode (default_fields c)

-- The errors of `validate`.
pub data Invalid : Type 0 where
  invalid_dispatch_mode : GoString → Invalid
  holmes_url_required : GoString → Invalid
  slack_url_required : GoString → Invalid
  invalid_investigation_mode : GoString → Invalid
  slack_url_required_to_investigate : GoString → Invalid
  holmes_url_required_to_investigate : GoString → Invalid

abbrev pub dispatch_modes : List GoString
dispatch_modes = str "holmes" ∷ str "slack" ∷ str "both" ∷ str "log" ∷ []

abbrev pub investigation_modes : List GoString
investigation_modes = str "none" ∷ str "runbook" ∷ str "holmes" ∷ []

unfoldable pub validate : Config → Option Invalid
validate c =
    if not (any (λ s. c.dispatch_mode == s) dispatch_modes)
    then some (invalid_dispatch_mode c.dispatch_mode)
    else if uses_holmes c && c.holmes_api_url == []
    then some (holmes_url_required c.dispatch_mode)
    else if uses_slack c && c.slack_webhook_url == []
    then some (slack_url_required c.dispatch_mode)
    else if not (any (λ s. c.investigation_mode == s) investigation_modes)
    then some (invalid_investigation_mode c.investigation_mode)
    else if c.investigation_mode == str "runbook" && c.slack_webhook_url == []
    then some (slack_url_required_to_investigate c.investigation_mode)
    else if not (c.investigation_mode == str "holmes")
    then none
    else if c.slack_webhook_url == []
    then some (slack_url_required_to_investigate c.investigation_mode)
    else if c.holmes_api_url == []
    then some (holmes_url_required_to_investigate c.investigation_mode)
    else none

-- What `LoadFile` returns: the settings, that there is no such file, or another error.
pub data FileResult : Type 0 where
  loaded : Config → FileResult
  not_exist : FileResult
  file_failed : GoString → FileResult

pub data LoadResult : Type 0 where
  settings : Config → LoadResult
  file_error : GoString → LoadResult
  config_error : Invalid → LoadResult

-- the part of `Load` that follows the file
unfoldable pub finish_load : Env → Config → LoadResult
finish_load env c =
    let c' = apply_defaults (apply_env_overrides env c) in
    on_some (validate c') (settings c') (λ e. config_error e)

-- what `Load` does with the file, or without it
unfoldable pub load_from : (GoString → Option ℤ) → Env → FileResult → LoadResult
load_from atoi env (loaded c) = finish_load env c
load_from atoi env not_exist = finish_load env (load_from_env_vars atoi env zero_config)
load_from atoi env (file_failed e) = file_error e

unfoldable pub load : (GoString → Option ℤ) → (GoString → FileResult) → Env → LoadResult
load atoi load_file env =
    load_from atoi env
      (load_file (override (env (str "CONFIG_FILE")) (str "/etc/rollout-monitor/config.yaml")))

unfoldable pub is_listed : GoString → List GoString → Bool
is_listed ns [] = false
is_listed ns (s ∷ ss) = if ns == s then true else is_listed ns ss

unfoldable pub namespace_allowed : Config → GoString → Bool
namespace_allowed c ns =
    if not (is_empty_list c.namespace_allowlist)
    then is_listed ns c.namespace_allowlist
    else not (is_listed ns c.namespace_denylist)
