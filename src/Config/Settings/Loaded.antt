-- ===== src/Config/Settings/Loaded.antt =====
-- What holds of the settings that `Load` returns.
use k8s_deploy_monitor_opera.Prelude.{
  ℕ, suc, true, false, not, ◌&&◌, ◌||◌, Option, none, some, [], GoString, str, ◌==◌, any, on_some,
  if◌then◌else◌, if_both, ◌≡◌, refl, arith, subst,
}
use k8s_deploy_monitor_opera.Config.Fields.{ℤ, pos, negsuc, is_zero, Config}
use k8s_deploy_monitor_opera.Config.Sources.{Env, apply_env_overrides}
use k8s_deploy_monitor_opera.Config.Settings.{
  or_default, is_empty_list, default_fields, uses_holmes, uses_slack, map_dispatch_mode,
  apply_defaults, Invalid, dispatch_modes, investigation_modes, validate, FileResult, loaded,
  not_exist, file_failed, settings, config_error, finish_load, load_from, load,
}

-- A mode is one of the known modes, and the services that it uses have their URLs.
pub record HasServices (c : Config) : Type 0 where
  pub known_dispatch : any (λ s. c.dispatch_mode == s) dispatch_modes ≡ true
  pub known_investigation : any (λ s. c.investigation_mode == s) investigation_modes ≡ true
  pub holmes_url : (uses_holmes c && c.holmes_api_url == []) ≡ false
  pub slack_url : (uses_slack c && c.slack_webhook_url == []) ≡ false
  pub runbook_url : (c.investigation_mode == str "runbook" && c.slack_webhook_url == []) ≡ false
  pub holmes_urls :
      (c.investigation_mode == str "holmes"
        && (c.slack_webhook_url == [] || c.holmes_api_url == []))
      ≡ false

-- No number is zero, and a filter and a namespace to write to are set.
pub record HasDefaults (c : Config) : Type 0 where
  pub workers : is_zero c.worker_count ≡ false
  pub debounce : is_zero c.debounce_seconds ≡ false
  pub queue : is_zero c.queue_max_size ≡ false
  pub rescan : is_zero c.rescan_interval_seconds ≡ false
  pub start_timeout : is_zero c.watcher_start_timeout_seconds ≡ false
  pub investigations : is_zero c.investigation_max_concurrent ≡ false
  pub diagnostics : is_zero c.diagnostic_max_concurrent ≡ false
  pub status_port : is_zero c.status_api_port ≡ false
  pub watchlist_port_set : is_zero c.watchlist_port ≡ false
  pub ttl : is_zero c.rollout_record_ttl_days ≡ false
  pub filter : (is_empty_list c.namespace_allowlist && is_empty_list c.namespace_denylist) ≡ false
  pub namespace_set : (c.persistence_enabled && c.persistence_namespace == []) ≡ false

validate-HasServices : (c : Config) → validate c ≡ none → HasServices c
unfolding validate
validate-HasServices c h = record {
  known_dispatch = ground (arith, h);
  known_investigation = ground (arith, h);
  holmes_url = ground (arith, h);
  slack_url = ground (arith, h);
  runbook_url = ground (arith, h);
  holmes_urls = ground (arith, h);
}

is_zero-or_default : (z : ℤ) (n : ℕ) → is_zero (or_default z (suc n)) ≡ false
unfolding or_default
is_zero-or_default (pos k) n = ground arith
is_zero-or_default (negsuc k) n = refl

default_fields-HasDefaults : (c : Config) → HasDefaults (default_fields c)
unfolding default_fields is_empty_list ◌==◌
default_fields-HasDefaults c = record {
  workers = is_zero-or_default _ _;
  debounce = is_zero-or_default _ _;
  queue = is_zero-or_default _ _;
  rescan = is_zero-or_default _ _;
  start_timeout = is_zero-or_default _ _;
  investigations = is_zero-or_default _ _;
  diagnostics = is_zero-or_default _ _;
  status_port = is_zero-or_default _ _;
  watchlist_port_set = is_zero-or_default _ _;
  ttl = is_zero-or_default _ _;
  filter = ground arith;
  namespace_set = ground arith;
}

with_mode :
    (c : Config) (mode : GoString)
    → HasDefaults c
    → HasDefaults (record c { investigation_mode = mode })
with_mode c mode h = record {
  workers = h.workers;
  debounce = h.debounce;
  queue = h.queue;
  rescan = h.rescan;
  start_timeout = h.start_timeout;
  investigations = h.investigations;
  diagnostics = h.diagnostics;
  status_port = h.status_port;
  watchlist_port_set = h.watchlist_port_set;
  ttl = h.ttl;
  filter = h.filter;
  namespace_set = h.namespace_set;
}

map_dispatch_mode-HasDefaults : (c : Config) → HasDefaults c → HasDefaults (map_dispatch_mode c)
unfolding map_dispatch_mode
map_dispatch_mode-HasDefaults c h =
    if_both HasDefaults (not (c.investigation_mode == str "none")) c _ h
      (if_both HasDefaults _ _ _ (with_mode _ _ (holmes c h)) (holmes c h))
  where
    holmes :
        (c : Config)
        → HasDefaults c
        → HasDefaults (
            if uses_holmes c && c.diagnostic_enabled
            then record c { investigation_mode = str "holmes" }
            else c)
    holmes c h = if_both HasDefaults _ _ _ (with_mode c (str "holmes") h) h

finished :
    (o : Option Invalid) (c c' : Config)
    → on_some o (settings c) (λ e. config_error e) ≡ settings c'
    → (o ≡ none) × (c ≡ c')
finished none c c' h = (refl, ground (arith, h))
finished (some e) c c' h = absurd (ground (arith, h))

finish_load-IsValid :
    (env : Env) (c c' : Config) → finish_load env c ≡ settings c' → HasServices c' × HasDefaults c'
unfolding finish_load apply_defaults
finish_load-IsValid env c c' h =
    let (valid, same) = finished _ (apply_defaults (apply_env_overrides env c)) c' h in
    subst (λ (k : Config). HasServices k × HasDefaults k) same
      (validate-HasServices _ valid, map_dispatch_mode-HasDefaults _ (default_fields-HasDefaults _))

load_from-IsValid :
    (atoi : GoString → Option ℤ) (env : Env) (r : FileResult) (c : Config)
    → load_from atoi env r ≡ settings c
    → HasServices c × HasDefaults c
unfolding load_from
load_from-IsValid atoi env (loaded c') c h = finish_load-IsValid env c' c h
load_from-IsValid atoi env not_exist c h = finish_load-IsValid env _ c h
load_from-IsValid atoi env (file_failed e) c h = absurd (ground (arith, h))

-- Settings that `Load` returns, from a file or from the environment, have known modes, the URLs that
-- these modes need, no number that is zero, a namespace filter, and a namespace to write to where
-- persistence is enabled.
pub load-IsValid :
    (atoi : GoString → Option ℤ) (load_file : GoString → FileResult) (env : Env) (c : Config)
    → load atoi load_file env ≡ settings c
    → HasServices c × HasDefaults c
unfolding load
load-IsValid atoi load_file env c h = load_from-IsValid atoi env _ c h
