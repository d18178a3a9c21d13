-- ===== src/Config/Sources.antt =====
-- internal/config/config.go: settings from environment variables.
use k8s_deploy_monitor_opera.Prelude.{
  ℕ, Bool, ◌&&◌, ◌||◌, Option, List, [], ◌∷◌, ◌++◌, GoString, str, ◌==◌, eqb, leb, map, on_some,
  if◌then◌else◌,
}
use k8s_deploy_monitor_opera.Persistence.Names.{lower_byte}
use mathlib.Core.List.{reverse}
use k8s_deploy_monitor_opera.Config.Fields.{ℤ, pos, Config}

-- `os.Getenv`, with the empty text for a variable that is not set
abbrev pub Env : Type 0
Env = GoString → GoString

unfoldable pub override : GoString → GoString → GoString
override v old = if v == [] then old else v

unfoldable pub apply_env_overrides : Env → Config → Config
apply_env_overrides env c = record c {
  slack_webhook_url = override (env (str "SLACK_WEBHOOK_URL")) c.slack_webhook_url;
  slack_bot_token = override (env (str "SLACK_BOT_TOKEN")) c.slack_bot_token;
  holmes_api_url = override (env (str "HOLMES_API_URL")) c.holmes_api_url;
  kubeconfig_dir = override (env (str "KUBECONFIG_DIR")) c.kubeconfig_dir;
  env_config_dir = override (env (str "ENV_CONFIG_DIR")) c.env_config_dir;
  slack_routing_file = override (env (str "SLACK_ROUTING_FILE")) c.slack_routing_file;
}

-- `strings.Split(s, ",")`, with the text before the next comma as far as it is read
unfoldable pub split_from : GoString → GoString → List GoString
split_from part [] = part ∷ []
split_from part (c ∷ s) =
    let here = split_from [] s in
    let more = split_from (part ++ c ∷ []) s in if eqb c b',' then part ∷ here else more

abbrev pub is_space : ℕ → Bool
is_space c = eqb c 32 || leb 9 c && leb c 13

unfoldable pub trim_space_left : GoString → GoString
trim_space_left [] = []
trim_space_left (c ∷ s) = if is_space c then trim_space_left s else c ∷ s

-- `strings.TrimSpace` on ASCII
unfoldable pub trim_space : GoString → GoString
trim_space s = reverse (trim_space_left (reverse (trim_space_left s)))

unfoldable pub trimmed_parts : List GoString → List GoString
trimmed_parts [] = []
trimmed_parts (p ∷ parts) =
    let rest = trimmed_parts parts in let t = trim_space p in if t == [] then rest else t ∷ rest

unfoldable pub split_trim : GoString → List GoString
split_trim s = trimmed_parts (split_from [] s)

-- `atoi` is strconv.Atoi, `none` an error.
unfoldable pub env_int : (GoString → Option ℤ) → Env → GoString → ℤ → ℤ
env_int atoi env key default_val =
    if env key == [] then default_val else on_some (atoi (env key)) default_val (λ n. n)

-- strings.ToLower on ASCII
abbrev pub to_lower : GoString → GoString
to_lower s = map lower_byte s

unfoldable pub env_bool : Env → GoString → Bool
env_bool env key = to_lower (env key) == str "true"

unfoldable pub env_list : Env → GoString → List GoString → List GoString
env_list env key old = if env key == [] then old else split_trim (env key)

unfoldable pub load_from_env_vars : (GoString → Option ℤ) → Env → Config → Config
load_from_env_vars atoi env c = record c {
  kubeconfig_dir = env (str "KUBECONFIG_DIR");
  holmes_api_url = env (str "HOLMES_API_URL");
  slack_webhook_url = env (str "SLACK_WEBHOOK_URL");
  slack_bot_token = env (str "SLACK_BOT_TOKEN");
  namespace_allowlist = env_list env (str "NAMESPACE_ALLOWLIST") c.namespace_allowlist;
  namespace_denylist = env_list env (str "NAMESPACE_DENYLIST") c.namespace_denylist;
  dispatch_mode = override (to_lower (env (str "DISPATCH_MODE"))) c.dispatch_mode;
  investigation_mode = override (to_lower (env (str "INVESTIGATION_MODE"))) c.investigation_mode;
  worker_count = env_int atoi env (str "WORKER_COUNT") (pos 0);
  debounce_seconds = env_int atoi env (str "DEBOUNCE_SECONDS") (pos 0);
  queue_max_size = env_int atoi env (str "QUEUE_MAX_SIZE") (pos 0);
  rescan_interval_seconds = env_int atoi env (str "RESCAN_INTERVAL_SECONDS") (pos 0);
  watcher_start_timeout_seconds = env_int atoi env (str "WATCHER_START_TIMEOUT_SECONDS") (pos 0);
  investigation_max_concurrent = env_int atoi env (str "INVESTIGATION_MAX_CONCURRENT") (pos 0);
  status_api_port = env_int atoi env (str "STATUS_API_PORT") (pos 0);
  rollout_record_ttl_days = env_int atoi env (str "ROLLOUT_RECORD_TTL_DAYS") (pos 0);
  diagnostic_max_concurrent = env_int atoi env (str "DIAGNOSTIC_MAX_CONCURRENT") (pos 0);
  debug = env_bool env (str "DEBUG");
  trace = env_bool env (str "TRACE");
  persistence_enabled = env_bool env (str "PERSISTENCE_ENABLED");
  dispatcher_split = env_bool env (str "DISPATCHER_SPLIT");
  diagnostic_enabled = env_bool env (str "DIAGNOSTIC_ENABLED");
  watchlist_enabled = env_bool env (str "WATCHLIST_ENABLED");
  watchlist_port = env_int atoi env (str "WATCHLIST_PORT") (pos 0);
  persistence_namespace = env (str "PERSISTENCE_NAMESPACE");
}
