-- ===== src/Investigation/Cache.antt =====
-- internal/investigation/status_cache.go and status_api.go: the last status of each deployment.
use k8s_deploy_monitor_opera.Prelude.{
  ℕ, Option, none, some, List, [], ◌∷◌, GoString, Map, lookup, insert, has_suffix, map,
  if◌then◌else◌,
}

pub record InvestigationStatus : Type 0 where
  pub deployment_key : GoString
  pub result : GoString
  pub failure_reason : GoString
  pub duration : ℕ
  pub timestamp : ℕ

abbrev pub StatusCache : Type 0
StatusCache = Map InvestigationStatus

unfoldable pub new_status_cache : StatusCache
new_status_cache = []

unfoldable pub update_status : InvestigationStatus → StatusCache → StatusCache
update_status s c = insert s.deployment_key s c

unfoldable pub get_status : GoString → StatusCache → Option InvestigationStatus
get_status key c = lookup key c

unfoldable pub list_statuses : StatusCache → List InvestigationStatus
list_statuses c = map (λ e. e.1) c

unfoldable pub first_with_suffix : GoString → List InvestigationStatus → Option InvestigationStatus
first_with_suffix suffix [] = none
first_with_suffix suffix (s ∷ ss) =
    if has_suffix suffix s.deployment_key then some s else first_with_suffix suffix ss

-- The status that `handleSingle` answers with; `none` is the error that nothing is found.
unfoldable pub handle_single : StatusCache → GoString → Option InvestigationStatus
handle_single c sub = first_with_suffix (b'/' ∷ sub) (list_statuses c)
