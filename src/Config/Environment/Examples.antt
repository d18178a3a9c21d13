-- ===== src/Config/Environment/Examples.antt =====
-- Two environments that claim one namespace.
use k8s_deploy_monitor_opera.Prelude.{some, List, [], ◌∷◌, GoString, str, lookup, ◌≡◌, ◌==◌}
use k8s_deploy_monitor_opera.Config.Environment.{EnvConfig, build_namespace_lookup, get_app}
use k8s_deploy_monitor_opera.Config.Environment.Claims.{get_app-first_claim}

abbrev environment : GoString → EnvConfig
environment app = record {
  clusters =
      record {
        name = str "east";
        deployments = record { app = app; namespaces = str "shop" ∷ [] } ∷ [];
      }
      ∷ [];
}

abbrev configs : List EnvConfig
configs = environment (str "cart") ∷ environment (str "search") ∷ []

get_app-first_claim_example :
    get_app (str "east") (str "shop") (some (build_namespace_lookup configs)) ≡ str "cart"
unfolding lookup ◌==◌
get_app-first_claim_example = get_app-first_claim configs (str "east") (str "shop")
