-- ===== src/Config/Environment.antt =====
-- internal/config/env_config.go: the namespaces that environments claim for apps.
pub mod Claims
pub mod Watched
mod Examples
use k8s_deploy_monitor_opera.Prelude.{
  Bool, true, false, not, ◌||◌, Option, none, some, List, [], ◌∷◌, ◌++◌, GoString, str, Map, lookup,
  insert, index, has_key, has_suffix, ◌==◌, on_some, if◌then◌else◌,
}
use k8s_deploy_monitor_opera.Config.Directory.{DirEntry}

pub record AppDeployment : Type 0 where
  pub app : GoString
  pub namespaces : List GoString

pub record ClusterDeployments : Type 0 where
  pub name : GoString
  pub deployments : List AppDeployment

pub record EnvConfig : Type 0 where
  pub clusters : List ClusterDeployments

-- The entries of the directory, and what reading and parsing a file of it gives; `none` is an error.
module _ (entries : Option (List DirEntry)) (read_config : GoString → Option EnvConfig) where
  unfoldable pub is_env_file : GoString → Bool
  is_env_file name = has_suffix (str ".yaml") name || has_suffix (str ".yml") name

  -- the loop of `LoadEnvConfigs`
  unfoldable pub env_configs_in : List DirEntry → List EnvConfig
  env_configs_in [] = []
  env_configs_in (e ∷ rest) =
      let others = env_configs_in rest in
      if e.is_dir
      then others
      else if not (is_env_file e.name)
      then others
      else on_some (read_config e.name) others (λ ec. ec ∷ others)

  unfoldable pub some_configs : List EnvConfig → Option (List EnvConfig)
  some_configs [] = none
  some_configs (c ∷ cs) = some (c ∷ cs)

  unfoldable pub load_env_configs : Option (List EnvConfig)
  load_env_configs = on_some entries none (λ es. some_configs (env_configs_in es))

-- clusterID → namespace → app name
abbrev pub NamespaceLookup : Type 0
NamespaceLookup = Map (Map GoString)

-- the map of a cluster, made where it is missing
unfoldable pub cluster_table : GoString → NamespaceLookup → Map GoString
cluster_table cluster table = on_some (lookup cluster table) [] (λ m. m)

-- The loops of `BuildNamespaceLookup`: over the namespaces of an app, where a namespace that is
-- claimed already stays with its app;
unfoldable pub claim_namespaces : GoString → List GoString → Map GoString → Map GoString
claim_namespaces app [] m = m
claim_namespaces app (ns ∷ nss) m =
    claim_namespaces app nss (if has_key ns m then m else insert ns app m)

-- over the apps of a cluster,
unfoldable pub claim_deployments : List AppDeployment → Map GoString → Map GoString
claim_deployments [] m = m
claim_deployments (d ∷ ds) m = claim_deployments ds (claim_namespaces d.app d.namespaces m)

-- over the clusters of an environment,
unfoldable pub claim_clusters : List ClusterDeployments → NamespaceLookup → NamespaceLookup
claim_clusters [] table = table
claim_clusters (c ∷ cs) table =
    claim_clusters cs
      (insert c.name (claim_deployments c.deployments (cluster_table c.name table)) table)

-- and over the environments.
unfoldable pub claim_configs : List EnvConfig → NamespaceLookup → NamespaceLookup
claim_configs [] table = table
claim_configs (ec ∷ ecs) table = claim_configs ecs (claim_clusters ec.clusters table)

unfoldable pub build_namespace_lookup : List EnvConfig → NamespaceLookup
build_namespace_lookup configs = claim_configs configs []

-- `none` is the nil lookup
unfoldable pub get_app : GoString → GoString → Option NamespaceLookup → GoString
get_app cluster ns none = []
get_app cluster ns (some table) =
    on_some (lookup cluster table) [] (λ m. on_some (lookup ns m) [] (λ app. app))

unfoldable pub get_slack_channel :
    GoString → GoString → Option (Map GoString) → Option NamespaceLookup → GoString
get_slack_channel cluster ns routing l =
    let app = get_app cluster ns l in
    if app == []
    then []
    else on_some routing [] (λ m. on_some (lookup app m) [] (λ channel. channel))

-- `RequiredClusters`: what is seen, and the clusters so far
unfoldable pub require :
    List ClusterDeployments → Map Bool × List GoString → Map Bool × List GoString
require [] r = r
require (c ∷ cs) (seen, out) =
    require cs
      (if index seen c.name then (seen, out) else (insert c.name true seen, out ++ c.name ∷ []))

unfoldable pub require_all : List EnvConfig → Map Bool × List GoString → Map Bool × List GoString
require_all [] r = r
require_all (ec ∷ ecs) r = require_all ecs (require ec.clusters r)

unfoldable pub required_clusters : List EnvConfig → List GoString
required_clusters configs = (require_all configs ([], [])).1

-- the loops of `AllowedNamespaces`
unfoldable pub allow_namespaces : List GoString → Map Bool → Map Bool
allow_namespaces [] m = m
allow_namespaces (ns ∷ nss) m = allow_namespaces nss (insert ns true m)

unfoldable pub allow_deployments : List AppDeployment → Map Bool → Map Bool
allow_deployments [] m = m
allow_deployments (d ∷ ds) m = allow_deployments ds (allow_namespaces d.namespaces m)

unfoldable pub allow_clusters : GoString → List ClusterDeployments → Map Bool → Map Bool
allow_clusters cluster [] m = m
allow_clusters cluster (c ∷ cs) m =
    allow_clusters cluster cs
      (if not (c.name == cluster) then m else allow_deployments c.deployments m)

unfoldable pub allow_configs : GoString → List EnvConfig → Map Bool → Map Bool
allow_configs cluster [] m = m
allow_configs cluster (ec ∷ ecs) m =
    allow_configs cluster ecs (allow_clusters cluster ec.clusters m)

unfoldable pub allowed_namespaces : List EnvConfig → GoString → Map Bool
allowed_namespaces configs cluster = allow_configs cluster configs []
