-- ===== src/Config/Environment/Watched.antt =====
-- The namespaces that are watched on a cluster, and the apps they belong to.
use k8s_deploy_monitor_opera.Prelude.{
  Bool, true, false, not, ◌||◌, List, [], ◌∷◌, ◌++◌, GoString, Map, lookup, insert, index, has_key,
  has_key-cons, index-insert, ◌==◌, is_some, if◌then◌else◌, ◌≡◌, refl, sym, ap, ◌∙◌, arith, inl,
  inr, Bool-cases,
}
use k8s_deploy_monitor_opera.Config.Environment.{
  AppDeployment, ClusterDeployments, EnvConfig, cluster_table, build_namespace_lookup,
  allow_namespaces, allow_deployments, allow_clusters, allow_configs, allowed_namespaces,
}
use k8s_deploy_monitor_opera.Config.Environment.Claims.{
  claims_of_app, claims_of, claims_in, claims_on, lookup-build,
}

has_key-append :
    (k : GoString) (m n : Map GoString) → has_key k (m ++ n) ≡ (has_key k m || has_key k n)
unfolding has_key lookup
has_key-append k [] n = refl
has_key-append k (e ∷ m) n = ground (arith, has_key-append k m n)

or_nil : (b : Bool) (k : GoString) → (b || has_key {V = GoString} k []) ≡ b
unfolding has_key lookup
or_nil true k = refl
or_nil false k = refl

or_assoc : (a b c : Bool) → ((a || b) || c) ≡ (a || (b || c))
or_assoc true b c = refl
or_assoc false b c = refl

index-allow_namespaces :
    (k app : GoString) (nss : List GoString) (m : Map Bool)
    → index (allow_namespaces nss m) k ≡ (index m k || has_key k (claims_of_app app nss))
unfolding allow_namespaces
index-allow_namespaces k app [] m = sym (or_nil (index m k) k)
index-allow_namespaces k app (ns ∷ nss) m = ground (
  arith,
  index-allow_namespaces k app nss (insert ns true m),
  index-insert ns k true m,
  has_key-cons k ns app (claims_of_app app nss),
)

index-allow_deployments :
    (k : GoString) (ds : List AppDeployment) (m : Map Bool)
    → index (allow_deployments ds m) k ≡ (index m k || has_key k (claims_of ds))
unfolding allow_deployments
index-allow_deployments k [] m = sym (or_nil (index m k) k)
index-allow_deployments k (d ∷ ds) m = ground (
  arith,
  index-allow_deployments k ds (allow_namespaces d.namespaces m),
  index-allow_namespaces k d.app d.namespaces m,
  has_key-append k (claims_of_app d.app d.namespaces) (claims_of ds),
)

index-allow_cluster :
    (k cluster : GoString) (c : ClusterDeployments) (m : Map Bool)
    → index (if not (c.name == cluster) then m else allow_deployments c.deployments m) k
      ≡ (index m k || has_key k (if c.name == cluster then claims_of c.deployments else []))
index-allow_cluster k cluster c m = elim (Bool-cases (c.name == cluster)) [
  | inl same ↦ rw same (index-allow_deployments k c.deployments m)
  | inr other ↦ rw other (sym (or_nil (index m k) k))
]

index-allow_clusters :
    (k cluster : GoString) (cs : List ClusterDeployments) (m : Map Bool)
    → index (allow_clusters cluster cs m) k ≡ (index m k || has_key k (claims_in cluster cs))
unfolding allow_clusters
index-allow_clusters k cluster [] m = sym (or_nil (index m k) k)
index-allow_clusters k cluster (c ∷ cs) m =
    index-allow_clusters k cluster cs _
    ∙ rw
        (
          index-allow_cluster k cluster c m,
          has_key-append k (if c.name == cluster then claims_of c.deployments else [])
              (claims_in cluster cs),
        )
        (or_assoc (index m k) _ (has_key k (claims_in cluster cs)))

index-allow_configs :
    (k cluster : GoString) (ecs : List EnvConfig) (m : Map Bool)
    → index (allow_configs cluster ecs m) k ≡ (index m k || has_key k (claims_on cluster ecs))
unfolding allow_configs
index-allow_configs k cluster [] m = sym (or_nil (index m k) k)
index-allow_configs k cluster (ec ∷ ecs) m =
    index-allow_configs k cluster ecs _
    ∙ rw
        (
          index-allow_clusters k cluster ec.clusters m,
          has_key-append k (claims_in cluster ec.clusters) (claims_on cluster ecs),
        )
        (or_assoc (index m k) _ (has_key k (claims_on cluster ecs)))

-- A namespace is watched on a cluster exactly if the lookup table has an app for it there.
allowed_namespaces-build :
    (configs : List EnvConfig) (cluster ns : GoString)
    → index (allowed_namespaces configs cluster) ns
      ≡ has_key ns (cluster_table cluster (build_namespace_lookup configs))
unfolding allowed_namespaces has_key index lookup
allowed_namespaces-build configs cluster ns =
    index-allow_configs ns cluster configs [] ∙ ap is_some (sym (lookup-build configs cluster ns))
