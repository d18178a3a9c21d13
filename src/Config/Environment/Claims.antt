-- ===== src/Config/Environment/Claims.antt =====
-- Which app a namespace belongs to: the claims in the order of the environments.
use k8s_deploy_monitor_opera.Prelude.{
  Option, none, some, List, [], ◌∷◌, ◌++◌, GoString, Map, map, lookup, insert, has_key,
  lookup-insert, lookup-nil, ◌==◌, eq_iff, on_some, if◌then◌else◌, ◌≡◌, refl, sym, ap, ◌∙◌, arith,
  inl, inr, Bool-cases, Option-cases,
}
use k8s_deploy_monitor_opera.Config.Environment.{
  AppDeployment, ClusterDeployments, EnvConfig, NamespaceLookup, cluster_table, claim_namespaces,
  claim_deployments, claim_clusters, claim_configs, build_namespace_lookup, get_app,
}

-- The namespaces and apps of a cluster, in the order of the environments.
abbrev pub claims_of_app : GoString → List GoString → Map GoString
claims_of_app app nss = map (λ ns. (ns, app)) nss

abbrev pub claims_of : List AppDeployment → Map GoString
claims_of [] = []
claims_of (d ∷ ds) = claims_of_app d.app d.namespaces ++ claims_of ds

abbrev pub claims_in : GoString → List ClusterDeployments → Map GoString
claims_in cluster [] = []
claims_in cluster (c ∷ cs) =
    (if c.name == cluster then claims_of c.deployments else []) ++ claims_in cluster cs

abbrev pub claims_on : GoString → List EnvConfig → Map GoString
claims_on cluster [] = []
claims_on cluster (ec ∷ ecs) = claims_in cluster ec.clusters ++ claims_on cluster ecs

-- the first of two answers
abbrev pub or_else : Option GoString → Option GoString → Option GoString
or_else none b = b
or_else (some a) b = some a

lookup-append :
    (k : GoString) (m n : Map GoString) → lookup k (m ++ n) ≡ or_else (lookup k m) (lookup k n)
unfolding lookup
lookup-append k [] n = refl
lookup-append k (e ∷ m) n = ground (arith, lookup-append k m n)

or_else_assoc : (a b c : Option GoString) → or_else (or_else a b) c ≡ or_else a (or_else b c)
or_else_assoc none b c = refl
or_else_assoc (some a) b c = refl

or_else-none : (a : Option GoString) → or_else a none ≡ a
or_else-none none = refl
or_else-none (some a) = refl

-- one claim: a namespace that is claimed already stays with its app
claim_once :
    (k app ns : GoString) (m : Map GoString) (rest : Option GoString)
    → or_else (lookup k (if has_key ns m then m else insert ns app m)) rest
      ≡ or_else (lookup k m) (if ns == k then some app else rest)
unfolding has_key
claim_once k app ns m rest = elim (Option-cases (lookup ns m)) [
  | inl fresh ↦ rw (fresh, lookup-insert ns k app m) (ground (arith, fresh, eq_iff ns k))
  | inr (old, taken) ↦ rw taken (ground (arith, taken, eq_iff ns k))
]

lookup-claim_namespaces :
    (k app : GoString) (nss : List GoString) (m : Map GoString)
    → lookup k (claim_namespaces app nss m)
      ≡ or_else (lookup k m) (lookup k (claims_of_app app nss))
unfolding claim_namespaces lookup
lookup-claim_namespaces k app [] m = sym (or_else-none (lookup k m))
lookup-claim_namespaces k app (ns ∷ nss) m =
    lookup-claim_namespaces k app nss _ ∙ claim_once k app ns m (lookup k (claims_of_app app nss))

lookup-claim_deployments :
    (k : GoString) (ds : List AppDeployment) (m : Map GoString)
    → lookup k (claim_deployments ds m) ≡ or_else (lookup k m) (lookup k (claims_of ds))
unfolding claim_deployments
lookup-claim_deployments k [] m = rw (lookup-nil k, or_else-none (lookup k m)) refl
lookup-claim_deployments k (d ∷ ds) m =
    lookup-claim_deployments k ds (claim_namespaces d.app d.namespaces m)
    ∙ rw
        (
          lookup-claim_namespaces k d.app d.namespaces m,
          lookup-append k (claims_of_app d.app d.namespaces) (claims_of ds),
          or_else_assoc (lookup k m) (lookup k (claims_of_app d.app d.namespaces))
              (lookup k (claims_of ds)),
        )
        refl

cluster_table-insert :
    (c j : GoString) (m : Map GoString) (table : NamespaceLookup)
    → cluster_table c (insert j m table) ≡ (if j == c then m else cluster_table c table)
unfolding cluster_table
cluster_table-insert c j m table = rw (lookup-insert j c m table) (ground arith)

-- one cluster of an environment
lookup-claim_cluster :
    (k cluster : GoString) (c : ClusterDeployments) (table : NamespaceLookup)
    → lookup k (
        cluster_table cluster
          (insert c.name (claim_deployments c.deployments (cluster_table c.name table)) table))
      ≡ or_else
          (lookup k (cluster_table cluster table))
          (lookup k (if c.name == cluster then claims_of c.deployments else []))
lookup-claim_cluster k cluster c table = elim (Bool-cases (c.name == cluster)) [
  | inl same ↦
      rw (cluster_table-insert cluster c.name _ table, same, (eq_iff c.name cluster).0 same)
        (lookup-claim_deployments k c.deployments (cluster_table cluster table))
  | inr other ↦
      rw
        (
          cluster_table-insert cluster c.name _ table,
          other,
          lookup-nil k,
          or_else-none (lookup k (cluster_table cluster table)),
        )
        refl
]

lookup-claim_clusters :
    (k cluster : GoString) (cs : List ClusterDeployments) (table : NamespaceLookup)
    → lookup k (cluster_table cluster (claim_clusters cs table))
      ≡ or_else (lookup k (cluster_table cluster table)) (lookup k (claims_in cluster cs))
unfolding claim_clusters
lookup-claim_clusters k cluster [] table =
    rw (lookup-nil k, or_else-none (lookup k (cluster_table cluster table))) refl
lookup-claim_clusters k cluster (c ∷ cs) table =
    lookup-claim_clusters k cluster cs _
    ∙ rw
        (
          lookup-claim_cluster k cluster c table,
          lookup-append k (if c.name == cluster then claims_of c.deployments else [])
              (claims_in cluster cs),
          or_else_assoc (lookup k (cluster_table cluster table))
              (lookup k (if c.name == cluster then claims_of c.deployments else []))
              (lookup k (claims_in cluster cs)),
        )
        refl

lookup-claim_configs :
    (k cluster : GoString) (ecs : List EnvConfig) (table : NamespaceLookup)
    → lookup k (cluster_table cluster (claim_configs ecs table))
      ≡ or_else (lookup k (cluster_table cluster table)) (lookup k (claims_on cluster ecs))
unfolding claim_configs
lookup-claim_configs k cluster [] table =
    rw (lookup-nil k, or_else-none (lookup k (cluster_table cluster table))) refl
lookup-claim_configs k cluster (ec ∷ ecs) table =
    lookup-claim_configs k cluster ecs (claim_clusters ec.clusters table)
    ∙ rw
        (
          lookup-claim_clusters k cluster ec.clusters table,
          lookup-append k (claims_in cluster ec.clusters) (claims_on cluster ecs),
          or_else_assoc (lookup k (cluster_table cluster table))
              (lookup k (claims_in cluster ec.clusters)) (lookup k (claims_on cluster ecs)),
        )
        refl

get_app-cluster_table :
    (cluster ns : GoString) (table : NamespaceLookup)
    → get_app cluster ns (some table)
      ≡ on_some (lookup ns (cluster_table cluster table)) [] (λ app. app)
unfolding get_app cluster_table
get_app-cluster_table cluster ns table = elim (Option-cases (lookup cluster table)) [
  | inl absent ↦ rw (absent, lookup-nil ns) refl
  | inr (m, found) ↦ rw found refl
]

nothing_claimed : (ns cluster : GoString) → lookup ns (cluster_table cluster []) ≡ none
unfolding cluster_table lookup
nothing_claimed ns cluster = refl

pub lookup-build :
    (configs : List EnvConfig) (cluster ns : GoString)
    → lookup ns (cluster_table cluster (build_namespace_lookup configs))
      ≡ lookup ns (claims_on cluster configs)
unfolding build_namespace_lookup
lookup-build configs cluster ns =
    lookup-claim_configs ns cluster configs [] ∙ rw (nothing_claimed ns cluster) refl

-- A namespace of a cluster belongs to the app that claims it first in the order of the
-- environments, and to none if no app claims it.
pub get_app-first_claim :
    (configs : List EnvConfig) (cluster ns : GoString)
    → get_app cluster ns (some (build_namespace_lookup configs))
      ≡ on_some (lookup ns (claims_on cluster configs)) [] (λ app. app)
get_app-first_claim configs cluster ns =
    get_app-cluster_table cluster ns (build_namespace_lookup configs)
    ∙ ap (λ o. on_some o [] (λ app. app)) (lookup-build configs cluster ns)
