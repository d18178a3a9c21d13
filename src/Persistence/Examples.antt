-- ===== src/Persistence/Examples.antt =====
-- Concrete runs of the hash store, against a server in memory.
use k8s_deploy_monitor_opera.Prelude.{
  ◌≡◌, ◌≤◌, refl, true, Option, none, some, List, [], ◌∷◌, GoString, str, Map, lookup, insert,
  has_key, ◌==◌, All, length, HasUniqueKeys, lookup-insert, arith, inl, inr,
}
use k8s_deploy_monitor_opera.Persistence.Names.{
  sanitize_name, max_name, trim, trim_left, replace_byte, lower_byte,
}
use k8s_deploy_monitor_opera.Persistence.Names.Safety.{IsSafe, sanitize_name-IsSafe}
use k8s_deploy_monitor_opera.Persistence.HashStore.{
  ClusterRolloutStateSpec, ClusterRolloutState, found, not_found, Client, Pending, Update,
  buffer_all, flush,
}
use k8s_deploy_monitor_opera.Persistence.HashStore.Upsert.{IsFaithful}
use k8s_deploy_monitor_opera.Persistence.HashStore.Flush.{
  OwnsObject, arrivals_during, known, known-flush,
}

sanitize_name-IsSafe_example :
    (length (sanitize_name (str "Prod/East_1")) ≤ max_name)
    × All IsSafe (sanitize_name (str "Prod/East_1"))
sanitize_name-IsSafe_example = sanitize_name-IsSafe (str "Prod/East_1")

-- a server that accepts every write, and every read but those of objects it lacks
abbrev memory : Client
memory = record {
  Server = Map ClusterRolloutStateSpec;
  get = λ name s. elim (lookup name s) [
    | none ↦ not_found
    | some spec ↦ found (record { name = name; spec = spec; tracked_deployments = 0 })
  ];
  create = λ o s. (insert o.name o.spec s, true);
  update = λ o s. (insert o.name o.spec s, true);
  update_status = λ o s. (s, true);
}

memory-found :
    (name : GoString) (o : ClusterRolloutState) (r : Option ClusterRolloutStateSpec)
    → elim r [
      | none ↦ not_found
      | some spec ↦ found (record { name = name; spec = spec; tracked_deployments = 0 })
    ]
      ≡ found o
    → (r ≡ some o.spec) × (o.name ≡ name)
memory-found name o none e = cc
memory-found name o (some spec) e = ground arith

memory-not_found :
    (name : GoString) (r : Option ClusterRolloutStateSpec)
    → elim r [
      | none ↦ not_found
      | some spec ↦ found (record { name = name; spec = spec; tracked_deployments = 0 })
    ]
      ≡ not_found
    → r ≡ none
memory-not_found name none e = refl
memory-not_found name (some spec) e = cc

memory-IsFaithful : IsFaithful memory
memory-IsFaithful = record {
  stored = λ name s. lookup name s;
  get_found = λ name s o e. memory-found name o (lookup name s) e;
  get_not_found = λ name s e. memory-not_found name (lookup name s) e;
  create_stores = λ name o s. lookup-insert o.name name o.spec s;
  update_stores = λ name o s. lookup-insert o.name name o.spec s;
  status_keeps = λ name o s. refl;
}

abbrev pending : Pending
pending =
    (str "east", (str "shop/cart", str "v2") ∷ []) ∷ (str "west", (str "shop/cart", []) ∷ []) ∷ []

abbrev arrivals : GoString → List Update
arrivals cluster = (str "east", str "shop/cart", str "v3") ∷ []

abbrev server : Map ClusterRolloutStateSpec
server =
    (
      str "east",
      record { cluster_id = str "east"; template_hashes = (str "shop/cart", str "v1") ∷ [] },
    )
    ∷ []

pending_unique : HasUniqueKeys pending
unfolding has_key lookup ◌==◌
pending_unique = (refl, (refl, tt))

pending_inner_unique : All (λ e. HasUniqueKeys (e.1)) pending
unfolding has_key lookup ◌==◌
pending_inner_unique = ((refl, tt), ((refl, tt), tt))

pending-OwnsObject : OwnsObject memory memory-IsFaithful (str "east") pending
unfolding sanitize_name trim trim_left replace_byte lower_byte ◌==◌
pending-OwnsObject = (inl refl, (inr refl, tt))

known-flush_example :
    known memory memory-IsFaithful
      (str "east")
      (str "shop/cart")
      (flush memory arrivals (pending, server))
    ≡ known memory memory-IsFaithful
        (str "east")
        (str "shop/cart")
        (buffer_all (arrivals_during memory memory-IsFaithful arrivals pending) pending, server)
known-flush_example =
    known-flush memory memory-IsFaithful arrivals pending server (str "east") (str "shop/cart")
      pending_unique pending_inner_unique pending-OwnsObject
