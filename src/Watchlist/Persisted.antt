-- ===== src/Watchlist/Persisted.antt =====
-- internal/watchlist/store.go: `Put` with `upsertCRD`, which writes the AppWatchConfig object.
pub mod Restart
mod Examples
use k8s_deploy_monitor_opera.Prelude.{
  Bool, true, false, Option, none, some, List, [], ◌∷◌, GoString, Map, if◌then◌else◌,
}
use k8s_deploy_monitor_opera.Persistence.Names.{sanitize_name}
use k8s_deploy_monitor_opera.Watchlist.{
  AppWatchConfigSpec, Store, Conflict, PutOutcome, accepted_of, claims, conflicts_of, put,
}

pub data GetResult : Type 0 where
  exists : GetResult
  not_found : GetResult
  get_failed : GetResult

-- The client's calls for AppWatchConfig objects, by name. A write reports whether it succeeded.
pub record WatchClient : Type 1 where
  pub Server : Type 0
  pub get : GoString → Server → GetResult
  pub list_items : Server → Option (List (GoString × AppWatchConfigSpec))
  pub create : GoString → AppWatchConfigSpec → Server → Server × Bool
  pub update : GoString → AppWatchConfigSpec → Server → Server × Bool

module _ (client : WatchClient) where
  -- the result is whether the object was created, and `none` an error
  unfoldable pub upsert_after :
      GetResult → GoString → AppWatchConfigSpec → client.Server → client.Server × Option Bool
  upsert_after not_found name spec s =
      let (s', ok) = client.create name spec s in (s', if ok then some true else none)
  upsert_after get_failed name spec s = (s, none)
  upsert_after exists name spec s =
      let (s', ok) = client.update name spec s in (s', if ok then some false else none)

  unfoldable pub upsert_crd :
      GoString → AppWatchConfigSpec → client.Server → client.Server × Option Bool
  upsert_crd app spec s = upsert_after (client.get (sanitize_name app) s) (sanitize_name app) spec s

  -- the object is written only where there is no conflict
  unfoldable pub write_unless :
      List Conflict → GoString → AppWatchConfigSpec → client.Server → client.Server × Option Bool
  write_unless [] app spec s = upsert_crd app spec s
  write_unless (c ∷ cs) app spec s = (s, none)

  -- `Put`, with the server
  unfoldable pub put_persist :
      Map Bool
      → GoString
      → AppWatchConfigSpec
      → Store
      → client.Server
      → (Store × PutOutcome) × client.Server
  put_persist known app spec s server =
      let accepted : Map (List GoString) = accepted_of known spec.clusters in
      let (server', upserted) =
        write_unless (conflicts_of app s.index (claims accepted)) app
          (record { slack_channel = spec.slack_channel; clusters = accepted }) server in
      (put known upserted app spec s, server')
