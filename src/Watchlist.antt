-- ===== src/Watchlist.antt =====
-- internal/watchlist/store.go: which app owns which namespace of which cluster. `Put` checks for
-- conflicts under a read lock and changes the index under a later write lock: `put_checked` has the
-- store of each, which other calls may have changed in between; in `put` nothing comes between.
pub mod Ownership
pub mod Handler
pub mod Persisted
mod Examples
use k8s_deploy_monitor_opera.Prelude.{
  ℕ, Bool, true, false, not, ◌&&◌, Option, none, some, List, [], ◌∷◌, ◌++◌, GoString, str, Map,
  lookup, insert, remove, has_key, index, map, ◌==◌, join_key, on_some, if◌then◌else◌,
}

pub record WatchEntry : Type 0 where
  pub app : GoString
  pub slack_channel : GoString

-- `AppWatchConfigSpec` of api/v1alpha1: the namespaces of each cluster
pub record AppWatchConfigSpec : Type 0 where
  pub slack_channel : GoString
  pub clusters : Map (List GoString)

pub record Conflict : Type 0 where
  pub cluster_id : GoString
  pub namespace : GoString
  pub owner_app : GoString

pub record Store : Type 0 where
  pub index : Map WatchEntry
  pub apps : Map AppWatchConfigSpec

pub record PutResult : Type 0 where
  pub created : Bool
  pub accepted : Map (List GoString)
  pub rejected : Map GoString

-- how a call of `Put` ends
pub data PutOutcome : Type 0 where
  put_ok : PutResult → PutOutcome
  conflict_error : List Conflict → PutOutcome
  persist_error : PutOutcome

-- the pairs that the nested loops over a spec visit
unfoldable pub claims : Map (List GoString) → List (GoString × GoString)
claims [] = []
claims ((cluster, namespaces) ∷ rest) = map (λ ns. (cluster, ns)) namespaces ++ claims rest

-- `addToIndex`
unfoldable pub add_claims :
    WatchEntry → List (GoString × GoString) → Map WatchEntry → Map WatchEntry
add_claims entry [] m = m
add_claims entry ((cluster, ns) ∷ rest) m =
    add_claims entry rest (insert (join_key cluster ns) entry m)

unfoldable pub add_to_index : GoString → AppWatchConfigSpec → Map WatchEntry → Map WatchEntry
add_to_index app spec m =
    add_claims (record { app = app; slack_channel = spec.slack_channel }) (claims spec.clusters) m

unfoldable pub remove_from_index : GoString → Map WatchEntry → Map WatchEntry
remove_from_index app [] = []
remove_from_index app ((key, entry) ∷ rest) =
    let kept = remove_from_index app rest in if entry.app == app then kept else (key, entry) ∷ kept

-- `Lookup`
unfoldable pub lookup_entry : GoString → GoString → Store → Option WatchEntry
lookup_entry cluster ns s = lookup (join_key cluster ns) s.index

-- the loop of `LoadAll` over the objects, by name
unfoldable pub load_items : List (GoString × AppWatchConfigSpec) → Store → Store
load_items [] s = s
load_items ((name, spec) ∷ rest) s =
    load_items rest
      (record { apps = insert name spec s.apps; index = add_to_index name spec s.index })

-- `none` is an error of the list call
unfoldable pub load_all : Option (List (GoString × AppWatchConfigSpec)) → Store → Store
load_all items s = on_some items s (λ l. load_items l (record { index = []; apps = [] }))

-- the first loop of `Put`: known and unknown clusters
unfoldable pub accepted_of : Map Bool → Map (List GoString) → Map (List GoString)
accepted_of known [] = []
accepted_of known ((cluster, namespaces) ∷ rest) =
    let others = accepted_of known rest in
    if index known cluster then (cluster, namespaces) ∷ others else others

unfoldable pub rejected_of : Map Bool → Map (List GoString) → Map GoString
rejected_of known [] = []
rejected_of known ((cluster, namespaces) ∷ rest) =
    let others = rejected_of known rest in
    if index known cluster then others else (cluster, str "unknown cluster") ∷ others

-- the second loop: pairs that another app owns
unfoldable pub conflicts_of : GoString → Map WatchEntry → List (GoString × GoString) → List Conflict
conflicts_of app m [] = []
conflicts_of app m ((cluster, ns) ∷ rest) =
    let others = conflicts_of app m rest in
    on_some (lookup (join_key cluster ns) m) others (λ entry.
      if entry.app == app
      then others
      else record { cluster_id = cluster; namespace = ns; owner_app = entry.app } ∷ others)

-- the last part of `Put`, under the write lock
unfoldable pub commit : GoString → AppWatchConfigSpec → Store → Store
commit app spec s = record {
  index = add_to_index app spec (remove_from_index app s.index);
  apps = insert app spec s.apps;
}

-- `upserted` is the result of `upsertCRD` for this app: if it was created, `none` for an error.
unfoldable pub put_after :
    List Conflict
    → Option Bool
    → GoString
    → AppWatchConfigSpec
    → Map GoString
    → Store
    → Store × PutOutcome
put_after (c ∷ cs) upserted app spec rejected s = (s, conflict_error (c ∷ cs))
put_after [] none app spec rejected s = (s, persist_error)
put_after [] (some created) app spec rejected s = (
  commit app spec s,
  put_ok (record { created = created; accepted = spec.clusters; rejected = rejected }),
)

-- `checked` is the store at the conflict check, `s` the one at the end of the call.
unfoldable pub put_checked :
    Map Bool → Option Bool → GoString → AppWatchConfigSpec → Store → Store → Store × PutOutcome
put_checked known upserted app spec checked s =
    let accepted : Map (List GoString) = accepted_of known spec.clusters in
    put_after (conflicts_of app checked.index (claims accepted)) upserted app
      (record { slack_channel = spec.slack_channel; clusters = accepted })
      (rejected_of known spec.clusters) s

unfoldable pub put :
    Map Bool → Option Bool → GoString → AppWatchConfigSpec → Store → Store × PutOutcome
put known upserted app spec s = put_checked known upserted app spec s s

-- `Delete`: `deleted` says if the API deleted the object or had none; `false` is an error.
-- `checked` is the store when the app is looked up, `s` the one at the end of the call.
unfoldable pub delete_checked : Bool → GoString → Store → Store → Store × Bool
delete_checked deleted app checked s =
    if has_key app checked.apps && deleted
    then (record { index = remove_from_index app s.index; apps = remove app s.apps }, true)
    else (s, false)

unfoldable pub delete : Bool → GoString → Store → Store × Bool
delete deleted app s = delete_checked deleted app s s

-- the loop of `DesiredClusters`
unfoldable pub clusters_of : Map (List GoString) → Map Bool → Map Bool
clusters_of [] m = m
clusters_of ((cluster, namespaces) ∷ rest) m = clusters_of rest (insert cluster true m)

unfoldable pub desired_from : Map AppWatchConfigSpec → Map Bool → Map Bool
desired_from [] m = m
desired_from ((app, spec) ∷ rest) m = desired_from rest (clusters_of spec.clusters m)

unfoldable pub desired_clusters : Store → Map Bool
desired_clusters s = desired_from s.apps []
