-- ===== src/Watchlist/Handler.antt =====
-- internal/watchlist/handler.go: the HTTP requests that change the watchlist.
pub mod Answers
use k8s_deploy_monitor_opera.Prelude.{
  ℕ, Bool, true, false, not, ◌&&◌, Option, none, some, List, [], ◌∷◌, GoString, str, Map, has_key,
  ◌==◌, on_some, if◌then◌else◌,
}
use k8s_deploy_monitor_opera.Watchlist.{
  AppWatchConfigSpec, Store, PutResult, PutOutcome, put_ok, conflict_error, persist_error, put,
  delete,
}

-- A request: its method, the path after the prefix, and the decoded body, `none` for a body that
-- is not valid JSON.
pub record Request : Type 0 where
  pub method : GoString
  pub sub : GoString
  pub body : Option AppWatchConfigSpec

-- The store, and whether the reconcile trigger, a channel of one place, has a signal.
pub record Api : Type 0 where
  pub store : Store
  pub triggered : Bool

-- `triggerReconcile`: where the place is taken, the signal is dropped
unfoldable pub trigger_reconcile : Api → Api
trigger_reconcile a = record a { triggered = true }

unfoldable pub is_empty_map : Map (List GoString) → Bool
is_empty_map [] = true
is_empty_map (e ∷ m) = false

-- the answer to a `Put`, as an HTTP status
unfoldable pub answer_put : Store × PutOutcome → Api → Api × ℕ
answer_put (s, conflict_error cs) a = (record a { store = s }, 409)
answer_put (s, persist_error) a = (record a { store = s }, 500)
answer_put (s, put_ok r) a =
    (trigger_reconcile (record a { store = s }), if r.created then 201 else 200)

-- `known` and `upserted` are as in `put`.
unfoldable pub handle_put_app :
    Map Bool → Option Bool → GoString → Option AppWatchConfigSpec → Api → Api × ℕ
handle_put_app known upserted app body a =
    on_some body (a, 400)
      (λ spec.
        if is_empty_map spec.clusters
        then (a, 400)
        else answer_put (put known upserted app spec a.store) a)

-- An error text with "not found" in it is answered by 404: of the store itself, or, where
-- `says_not_found`, of the API's delete.
unfoldable pub handle_delete_app : Bool → Bool → GoString → Api → Api × ℕ
handle_delete_app deleted says_not_found app a =
    let (s, ok) = delete deleted app a.store in
    if ok
    then (trigger_reconcile (record a { store = s }), 200)
    else if not (has_key app a.store.apps)
    then (a, 404)
    else if says_not_found
    then (a, 404)
    else (a, 500)

unfoldable pub handle_request : Map Bool → Option Bool → Bool → Bool → Request → Api → Api × ℕ
handle_request known upserted deleted says_not_found r a =
    if r.sub == [] && r.method == str "GET"
    then (a, 200)
    else if not (r.sub == []) && r.method == str "PUT"
    then handle_put_app known upserted r.sub r.body a
    else if not (r.sub == []) && r.method == str "DELETE"
    then handle_delete_app deleted says_not_found r.sub a
    else (a, 405)
