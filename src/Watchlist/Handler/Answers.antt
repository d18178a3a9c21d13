-- ===== src/Watchlist/Handler/Answers.antt =====
-- What a request that is refused leaves behind.
use k8s_deploy_monitor_opera.Prelude.{
  ℕ, Bool, true, false, not, ◌&&◌, Option, none, some, List, [], ◌∷◌, GoString, str, Map, has_key,
  ◌==◌, if_both, ◌≡◌, ◌⊎◌, inl, inr, refl, arith, ◌≤◌, ◌<◌,
}
use k8s_deploy_monitor_opera.Watchlist.{
  AppWatchConfigSpec, Conflict, put, put_checked, put_after, delete,
}
use k8s_deploy_monitor_opera.Watchlist.Handler.{
  Request, Api, trigger_reconcile, is_empty_map, answer_put, handle_put_app, handle_delete_app,
  handle_request,
}

-- A refusal changes nothing; a success of a change leaves a signal for the manager.
abbrev Answered : Api → Api × ℕ → Type 0
Answered a r = (r.0 ≡ a) ⊎ ((r.0.triggered ≡ true) × (r.1 < 300))

answer_put-Answered :
    (known : Map Bool) (cs : List Conflict) (upserted : Option Bool) (app : GoString)
    → (spec : AppWatchConfigSpec) (rejected : Map GoString) (a : Api)
    → Answered a (answer_put (put_after cs upserted app spec rejected a.store) a)
unfolding answer_put put_after trigger_reconcile
answer_put-Answered known (c ∷ cs) upserted app spec rejected a = inl refl
answer_put-Answered known [] none app spec rejected a = inl refl
answer_put-Answered known [] (some true) app spec rejected a = inr (refl, omega arith)
answer_put-Answered known [] (some false) app spec rejected a = inr (refl, omega arith)

handle_put_app-Answered :
    (known : Map Bool) (upserted : Option Bool) (app : GoString) (body : Option AppWatchConfigSpec)
    → (a : Api) → Answered a (handle_put_app known upserted app body a)
unfolding handle_put_app put put_checked
handle_put_app-Answered known upserted app none a = inl refl
handle_put_app-Answered known upserted app (some spec) a =
    if_both (Answered a) (is_empty_map spec.clusters) _ _ (inl refl)
      (answer_put-Answered known _ upserted app _ _ a)

handle_delete_app-Answered :
    (deleted says_not_found : Bool) (app : GoString) (a : Api)
    → Answered a (handle_delete_app deleted says_not_found app a)
unfolding handle_delete_app trigger_reconcile
handle_delete_app-Answered deleted says_not_found app a =
    if_both (Answered a) (delete deleted app a.store).1 _ _ (inr (refl, omega arith)) (
      if_both (Answered a) (not (has_key app a.store.apps)) _ _ (inl refl)
        (if_both (Answered a) says_not_found _ _ (inl refl) (inl refl)))

handle_request-Answered :
    (known : Map Bool) (upserted : Option Bool) (deleted says_not_found : Bool) (r : Request)
    (a : Api)
    → Answered a (handle_request known upserted deleted says_not_found r a)
unfolding handle_request
handle_request-Answered known upserted deleted says_not_found r a =
    if_both (Answered a) (r.sub == [] && r.method == str "GET") _ _ (inl refl) (
      if_both (Answered a) (not (r.sub == []) && r.method == str "PUT") _ _
        (handle_put_app-Answered known upserted r.sub r.body a)
        (if_both (Answered a) (not (r.sub == []) && r.method == str "DELETE") _ _
          (handle_delete_app-Answered deleted says_not_found r.sub a) (inl refl)))

-- Every request that is answered with an error status leaves the watchlist and the reconcile trigger
-- as they were.
pub refused_changes_nothing :
    (known : Map Bool) (upserted : Option Bool) (deleted says_not_found : Bool) (r : Request)
    (a : Api)
    → 400 ≤ (handle_request known upserted deleted says_not_found r a).1
    → (handle_request known upserted deleted says_not_found r a).0 ≡ a
refused_changes_nothing known upserted deleted says_not_found r a error =
    elim (handle_request-Answered known upserted deleted says_not_found r a) [
      | inl same ↦ same
      | inr (_, success) ↦ absurd (omega (arith, error, success))
    ]
