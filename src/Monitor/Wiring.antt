-- ===== src/Monitor/Wiring.antt =====
-- Parts of the monitor that work together.
use k8s_deploy_monitor_opera.Prelude.{
  Bool, true, not, ◌&&◌, ◌||◌, Option, some, List, [], ◌∷◌, GoString, str, Map, ◌==◌, join_key, All,
  All-append, if_cases, ◌≡◌, refl, arith,
}
use k8s_deploy_monitor_opera.Event.{RolloutEvent}
use k8s_deploy_monitor_opera.Watchlist.{
  Store, AppWatchConfigSpec, PutResult, put_ok, put, claims, lookup_entry,
}
use k8s_deploy_monitor_opera.Watchlist.Ownership.{is_claimed, put-owns}
use k8s_deploy_monitor_opera.Config.Fields.{Config, ℤ}
use k8s_deploy_monitor_opera.Config.Sources.{Env}
use k8s_deploy_monitor_opera.Config.Settings.{FileResult, settings, load, uses_slack}
use k8s_deploy_monitor_opera.Config.Settings.Loaded.{HasServices, load-IsValid}
use k8s_deploy_monitor_opera.Config.Environment.{NamespaceLookup}
use k8s_deploy_monitor_opera.Monitor.{
  TargetKind, log_target, audit_target, slack_target, slack_bot_target, investigation_target,
  diagnostic_target, add_if, posts_to_slack, investigates, targets_of, enrich_event,
}

-- What a target sends to is set.
abbrev pub is_addressed : Config → TargetKind → Bool
is_addressed c log_target = true
is_addressed c audit_target = c.persistence_enabled
is_addressed c slack_target = not (c.slack_webhook_url == [])
is_addressed c slack_bot_target = not (c.slack_bot_token == [])
is_addressed c (investigation_target mode) =
    not (c.slack_webhook_url == []) && (mode == str "runbook" || not (c.holmes_api_url == []))
is_addressed c diagnostic_target = true

add_if-All :
    (c : Config) (b : Bool) (t : TargetKind) (ts : List TargetKind)
    → (b ≡ true → is_addressed c t ≡ true)
    → All (λ u. is_addressed c u ≡ true) ts
    → All (λ u. is_addressed c u ≡ true) (add_if b t ts)
unfolding add_if
add_if-All c b t ts h rest =
    if_cases (All (λ u. is_addressed c u ≡ true)) b _ _
      (λ set. All-append (λ u. is_addressed c u ≡ true) ts (t ∷ []) rest (h set, tt))
      (λ unset. rest)

targets_of-All : (c : Config) → HasServices c → All (λ t. is_addressed c t ≡ true) (targets_of c)
unfolding targets_of posts_to_slack investigates uses_slack
targets_of-All c h =
    add_if-All c _ diagnostic_target _ (λ e. refl)
      (add_if-All c _ (investigation_target c.investigation_mode) _
        (λ e. ground (arith, e, h.known_investigation, h.runbook_url, h.holmes_urls))
        (add_if-All c _ slack_bot_target _ (λ e. e)
          (add_if-All c _ slack_target _ (λ e. ground (arith, e, h.slack_url))
            (add_if-All c _ audit_target _ (λ e. e) (refl, tt)))))

-- With settings that `Load` returns, every target of the monitor has the URLs, the token or the
-- persistence that it uses.
pub load-targets_addressed :
    (atoi : GoString → Option ℤ) (load_file : GoString → FileResult) (env : Env) (c : Config)
    → load atoi load_file env ≡ settings c
    → All (λ t. is_addressed c t ≡ true) (targets_of c)
load-targets_addressed atoi load_file env c h =
    targets_of-All c (load-IsValid atoi load_file env c h).0

-- After a successful `Put`, an event of a namespace that was accepted gets the app and the channel of
-- the `Put`, whatever the environments say.
pub enrich_event-put :
    (known : Map Bool) (upserted : Option Bool) (app : GoString) (spec : AppWatchConfigSpec)
    → (s : Store) (r : PutResult) (l : Option NamespaceLookup) (routing : Option (Map GoString))
    → (event : RolloutEvent) → (put known upserted app spec s).1 ≡ put_ok r
    → is_claimed (join_key event.cluster_id event.namespace) (claims r.accepted) ≡ true
    → enrich_event (some (put known upserted app spec s).0) l routing event
      ≡ record event { app = app; slack_channel = spec.slack_channel }
unfolding enrich_event lookup_entry
enrich_event-put known upserted app spec s r l routing event ok claimed =
    rw (put-owns known upserted app spec s r ok _ claimed) refl
