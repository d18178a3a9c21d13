-- ===== src/Dispatch/Targets.antt =====
-- internal/dispatch: log.go, audit_target.go, slack.go and slack_bot.go, the targets.
use k8s_deploy_monitor_opera.Prelude.{
  ℕ, Option, none, some, List, [], ◌∷◌, ◌++◌, GoString, str, leb, ◌==◌, if◌then◌else◌,
}
use k8s_deploy_monitor_opera.Event.{RolloutEvent}
use k8s_deploy_monitor_opera.Diagnostic.Logs.{decimal}
use k8s_deploy_monitor_opera.Record.Server.{Client}
use k8s_deploy_monitor_opera.Persistence.Recorder.{record_rollout}
use k8s_deploy_monitor_opera.Dispatch.{Target}

-- How an HTTP request ends: it cannot be made, it fails, or it is answered with a status.
pub data PostResult : Type 0 where
  not_made : GoString → PostResult
  not_answered : GoString → PostResult
  answered : ℕ → PostResult

unfoldable pub join : GoString → List GoString → GoString
join sep [] = []
join sep (s ∷ []) = s
join sep (s ∷ t ∷ ss) = s ++ sep ++ join sep (t ∷ ss)

abbrev arrow : GoString
arrow = 32 ∷ 226 ∷ 134 ∷ 146 ∷ 32 ∷ []

-- the text of a notification
unfoldable pub rollout_text : RolloutEvent → GoString
rollout_text e =
    str "*Rollout detected:* `"
    ++ e.deployment_name
    ++ str "` (`"
    ++ e.namespace
    ++ str "`) on *"
    ++ e.cluster_id
    ++ str "*\n"
    ++ join (str ", ") e.old_images
    ++ arrow
    ++ join (str ", ") e.new_images

-- the error of a target, by the words of its own
unfoldable pub post_error : GoString → GoString → GoString → PostResult → Option GoString
post_error making failing returning (not_made e) = some (making ++ str ": " ++ e)
post_error making failing returning (not_answered e) = some (failing ++ str ": " ++ e)
post_error making failing returning (answered status) =
    if leb 400 status then some (returning ++ str " returned " ++ decimal status) else none

unfoldable pub log_target : (W : Type 0) → Target W
log_target W = record { name = str "log"; send = λ e w. (w, none) }

unfoldable pub audit_target : (client : Client) → (ℕ → GoString) → GoString → Target client.Server
audit_target client format_time namespace = record {
  name = str "audit";
  send = record_rollout client format_time namespace;
}

-- `post` posts a text to a URL.
unfoldable pub slack_target :
    (W : Type 0) → (GoString → GoString → W → W × PostResult) → GoString → Target W
slack_target W post webhook_url = record {
  name = str "slack";
  send = λ e w.
      let (w', result) = post webhook_url (rollout_text e) w in
      (
        w',
        post_error (str "creating slack request") (str "slack webhook failed") (str "slack webhook")
            result,
      );
}

-- `post` posts a text to a channel, with a token. An event without a channel is passed over.
unfoldable pub slack_bot_target :
    (W : Type 0) → (GoString → GoString → GoString → W → W × PostResult) → GoString → Target W
slack_bot_target W post bot_token = record {
  name = str "slack-bot";
  send = λ e w.
      let (w', result) = post bot_token e.slack_channel (rollout_text e) w in
      if e.slack_channel == [] then (w, none) else (
        w',
        post_error (str "creating slack bot request") (str "slack bot API failed")
            (str "slack bot API") result,
      );
}
