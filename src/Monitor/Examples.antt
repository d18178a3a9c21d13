-- ===== src/Monitor/Examples.antt =====
-- A monitor that posts to Slack, and an event of an app on its watchlist.
use k8s_deploy_monitor_opera.Prelude.{
  true, none, some, [], ◌∷◌, str, ◌==◌, lookup, index, ◌≡◌, refl, All,
}
use k8s_deploy_monitor_opera.Event.{RolloutEvent}
use k8s_deploy_monitor_opera.Config.Settings.{not_exist}
use k8s_deploy_monitor_opera.Config.Settings.Examples.{env, slack_config, slack_settings}
use k8s_deploy_monitor_opera.Watchlist.{
  AppWatchConfigSpec, Store, PutResult, put, put_checked, put_after, conflicts_of, claims,
  accepted_of, rejected_of,
}
use k8s_deploy_monitor_opera.Monitor.{targets_of, enrich_event}
use k8s_deploy_monitor_opera.Monitor.Wiring.{is_addressed, load-targets_addressed, enrich_event-put}

load-targets_addressed_example :
    All (λ t. is_addressed slack_config t ≡ true) (targets_of slack_config)
load-targets_addressed_example =
    load-targets_addressed (λ v. none) (λ path. not_exist) env slack_config slack_settings

abbrev store : Store
store = record { index = []; apps = [] }

abbrev spec : AppWatchConfigSpec
spec = record { slack_channel = str "#shop"; clusters = (str "east", str "shop" ∷ []) ∷ [] }

abbrev result : PutResult
result = record { created = true; accepted = (str "east", str "shop" ∷ []) ∷ []; rejected = [] }

abbrev event : RolloutEvent
event = record {
  cluster_id = str "east";
  namespace = str "shop";
  deployment_name = str "cart";
  old_template_hash = str "v1";
  new_template_hash = str "v2";
  old_images = [];
  new_images = [];
  app = [];
  slack_channel = [];
  timestamp = 5;
}

enrich_event-put_example :
    enrich_event
      (some (put ((str "east", true) ∷ []) (some true) (str "cart") spec store).0)
      none
      none
      event
    ≡ record event { app = str "cart"; slack_channel = str "#shop" }
unfolding put put_checked put_after conflicts_of claims accepted_of rejected_of index lookup ◌==◌
enrich_event-put_example =
    enrich_event-put ((str "east", true) ∷ []) (some true) (str "cart") spec store result none none
      event refl refl
