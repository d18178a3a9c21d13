-- ===== src/Watchlist/Examples.antt =====
-- Concrete runs of the watchlist store.
use k8s_deploy_monitor_opera.Prelude.{
  arith, Bool, true, false, some, [], ◌∷◌, str, Map, lookup, index, ◌==◌, ◌≡◌, ◌≢◌, refl,
}
use k8s_deploy_monitor_opera.Persistence.Names.{
  sanitize_name, trim, trim_left, replace_byte, lower_byte,
}
use k8s_deploy_monitor_opera.Watchlist.{
  WatchEntry, AppWatchConfigSpec, Store, PutResult, put_ok, put, put_checked, put_after,
  conflicts_of, claims, accepted_of, rejected_of, load_all,
}
use k8s_deploy_monitor_opera.Watchlist.Handler.{
  Request, Api, handle_request, handle_put_app, answer_put, is_empty_map,
}
use k8s_deploy_monitor_opera.Watchlist.Handler.Answers.{refused_changes_nothing}
use k8s_deploy_monitor_opera.Watchlist.Ownership.{put-keeps_others, put-after_restart}

abbrev known : Map Bool
known = (str "east", true) ∷ []

abbrev cart : WatchEntry
cart = record { app = str "cart"; slack_channel = str "#cart" }

abbrev store : Store
store = record {
  index = (str "east/shop", cart) ∷ [];
  apps =
      (
        str "cart",
        record { slack_channel = str "#cart"; clusters = (str "east", str "shop" ∷ []) ∷ [] },
      )
      ∷ [];
}

-- a spec with a known and an unknown cluster
abbrev spec : AppWatchConfigSpec
spec = record {
  slack_channel = str "#pay";
  clusters = (str "east", str "pay" ∷ []) ∷ (str "north", str "pay" ∷ []) ∷ [];
}

abbrev result : PutResult
result = record {
  created = true;
  accepted = (str "east", str "pay" ∷ []) ∷ [];
  rejected = (str "north", str "unknown cluster") ∷ [];
}

-- the same store, once another app has got a pair
abbrev busy : Store
busy = record store {
  index = (str "west/ops", record { app = str "ops"; slack_channel = [] }) ∷ store.index;
}

put-result : (put known (some true) (str "Pay") spec store).1 ≡ put_ok result
unfolding put put_checked put_after conflicts_of claims accepted_of rejected_of index lookup ◌==◌
put-result = refl

checked-result : (put_checked known (some true) (str "Pay") spec store busy).1 ≡ put_ok result
unfolding put_checked put_after conflicts_of claims accepted_of rejected_of index lookup ◌==◌
checked-result = refl

put-keeps_others_example :
    lookup (str "east/shop") (put_checked known (some true) (str "Pay") spec store busy).0.index
    ≡ some cart
unfolding lookup ◌==◌
put-keeps_others_example =
    put-keeps_others known (some true) (str "Pay") spec store busy result checked-result
      (str "east/shop") cart cart refl refl refl refl

put-after_restart_example :
    (put known
      (some false)
      (str "Pay")
      spec
      (load_all (some ((str "cart", spec) ∷ (sanitize_name (str "Pay"), spec) ∷ [])) store)).1
    ≢ put_ok result
unfolding claims accepted_of index lookup ◌==◌ sanitize_name trim trim_left replace_byte lower_byte
put-after_restart_example =
    put-after_restart known (some false) (str "Pay") spec spec ((str "cart", spec) ∷ []) [] store
      (str "east/pay") refl tt refl refl result

-- a request for a pair of another app
abbrev conflicting : Request
conflicting = record {
  method = str "PUT";
  sub = str "pay";
  body =
      some (record { slack_channel = str "#pay"; clusters = (str "east", str "shop" ∷ []) ∷ [] });
}

abbrev api : Api
api = record { store = store; triggered = false }

refused_changes_nothing_example :
    (handle_request known (some true) true false conflicting api).0 ≡ api
unfolding handle_request handle_put_app answer_put is_empty_map put put_checked put_after
    conflicts_of claims accepted_of rejected_of index lookup ◌==◌
refused_changes_nothing_example =
    refused_changes_nothing known (some true) true false conflicting api (omega arith)
