-- ===== src/Watchlist/Persisted/Examples.antt =====
-- A watchlist on a server that keeps its objects in a map.
use k8s_deploy_monitor_opera.Prelude.{
  Bool, true, some, [], ◌∷◌, str, Map, has_key, insert, lookup, index, ◌==◌, if◌then◌else◌, ◌≡◌,
  refl,
}
use k8s_deploy_monitor_opera.Persistence.Names.{
  sanitize_name, trim, trim_left, replace_byte, lower_byte,
}
use k8s_deploy_monitor_opera.Watchlist.{
  AppWatchConfigSpec, Store, PutResult, put, put_checked, put_after, conflicts_of, claims,
  accepted_of, rejected_of, load_all,
}
use k8s_deploy_monitor_opera.Watchlist.Persisted.{
  exists, not_found, WatchClient, upsert_after, upsert_crd, write_unless, put_persist,
}
use k8s_deploy_monitor_opera.Watchlist.Persisted.Restart.{IsKept, load_all-put}

abbrev client : WatchClient
client = record {
  Server = Map AppWatchConfigSpec;
  get = λ name s. if has_key name s then exists else not_found;
  list_items = λ s. some s;
  create = λ name spec s. (insert name spec s, true);
  update = λ name spec s. (insert name spec s, true);
}

client-IsKept : IsKept client (λ s. s)
client-IsKept = record {
  listed = λ s. refl;
  created = λ name spec s h. refl;
  updated = λ name spec s h. refl;
}

abbrev cart_spec : AppWatchConfigSpec
cart_spec = record { slack_channel = str "#cart"; clusters = (str "east", str "shop" ∷ []) ∷ [] }

abbrev pay_spec : AppWatchConfigSpec
pay_spec = record { slack_channel = str "#pay"; clusters = (str "east", str "pay" ∷ []) ∷ [] }

abbrev server : Map AppWatchConfigSpec
server = (str "cart", cart_spec) ∷ []

abbrev known : Map Bool
known = (str "east", true) ∷ []

abbrev empty : Store
empty = record { index = []; apps = [] }

abbrev result : PutResult
result = record { created = true; accepted = (str "east", str "pay" ∷ []) ∷ []; rejected = [] }

load_all-put_example :
    lookup
      (str "east/pay")
      (load_all
        (client.list_items (put_persist client known (str "pay") pay_spec empty server).1)
        empty).index
    ≡ lookup (str "east/pay") (put_persist client known (str "pay") pay_spec empty server).0.0.index
unfolding put_persist put put_checked put_after conflicts_of claims accepted_of rejected_of
    write_unless upsert_crd upsert_after has_key index lookup ◌==◌ sanitize_name trim trim_left
    replace_byte lower_byte
load_all-put_example =
    load_all-put client (λ s. s) client-IsKept known (str "pay") pay_spec empty empty server result
      (str "east/pay") refl refl (refl, tt) (refl, tt) refl
