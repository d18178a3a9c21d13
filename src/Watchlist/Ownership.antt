-- ===== src/Watchlist/Ownership.antt =====
-- Who owns a namespace after the operations of the watchlist store.
use k8s_deploy_monitor_opera.Prelude.{
  Bool, true, false, Option, none, some, List, [], ◌∷◌, ◌++◌, GoString, Map, lookup, insert,
  lookup-insert, any, All, ◌==◌, eq_iff, join_key, if◌then◌else◌, ◌≡◌, refl, arith, ◌∙◌, Bool-cases,
  inl, inr, ap, ◌≢◌,
}
use k8s_deploy_monitor_opera.Persistence.Names.{sanitize_name}
use k8s_deploy_monitor_opera.Watchlist.{
  WatchEntry, AppWatchConfigSpec, Conflict, Store, PutResult, put_ok, claims, add_claims,
  add_to_index, remove_from_index, accepted_of, conflicts_of, commit, put_after, put_checked, put,
  load_all, load_items,
}

-- the pair is one of the claims
abbrev pub is_claimed : GoString → List (GoString × GoString) → Bool
is_claimed key cs = any (λ c. join_key c.0 c.1 == key) cs

pub lookup-add_claims :
    (entry : WatchEntry) (cs : List (GoString × GoString)) (m : Map WatchEntry) (key : GoString)
    → lookup key (add_claims entry cs m) ≡ (if is_claimed key cs then some entry else lookup key m)
unfolding add_claims
lookup-add_claims entry [] m key = refl
lookup-add_claims entry ((cluster, ns) ∷ rest) m key = ground (
  arith,
  lookup-add_claims entry rest (insert (join_key cluster ns) entry m) key,
  lookup-insert (join_key cluster ns) key entry m,
)

-- an entry of another app survives
remove_from_index-other :
    (app key : GoString) (m : Map WatchEntry) (e : WatchEntry)
    → lookup key m ≡ some e
    → e.app == app ≡ false
    → lookup key (remove_from_index app m) ≡ some e
unfolding remove_from_index lookup
remove_from_index-other app key [] e h ne = cc
remove_from_index-other app key ((k, entry) ∷ rest) e h ne =
    ground (arith, remove_from_index-other app key rest e)

-- without conflicts no claim is of a pair that another app owns
unclaimed :
    (app key : GoString) (m : Map WatchEntry) (cs : List (GoString × GoString)) (e : WatchEntry)
    → conflicts_of app m cs ≡ []
    → lookup key m ≡ some e
    → e.app == app ≡ false
    → is_claimed key cs ≡ false
unfolding conflicts_of
unclaimed app key m [] e none_left h ne = refl
unclaimed app key m ((cluster, ns) ∷ rest) e none_left h ne =
    ground (arith, unclaimed app key m rest e, eq_iff (join_key cluster ns) key)

put_after-commit :
    (cs : List Conflict) (upserted : Option Bool) (app : GoString) (spec : AppWatchConfigSpec)
    (rejected : Map GoString) (s : Store) (r : PutResult)
    → (put_after cs upserted app spec rejected s).1 ≡ put_ok r
    → (cs ≡ [])
      × ((r.accepted ≡ spec.clusters)
          × ((put_after cs upserted app spec rejected s).0 ≡ commit app spec s))
unfolding put_after
put_after-commit (c ∷ cs) upserted app spec rejected s r e = cc
put_after-commit [] none app spec rejected s r e = cc
put_after-commit [] (some created) app spec rejected s r e = ground arith

put_checked-commit :
    (known : Map Bool) (upserted : Option Bool) (app : GoString) (spec : AppWatchConfigSpec)
    (checked s : Store) (r : PutResult)
    → (put_checked known upserted app spec checked s).1 ≡ put_ok r
    → (conflicts_of app checked.index (claims (accepted_of known spec.clusters)) ≡ [])
      × ((r.accepted ≡ accepted_of known spec.clusters)
          × ((put_checked known upserted app spec checked s).0
              ≡ commit app
                  (record {
                    slack_channel = spec.slack_channel;
                    clusters = accepted_of known spec.clusters;
                  })
                  s))
unfolding put_checked
put_checked-commit known upserted app spec checked s r e = put_after-commit _ upserted app _ _ s r e

pub put-commit :
    (known : Map Bool) (upserted : Option Bool) (app : GoString) (spec : AppWatchConfigSpec)
    (s : Store) (r : PutResult)
    → (put known upserted app spec s).1 ≡ put_ok r
    → (conflicts_of app s.index (claims (accepted_of known spec.clusters)) ≡ [])
      × ((r.accepted ≡ accepted_of known spec.clusters)
          × ((put known upserted app spec s).0
              ≡ commit app
                  (record {
                    slack_channel = spec.slack_channel;
                    clusters = accepted_of known spec.clusters;
                  })
                  s))
unfolding put
put-commit known upserted app spec s r e = put_checked-commit known upserted app spec s s r e

module _ (known : Map Bool) (upserted : Option Bool) (app : GoString) (spec : AppWatchConfigSpec)
    (checked s : Store) (r : PutResult)
    (ok : (put_checked known upserted app spec checked s).1 ≡ put_ok r) where
  -- the index after a successful `Put`
  pub lookup-put_checked :
      (key : GoString)
      → lookup key (put_checked known upserted app spec checked s).0.index ≡ (
          if is_claimed key (claims r.accepted)
          then some (record { app = app; slack_channel = spec.slack_channel })
          else lookup key (remove_from_index app s.index))
  lookup-put_checked key =
      let c = put_checked-commit known upserted app spec checked s r ok in
      rw (c.1.1, c.1.0)
        (unfold commit add_to_index in
          lookup-add_claims (record { app = app; slack_channel = spec.slack_channel })
            (claims (accepted_of known spec.clusters)) (remove_from_index app s.index) key)

  -- A successful `Put` takes no pair that another app owned when it checked for conflicts: if
  -- another app owns the pair also when the `Put` changes the index, whatever calls came in between,
  -- it still owns it afterwards, with the same entry.
  pub put-keeps_others :
      (key : GoString) (before other : WatchEntry)
      → lookup key checked.index ≡ some before
      → before.app == app ≡ false
      → lookup key s.index ≡ some other
      → other.app == app ≡ false
      → lookup key (put_checked known upserted app spec checked s).0.index ≡ some other
  put-keeps_others key before other h₀ ne₀ h ne =
      let c = put_checked-commit known upserted app spec checked s r ok in
      lookup-put_checked key
      ∙ rw
          (ap (λ a. is_claimed key (claims a)) c.1.0
            ∙ unclaimed app key checked.index (claims (accepted_of known spec.clusters)) before c.0
                h₀ ne₀)
          (remove_from_index-other app key s.index other h ne)

-- After a successful `Put` the app owns every pair of an accepted cluster, with its channel.
pub put-owns :
    (known : Map Bool) (upserted : Option Bool) (app : GoString) (spec : AppWatchConfigSpec)
    (s : Store) (r : PutResult)
    → (put known upserted app spec s).1 ≡ put_ok r
    → (key : GoString) → is_claimed key (claims r.accepted) ≡ true
    → lookup key (put known upserted app spec s).0.index
      ≡ some (record { app = app; slack_channel = spec.slack_channel })
unfolding put
put-owns known upserted app spec s r ok key claimed =
    lookup-put_checked known upserted app spec s s r ok key ∙ rw claimed refl

-- a pair that an app of another name than `app` owns
record IsForeign (app key : GoString) (s : Store) : Type 0 where
  pub owner : WatchEntry
  pub owned : lookup key s.index ≡ some owner
  pub renamed : owner.app == app ≡ false

-- the store after one object of `LoadAll`
abbrev load_item : GoString → AppWatchConfigSpec → Store → Store
load_item name spec s = record {
  apps = insert name spec s.apps;
  index = add_to_index name spec s.index;
}

abbrev IsOther : GoString → GoString × AppWatchConfigSpec → Type 0
IsOther app object = object.0 == app ≡ false

load_item-claims :
    (app key name : GoString) (spec : AppWatchConfigSpec) (s : Store)
    → name == app ≡ false
    → is_claimed key (claims spec.clusters) ≡ true
    → IsForeign app key (load_item name spec s)
unfolding add_to_index
load_item-claims app key name spec s ne claimed = record {
  owner = record { app = name; slack_channel = spec.slack_channel };
  owned =
      lookup-add_claims (record { app = name; slack_channel = spec.slack_channel })
        (claims spec.clusters) s.index key
      ∙ rw claimed refl;
  renamed = ne;
}

load_item-IsForeign :
    (app key name : GoString) (spec : AppWatchConfigSpec) (s : Store)
    → name == app ≡ false
    → IsForeign app key s
    → IsForeign app key (load_item name spec s)
load_item-IsForeign app key name spec s ne f =
    elim (Bool-cases (is_claimed key (claims spec.clusters))) [
      | inl claimed ↦ load_item-claims app key name spec s ne claimed
      | inr free ↦ record {
        owner = f.owner;
        owned =
            unfold add_to_index in
            lookup-add_claims (record { app = name; slack_channel = spec.slack_channel })
              (claims spec.clusters) s.index key
            ∙ rw free f.owned;
        renamed = f.renamed;
      }
    ]

load_items-IsForeign :
    (app key : GoString) (items : List (GoString × AppWatchConfigSpec)) (s : Store)
    → All (IsOther app) items
    → IsForeign app key s
    → IsForeign app key (load_items items s)
unfolding load_items
load_items-IsForeign app key [] s a f = f
load_items-IsForeign app key ((name, spec) ∷ rest) s a f =
    load_items-IsForeign app key rest (load_item name spec s) a.1
      (load_item-IsForeign app key name spec s a.0 f)

load_items-claims :
    (app key name : GoString) (spec : AppWatchConfigSpec)
    (before after : List (GoString × AppWatchConfigSpec)) (s : Store)
    → name == app ≡ false
    → All (IsOther app) after
    → is_claimed key (claims spec.clusters) ≡ true
    → IsForeign app key (load_items (before ++ (name, spec) ∷ after) s)
unfolding load_items
load_items-claims app key name spec [] after s ne a claimed =
    load_items-IsForeign app key after (load_item name spec s) a
      (load_item-claims app key name spec s ne claimed)
load_items-claims app key name spec (object ∷ before) after s ne a claimed =
    load_items-claims app key name spec before after (load_item object.0 object.1 s) ne a claimed

-- An app whose name `sanitizeName` changes loses its pairs at a restart: `LoadAll` indexes its stored
-- object under the sanitized name, and a `Put` under the original name that claims a pair of the
-- stored spec, made when nothing has changed the store since, is refused. This holds whatever other
-- objects are stored, if none that is listed after the app's has the original name.
pub put-after_restart :
    (known : Map Bool) (upserted : Option Bool) (app : GoString) (spec stored : AppWatchConfigSpec)
    (before after : List (GoString × AppWatchConfigSpec)) (s : Store) (key : GoString)
    → sanitize_name app == app ≡ false
    → All (IsOther app) after
    → is_claimed key (claims stored.clusters) ≡ true
    → is_claimed key (claims (accepted_of known spec.clusters)) ≡ true
    → (r : PutResult)
    → (put known upserted app spec
        (load_all (some (before ++ (sanitize_name app, stored) ∷ after)) s)).1
      ≢ put_ok r
unfolding load_all
put-after_restart known upserted app spec stored before after s key renamed others kept claimed r
      e =
    let loaded = load_all (some (before ++ (sanitize_name app, stored) ∷ after)) s in
    let f : IsForeign app key loaded =
      load_items-claims app key (sanitize_name app) stored before after _ renamed others kept in
    let c = put-commit known upserted app spec loaded r e in
    cc (
      unclaimed app key loaded.index (claims (accepted_of known spec.clusters)) f.owner c.0 f.owned
          f.renamed,
      claimed,
    )
